-- ===== src/Decode/Vector.antt =====
-- src/decode.c: `ldst_vector_multi` and `ldst_vector_single`, the loads and stores of AdvSIMD
-- structures. A lane is `n` bytes of a vector register, from byte `off` on.
use arm64emu_system.Base.{ℕ, zero, suc, ◌+◌, ◌*◌, ◌/◌, ◌%◌, ◌^◌, Bool, not, ◌||◌}
use arm64emu_system.Base.{Option, none, some, ◌==◌, leb, if◌then◌else◌, has_bit, bit, u64}
use arm64emu_system.Cpu.{Cpu, reg_x, reg_xsp, set_xsp}
use arm64emu_system.Decode.{field, undefined}
use arm64emu_system.Decode.Access.{
  Access, ◌>>=◌, ◌>>◌, pure, cpu, on_cpu, stop, read, write, fp_access_ok, sp_align_ok, set_v,
  vreg_load, vreg_store,
}

unfoldable pub lane : ℕ → ℕ → ℕ → ℕ
lane v off n = v / 2 ^ (8 * off) % 2 ^ (8 * n)

unfoldable pub set_lane : ℕ → ℕ → ℕ → ℕ → ℕ
set_lane v off n t =
    v % 2 ^ (8 * off)
    + t % 2 ^ (8 * n) * 2 ^ (8 * off)
    + v / 2 ^ (8 * (off + n)) * 2 ^ (8 * (off + n))

-- `nregs` and the interleave factor by opcode.
unfoldable pub multi_shape : ℕ → Option (ℕ × ℕ)
multi_shape opcode =
    if opcode == 0x0
    then some (4, 4)
    else if opcode == 0x2
    then some (4, 1)
    else if opcode == 0x4
    then some (3, 3)
    else if opcode == 0x6
    then some (3, 1)
    else if opcode == 0x7
    then some (1, 1)
    else if opcode == 0x8
    then some (2, 2)
    else if opcode == 0xa
    then some (2, 1)
    else none

-- Whole registers one after the other: the registers still to go, the next one, its address.
unfoldable pub contiguous : {W : Type 0} → Bool → ℕ → ℕ → ℕ → ℕ → Access W (Unit {0})
contiguous l regbytes zero vt addr = pure tt
contiguous l regbytes (suc left) vt addr = do
  (if l then vreg_load vt addr regbytes else vreg_store vt addr regbytes)
  contiguous l regbytes left ((vt + 1) % 32) (u64 (addr + regbytes))

-- One element of a structure: loaded into its lane, or stored from it.
unfoldable pub move_lane : {W : Type 0} → Bool → ℕ → ℕ → ℕ → ℕ → Access W (Unit {0})
move_lane l vt off ebytes addr =
    if l
    then (do t ← read addr ebytes; on_cpu (λ c. set_v c vt (set_lane (c.v vt) off ebytes t)))
    else (do c ← cpu; write addr ebytes (lane (c.v vt) off ebytes))

-- The loops over the elements and, inside, the registers: the accesses still to go, and the index
-- of the next one.
unfoldable pub interleaved : {W : Type 0} → Bool → ℕ → ℕ → ℕ → ℕ → ℕ → ℕ → Access W (Unit {0})
interleaved l rt nregs ebytes zero k addr = pure tt
interleaved l rt nregs ebytes (suc left) k addr = do
  move_lane l ((rt + k % nregs) % 32) (k / nregs * ebytes) ebytes addr
  interleaved l rt nregs ebytes left (k + 1) (u64 (addr + ebytes))

-- The destinations are cleared before the first element is loaded.
unfoldable pub clear_registers : ℕ → ℕ → Cpu → Cpu
clear_registers vt zero c = c
clear_registers vt (suc left) c = clear_registers ((vt + 1) % 32) left (set_v c vt 0)

-- The post-index of both instructions.
abbrev pub post_index : {W : Type 0} → ℕ → ℕ → ℕ → Access W (Unit {0})
post_index insn base total =
    let rm = field insn 20 16 in
    if has_bit insn 23
    then on_cpu
        (λ c. set_xsp c (field insn 9 5) (u64 (base + (if rm == 31 then total else reg_x c rm))))
    else pure tt

unfoldable pub multi_access : {W : Type 0} → ℕ → ℕ → ℕ → ℕ → Access W (Unit {0})
multi_access insn nregs sel base =
    let l = has_bit insn 22 in
    let rt = field insn 4 0 in
    let ebytes = 2 ^ field insn 11 10 in
    let regbytes = if has_bit insn 30 then 16 else 8 in
    if sel == 1 then contiguous l regbytes nregs rt base else do
      (if l then on_cpu (clear_registers rt nregs) else pure tt)
      interleaved l rt nregs ebytes (regbytes / ebytes * nregs) 0 base

unfoldable pub multi_shaped : {W : Type 0} → ℕ → Option (ℕ × ℕ) → Access W (Unit {0})
multi_shaped insn none = stop undefined
multi_shaped insn (some (nregs, sel)) =
    let rn = field insn 9 5 in
    let regbytes = if has_bit insn 30 then 16 else 8 in
    do
      c ← cpu
      sp_align_ok rn
      multi_access insn nregs sel (reg_xsp c rn)
      post_index insn (reg_xsp c rn) (nregs * regbytes)

unfoldable pub ldst_vector_multi : {W : Type 0} → ℕ → Access W (Unit {0})
ldst_vector_multi insn = do fp_access_ok; multi_shaped insn (multi_shape (field insn 15 12))

-- What `ldst_vector_single` accesses: a lane of each register, or all lanes by one element.
pub data Shape : Type 0 where
  one_lane : (index ebytes : ℕ) → Shape
  all_lanes : (ebytes : ℕ) → Shape
  unallocated : Shape

unfoldable pub single_shape : ℕ → Shape
single_shape insn =
    let q = bit insn 30 in
    let s = bit insn 12 in
    let size = field insn 11 10 in
    let scale = field insn 15 13 / 2 in
    if scale == 0
    then Shape.one_lane (q * 8 + s * 4 + size) 1
    else if scale == 1
    then (if size % 2 == 1 then Shape.unallocated else Shape.one_lane (q * 4 + s * 2 + size / 2) 2)
    else if scale == 2
    then (if leb 2 size
        then Shape.unallocated
        else if size == 0
        then Shape.one_lane (q * 2 + s) 4
        else if s == 1
        then Shape.unallocated
        else Shape.one_lane q 8)
    else if not (has_bit insn 22) || (s == 1)
    then Shape.unallocated
    else Shape.all_lanes (2 ^ size)

-- The element copied to `lanes` lanes.
unfoldable pub replicated : ℕ → ℕ → ℕ → ℕ
replicated ebytes zero t = 0
replicated ebytes (suc lanes) t =
    t % 2 ^ (8 * ebytes) + 2 ^ (8 * ebytes) * replicated ebytes lanes t

unfoldable pub single_loop :
    {W : Type 0} → (ℕ → ℕ → Access W (Unit {0})) → ℕ → ℕ → ℕ → ℕ → Access W (Unit {0})
single_loop body ebytes zero vt addr = pure tt
single_loop body ebytes (suc left) vt addr = do
  body vt addr
  single_loop body ebytes left ((vt + 1) % 32) (u64 (addr + ebytes))

unfoldable pub single_access :
    {W : Type 0} → ℕ → ℕ → ℕ → (ℕ → ℕ → Access W (Unit {0})) → Access W (Unit {0})
single_access insn selem ebytes body =
    let rn = field insn 9 5 in
    do
      c ← cpu
      sp_align_ok rn
      single_loop body ebytes selem (field insn 4 0) (reg_xsp c rn)
      post_index insn (reg_xsp c rn) (selem * ebytes)

unfoldable pub single_shaped : {W : Type 0} → ℕ → Shape → Access W (Unit {0})
single_shaped insn Shape.unallocated = stop undefined
single_shaped insn (Shape.one_lane index ebytes) =
    let selem = bit insn 13 * 2 + bit insn 21 + 1 in
    single_access insn selem ebytes
      (λ vt addr. move_lane (has_bit insn 22) vt (index * ebytes) ebytes addr)
single_shaped insn (Shape.all_lanes ebytes) =
    let selem = bit insn 13 * 2 + bit insn 21 + 1 in
    let lanes = (if has_bit insn 30 then 16 else 8) / ebytes in
    single_access insn selem ebytes
      (λ vt addr. do t ← read addr ebytes; on_cpu (λ c. set_v c vt (replicated ebytes lanes t)))

unfoldable pub ldst_vector_single : {W : Type 0} → ℕ → Access W (Unit {0})
ldst_vector_single insn = do fp_access_ok; single_shaped insn (single_shape insn)
