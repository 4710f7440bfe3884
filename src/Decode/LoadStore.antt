-- ===== src/Decode/LoadStore.antt =====
-- src/decode.c: `ldst_register`, `ldst_pair`, `ldst_literal` and `ldst_rcpc_unscaled`, with the
-- atomics of `Atomic`. The base register is written back only after the access succeeded.
pub mod Memory
use arm64emu_system.Base.{ℕ, ◌+◌, ◌-◌, ◌*◌, ◌/◌, ◌%◌, ◌^◌, Bool, true, false, not, ◌&&◌, ◌||◌}
use arm64emu_system.Base.{Option, none, some, ◌==◌, leb, ltb, if◌then◌else◌, has_bit, u32, u64}
use arm64emu_system.Cpu.{Cpu, reg_x, reg_xsp, set_x, set_xsp}
use arm64emu_system.Alu.{sign_extend, extend_reg}
use arm64emu_system.Mmu.{Mmu}
use arm64emu_system.Decode.{field, undefined}
use arm64emu_system.Decode.Access.{
  Access, ◌>>=◌, ◌>>◌, pure, cpu, on_cpu, stop, read, write, read128, write128, fp_access_ok,
  sp_align_ok, do_load, vreg_load, vreg_store, after,
}
use arm64emu_system.Decode.Atomic.{ldst_atomic}

-- Base plus a signed immediate of `w` bits, shifted left by `scale`.
abbrev pub displaced : ℕ → ℕ → ℕ → ℕ → ℕ
displaced base imm w scale = u64 (base + u64 (sign_extend imm w * 2 ^ scale))

unfoldable pub ldst_extended_offset : Cpu → ℕ → ℕ → ℕ
ldst_extended_offset c insn size =
    extend_reg (reg_x c (field insn 20 16)) (field insn 15 13) (if has_bit insn 12 then size else 0)

-- The addressing forms of `ldst_register`.
pub data Form : Type 0 where
  address : (va : ℕ) (unpriv : Bool) (written_back : Option ℕ) → Form
  atomic unallocated : Form

unfoldable pub addressing : Cpu → ℕ → ℕ → Bool → Form
addressing c insn scale v =
    let base = reg_xsp c (field insn 9 5) in
    let mode = field insn 11 10 in
    let va = displaced base (field insn 20 12) 9 0 in
    if has_bit insn 24
    then Form.address (u64 (base + field insn 21 10 * 2 ^ scale)) false none
    else if has_bit insn 21
    then (if (mode == 0) && not v
        then Form.atomic
        else if not (mode == 2)
        then Form.unallocated
        else Form.address (u64 (base + ldst_extended_offset c insn scale)) false none)
    else if mode == 0
    then Form.address va false none
    else if mode == 2
    then (if v then Form.unallocated else Form.address va (c.el == 1) none)
    else if mode == 1
    then Form.address base false (some va)
    else Form.address va false (some va)

-- `c->ldst_unpriv` is set across one access, also when it faults.
abbrev pub lowered : {W A : Type 0} → Option (Option A × Mmu W) → Option (Option A × Mmu W)
lowered none = none
lowered (some (r, m)) = some (r, record m { cpu = record m.cpu { ldst_unpriv = false } })

abbrev pub unprivileged : {W A : Type 0} → Bool → Access W A → Access W A
unprivileged u a m = lowered (a (record m { cpu = record m.cpu { ldst_unpriv = u } }))

abbrev pub write_back : {W : Type 0} → ℕ → Option ℕ → Access W (Unit {0})
write_back rn none = pure tt
write_back rn (some base) = on_cpu (λ c. set_xsp c rn base)

-- The access itself: of a vector register, or of a general one.
unfoldable pub transfer : {W : Type 0} → ℕ → Bool → Bool → ℕ → ℕ → Access W (Unit {0})
transfer insn v is_store va bytes =
    let rt = field insn 4 0 in
    let size = field insn 31 30 in
    if v
    then (if is_store then vreg_store rt va bytes else vreg_load rt va bytes)
    else if is_store
    then (do c ← cpu; write va bytes (reg_x c rt))
    else do_load rt va size (field insn 23 22)

unfoldable pub perform : {W : Type 0} → ℕ → Bool → Bool → ℕ → Form → Access W (Unit {0})
perform insn v is_store bytes Form.atomic = ldst_atomic insn
perform insn v is_store bytes Form.unallocated = stop undefined
perform insn v is_store bytes (Form.address va unpriv wb) =
    if not v && ((field insn 23 22 == 3) && leb 2 (field insn 31 30))
    then stop undefined
    else do unprivileged unpriv (transfer insn v is_store va bytes); write_back (field insn 9 5) wb

unfoldable pub ldst_register : {W : Type 0} → ℕ → Access W (Unit {0})
ldst_register insn =
    let size = field insn 31 30 in
    let opc = field insn 23 22 in
    let v = has_bit insn 26 in
    let quad = leb 2 opc in
    let is_load = if v then opc % 2 == 1 else not (opc == 0) in
    let bytes = if v && quad then 16 else 2 ^ size in
    let scale = if v && quad then 4 else size in
    if v && (quad && not (size == 0)) then stop undefined else do
      (if v then fp_access_ok else pure tt)
      c ← cpu
      sp_align_ok (field insn 9 5)
      perform insn v (not is_load) bytes (addressing c insn scale v)

-- The two accesses of a pair, by width; the loads write no register before both succeeded, but for
-- vector registers, which are loaded one after the other.
unfoldable pub pair_access : {W : Type 0} → ℕ → Bool → ℕ → ℕ → Access W (Unit {0})
pair_access insn v addr esz =
    let l = has_bit insn 22 in
    let rt = field insn 4 0 in
    let rt2 = field insn 14 10 in
    let next = u64 (addr + esz) in
    let result = λ (raw : ℕ). if field insn 31 30 == 1 then sign_extend raw 32 else u32 raw in
    if v
    then (do
      fp_access_ok
      (if l then vreg_load rt addr esz else vreg_store rt addr esz)
      (if l then vreg_load rt2 next esz else vreg_store rt2 next esz))
    else if l
    then (if esz == 8
        then (do
          val ← read128 addr
          on_cpu (λ c. set_x (set_x c rt (val % 2 ^ 64)) rt2 (val / 2 ^ 64)))
        else (do
          a ← read addr esz
          b ← read next esz
          on_cpu (λ c. set_x (set_x c rt (result a)) rt2 (result b))))
    else if esz == 8
    then (do c ← cpu; write128 addr (reg_x c rt + reg_x c rt2 * 2 ^ 64))
    else (do c ← cpu; write addr esz (reg_x c rt); c' ← cpu; write next esz (reg_x c' rt2))

unfoldable pub ldst_pair : {W : Type 0} → ℕ → Access W (Unit {0})
ldst_pair insn =
    let opc = field insn 31 30 in
    let v = has_bit insn 26 in
    let mode = field insn 25 23 in
    let rn = field insn 9 5 in
    let scale = if v then opc + 2 else if opc == 2 then 3 else 2 in
    if opc == 3 then stop undefined else do
      c ← cpu
      sp_align_ok rn
      (let base = reg_xsp c rn in
          let moved = displaced base (field insn 21 15) 7 scale in
          let addr = if mode == 1 then base else moved in
          if leb 4 mode then stop undefined else do
            pair_access insn v addr (2 ^ scale)
            write_back rn (if (mode == 1) || (mode == 3) then some moved else none))

-- Loads relative to the instruction; `opc` 3 is a prefetch for the general registers.
unfoldable pub ldst_literal : {W : Type 0} → ℕ → Access W (Unit {0})
ldst_literal insn =
    let opc = field insn 31 30 in
    let rt = field insn 4 0 in
    do
      c ← cpu
      (let va = displaced c.cur_insn_pc (field insn 23 5) 19 2 in
          if has_bit insn 26
          then (if opc == 3
              then stop undefined
              else (do fp_access_ok; vreg_load rt va (4 * 2 ^ opc)))
          else if opc == 0
          then (do raw ← read va 4; on_cpu (λ c'. set_x c' rt (u32 raw)))
          else if opc == 1
          then (do raw ← read va 8; on_cpu (λ c'. set_x c' rt raw))
          else if opc == 2
          then (do raw ← read va 4; on_cpu (λ c'. set_x c' rt (sign_extend raw 32)))
          else pure tt)

-- LDAPUR and STLUR.
unfoldable pub ldst_rcpc_unscaled : {W : Type 0} → ℕ → Access W (Unit {0})
ldst_rcpc_unscaled insn =
    let size = field insn 31 30 in
    let opc = field insn 23 22 in
    let rt = field insn 4 0 in
    let rn = field insn 9 5 in
    if ((opc == 2) && (size == 3)) || ((opc == 3) && leb 2 size) then stop undefined else do
      sp_align_ok rn
      c ← cpu
      (let va = displaced (reg_xsp c rn) (field insn 20 12) 9 0 in
          if opc == 0 then write va (2 ^ size) (reg_x c rt) else do_load rt va size opc)
