-- ===== src/Decode/LoadStore/Memory.antt =====
-- src/decode.c: STR and LDR with an unsigned offset, with the MMU off, on RAM.
use arm64emu_system.Base.{
  ℕ, zero, suc, ◌+◌, ◌-◌, ◌*◌, ◌%◌, ◌^◌, ◌≤◌, ◌<◌, ◌≡◌, refl, arith, true, false, some, ◌==◌,
  has_bit, u64, update, ◌⊎◌,
}
use arm64emu_system.Cpu.{Cpu, reg_x, reg_xsp, set_x}
use arm64emu_system.Memory.Access.{phys_read-phys_write}
use arm64emu_system.Mmu.{Mmu, mem_write}
use arm64emu_system.Mmu.Flat.{mem_read-flat, mem_write-flat}
use arm64emu_system.Mmu.Wide.{stored}
use arm64emu_system.Decode.{field}
use arm64emu_system.Decode.Access.{after, sp_misaligned, sp_align_ok, do_load, loaded, pure}
use arm64emu_system.Decode.Exec.{loads_stores}
use arm64emu_system.Decode.LoadStore.{ldst_register, addressing, perform, transfer, lowered}

-- The instruction word of LDR and STR with an unsigned offset.
abbrev pub unsigned_offset : ℕ → ℕ → ℕ → ℕ → ℕ → ℕ
unsigned_offset size opc imm rn rt =
    size * 2 ^ 30 + 0x39 * 2 ^ 24 + opc * 2 ^ 22 + imm * 2 ^ 10 + rn * 2 ^ 5 + rt

-- What the decoder reads of that word.
pub record IsUnsigned (insn size opc imm rn rt : ℕ) : Type 0 where
  pub group : field insn 29 27 ≡ 7
  pub general : has_bit insn 26 ≡ false
  pub offset : has_bit insn 24 ≡ true
  pub width : field insn 31 30 ≡ size
  pub operation : field insn 23 22 ≡ opc
  pub immediate : field insn 21 10 ≡ imm
  pub base : field insn 9 5 ≡ rn
  pub register : field insn 4 0 ≡ rt

pub unsigned_offset-IsUnsigned :
    (size opc imm rn rt : ℕ)
    → size < 4
    → opc < 4
    → imm < 4096
    → rn < 32
    → rt < 32
    → IsUnsigned (unsigned_offset size opc imm rn rt) size opc imm rn rt
unsigned_offset-IsUnsigned size opc imm rn rt a b c d e = record {
  group = omega arith;
  general = ground arith;
  offset = ground arith;
  width = omega arith;
  operation = omega arith;
  immediate = omega arith;
  base = omega arith;
  register = omega arith;
}

-- The store as one access.
pub store_lem :
    {W : Type 0} (m : Mmu W) (insn size imm rn rt : ℕ)
    → IsUnsigned insn size 0 imm rn rt
    → sp_misaligned m.cpu rn ≡ false
    → ldst_register insn m
      ≡ after
          (lowered (
            stored (
              mem_write
                (record m { cpu = record m.cpu { ldst_unpriv = false } })
                (u64 (reg_xsp m.cpu rn + imm * 2 ^ size))
                (2 ^ size)
                (reg_x m.cpu rt))))
          (λ _. pure tt)
unfolding ldst_register addressing perform transfer sp_align_ok reg_x
store_lem m insn size imm rn rt w aligned =
    rw
      (
        w.general, w.operation, w.width, w.base, aligned, w.offset, w.immediate, w.register,
        w.operation,
      )
      refl

-- The load as one access.
pub load_lem :
    {W : Type 0} (m : Mmu W) (insn size imm rn rt : ℕ)
    → IsUnsigned insn size 1 imm rn rt
    → sp_misaligned m.cpu rn ≡ false
    → ldst_register insn m
      ≡ after
          (lowered (
            do_load rt
              (u64 (reg_xsp m.cpu rn + imm * 2 ^ size))
              size
              1
              (record m { cpu = record m.cpu { ldst_unpriv = false } })))
          (λ _. pure tt)
unfolding ldst_register addressing perform transfer sp_align_ok
load_lem m insn size imm rn rt w aligned =
    rw
      (
        w.general, w.operation, w.width, w.base, aligned, w.offset, w.immediate, w.register,
        w.operation, w.width,
      )
      refl

-- What was stored is small enough for the register as it is.
loaded_unsigned :
    (size v : ℕ) → size < 4 → loaded size 1 (v % 2 ^ (8 * 2 ^ size)) ≡ v % 2 ^ (8 * 2 ^ size)
unfolding loaded
loaded_unsigned zero v h = omega arith
loaded_unsigned (suc zero) v h = omega arith
loaded_unsigned (suc (suc zero)) v h = omega arith
loaded_unsigned (suc (suc (suc zero))) v h = refl
loaded_unsigned (suc (suc (suc (suc n)))) v h = absurd (omega arith)

pub aligned_base : (c : Cpu) (rn : ℕ) → rn < 31 → sp_misaligned c rn ≡ false
aligned_base c rn h = let apart : (rn == 31) ≡ false = ground arith in rw apart refl

-- With the MMU off, for a base register other than SP and an address inside a RAM that ends below
-- 2 ^ 64: STR of any size with an unsigned offset, and then the zero-extending load (LDRB, LDRH,
-- LDR) of the same size, base and unsigned offset into a register other than XZR, both finish;
-- that register gets the low bytes of the stored one, no other general register changes, and
-- neither does any byte of the RAM outside the access.
pub ldr-str :
    {W : Type 0} (m : Mmu W) (size imm rn rt rt' : ℕ)
    → size < 4
    → imm < 4096
    → rn < 31
    → rt < 32
    → rt' < 31
    → has_bit (m.cpu.sctlr 1) 0 ≡ false
    → m.bus.ram_base ≤ u64 (m.cpu.x rn + imm * 2 ^ size)
    → u64 (m.cpu.x rn + imm * 2 ^ size) + 2 ^ size ≤ m.bus.ram_base + m.bus.ram_size
    → m.bus.ram_base + m.bus.ram_size < 2 ^ 64
    → let i = u64 (m.cpu.x rn + imm * 2 ^ size) - m.bus.ram_base in
      (m' : Mmu W) × (m'' : Mmu W) × (loads_stores (unsigned_offset size 0 imm rn rt) m
        ≡ some (some tt, m'))
      × (loads_stores (unsigned_offset size 1 imm rn rt') m' ≡ some (some tt, m''))
      × (m''.cpu.x ≡ update m.cpu.x rt' (reg_x m.cpu rt % 2 ^ (8 * 2 ^ size)))
      × ((j : ℕ) → (j < i) ⊎ (i + 2 ^ size ≤ j) → m''.bus.ram j ≡ m.bus.ram j)
unfolding loads_stores reg_xsp set_x do_load
ldr-str m size imm rn rt rt' hs hi hn ht ht' off lo hi' small =
    let str = unsigned_offset-IsUnsigned size 0 imm rn rt hs (omega arith) hi (omega arith) ht in
    let ldr =
      unsigned_offset-IsUnsigned size 1 imm rn rt' hs (omega arith) hi (omega arith)
        (omega arith) in
    let sp : (rn == 31) ≡ false = ground arith in
    let dest : (rt' == 31) ≡ false = ground arith in
    let va = u64 (m.cpu.x rn + imm * 2 ^ size) in
    let v = reg_x m.cpu rt in
    let (b, done, fine, back, rest) = phys_read-phys_write m.bus va (2 ^ size) v lo hi' small in
    let c' = record m.cpu { ldst_unpriv = false } in
    let m₁ = record m { cpu = c' } in
    let m' = record m { cpu = c'; bus = b } in
    let m'' = record m {
      cpu = record c' { x = update m.cpu.x rt' (v % 2 ^ (8 * 2 ^ size)) };
      bus = b;
    } in
    (
      m',
      m'',
      rw
          (
            str.group,
            store_lem m _ size imm rn rt str (aligned_base m.cpu rn hn),
            sp,
            mem_write-flat m₁ va (2 ^ size) v b off done fine,
          )
          refl,
      rw
          (
            ldr.group,
            load_lem m' _ size imm rn rt' ldr (aligned_base c' rn hn),
            sp,
            mem_read-flat m' va (2 ^ size) (v % 2 ^ (8 * 2 ^ size)) b off back fine,
            loaded_unsigned size v hs,
            dest,
          )
          refl,
      refl,
      rest,
    )
