-- ===== src/Decode/Atomic/Laws.antt =====
-- src/decode.c: the atomics and the exclusive monitor on RAM, with the MMU off.
use arm64emu_system.Base.{
  ℕ, ◌+◌, ◌-◌, ◌*◌, ◌%◌, ◌^◌, ◌<◌, ◌≤◌, ◌⊎◌, zero, suc, ◌≡◌, refl, arith, Bool, true, false, not,
  ◌&&◌, none, some, ◌==◌, has_bit, u64, ◌/◌, update, if◌then◌else◌, inl, inr, ◌∙◌, Bool-cases,
}
use native.Mathlib.Nat.{mod-mod, mod-lt, one-le-pow}
use arm64emu_system.Cpu.{Cpu, reg_x, reg_xsp, set_x}
use arm64emu_system.Memory.{ld_le, st_le}
use arm64emu_system.Memory.Bytes.{ld_le-st_le, st_le-below, st_le-above, pow_bytes}
use arm64emu_system.Mmu.{Mmu}
use arm64emu_system.Mmu.Flat.{InRam, with_ram, mem_read-ram, mem_write-ram}
use arm64emu_system.Decode.{field}
use arm64emu_system.Decode.Access.{sp_misaligned, sp_align_ok}
use arm64emu_system.Decode.Atomic.Combine.{
  AtomicOp, is_swp, opcode, Meets, combine-Meets, swp, ldadd, ldclr, ldeor, ldset, ldsmax, ldsmin,
  ldumax, ldumin,
}
use arm64emu_system.Decode.Atomic.{
  combine, ldst_atomic, ldst_cas, casp_matches, ldst_casp, store_exclusive, exclusive_single,
  ldst_exclusive,
}

-- The address and the width in bytes of an atomic instruction.
abbrev pub base_of : Cpu → ℕ → ℕ
base_of c insn = reg_xsp c (field insn 9 5)

abbrev pub bytes_of : ℕ → ℕ
bytes_of insn = 2 ^ field insn 31 30

-- What an atomic instruction stores over `old`.
abbrev new_value : Cpu → ℕ → ℕ → ℕ
new_value c insn old =
    let w = 8 * bytes_of insn in
    let operand = reg_x c (field insn 20 16) % 2 ^ w in
    (if has_bit insn 15 then operand else combine (field insn 14 12) w old operand) % 2 ^ w

no_ldapr : (o : Bool) (opc : ℕ) → (o && not (opc == 0)) ≡ false → (o && (opc == 4)) ≡ false
no_ldapr o opc h = ground arith

-- An access leaves the RAM where it is.
kept :
    {W : Type 0} {m : Mmu W} {va n : ℕ} {ram : ℕ → ℕ} → InRam m va n → InRam (with_ram m ram) va n
kept h = record { off = h.off; above = h.above; below = h.below; small = h.small }

-- The word in memory is replaced, and the destination register gets the old one.
ldst_atomic-word :
    {W : Type 0} (m : Mmu W) (insn : ℕ)
    → (has_bit insn 15 && not (field insn 14 12 == 0)) ≡ false
    → InRam m (base_of m.cpu insn) (bytes_of insn)
    → let i = base_of m.cpu insn - m.bus.ram_base in
      let old = ld_le m.bus.ram i (bytes_of insn) in
      (m' : Mmu W) × (ldst_atomic insn m ≡ some (some tt, m'))
      × (ld_le m'.bus.ram i (bytes_of insn) ≡ new_value m.cpu insn old)
      × (m'.cpu ≡ set_x m.cpu (field insn 4 0) old)
      × ((j : ℕ) → (j < i) ⊎ (i + bytes_of insn ≤ j) → m'.bus.ram j ≡ m.bus.ram j)
unfolding ldst_atomic
ldst_atomic-word m insn plain h =
    let va = base_of m.cpu insn in
    let n = bytes_of insn in
    let i = va - m.bus.ram_base in
    let old = ld_le m.bus.ram i n in
    let v = new_value m.cpu insn old in
    let m₁ = with_ram m m.bus.ram in
    let m₂ = with_ram m (st_le m.bus.ram i n v) in
    (
      record m₂ { cpu = set_x m.cpu (field insn 4 0) old },
      rw
          (
            no_ldapr (has_bit insn 15) (field insn 14 12) plain,
            plain,
            mem_read-ram m va n h,
            mem_write-ram m₁ va n (kept h) v,
          )
          refl,
      ld_le-st_le m.bus.ram i n v ∙ mod-mod _ (2 ^ (8 * n)),
      refl,
      λ j apart. elim apart [
        | inl below ↦ st_le-below m.bus.ram i n v j below
        | inr above ↦ st_le-above m.bus.ram i n v j above
      ],
    )

-- What bytes make is a word of their number.
ld_le-lt : (f : ℕ → ℕ) (i n : ℕ) → ((j : ℕ) → f j < 2 ^ 8) → ld_le f i n < 2 ^ (8 * n)
unfolding ld_le
ld_le-lt f i zero h = omega arith
ld_le-lt f i (suc n) h = omega (arith, h i, ld_le-lt f (i + 1) n h, pow_bytes n)

-- A store leaves bytes.
pub st_le-bytes :
    (f : ℕ → ℕ) (i n v : ℕ) → ((j : ℕ) → f j < 2 ^ 8) → (j : ℕ) → st_le f i n v j < 2 ^ 8
unfolding st_le
st_le-bytes f i zero v h j = h j
st_le-bytes f i (suc n) v h j =
    st_le-bytes (update f i (v % 2 ^ 8)) (i + 1) n (v / 2 ^ 8) (λ k. ground (arith, h k)) j

encoded :
    (op : AtomicOp) (o : Bool) (opc : ℕ)
    → o ≡ is_swp op
    → opc ≡ opcode op
    → (o && not (opc == 0)) ≡ false
encoded swp o opc e e' = rw (e, e') refl
encoded ldadd o opc e e' = rw e refl
encoded ldclr o opc e e' = rw e refl
encoded ldeor o opc e e' = rw e refl
encoded ldset o opc e e' = rw e refl
encoded ldsmax o opc e e' = rw e refl
encoded ldsmin o opc e e' = rw e refl
encoded ldumax o opc e e' = rw e refl
encoded ldumin o opc e e' = rw e refl

-- For the word of SWP or of any of the eight LD<op> instructions, of any size, on a RAM of bytes
-- with the MMU off: the instruction finishes; the word in memory becomes what the description of
-- that operation asks for of the old word and the operand (the operand itself, the sum that wraps
-- around, the bit by bit clear, exclusive or and or, the signed and unsigned maximum and minimum
-- of the size); the destination register gets the old word; no byte outside the word changes.
pub ldst_atomic-ram :
    {W : Type 0} (m : Mmu W) (insn : ℕ) (op : AtomicOp)
    → has_bit insn 15 ≡ is_swp op
    → field insn 14 12 ≡ opcode op
    → ((j : ℕ) → m.bus.ram j < 2 ^ 8)
    → InRam m (base_of m.cpu insn) (bytes_of insn)
    → let i = base_of m.cpu insn - m.bus.ram_base in
      let w = 8 * bytes_of insn in
      let old = ld_le m.bus.ram i (bytes_of insn) in
      (m' : Mmu W) × (ldst_atomic insn m ≡ some (some tt, m'))
      × Meets op w old (reg_x m.cpu (field insn 20 16) % 2 ^ w) (ld_le m'.bus.ram i (bytes_of insn))
      × (m'.cpu ≡ set_x m.cpu (field insn 4 0) old)
      × ((j : ℕ) → (j < i) ⊎ (i + bytes_of insn ≤ j) → m'.bus.ram j ≡ m.bus.ram j)
ldst_atomic-ram m insn op o3 opc bytes h =
    let i = base_of m.cpu insn - m.bus.ram_base in
    let n = bytes_of insn in
    let w = 8 * n in
    let old = ld_le m.bus.ram i n in
    let operand = reg_x m.cpu (field insn 20 16) % 2 ^ w in
    let plain = encoded op (has_bit insn 15) (field insn 14 12) o3 opc in
    let (m', done, stored, regs, rest) = ldst_atomic-word m insn plain h in
    let meets =
      combine-Meets op (field insn 31 30) old operand (omega arith) (ld_le-lt m.bus.ram i n bytes)
        (mod-lt (reg_x m.cpu (field insn 20 16)) (one-le-pow w 2 (omega arith))) in
    (m', done, rw (stored, o3, opc) meets, regs, rest)

-- For CAS on RAM with the MMU off: the instruction finishes; the word in memory becomes the new
-- value if it was the expected one and stays otherwise; the compare register gets the old word.
pub ldst_cas-ram :
    {W : Type 0} (m : Mmu W) (insn : ℕ)
    → InRam m (base_of m.cpu insn) (bytes_of insn)
    → let i = base_of m.cpu insn - m.bus.ram_base in
      let w = 8 * bytes_of insn in
      let old = ld_le m.bus.ram i (bytes_of insn) in
      let rs = field insn 20 16 in
      (m' : Mmu W) × (ldst_cas insn m ≡ some (some tt, m'))
      × (ld_le m'.bus.ram i (bytes_of insn)
          ≡ (if old == reg_x m.cpu rs % 2 ^ w then reg_x m.cpu (field insn 4 0) % 2 ^ w else old))
      × (m'.cpu ≡ set_x m.cpu rs old)
unfolding ldst_cas
ldst_cas-ram m insn h =
    let va = base_of m.cpu insn in
    let n = bytes_of insn in
    let i = va - m.bus.ram_base in
    let old = ld_le m.bus.ram i n in
    let rs = field insn 20 16 in
    let v = reg_x m.cpu (field insn 4 0) % 2 ^ (8 * n) in
    let m₁ = with_ram m m.bus.ram in
    let c' = set_x m.cpu rs old in
    elim (Bool-cases (old == reg_x m.cpu rs % 2 ^ (8 * n))) [
      | inl same ↦ (
        record (with_ram m (st_le m.bus.ram i n v)) { cpu = c' },
        rw (mem_read-ram m va n h, same, mem_write-ram m₁ va n (kept h) v) refl,
        rw same
            (ld_le-st_le m.bus.ram i n v ∙ mod-mod (reg_x m.cpu (field insn 4 0)) (2 ^ (8 * n))),
        refl,
      )
      | inr differs ↦
          (record m₁ { cpu = c' }, rw (mem_read-ram m va n h, differs) refl, rw differs refl, refl)
    ]

-- LDXR and STXR: the bits that select a single-register exclusive access.
pub record IsExclusive (insn : ℕ) (load : Bool) : Type 0 where
  pub o2 : has_bit insn 23 ≡ false
  pub o1 : has_bit insn 21 ≡ false
  pub l : has_bit insn 22 ≡ load

-- The monitor covers the address of the instruction.
abbrev pub covers : Cpu → ℕ → Bool
covers c insn = c.excl_valid && (c.excl_addr == base_of c insn)

-- Without a monitor of its address, a store-exclusive of one register accesses no memory.
pub stxr-fails :
    {W : Type 0} (m : Mmu W) (insn : ℕ)
    → IsExclusive insn false
    → sp_misaligned m.cpu (field insn 9 5) ≡ false
    → covers m.cpu insn ≡ false
    → ldst_exclusive insn m
      ≡ some (
        some tt,
        record m { cpu = record (set_x m.cpu (field insn 20 16) 1) { excl_valid = false } },
      )
unfolding ldst_exclusive exclusive_single store_exclusive sp_align_ok
stxr-fails m insn e aligned lost = rw (aligned, e.o2, e.o1, e.l, lost) refl

-- On RAM with the MMU off, for a base that is not misaligned SP: a store-exclusive whose monitor
-- covers its address stores the register, answers 0, and clears the monitor.
pub stxr-succeeds :
    {W : Type 0} (m : Mmu W) (insn : ℕ)
    → IsExclusive insn false
    → sp_misaligned m.cpu (field insn 9 5) ≡ false
    → covers m.cpu insn ≡ true
    → InRam m (base_of m.cpu insn) (bytes_of insn)
    → let i = base_of m.cpu insn - m.bus.ram_base in
      let v = reg_x m.cpu (field insn 4 0) in
      ldst_exclusive insn m
      ≡ some (
        some tt,
        record (with_ram m (st_le m.bus.ram i (bytes_of insn) v)) {
          cpu = record (set_x m.cpu (field insn 20 16) 0) { excl_valid = false };
        },
      )
unfolding ldst_exclusive exclusive_single store_exclusive sp_align_ok
stxr-succeeds m insn e aligned held h =
    rw
      (
        aligned,
        e.o2,
        e.o1,
        e.l,
        held,
        mem_write-ram m (base_of m.cpu insn) (bytes_of insn) h (reg_x m.cpu (field insn 4 0)),
      )
      refl

-- The width in bytes of one word of CASP.
abbrev pub casp_bytes : ℕ → ℕ
casp_bytes insn = if has_bit insn 30 then 8 else 4

-- CASP whose compare register is XZR: once both words are read from RAM with the MMU off, the
-- instruction indexes the register file at 32, past its end.
pub ldst_casp-xzr :
    {W : Type 0} (m : Mmu W) (insn : ℕ)
    → field insn 20 16 ≡ 31
    → InRam m (base_of m.cpu insn) (2 * casp_bytes insn)
    → ldst_casp insn m ≡ none
unfolding ldst_casp casp_matches
ldst_casp-xzr m insn xzr h =
    let va = base_of m.cpu insn in
    let n = casp_bytes insn in
    let m₁ = with_ram m m.bus.ram in
    let word : va + n < 2 ^ 64 = let b = h.below in let s = h.small in omega arith in
    let next : u64 (va + n) ≡ va + n = omega arith in
    let first : InRam m va n = record {
      off = h.off;
      above = h.above;
      below = let b = h.below in omega arith;
      small = h.small;
    } in
    let second : InRam m₁ (u64 (va + n)) n = rw next (record {
      off = h.off;
      above = let a = h.above in omega arith;
      below = let b = h.below in omega arith;
      small = h.small;
    }) in
    rw (mem_read-ram m va n first, mem_read-ram m₁ (u64 (va + n)) n second, xzr)
      (elim (Bool-cases (ld_le m.bus.ram (va - m.bus.ram_base) n == reg_x m.cpu 31 % 2 ^ (8 * n))) [
        | inl same ↦ rw same refl
        | inr differs ↦ rw differs refl
      ])
