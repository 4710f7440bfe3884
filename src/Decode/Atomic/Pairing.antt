-- ===== src/Decode/Atomic/Pairing.antt =====
-- src/decode.c: LDXR and STXR together, on RAM with the MMU off.
use arm64emu_system.Base.{
  ℕ, ◌+◌, ◌-◌, ◌*◌, ◌%◌, ◌^◌, ◌<◌, ◌≤◌, ◌≡◌, ◌≢◌, ◌⊎◌, inl, inr, refl, arith, true, false, some,
  ◌==◌, ==_refl, ap, ◌∙◌, Bool-cases,
}
use arm64emu_system.Cpu.{Cpu, reg_x, reg_xsp, set_x}
use arm64emu_system.Memory.{ld_le, st_le}
use arm64emu_system.Memory.Bytes.{ld_le-st_le, st_le-below, st_le-above, ==_false}
use arm64emu_system.Mmu.{Mmu}
use arm64emu_system.Mmu.Flat.{InRam, with_ram, mem_read-ram}
use arm64emu_system.Decode.{field}
use arm64emu_system.Decode.Access.{sp_misaligned, sp_align_ok}
use arm64emu_system.Decode.LoadStore.Memory.{aligned_base}
use arm64emu_system.Decode.Atomic.{monitor, exclusive_single, ldst_exclusive}
use arm64emu_system.Decode.Atomic.Laws.{
  IsExclusive, base_of, bytes_of, covers, stxr-fails, stxr-succeeds,
}

-- A load-exclusive and a store-exclusive of one register, of the same size and with the same base
-- register, which is not SP; the loaded register is neither the base nor XZR, and
-- the status register is not XZR.
pub record IsPair (load store : ℕ) : Type 0 where
  pub loads : IsExclusive load true
  pub stores : IsExclusive store false
  pub same_size : field store 31 30 ≡ field load 31 30
  pub same_base : field store 9 5 ≡ field load 9 5
  pub base_lt : field load 9 5 < 31
  pub loaded_lt : field load 4 0 < 31
  pub loaded_apart : field load 9 5 ≢ field load 4 0
  pub status_lt : field store 20 16 < 31

-- LDXR loads the word and sets the monitor to its address.
ldxr-ram :
    {W : Type 0} (m : Mmu W) (insn va : ℕ)
    → IsExclusive insn true
    → sp_misaligned m.cpu (field insn 9 5) ≡ false
    → base_of m.cpu insn ≡ va
    → InRam m va (bytes_of insn)
    → let old = ld_le m.bus.ram (va - m.bus.ram_base) (bytes_of insn) in
      ldst_exclusive insn m
      ≡ some (
        some tt,
        record (with_ram m m.bus.ram) {
          cpu = monitor va (bytes_of insn) (set_x m.cpu (field insn 4 0) old);
        },
      )
unfolding ldst_exclusive exclusive_single sp_align_ok
ldxr-ram m insn va e aligned at h =
    rw (aligned, e.o2, e.o1, e.l, at, mem_read-ram m va (bytes_of insn) h) refl

base_x : (c : Cpu) (rn : ℕ) → rn < 31 → reg_xsp c rn ≡ c.x rn
unfolding reg_xsp
base_x c rn h = let sp : (rn == 31) ≡ false = ground arith in rw sp refl

-- Setting a register leaves every other.
set_x-other : (c : Cpu) (r v q : ℕ) → q ≢ r → (set_x c r v).x q ≡ c.x q
unfolding set_x
set_x-other c r v q apart = elim (Bool-cases (r == 31)) [
  | inl zr ↦ rw zr refl
  | inr ne ↦ rw (ne, ==_false q r apart) refl
]

set_x-same : (c : Cpu) (r v : ℕ) → r < 31 → (set_x c r v).x r ≡ v
unfolding set_x
set_x-same c r v h = let zr : (r == 31) ≡ false = ground arith in rw (zr, ==_refl r) refl

set_x-sctlr : (c : Cpu) (r v : ℕ) → (set_x c r v).sctlr ≡ c.sctlr
unfolding set_x
set_x-sctlr c r v = elim (Bool-cases (r == 31)) [ inl zr ↦ rw zr refl | inr ne ↦ rw ne refl ]

-- For an LDXR and an STXR of the same size and base register, the base not SP, the
-- loaded register neither the base nor XZR and the status register not XZR, on RAM with the MMU off: LDXR gets the word; the STXR executed next
-- answers 0, stores its register and no byte outside the word; the same STXR executed once more
-- answers 1 and leaves the bus as it is. So one load-exclusive licenses one store.
pub stxr-ldxr :
    {W : Type 0} (m : Mmu W) (load store : ℕ)
    → IsPair load store
    → InRam m (m.cpu.x (field load 9 5)) (bytes_of load)
    → let i = m.cpu.x (field load 9 5) - m.bus.ram_base in
      let n = bytes_of load in
      let rs = field store 20 16 in
      (m₁ m₂ m₃ : Mmu W) × (ldst_exclusive load m ≡ some (some tt, m₁))
      × (m₁.cpu.x (field load 4 0) ≡ ld_le m.bus.ram i n)
      × (ldst_exclusive store m₁ ≡ some (some tt, m₂))
      × (m₂.cpu.x rs ≡ 0)
      × (ld_le m₂.bus.ram i n ≡ reg_x m₁.cpu (field store 4 0) % 2 ^ (8 * n))
      × ((j : ℕ) → (j < i) ⊎ (i + n ≤ j) → m₂.bus.ram j ≡ m.bus.ram j)
      × (ldst_exclusive store m₂ ≡ some (some tt, m₃))
      × (m₃.cpu.x rs ≡ 1)
      × (m₃.bus ≡ m₂.bus)
stxr-ldxr m load store p h =
    let rn = field load 9 5 in
    let rt = field load 4 0 in
    let rs = field store 20 16 in
    let va = m.cpu.x rn in
    let n = bytes_of load in
    let i = va - m.bus.ram_base in
    let old = ld_le m.bus.ram i n in
    let c₁ = monitor va n (set_x m.cpu rt old) in
    let m₁ = record (with_ram m m.bus.ram) { cpu = c₁ } in
    let v = reg_x c₁ (field store 4 0) in
    let c₂ = record (set_x c₁ rs 0) { excl_valid = false } in
    let m₂ = record (with_ram m₁ (st_le m.bus.ram i n v)) { cpu = c₂ } in
    let c₃ = record (set_x c₂ rs 1) { excl_valid = false } in
    let at : base_of m.cpu load ≡ va = base_x m.cpu rn p.base_lt in
    let x₁ : c₁.x rn ≡ va = set_x-other m.cpu rt old rn p.loaded_apart in
    let at₁ : base_of c₁ store ≡ va = rw p.same_base (base_x c₁ rn p.base_lt ∙ x₁) in
    let size : bytes_of store ≡ n = ap (λ (t : ℕ). 2 ^ t) p.same_size in
    let here : InRam m₁ (base_of c₁ store) (bytes_of store) =
      rw (at₁, size)
        (record {
          off = rw (set_x-sctlr m.cpu rt old) h.off;
          above = h.above;
          below = h.below;
          small = h.small;
        }) in
    let held : covers c₁ store ≡ true = rw at₁ (==_refl va) in
    let aligned : (c : Cpu) → sp_misaligned c (field store 9 5) ≡ false =
      λ c. rw p.same_base (aligned_base c rn p.base_lt) in
    (
      m₁,
      m₂,
      record m₂ { cpu = c₃ },
      ldxr-ram m load va p.loads (aligned_base m.cpu rn p.base_lt) at h,
      set_x-same m.cpu rt old p.loaded_lt,
      stxr-succeeds m₁ store p.stores (aligned c₁) held here ∙ rw (at₁, size) refl,
      set_x-same c₁ rs 0 p.status_lt,
      ld_le-st_le m.bus.ram i n v,
      λ j apart. elim apart [
        | inl below ↦ st_le-below m.bus.ram i n v j below
        | inr above ↦ st_le-above m.bus.ram i n v j above
      ],
      stxr-fails m₂ store p.stores (aligned c₂) refl,
      set_x-same c₂ rs 1 p.status_lt,
      refl,
    )
