-- ===== src/Mmu/Flat.antt =====
-- src/mmu.c with the MMU off: addresses are physical, up to the end of the address space.
use arm64emu_system.Base.{
  ℕ, ◌+◌, ◌-◌, ◌^◌, ◌≤◌, ◌<◌, ◌≡◌, refl, arith, true, false, leb, none, some, has_bit, ap,
}
use arm64emu_system.Memory.{Bus, BusStatus, in_window, phys_read, phys_write, ld_le, st_le}
use arm64emu_system.Mmu.{
  Mmu, mem_read, mem_write, read_in_page, write_in_page, mmu_translate, abort,
}
use arm64emu_system.Mmu.Walk.{Access, fsc_external}

phys_read-none :
    {W : Type 0} (b : Bus W) (pa len : ℕ)
    → pa < 2 ^ 64
    → 2 ^ 64 ≤ pa + len
    → len ≤ b.ram_base
    → b.ram_base ≤ pa
    → b.ram_base + b.ram_size < 2 ^ 64
    → phys_read b pa len ≡ none
unfolding phys_read
phys_read-none b pa len small wraps short above fits =
    let passes : in_window b.ram_base b.ram_size pa len ≡ true = ground arith in
    let leaves : leb (pa - b.ram_base + len) b.ram_size ≡ false = ground arith in
    rw (passes, leaves) refl

-- With the MMU off, for a RAM that ends below 2 ^ 64 and a size not above its base: a load from
-- an address at or above the base, whose end reaches 2 ^ 64, leaves the RAM array.
pub mem_read-none :
    {W : Type 0} (m : Mmu W) (va size : ℕ)
    → has_bit (m.cpu.sctlr 1) 0 ≡ false
    → va < 2 ^ 64
    → 2 ^ 64 ≤ va + size
    → size ≤ m.bus.ram_base
    → m.bus.ram_base ≤ va
    → m.bus.ram_base + m.bus.ram_size < 2 ^ 64
    → mem_read m va size ≡ none
unfolding mem_read read_in_page mmu_translate
mem_read-none m va size off small wraps short above fits =
    rw (off, phys_read-none m.bus va size small wraps short above fits) refl

-- An access that the bus answers is the whole access: no page is crossed with the MMU off.
pub mem_write-flat :
    {W : Type 0} (m : Mmu W) (va size val : ℕ) (b : Bus W)
    → has_bit (m.cpu.sctlr 1) 0 ≡ false
    → phys_write m.bus va size val ≡ some b
    → b.last_bus_status ≡ BusStatus.bus_ok
    → mem_write m va size val ≡ some (true, record m { bus = b })
unfolding mem_write write_in_page mmu_translate
mem_write-flat m va size val b off done fine =
    let m' = record m { bus = b } in
    let faulted = (abort m' va Access.write fsc_external).1 in
    rw (off, done)
      (ap
        (λ s.
          some (elim s [ BusStatus.bus_ok ↦ (true, m') | BusStatus.bus_fault ↦ (false, faulted) ]))
        fine)

pub mem_read-flat :
    {W : Type 0} (m : Mmu W) (va size v : ℕ) (b : Bus W)
    → has_bit (m.cpu.sctlr 1) 0 ≡ false
    → phys_read m.bus va size ≡ some (v, b)
    → b.last_bus_status ≡ BusStatus.bus_ok
    → mem_read m va size ≡ some (some v, record m { bus = b })
unfolding mem_read read_in_page mmu_translate
mem_read-flat m va size v b off done fine =
    let m' = record m { bus = b } in
    let faulted = abort m' va Access.read fsc_external in
    rw (off, done)
      (ap (λ s. some (elim s [ BusStatus.bus_ok ↦ (some v, m') | BusStatus.bus_fault ↦ faulted ]))
        fine)

-- With the MMU off, `n` bytes from `va` on lie inside a RAM that ends below 2 ^ 64.
pub record InRam {W : Type 0} (m : Mmu W) (va n : ℕ) : Type 0 where
  pub off : has_bit (m.cpu.sctlr 1) 0 ≡ false
  pub above : m.bus.ram_base ≤ va
  pub below : va + n ≤ m.bus.ram_base + m.bus.ram_size
  pub small : m.bus.ram_base + m.bus.ram_size < 2 ^ 64

-- The machine after an access to the RAM: the bus is fine, and the RAM is `ram`.
abbrev pub with_ram : {W : Type 0} → Mmu W → (ℕ → ℕ) → Mmu W
with_ram m ram = record m { bus = record m.bus { ram = ram; last_bus_status = BusStatus.bus_ok } }

module _ {W : Type 0} (m : Mmu W) (va n : ℕ) (h : InRam m va n) where
  passes : in_window m.bus.ram_base m.bus.ram_size va n ≡ true
  passes = let a = h.above in let b = h.below in let s = h.small in ground arith

  fits : leb (va - m.bus.ram_base + n) m.bus.ram_size ≡ true
  fits = let a = h.above in let b = h.below in ground arith

  pub mem_read-ram :
      mem_read m va n ≡ some (some (ld_le m.bus.ram (va - m.bus.ram_base) n), with_ram m m.bus.ram)
  unfolding phys_read
  mem_read-ram = mem_read-flat m va n _ _ h.off (rw (passes, fits) refl) refl

  pub mem_write-ram :
      (v : ℕ)
      → mem_write m va n v ≡ some (true, with_ram m (st_le m.bus.ram (va - m.bus.ram_base) n v))
  unfolding phys_write
  mem_write-ram v = mem_write-flat m va n v _ h.off (rw (passes, fits) refl) refl
