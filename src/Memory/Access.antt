-- ===== src/Memory/Access.antt =====
-- src/memory.c: accesses to the RAM of the bus.
use arm64emu_system.Base.{ℕ, ◌+◌, ◌-◌, ◌*◌, ◌%◌, ◌^◌, ◌≤◌, ◌<◌, ◌≡◌, refl, arith, ◌⊎◌}
use arm64emu_system.Base.{true, false, none, some, leb, inl, inr}
use arm64emu_system.Memory.{Bus, BusStatus, in_window, phys_read, phys_write, phys_read_blk, st_le}
use arm64emu_system.Memory.Bytes.{ld_le-st_le, st_le-below, st_le-above}

in_window-true :
    (base size pa n : ℕ)
    → base ≤ pa
    → pa + n ≤ base + size
    → base + size < 2 ^ 64
    → in_window base size pa n ≡ true
in_window-true base size pa n lo hi small = ground arith

-- For an access inside a RAM that ends below 2 ^ 64: the store succeeds without a bus fault,
-- the same load then gives the value cut to its size, and every other byte of the RAM is as it
-- was.
pub phys_read-phys_write :
    {W : Type 0} (b : Bus W) (pa n v : ℕ)
    → b.ram_base ≤ pa
    → pa + n ≤ b.ram_base + b.ram_size
    → b.ram_base + b.ram_size < 2 ^ 64
    → (b' : Bus W) × (phys_write b pa n v ≡ some b')
      × (b'.last_bus_status ≡ BusStatus.bus_ok)
      × (phys_read b' pa n ≡ some (v % 2 ^ (8 * n), b'))
      × ((j : ℕ) → (j < pa - b.ram_base) ⊎ (pa - b.ram_base + n ≤ j) → b'.ram j ≡ b.ram j)
unfolding phys_read phys_write
phys_read-phys_write b pa n v lo hi small =
    let here = in_window-true b.ram_base b.ram_size pa n lo hi small in
    let i = pa - b.ram_base in
    let fits : leb (i + n) b.ram_size ≡ true = ground arith in
    (
      record b { last_bus_status = BusStatus.bus_ok; ram = st_le b.ram i n v },
      rw (here, fits) refl,
      refl,
      rw (here, fits, ld_le-st_le b.ram i n v) refl,
      λ j away. elim away [
        | inl below ↦ st_le-below b.ram i n v j below
        | inr above ↦ st_le-above b.ram i n v j above
      ],
    )

-- For a RAM that ends below 2 ^ 64 and a length not above its base: a block transfer from a
-- 64-bit address at or above the base, whose end reaches 2 ^ 64, leaves the RAM array.
pub phys_read_blk-none :
    {W : Type 0} (b : Bus W) (pa len : ℕ)
    → pa < 2 ^ 64
    → 2 ^ 64 ≤ pa + len
    → len ≤ b.ram_base
    → b.ram_base ≤ pa
    → b.ram_base + b.ram_size < 2 ^ 64
    → phys_read_blk b pa len ≡ none
unfolding phys_read_blk
phys_read_blk-none b pa len small wraps short above fits =
    let passes : in_window b.ram_base b.ram_size pa len ≡ true = ground arith in
    let leaves : leb (pa - b.ram_base + len) b.ram_size ≡ false = ground arith in
    rw (passes, leaves) refl
