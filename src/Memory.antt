-- ===== src/Memory.antt =====
-- src/memory.c: the physical bus. A RAM, a flash and memory-mapped devices, which change a world
-- `W` of their own. Sums of addresses wrap at 64 bits as in C; an access that then leaves an array,
-- undefined in C, is `none`. Trace output and the calls that drop JIT translations are left out.
pub mod Nor
pub mod Bytes
pub mod Access
mod Tests
use arm64emu_system.Base.{
  ℕ, zero, suc, ◌+◌, ◌-◌, ◌*◌, ◌/◌, ◌%◌, ◌^◌, Bool, true, false, not, ◌&&◌, ◌||◌, List, [], ◌∷◌,
}
use arm64emu_system.Base.{Option, none, some, ◌>>=◌, ◌==◌, ltb, leb, if◌then◌else◌, u8, u64, update}
use arm64emu_system.Memory.Nor.{Flash, cfi_read, cfi_write}

-- BUS_OK and BUS_FAULT.
pub data BusStatus : Type 0 where
  bus_ok bus_fault : BusStatus

-- `MMIODev`: a handler may be missing.
pub record Device (W : Type 0) : Type 0 where
  pub base : ℕ
  pub size : ℕ
  pub read : Option (W → ℕ → ℕ → ℕ × W)
  pub write : Option (W → ℕ → ℕ → ℕ → W)

-- The fields of `Machine` that the bus uses.
pub record Bus (W : Type 0) : Type 0 where
  pub ram : ℕ → ℕ
  pub ram_base : ℕ
  pub ram_size : ℕ
  pub flash : Flash
  pub flash_base : ℕ
  pub flash_size : ℕ
  pub devices : List (Device W)
  pub last_bus_status : BusStatus
  pub world : W

-- MAX_DEVS.
abbrev pub max_devs : ℕ
max_devs = 48

-- `machine_add_device`: `none` is the fatal error of a full table.
unfoldable pub count_devices : {W : Type 0} → List (Device W) → ℕ
count_devices [] = 0
count_devices (d ∷ ds) = suc (count_devices ds)

unfoldable pub append_device : {W : Type 0} → List (Device W) → Device W → List (Device W)
append_device [] d = d ∷ []
append_device (e ∷ ds) d = e ∷ append_device ds d

unfoldable pub add_device : {W : Type 0} → Bus W → Device W → Option (Bus W)
add_device b d =
    if leb max_devs (count_devices b.devices)
    then none
    else some (record b { devices = append_device b.devices d })

-- The first device whose window holds the address.
unfoldable pub find_dev : {W : Type 0} → List (Device W) → ℕ → Option (Device W)
find_dev [] pa = none
find_dev (d ∷ ds) pa = elim (leb d.base pa && ltb pa (u64 (d.base + d.size))) [
  | true ↦ some d
  | false ↦ find_dev ds pa
]

-- `pa >= base && pa + len <= base + size`, in 64 bits.
abbrev pub in_window : ℕ → ℕ → ℕ → ℕ → Bool
in_window base size pa len = leb base pa && leb (u64 (pa + len)) (u64 (base + size))

-- Little-endian bytes from index `i` on.
unfoldable pub ld_le : (ℕ → ℕ) → ℕ → ℕ → ℕ
ld_le f i zero = 0
ld_le f i (suc n) = f i + 2 ^ 8 * ld_le f (i + 1) n

unfoldable pub st_le : (ℕ → ℕ) → ℕ → ℕ → ℕ → ℕ → ℕ
st_le f i zero v = f
st_le f i (suc n) v = st_le (update f i (v % 2 ^ 8)) (i + 1) n (v / 2 ^ 8)

-- `ram_ptr`: the index of the byte in the RAM.
unfoldable pub ram_ptr : {W : Type 0} → Bus W → ℕ → ℕ → Option ℕ
ram_ptr b pa len = if in_window b.ram_base b.ram_size pa len then some (pa - b.ram_base) else none

-- An access to `n` bytes of an array of `len`.
abbrev pub inside : {A : Type 0} → ℕ → ℕ → ℕ → A → Option A
inside len i n a = if leb (i + n) len then some a else none

unfoldable pub phys_read : {W : Type 0} → Bus W → ℕ → ℕ → Option (ℕ × Bus W)
phys_read b' pa size =
    let b = record b' { last_bus_status = BusStatus.bus_ok } in
    let fault = record b { last_bus_status = BusStatus.bus_fault } in
    if in_window b.ram_base b.ram_size pa size
    then inside b.ram_size (pa - b.ram_base) size (ld_le b.ram (pa - b.ram_base) size, b)
    else if in_window b.flash_base b.flash_size pa size
    then (let off = pa - b.flash_base in
        inside b.flash_size off size (elim (cfi_read b.flash off size) [
          | some v ↦ (v, b)
          | none ↦ (ld_le b.flash.cells off size, b)
        ]))
    else some (elim (find_dev b.devices pa) [
      | none ↦ (0, fault)
      | some d ↦ elim d.read [
        | none ↦ (0, fault)
        | some r ↦ let (v, w) = r b.world (pa - d.base) size in (v, record b { world = w })
      ]
    ])

unfoldable pub phys_write : {W : Type 0} → Bus W → ℕ → ℕ → ℕ → Option (Bus W)
phys_write b' pa size value =
    let b = record b' { last_bus_status = BusStatus.bus_ok } in
    let fault = record b { last_bus_status = BusStatus.bus_fault } in
    if in_window b.ram_base b.ram_size pa size
    then inside b.ram_size (pa - b.ram_base) size
        (record b { ram = st_le b.ram (pa - b.ram_base) size value })
    else if in_window b.flash_base b.flash_size pa size
    then (let off = pa - b.flash_base in
        inside b.flash_size off size (record b { flash = cfi_write b.flash off size value }))
    else some (elim (find_dev b.devices pa) [
      | none ↦ fault
      | some d ↦ elim d.write [
        | none ↦ fault
        | some w ↦ record b { world = w b.world (pa - d.base) size value }
      ]
    ])

-- `memcpy` of a list of bytes to index `i`, and from it.
unfoldable pub copy_in : (ℕ → ℕ) → ℕ → List ℕ → ℕ → ℕ
copy_in f i [] = f
copy_in f i (v ∷ vs) = copy_in (update f i v) (i + 1) vs

unfoldable pub copy_out : (ℕ → ℕ) → ℕ → ℕ → List ℕ
copy_out f i zero = []
copy_out f i (suc n) = f i ∷ copy_out f (i + 1) n

unfoldable pub bytes : List ℕ → ℕ
bytes [] = 0
bytes (v ∷ vs) = suc (bytes vs)

-- The slow loops, a byte at a time.
unfoldable pub write_bytes : {W : Type 0} → Bus W → ℕ → List ℕ → Option (Bus W)
write_bytes b pa [] = some b
write_bytes b pa (v ∷ vs) = phys_write b pa 1 v >>= λ b'. write_bytes b' (u64 (pa + 1)) vs

unfoldable pub read_bytes : {W : Type 0} → Bus W → ℕ → ℕ → Option (List ℕ × Bus W)
read_bytes b pa zero = some ([], b)
read_bytes b pa (suc n) = phys_read b pa 1 >>= λ r.
    read_bytes r.1 (u64 (pa + 1)) n >>= λ rest. some (u8 r.0 ∷ rest.0, rest.1)

unfoldable pub phys_write_blk : {W : Type 0} → Bus W → ℕ → List ℕ → Option (Bus W)
phys_write_blk b pa src =
    let len = bytes src in
    if in_window b.ram_base b.ram_size pa len
    then inside b.ram_size (pa - b.ram_base) len
        (record b { ram = copy_in b.ram (pa - b.ram_base) src })
    else if in_window b.flash_base b.flash_size pa len
    then (let off = pa - b.flash_base in
        inside b.flash_size off len
          (record b { flash = record b.flash { cells = copy_in b.flash.cells off src } }))
    else write_bytes b pa src

unfoldable pub phys_read_blk : {W : Type 0} → Bus W → ℕ → ℕ → Option (List ℕ × Bus W)
phys_read_blk b pa len =
    if in_window b.ram_base b.ram_size pa len
    then inside b.ram_size (pa - b.ram_base) len (copy_out b.ram (pa - b.ram_base) len, b)
    else if in_window b.flash_base b.flash_size pa len
    then (let off = pa - b.flash_base in
        inside b.flash_size off len (copy_out b.flash.cells off len, b))
    else read_bytes b pa len
