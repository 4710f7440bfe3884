-- ===== src/Devices/FwCfg.antt =====
-- src/devices/fwcfg.c: the firmware configuration device. An item's bytes are a list. `dma_write` is
-- a write to the registers that start a transfer, which goes over the bus. The message about a full
-- table and the trace output are left out.
pub mod Laws
mod Tests
use arm64emu_system.Base.{
  ℕ, zero, suc, ◌+◌, ◌-◌, ◌*◌, ◌/◌, ◌%◌, ◌^◌, Bool, true, false, ◌&&◌, ◌||◌, not, List, [], ◌∷◌,
  ◌++◌,
}
use arm64emu_system.Base.{
  Option, none, some, ◌>>=◌, ◌==◌, leb, ltb, if◌then◌else◌, has_bit, u8, u16, u32, u64, bit_or,
}
use arm64emu_system.Memory.{Bus, phys_write, phys_read_blk, phys_write_blk}

pub record Item : Type 0 where
  pub key : ℕ
  pub content : List ℕ
  pub name : List ℕ
  pub is_file : Bool

pub record FwCfg : Type 0 where
  pub items : List Item
  pub next_file_key : ℕ
  pub sel : ℕ
  pub offset : ℕ
  pub dma_hi : ℕ

-- FW_FILE_DIR, FW_FILE_FIRST, and the size of the table.
abbrev pub fw_file_dir : ℕ
fw_file_dir = 0x0019

abbrev pub fw_file_first : ℕ
fw_file_first = 0x0020

abbrev pub max_items : ℕ
max_items = 96

unfoldable pub length : {A : Type 0} → List A → ℕ
length [] = 0
length (x ∷ xs) = suc (length xs)

-- Byte `i`, and 0 beyond the end: `it && f->offset < it->len ? it->data[f->offset] : 0`.
unfoldable pub byte_at : List ℕ → ℕ → ℕ
byte_at [] i = 0
byte_at (b ∷ bs) zero = b
byte_at (b ∷ bs) (suc i) = byte_at bs i

unfoldable pub find : List Item → ℕ → Option Item
find [] k = none
find (it ∷ its) k = elim (it.key == k) [ true ↦ some it | false ↦ find its k ]

-- `strncpy(it->name, name, 55)`.
unfoldable pub take : ℕ → List ℕ → List ℕ
take zero xs = []
take (suc n) [] = []
take (suc n) (x ∷ xs) = x ∷ take n xs

-- An item that is there is overwritten in its place; its name stays if none is given.
unfoldable pub overwrite : List Item → ℕ → List ℕ → Option (List ℕ) → List Item
overwrite [] k content name = []
overwrite (it ∷ its) k content name = elim (it.key == k) [
  | true ↦ elim name [
    | none ↦ record it { content = content; is_file = false } ∷ its
    | some n ↦ record it { content = content; is_file = true; name = take 55 n } ∷ its
  ]
  | false ↦ it ∷ overwrite its k content name
]

abbrev pub new_item : ℕ → List ℕ → Option (List ℕ) → Item
new_item k content none = record { key = k; content = content; name = []; is_file = false }
new_item k content (some n) = record {
  key = k;
  content = content;
  name = take 55 n;
  is_file = true;
}

unfoldable pub set_item : FwCfg → ℕ → List ℕ → Option (List ℕ) → FwCfg
set_item f k content name = elim (find f.items k) [
  | some _ ↦ record f { items = overwrite f.items k content name }
  | none ↦
      if leb max_items (length f.items)
      then f
      else record f { items = f.items ++ (new_item k content name ∷ []) }
]

abbrev pub put_be32 : ℕ → List ℕ
put_be32 v = v / 2 ^ 24 % 2 ^ 8 ∷ v / 2 ^ 16 % 2 ^ 8 ∷ v / 2 ^ 8 % 2 ^ 8 ∷ v % 2 ^ 8 ∷ []

abbrev pub put_le32 : ℕ → List ℕ
put_le32 v = v % 2 ^ 8 ∷ v / 2 ^ 8 % 2 ^ 8 ∷ v / 2 ^ 16 % 2 ^ 8 ∷ v / 2 ^ 24 % 2 ^ 8 ∷ []

-- A list cut or filled with zeros to a length.
unfoldable pub padded : ℕ → List ℕ → List ℕ
padded zero xs = []
padded (suc n) [] = 0 ∷ padded n []
padded (suc n) (x ∷ xs) = x ∷ padded n xs

-- The files of the table: how many, and an entry of 64 bytes for each.
unfoldable pub files : List Item → ℕ
files [] = 0
files (it ∷ its) = (if it.is_file then 1 else 0) + files its

unfoldable pub entries : List Item → List ℕ
entries [] = []
entries (it ∷ its) =
    (if it.is_file
      then put_be32 (length it.content)
        ++ (it.key / 2 ^ 8 % 2 ^ 8 ∷ it.key % 2 ^ 8 ∷ 0 ∷ 0 ∷ [] ++ padded 56 (take 55 it.name))
      else [])
    ++ entries its

unfoldable pub rebuild_dir : FwCfg → FwCfg
rebuild_dir f = set_item f fw_file_dir (put_be32 (files f.items) ++ entries f.items) none

unfoldable pub add_file : FwCfg → List ℕ → List ℕ → FwCfg
add_file f name content = rebuild_dir (
    set_item (record f { next_file_key = u16 (f.next_file_key + 1) }) f.next_file_key content
      (some name))

-- `fwcfg_set_legacy_kernel`; the command line comes with its final zero.
unfoldable pub set_legacy_kernel : FwCfg → List ℕ → List ℕ → List ℕ → FwCfg
set_legacy_kernel f kernel initrd cmdline =
    let f₁ = set_item f 0x0008 (put_le32 (length kernel)) none in
    let f₂ = set_item f₁ 0x0011 kernel none in
    let f₃ = set_item f₂ 0x000b (put_le32 (length initrd)) none in
    let f₄ = set_item f₃ 0x0012 initrd none in
    let f₅ = set_item f₄ 0x0014 (put_le32 (length cmdline)) none in
    let f₆ = set_item f₅ 0x0015 cmdline none in set_item f₆ 0x0017 (0 ∷ 0 ∷ 0 ∷ 0 ∷ []) none

-- The next byte of the selected item.
abbrev pub next_byte : FwCfg → ℕ
next_byte f = elim (find f.items f.sel) [ none ↦ 0 | some it ↦ byte_at it.content f.offset ]

abbrev pub advance : FwCfg → ℕ → FwCfg
advance f n = record f { offset = u32 (f.offset + n) }

-- The loop of the data register, from byte `i` of the access on.
unfoldable pub read_bytes : ℕ → ℕ → ℕ → FwCfg → ℕ × FwCfg
read_bytes zero i v f = (v, f)
read_bytes (suc left) i v f =
    read_bytes left (i + 1) (bit_or v (next_byte f * 2 ^ (i * 8))) (advance f 1)

unfoldable pub fwcfg_read : ℕ → ℕ → FwCfg → ℕ × FwCfg
fwcfg_read off size f = if off == 0x00 then read_bytes size 0 0 f else (0, f)

-- The transfer loop: the bytes `i ..`, each a store on the bus.
unfoldable pub transfer : {W : Type 0} → ℕ → ℕ → ℕ → FwCfg → Bus W → Option (FwCfg × Bus W)
transfer zero i target f b = some (f, b)
transfer (suc left) i target f b = phys_write b (u64 (target + i)) 1 (next_byte f) >>= λ b'.
    transfer left (i + 1) target (advance f 1) b'

-- Big-endian bytes of the descriptor.
unfoldable pub be : List ℕ → ℕ → ℕ → ℕ
be h i zero = 0
be h i (suc n) = byte_at h i * 2 ^ (8 * n) + be h (i + 1) n

unfoldable pub do_dma : {W : Type 0} → FwCfg → Bus W → ℕ → Option (FwCfg × Bus W)
do_dma f b addr = phys_read_blk b addr 16 >>= λ d.
    let control = be d.0 0 4 in
    let count = be d.0 4 4 in
    let target = be d.0 8 8 in
    let f' =
      if has_bit control 3 then record f { sel = u16 (control / 2 ^ 16); offset = 0 } else f in
    (if has_bit control 1
      then transfer count 0 target f' d.1
      else if has_bit control 4 || has_bit control 2
      then some (advance f' count, d.1)
      else some (f', d.1))
    >>= λ r. phys_write_blk r.1 addr (0 ∷ 0 ∷ 0 ∷ 0 ∷ []) >>= λ b'. some (r.0, b')

-- `__builtin_bswap32` and `__builtin_bswap64`.
unfoldable pub bswap : ℕ → ℕ → ℕ
bswap zero v = 0
bswap (suc n) v = v % 2 ^ 8 * 2 ^ (8 * n) + bswap n (v / 2 ^ 8)

-- The selector register: two bytes, swapped.
unfoldable pub select : FwCfg → ℕ → FwCfg
select f val = record f { sel = u16 (bit_or (val / 2 ^ 8) (val * 2 ^ 8)); offset = 0 }

unfoldable pub fwcfg_write : {W : Type 0} → ℕ → ℕ → ℕ → FwCfg → Bus W → Option (FwCfg × Bus W)
fwcfg_write off size val f b =
    if off == 0x08
    then some (select f val, b)
    else if off == 0x10
    then (if size == 8
        then do_dma f b (bswap 8 val)
        else some (record f { dma_hi = bswap 4 (u32 val) }, b))
    else if off == 0x14
    then do_dma f b (bit_or (f.dma_hi * 2 ^ 32) (bswap 4 (u32 val)))
    else some (f, b)

unfoldable pub reset : FwCfg → FwCfg
reset f = record f { sel = 0; offset = 0; dma_hi = 0 }

-- `fwcfg_create`: the signature "QEMU", the interface bits, one CPU, the empty directory.
unfoldable pub create : FwCfg
create =
    let f₀ : FwCfg = record {
      items = [];
      next_file_key = fw_file_first;
      sel = 0;
      offset = 0;
      dma_hi = 0;
    } in
    let f₁ = set_item f₀ 0x0000 (0x51 ∷ 0x45 ∷ 0x4d ∷ 0x55 ∷ []) none in
    let f₂ = set_item f₁ 0x0001 (3 ∷ 0 ∷ 0 ∷ 0 ∷ []) none in
    let f₃ = set_item f₂ 0x0005 (1 ∷ 0 ∷ []) none in rebuild_dir f₃
