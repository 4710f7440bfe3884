-- ===== src/Memory/Nor.antt =====
-- The NOR flash of src/memory.c: the Intel command set of its two banks. The calls that drop JIT
-- translations of programmed bytes are left out. Offsets stand below FLASH_SIZE here; the bus
-- (Memory.antt) checks them.
pub mod Laws
pub mod Protocol
use arm64emu_system.Base.{
  ℕ, zero, suc, ◌+◌, ◌-◌, ◌*◌, ◌/◌, ◌%◌, ◌^◌, Bool, true, false, not, ◌&&◌, ◌||◌,
}
use arm64emu_system.Base.{
  Option, none, some, ◌==◌, ltb, leb, if◌then◌else◌, u8, u32, bit_and, bit_or, update, align_down,
  has_bit,
}

-- FLASH_BANK, FL_BLOCK and FL_STAT_RDY.
abbrev pub flash_bank : ℕ
flash_bank = 0x0400_0000

abbrev pub fl_block : ℕ
fl_block = 0x40000

abbrev pub fl_stat_rdy : ℕ
fl_stat_rdy = 0x80

-- FL_ARRAY .. FL_CFI, and PG_NONE .. PG_BUFCONF.
pub data Mode : Type 0 where
  read_array read_status read_id read_cfi : Mode

pub data Phase : Type 0 where
  idle word erase buf_count buf_data buf_confirm : Phase

pub record FlashCfi : Type 0 where
  pub mode : Mode
  pub prog : Phase
  pub status : ℕ
  pub buf_base : ℕ
  pub buf_cnt : ℕ
  pub buf_seen : ℕ

pub record Flash : Type 0 where
  pub cells : ℕ → ℕ
  pub banks : ℕ → FlashCfi

abbrev pub bank_of : ℕ → ℕ
bank_of off = if leb flash_bank off then 1 else 0

-- `flash_program`: the bytes `i ..`, with `left` to go.
unfoldable pub program : ℕ → ℕ → ℕ → ℕ → (ℕ → ℕ) → ℕ → ℕ
program off val zero i f = f
program off val (suc left) i f =
    program off val left (i + 1)
      (update f (off + i) (bit_and (f (off + i)) (u8 (val / 2 ^ (i * 8)))))

-- `memset(m->flash + base, 0xff, FL_BLOCK)`.
unfoldable pub wipe : ℕ → (ℕ → ℕ) → ℕ → ℕ
wipe base f j = if leb base j && ltb j (base + fl_block) then 0xff else f j

abbrev pub put_bank : ℕ → FlashCfi → Flash → Flash
put_bank off s f = record f { banks = update f.banks (bank_of off) s }

-- The command phase.
unfoldable pub command : FlashCfi → ℕ → FlashCfi
command s cmd =
    if (cmd == 0xff) || (cmd == 0xf0)
    then record s { mode = Mode.read_array }
    else if cmd == 0x70
    then record s { mode = Mode.read_status }
    else if cmd == 0x50
    then record s { status = fl_stat_rdy }
    else if cmd == 0x90
    then record s { mode = Mode.read_id }
    else if cmd == 0x98
    then record s { mode = Mode.read_cfi }
    else if (cmd == 0x10) || (cmd == 0x40)
    then record s { prog = Phase.word; mode = Mode.read_status }
    else if cmd == 0x20
    then record s { prog = Phase.erase; mode = Mode.read_status }
    else if cmd == 0xe8
    then record s { prog = Phase.buf_count; mode = Mode.read_status }
    else s

-- A write in each phase of the bank that `off` stands in, which is `s`.
unfoldable pub cfi_write_in : Phase → FlashCfi → Flash → ℕ → ℕ → ℕ → Flash
cfi_write_in Phase.word s f off size val =
    put_bank off (record s { prog = Phase.idle; mode = Mode.read_status })
      (record f { cells = program off val size 0 f.cells })
cfi_write_in Phase.buf_count s f off size val =
    put_bank off
      (record s {
        buf_cnt = val % 2 ^ 16 + 1;
        buf_seen = 0;
        buf_base = u32 off;
        prog = Phase.buf_data;
      })
      f
cfi_write_in Phase.buf_data s f off size val =
    let seen = u32 (s.buf_seen + 1) in
    put_bank off
      (record s {
        buf_seen = seen;
        prog = if leb s.buf_cnt seen then Phase.buf_confirm else s.prog;
      })
      (record f { cells = program off val size 0 f.cells })
cfi_write_in Phase.buf_confirm s f off size val =
    if u8 val == 0xd0
    then put_bank off (record s { prog = Phase.idle; mode = Mode.read_status }) f
    else f
cfi_write_in Phase.erase s f off size val =
    if u8 val == 0xd0
    then put_bank off
        (record s { status = fl_stat_rdy; prog = Phase.idle; mode = Mode.read_status })
        (record f { cells = wipe (align_down off 18) f.cells })
    else f
cfi_write_in Phase.idle s f off size val = put_bank off (command s (u8 val)) f

unfoldable pub cfi_write : Flash → ℕ → ℕ → ℕ → Flash
cfi_write f off size val = let s = f.banks (bank_of off) in cfi_write_in s.prog s f off size val

unfoldable pub cfi_query_byte : ℕ → ℕ
cfi_query_byte w =
    if w == 0x10
    then 0x51
    else if w == 0x11
    then 0x52
    else if w == 0x12
    then 0x59
    else if w == 0x13
    then 0x01
    else if w == 0x27
    then 0x1a
    else if w == 0x28
    then 0x02
    else if w == 0x2a
    then 0x05
    else if w == 0x2c
    then 0x01
    else if w == 0x2d
    then 0xff
    else if w == 0x30
    then 0x04
    else 0x00

-- Byte `i` of an answer in the modes other than read-array.
abbrev pub answer_byte : FlashCfi → ℕ → ℕ → ℕ
answer_byte s bank_off i =
    let odd = has_bit (bank_off + i) 0 in
    let wo = (bank_off + i) / 2 in
    elim s.mode [
      | Mode.read_array ↦ 0
      | Mode.read_status ↦ if has_bit i 0 then 0 else s.status
      | Mode.read_id ↦ if odd then 0 else if wo == 0 then 0x89 else if wo == 1 then 0x18 else 0x00
      | Mode.read_cfi ↦ if odd then 0 else cfi_query_byte wo
    ]

unfoldable pub answer : FlashCfi → ℕ → ℕ → ℕ → ℕ → ℕ
answer s bank_off zero i v = v
answer s bank_off (suc left) i v =
    answer s bank_off left (i + 1) (bit_or v (answer_byte s bank_off i * 2 ^ (i * 8)))

-- `none` in read-array mode, where the array is read.
unfoldable pub cfi_read : Flash → ℕ → ℕ → Option ℕ
cfi_read f off size =
    let s = f.banks (bank_of off) in
    elim s.mode [ Mode.read_array ↦ none | _ ↦ some (answer s (off % flash_bank) size 0 0) ]

abbrev pub ready : FlashCfi
ready = record {
  mode = Mode.read_array;
  prog = Phase.idle;
  status = fl_stat_rdy;
  buf_base = 0;
  buf_cnt = 0;
  buf_seen = 0;
}

-- `flash_cfi_reset`, over the two banks that there are.
unfoldable pub cfi_reset : Flash → Flash
cfi_reset f = record f { banks = update (update f.banks 0 ready) 1 ready }
