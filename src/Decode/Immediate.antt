-- ===== src/Decode/Immediate.antt =====
-- `dp_immediate` of src/decode.c: data processing with an immediate operand.
use arm64emu_system.Base.{ℕ, ◌+◌, ◌-◌, ◌*◌, ◌/◌, ◌^◌, not, ◌&&◌, ◌||◌}
use arm64emu_system.Base.{◌==◌, ltb, if◌then◌else◌, has_bit, bit, u32, u64, not64, align_down}
use arm64emu_system.Base.{bit_or, bit_and, bit_xor, none, some}
use arm64emu_system.Cpu.{Cpu, reg_x, set_x, reg_xsp, set_xsp, set_x_sz, sized}
use arm64emu_system.Alu.{sign_extend, add_with_carry, logical_flags, decode_bitmasks, ror_within}
use arm64emu_system.Decode.{field, undefined}

-- ADR and ADRP.
unfoldable pub pc_relative : Cpu → ℕ → Cpu
pc_relative c insn =
    let rd = field insn 4 0 in
    let imm = sign_extend (bit_or (field insn 23 5 * 2 ^ 2) (field insn 30 29)) 21 in
    if bit insn 31 == 0
    then set_x c rd (u64 (c.cur_insn_pc + imm))
    else set_x c rd (u64 (align_down c.cur_insn_pc 12 + u64 (imm * 2 ^ 12)))

unfoldable pub add_sub_immediate : Cpu → ℕ → Cpu
add_sub_immediate c insn =
    let sf = has_bit insn 31 in
    let rd = field insn 4 0 in
    let imm12 = field insn 21 10 in
    let imm = if has_bit insn 22 then imm12 * 2 ^ 12 else imm12 in
    let n = reg_xsp c (field insn 9 5) in
    let (r, fl) =
      if has_bit insn 30 then add_with_carry n (not64 imm) 1 sf else add_with_carry n imm 0 sf in
    if has_bit insn 29 then set_x_sz (record c { nzcv = fl }) rd sf r else set_xsp c rd (sized sf r)

-- The operation of AND, ORR, EOR and ANDS.
abbrev pub logical_op : ℕ → ℕ → ℕ → ℕ
logical_op opc n m =
    if opc == 0
    then bit_and n m
    else if opc == 1
    then bit_or n m
    else if opc == 2
    then bit_xor n m
    else bit_and n m

unfoldable pub logical_immediate : Cpu → ℕ → Cpu
logical_immediate c insn =
    let sf = has_bit insn 31 in
    let rd = field insn 4 0 in
    let opc = field insn 30 29 in
    elim (decode_bitmasks (bit insn 22) (field insn 15 10) (field insn 21 16) sf) [
      | none ↦ undefined c
      | some (wmask, _) ↦
          let r = sized sf (logical_op opc (reg_x c (field insn 9 5)) wmask) in
          if opc == 3 then set_x (record c { nzcv = logical_flags r sf }) rd r else set_xsp c rd r
    ]

-- MOVN, MOVZ and MOVK.
unfoldable pub move_wide : Cpu → ℕ → Cpu
move_wide c insn =
    let sf = has_bit insn 31 in
    let rd = field insn 4 0 in
    let opc = field insn 30 29 in
    let hw = field insn 22 21 in
    let imm16 = field insn 20 5 in
    let shift = hw * 16 in
    let placed = imm16 * 2 ^ shift in
    if not sf && not (ltb hw 2)
    then undefined c
    else if opc == 0
    then set_x_sz c rd sf (not64 placed)
    else if opc == 2
    then set_x_sz c rd sf placed
    else if opc == 3
    then set_x_sz c rd sf (bit_or (bit_and (reg_x c rd) (not64 (0xffff * 2 ^ shift))) placed)
    else undefined c

-- SBFM, BFM and UBFM.
unfoldable pub bitfield : Cpu → ℕ → Cpu
bitfield c insn =
    let sf = has_bit insn 31 in
    let rd = field insn 4 0 in
    let opc = field insn 30 29 in
    let n = bit insn 22 in
    let immr = field insn 21 16 in
    let imms = field insn 15 10 in
    let src = reg_x c (field insn 9 5) in
    let ror = ror_within src immr (if sf then 64 else 32) in
    if (opc == 3) || not (n == bit insn 31)
    then undefined c
    else elim (decode_bitmasks n imms immr sf) [
      | none ↦ undefined c
      | some (wmask, tmask) ↦
          let bot =
            if opc == 1
            then bit_or (bit_and (reg_x c rd) (not64 wmask)) (bit_and ror wmask)
            else bit_and ror wmask in
          let top =
            if opc == 0
            then (if has_bit src imms then 2 ^ 64 - 1 else 0)
            else if opc == 2
            then 0
            else reg_x c rd in
          set_x_sz c rd sf (bit_or (bit_and top (not64 tmask)) (bit_and bot tmask))
    ]

unfoldable pub extract : Cpu → ℕ → Cpu
extract c insn =
    let sf = has_bit insn 31 in
    let rd = field insn 4 0 in
    let lsb = field insn 15 10 in
    let hi = reg_x c (field insn 9 5) in
    let lo = reg_x c (field insn 20 16) in
    let wide = if lsb == 0 then lo else bit_or (u64 (hi * 2 ^ (64 - lsb))) (lo / 2 ^ lsb) in
    let narrow =
      if lsb == 0 then u32 lo else bit_or (u32 (u32 hi * 2 ^ (32 - lsb))) (u32 lo / 2 ^ lsb) in
    if not (field insn 30 29 == 0)
      || (not (bit insn 22 == bit insn 31) || (has_bit insn 21 || (not sf && has_bit lsb 5)))
    then undefined c
    else set_x_sz c rd sf (if sf then wide else narrow)

unfoldable pub dp_immediate : Cpu → ℕ → Cpu
dp_immediate c insn =
    let t = field insn 28 23 in
    if (t == 0x20) || (t == 0x21)
    then pc_relative c insn
    else if t == 0x22
    then add_sub_immediate c insn
    else if t == 0x24
    then logical_immediate c insn
    else if t == 0x25
    then move_wide c insn
    else if t == 0x26
    then bitfield c insn
    else if t == 0x27
    then extract c insn
    else undefined c
