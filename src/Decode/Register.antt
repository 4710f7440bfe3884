-- ===== src/Decode/Register.antt =====
-- `dp_register` of src/decode.c: data processing on registers.
use arm64emu_system.Base.{
  ℕ, zero, suc, ◌+◌, ◌-◌, ◌*◌, ◌/◌, ◌%◌, ◌^◌, Bool, true, false, not, ◌&&◌, ◌||◌,
}
use arm64emu_system.Base.{◌==◌, ltb, if◌then◌else◌, has_bit, bit, u32, u64, not64, sub64}
use arm64emu_system.Base.{bit_or, bit_and, bit_xor}
use arm64emu_system.Cpu.{Cpu, reg_x, set_x, reg_xsp, set_xsp, set_x_sz, sized, cond_holds}
use arm64emu_system.Alu.{add_with_carry, logical_flags, shift_reg, extend_reg, flags_word}
use arm64emu_system.Decode.{field, undefined}
use arm64emu_system.Decode.Immediate.{logical_op}
use arm64emu_system.Decode.Crc.{crc32_step, crc32_poly, crc32c_poly}

unfoldable pub logical_shifted : Cpu → ℕ → Cpu
logical_shifted c insn =
    let sf = has_bit insn 31 in
    let rd = field insn 4 0 in
    let opc = field insn 30 29 in
    let imm6 = field insn 15 10 in
    let shifted = shift_reg (reg_x c (field insn 20 16)) (field insn 23 22) imm6 sf in
    let op2 = if has_bit insn 21 then not64 shifted else shifted in
    let r = sized sf (logical_op opc (reg_x c (field insn 9 5)) op2) in
    if not sf && has_bit imm6 5
    then undefined c
    else if opc == 3
    then set_x (record c { nzcv = logical_flags r sf }) rd r
    else set_x c rd r

-- The sum or difference of two operands, and what the flag-setting forms do with it; `sp` says that
-- the plain forms write the stack pointer at register 31.
abbrev pub add_sub_result : Cpu → ℕ → ℕ → ℕ → Bool → Cpu
add_sub_result c insn n op2 sp =
    let sf = has_bit insn 31 in
    let rd = field insn 4 0 in
    let (r, fl) =
      if has_bit insn 30 then add_with_carry n (not64 op2) 1 sf else add_with_carry n op2 0 sf in
    if has_bit insn 29
    then set_x_sz (record c { nzcv = fl }) rd sf r
    else if sp
    then set_xsp c rd (sized sf r)
    else set_x_sz c rd sf r

unfoldable pub add_sub_register : Cpu → ℕ → Cpu
add_sub_register c insn =
    let sf = has_bit insn 31 in
    let rn = field insn 9 5 in
    let m = reg_x c (field insn 20 16) in
    let imm3 = field insn 12 10 in
    let shift = field insn 23 22 in
    let imm6 = field insn 15 10 in
    if has_bit insn 21
    then (if ltb 4 imm3 || not (shift == 0)
        then undefined c
        else add_sub_result c insn (reg_xsp c rn) (extend_reg m (field insn 15 13) imm3) true)
    else (if (shift == 3) || (not sf && has_bit imm6 5)
        then undefined c
        else add_sub_result c insn (reg_x c rn) (shift_reg m shift imm6 sf) false)

-- `(u64)((s64)(s32)a * (s64)(s32)b)`: the low halves, signed, multiplied.
abbrev pub smull : ℕ → ℕ → ℕ
smull a b =
    let sx = λ (w : ℕ). if has_bit w 31 then w + (2 ^ 64 - 2 ^ 32) else w in
    u64 (sx (u32 a) * sx (u32 b))

-- The high half of the signed product: each operand's sign takes the other away (`smulh64`).
abbrev pub smulh : ℕ → ℕ → ℕ
smulh a b =
    let h = a * b / 2 ^ 64 in
    let h' = if has_bit a 63 then sub64 h b else h in if has_bit b 63 then sub64 h' a else h'

unfoldable pub multiply : Cpu → ℕ → Cpu
multiply c insn =
    let sf = has_bit insn 31 in
    let rd = field insn 4 0 in
    let op31 = field insn 23 21 in
    let n = reg_x c (field insn 9 5) in
    let m = reg_x c (field insn 20 16) in
    let a = reg_x c (field insn 14 10) in
    let op = op31 * 2 + bit insn 15 in
    if not (field insn 30 29 == 0)
    then undefined c
    else if not sf && not (op31 == 0)
    then undefined c
    else if op == 0x0
    then set_x_sz c rd sf (u64 (a + n * m))
    else if op == 0x1
    then set_x_sz c rd sf (sub64 a (u64 (n * m)))
    else if op == 0x2
    then set_x_sz c rd sf (u64 (a + smull n m))
    else if op == 0x3
    then set_x_sz c rd sf (sub64 a (smull n m))
    else if op == 0x4
    then set_x_sz c rd sf (smulh n m)
    else if op == 0xa
    then set_x_sz c rd sf (u64 (a + u32 n * u32 m))
    else if op == 0xb
    then set_x_sz c rd sf (sub64 a (u32 n * u32 m))
    else if op == 0xc
    then set_x_sz c rd sf (n * m / 2 ^ 64)
    else undefined c

-- ADC and SBC, RMIF, SETF8 and SETF16.
unfoldable pub add_sub_carry : Cpu → ℕ → Cpu
add_sub_carry c insn =
    let sf = has_bit insn 31 in
    let rd = field insn 4 0 in
    let n = reg_x c (field insn 9 5) in
    let m = reg_x c (field insn 20 16) in
    let (r, fl) = add_with_carry n (if has_bit insn 30 then not64 m else m) (bit c.nzcv 29) sf in
    let imm6 = field insn 20 15 in
    let mask = field insn 3 0 in
    let t = if imm6 == 0 then n else bit_or (n / 2 ^ imm6) (u64 (n * 2 ^ (64 - imm6))) in
    let nib = bit_or (bit_and (c.nzcv / 2 ^ 28 % 2 ^ 4) (15 - mask)) (bit_and t mask) in
    let msb = if has_bit insn 14 then 15 else 7 in
    if field insn 15 10 == 0
    then set_x_sz (if has_bit insn 29 then record c { nzcv = fl } else c) rd sf r
    else if sf
        && (not (has_bit insn 30)
            && (has_bit insn 29 && ((field insn 14 10 == 1) && not (has_bit insn 4))))
    then record c { nzcv = nib * 2 ^ 28 }
    else if not sf
        && (not (has_bit insn 30)
            && (has_bit insn 29
                && ((field insn 20 16 == 0)
                    && (((field insn 15 10 == 0x02) || (field insn 15 10 == 0x12))
                        && (field insn 4 0 == 0x0d)))))
    then record c {
      nzcv =
          flags_word (has_bit n msb) (n % 2 ^ (msb + 1) == 0) (has_bit c.nzcv 29)
            (bit_xor (bit n (msb + 1)) (bit n msb) == 1);
    }
    else undefined c

-- CCMP and CCMN.
unfoldable pub conditional_compare : Cpu → ℕ → Cpu
conditional_compare c insn =
    let sf = has_bit insn 31 in
    let n = reg_x c (field insn 9 5) in
    let m = if has_bit insn 11 then field insn 20 16 else reg_x c (field insn 20 16) in
    let fl =
      if has_bit insn 30
      then (add_with_carry n (not64 m) 1 sf).1
      else (add_with_carry n m 0 sf).1 in
    if not (has_bit insn 29) || (has_bit insn 10 || has_bit insn 4)
    then undefined c
    else if cond_holds c.nzcv (field insn 15 12)
    then record c { nzcv = fl }
    else record c {
      nzcv = flags_word (has_bit insn 3) (has_bit insn 2) (has_bit insn 1) (has_bit insn 0);
    }

-- CSEL, CSINC, CSINV and CSNEG.
unfoldable pub conditional_select : Cpu → ℕ → Cpu
conditional_select c insn =
    let n = reg_x c (field insn 9 5) in
    let m = reg_x c (field insn 20 16) in
    let op = has_bit insn 30 in
    let o2 = has_bit insn 10 in
    let r =
      if cond_holds c.nzcv (field insn 15 12)
      then n
      else if not op && not o2
      then m
      else if not op && o2
      then u64 (m + 1)
      else if op && not o2
      then not64 m
      else sub64 0 m in
    if has_bit insn 29 || has_bit insn 11
    then undefined c
    else set_x_sz c (field insn 4 0) (has_bit insn 31) r

-- `for (i < w) if ((v >> i) & 1) o |= 1 << (w - 1 - i)`.
unfoldable pub reverse_bits : ℕ → ℕ → ℕ → ℕ → ℕ → ℕ
reverse_bits w v zero i o = o
reverse_bits w v (suc left) i o =
    reverse_bits w v left (i + 1) (if has_bit v i then bit_or o (2 ^ (w - 1 - i)) else o)

-- The bytes of `v` from byte `lo` on, `n` of them, in the opposite order.
unfoldable pub swap_bytes : ℕ → ℕ → ℕ
swap_bytes v zero = 0
swap_bytes v (suc n) = v % 2 ^ 8 * 2 ^ (8 * n) + swap_bytes (v / 2 ^ 8) n

-- The pairs of bytes of REV16, `left` pairs from byte `i` on.
unfoldable pub swap_pairs : ℕ → ℕ → ℕ → ℕ → ℕ
swap_pairs v zero i o = o
swap_pairs v (suc left) i o = swap_pairs v left (i + 2) (
    bit_or (bit_or o (v / 2 ^ (i * 8) % 2 ^ 8 * 2 ^ ((i + 1) * 8)))
      (v / 2 ^ ((i + 1) * 8) % 2 ^ 8 * 2 ^ (i * 8)))

-- Zeros above the highest set bit of a word of `w` bits; `w` at zero.
unfoldable pub leading_zeros : ℕ → ℕ → ℕ
leading_zeros zero v = 0
leading_zeros (suc k) v = elim (has_bit v k) [ true ↦ 0 | false ↦ suc (leading_zeros k v) ]

-- How many bits below bit `i` equal the sign, counted down to the first that does not.
unfoldable pub sign_run : ℕ → ℕ → ℕ → ℕ
sign_run v sign zero = 0
sign_run v sign (suc i) = elim (bit v i == sign) [ true ↦ suc (sign_run v sign i) | false ↦ 0 ]

unfoldable pub one_source : Cpu → ℕ → Cpu
one_source c insn =
    let sf = has_bit insn 31 in
    let rd = field insn 4 0 in
    let op = field insn 15 10 in
    let n = reg_x c (field insn 9 5) in
    let w = if sf then 64 else 32 in
    let v = sized sf n in
    if op == 0x00
    then set_x_sz c rd sf (reverse_bits w v w 0 0)
    else if op == 0x01
    then set_x_sz c rd sf (swap_pairs n (if sf then 4 else 2) 0 0)
    else if op == 0x02
    then set_x_sz c rd sf (
        if sf
        then bit_or (swap_bytes (u32 n) 4) (swap_bytes (n / 2 ^ 32 % 2 ^ 32) 4 * 2 ^ 32)
        else swap_bytes (u32 n) 4)
    else if op == 0x03
    then set_x_sz c rd sf (swap_bytes n 8)
    else if op == 0x04
    then set_x_sz c rd sf (leading_zeros w v)
    else if op == 0x05
    then set_x_sz c rd sf (sign_run v (bit v (w - 1)) (w - 1))
    else undefined c

-- Signed division of words of `w` bits, rounding to zero; the overflowing quotient is the dividend.
unfoldable pub sdiv : ℕ → ℕ → ℕ → ℕ
sdiv w a b =
    let mag = λ (x : ℕ). if has_bit x (w - 1) then 2 ^ w - x else x in
    let q = mag a / mag b in
    if b == 0
    then 0
    else if (b == 2 ^ w - 1) && (a == 2 ^ (w - 1))
    then a
    else if bit a (w - 1) == bit b (w - 1)
    then q
    else (2 ^ w - q) % 2 ^ w

unfoldable pub two_source : Cpu → ℕ → Cpu
two_source c insn =
    let sf = has_bit insn 31 in
    let op = field insn 15 10 in
    let n = reg_x c (field insn 9 5) in
    let m = reg_x c (field insn 20 16) in
    let put = set_x_sz c (field insn 4 0) sf in
    if op == 0x02
    then put (if sf then (if m == 0 then 0 else n / m) else u32 n / u32 m)
    else if op == 0x03
    then put (if sf then sdiv 64 n m else sdiv 32 (u32 n) (u32 m))
    else if op == 0x08
    then put (shift_reg n 0 m sf)
    else if op == 0x09
    then put (shift_reg n 1 m sf)
    else if op == 0x0a
    then put (shift_reg n 2 m sf)
    else if op == 0x0b
    then put (shift_reg n 3 m sf)
    else if op == 0x10
    then put (crc32_step (u32 n) m 1 crc32_poly)
    else if op == 0x11
    then put (crc32_step (u32 n) m 2 crc32_poly)
    else if op == 0x12
    then put (crc32_step (u32 n) m 4 crc32_poly)
    else if op == 0x13
    then put (crc32_step (u32 n) m 8 crc32_poly)
    else if op == 0x14
    then put (crc32_step (u32 n) m 1 crc32c_poly)
    else if op == 0x15
    then put (crc32_step (u32 n) m 2 crc32c_poly)
    else if op == 0x16
    then put (crc32_step (u32 n) m 4 crc32c_poly)
    else if op == 0x17
    then put (crc32_step (u32 n) m 8 crc32c_poly)
    else undefined c

unfoldable pub dp_register : Cpu → ℕ → Cpu
dp_register c insn =
    let op24 = field insn 28 24 in
    let op21 = field insn 28 21 in
    if op24 == 0x0a
    then logical_shifted c insn
    else if op24 == 0x0b
    then add_sub_register c insn
    else if op24 == 0x1b
    then multiply c insn
    else if op21 == 0xd0
    then add_sub_carry c insn
    else if op21 == 0xd2
    then conditional_compare c insn
    else if op21 == 0xd4
    then conditional_select c insn
    else if op21 == 0xd6
    then (if has_bit insn 30 then one_source c insn else two_source c insn)
    else undefined c
