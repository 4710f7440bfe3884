-- ===== src/Alu.antt =====
-- The arithmetic helpers of src/decode.c (lines 36 to 199) and of src/types.h.
pub mod Compare
pub mod Masks
mod Tests
use arm64emu_system.Base.{ℕ, zero, suc, ◌+◌, ◌-◌, ◌*◌, ◌/◌, ◌%◌, ◌^◌, Bool, true, false, not}
use arm64emu_system.Base.{◌==◌, ltb, if◌then◌else◌, has_bit, bit, bits, u8, u16, u32, u64, not64}
use arm64emu_system.Base.{
  bit_or, bit_and, bit_xor, pos, ◌+ℤ◌, eqb_ℤ, signed32, signed64, sub64, sub32,
}
use arm64emu_system.Base.{Option, none, some, ◌&&◌}
use arm64emu_system.Cpu.{ps_n, ps_z, ps_c, ps_v}

-- `sign_extend`: the low `bits` bits of `x` to 64.
unfoldable pub sign_extend : ℕ → ℕ → ℕ
sign_extend x bits =
    let m = 2 ^ (bits - 1) in
    if bits == 0 then x else if ltb bits 64 then sub64 (bit_xor x m) m else x

unfoldable pub ones : ℕ → ℕ
ones n = if ltb n 64 then 2 ^ n - 1 else 2 ^ 64 - 1

unfoldable pub ror32 : ℕ → ℕ → ℕ
ror32 x n = let k = n % 32 in if k == 0 then x else bit_or (x / 2 ^ k) (u32 (x * 2 ^ (32 - k)))

unfoldable pub ror64 : ℕ → ℕ → ℕ
ror64 x n = let k = n % 64 in if k == 0 then x else bit_or (x / 2 ^ k) (u64 (x * 2 ^ (64 - k)))

-- The four flags as an NZCV word.
unfoldable pub flags_word : Bool → Bool → Bool → Bool → ℕ
flags_word n z c v =
    bit_or (bit_or (bit_or (if n then ps_n else 0) (if z then ps_z else 0)) (if c then ps_c else 0))
      (if v then ps_v else 0)

-- The result and the flags; a caller that passes no place for the flags drops them.
unfoldable pub add_with_carry : ℕ → ℕ → ℕ → Bool → ℕ × ℕ
add_with_carry x y cin true =
    let u = x + y + cin in
    let res = u64 u in
    let s = signed64 x +ℤ signed64 y +ℤ pos cin in
    (res, flags_word (has_bit res 63) (res == 0) (has_bit u 64) (not (eqb_ℤ (signed64 res) s)))
add_with_carry x y cin false =
    let xx = u32 x in
    let yy = u32 y in
    let u = xx + yy + cin in
    let res = u32 u in
    let s = signed32 xx +ℤ signed32 yy +ℤ pos cin in
    (res, flags_word (has_bit res 31) (res == 0) (has_bit u 32) (not (eqb_ℤ (signed32 res) s)))

-- The NZCV word of `set_logical_flags`.
unfoldable pub logical_flags : ℕ → Bool → ℕ
logical_flags res true = flags_word (has_bit res 63) (res == 0) false false
logical_flags res false = let r = u32 res in flags_word (has_bit r 31) (r == 0) false false

-- Arithmetic shift right of a word of `w` bits: the sign fills from the left.
unfoldable pub asr : ℕ → ℕ → ℕ → ℕ
asr w v k = if has_bit v (w - 1) then 2 ^ w - 1 - (2 ^ w - 1 - v) / 2 ^ k else v / 2 ^ k

unfoldable pub shift_reg : ℕ → ℕ → ℕ → Bool → ℕ
shift_reg v type amount is64 =
    let w = if is64 then 64 else 32 in
    let k = amount % w in
    let v' = if is64 then v else u32 v in
    if type == 0
    then u64 (v' * 2 ^ k)
    else if type == 1
    then v' / 2 ^ k
    else if type == 2
    then asr w v' k
    else if is64
    then ror64 v' k
    else ror32 v' k

unfoldable pub extend_reg : ℕ → ℕ → ℕ → ℕ
extend_reg v option shift =
    let size = option % 4 in
    let out =
      if size == 0 then u8 v else if size == 1 then u16 v else if size == 2 then u32 v else v in
    let width = if size == 0 then 8 else if size == 1 then 16 else if size == 2 then 32 else 64 in
    let out' = if has_bit option 2 then sign_extend out width else out in u64 (out' * 2 ^ shift)

unfoldable pub ror_within : ℕ → ℕ → ℕ → ℕ
ror_within v r width =
    let k = r % width in
    let v' = u32 v in
    if width == 64
    then ror64 v r
    else if k == 0
    then v'
    else u32 (bit_or (v' / 2 ^ k) (v' * 2 ^ (width - k)))

-- The index of the highest set bit: `31 - __builtin_clz(n)` at a nonzero word of at most 7 bits.
unfoldable pub top_bit : ℕ → ℕ
top_bit n =
    if ltb n 2
    then 0
    else if ltb n 4
    then 1
    else if ltb n 8
    then 2
    else if ltb n 16
    then 3
    else if ltb n 32
    then 4
    else if ltb n 64
    then 5
    else 6

-- `for (i = 0; i < 64; i += esize) m |= e << i`, with `left` rounds to go.
unfoldable pub replicate_elem : ℕ → ℕ → ℕ → ℕ → ℕ → ℕ
replicate_elem e esize zero i m = m
replicate_elem e esize (suc left) i m =
    replicate_elem e esize left (i + esize) (bit_or m (e * 2 ^ i))

-- `decode_bitmasks_slow`: the masks, or `none` for a reserved encoding.
unfoldable pub decode_bitmasks_slow : ℕ → ℕ → ℕ → Option (ℕ × ℕ)
decode_bitmasks_slow imm_n imms immr =
    let nimms = bit_or (imm_n % 2 * 2 ^ 6) (63 - imms % 64) in
    let len = top_bit nimms in
    let esize = 2 ^ len in
    let levels = esize - 1 in
    let s = bit_and imms levels in
    let r = bit_and immr levels in
    let diff = bit_and (sub32 s r) levels in
    let emask = if esize == 64 then 2 ^ 64 - 1 else 2 ^ esize - 1 in
    let welem = bit_and (ones (s + 1)) emask in
    let telem = bit_and (ones (diff + 1)) emask in
    let w =
      if r % esize == 0
      then welem
      else bit_and (bit_or (welem / 2 ^ (r % esize)) (u64 (welem * 2 ^ (esize - r % esize))))
          emask in
    if nimms == 0
    then none
    else if ltb len 1
    then none
    else some (replicate_elem w esize (64 / esize) 0 0, replicate_elem telem esize (64 / esize) 0 0)

-- `decode_bitmasks`. Its table caches the function above by the fields that it reads.
unfoldable pub decode_bitmasks : ℕ → ℕ → ℕ → Bool → Option (ℕ × ℕ)
decode_bitmasks imm_n imms immr is64 =
    if not is64 && not (imm_n == 0) then none else elim (decode_bitmasks_slow imm_n imms immr) [
      | none ↦ none
      | some (w, t) ↦ some (if is64 then (w, t) else (u32 w, u32 t))
    ]
