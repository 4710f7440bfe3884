-- ===== src/Decode/Constants.antt =====
-- src/decode.c: the instruction sequence by which compilers load a 64-bit constant.
use native.Mathlib.Nat.{one-le-pow}
use arm64emu_system.Base.{
  ℕ, ◌+◌, ◌-◌, ◌*◌, ◌/◌, ◌%◌, ◌^◌, ◌<◌, ◌≡◌, refl, arith, ◌∙◌, ap, true, false, ◌==◌, ==_refl,
  has_bit, bit_or, bit_and, not64,
}
use arm64emu_system.Base.Bits.{bit_and-split, bit_and_ones, bit_or_high, zero-bit_and}
use arm64emu_system.Cpu.{Cpu, reg_x, set_x, set_x_sz}
use arm64emu_system.Decode.{field}
use arm64emu_system.Decode.Immediate.{move_wide}

-- The encodings of `MOVZ Xd, #imm, LSL #(16 * hw)` and of MOVK.
abbrev pub movz : ℕ → ℕ → ℕ → ℕ
movz hw imm rd = 0xd280_0000 + hw * 2 ^ 21 + imm * 2 ^ 5 + rd

abbrev pub movk : ℕ → ℕ → ℕ → ℕ
movk hw imm rd = 0xf280_0000 + hw * 2 ^ 21 + imm * 2 ^ 5 + rd

-- A mask whose low `s` bits are ones keeps a number below `2 ^ s`.
kept_below : (s q a : ℕ) → a < 2 ^ s → bit_and a (q * 2 ^ s + (2 ^ s - 1)) ≡ a
kept_below s q a h =
    let pos = one-le-pow s 2 in
    ap (λ (t : ℕ). bit_and t (q * 2 ^ s + (2 ^ s - 1))) (omega arith)
    ∙ (bit_and-split s 0 q a (2 ^ s - 1) h (omega arith)
        ∙ rw (zero-bit_and q, bit_and_ones s a h) (omega arith))

-- MOVK above all the bits of the register adds its immediate there.
movk_adds :
    (s q a imm : ℕ)
    → a < 2 ^ s
    → not64 (0xffff * 2 ^ s) ≡ q * 2 ^ s + (2 ^ s - 1)
    → bit_or (bit_and a (not64 (0xffff * 2 ^ s))) (imm * 2 ^ s) ≡ imm * 2 ^ s + a
movk_adds s q a imm h mask = rw (mask, kept_below s q a h) (bit_or_high s imm a h)

reg_x-set_x : (c : Cpu) (n v : ℕ) → n < 31 → reg_x (set_x c n v) n ≡ v
unfolding reg_x set_x
reg_x-set_x c n v h = let e : (n == 31) ≡ false = ground arith in rw (e, ==_refl n) refl

-- What the decoder reads of the two encodings.
movz-fields :
    (hw imm rd : ℕ)
    → hw < 4
    → imm < 2 ^ 16
    → rd < 32
    → (has_bit (movz hw imm rd) 31 ≡ true)
      × (field (movz hw imm rd) 4 0 ≡ rd)
      × (field (movz hw imm rd) 30 29 ≡ 2)
      × (field (movz hw imm rd) 22 21 ≡ hw)
      × (field (movz hw imm rd) 20 5 ≡ imm)
movz-fields hw imm rd h i r = (ground arith, omega arith, omega arith, omega arith, omega arith)

movk-fields :
    (hw imm rd : ℕ)
    → hw < 4
    → imm < 2 ^ 16
    → rd < 32
    → (has_bit (movk hw imm rd) 31 ≡ true)
      × (field (movk hw imm rd) 4 0 ≡ rd)
      × (field (movk hw imm rd) 30 29 ≡ 3)
      × (field (movk hw imm rd) 22 21 ≡ hw)
      × (field (movk hw imm rd) 20 5 ≡ imm)
movk-fields hw imm rd h i r = (ground arith, omega arith, omega arith, omega arith, omega arith)

move_wide-movz :
    (c : Cpu) (imm rd : ℕ) → imm < 2 ^ 16 → rd < 31 → reg_x (move_wide c (movz 0 imm rd)) rd ≡ imm
unfolding move_wide set_x_sz
move_wide-movz c imm rd h r =
    let f = movz-fields 0 imm rd (omega arith) h (omega arith) in
    rw (f.0, f.1, f.2, f.3, f.4) (reg_x-set_x c rd (imm * 2 ^ (0 * 16)) r ∙ omega arith)

move_wide-movk :
    (c : Cpu) (hw imm rd q : ℕ)
    → hw < 4
    → imm < 2 ^ 16
    → rd < 31
    → reg_x c rd < 2 ^ (hw * 16)
    → not64 (0xffff * 2 ^ (hw * 16)) ≡ q * 2 ^ (hw * 16) + (2 ^ (hw * 16) - 1)
    → reg_x (move_wide c (movk hw imm rd)) rd ≡ imm * 2 ^ (hw * 16) + reg_x c rd
unfolding move_wide set_x_sz
move_wide-movk c hw imm rd q k h r low mask =
    let f = movk-fields hw imm rd k h (omega arith) in
    rw (f.0, f.1, f.2, f.3, f.4)
      (reg_x-set_x c rd
          (bit_or (bit_and (reg_x c rd) (not64 (0xffff * 2 ^ (hw * 16)))) (imm * 2 ^ (hw * 16))) r
        ∙ movk_adds (hw * 16) q (reg_x c rd) imm low mask)

-- MOVZ and three MOVKs.
abbrev pub load_constant : Cpu → ℕ → ℕ → Cpu
load_constant c rd v =
    let c₁ = move_wide c (movz 0 (v % 2 ^ 16) rd) in
    let c₂ = move_wide c₁ (movk 1 (v / 2 ^ 16 % 2 ^ 16) rd) in
    let c₃ = move_wide c₂ (movk 2 (v / 2 ^ 32 % 2 ^ 16) rd) in
    move_wide c₃ (movk 3 (v / 2 ^ 48 % 2 ^ 16) rd)

-- For a register other than 31 and a 64-bit value: MOVZ and three MOVKs with its quarters put
-- the value in the register, whatever it held.
pub load_constant_lem :
    (c : Cpu) (rd v : ℕ) → rd < 31 → v < 2 ^ 64 → reg_x (load_constant c rd v) rd ≡ v
load_constant_lem c rd v r h =
    let c₁ = move_wide c (movz 0 (v % 2 ^ 16) rd) in
    let c₂ = move_wide c₁ (movk 1 (v / 2 ^ 16 % 2 ^ 16) rd) in
    let c₃ = move_wide c₂ (movk 2 (v / 2 ^ 32 % 2 ^ 16) rd) in
    let e₁ = move_wide-movz c (v % 2 ^ 16) rd (omega arith) r in
    let e₂ =
      move_wide-movk c₁ 1 (v / 2 ^ 16 % 2 ^ 16) rd (2 ^ 48 - 2 ^ 16) (omega arith) (omega arith) r
        (rw e₁ (omega arith)) refl in
    let v₂ : reg_x c₂ rd ≡ v % 2 ^ 32 = e₂ ∙ rw e₁ (omega arith) in
    let e₃ =
      move_wide-movk c₂ 2 (v / 2 ^ 32 % 2 ^ 16) rd (2 ^ 32 - 2 ^ 16) (omega arith) (omega arith) r
        (rw v₂ (omega arith)) refl in
    let v₃ : reg_x c₃ rd ≡ v % 2 ^ 48 = e₃ ∙ rw v₂ (omega arith) in
    let e₄ =
      move_wide-movk c₃ 3 (v / 2 ^ 48 % 2 ^ 16) rd 0 (omega arith) (omega arith) r
        (rw v₃ (omega arith)) refl in
    e₄ ∙ rw v₃ (omega arith)
