-- ===== src/Alu/Compare.antt =====
-- A condition code after a compare says how the operands compare.
use arm64emu_system.Base.{ℕ, ◌+◌, ◌%◌, ◌^◌, ◌<◌, ◌≡◌, refl, arith, Bool, true, false}
use arm64emu_system.Base.{ltb, leb, ◌==◌, beq, not, ◌&&◌, has_bit, u32, not32, not64}
use arm64emu_system.Base.{signed32, signed64, leb_ℤ, ltb_ℤ, eqb_ℤ, ◌+ℤ◌, pos}
use mathlib.Core.Path.{ap₂}
use arm64emu_system.Base.{◌∙◌}
use arm64emu_system.Cpu.{cond_holds}
use arm64emu_system.Alu.{flags_word, add_with_carry}

cond_holds-flags_word :
    (n z c v : Bool)
    → (cond_holds (flags_word n z c v) 0 ≡ z)
      × (cond_holds (flags_word n z c v) 2 ≡ c)
      × (cond_holds (flags_word n z c v) 8 ≡ c && not z)
      × (cond_holds (flags_word n z c v) 10 ≡ beq n v)
      × (cond_holds (flags_word n z c v) 12 ≡ beq n v && not z)
unfolding cond_holds flags_word
cond_holds-flags_word true true true true = (refl, refl, refl, refl, refl)
cond_holds-flags_word true true true false = (refl, refl, refl, refl, refl)
cond_holds-flags_word true true false true = (refl, refl, refl, refl, refl)
cond_holds-flags_word true true false false = (refl, refl, refl, refl, refl)
cond_holds-flags_word true false true true = (refl, refl, refl, refl, refl)
cond_holds-flags_word true false true false = (refl, refl, refl, refl, refl)
cond_holds-flags_word true false false true = (refl, refl, refl, refl, refl)
cond_holds-flags_word true false false false = (refl, refl, refl, refl, refl)
cond_holds-flags_word false true true true = (refl, refl, refl, refl, refl)
cond_holds-flags_word false true true false = (refl, refl, refl, refl, refl)
cond_holds-flags_word false true false true = (refl, refl, refl, refl, refl)
cond_holds-flags_word false true false false = (refl, refl, refl, refl, refl)
cond_holds-flags_word false false true true = (refl, refl, refl, refl, refl)
cond_holds-flags_word false false true false = (refl, refl, refl, refl, refl)
cond_holds-flags_word false false false true = (refl, refl, refl, refl, refl)
cond_holds-flags_word false false false false = (refl, refl, refl, refl, refl)

-- The overflow flag of a 64-bit subtraction, with the sign of its result, is the signed order.
signed_order64 :
    (x y : ℕ)
    → x < 2 ^ 64
    → y < 2 ^ 64
    → let res = (x + not64 y + 1) % 2 ^ 64 in
      beq (has_bit res 63) (not (eqb_ℤ (signed64 res) (signed64 x +ℤ signed64 (not64 y) +ℤ pos 1)))
      ≡ leb_ℤ (signed64 y) (signed64 x)
signed_order64 x y hx hy = ground arith

signed_order32 :
    (x y : ℕ)
    → x < 2 ^ 32
    → y < 2 ^ 32
    → let res = (x + not32 y + 1) % 2 ^ 32 in
      beq (has_bit res 31) (not (eqb_ℤ (signed32 res) (signed32 x +ℤ signed32 (not32 y) +ℤ pos 1)))
      ≡ leb_ℤ (signed32 y) (signed32 x)
signed_order32 x y hx hy = ground arith

unsigned_order64 :
    (x y : ℕ)
    → x < 2 ^ 64
    → y < 2 ^ 64
    → (((x + not64 y + 1) % 2 ^ 64 == 0) ≡ (x == y)) × (has_bit (x + not64 y + 1) 64 ≡ leb y x)
unsigned_order64 x y hx hy = (ground arith, ground arith)

unsigned_order32 :
    (x y : ℕ)
    → x < 2 ^ 32
    → y < 2 ^ 32
    → (((x + not32 y + 1) % 2 ^ 32 == 0) ≡ (x == y)) × (has_bit (x + not32 y + 1) 32 ≡ leb y x)
unsigned_order32 x y hx hy = (ground arith, ground arith)

strict_order64 :
    (x y : ℕ)
    → x < 2 ^ 64
    → y < 2 ^ 64
    → (leb y x && not (x == y) ≡ ltb y x)
      × (leb_ℤ (signed64 y) (signed64 x) && not (x == y) ≡ ltb_ℤ (signed64 y) (signed64 x))
strict_order64 x y hx hy = (ground arith, ground arith)

strict_order32 :
    (x y : ℕ)
    → x < 2 ^ 32
    → y < 2 ^ 32
    → (leb y x && not (x == y) ≡ ltb y x)
      × (leb_ℤ (signed32 y) (signed32 x) && not (x == y) ≡ ltb_ℤ (signed32 y) (signed32 x))
strict_order32 x y hx hy = (ground arith, ground arith)

-- What the five conditions say of a flags word, for a comparison with the given outcomes.
abbrev pub Says : ℕ → Bool → Bool → Bool → Bool → Bool → Type 0
Says f eq cs hi ge gt =
    (cond_holds f 0 ≡ eq)
    × (cond_holds f 2 ≡ cs)
    × (cond_holds f 8 ≡ hi)
    × (cond_holds f 10 ≡ ge)
    × (cond_holds f 12 ≡ gt)

says :
    (n z c v eq cs hi ge gt : Bool)
    → z ≡ eq
    → c ≡ cs
    → beq n v ≡ ge
    → cs && not eq ≡ hi
    → ge && not eq ≡ gt
    → Says (flags_word n z c v) eq cs hi ge gt
says n z c v eq cs hi ge gt e c' o h g =
    let w = cond_holds-flags_word n z c v in
    (
      w.0 ∙ e,
      w.1 ∙ c',
      w.2 ∙ (ap₂ (λ a b. a && not b) c' e ∙ h),
      w.3 ∙ o,
      w.4 ∙ (ap₂ (λ a b. a && not b) o e ∙ g),
    )

-- The word of flags that CMP leaves.
abbrev pub compare_flags : ℕ → ℕ → Bool → ℕ
compare_flags x y is64 = (add_with_carry x (not64 y) 1 is64).1

-- For 64-bit operands `x` and `y`: after the flags of `x - y` the conditions EQ, CS, HI, GE and
-- GT hold exactly when `x` is equal to `y`, at or above and above it as unsigned, at or above
-- and above it as signed.
pub compare_conditions64 :
    (x y : ℕ)
    → x < 2 ^ 64
    → y < 2 ^ 64
    → Says
        (compare_flags x y true)
        (x == y)
        (leb y x)
        (ltb y x)
        (leb_ℤ (signed64 y) (signed64 x))
        (ltb_ℤ (signed64 y) (signed64 x))
unfolding add_with_carry
compare_conditions64 x y hx hy =
    let u = unsigned_order64 x y hx hy in
    let strict = strict_order64 x y hx hy in
    says _ _ _ _ _ _ _ _ _ u.0 u.1 (signed_order64 x y hx hy) strict.0 strict.1

low_not64 : (y : ℕ) → y < 2 ^ 64 → u32 (not64 y) ≡ not32 (u32 y)
low_not64 y h = omega arith

-- For a 64-bit `y`: the flags of the 32-bit comparison make EQ, CS, HI, GE and GT answer the
-- unsigned and the signed order of the low halves of `x` and `y`.
compare_conditions32 :
    (x y : ℕ)
    → y < 2 ^ 64
    → let a = u32 x in
      let b = u32 y in
      Says
        (compare_flags x y false)
        (a == b)
        (leb b a)
        (ltb b a)
        (leb_ℤ (signed32 b) (signed32 a))
        (ltb_ℤ (signed32 b) (signed32 a))
unfolding add_with_carry
compare_conditions32 x y hy =
    let a = u32 x in
    let b = u32 y in
    let u = unsigned_order32 a b (omega arith) (omega arith) in
    let strict = strict_order32 a b (omega arith) (omega arith) in
    rw (low_not64 y hy) (
      says _ _ _ _ _ _ _ _ _ u.0 u.1 (signed_order32 a b (omega arith) (omega arith)) strict.0
        strict.1)
