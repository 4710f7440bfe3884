-- ===== src/Base/Bits.antt =====
-- `&`, `|` and `^` at variables: the digit recursion, and the split of both words at a bit.
use Prim.Native.Nat.{ℕ, zero, suc, ◌+◌, ◌-◌, ◌*◌, ◌/◌, ◌%◌, ◌^◌, ◌≤◌, ◌<◌, min, max}
use Prim.Native.Nat.{bit_and, bit_or, bit_xor, digits, bitwise, differ}
use Prim.Native.Nat.{bit_and-bitwise, bit_or-bitwise, bit_xor-bitwise}
use mathlib.Core.Path.{◌≡◌, refl, sym, ap, ap₂, ◌∙◌, ◌≡⟨◌⟩◌, ◌∎}
use native.Mathlib.Nat.{pow-suc, one-le-pow, div-div-eq-div-mul}
use native.Mathlib.Omega.{arith}

-- Fuel beyond the first word changes nothing, so one digit can be split off.
module _ (rest : ℕ → ℕ) (digit : ℕ → ℕ → ℕ) where
  spare_fuel : (k d x y : ℕ) → x ≤ k → digits rest digit (d + k) x y ≡ digits rest digit k x y
  spare_fuel zero zero x y h = refl
  spare_fuel zero (suc d) zero y h = let none : suc d + 0 ≡ suc d = omega arith in rw none refl
  spare_fuel zero (suc d) (suc x) y h = absurd (omega arith)
  spare_fuel (suc k) d zero y h =
      let shifted : d + suc k ≡ suc (d + k) = omega arith in rw shifted refl
  spare_fuel (suc k) d (suc x) y h =
      let shifted : d + suc k ≡ suc (d + k) = omega arith in
      rw shifted (
        ap (λ (t : ℕ). t * 2 + digit (suc x % 2) (y % 2))
          (spare_fuel k d (suc x / 2) (y / 2) (omega arith)))

  digits_halved :
      (x y : ℕ) → digits rest digit x (suc x / 2) y ≡ digits rest digit (suc x / 2) (suc x / 2) y
  digits_halved x y =
      let whole : x ≡ x - suc x / 2 + suc x / 2 = omega arith in
      ap (λ (t : ℕ). digits rest digit t (suc x / 2) y) whole
      ∙ spare_fuel (suc x / 2) (x - suc x / 2) (suc x / 2) y (omega arith)

  lowest_digit :
      (x y : ℕ)
      → bitwise rest digit (suc x) y
        ≡ bitwise rest digit (suc x / 2) (y / 2) * 2 + digit (suc x % 2) (y % 2)
  lowest_digit x y = omega (arith, digits_halved x (y / 2))

pub bit_or_step : (x y : ℕ) → bit_or x y ≡ bit_or (x / 2) (y / 2) * 2 + max (x % 2) (y % 2)
bit_or_step zero y = simp bit_or-bitwise (omega arith)
bit_or_step (suc x) y = simp bit_or-bitwise (lowest_digit (λ t. t) max x y)

pub bit_and_step : (x y : ℕ) → bit_and x y ≡ bit_and (x / 2) (y / 2) * 2 + min (x % 2) (y % 2)
bit_and_step zero y = simp bit_and-bitwise (omega arith)
bit_and_step (suc x) y = simp bit_and-bitwise (lowest_digit (λ _. 0) min x y)

pub bit_xor_step : (x y : ℕ) → bit_xor x y ≡ bit_xor (x / 2) (y / 2) * 2 + differ (x % 2) (y % 2)
bit_xor_step zero y = simp bit_xor-bitwise (zero_case y)
  where
    zero_case : (y : ℕ) → y ≡ y / 2 * 2 + differ (0 % 2) (y % 2)
    zero_case y = omega arith
bit_xor_step (suc x) y = simp bit_xor-bitwise (lowest_digit (λ t. t) differ x y)

-- What the three operations have in common: they work digit by digit.
record IsDigitwise (op : ℕ → ℕ → ℕ) (g : ℕ → ℕ → ℕ) : Type 0 where
  step : (a b : ℕ) → op a b ≡ op (a / 2) (b / 2) * 2 + g (a % 2) (b % 2)
  at_zero : op 0 0 ≡ 0

pub double_pow : (q k : ℕ) → q * 2 ^ suc k ≡ 2 * (q * 2 ^ k)
double_pow q k = omega (arith, ap (λ (t : ℕ). q * t) (pow-suc 2 k))

module _ (op g : ℕ → ℕ → ℕ) (d : IsDigitwise op g) where
  -- Both words cut at bit `k`: the operation goes through on the two parts.
  split :
      (k p q r s : ℕ)
      → r < 2 ^ k
      → s < 2 ^ k
      → op (p * 2 ^ k + r) (q * 2 ^ k + s) ≡ op p q * 2 ^ k + op r s
  split zero p q r s hr hs =
      let er : r ≡ 0 = omega arith in
      let es : s ≡ 0 = omega arith in
      let ep : p * 2 ^ 0 + 0 ≡ p = omega arith in
      let eq : q * 2 ^ 0 + 0 ≡ q = omega arith in rw (er, es, ep, eq, d.at_zero) (omega arith)
  split (suc k) p q r s hr hs = ground (
    arith,
    d.step (p * 2 ^ suc k + r) (q * 2 ^ suc k + s),
    d.step r s,
    double_pow p k,
    double_pow q k,
    double_pow (op p q) k,
    pow-suc 2 k,
    split k p q (r / 2) (s / 2) (omega (arith, pow-suc 2 k)) (omega (arith, pow-suc 2 k)),
  )

abbrev and_digitwise : IsDigitwise bit_and min
and_digitwise = record { step = bit_and_step; at_zero = refl }

abbrev or_digitwise : IsDigitwise bit_or max
or_digitwise = record { step = bit_or_step; at_zero = refl }

abbrev xor_digitwise : IsDigitwise bit_xor differ
xor_digitwise = record { step = bit_xor_step; at_zero = refl }

-- The parts of both words may be given by equations, as a caller has them.
pub bit_and-split :
    (k p q r s : ℕ)
    → r < 2 ^ k
    → s < 2 ^ k
    → bit_and (p * 2 ^ k + r) (q * 2 ^ k + s) ≡ bit_and p q * 2 ^ k + bit_and r s
bit_and-split = split bit_and min and_digitwise

pub bit_or-split :
    (k p q r s : ℕ)
    → r < 2 ^ k
    → s < 2 ^ k
    → bit_or (p * 2 ^ k + r) (q * 2 ^ k + s) ≡ bit_or p q * 2 ^ k + bit_or r s
bit_or-split = split bit_or max or_digitwise

pub bit_xor-split :
    (k p q r s : ℕ)
    → r < 2 ^ k
    → s < 2 ^ k
    → bit_xor (p * 2 ^ k + r) (q * 2 ^ k + s) ≡ bit_xor p q * 2 ^ k + bit_xor r s
bit_xor-split = split bit_xor differ xor_digitwise

-- No digit survives a conjunction with zero, and all survive a disjunction.
and_digits-zero : (k x : ℕ) → digits (λ _. 0) min k x 0 ≡ 0
and_digits-zero zero x = refl
and_digits-zero (suc k) zero = refl
and_digits-zero (suc k) (suc x) = rw (and_digits-zero k (suc x / 2)) (omega arith)

pub bit_and-zero : (x : ℕ) → bit_and x 0 ≡ 0
bit_and-zero x = simp bit_and-bitwise (and_digits-zero x x)

or_digits-zero : (k x : ℕ) → x ≤ k → digits (λ t. t) max k x 0 ≡ x
or_digits-zero zero x h = omega arith
or_digits-zero (suc k) zero h = refl
or_digits-zero (suc k) (suc x) h = rw (or_digits-zero k (suc x / 2) (omega arith)) (omega arith)

pub bit_or-zero : (x : ℕ) → bit_or x 0 ≡ x
bit_or-zero x = simp bit_or-bitwise (or_digits-zero x x (omega arith))

pub zero-bit_and : (b : ℕ) → bit_and 0 b ≡ 0
zero-bit_and b = simp bit_and-bitwise

pub zero-bit_or : (b : ℕ) → bit_or 0 b ≡ b
zero-bit_or b = simp bit_or-bitwise

-- `(q << k) | r` is a sum when `r` fits `k` bits.
pub bit_or_fields : (k q r : ℕ) → r < 2 ^ k → bit_or (q * 2 ^ k) r ≡ q * 2 ^ k + r
bit_or_fields k q r h =
    bit_or (q * 2 ^ k) r
    ≡⟨ ap₂ bit_or (omega arith) (omega arith) ⟩ bit_or (q * 2 ^ k + 0) (0 * 2 ^ k + r)
    ≡⟨ bit_or-split k q 0 0 r (omega (arith, one-le-pow k 2)) h ⟩ bit_or q 0 * 2 ^ k + bit_or 0 r
    ≡⟨ (rw (bit_or-zero, zero-bit_or)) ⟩ q * 2 ^ k + r ∎

pub bit_and_ones : (k r : ℕ) → r < 2 ^ k → bit_and r (2 ^ k - 1) ≡ r
bit_and_ones zero r h = rw bit_and-zero (omega arith)
bit_and_ones (suc k) r h = ground (
  arith,
  bit_and_step r (2 ^ suc k - 1),
  halved,
  pow-suc 2 k,
  one-le-pow k 2,
  bit_and_ones k (r / 2) (omega (arith, pow-suc 2 k)),
)
  where
    halved : (2 ^ suc k - 1) / 2 ≡ 2 ^ k - 1
    halved = omega (arith, pow-suc 2 k, one-le-pow k 2)

-- A mask of `k` low bits is the remainder by `2 ^ k`.
pub bit_and_mask : (k a : ℕ) → bit_and a (2 ^ k - 1) ≡ a % 2 ^ k
bit_and_mask k a =
    let pos = one-le-pow k 2 in
    bit_and a (2 ^ k - 1)
    ≡⟨ ap₂ bit_and (omega arith) (omega arith) ⟩
      bit_and (a / 2 ^ k * 2 ^ k + a % 2 ^ k) (0 * 2 ^ k + (2 ^ k - 1))
    ≡⟨ bit_and-split k (a / 2 ^ k) 0 (a % 2 ^ k) (2 ^ k - 1) (omega arith) (omega arith) ⟩
      bit_and (a / 2 ^ k) 0 * 2 ^ k + bit_and (a % 2 ^ k) (2 ^ k - 1)
    ≡⟨ rw (bit_and-zero, bit_and_ones k (a % 2 ^ k) (omega arith)) (omega arith) ⟩ a % 2 ^ k ∎

-- A mask of `w` bits from bit `k` on keeps that field in its place.
pub bit_and_field : (k w a : ℕ) → bit_and a ((2 ^ w - 1) * 2 ^ k) ≡ a / 2 ^ k % 2 ^ w * 2 ^ k
bit_and_field k w a =
    let pos = one-le-pow k 2 in
    bit_and a ((2 ^ w - 1) * 2 ^ k)
    ≡⟨ ap₂ bit_and (omega arith) (omega arith) ⟩
      bit_and (a / 2 ^ k * 2 ^ k + a % 2 ^ k) ((2 ^ w - 1) * 2 ^ k + 0)
    ≡⟨ bit_and-split k (a / 2 ^ k) (2 ^ w - 1) (a % 2 ^ k) 0 (omega arith) (omega arith) ⟩
      bit_and (a / 2 ^ k) (2 ^ w - 1) * 2 ^ k + bit_and (a % 2 ^ k) 0
    ≡⟨ rw (bit_and-zero, bit_and_mask w (a / 2 ^ k)) (omega arith) ⟩ a / 2 ^ k % 2 ^ w * 2 ^ k ∎

-- The same with the high field on the right.
pub bit_or_high : (k q r : ℕ) → r < 2 ^ k → bit_or r (q * 2 ^ k) ≡ q * 2 ^ k + r
bit_or_high k q r h =
    bit_or r (q * 2 ^ k)
    ≡⟨ ap₂ bit_or (omega arith) (omega arith) ⟩ bit_or (0 * 2 ^ k + r) (q * 2 ^ k + 0)
    ≡⟨ bit_or-split k 0 q r 0 h (omega (arith, one-le-pow k 2)) ⟩ bit_or 0 q * 2 ^ k + bit_or r 0
    ≡⟨ (rw (bit_or-zero, zero-bit_or)) ⟩ q * 2 ^ k + r ∎

pub div-div-pow : (x k : ℕ) → x / 2 / 2 ^ k ≡ x / 2 ^ suc k
div-div-pow x k =
    div-div-eq-div-mul x 2 (2 ^ k) ∙ ap (λ (t : ℕ). x / t) (omega (arith, pow-suc 2 k))

-- Bit `k + 1` of a number is bit `k` of its half.
pub bit-suc : (x k : ℕ) → x / 2 ^ suc k % 2 ≡ x / 2 / 2 ^ k % 2
bit-suc x k = ap (λ (t : ℕ). t % 2) (sym (div-div-pow x k))

-- `v | (1 << i)` above the bits of `v`.
pub bit_or-pow : (i v : ℕ) → v < 2 ^ i → bit_or v (2 ^ i) ≡ v + 2 ^ i
bit_or-pow i v h = ap (bit_or v) (omega arith) ∙ (bit_or_high i 1 v h ∙ omega arith)

pub pow-add-one : (i : ℕ) → 2 ^ (i + 1) ≡ 2 * 2 ^ i
pow-add-one i = let e : i + 1 ≡ suc i = omega arith in rw e (omega (arith, pow-suc 2 i))

pub mul-pow-add-one : (w i : ℕ) → w * 2 ^ (i + 1) ≡ 2 * (w * 2 ^ i)
mul-pow-add-one w i = omega (arith, ap (λ (t : ℕ). w * t) (pow-add-one i))
