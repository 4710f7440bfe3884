-- ===== src/Decode/Atomic/Combine.antt =====
-- src/decode.c: what each of the LSE atomic operations makes of the old word and the operand,
-- beside a description of the instructions that does not use the code's masks and extensions.
use arm64emu_system.Base.{
  ℕ, zero, suc, ◌+◌, ◌-◌, ◌*◌, ◌/◌, ◌%◌, ◌^◌, ◌≤◌, ◌<◌, ◌≡◌, ◌⊎◌, inl, inr, refl, arith, ap, ◌∙◌,
  min, max, Bool, true, false, ltb, if◌then◌else◌, bit, bit_and, bit_or, bit_xor, not64, u64, ℤ,
  pos, negsuc, ◌≤ℤ◌, ltb_ℤ, signed64,
}
use Prim.Native.Nat.{differ}
use arm64emu_system.Base.Bits.{bit_and_step, bit_or_step, bit_xor_step, bit-suc, zero-bit_and}
use native.Mathlib.Nat.{pow-suc, mod-eq_of_lt}
use arm64emu_system.Alu.{sign_extend}
use arm64emu_system.Decode.Atomic.{combine}

pub data AtomicOp : Type 0 where
  swp ldadd ldclr ldeor ldset ldsmax ldsmin ldumax ldumin : AtomicOp

-- Their encoding: bit 15 and the field in bits 14 to 12.
abbrev pub is_swp : AtomicOp → Bool
is_swp swp = true
is_swp ldadd = false
is_swp ldclr = false
is_swp ldeor = false
is_swp ldset = false
is_swp ldsmax = false
is_swp ldsmin = false
is_swp ldumax = false
is_swp ldumin = false

abbrev pub opcode : AtomicOp → ℕ
opcode swp = 0
opcode ldadd = 0
opcode ldclr = 1
opcode ldeor = 2
opcode ldset = 3
opcode ldsmax = 4
opcode ldsmin = 5
opcode ldumax = 6
opcode ldumin = 7

-- The integer that a word of `w` bits stands for in two's complement.
abbrev pub signed : ℕ → ℕ → ℤ
signed w x = if ltb x (2 ^ (w - 1)) then pos x else negsuc (2 ^ w - x - 1)

-- What the new word is, of `w` bits: the operand, the sum that wraps around, the bit by bit
-- combination, or that one of the two which no other is above or below.
abbrev pub Meets : AtomicOp → ℕ → ℕ → ℕ → ℕ → Type 0
Meets swp w old operand new = new ≡ operand
Meets ldadd w old operand new = new ≡ (old + operand) % 2 ^ w
Meets ldclr w old operand new =
    (new < 2 ^ w) × ((j : ℕ) → j < w → bit new j ≡ min (bit old j) (1 - bit operand j))
Meets ldeor w old operand new =
    (new < 2 ^ w) × ((j : ℕ) → j < w → bit new j ≡ (bit old j + bit operand j) % 2)
Meets ldset w old operand new =
    (new < 2 ^ w) × ((j : ℕ) → j < w → bit new j ≡ max (bit old j) (bit operand j))
Meets ldsmax w old operand new =
    ((new ≡ old) ⊎ (new ≡ operand))
    × (signed w old ≤ℤ signed w new)
    × (signed w operand ≤ℤ signed w new)
Meets ldsmin w old operand new =
    ((new ≡ old) ⊎ (new ≡ operand))
    × (signed w new ≤ℤ signed w old)
    × (signed w new ≤ℤ signed w operand)
Meets ldumax w old operand new = ((new ≡ old) ⊎ (new ≡ operand)) × (old ≤ new) × (operand ≤ new)
Meets ldumin w old operand new = ((new ≡ old) ⊎ (new ≡ operand)) × (new ≤ old) × (new ≤ operand)

-- The digits of the results of `&`, `|` and `^`, and their size.
bit-bit_and : (j a b : ℕ) → bit (bit_and a b) j ≡ min (bit a j) (bit b j)
bit-bit_and zero a b = omega (arith, bit_and_step a b)
bit-bit_and (suc j) a b =
    let half : bit_and a b / 2 ≡ bit_and (a / 2) (b / 2) = omega (arith, bit_and_step a b) in
    rw (bit-suc (bit_and a b) j, half, bit-suc a j, bit-suc b j) (bit-bit_and j (a / 2) (b / 2))

bit-bit_or : (j a b : ℕ) → bit (bit_or a b) j ≡ max (bit a j) (bit b j)
bit-bit_or zero a b = omega (arith, bit_or_step a b)
bit-bit_or (suc j) a b =
    let half : bit_or a b / 2 ≡ bit_or (a / 2) (b / 2) = omega (arith, bit_or_step a b) in
    rw (bit-suc (bit_or a b) j, half, bit-suc a j, bit-suc b j) (bit-bit_or j (a / 2) (b / 2))

differ_digits : (x y : ℕ) → x < 2 → y < 2 → differ x y ≡ (x + y) % 2
differ_digits zero zero h h' = refl
differ_digits zero (suc zero) h h' = refl
differ_digits (suc zero) zero h h' = refl
differ_digits (suc zero) (suc zero) h h' = refl
differ_digits (suc (suc x)) y h h' = absurd (omega arith)
differ_digits x (suc (suc y)) h h' = absurd (omega arith)

bit_xor_digit : (a b : ℕ) → bit_xor a b ≡ bit_xor (a / 2) (b / 2) * 2 + (a + b) % 2
bit_xor_digit a b =
    omega (arith, bit_xor_step a b, differ_digits (a % 2) (b % 2) (omega arith) (omega arith))

bit-bit_xor : (j a b : ℕ) → bit (bit_xor a b) j ≡ (bit a j + bit b j) % 2
bit-bit_xor zero a b = omega (arith, bit_xor_digit a b)
bit-bit_xor (suc j) a b =
    let half : bit_xor a b / 2 ≡ bit_xor (a / 2) (b / 2) = omega (arith, bit_xor_digit a b) in
    rw (bit-suc (bit_xor a b) j, half, bit-suc a j, bit-suc b j) (bit-bit_xor j (a / 2) (b / 2))

bit_and-lt : (k a b : ℕ) → a < 2 ^ k → bit_and a b < 2 ^ k
bit_and-lt zero a b h = let e : a ≡ 0 = omega arith in rw (e, zero-bit_and b) (omega arith)
bit_and-lt (suc k) a b h = omega (
  arith,
  bit_and_step a b,
  pow-suc 2 k,
  bit_and-lt k (a / 2) (b / 2) (omega (arith, pow-suc 2 k)),
)

bit_or-lt : (k a b : ℕ) → a < 2 ^ k → b < 2 ^ k → bit_or a b < 2 ^ k
bit_or-lt zero a b h h' =
    let e : a ≡ 0 = omega arith in let e' : b ≡ 0 = omega arith in rw (e, e') (omega arith)
bit_or-lt (suc k) a b h h' = omega (
  arith,
  bit_or_step a b,
  pow-suc 2 k,
  bit_or-lt k (a / 2) (b / 2) (omega (arith, pow-suc 2 k)) (omega (arith, pow-suc 2 k)),
)

bit_xor-lt : (k a b : ℕ) → a < 2 ^ k → b < 2 ^ k → bit_xor a b < 2 ^ k
bit_xor-lt zero a b h h' =
    let e : a ≡ 0 = omega arith in let e' : b ≡ 0 = omega arith in rw (e, e') (omega arith)
bit_xor-lt (suc k) a b h h' = omega (
  arith,
  bit_xor_digit a b,
  pow-suc 2 k,
  bit_xor-lt k (a / 2) (b / 2) (omega (arith, pow-suc 2 k)) (omega (arith, pow-suc 2 k)),
)

-- The digits of a complement.
bit-complement : (k j x : ℕ) → j < k → x < 2 ^ k → bit (2 ^ k - 1 - x) j ≡ 1 - bit x j
bit-complement zero j x h h' = absurd (omega arith)
bit-complement (suc k) zero x h h' = omega (arith, pow-suc 2 k)
bit-complement (suc k) (suc j) x h h' =
    let half : (2 ^ suc k - 1 - x) / 2 ≡ 2 ^ k - 1 - x / 2 = omega (arith, pow-suc 2 k) in
    rw (bit-suc (2 ^ suc k - 1 - x) j, half, bit-suc x j)
      (bit-complement k j (x / 2) (omega arith) (omega (arith, pow-suc 2 k)))

-- `x ^ (1 << k)` for a number of `k + 1` bits.
bit_xor-top :
    (k x : ℕ) → x < 2 ^ suc k → bit_xor x (2 ^ k) ≡ (if ltb x (2 ^ k) then x + 2 ^ k else x - 2 ^ k)
bit_xor-top zero zero h = refl
bit_xor-top zero (suc zero) h = refl
bit_xor-top zero (suc (suc x)) h = absurd (omega arith)
bit_xor-top (suc k) x h =
    let half : 2 ^ suc k / 2 ≡ 2 ^ k = omega (arith, pow-suc 2 k) in
    let even : 2 ^ suc k % 2 ≡ 0 = omega (arith, pow-suc 2 k) in
    let rest = bit_xor-top k (x / 2) (omega (arith, pow-suc 2 (suc k))) in
    let step = bit_xor_digit x (2 ^ suc k) in
    let whole : bit_xor x (2 ^ suc k)
        ≡ (if ltb (x / 2) (2 ^ k) then x / 2 + 2 ^ k else x / 2 - 2 ^ k) * 2 + x % 2 =
      grind (arith, step, ap (λ (t : ℕ). bit_xor (x / 2) t) half, even, rest) in
    ground (arith, whole, pow-suc 2 k)

-- The code's sign extension gives the integer that the word stands for.
signed_lem :
    (size x : ℕ)
    → size < 4
    → let w = 8 * 2 ^ size in x < 2 ^ w → signed64 (sign_extend x w) ≡ signed w x
unfolding sign_extend
signed_lem zero x h lt = rw (bit_xor-top 7 x lt) (ground arith)
signed_lem (suc zero) x h lt = rw (bit_xor-top 15 x lt) (ground arith)
signed_lem (suc (suc zero)) x h lt = rw (bit_xor-top 31 x lt) (ground arith)
signed_lem (suc (suc (suc zero))) x h lt = refl
signed_lem (suc (suc (suc (suc size)))) x h lt = absurd (omega arith)

-- One of two words of `w` bits, chosen by a test.
chosen :
    (w old operand : ℕ) (first : Bool)
    → old < 2 ^ w
    → operand < 2 ^ w
    → (if first then old else operand) % 2 ^ w ≡ (if first then old else operand)
chosen w old operand true h h' = mod-eq_of_lt h
chosen w old operand false h h' = mod-eq_of_lt h'

-- The greater and the smaller of two integers, as the code picks them.
picks_greater :
    (w old operand : ℕ) (first : Bool)
    → first ≡ ltb_ℤ (signed w operand) (signed w old)
    → Meets ldsmax w old operand (if first then old else operand)
picks_greater w old operand true e = (inl refl, omega arith, ground arith)
picks_greater w old operand false e = (inr refl, ground arith, omega arith)

picks_smaller :
    (w old operand : ℕ) (first : Bool)
    → first ≡ ltb_ℤ (signed w old) (signed w operand)
    → Meets ldsmin w old operand (if first then old else operand)
picks_smaller w old operand true e = (inl refl, omega arith, ground arith)
picks_smaller w old operand false e = (inr refl, ground arith, omega arith)

picks_higher :
    (w old operand : ℕ) (first : Bool)
    → first ≡ ltb operand old
    → Meets ldumax w old operand (if first then old else operand)
picks_higher w old operand true e = (inl refl, omega arith, ground arith)
picks_higher w old operand false e = (inr refl, ground arith, omega arith)

picks_lower :
    (w old operand : ℕ) (first : Bool)
    → first ≡ ltb old operand
    → Meets ldumin w old operand (if first then old else operand)
picks_lower w old operand true e = (inl refl, omega arith, ground arith)
picks_lower w old operand false e = (inr refl, ground arith, omega arith)

-- A word of the width is one of 64 bits, and the low bits of a 64-bit word are those of its cut.
narrow : (size x : ℕ) → size < 4 → x < 2 ^ (8 * 2 ^ size) → x < 2 ^ 64
narrow zero x h lt = omega arith
narrow (suc zero) x h lt = omega arith
narrow (suc (suc zero)) x h lt = omega arith
narrow (suc (suc (suc zero))) x h lt = lt
narrow (suc (suc (suc (suc size)))) x h lt = absurd (omega arith)

cut_word : (size x : ℕ) → size < 4 → u64 x % 2 ^ (8 * 2 ^ size) ≡ x % 2 ^ (8 * 2 ^ size)
cut_word zero x h = omega arith
cut_word (suc zero) x h = omega arith
cut_word (suc (suc zero)) x h = omega arith
cut_word (suc (suc (suc zero))) x h = omega arith
cut_word (suc (suc (suc (suc size)))) x h = absurd (omega arith)

few_bits : (size : ℕ) → size < 4 → 8 * 2 ^ size ≤ 64
few_bits zero h = omega arith
few_bits (suc zero) h = omega arith
few_bits (suc (suc zero)) h = omega arith
few_bits (suc (suc (suc zero))) h = omega arith
few_bits (suc (suc (suc (suc size)))) h = absurd (omega arith)

-- What an atomic instruction stores meets the description of its operation.
pub combine-Meets :
    (op : AtomicOp) (size old operand : ℕ)
    → size < 4
    → let w = 8 * 2 ^ size in
      old < 2 ^ w
      → operand < 2 ^ w
      → Meets op w old operand
          ((if is_swp op then operand else combine (opcode op) w old operand) % 2 ^ w)
unfolding combine
combine-Meets swp size old operand hs h h' = mod-eq_of_lt h'
combine-Meets ldadd size old operand hs h h' = cut_word size (old + operand) hs
combine-Meets ldclr size old operand hs h h' =
    let w = 8 * 2 ^ size in
    let lt = bit_and-lt w old (not64 operand) h in
    let wide = few_bits size hs in
    rw (mod-eq_of_lt lt) (
      lt,
      λ j below.
          bit-bit_and j old (not64 operand)
          ∙ ap (min (bit old j))
              (bit-complement 64 j operand (omega arith) (narrow size operand hs h')),
    )
combine-Meets ldeor size old operand hs h h' =
    let w = 8 * 2 ^ size in
    let lt = bit_xor-lt w old operand h h' in
    rw (mod-eq_of_lt lt) (lt, λ j _. bit-bit_xor j old operand)
combine-Meets ldset size old operand hs h h' =
    let w = 8 * 2 ^ size in
    let lt = bit_or-lt w old operand h h' in
    rw (mod-eq_of_lt lt) (lt, λ j _. bit-bit_or j old operand)
combine-Meets ldsmax size old operand hs h h' =
    let w = 8 * 2 ^ size in
    let first = ltb_ℤ (signed w operand) (signed w old) in
    rw (signed_lem size old hs h, signed_lem size operand hs h', chosen w old operand first h h')
      (picks_greater w old operand first refl)
combine-Meets ldsmin size old operand hs h h' =
    let w = 8 * 2 ^ size in
    let first = ltb_ℤ (signed w old) (signed w operand) in
    rw (signed_lem size old hs h, signed_lem size operand hs h', chosen w old operand first h h')
      (picks_smaller w old operand first refl)
combine-Meets ldumax size old operand hs h h' =
    let w = 8 * 2 ^ size in
    rw (chosen w old operand (ltb operand old) h h')
      (picks_higher w old operand (ltb operand old) refl)
combine-Meets ldumin size old operand hs h h' =
    let w = 8 * 2 ^ size in
    rw (chosen w old operand (ltb old operand) h h')
      (picks_lower w old operand (ltb old operand) refl)
