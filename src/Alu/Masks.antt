-- ===== src/Alu/Masks.antt =====
-- The masks of the logical and bitfield instructions, checked over every encoding.
use arm64emu_system.Base.{
  ℕ, zero, suc, ◌+◌, ◌-◌, ◌%◌, ◌^◌, ◌<◌, ◌≡◌, refl, arith, Bool, true, false,
}
use arm64emu_system.Base.{◌==◌, ◌&&◌, Option, none, some, ltb, leb, if◌then◌else◌}
use native.Mathlib.Decide.{ℕ_discrete}
use arm64emu_system.Alu.{decode_bitmasks_slow, ror64, ones, top_bit, replicate_elem}

-- Check `p` at every number below `n`.
holds_below : ℕ → (ℕ → Bool) → Bool
holds_below zero test = true
holds_below (suc k) test = holds_below k test && test k

holds_below_sound :
    (k : ℕ) (test : ℕ → Bool) → holds_below k test ≡ true → (i : ℕ) → i < k → test i ≡ true
unfolding holds_below
holds_below_sound zero test all i h = absurd (omega arith)
holds_below_sound (suc k) test all i h = elim (ℕ_discrete i k) [
  | yes e ↦ rw e (ground arith)
  | no ne ↦ holds_below_sound k test (ground arith) i (omega arith)
]

-- The element size that an encoding names: 64 with N, else by the position of the highest zero
-- of `imms`.
abbrev pub elem_size : ℕ → ℕ → ℕ
elem_size imm_n imms =
    if imm_n == 1
    then 64
    else if ltb imms 32
    then 32
    else if ltb imms 48
    then 16
    else if ltb imms 56
    then 8
    else if ltb imms 60
    then 4
    else 2

-- The number whose bit `j` below `n` is set exactly when `p j`.
pub mask_of : (ℕ → Bool) → ℕ → ℕ
mask_of p zero = 0
mask_of p (suc n) = (if p n then 2 ^ n else 0) + mask_of p n

-- The masks described bit by bit: each element holds a run of `imms % size + 1` ones, rotated
-- right by `immr`, and the second mask the run of `(imms - immr) % size + 1` ones.
abbrev pub described : ℕ → ℕ → ℕ → Option (ℕ × ℕ)
described imm_n imms immr =
    let size = elem_size imm_n imms in
    let run = imms % size in
    let field = (imms + 64 - immr) % size in
    if (imm_n == 0) && leb 62 imms
    then none
    else some
        (mask_of (λ j. leb ((j + immr) % size) run) 64, mask_of (λ j. leb (j % size) field) 64)

abbrev same_masks : Option (ℕ × ℕ) → Option (ℕ × ℕ) → Bool
same_masks none none = true
same_masks none (some _) = false
same_masks (some _) none = false
same_masks (some (a, b)) (some (c, d)) = (a == c) && (b == d)

same_masks-eq : (a b : Option (ℕ × ℕ)) → same_masks a b ≡ true → a ≡ b
same_masks-eq none none h = refl
same_masks-eq none (some _) h = cc
same_masks-eq (some _) none h = cc
same_masks-eq (some (a, b)) (some (c, d)) h = ground arith

abbrev row_ok : ℕ → ℕ → ℕ → Bool
row_ok imm_n imms immr =
    same_masks (decode_bitmasks_slow imm_n imms immr) (described imm_n imms immr)

table_narrow : holds_below 64 (λ imms. holds_below 64 (λ immr. row_ok 0 imms immr)) ≡ true
unfolding holds_below decode_bitmasks_slow ror64 ones top_bit replicate_elem mask_of
table_narrow = refl

table_wide : holds_below 64 (λ imms. holds_below 64 (λ immr. row_ok 1 imms immr)) ≡ true
unfolding holds_below decode_bitmasks_slow ror64 ones top_bit replicate_elem mask_of
table_wide = refl

-- For every encoding, that is N of one bit and `imms` and `immr` of six: the decoder gives the
-- two masks of the bit-by-bit description, and refuses an encoding exactly when the description
-- has no element for it.
pub decode_bitmasks_slow-described :
    (imm_n imms immr : ℕ)
    → imm_n < 2
    → imms < 64
    → immr < 64
    → decode_bitmasks_slow imm_n imms immr ≡ described imm_n imms immr
decode_bitmasks_slow-described zero imms immr hn hs hr = same_masks-eq _ _ (
    holds_below_sound 64 (λ r. row_ok 0 imms r)
      (holds_below_sound 64 (λ s. holds_below 64 (λ r. row_ok 0 s r)) table_narrow imms hs) immr hr)
decode_bitmasks_slow-described (suc zero) imms immr hn hs hr = same_masks-eq _ _ (
    holds_below_sound 64 (λ r. row_ok 1 imms r)
      (holds_below_sound 64 (λ s. holds_below 64 (λ r. row_ok 1 s r)) table_wide imms hs) immr hr)
decode_bitmasks_slow-described (suc (suc n)) imms immr hn hs hr = absurd (omega arith)
