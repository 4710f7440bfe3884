-- ===== src/Fdt/Texts.antt =====
-- src/fdt/fdt.c: reads of the blob that stay inside it, up to the comparison of names.
use arm64emu_system.Base.{
  ℕ, zero, suc, ◌+◌, ◌≤◌, ◌<◌, ◌≡◌, ◌≢◌, refl, sym, ap, ◌∙◌, arith, Bool, true, false, List, [],
  ◌∷◌, ◌==◌, ltb, if◌then◌else◌, ◌⊎◌, inl, inr, Bool-cases,
}
use arm64emu_system.Fdt.{Result, ◌>>=◌, failed, done, Blob, at, be32, strnlen, has_prefix}

-- The result is not `wild`, and what is done satisfies `P`.
pub data Ensures {A : Type 0} (P : A → Type 0) : Result A → Type 0 where
  refused : Ensures P failed
  good : (a : A) → P a → Ensures P (done a)

module _ {A B : Type 0} (P : A → Type 0) (Q : B → Type 0) where
  pub bind :
      (m : Result A) (k : A → Result B)
      → Ensures P m
      → ((a : A) → P a → Ensures Q (k a))
      → Ensures Q (m >>= k)
  bind _ k refused h = refused
  bind _ k (good a p) h = h a p

pub weaken :
    {A : Type 0} {P Q : A → Type 0} {r : Result A}
    → Ensures P r
    → ((a : A) → P a → Q a)
    → Ensures Q r
weaken refused h = refused
weaken (good a p) h = good a (h a p)

pub either :
    {A : Type 0} (P : A → Type 0) (b : Bool) {r s : Result A}
    → (b ≡ true → Ensures P r)
    → (b ≡ false → Ensures P s)
    → Ensures P (if b then r else s)
either P true h k = h refl
either P false h k = k refl

pub at-Ensures : (f : Blob) (i : ℕ) → i < f.len → Ensures (λ b. b ≡ f.cells i) (at f i)
at-Ensures f i h =
    let inside : ltb i f.len ≡ true = ground arith in rw inside (good (f.cells i) refl)

pub be32-Ensures : (f : Blob) (p : ℕ) → p + 4 ≤ f.len → Ensures (λ _. Unit {0}) (be32 f p)
unfolding be32
be32-Ensures f p h = bind _ _ (at f p) _ (at-Ensures f p (omega arith)) (λ a _.
    bind _ _ (at f (p + 1)) _ (at-Ensures f (p + 1) (omega arith)) (λ b _.
      bind _ _ (at f (p + 2)) _ (at-Ensures f (p + 2) (omega arith))
        (λ c _. bind _ _ (at f (p + 3)) _ (at-Ensures f (p + 3) (omega arith)) (λ d _. good _ tt))))

-- The length of a text in at most `max` bytes.
abbrev pub IsLength : Blob → ℕ → ℕ → ℕ → Type 0
IsLength f p max n = (n ≡ max) ⊎ ((n < max) × (f.cells (p + n) ≡ 0))

pub strnlen-Ensures :
    (f : Blob) (p max : ℕ) → p + max ≤ f.len → Ensures (IsLength f p max) (strnlen f p max)
unfolding strnlen
strnlen-Ensures f p zero h = good 0 (inl refl)
strnlen-Ensures f p (suc max) h = bind _ _ (at f p) _ (at-Ensures f p (omega arith)) (λ b e.
    elim (Bool-cases (b == 0)) [
      | inl nul ↦ rw nul (good 0 (inr (omega arith, first b e nul)))
      | inr more ↦ rw more (
          bind _ _ (strnlen f (p + 1) max) _ (strnlen-Ensures f (p + 1) max (omega arith))
            (λ n l. good (suc n) (longer n l)))
    ])
  where
    first : (b : ℕ) → b ≡ f.cells p → (b == 0) ≡ true → f.cells (p + 0) ≡ 0
    first b e nul =
        let here : p + 0 ≡ p = omega arith in
        let zero_ : b ≡ 0 = ground arith in rw here (sym e ∙ zero_)

    longer : (n : ℕ) → IsLength f (p + 1) max n → IsLength f p (suc max) (suc n)
    longer n (inl e) = inl (ap suc e)
    longer n (inr (lt, nul)) =
        let here : p + suc n ≡ p + 1 + n = omega arith in inr (omega arith, rw here nul)

-- All characters of a text but its last differ from NUL.
abbrev pub IsText : List ℕ → Type 0
IsText [] = Unit {0}
IsText (c ∷ []) = Unit {0}
IsText (c ∷ d ∷ cs) = (c ≢ 0) × IsText (d ∷ cs)

-- A comparison with a text stays before the NUL at `p + n`.
pub has_prefix-Ensures :
    (f : Blob) (p n : ℕ) (cs : List ℕ)
    → p + n < f.len
    → f.cells (p + n) ≡ 0
    → IsText cs
    → Ensures (λ _. Unit {0}) (has_prefix f p cs)
unfolding has_prefix
has_prefix-Ensures f p n [] h nul t = good true tt
has_prefix-Ensures f p n (c ∷ []) h nul t =
    bind _ _ (at f p) _ (at-Ensures f p (omega arith)) (λ b _. elim (Bool-cases (b == c)) [
      | inl same ↦ rw same (good true tt)
      | inr differs ↦ rw differs (good false tt)
    ])
has_prefix-Ensures f p zero (c ∷ d ∷ cs) h nul t =
    bind _ _ (at f p) _ (at-Ensures f p (omega arith)) (λ b e. elim (Bool-cases (b == c)) [
      | inl same ↦
          let here : p + 0 ≡ p = omega arith in
          let clash : c ≡ 0 = ground (arith, nul, here, e, same) in absurd (t.0 clash)
      | inr differs ↦ rw differs (good false tt)
    ])
has_prefix-Ensures f p (suc n) (c ∷ d ∷ cs) h nul t =
    let next : p + suc n ≡ p + 1 + n = omega arith in
    bind _ _ (at f p) _ (at-Ensures f p (omega arith)) (λ b _. elim (Bool-cases (b == c)) [
      | inl same ↦
          rw same (has_prefix-Ensures f (p + 1) n (d ∷ cs) (omega arith) (rw (← next) nul) t.1)
      | inr differs ↦ rw differs (good false tt)
    ])

abbrev pub count : List ℕ → ℕ
count [] = 0
count (c ∷ cs) = suc (count cs)

abbrev pub NoNul : List ℕ → Type 0
NoNul [] = Unit {0}
NoNul (c ∷ cs) = (c ≢ 0) × NoNul cs

-- A text without NUL that matches lies before the NUL.
pub has_prefix-before :
    (f : Blob) (p n : ℕ) (cs : List ℕ)
    → p + n < f.len
    → f.cells (p + n) ≡ 0
    → NoNul cs
    → Ensures (λ same. same ≡ true → count cs ≤ n) (has_prefix f p cs)
unfolding has_prefix
has_prefix-before f p n [] h nul t = good true (λ _. omega arith)
has_prefix-before f p zero (c ∷ cs) h nul t =
    bind _ _ (at f p) _ (at-Ensures f p (omega arith)) (λ b e. elim (Bool-cases (b == c)) [
      | inl same ↦
          let here : p + 0 ≡ p = omega arith in
          let clash : c ≡ 0 = ground (arith, nul, here, e, same) in absurd (t.0 clash)
      | inr differs ↦ rw differs (good false (λ h. cc))
    ])
has_prefix-before f p (suc n) (c ∷ cs) h nul t =
    let next : p + suc n ≡ p + 1 + n = omega arith in
    bind _ _ (at f p) _ (at-Ensures f p (omega arith)) (λ b _. elim (Bool-cases (b == c)) [
      | inl same ↦ rw same (
          weaken (has_prefix-before f (p + 1) n cs (omega arith) (rw (← next) nul) t.1)
            (λ r k e. omega (arith, k e)))
      | inr differs ↦ rw differs (good false (λ h. cc))
    ])

-- A comparison inside the blob.
pub has_prefix-within :
    (f : Blob) (p : ℕ) (cs : List ℕ)
    → p + count cs ≤ f.len
    → Ensures (λ _. Unit {0}) (has_prefix f p cs)
unfolding has_prefix
has_prefix-within f p [] h = good true tt
has_prefix-within f p (c ∷ cs) h = bind _ _ (at f p) _ (at-Ensures f p (omega arith)) (λ b _.
    elim (Bool-cases (b == c)) [
      | inl same ↦ rw same (has_prefix-within f (p + 1) cs (omega arith))
      | inr differs ↦ rw differs (good false tt)
    ])
