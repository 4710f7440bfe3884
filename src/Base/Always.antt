-- ===== src/Base/Always.antt =====
-- What holds of every answer of a partial step, and both branches of a test.
use arm64emu_system.Base.{
  ◌≡◌, refl, Bool, true, false, Option, none, some, ◌>>=◌, if◌then◌else◌, subst, some_inj,
}

-- `P` of the answer, if there is one.
pub data Always {A : Type 0} (P : A → Type 0) : Option A → Type 0 where
  lost : Always P none
  answered : (a : A) → P a → Always P (some a)

pub >>=-Always :
    {A B : Type 0} {P : A → Type 0} {Q : B → Type 0} (o : Option A) (k : A → Option B)
    → Always P o
    → ((a : A) → P a → Always Q (k a))
    → Always Q (o >>= k)
>>=-Always _ k lost h = lost
>>=-Always _ k (answered a p) h = h a p

pub weaken-Always :
    {A : Type 0} {P Q : A → Type 0} (o : Option A) → Always P o → ((a : A) → P a → Q a) → Always Q o
weaken-Always _ lost h = lost
weaken-Always _ (answered a p) h = answered a (h a p)

pub anything : {A : Type 0} (o : Option A) → Always (λ _. Unit {0}) o
anything none = lost
anything (some a) = answered a tt

pub holds : {A : Type 0} {P : A → Type 0} (o : Option A) (a : A) → Always P o → o ≡ some a → P a
holds _ a lost e = absurd cc
holds {P = P} _ a (answered b p) e = subst P (some_inj e) p

pub either : {A : Type 0} (P : A → Type 0) (b : Bool) {x y : A} → P x → P y → P (if b then x else y)
either P true p q = p
either P false p q = q

pub cases :
    {A : Type 0} (P : A → Type 0) (b : Bool) {x y : A}
    → (b ≡ true → P x)
    → (b ≡ false → P y)
    → P (if b then x else y)
cases P true p q = p refl
cases P false p q = q refl
