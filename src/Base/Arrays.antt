-- ===== src/Base/Arrays.antt =====
-- C arrays of a fixed length as functions, and the Option monad of accesses that may leave them.
use mathlib.Core.Option.{Option, none, some}
use Prim.Native.Nat.{ℕ}
use arm64emu_system.Base.Tests.{ltb, if◌then◌else◌}
use arm64emu_system.Base.Words.{update}

-- `none` is an access out of range, which C leaves undefined.
infixl 5 ◌>>=◌
abbrev pub ◌>>=◌ {ℓ κ} : {A : Type ℓ} {B : Type κ} → Option A → (A → Option B) → Option B
none >>= k = none
some a >>= k = k a

abbrev pub load {ℓ} : {A : Type ℓ} → ℕ → (ℕ → A) → ℕ → Option A
load len f i = if ltb i len then some (f i) else none

abbrev pub store {ℓ} : {A : Type ℓ} → ℕ → (ℕ → A) → ℕ → A → Option (ℕ → A)
store len f i v = if ltb i len then some (update f i v) else none
