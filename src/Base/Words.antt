-- ===== src/Base/Words.antt =====
-- Machine words as native numbers: casts to the fixed widths, shifts, bit tests, complements.
use Prim.Native.Nat.{ℕ, ◌+◌, ◌-◌, ◌*◌, ◌/◌, ◌%◌, ◌^◌}
use mathlib.Core.Bool.{Bool, true, false}
use arm64emu_system.Base.Tests.{◌==◌, if◌then◌else◌}

abbrev pub u8 : ℕ → ℕ
u8 n = n % 2 ^ 8

abbrev pub u16 : ℕ → ℕ
u16 n = n % 2 ^ 16

abbrev pub u32 : ℕ → ℕ
u32 n = n % 2 ^ 32

abbrev pub u64 : ℕ → ℕ
u64 n = n % 2 ^ 64

-- `x >> k`, and `x << k` before any cast cuts bits off.
infixl 75 ◌<<<◌ ◌>>>◌
abbrev pub ◌<<<◌ : ℕ → ℕ → ℕ
x <<< k = x * 2 ^ k

abbrev pub ◌>>>◌ : ℕ → ℕ → ℕ
x >>> k = x / 2 ^ k

-- `(x >> k) & 1`, and the same as a truth value: `x & (1 << k)` as a condition of C.
abbrev pub bit : ℕ → ℕ → ℕ
bit x k = x / 2 ^ k % 2

abbrev pub has_bit : ℕ → ℕ → Bool
has_bit x k = bit x k == 1

-- `(x >> lo) & (2 ^ w - 1)`.
abbrev pub bits : ℕ → ℕ → ℕ → ℕ
bits x lo w = x / 2 ^ lo % 2 ^ w

-- `~x` in a width.
abbrev pub not32 : ℕ → ℕ
not32 x = 2 ^ 32 - 1 - x

abbrev pub not64 : ℕ → ℕ
not64 x = 2 ^ 64 - 1 - x

-- Wrapping `a - b` of unsigned words.
abbrev pub sub32 : ℕ → ℕ → ℕ
sub32 a b = (a + 2 ^ 32 - b) % 2 ^ 32

abbrev pub sub64 : ℕ → ℕ → ℕ
sub64 a b = (a + 2 ^ 64 - b) % 2 ^ 64

-- `x & ~(2 ^ k - 1)`: the low bits cleared.
abbrev pub align_down : ℕ → ℕ → ℕ
align_down x k = x / 2 ^ k * 2 ^ k

-- A truth value as the number that C makes of it.
abbrev pub from_bool : Bool → ℕ
from_bool true = 1
from_bool false = 0

-- An array with its cell `i` stored.
abbrev pub update {ℓ} : {A : Type ℓ} → (ℕ → A) → ℕ → A → ℕ → A
update f i v j = if j == i then v else f j
