-- ===== src/Memory/Bytes.antt =====
-- src/memory.c: little-endian loads and stores of bytes.
use native.Mathlib.Nat.{mod-eq-sub-mul-div, div-div-eq-div-mul, mul_assoc, pow-suc}
use arm64emu_system.Base.{
  ℕ, zero, suc, ◌+◌, ◌*◌, ◌/◌, ◌%◌, ◌^◌, ◌≤◌, ◌<◌, ◌≡◌, ◌≢◌, refl, sym, arith, ap, ◌∙◌,
}
use arm64emu_system.Base.{false, ◌==◌, ==_refl, update}
use arm64emu_system.Memory.{ld_le, st_le}

pub ==_false : (a b : ℕ) → a ≢ b → (a == b) ≡ false
==_false a b ne = ground arith

pub mod_split : (m v : ℕ) → v % 2 ^ 8 + 2 ^ 8 * (v / 2 ^ 8 % m) ≡ v % (2 ^ 8 * m)
mod_split m v = omega (
  arith,
  mod-eq-sub-mul-div v (2 ^ 8 * m),
  mod-eq-sub-mul-div (v / 2 ^ 8) m,
  ap (λ (t : ℕ). 2 ^ 8 * m * t) (sym (div-div-eq-div-mul v (2 ^ 8) m)),
  mul_assoc (2 ^ 8) m (v / 2 ^ 8 / m),
)

pub pow_bytes : (n : ℕ) → 2 ^ (8 * suc n) ≡ 2 ^ 8 * 2 ^ (8 * n)
pow_bytes n =
    let m = 8 * n in
    let e : 8 * suc n ≡ suc (suc (suc (suc (suc (suc (suc (suc m))))))) = omega arith in
    rw e (
      omega (
        arith,
        pow-suc 2 m,
        pow-suc 2 (suc m),
        pow-suc 2 (suc (suc m)),
        pow-suc 2 (suc (suc (suc m))),
        pow-suc 2 (suc (suc (suc (suc m)))),
        pow-suc 2 (suc (suc (suc (suc (suc m))))),
        pow-suc 2 (suc (suc (suc (suc (suc (suc m)))))),
        pow-suc 2 (suc (suc (suc (suc (suc (suc (suc m))))))),
      ))

-- A store leaves the bytes below and above it.
pub st_le-below : (f : ℕ → ℕ) (i n v j : ℕ) → j < i → st_le f i n v j ≡ f j
unfolding st_le
st_le-below f i zero v j h = refl
st_le-below f i (suc n) v j h =
    st_le-below (update f i (v % 2 ^ 8)) (i + 1) n (v / 2 ^ 8) j (omega arith)
    ∙ rw (==_false j i (λ e. omega arith)) refl

pub st_le-above : (f : ℕ → ℕ) (i n v j : ℕ) → i + n ≤ j → st_le f i n v j ≡ f j
unfolding st_le
st_le-above f i zero v j h = refl
st_le-above f i (suc n) v j h =
    st_le-above (update f i (v % 2 ^ 8)) (i + 1) n (v / 2 ^ 8) j (omega arith)
    ∙ rw (==_false j i (λ e. omega arith)) refl

-- Loading what was stored gives the value, cut to the bytes stored.
pub ld_le-st_le : (f : ℕ → ℕ) (i n v : ℕ) → ld_le (st_le f i n v) i n ≡ v % 2 ^ (8 * n)
unfolding ld_le st_le
ld_le-st_le f i zero v = omega arith
ld_le-st_le f i (suc n) v =
    let f' = update f i (v % 2 ^ 8) in
    let first : st_le f' (i + 1) n (v / 2 ^ 8) i ≡ v % 2 ^ 8 =
      st_le-below f' (i + 1) n (v / 2 ^ 8) i (omega arith) ∙ rw (==_refl i) refl in
    let others = ld_le-st_le f' (i + 1) n (v / 2 ^ 8) in
    rw (first, others) (mod_split (2 ^ (8 * n)) v ∙ ap (λ (t : ℕ). v % t) (sym (pow_bytes n)))
