-- ===== src/Mmu/Blocks.antt =====
-- src/mmu.c: the loop of `lp_record`, which widens a mask until two bases agree under it.
use arm64emu_system.Base.{
  ℕ, zero, suc, ◌+◌, ◌*◌, ◌^◌, ◌<◌, ◌≡◌, refl, sym, arith, ◌∙◌, ◌==◌, ==_iff, Bool-cases, inl, inr,
  bit_and, u64, subst,
}
use arm64emu_system.Base.Bits.{bit_and-zero, mul-pow-add-one}
use arm64emu_system.Mmu.{widen}

-- Two bases agree under a mask.
abbrev Agree : ℕ → ℕ → ℕ → Type 0
Agree a b w = bit_and a w ≡ bit_and b w

shifted : (q j : ℕ) → u64 (u64 (q * 2 ^ j) * 2) ≡ u64 (q * 2 ^ (j + 1))
shifted q j = omega (arith, mul-pow-add-one q j)

widen-Agree : (a b n j q : ℕ) → j + n ≡ 64 → Agree a b (widen a b n (u64 (q * 2 ^ j)))
unfolding widen
widen-Agree a b zero j q e =
    let full : j ≡ 64 = omega arith in
    let none_left : u64 (q * 2 ^ 64) ≡ 0 = omega arith in
    rw (full, none_left) (bit_and-zero a ∙ sym (bit_and-zero b))
widen-Agree a b (suc n) j q e =
    elim (Bool-cases (bit_and a (u64 (q * 2 ^ j)) == bit_and b (u64 (q * 2 ^ j)))) [
      | inl equal ↦ rw (widen, equal) ((==_iff _ _).0 equal)
      | inr apart ↦ rw (widen, apart, shifted q j) (widen-Agree a b n (j + 1) q (omega arith))
    ]

-- For a mask of 64 bits: 64 rounds of the loop of `lp_record` are enough, since the mask at
-- which it then stands is one under which the two bases agree.
pub widen_lem : (a b m : ℕ) → m < 2 ^ 64 → bit_and a (widen a b 64 m) ≡ bit_and b (widen a b 64 m)
widen_lem a b m h =
    let e : u64 (m * 2 ^ 0) ≡ m = omega arith in
    subst (λ (t : ℕ). Agree a b (widen a b 64 t)) e (widen-Agree a b 64 0 m refl)
