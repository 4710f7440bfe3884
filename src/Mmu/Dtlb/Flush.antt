-- ===== src/Mmu/Dtlb/Flush.antt =====
-- src/mmu.c: the D-TLB serves nothing that has been flushed, although its tags hold only ten bits of
-- the generation.
use arm64emu_system.Base.{
  ℕ, ◌+◌, ◌/◌, ◌%◌, ◌^◌, ◌≤◌, ◌<◌, ◌≡◌, refl, arith, Bool, true, false, ◌&&◌, ◌==◌, ==_refl,
  from_bool, has_bit, bit_and, Bool-cases, inl, inr, if◌then◌else◌, sym, ◌∙◌,
}
use mathlib.Core.Bool.{false≢true}
use arm64emu_system.Mmu.{Mmu, va_notag, acc_el0, tlb_flush_all}
use arm64emu_system.Mmu.Walk.{Access}
use arm64emu_system.Mmu.Dtlb.{
  DtlbEnt, Caches, zeroed, dtlb_idx, dtlb_tag, grants, dtlb_hit, flush_all, flush_page,
}

-- The generation in a tag.
abbrev pub slice : ℕ → ℕ
slice tag = tag / 2 ^ 2 % 2 ^ 10

-- An entry that can serve an access carries ten bits of the generation up to the current ones.
pub record IsFresh {W : Type 0} (s : Caches W) : Type 0 where
  pub word : s.mmu.tlb_gen < 2 ^ 32
  pub past :
      (i : ℕ) (acc : Access)
      → grants (s.dtlb i) acc ≡ true
      → slice (s.dtlb i).tag ≤ s.mmu.tlb_gen % 2 ^ 10

bool_small : (b : Bool) → from_bool b < 2
bool_small true = omega arith
bool_small false = omega arith

pub slice-dtlb_tag : {W : Type 0} (m : Mmu W) (va : ℕ) → slice (dtlb_tag m va) ≡ m.tlb_gen % 2 ^ 10
slice-dtlb_tag m va =
    let a = bool_small (has_bit (m.cpu.sctlr 1) 0) in
    let b = bool_small (acc_el0 m.cpu) in omega arith

stale_tag :
    {W : Type 0} (tag : ℕ) (m : Mmu W) (va : ℕ)
    → slice tag < m.tlb_gen % 2 ^ 10
    → (tag == dtlb_tag m va) ≡ false
stale_tag tag m va older = apart (dtlb_tag m va) (slice-dtlb_tag m va)
  where
    apart : (t : ℕ) → slice t ≡ m.tlb_gen % 2 ^ 10 → (tag == t) ≡ false
    apart t e = ground arith

pub grants-zeroed : (acc : Access) → grants zeroed acc ≡ false
grants-zeroed Access.read = refl
grants-zeroed Access.write = refl
grants-zeroed Access.exec = refl

and_false : (b c : Bool) → c ≡ false → (b && c) ≡ false
and_false true c e = e
and_false false c e = refl

-- The generation after a full flush.
abbrev next_gen : ℕ → ℕ
next_gen g = let n = (g + 1) % 2 ^ 32 in if n == 0 then 1 else n

next_gen-small : (g : ℕ) → next_gen g < 2 ^ 32
next_gen-small g = ground arith

next_gen-slice :
    (g : ℕ) → ((g + 1) % 2 ^ 32 % 2 ^ 10 == 0) ≡ false → g % 2 ^ 10 < next_gen g % 2 ^ 10
next_gen-slice g moves = ground arith

miss :
    (e : DtlbEnt) (acc : Access) (tag : ℕ)
    → (grants e acc ≡ true → (e.tag == tag) ≡ false)
    → ((e.tag == tag) && grants e acc) ≡ false
miss e acc tag h = elim (Bool-cases (grants e acc)) [
  | inl some_grant ↦ rw (h some_grant) refl
  | inr none_grant ↦ and_false _ _ none_grant
]

-- For a D-TLB of that kind: after a full flush no access takes the fast path, and the D-TLB is
-- again of that kind, also when the ten bits or the whole generation wrap.
pub flush_all-misses :
    {W : Type 0} (s : Caches W)
    → IsFresh s
    → ((va : ℕ) (acc : Access) → dtlb_hit (flush_all s) va acc ≡ false) × IsFresh (flush_all s)
unfolding flush_all tlb_flush_all dtlb_hit
flush_all-misses s f = elim (Bool-cases ((s.mmu.tlb_gen + 1) % 2 ^ 32 % 2 ^ 10 == 0)) [
  | inl wraps ↦ rw wraps (
    λ va acc. and_false _ _ (grants-zeroed acc),
    record {
      word = next_gen-small s.mmu.tlb_gen;
      past = λ i acc h. absurd (false≢true (sym (grants-zeroed acc) ∙ h));
    },
  )
  | inr moves ↦
      let later = next_gen-slice s.mmu.tlb_gen moves in
      rw moves (
        λ va acc.
            let e = s.dtlb (dtlb_idx va) in
            miss e acc (dtlb_tag (tlb_flush_all s.mmu) va) (λ h.
              stale_tag e.tag (tlb_flush_all s.mmu) va
                (let le = f.past (dtlb_idx va) acc h in omega arith)),
        record {
          word = next_gen-small s.mmu.tlb_gen;
          past = λ i acc h. let le = f.past i acc h in omega arith;
        },
      )
]

-- For a D-TLB of that kind: after the flush of a page no access to an address with the same bits
-- 55 to 12 takes the fast path, whatever its top byte and privilege.
pub flush_page-misses :
    {W : Type 0} (s : Caches W) (va va' : ℕ) (acc : Access)
    → IsFresh s
    → va / 2 ^ 12 % 2 ^ 44 ≡ va' / 2 ^ 12 % 2 ^ 44
    → dtlb_hit (flush_page s va) va' acc ≡ false
unfolding flush_page dtlb_hit
flush_page-misses s va va' acc f same =
    elim (Bool-cases (bit_and (va_notag va) s.mmu.lp_mask == s.mmu.lp_base)) [
      | inl block ↦ rw block ((flush_all-misses s f).0 va' acc)
      | inr single ↦
          let e : dtlb_idx va' ≡ dtlb_idx va = omega arith in
          rw (single, e, ==_refl (dtlb_idx va)) (and_false _ _ (grants-zeroed acc))
    ]
