-- ===== src/Mmu/Tlb.antt =====
-- src/mmu.c: the TLB serves what a walk has found, and nothing that has been flushed.
use mathlib.Core.Bool.{false≢true}
use arm64emu_system.Base.{ℕ, ◌+◌, ◌/◌, ◌%◌, ◌^◌, ◌≤◌, ◌<◌, ◌≡◌, refl, sym, arith, ap, ◌∙◌}
use arm64emu_system.Base.{
  Bool, true, false, ◌&&◌, ◌==◌, ==_refl, beq, subst, some_inj, Option, none, some, bit_or, bit_and,
  has_bit, align_down, Bool-cases, inl, inr,
}
use arm64emu_system.Memory.{Bus}
use arm64emu_system.Base.{◌>>=◌}
use arm64emu_system.Mmu.{
  Mmu, tlb_idx, va_notag, hits, fill, filled, acc_el0, mmu_translate, tlb_flush_all, tlb_flush_page,
  abort,
}
use arm64emu_system.Mmu.Walk.{Access, Leaf, Walked, perm_ok_el, walk, fsc_perm_l3}

-- The valid entries carry generations up to the current one, which is a word.
pub record IsValid {W : Type 0} (m : Mmu W) : Type 0 where
  pub word : m.tlb_gen < 2 ^ 32
  pub past : (i : ℕ) → (m.tlb i).valid ≡ true → (m.tlb i).gen ≤ m.tlb_gen

beq_refl : (b : Bool) → beq b b ≡ true
beq_refl true = refl
beq_refl false = refl

stale :
    (valid : Bool) (gen now now' : ℕ) (rest : Bool)
    → (valid ≡ true → gen ≤ now)
    → now < now'
    → valid && ((gen == now') && rest) ≡ false
stale false gen now now' rest past lt = refl
stale true gen now now' rest past lt =
    let le = past refl in let apart : (gen == now') ≡ false = ground arith in rw apart refl

-- For a TLB whose valid entries carry generations up to the current one: after a full flush no
-- access hits, and the TLB is again of that kind, also when the generation wraps.
pub tlb_flush_all-hits :
    {W : Type 0} (m : Mmu W) (va : ℕ) (acc : Access)
    → IsValid m
    → (hits (tlb_flush_all m) va acc ≡ false) × IsValid (tlb_flush_all m)
unfolding tlb_flush_all hits
tlb_flush_all-hits m va acc v = elim (Bool-cases ((m.tlb_gen + 1) % 2 ^ 32 == 0)) [
  | inl wraps ↦ rw wraps (refl, record { word = omega arith; past = λ i h. absurd (false≢true h) })
  | inr moves ↦ rw moves (
    stale (m.tlb (tlb_idx va)).valid (m.tlb (tlb_idx va)).gen m.tlb_gen ((m.tlb_gen + 1) % 2 ^ 32)
        (((m.tlb (tlb_idx va)).va_page == align_down va 12)
          && (beq (m.tlb (tlb_idx va)).el0 (acc_el0 m.cpu)
              && perm_ok_el acc (m.tlb (tlb_idx va)).ap (m.tlb (tlb_idx va)).uxn
                  (m.tlb (tlb_idx va)).pxn (acc_el0 m.cpu)))
        (v.past (tlb_idx va)) (let w = v.word in ground arith),
    record {
      word = omega arith;
      past = λ i h. let le = v.past i h in let w = v.word in ground arith;
    },
  )
]

-- For a TLB whose valid entries carry generations up to the current one: after the flush of a
-- page no access to an address with the same bits 55 to 12 hits, whatever its top byte.
pub tlb_flush_page-hits :
    {W : Type 0} (m : Mmu W) (va va' : ℕ) (acc : Access)
    → IsValid m
    → va / 2 ^ 12 % 2 ^ 44 ≡ va' / 2 ^ 12 % 2 ^ 44
    → hits (tlb_flush_page m va) va' acc ≡ false
unfolding tlb_flush_page hits
tlb_flush_page-hits m va va' acc v same =
    elim (Bool-cases (bit_and (va_notag va) m.lp_mask == m.lp_base)) [
      | inl block ↦ rw block (tlb_flush_all-hits m va' acc v).0
      | inr single ↦
          let e : tlb_idx va' ≡ tlb_idx va = omega arith in
          rw (single, e, ==_refl (tlb_idx va)) refl
    ]

-- A translation that a walk has just answered is in the TLB.
abbrev pub IsCached : {W : Type 0} → ℕ → Access → ℕ → Mmu W → Type 0
IsCached va acc pa m =
    (hits m va acc ≡ true) × (bit_or (m.tlb (tlb_idx va)).pa_page (va % 2 ^ 12) ≡ pa)

filled-IsCached :
    {W : Type 0} (m : Mmu W) (va : ℕ) (acc : Access) (l : Leaf)
    → perm_ok_el acc l.ap l.uxn l.pxn (acc_el0 m.cpu) ≡ true
    → IsCached va acc (bit_or l.pa_page (va % 2 ^ 12)) (filled m va l)
unfolding filled hits
filled-IsCached m va acc l allowed = rw (==_refl (tlb_idx va)) (
  rw (==_refl m.tlb_gen, ==_refl (align_down va 12), beq_refl (acc_el0 m.cpu), allowed) refl,
  refl,
)

filled-cpu : {W : Type 0} (m : Mmu W) (va : ℕ) (l : Leaf) → (filled m va l).cpu ≡ m.cpu
unfolding filled
filled-cpu m va l = refl

impossible : {A B : Type 0} {a : A} → none ≡ some a → B
impossible e = cc

fill-IsCached :
    {W : Type 0} (m m' : Mmu W) (va : ℕ) (acc : Access) (w : Walked) (pa : ℕ)
    → fill m va acc w ≡ (some pa, m')
    → IsCached va acc pa m' × (m'.cpu ≡ m.cpu)
unfolding fill
fill-IsCached m m' va acc (Walked.fault fsc) pa h = impossible (ap (λ r. r.0) h)
fill-IsCached m m' va acc (Walked.leaf l) pa h =
    elim (Bool-cases (perm_ok_el acc l.ap l.uxn l.pxn (acc_el0 m.cpu))) [
      | inl allowed ↦
          let e : fill m va acc (Walked.leaf l)
              ≡ (some (bit_or l.pa_page (va % 2 ^ 12)), filled m va l) =
            rw (fill, allowed) refl in
          let both = sym e ∙ h in
          let state : filled m va l ≡ m' = ap (λ r. r.1) both in
          let address = some_inj (ap (λ r. r.0) both) in
          (
            subst (λ (a : ℕ). IsCached va acc a m') address
                (subst (IsCached va acc (bit_or l.pa_page (va % 2 ^ 12))) state
                  (filled-IsCached m va acc l allowed)),
            subst (λ (t : Mmu _). t.cpu ≡ m.cpu) state (filled-cpu m va l),
          )
      | inr denied ↦
          let e : fill m va acc (Walked.leaf l) ≡ abort (filled m va l) va acc fsc_perm_l3 =
            rw (fill, denied) refl in
          impossible (ap (λ r. r.0) (sym e ∙ h))
    ]

-- With the MMU on, a cached address is answered from the TLB, and nothing changes.
pub cached_answer :
    {W : Type 0} (m : Mmu W) (va : ℕ) (acc : Access) (pa : ℕ)
    → has_bit (m.cpu.sctlr 1) 0 ≡ true
    → IsCached va acc pa m
    → mmu_translate m va acc ≡ some (some pa, m)
unfolding mmu_translate
cached_answer m va acc pa on cached = rw (on, cached.0, cached.1) refl

-- A translation that was answered with the MMU on is in the TLB; the processor is as it was.
pub translate-IsCached :
    {W : Type 0} (m m' : Mmu W) (va : ℕ) (acc : Access) (pa : ℕ)
    → has_bit (m.cpu.sctlr 1) 0 ≡ true
    → mmu_translate m va acc ≡ some (some pa, m')
    → IsCached va acc pa m' × (m'.cpu ≡ m.cpu)
unfolding mmu_translate
translate-IsCached m m' va acc pa on h = elim (Bool-cases (hits m va acc)) [
  | inl hit ↦
      let e : mmu_translate m va acc
          ≡ some (some (bit_or (m.tlb (tlb_idx va)).pa_page (va % 2 ^ 12)), m) =
        rw (mmu_translate, on, hit) refl in
      let both = some_inj (sym e ∙ h) in
      let state : m ≡ m' = ap (λ r. r.1) both in
      (
        subst (IsCached va acc pa) state (hit, some_inj (ap (λ r. r.0) both)),
        sym (ap (λ (t : Mmu _). t.cpu) state),
      )
  | inr miss ↦
      let e : mmu_translate m va acc
          ≡ (walk m.bus m.cpu va >>= λ r. some (fill (record m { bus = r.1 }) va acc r.0)) =
        rw (mmu_translate, on, miss) refl in
      after_walk (walk m.bus m.cpu va) (sym e ∙ h)
]
  where
    after_walk :
        (o : Option (Walked × Bus _))
        → (o >>= λ r. some (fill (record m { bus = r.1 }) va acc r.0)) ≡ some (some pa, m')
        → IsCached va acc pa m' × (m'.cpu ≡ m.cpu)
    after_walk none e = impossible e
    after_walk (some r) e = fill-IsCached (record m { bus = r.1 }) m' va acc r.0 pa (some_inj e)

-- With the MMU on: when a translation has given a physical address, the same translation in the
-- state after it gives the same address, and leaves the state as it is.
pub mmu_translate-repeated :
    {W : Type 0} (m m' : Mmu W) (va : ℕ) (acc : Access) (pa : ℕ)
    → has_bit (m.cpu.sctlr 1) 0 ≡ true
    → mmu_translate m va acc ≡ some (some pa, m')
    → mmu_translate m' va acc ≡ some (some pa, m')
mmu_translate-repeated m m' va acc pa on h =
    let (cached, same) = translate-IsCached m m' va acc pa on h in
    cached_answer m' va acc pa (rw same on) cached
