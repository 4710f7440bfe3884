-- ===== src/Mmu/Dtlb/Backed.antt =====
-- src/mmu.c: what `dtlb_fill` puts into the D-TLB is what the translation says.
use arm64emu_system.Base.{
  ℕ, ◌+◌, ◌-◌, ◌*◌, ◌/◌, ◌%◌, ◌^◌, ◌≤◌, ◌<◌, ◌≡◌, refl, arith, Bool, true, false, ◌==◌, ==_refl,
  has_bit, some, sym, ◌∙◌, ap, subst, not, ◌&&◌, ◌||◌, leb, ltb, beq, bit_or, align_down,
}
use mathlib.Core.Bool.{false≢true}
use arm64emu_system.Base.Always.{cases}
use arm64emu_system.Base.Bits.{bit_or_fields}
use arm64emu_system.Mmu.{Mmu, tlb_idx, acc_el0, hits, mmu_translate}
use arm64emu_system.Mmu.Walk.{Access, perm_ok_el}
use arm64emu_system.Mmu.Tlb.{IsCached, cached_answer}
use arm64emu_system.Mmu.Dtlb.{Caches, dtlb_idx, dtlb_tag, grants, dtlb_hit, put, dtlb_fill}

-- The RAM and the pages in the TLB are aligned to pages, and the RAM ends below 2 ^ 64.
pub record IsPaged {W : Type 0} (m : Mmu W) : Type 0 where
  pub base : m.bus.ram_base % 2 ^ 12 ≡ 0
  pub size : m.bus.ram_size % 2 ^ 12 ≡ 0
  pub small : m.bus.ram_base + m.bus.ram_size < 2 ^ 64
  pub leaves : (i : ℕ) → (m.tlb i).pa_page % 2 ^ 12 ≡ 0

-- The slot of the address holds an entry with its tag.
abbrev pub tagged : {W : Type 0} → Caches W → ℕ → Bool
tagged s va = (s.dtlb (dtlb_idx va)).tag == dtlb_tag s.mmu va

-- The byte of the RAM that the entry of the address points to.
abbrev pub byte : {W : Type 0} → Caches W → ℕ → ℕ
byte s va = (s.dtlb (dtlb_idx va)).host + va % 2 ^ 12

-- The entry is what the translation says, and its page lies in the RAM.
abbrev pub IsBacked : {W : Type 0} → Caches W → ℕ → Access → Type 0
IsBacked s va acc =
    (mmu_translate s.mmu va acc ≡ some (some (s.mmu.bus.ram_base + byte s va), s.mmu))
    × ((s.dtlb (dtlb_idx va)).host + 2 ^ 12 ≤ s.mmu.bus.ram_size)

-- How a translation was answered.
pub data Answered {W : Type 0} (m : Mmu W) (va : ℕ) (acc : Access) (pa : ℕ) : Type 0 where
  by_identity : has_bit (m.cpu.sctlr 1) 0 ≡ false → pa ≡ va → Answered m va acc pa
  by_tlb : has_bit (m.cpu.sctlr 1) 0 ≡ true → IsCached va acc pa m → Answered m va acc pa

pub untagged-misses :
    {W : Type 0} (s : Caches W) (va va' : ℕ) (acc : Access)
    → tagged s va ≡ false
    → va' / 2 ^ 12 ≡ va / 2 ^ 12
    → dtlb_hit s va' acc ≡ false
unfolding dtlb_hit
untagged-misses s va va' acc missing same = rw (same, missing) refl

conjuncts :
    (a b c d e f : Bool)
    → (a && (b && (c && (d && e)))) ≡ true
    → f ≡ true
    → (a && (b && (c && (d && f)))) ≡ true
conjuncts a b c d e f h g = ground arith

-- The entry of the TLB serves every access in its page that its permissions allow.
hits-page :
    {W : Type 0} (m : Mmu W) (va va' : ℕ) (acc acc' : Access)
    → hits m va acc ≡ true
    → va' / 2 ^ 12 ≡ va / 2 ^ 12
    → (let t = m.tlb (tlb_idx va) in perm_ok_el acc' t.ap t.uxn t.pxn (acc_el0 m.cpu)) ≡ true
    → hits m va' acc' ≡ true
unfolding hits
hits-page m va va' acc acc' h same allowed =
    let t = m.tlb (tlb_idx va) in
    rw same (
      conjuncts t.valid (t.gen == m.tlb_gen) (t.va_page == align_down va 12)
        (beq t.el0 (acc_el0 m.cpu)) (perm_ok_el acc t.ap t.uxn t.pxn (acc_el0 m.cpu)) _ h allowed)

and-right : (a b : Bool) → (a && b) ≡ true → b ≡ true
and-right true b h = h
and-right false b h = absurd (false≢true h)

-- The entry that was put, at any address in its page.
put-entry :
    {W : Type 0} (code : ℕ → Bool) (s : Caches W) (va va' host : ℕ) (r w : Bool)
    → va' / 2 ^ 12 ≡ va / 2 ^ 12
    → (put code s va host r w).dtlb (dtlb_idx va')
      ≡ record { tag = dtlb_tag s.mmu va; host = host; r = r; w = w && not (code (host / 2 ^ 12)) }
unfolding put
put-entry code s va va' host r w same = rw (same, ==_refl (dtlb_idx va)) refl

granted :
    (tag host : ℕ) (perm : Access → Bool) (quiet : Bool) (acc : Access)
    → grants
        (record { tag = tag; host = host; r = perm Access.read; w = perm Access.write && quiet })
        acc
      ≡ true
    → perm acc ≡ true
granted tag host perm quiet Access.read h = h
granted tag host perm quiet Access.write h = ground arith
granted tag host perm quiet Access.exec h = absurd (false≢true h)

-- It grants only what it was given.
put-grants :
    {W : Type 0} (code : ℕ → Bool) (s : Caches W) (va va' host : ℕ) (perm : Access → Bool)
    (acc : Access)
    → va' / 2 ^ 12 ≡ va / 2 ^ 12
    → dtlb_hit (put code s va host (perm Access.read) (perm Access.write)) va' acc ≡ true
    → perm acc ≡ true
unfolding dtlb_hit
put-grants code s va va' host perm acc same h =
    let e = put-entry code s va va' host (perm Access.read) (perm Access.write) same in
    granted (dtlb_tag s.mmu va) host perm (not (code (host / 2 ^ 12))) acc
      (subst (λ t. grants t acc ≡ true) e (and-right _ _ h))

pub put-mmu :
    {W : Type 0} (code : ℕ → Bool) (s : Caches W) (va host : ℕ) (r w : Bool)
    → (put code s va host r w).mmu ≡ s.mmu
unfolding put
put-mmu code s va host r w = refl

-- An entry put for a page of the RAM is backed where the translation says so.
put-IsBacked :
    {W : Type 0} (code : ℕ → Bool) (s : Caches W) (va va' host pa : ℕ) (r w : Bool) (acc : Access)
    → va' / 2 ^ 12 ≡ va / 2 ^ 12
    → IsPaged s.mmu
    → s.mmu.bus.ram_base ≤ align_down pa 12
    → align_down pa 12 - s.mmu.bus.ram_base < s.mmu.bus.ram_size
    → host ≡ align_down pa 12 - s.mmu.bus.ram_base
    → mmu_translate s.mmu va' acc ≡ some (some (align_down pa 12 + va' % 2 ^ 12), s.mmu)
    → IsBacked (put code s va host r w) va' acc
unfolding put
put-IsBacked code s va va' host pa r w acc same p above below e answer =
    let at : ((put code s va host r w).dtlb (dtlb_idx va')).host ≡ host =
      ap (λ t. t.host) (put-entry code s va va' host r w same) in
    let sum : align_down pa 12 + va' % 2 ^ 12
        ≡ s.mmu.bus.ram_base + byte (put code s va host r w) va' =
      omega arith in
    (
      answer ∙ ap (λ (a : ℕ). some (some a, s.mmu)) sum,
      let b = p.base in let z = p.size in omega arith,
    )

-- The translation of another address in the page, where it was answered and is allowed.
pub flat-answer :
    {W : Type 0} (m : Mmu W) (va : ℕ) (acc : Access)
    → has_bit (m.cpu.sctlr 1) 0 ≡ false
    → mmu_translate m va acc ≡ some (some va, m)
unfolding mmu_translate
flat-answer m va acc off = rw off refl

page-answer :
    {W : Type 0} (m : Mmu W) (va va' pa : ℕ) (acc acc' : Access)
    → IsPaged m
    → has_bit (m.cpu.sctlr 1) 0 ≡ true
    → IsCached va acc pa m
    → va' / 2 ^ 12 ≡ va / 2 ^ 12
    → (let t = m.tlb (tlb_idx va) in perm_ok_el acc' t.ap t.uxn t.pxn (acc_el0 m.cpu)) ≡ true
    → mmu_translate m va' acc' ≡ some (some (align_down pa 12 + va' % 2 ^ 12), m)
page-answer m va va' pa acc acc' p on c same allowed =
    let idx : tlb_idx va' ≡ tlb_idx va = omega arith in
    let page = (m.tlb (tlb_idx va)).pa_page in
    let whole : page / 2 ^ 12 * 2 ^ 12 ≡ page = let a = p.leaves (tlb_idx va) in omega arith in
    let sum : (x : ℕ) → bit_or page (x % 2 ^ 12) ≡ page + x % 2 ^ 12 = λ x.
      subst (λ (q : ℕ). bit_or q (x % 2 ^ 12) ≡ q + x % 2 ^ 12) whole
        (bit_or_fields 12 (page / 2 ^ 12) (x % 2 ^ 12) (omega arith)) in
    let start : align_down pa 12 ≡ page =
      let e = sym (sum va) ∙ c.1 in let a = p.leaves (tlb_idx va) in omega arith in
    cached_answer m va' acc' (align_down pa 12 + va' % 2 ^ 12) on
      (hits-page m va va' acc acc' c.0 same allowed, rw (idx, start) (sum va'))

off_answer :
    {W : Type 0} (m : Mmu W) (va va' pa : ℕ) (acc acc' : Access)
    → Answered m va acc pa
    → not (has_bit (m.cpu.sctlr 1) 0) ≡ true
    → va' / 2 ^ 12 ≡ va / 2 ^ 12
    → mmu_translate m va' acc' ≡ some (some (align_down pa 12 + va' % 2 ^ 12), m)
off_answer m va va' pa acc acc' (by_identity off e) o same =
    let sum : va' ≡ align_down pa 12 + va' % 2 ^ 12 = omega arith in
    flat-answer m va' acc' off ∙ ap (λ (a : ℕ). some (some a, m)) sum
off_answer m va va' pa acc acc' (by_tlb on c) o same = absurd (false≢true (ap not (sym on) ∙ o))

on_answer :
    {W : Type 0} (m : Mmu W) (va va' pa : ℕ) (acc acc' : Access)
    → IsPaged m
    → Answered m va acc pa
    → not (has_bit (m.cpu.sctlr 1) 0) ≡ false
    → va' / 2 ^ 12 ≡ va / 2 ^ 12
    → (let t = m.tlb (tlb_idx va) in perm_ok_el acc' t.ap t.uxn t.pxn (acc_el0 m.cpu)) ≡ true
    → mmu_translate m va' acc' ≡ some (some (align_down pa 12 + va' % 2 ^ 12), m)
on_answer m va va' pa acc acc' p (by_identity off e) o same allowed =
    absurd (false≢true (sym o ∙ ap not off))
on_answer m va va' pa acc acc' p (by_tlb on c) o same allowed =
    page-answer m va va' pa acc acc' p on c same allowed

-- What is in the D-TLB after the entry of an answered translation was filled is backed.
pub fill-IsBacked :
    {W : Type 0} (code : ℕ → Bool) (s : Caches W) (va va' pa : ℕ) (acc acc' : Access)
    → IsPaged s.mmu
    → tagged s va ≡ false
    → Answered s.mmu va acc pa
    → va' / 2 ^ 12 ≡ va / 2 ^ 12
    → dtlb_hit (dtlb_fill code s va pa) va' acc' ≡ true
    → IsBacked (dtlb_fill code s va pa) va' acc'
unfolding dtlb_fill
fill-IsBacked code s va va' pa acc acc' p missing a same =
    let P : Caches _ → Type 0 = λ t. dtlb_hit t va' acc' ≡ true → IsBacked t va' acc' in
    let m = s.mmu in
    let t = m.tlb (tlb_idx va) in
    let host = align_down pa 12 - m.bus.ram_base in
    let perm : Access → Bool = λ k. perm_ok_el k t.ap t.uxn t.pxn (acc_el0 m.cpu) in
    let none_there : P s =
      λ h. absurd (false≢true (sym (untagged-misses s va va' acc' missing same) ∙ h)) in
    cases P (ltb (align_down pa 12) m.bus.ram_base || leb m.bus.ram_size host) (λ _. none_there)
      (λ ram.
        let above : m.bus.ram_base ≤ align_down pa 12 = ground arith in
        let below : host < m.bus.ram_size = ground arith in
        cases P (not (has_bit (m.cpu.sctlr 1) 0))
          (λ off h.
            put-IsBacked code s va va' host pa true true acc' same p above below refl
              (off_answer m va va' pa acc acc' a off same))
          (λ on.
            cases P (not (t.va_page == align_down va 12) || not (beq t.el0 (acc_el0 m.cpu)))
              (λ _. none_there)
              (λ _ h.
                put-IsBacked code s va va' host pa (perm Access.read) (perm Access.write) acc' same
                  p above below refl
                  (on_answer m va va' pa acc acc' p a on same
                    (put-grants code s va va' host perm acc' same h)))))
