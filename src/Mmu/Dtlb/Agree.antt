-- ===== src/Mmu/Dtlb/Agree.antt =====
-- src/mmu.c: an entry that a load has just put into the D-TLB answers like the path behind it.
use arm64emu_system.Base.{
  ℕ, ◌+◌, ◌-◌, ◌/◌, ◌%◌, ◌^◌, ◌≤◌, ◌≡◌, refl, arith, Bool, true, false, ◌==◌, has_bit, Option, none,
  some, ◌>>=◌, Bool-cases, inl, inr, sym, ◌∙◌, ap, subst, some_inj, not, ◌&&◌, ◌||◌, leb, ltb, beq,
  align_down,
}
use arm64emu_system.Base.Always.{cases, holds}
use arm64emu_system.Memory.{Bus, BusStatus, phys_read, ld_le, in_window}
use arm64emu_system.Mmu.{Mmu, tlb_idx, acc_el0, hits, mmu_translate, read_in_page}
use arm64emu_system.Mmu.Walk.{Access, perm_ok_el}
use arm64emu_system.Mmu.Tlb.{translate-IsCached}
use arm64emu_system.Mmu.Dtlb.Backed.{
  IsPaged, tagged, byte, IsBacked, Answered, put-mmu, flat-answer, fill-IsBacked,
}
use arm64emu_system.Mmu.Dtlb.Fresh.{translate-Same}
use arm64emu_system.Mmu.Dtlb.{Caches, dtlb_idx, dtlb_hit, dtlb_fill, read_done, read_at, read_page}

both_false : (a b : Bool) → b ≡ false → (a && b) ≡ false
both_false true b e = e
both_false false b e = refl

-- A load that took the slow path: the translation, and the bus after the access.
data Loaded {W : Type 0} (code : ℕ → Bool) (s : Caches W) (va : ℕ) (s' : Caches W) : Type 0 where
  loaded :
      (pa : ℕ) (m : Mmu W) (b : Bus W)
      → mmu_translate s.mmu va Access.read ≡ some (some pa, m)
      → dtlb_fill code (record s { mmu = record m { bus = b } }) va pa ≡ s'
      → Loaded code s va s'

module _ {W : Type 0} (code : ℕ → Bool) (s s' : Caches W) (va size v : ℕ) where
  read_done-Loaded :
      (pa : ℕ) (m : Mmu W) (b : Bus W) (u : ℕ) (st : BusStatus)
      → mmu_translate s.mmu va Access.read ≡ some (some pa, m)
      → read_done code s va pa (record m { bus = b }) u st ≡ (some v, s')
      → Loaded code s va s'
  unfolding read_done
  read_done-Loaded pa m b u BusStatus.bus_ok t e = loaded pa m b t (ap (λ r. r.1) e)
  read_done-Loaded pa m b u BusStatus.bus_fault t e =
      let no : none ≡ some v = ap (λ r. r.0) e in absurd cc

  on_bus :
      (pa : ℕ) (m : Mmu W) (o : Option (ℕ × Bus W))
      → mmu_translate s.mmu va Access.read ≡ some (some pa, m)
      → (o >>= λ b. some (read_done code s va pa (record m { bus = b.1 }) b.0 b.1.last_bus_status))
        ≡ some (some v, s')
      → Loaded code s va s'
  on_bus pa m none t e = absurd cc
  on_bus pa m (some b) t e = read_done-Loaded pa m b.1 b.0 b.1.last_bus_status t (some_inj e)

  read_at-Loaded :
      (t : Option ℕ × Mmu W)
      → mmu_translate s.mmu va Access.read ≡ some t
      → read_at code s va size t ≡ some (some v, s')
      → Loaded code s va s'
  unfolding read_at
  read_at-Loaded (none, m) e h = let no : none ≡ some v = ap (λ r. r.0) (some_inj h) in absurd cc
  read_at-Loaded (some pa, m) e h = on_bus pa m (phys_read m.bus pa size) e h

  translated-Loaded :
      (o : Option (Option ℕ × Mmu W))
      → mmu_translate s.mmu va Access.read ≡ o
      → (o >>= read_at code s va size) ≡ some (some v, s')
      → Loaded code s va s'
  translated-Loaded none e h = absurd cc
  translated-Loaded (some t) e h = read_at-Loaded t e h

  slow_path :
      tagged s va ≡ false
      → read_page code s va size ≡ (mmu_translate s.mmu va Access.read >>= read_at code s va size)
  unfolding read_page dtlb_hit
  slow_path missing = rw (missing, both_false (leb (va % 2 ^ 12 + size) 0x1000) false refl) refl

  read_page-Loaded :
      tagged s va ≡ false → read_page code s va size ≡ some (some v, s') → Loaded code s va s'
  read_page-Loaded missing h =
      translated-Loaded (mmu_translate s.mmu va Access.read) refl (sym (slow_path missing) ∙ h)

-- How the translation was answered, and that the tags are what they were.
translate-Answered :
    {W : Type 0} (m m' : Mmu W) (va : ℕ) (acc : Access) (pa : ℕ) (b : Bus W)
    → mmu_translate m va acc ≡ some (some pa, m')
    → Answered (record m' { bus = b }) va acc pa × (m'.cpu ≡ m.cpu)
unfolding hits
translate-Answered m m' va acc pa b h = elim (Bool-cases (has_bit (m.cpu.sctlr 1) 0)) [
  | inl on ↦
      let (c, same) = translate-IsCached m m' va acc pa on h in
      (Answered.by_tlb (rw same on) c, same)
  | inr off ↦
      let both = some_inj (sym (flat-answer m va acc off) ∙ h) in
      let state : m ≡ m' = ap (λ r. r.1) both in
      let same : m'.cpu ≡ m.cpu = sym (ap (λ (t : Mmu _). t.cpu) state) in
      (Answered.by_identity (rw same off) (sym (some_inj (ap (λ r. r.0) both))), same)
]

fill-mmu :
    {W : Type 0} (code : ℕ → Bool) (s : Caches W) (va pa : ℕ) → (dtlb_fill code s va pa).mmu ≡ s.mmu
unfolding dtlb_fill
fill-mmu code s va pa =
    let P : Caches _ → Type 0 = λ u. u.mmu ≡ s.mmu in
    let m = s.mmu in
    let t = m.tlb (tlb_idx va) in
    let host = align_down pa 12 - m.bus.ram_base in
    let perm : Access → Bool = λ k. perm_ok_el k t.ap t.uxn t.pxn (acc_el0 m.cpu) in
    cases P (ltb (align_down pa 12) m.bus.ram_base || leb m.bus.ram_size host) (λ _. refl)
      (λ _.
        cases P (not (has_bit (m.cpu.sctlr 1) 0)) (λ _. put-mmu code s va host true true)
          (λ _.
            cases P (not (t.va_page == align_down va 12) || not (beq t.el0 (acc_el0 m.cpu)))
              (λ _. refl) (λ _. put-mmu code s va host (perm Access.read) (perm Access.write))))

-- What the loaded entry grants is backed.
loaded-IsBacked :
    {W : Type 0} (code : ℕ → Bool) (s s' : Caches W) (va va' : ℕ) (acc : Access)
    → tagged s va ≡ false
    → Loaded code s va s'
    → IsPaged s'.mmu
    → va' / 2 ^ 12 ≡ va / 2 ^ 12
    → dtlb_hit s' va' acc ≡ true
    → IsBacked s' va' acc
loaded-IsBacked code s s' va va' acc missing (loaded pa m b t e) p same h =
    let s₁ = record s { mmu = record m { bus = b } } in
    let (answer, cpu) = translate-Answered s.mmu m va Access.read pa b t in
    let gen : m.tlb_gen ≡ s.mmu.tlb_gen =
      holds (mmu_translate s.mmu va Access.read) (some pa, m) (translate-Same s.mmu va Access.read)
        t in
    let missing₁ : tagged s₁ va ≡ false = rw (cpu, gen) missing in
    let paged : IsPaged s₁.mmu =
      subst IsPaged (fill-mmu code s₁ va pa) (subst (λ (u : Caches _). IsPaged u.mmu) (sym e) p) in
    subst (λ (u : Caches _). IsBacked u va' acc) e
      (fill-IsBacked code s₁ va va' pa Access.read acc paged missing₁ answer same
        (subst (λ (u : Caches _). dtlb_hit u va' acc ≡ true) (sym e) h))

-- A hit in the RAM, through the entry and through the TLB.
hit-reads :
    {W : Type 0} (code : ℕ → Bool) (s : Caches W) (va size : ℕ)
    → va % 2 ^ 12 + size ≤ 2 ^ 12
    → dtlb_hit s va Access.read ≡ true
    → (s.dtlb (dtlb_idx va)).host + 2 ^ 12 ≤ s.mmu.bus.ram_size
    → read_page code s va size ≡ some (some (ld_le s.mmu.bus.ram (byte s va) size), s)
unfolding read_page
hit-reads code s va size short hit fits =
    let whole : leb (va % 2 ^ 12 + size) 0x1000 ≡ true = ground arith in
    let held : leb (byte s va + size) s.mmu.bus.ram_size ≡ true = ground arith in
    rw (whole, hit, held) refl

-- The machine after the bus has answered.
abbrev pub fine : {W : Type 0} → Mmu W → Mmu W
fine m = record m { bus = record m.bus { last_bus_status = BusStatus.bus_ok } }

translated-reads :
    {W : Type 0} (m : Mmu W) (va size i : ℕ)
    → IsPaged m
    → mmu_translate m va Access.read ≡ some (some (m.bus.ram_base + i), m)
    → i + size ≤ m.bus.ram_size
    → read_in_page m va size ≡ some (some (ld_le m.bus.ram i size), fine m)
unfolding read_in_page phys_read
translated-reads m va size i p t fits =
    let window : in_window m.bus.ram_base m.bus.ram_size (m.bus.ram_base + i) size ≡ true =
      let s = p.small in ground arith in
    let start : m.bus.ram_base + i - m.bus.ram_base ≡ i = omega arith in
    let held : leb (i + size) m.bus.ram_size ≡ true = ground arith in
    rw (t, window, start, held) refl

-- For a RAM and a TLB aligned to pages: when a load at `va` found no entry in the D-TLB and was
-- answered, then a load inside the same page that finds an entry afterwards is answered with the
-- value that the path behind the D-TLB gives, and neither changes more than the bus status.
pub read_page-agrees :
    {W : Type 0} (code : ℕ → Bool) (s s' : Caches W) (va va' size size' v : ℕ)
    → tagged s va ≡ false
    → read_page code s va size ≡ some (some v, s')
    → IsPaged s'.mmu
    → va' / 2 ^ 12 ≡ va / 2 ^ 12
    → va' % 2 ^ 12 + size' ≤ 2 ^ 12
    → dtlb_hit s' va' Access.read ≡ true
    → (v' : ℕ) × (read_page code s' va' size' ≡ some (some v', s'))
      × (read_in_page s'.mmu va' size' ≡ some (some v', fine s'.mmu))
read_page-agrees code s s' va va' size size' v missing load p same short hit =
    let l = read_page-Loaded code s s' va size v missing load in
    let (answer, fits) = loaded-IsBacked code s s' va va' Access.read missing l p same hit in
    (
      ld_le s'.mmu.bus.ram (byte s' va') size',
      hit-reads code s' va' size' short hit fits,
      translated-reads s'.mmu va' size' (byte s' va') p answer (omega arith),
    )
