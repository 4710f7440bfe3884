-- ===== src/Mmu/Dtlb/Fresh.antt =====
-- src/mmu.c: each access and flush keeps the generations in the D-TLB's tags in order.
use arm64emu_system.Base.{
  ℕ, ◌+◌, ◌*◌, ◌/◌, ◌%◌, ◌^◌, ◌≤◌, ◌≡◌, refl, arith, Bool, true, false, ◌==◌, has_bit, Option, none,
  some, update, Bool-cases, inl, inr, sym, ◌∙◌, u64, ◌-◌, bit_and, not, ◌&&◌, leb,
}
use mathlib.Core.Bool.{false≢true}
use arm64emu_system.Base.Always.{Always, >>=-Always, anything, either}
use arm64emu_system.Memory.{BusStatus, phys_read, phys_write, inside}
use arm64emu_system.Mmu.{
  Mmu, mmu_translate, hits, fill, filled, abort, spans, va_notag, tlb_flush_page,
}
use arm64emu_system.Mmu.Walk.{Access, Walked, walk, fsc_external}
use arm64emu_system.Mmu.Dtlb.{
  DtlbEnt, Caches, zeroed, dtlb_idx, grants, put, dtlb_fill, dtlb_hit, read_done, read_at,
  write_done, write_at, read_page, write_page, read_rest, write_rest, cached_read, cached_write,
  flush_page,
}
use arm64emu_system.Mmu.Dtlb.Flush.{IsFresh, slice, slice-dtlb_tag, flush_all-misses, grants-zeroed}

-- The entry's tag is not ahead of ten bits of the generation.
abbrev IsPast : ℕ → DtlbEnt → Type 0
IsPast now e = (acc : Access) → grants e acc ≡ true → slice e.tag ≤ now

zeroed-IsPast : (now : ℕ) → IsPast now zeroed
zeroed-IsPast now acc h = absurd (false≢true (sym (grants-zeroed acc) ∙ h))

update-IsPast :
    (f : ℕ → DtlbEnt) (k now : ℕ) (e : DtlbEnt)
    → IsPast now e
    → ((i : ℕ) → IsPast now (f i))
    → (i : ℕ) → IsPast now (update f k e i)
update-IsPast f k now e new old i = either (IsPast now) (i == k) new (old i)

-- A machine with another MMU state of the same generation.
pub moved :
    {W : Type 0} (s : Caches W) (m : Mmu W)
    → m.tlb_gen ≡ s.mmu.tlb_gen
    → IsFresh s
    → IsFresh (record s { mmu = m })
moved s m e f = record { word = rw e f.word; past = rw e f.past }

inside-Always :
    {A : Type 0} {P : A → Type 0} (len i n : ℕ) (a : A) → P a → Always P (inside len i n a)
inside-Always len i n a p = either (Always _) (leb (i + n) len) (Always.answered a p) Always.lost

module _ {W : Type 0} where
  put-IsFresh :
      (code : ℕ → Bool) (s : Caches W) (va host : ℕ) (r w : Bool)
      → IsFresh s
      → IsFresh (put code s va host r w)
  unfolding put
  put-IsFresh code s va host r w f = record {
    word = f.word;
    past =
        update-IsPast s.dtlb (dtlb_idx va) (s.mmu.tlb_gen % 2 ^ 10) _
          (λ acc h. let e = slice-dtlb_tag s.mmu va in omega arith) f.past;
  }

  dtlb_fill-IsFresh :
      (code : ℕ → Bool) (s : Caches W) (va pa : ℕ) → IsFresh s → IsFresh (dtlb_fill code s va pa)
  unfolding dtlb_fill
  dtlb_fill-IsFresh code s va pa f = either IsFresh _ f (
      either IsFresh _ (put-IsFresh code s va _ true true f)
        (either IsFresh _ f (put-IsFresh code s va _ _ _ f)))

  -- A translation and an abort leave the generation.
  abbrev pub Same : ℕ → Option ℕ × Mmu W → Type 0
  Same g r = r.1.tlb_gen ≡ g

  fill-Same : (m : Mmu W) (va : ℕ) (acc : Access) (w : Walked) → Same m.tlb_gen (fill m va acc w)
  unfolding fill filled
  fill-Same m va acc (Walked.fault fsc) = refl
  fill-Same m va acc (Walked.leaf l) = either (Same m.tlb_gen) _ refl refl

  pub translate-Same :
      (m : Mmu W) (va : ℕ) (acc : Access) → Always (Same m.tlb_gen) (mmu_translate m va acc)
  unfolding mmu_translate
  translate-Same m va acc =
      either (Always (Same m.tlb_gen)) (not (has_bit (m.cpu.sctlr 1) 0)) (Always.answered _ refl) (
        either (Always (Same m.tlb_gen)) (hits m va acc) (Always.answered _ refl) (
          >>=-Always {P = λ _. Unit {0}} (walk m.bus m.cpu va) _ (anything (walk m.bus m.cpu va))
            (λ r _. Always.answered _ (fill-Same (record m { bus = r.1 }) va acc r.0))))

  abbrev Fresh : (A : Type 0) → A × Caches W → Type 0
  Fresh A r = IsFresh r.1

  read_done-IsFresh :
      (code : ℕ → Bool) (s : Caches W) (va pa : ℕ) (m : Mmu W) (v : ℕ) (st : BusStatus)
      → IsFresh s
      → m.tlb_gen ≡ s.mmu.tlb_gen
      → IsFresh (read_done code s va pa m v st).1
  unfolding read_done
  read_done-IsFresh code s va pa m v BusStatus.bus_ok f e =
      dtlb_fill-IsFresh code (record s { mmu = m }) va pa (moved s m e f)
  read_done-IsFresh code s va pa m v BusStatus.bus_fault f e =
      moved s (abort m va Access.read fsc_external).1 e f

  write_done-IsFresh :
      (code : ℕ → Bool) (s : Caches W) (va pa : ℕ) (m : Mmu W) (st : BusStatus)
      → IsFresh s
      → m.tlb_gen ≡ s.mmu.tlb_gen
      → IsFresh (write_done code s va pa m st).1
  unfolding write_done
  write_done-IsFresh code s va pa m BusStatus.bus_ok f e =
      dtlb_fill-IsFresh code (record s { mmu = m }) va pa (moved s m e f)
  write_done-IsFresh code s va pa m BusStatus.bus_fault f e =
      moved s (abort m va Access.write fsc_external).1 e f

  read_at-IsFresh :
      (code : ℕ → Bool) (s : Caches W) (va size : ℕ) (t : Option ℕ × Mmu W)
      → IsFresh s
      → Same s.mmu.tlb_gen t
      → Always (Fresh (Option ℕ)) (read_at code s va size t)
  unfolding read_at
  read_at-IsFresh code s va size (none, m) f e = Always.answered _ (moved s m e f)
  read_at-IsFresh code s va size (some pa, m) f e =
      >>=-Always (phys_read m.bus pa size) _ (anything (phys_read m.bus pa size)) (λ b _.
        Always.answered _
          (read_done-IsFresh code s va pa (record m { bus = b.1 }) b.0 b.1.last_bus_status f e))

  write_at-IsFresh :
      (code : ℕ → Bool) (s : Caches W) (va size val : ℕ) (t : Option ℕ × Mmu W)
      → IsFresh s
      → Same s.mmu.tlb_gen t
      → Always (Fresh Bool) (write_at code s va size val t)
  unfolding write_at
  write_at-IsFresh code s va size val (none, m) f e = Always.answered _ (moved s m e f)
  write_at-IsFresh code s va size val (some pa, m) f e =
      >>=-Always (phys_write m.bus pa size val) _ (anything (phys_write m.bus pa size val)) (λ b _.
        Always.answered _
          (write_done-IsFresh code s va pa (record m { bus = b }) b.last_bus_status f e))

  read_page-IsFresh :
      (code : ℕ → Bool) (s : Caches W) (va size : ℕ)
      → IsFresh s
      → Always (Fresh (Option ℕ)) (read_page code s va size)
  unfolding read_page
  read_page-IsFresh code s va size f =
      either (Always (Fresh (Option ℕ)))
        (leb (va % 2 ^ 12 + size) 0x1000 && dtlb_hit s va Access.read)
        (inside-Always s.mmu.bus.ram_size _ size _ f)
        (>>=-Always (mmu_translate s.mmu va Access.read) _ (translate-Same s.mmu va Access.read)
          (λ t e. read_at-IsFresh code s va size t f e))

  write_page-IsFresh :
      (code : ℕ → Bool) (s : Caches W) (va size val : ℕ)
      → IsFresh s
      → Always (Fresh Bool) (write_page code s va size val)
  unfolding write_page
  write_page-IsFresh code s va size val f =
      either (Always (Fresh Bool)) (leb (va % 2 ^ 12 + size) 0x1000 && dtlb_hit s va Access.write)
        (inside-Always s.mmu.bus.ram_size _ size _ (moved s _ refl f))
        (>>=-Always (mmu_translate s.mmu va Access.write) _ (translate-Same s.mmu va Access.write)
          (λ t e. write_at-IsFresh code s va size val t f e))

  read_rest-IsFresh :
      (code : ℕ → Bool) (va size first : ℕ) (lo : Option ℕ × Caches W)
      → IsFresh lo.1
      → Always (Fresh (Option ℕ)) (read_rest code va size first lo)
  unfolding read_rest
  read_rest-IsFresh code va size first (none, s) f = Always.answered _ f
  read_rest-IsFresh code va size first (some l, s) f =
      >>=-Always (read_page code s (u64 (va + first)) (size - first)) _
        (read_page-IsFresh code s (u64 (va + first)) (size - first) f) (λ hi g. Always.answered _ g)

  write_rest-IsFresh :
      (code : ℕ → Bool) (va size val first : ℕ) (lo : Bool × Caches W)
      → IsFresh lo.1
      → Always (Fresh Bool) (write_rest code va size val first lo)
  unfolding write_rest
  write_rest-IsFresh code va size val first (false, s) f = Always.answered _ f
  write_rest-IsFresh code va size val first (true, s) f =
      write_page-IsFresh code s (u64 (va + first)) (size - first) (val / 2 ^ (first * 8)) f

  pub cached_read-IsFresh :
      (code : ℕ → Bool) (s : Caches W) (va size : ℕ)
      → IsFresh s
      → Always (Fresh (Option ℕ)) (cached_read code s va size)
  unfolding cached_read
  cached_read-IsFresh code s va size f =
      let first = 0x1000 - va % 2 ^ 12 in
      either (Always (Fresh (Option ℕ))) (spans s.mmu va size)
        (>>=-Always (read_page code s va first) _ (read_page-IsFresh code s va first f)
          (read_rest-IsFresh code va size first))
        (read_page-IsFresh code s va size f)

  pub cached_write-IsFresh :
      (code : ℕ → Bool) (s : Caches W) (va size val : ℕ)
      → IsFresh s
      → Always (Fresh Bool) (cached_write code s va size val)
  unfolding cached_write
  cached_write-IsFresh code s va size val f =
      let first = 0x1000 - va % 2 ^ 12 in
      either (Always (Fresh Bool)) (spans s.mmu va size)
        (>>=-Always (write_page code s va first val) _ (write_page-IsFresh code s va first val f)
          (write_rest-IsFresh code va size val first))
        (write_page-IsFresh code s va size val f)

  pub flush_page-IsFresh : (s : Caches W) (va : ℕ) → IsFresh s → IsFresh (flush_page s va)
  unfolding flush_page tlb_flush_page
  flush_page-IsFresh s va f =
      elim (Bool-cases (bit_and (va_notag va) s.mmu.lp_mask == s.mmu.lp_base)) [
        | inl block ↦ rw block (flush_all-misses s f).1
        | inr single ↦ rw single (record {
          word = f.word;
          past =
              update-IsPast s.dtlb (dtlb_idx va) (s.mmu.tlb_gen % 2 ^ 10) zeroed (zeroed-IsPast _)
                f.past;
        })
      ]
