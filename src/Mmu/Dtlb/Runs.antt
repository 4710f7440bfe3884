-- ===== src/Mmu/Dtlb/Runs.antt =====
-- src/mmu.c: sequences of loads, stores and flushes, with any change of the processor in between,
-- keep the generations in the D-TLB's tags in order.
use arm64emu_system.Base.{ℕ, ◌≡◌, refl, Bool, false, Option, some, ◌>>=◌, List, [], ◌∷◌}
use arm64emu_system.Base.Always.{Always, >>=-Always, holds}
use arm64emu_system.Cpu.{Cpu}
use arm64emu_system.Mmu.{}
use arm64emu_system.Mmu.Walk.{Access}
use arm64emu_system.Mmu.Dtlb.{Caches, dtlb_hit, cached_read, cached_write, flush_all, flush_page}
use arm64emu_system.Mmu.Dtlb.Flush.{IsFresh, flush_all-misses, flush_page-misses}
use arm64emu_system.Mmu.Dtlb.Fresh.{
  moved, cached_read-IsFresh, cached_write-IsFresh, flush_page-IsFresh,
}

-- What happens to the caches: accesses, flushes, and any change of the processor (its level, its
-- translation registers, the privilege of LDTR).
pub data Event : Type 0 where
  load : (va size : ℕ) → Event
  store : (va size val : ℕ) → Event
  flush : Event
  flush_va : (va : ℕ) → Event
  processor : Cpu → Event

abbrev forget : {W A : Type 0} → A × Caches W → Option (Caches W)
forget r = some r.1

unfoldable pub handle : {W : Type 0} → (ℕ → Bool) → Event → Caches W → Option (Caches W)
handle code (Event.load va size) s = cached_read code s va size >>= forget
handle code (Event.store va size val) s = cached_write code s va size val >>= forget
handle code Event.flush s = some (flush_all s)
handle code (Event.flush_va va) s = some (flush_page s va)
handle code (Event.processor c) s = some (record s { mmu = record s.mmu { cpu = c } })

unfoldable pub run : {W : Type 0} → (ℕ → Bool) → List Event → Caches W → Option (Caches W)
run code [] s = some s
run code (e ∷ es) s = handle code e s >>= run code es

handle-IsFresh :
    {W : Type 0} (code : ℕ → Bool) (e : Event) (s : Caches W)
    → IsFresh s
    → Always IsFresh (handle code e s)
unfolding handle
handle-IsFresh code (Event.load va size) s f =
    >>=-Always (cached_read code s va size) _ (cached_read-IsFresh code s va size f)
      (λ r g. Always.answered _ g)
handle-IsFresh code (Event.store va size val) s f =
    >>=-Always (cached_write code s va size val) _ (cached_write-IsFresh code s va size val f)
      (λ r g. Always.answered _ g)
handle-IsFresh code Event.flush s f = Always.answered _ (flush_all-misses s f).1
handle-IsFresh code (Event.flush_va va) s f = Always.answered _ (flush_page-IsFresh s va f)
handle-IsFresh code (Event.processor c) s f =
    Always.answered _ (moved s (record s.mmu { cpu = c }) refl f)

run-Always :
    {W : Type 0} (code : ℕ → Bool) (es : List Event) (s : Caches W)
    → IsFresh s
    → Always IsFresh (run code es s)
unfolding run
run-Always code [] s f = Always.answered _ f
run-Always code (e ∷ es) s f =
    >>=-Always (handle code e s) _ (handle-IsFresh code e s f) (λ s' g. run-Always code es s' g)

-- From a D-TLB whose tags are in order: they are so after any accesses,
-- flushes and changes of the processor that are defined; and then a full flush leaves no entry that
-- serves any access, and the flush of a page none that serves an access to that page.
pub run-IsFresh :
    {W : Type 0} (code : ℕ → Bool) (es : List Event) (s s' : Caches W)
    → IsFresh s
    → run code es s ≡ some s'
    → IsFresh s'
      × ((va : ℕ) (acc : Access) → dtlb_hit (flush_all s') va acc ≡ false)
      × ((va : ℕ) (acc : Access) → dtlb_hit (flush_page s' va) va acc ≡ false)
run-IsFresh code es s s' f done =
    let g = holds (run code es s) s' (run-Always code es s f) done in
    (g, (flush_all-misses s' g).0, λ va acc. flush_page-misses s' va va acc g refl)
