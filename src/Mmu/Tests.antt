-- ===== src/Mmu/Tests.antt =====
-- The theorems on the MMU at a machine with a two-level table that maps page 1 to 0x4000_5000.
use arm64emu_system.Base.{ℕ, ◌-◌, ◌^◌, ◌≡◌, refl, arith, false, [], some, none}
use mathlib.Core.Bool.{false≢true}
use arm64emu_system.Cpu.{cpu_reset}
use arm64emu_system.Memory.{Bus, BusStatus, phys_read, st_le, ld_le}
use arm64emu_system.Memory.Nor.{ready}
use arm64emu_system.Mmu.{
  Mmu, empty_entry, hits, tlb_flush_all, tlb_flush_page, mmu_translate, fill, filled, acc_el0,
  mem_read,
}
use arm64emu_system.Mmu.Walk.{Access, walk, walk_from, descriptor, found, perm_ok_el}
use arm64emu_system.Mmu.Tlb.{
  IsValid, tlb_flush_all-hits, tlb_flush_page-hits, mmu_translate-repeated,
}
use arm64emu_system.Mmu.Flat.{mem_read-none}
use arm64emu_system.Base.{Bool, true, if◌then◌else◌, List, ◌∷◌, ◌%◌, ◌==◌, sym, ◌∙◌}
use arm64emu_system.Mmu.{TlbEntry, tlb_flush_page, read_in_page}
use arm64emu_system.Mmu.Dtlb.{
  Caches, Host, zeroed, dtlb_hit, put, dtlb_fill, read_done, read_at, read_page, cached_read,
  flush_all, flush_page,
}
use arm64emu_system.Mmu.Dtlb.Flush.{IsFresh, grants-zeroed}
use arm64emu_system.Mmu.Dtlb.Runs.{Event, handle, run, run-IsFresh}
use arm64emu_system.Mmu.Dtlb.Backed.{IsPaged}
use arm64emu_system.Mmu.Dtlb.Agree.{fine, read_page-agrees}
use arm64emu_system.Mmu.Blocks.{widen_lem}
use arm64emu_system.Mmu.{widen}
use arm64emu_system.Base.{bit_and}

abbrev bus : Bus ℕ
bus = record {
  ram = st_le (st_le (λ _. 0) 0 8 0x4000_1003) 0x1008 8 0x4000_5403;
  ram_base = 0x4000_0000;
  ram_size = 0x1_0000;
  flash = record { cells = λ _. 0; banks = λ _. ready };
  flash_base = 0;
  flash_size = 0x0800_0000;
  devices = [];
  last_bus_status = BusStatus.bus_ok;
  world = 0;
}

-- TxSZ 39, tables at the start of the RAM, MMU on.
abbrev mapped : Mmu ℕ
mapped = record {
  cpu = record (cpu_reset 0 1) { sctlr = λ _. 1; tcr = λ _. 39; ttbr0 = λ _. 0x4000_0000 };
  bus = bus;
  tlb = λ _. empty_entry;
  tlb_gen = 1;
  lp_base = 2 ^ 64 - 1;
  lp_mask = 2 ^ 64 - 1;
}

mapped-IsValid : IsValid mapped
mapped-IsValid = record { word = omega arith; past = λ i h. absurd (false≢true h) }

tlb_flush_all-hits_example :
    (hits (tlb_flush_all mapped) 0x1234 Access.read ≡ false) × IsValid (tlb_flush_all mapped)
tlb_flush_all-hits_example = tlb_flush_all-hits mapped 0x1234 Access.read mapped-IsValid

tlb_flush_page-hits_example :
    hits (tlb_flush_page mapped 0x1000) 0xff00_0000_0000_1234 Access.read ≡ false
tlb_flush_page-hits_example =
    tlb_flush_page-hits mapped 0x1000 0xff00_0000_0000_1234 Access.read mapped-IsValid (omega arith)

abbrev after : Mmu ℕ
after = elim (mmu_translate mapped 0x1234 Access.read) [ none ↦ mapped | some r ↦ r.1 ]

translated : mmu_translate mapped 0x1234 Access.read ≡ some (some 0x4000_5234, after)
unfolding mmu_translate hits walk walk_from descriptor found perm_ok_el phys_read st_le ld_le fill
    filled acc_el0 cpu_reset
translated = refl

mmu_translate-repeated_example :
    mmu_translate after 0x1234 Access.read ≡ some (some 0x4000_5234, after)
mmu_translate-repeated_example =
    mmu_translate-repeated mapped after 0x1234 Access.read 0x4000_5234 refl translated

abbrev flat : Mmu ℕ
flat = record mapped { cpu = record mapped.cpu { sctlr = λ _. 0 } }

mem_read-none_example : mem_read flat 0xffff_ffff_ffff_fff9 8 ≡ none
mem_read-none_example =
    mem_read-none flat 0xffff_ffff_ffff_fff9 8 refl (omega arith) (omega arith) (omega arith)
      (omega arith) (omega arith)

widen_lem_example :
    bit_and 0x20_0000 (widen 0x20_0000 0x60_0000 64 (2 ^ 56 - 2 ^ 21))
    ≡ bit_and 0x60_0000 (widen 0x20_0000 0x60_0000 64 (2 ^ 56 - 2 ^ 21))
widen_lem_example = widen_lem 0x20_0000 0x60_0000 (2 ^ 56 - 2 ^ 21) (omega arith)

-- The D-TLB is empty, and no page holds translated code.
abbrev caches : Caches ℕ
caches = record {
  mmu = mapped;
  dtlb = λ _. zeroed;
  fcache = λ _. record { page = 0; pa_page = 0; host = Host.nowhere; mmu = false };
}

abbrev no_code : ℕ → Bool
no_code _ = false

caches-IsFresh : IsFresh caches
caches-IsFresh = record {
  word = omega arith;
  past = λ i acc h. absurd (false≢true (sym (grants-zeroed acc) ∙ h));
}

abbrev visited : Caches ℕ
visited = elim (read_page no_code caches 0x1234 4) [ none ↦ caches | some r ↦ r.1 ]

loaded_lem : read_page no_code caches 0x1234 4 ≡ some (some 0, visited)
unfolding read_page read_at read_done dtlb_hit dtlb_fill put mmu_translate hits walk walk_from
    descriptor found perm_ok_el phys_read st_le ld_le fill filled acc_el0 cpu_reset
loaded_lem = refl

one_entry :
    (b : Bool) (e : TlbEntry)
    → e.pa_page % 2 ^ 12 ≡ 0
    → (if b then e else empty_entry).pa_page % 2 ^ 12 ≡ 0
one_entry true e h = h
one_entry false e h = refl

visited-IsPaged : IsPaged visited.mmu
unfolding read_page read_at read_done dtlb_hit dtlb_fill put mmu_translate hits walk walk_from
    descriptor found perm_ok_el phys_read st_le ld_le fill filled acc_el0 cpu_reset
visited-IsPaged = record {
  base = refl;
  size = refl;
  small = omega arith;
  leaves = λ i. one_entry (i == 1) _ refl;
}

visited-hit : dtlb_hit visited 0x1ff8 Access.read ≡ true
unfolding read_page read_at read_done dtlb_hit dtlb_fill put mmu_translate hits walk walk_from
    descriptor found perm_ok_el phys_read st_le ld_le fill filled acc_el0 cpu_reset
visited-hit = refl

read_page-agrees_example :
    (v' : ℕ) × (read_page no_code visited 0x1ff8 8 ≡ some (some v', visited))
    × (read_in_page visited.mmu 0x1ff8 8 ≡ some (some v', fine visited.mmu))
unfolding acc_el0 cpu_reset
read_page-agrees_example =
    read_page-agrees no_code caches visited 0x1234 0x1ff8 4 8 0 refl loaded_lem visited-IsPaged refl
      (omega arith) visited-hit

-- A load, a flush of another page, and a change to EL0.
abbrev session : List Event
session = Event.load 0x1234 4 ∷ Event.flush_va 0x5000 ∷ Event.processor (cpu_reset 0 0) ∷ []

abbrev ended : Caches ℕ
ended = elim (run no_code session caches) [ none ↦ caches | some s ↦ s ]

session_runs : run no_code session caches ≡ some ended
unfolding run handle cached_read flush_page tlb_flush_page read_page read_at read_done dtlb_hit
    dtlb_fill put mmu_translate hits walk walk_from descriptor found perm_ok_el phys_read st_le
    ld_le fill filled acc_el0 cpu_reset
session_runs = refl

run-IsFresh_example :
    IsFresh ended
    × ((va : ℕ) (acc : Access) → dtlb_hit (flush_all ended) va acc ≡ false)
    × ((va : ℕ) (acc : Access) → dtlb_hit (flush_page ended va) va acc ≡ false)
run-IsFresh_example = run-IsFresh no_code session caches ended caches-IsFresh session_runs
