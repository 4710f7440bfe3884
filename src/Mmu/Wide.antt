-- ===== src/Mmu/Wide.antt =====
-- src/mmu.c: 128-bit accesses, instruction fetches, and the probes that never fault. As in the parent,
-- these take the path behind the host-pointer caches: a fetch that of `mem_ifetch_slow`, and a
-- 128-bit access its two halves. Dtlb/Fetch has them with the caches.
use arm64emu_system.Base.{
  ℕ, ◌+◌, ◌-◌, ◌*◌, ◌/◌, ◌%◌, ◌^◌, Bool, true, false, not, ◌&&◌, Option, none, some, ◌>>=◌, ◌==◌,
  beq, if◌then◌else◌, bit_or, has_bit, u32, u64, align_down,
}
use arm64emu_system.Cpu.Exception.{raise_sync, esr_make}
use arm64emu_system.Memory.{Bus, BusStatus, phys_read, in_window, inside, ld_le}
use arm64emu_system.Mmu.{Mmu, mmu_translate, mem_read, mem_write, abort, tlb_idx}
use arm64emu_system.Mmu.Walk.{Access, Walked, walk, fsc_external}

-- `mem_read128`: the two halves as one number.
unfoldable pub mem_read128 : {W : Type 0} → Mmu W → ℕ → Option (Option ℕ × Mmu W)
mem_read128 m va = mem_read m va 8 >>= λ lo. elim lo.0 [
  | none ↦ some (none, lo.1)
  | some l ↦ mem_read lo.1 (u64 (va + 8)) 8 >>= λ hi. elim hi.0 [
    | none ↦ some (none, hi.1)
    | some h ↦ some (some (l + h * 2 ^ 64), hi.1)
  ]
]

unfoldable pub mem_write128 : {W : Type 0} → Mmu W → ℕ → ℕ → Option (Bool × Mmu W)
mem_write128 m va val = mem_write m va 8 (val % 2 ^ 64) >>= λ lo. elim lo.0 [
  | false ↦ some (false, lo.1)
  | true ↦ mem_write lo.1 (u64 (va + 8)) 8 (val / 2 ^ 64)
]

-- The answer of a store in the form of a load: `none` is a fault that has been raised.
abbrev pub stored : {W : Type 0} → Option (Bool × Mmu W) → Option (Option (Unit {0}) × Mmu W)
stored none = none
stored (some (true, m)) = some (some tt, m)
stored (some (false, m)) = some (none, m)

-- `host_page_ptr` and the word at an offset in that page: the RAM or the raw flash array; the
-- outer `none` leaves the array, the inner one is a page that is not backed by memory.
unfoldable pub host_word : {W : Type 0} → Bus W → ℕ → ℕ → Option (Option ℕ)
host_word b page off =
    if in_window b.ram_base b.ram_size page 0x1000
    then (let i = page - b.ram_base + off in inside b.ram_size i 4 (some (ld_le b.ram i 4)))
    else if in_window b.flash_base b.flash_size page 0x1000
    then (let i = page - b.flash_base + off in
        inside b.flash_size i 4 (some (ld_le b.flash.cells i 4)))
    else some none

-- The fetch from a page that is not memory: through the bus.
unfoldable pub fetch_bus : {W : Type 0} → Mmu W → ℕ → ℕ → Option (Option ℕ × Mmu W)
fetch_bus m va pa = phys_read m.bus pa 4 >>= λ r.
    let m' = record m { bus = r.1 } in
    some (elim r.1.last_bus_status [
      | BusStatus.bus_ok ↦ (some (u32 r.0), m')
      | BusStatus.bus_fault ↦ abort m' va Access.exec fsc_external
    ])

-- `mem_ifetch_slow`: the instruction word, or a fault that has been raised.
unfoldable pub mem_ifetch : {W : Type 0} → Mmu W → ℕ → Option (Option ℕ × Mmu W)
mem_ifetch m va =
    if not (va % 2 ^ 2 == 0)
    then some (none, record m { cpu = raise_sync m.cpu (esr_make 0x22 0) va })
    else mmu_translate m va Access.exec >>= λ t. elim t.0 [
      | none ↦ some (none, t.1)
      | some pa ↦ host_word t.1.bus (align_down pa 12) (va % 2 ^ 12) >>= λ w. elim w [
        | some insn ↦ some (some insn, t.1)
        | none ↦ fetch_bus t.1 va pa
      ]
    ]

-- What `mem_peek` and `mmu_probe_pa` answer, with the bus after the walk.
unfoldable pub mem_peek : {W : Type 0} → Mmu W → ℕ → ℕ → Option (Option ℕ × Bus W)
mem_peek {W} m va size =
    let answer : ℕ × Bus W → Option ℕ × Bus W = λ r. (
      elim r.1.last_bus_status [ BusStatus.bus_ok ↦ some r.0 | BusStatus.bus_fault ↦ none ],
      r.1,
    ) in
    if not (has_bit (m.cpu.sctlr 1) 0)
    then (phys_read m.bus va size >>= λ r. some (answer r))
    else walk m.bus m.cpu va >>= λ w. elim w.0 [
      | Walked.fault fsc ↦ some (none, w.1)
      | Walked.leaf l ↦ phys_read w.1 (bit_or l.pa_page (va % 2 ^ 12)) size >>= λ r. some (answer r)
    ]

unfoldable pub mmu_probe_pa : {W : Type 0} → Mmu W → ℕ → Option (Option ℕ × Bus W)
mmu_probe_pa m va =
    let e = m.tlb (tlb_idx va) in
    if not (has_bit (m.cpu.sctlr 1) 0)
    then some (some va, m.bus)
    else if e.valid
        && ((e.gen == m.tlb_gen) && ((e.va_page == align_down va 12) && beq e.el0 (m.cpu.el == 0)))
    then some (some (bit_or e.pa_page (va % 2 ^ 12)), m.bus)
    else walk m.bus m.cpu va >>= λ w. elim w.0 [
      | Walked.fault fsc ↦ some (none, w.1)
      | Walked.leaf l ↦ some (some (bit_or l.pa_page (va % 2 ^ 12)), w.1)
    ]
