-- ===== src/Mmu/Dtlb/Fetch.antt =====
-- src/mmu.c and src/mmu.h: the accesses of 16 bytes through the D-TLB, and the instruction fetch
-- through its cache of host pages; the word itself is read from memory each time.
use arm64emu_system.Base.{
  ℕ, ◌+◌, ◌-◌, ◌*◌, ◌/◌, ◌%◌, ◌^◌, Bool, true, false, not, ◌&&◌, Option, none, some, ◌>>=◌, ◌==◌,
  beq, leb, if◌then◌else◌, has_bit, u64, align_down,
}
use arm64emu_system.Cpu.Exception.{raise_sync, esr_make}
use arm64emu_system.Memory.{Bus, ld_le, st_le, in_window, inside}
use arm64emu_system.Mmu.{Mmu, mmu_translate}
use arm64emu_system.Mmu.Walk.{Access}
use arm64emu_system.Mmu.Wide.{fetch_bus}
use arm64emu_system.Mmu.Dtlb.{Caches, Host, dtlb_idx, dtlb_hit, cached_read, cached_write}

-- The second half of `mem_read128` and `mem_write128`.
unfoldable pub read_high :
    {W : Type 0} → (ℕ → Bool) → ℕ → Option ℕ × Caches W → Option (Option ℕ × Caches W)
read_high code va (none, s) = some (none, s)
read_high code va (some lo, s) = cached_read code s (u64 (va + 8)) 8 >>= λ hi.
    some (elim hi.0 [ none ↦ none | some h ↦ some (lo + h * 2 ^ 64) ], hi.1)

unfoldable pub write_high :
    {W : Type 0} → (ℕ → Bool) → ℕ → ℕ → Bool × Caches W → Option (Bool × Caches W)
write_high code va val (false, s) = some (false, s)
write_high code va val (true, s) = cached_write code s (u64 (va + 8)) 8 (val / 2 ^ 64)

unfoldable pub cached_read128 :
    {W : Type 0} → (ℕ → Bool) → Caches W → ℕ → Option (Option ℕ × Caches W)
cached_read128 code s va =
    let i = (s.dtlb (dtlb_idx va)).host + va % 2 ^ 12 in
    if leb (va % 2 ^ 12) 0xff0 && dtlb_hit s va Access.read
    then inside s.mmu.bus.ram_size i 16 (some (ld_le s.mmu.bus.ram i 16), s)
    else cached_read code s va 8 >>= read_high code va

unfoldable pub cached_write128 :
    {W : Type 0} → (ℕ → Bool) → Caches W → ℕ → ℕ → Option (Bool × Caches W)
cached_write128 code s va val =
    let i = (s.dtlb (dtlb_idx va)).host + va % 2 ^ 12 in
    let ram = st_le s.mmu.bus.ram i 16 val in
    if leb (va % 2 ^ 12) 0xff0 && dtlb_hit s va Access.write
    then inside s.mmu.bus.ram_size i 16
        (true, record s { mmu = record s.mmu { bus = record s.mmu.bus { ram = ram } } })
    else cached_write code s va 8 (val % 2 ^ 64) >>= write_high code va val

unfoldable pub host_page_ptr : {W : Type 0} → Bus W → ℕ → Host
host_page_ptr b pa_page =
    if in_window b.ram_base b.ram_size pa_page 0x1000
    then Host.ram_page (pa_page - b.ram_base)
    else if in_window b.flash_base b.flash_size pa_page 0x1000
    then Host.flash_page (pa_page - b.flash_base)
    else Host.nowhere

-- The word at an offset in a host page; `nowhere` is a null pointer.
unfoldable pub host_read : {W : Type 0} → Bus W → Host → ℕ → Option ℕ
host_read b Host.nowhere off = none
host_read b (Host.ram_page p) off = inside b.ram_size (p + off) 4 (ld_le b.ram (p + off) 4)
host_read b (Host.flash_page p) off =
    inside b.flash_size (p + off) 4 (ld_le b.flash.cells (p + off) 4)

abbrev pub backed : Host → Bool
backed Host.nowhere = false
backed (Host.ram_page p) = true
backed (Host.flash_page p) = true

-- The cache of the level, filled with a page.
abbrev pub remembered : {W : Type 0} → Caches W → ℕ → ℕ → Host → Caches W
remembered s va pa host = record s {
  fcache = λ el0'.
      if beq el0' (s.mmu.cpu.el == 0)
      then record {
        page = align_down va 12;
        pa_page = align_down pa 12;
        host = host;
        mmu = has_bit (s.mmu.cpu.sctlr 1) 0;
      }
      else s.fcache el0';
}

-- `mem_ifetch_slow` after the alignment check and the translation.
unfoldable pub fetch_at :
    {W : Type 0} → Caches W → ℕ → Option ℕ × Mmu W → Option (Option ℕ × Caches W)
fetch_at s va (none, m) = some (none, record s { mmu = m })
fetch_at s va (some pa, m) =
    let host = host_page_ptr m.bus (align_down pa 12) in
    if backed host
    then (host_read m.bus host (va % 2 ^ 12) >>= λ word.
        some (some word, remembered (record s { mmu = m }) va pa host))
    else fetch_bus m va pa >>= λ r. some (r.0, record s { mmu = r.1 })

unfoldable pub ifetch_slow : {W : Type 0} → Caches W → ℕ → Option (Option ℕ × Caches W)
ifetch_slow s va =
    if not (va % 4 == 0)
    then some
        (none, record s { mmu = record s.mmu { cpu = raise_sync s.mmu.cpu (esr_make 0x22 0) va } })
    else mmu_translate s.mmu va Access.exec >>= fetch_at s va

-- `mem_ifetch`.
unfoldable pub cached_ifetch : {W : Type 0} → Caches W → ℕ → Option (Option ℕ × Caches W)
cached_ifetch s va =
    let f = s.fcache (s.mmu.cpu.el == 0) in
    if backed f.host
      && ((f.page == align_down va 12)
          && ((va % 4 == 0) && beq f.mmu (has_bit (s.mmu.cpu.sctlr 1) 0)))
    then (host_read s.mmu.bus f.host (va % 2 ^ 12) >>= λ word. some (some word, s))
    else ifetch_slow s va
