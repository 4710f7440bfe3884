-- ===== src/Mmu/Dtlb.antt =====
-- src/mmu.c and src/mmu.h: the D-TLB, a direct-mapped cache of pages of RAM in front of the TLB. The
-- host pointer in an entry is the offset of its page in the RAM. `code` is the JIT's bitmap of pages
-- that hold translated code (all false without a JIT); a store to such a page also drops its
-- translations, which are not part of the state. Dtlb/Fetch has the fetch cache and the accesses of
-- 16 bytes.
pub mod Fetch
pub mod Flush
pub mod Fresh
pub mod Runs
pub mod Backed
pub mod Agree
use arm64emu_system.Base.{
  ℕ, ◌+◌, ◌-◌, ◌*◌, ◌/◌, ◌%◌, ◌^◌, Bool, true, false, not, ◌&&◌, ◌||◌, Option, none, some, ◌>>=◌,
  ◌==◌, beq, ltb, leb, if◌then◌else◌, bit_and, bit_or, has_bit, u64, update, align_down, from_bool,
}
use arm64emu_system.Cpu.{Cpu}
use arm64emu_system.Memory.{Bus, BusStatus, phys_read, phys_write, ld_le, st_le, inside}
use arm64emu_system.Mmu.{
  Mmu, tlb_idx, va_notag, acc_el0, mmu_translate, abort, spans, tlb_flush_all, tlb_flush_page,
}
use arm64emu_system.Mmu.Walk.{Access, perm_ok_el, fsc_external}

-- `DTlbEnt`: the tag, and the page with its two permissions.
pub record DtlbEnt : Type 0 where
  pub tag : ℕ
  pub host : ℕ
  pub r : Bool
  pub w : Bool

-- The host pointer of a page that instructions are fetched from: an offset in the RAM or the flash.
pub data Host : Type 0 where
  nowhere : Host
  ram_page flash_page : ℕ → Host

pub record FetchCache : Type 0 where
  pub page : ℕ
  pub pa_page : ℕ
  pub host : Host
  pub mmu : Bool

-- The MMU, `g_dtlb`, and `g_fcache` by whether the level is EL0.
pub record Caches (W : Type 0) : Type 0 where
  pub mmu : Mmu W
  pub dtlb : ℕ → DtlbEnt
  pub fcache : Bool → FetchCache

-- Both fetch caches lose their pages.
abbrev pub dropped : (Bool → FetchCache) → Bool → FetchCache
dropped f el0' = record (f el0') { host = Host.nowhere }

-- What `memset` leaves: no permission, so the entry cannot serve an access.
abbrev pub zeroed : DtlbEnt
zeroed = record { tag = 0; host = 0; r = false; w = false }

-- The slot of `dtlb_ent`.
abbrev pub dtlb_idx : ℕ → ℕ
dtlb_idx va = va / 2 ^ 12 % 2 ^ 12

-- `dtlb_tag`: the page, ten bits of the generation, SCTLR.M and the privilege of the access.
abbrev pub dtlb_tag : {W : Type 0} → Mmu W → ℕ → ℕ
dtlb_tag m va =
    align_down va 12
    + m.tlb_gen % 2 ^ 10 * 2 ^ 2
    + from_bool (has_bit (m.cpu.sctlr 1) 0) * 2
    + from_bool (acc_el0 m.cpu)

abbrev pub grants : DtlbEnt → Access → Bool
grants e Access.read = e.r
grants e Access.write = e.w
grants e Access.exec = false

-- The probe of `mem_read` and `mem_write`.
unfoldable pub dtlb_hit : {W : Type 0} → Caches W → ℕ → Access → Bool
dtlb_hit s va acc = let e = s.dtlb (dtlb_idx va) in (e.tag == dtlb_tag s.mmu va) && grants e acc

-- `dtlb_fill`: only for a page of RAM, and with the MMU on only what the TLB entry allows.
unfoldable pub put : {W : Type 0} → (ℕ → Bool) → Caches W → ℕ → ℕ → Bool → Bool → Caches W
put code s va host r w = record s {
  dtlb =
      update s.dtlb (dtlb_idx va) (record {
        tag = dtlb_tag s.mmu va;
        host = host;
        r = r;
        w = w && not (code (host / 2 ^ 12));
      });
}

unfoldable pub dtlb_fill : {W : Type 0} → (ℕ → Bool) → Caches W → ℕ → ℕ → Caches W
dtlb_fill code s va pa =
    let m = s.mmu in
    let pa_page = align_down pa 12 in
    let host = pa_page - m.bus.ram_base in
    let t = m.tlb (tlb_idx va) in
    let el0' = acc_el0 m.cpu in
    if ltb pa_page m.bus.ram_base || leb m.bus.ram_size host
    then s
    else if not (has_bit (m.cpu.sctlr 1) 0)
    then put code s va host true true
    else if not (t.va_page == align_down va 12) || not (beq t.el0 el0')
    then s
    else put code s va host (perm_ok_el Access.read t.ap t.uxn t.pxn el0')
        (perm_ok_el Access.write t.ap t.uxn t.pxn el0')

-- The slow path of both accesses after the translation: the entry is filled when the bus has
-- answered.
unfoldable pub read_done :
    {W : Type 0} → (ℕ → Bool) → Caches W → ℕ → ℕ → Mmu W → ℕ → BusStatus → Option ℕ × Caches W
read_done code s va pa m v BusStatus.bus_ok = (some v, dtlb_fill code (record s { mmu = m }) va pa)
read_done code s va pa m v BusStatus.bus_fault =
    (none, record s { mmu = (abort m va Access.read fsc_external).1 })

unfoldable pub read_at :
    {W : Type 0} → (ℕ → Bool) → Caches W → ℕ → ℕ → Option ℕ × Mmu W → Option (Option ℕ × Caches W)
read_at code s va size (none, m) = some (none, record s { mmu = m })
read_at code s va size (some pa, m) = phys_read m.bus pa size >>= λ b.
    some (read_done code s va pa (record m { bus = b.1 }) b.0 b.1.last_bus_status)

unfoldable pub write_done :
    {W : Type 0} → (ℕ → Bool) → Caches W → ℕ → ℕ → Mmu W → BusStatus → Bool × Caches W
write_done code s va pa m BusStatus.bus_ok = (true, dtlb_fill code (record s { mmu = m }) va pa)
write_done code s va pa m BusStatus.bus_fault =
    (false, record s { mmu = (abort m va Access.write fsc_external).1 })

unfoldable pub write_at :
    {W : Type 0} → (ℕ → Bool) → Caches W → ℕ → ℕ → ℕ → Option ℕ × Mmu W → Option (Bool × Caches W)
write_at code s va size val (none, m) = some (false, record s { mmu = m })
write_at code s va size val (some pa, m) = phys_write m.bus pa size val >>= λ b.
    some (write_done code s va pa (record m { bus = b }) b.last_bus_status)

-- A load inside one page: from the RAM at a hit.
unfoldable pub read_page :
    {W : Type 0} → (ℕ → Bool) → Caches W → ℕ → ℕ → Option (Option ℕ × Caches W)
read_page code s va size =
    let i = (s.dtlb (dtlb_idx va)).host + va % 2 ^ 12 in
    if leb (va % 2 ^ 12 + size) 0x1000 && dtlb_hit s va Access.read
    then inside s.mmu.bus.ram_size i size (some (ld_le s.mmu.bus.ram i size), s)
    else mmu_translate s.mmu va Access.read >>= read_at code s va size

unfoldable pub write_page :
    {W : Type 0} → (ℕ → Bool) → Caches W → ℕ → ℕ → ℕ → Option (Bool × Caches W)
write_page code s va size val =
    let i = (s.dtlb (dtlb_idx va)).host + va % 2 ^ 12 in
    let ram = st_le s.mmu.bus.ram i size val in
    if leb (va % 2 ^ 12 + size) 0x1000 && dtlb_hit s va Access.write
    then inside s.mmu.bus.ram_size i size
        (true, record s { mmu = record s.mmu { bus = record s.mmu.bus { ram = ram } } })
    else mmu_translate s.mmu va Access.write >>= write_at code s va size val

-- The second half of an access that spans two pages; `first` bytes were in the first.
abbrev pub joined : ℕ → ℕ → Option ℕ → Option ℕ
joined first lo none = none
joined first lo (some hi) = some (bit_or lo (u64 (hi * 2 ^ (first * 8))))

unfoldable pub read_rest :
    {W : Type 0} → (ℕ → Bool) → ℕ → ℕ → ℕ → Option ℕ × Caches W → Option (Option ℕ × Caches W)
read_rest code va size first (none, s) = some (none, s)
read_rest code va size first (some lo, s) =
    read_page code s (u64 (va + first)) (size - first) >>= λ hi. some (joined first lo hi.0, hi.1)

unfoldable pub write_rest :
    {W : Type 0} → (ℕ → Bool) → ℕ → ℕ → ℕ → ℕ → Bool × Caches W → Option (Bool × Caches W)
write_rest code va size val first (false, s) = some (false, s)
write_rest code va size val first (true, s) =
    write_page code s (u64 (va + first)) (size - first) (val / 2 ^ (first * 8))

-- `mem_read` and `mem_write`.
unfoldable pub cached_read :
    {W : Type 0} → (ℕ → Bool) → Caches W → ℕ → ℕ → Option (Option ℕ × Caches W)
cached_read code s va size =
    let first = 0x1000 - va % 2 ^ 12 in
    if spans s.mmu va size
    then read_page code s va first >>= read_rest code va size first
    else read_page code s va size

unfoldable pub cached_write :
    {W : Type 0} → (ℕ → Bool) → Caches W → ℕ → ℕ → ℕ → Option (Bool × Caches W)
cached_write code s va size val =
    let first = 0x1000 - va % 2 ^ 12 in
    if spans s.mmu va size
    then write_page code s va first val >>= write_rest code va size val first
    else write_page code s va size val

-- `tlb_flush_all`: the tags hold only ten bits of the generation, so the D-TLB is cleared when
-- those wrap. `tlb_flush_page` clears the slot.
unfoldable pub flush_all : {W : Type 0} → Caches W → Caches W
flush_all s = record {
  mmu = tlb_flush_all s.mmu;
  dtlb = if (s.mmu.tlb_gen + 1) % 2 ^ 32 % 2 ^ 10 == 0 then (λ _. zeroed) else s.dtlb;
  fcache = dropped s.fcache;
}

unfoldable pub flush_page : {W : Type 0} → Caches W → ℕ → Caches W
flush_page s va =
    if bit_and (va_notag va) s.mmu.lp_mask == s.mmu.lp_base then flush_all s else record {
      mmu = tlb_flush_page s.mmu va;
      dtlb = update s.dtlb (dtlb_idx va) zeroed;
      fcache = dropped s.fcache;
    }
