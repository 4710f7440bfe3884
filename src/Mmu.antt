-- ===== src/Mmu.antt =====
-- src/mmu.c: stage-1 translation with a software TLB. Every data access here takes the path behind the
-- host-pointer caches; Dtlb has the D-TLB and the fetch cache. The JIT's hooks are left out.
pub mod Walk
pub mod Tlb
pub mod Flat
pub mod Blocks
pub mod Wide
pub mod Precise
pub mod Dtlb
mod Tests
use arm64emu_system.Base.{
  ℕ, zero, suc, ◌+◌, ◌-◌, ◌*◌, ◌/◌, ◌%◌, ◌^◌, Bool, true, false, not, ◌&&◌, ◌||◌,
}
use arm64emu_system.Base.{
  Option, none, some, ◌>>=◌, ◌==◌, beq, ltb, if◌then◌else◌, bit_and, bit_or, has_bit, u64, update,
  align_down, bits,
}
use arm64emu_system.Cpu.{Cpu}
use arm64emu_system.Cpu.Exception.{raise_sync, esr_make, iss_dabort}
use arm64emu_system.Memory.{Bus, BusStatus, phys_read, phys_write}
use arm64emu_system.Mmu.Walk.{Access, Leaf, Walked, perm_ok_el, walk, fsc_perm_l3, fsc_external}

-- TLB_ENTRIES.
abbrev pub tlb_entries : ℕ
tlb_entries = 4096

pub record TlbEntry : Type 0 where
  pub va_page : ℕ
  pub pa_page : ℕ
  pub gen : ℕ
  pub valid : Bool
  pub ap : ℕ
  pub uxn : Bool
  pub pxn : Bool
  pub el0 : Bool

-- The CPU, the bus, the TLB, its generation, and the range of block mappings in it.
pub record Mmu (W : Type 0) : Type 0 where
  pub cpu : Cpu
  pub bus : Bus W
  pub tlb : ℕ → TlbEntry
  pub tlb_gen : ℕ
  pub lp_base : ℕ
  pub lp_mask : ℕ

abbrev pub tlb_idx : ℕ → ℕ
tlb_idx va = va / 2 ^ 12 % tlb_entries

-- VA_NOTAG.
abbrev pub va_notag : ℕ → ℕ
va_notag va = va % 2 ^ 56

-- The loop of `lp_record`: the mask is widened until both bases agree. After 64 shifts it is 0.
unfoldable pub widen : ℕ → ℕ → ℕ → ℕ → ℕ
widen base base' zero m = m
widen base base' (suc fuel) m = elim (bit_and base m == bit_and base' m) [
  | true ↦ m
  | false ↦ widen base base' fuel (u64 (m * 2))
]

-- `lp_record` on `(lp_base, lp_mask)`.
unfoldable pub lp_record : ℕ × ℕ → ℕ → ℕ → ℕ × ℕ
lp_record (base, mask) va blk_shift =
    let bmask = 2 ^ 56 - 2 ^ blk_shift in
    let bbase = bit_and (va_notag va) bmask in
    let wide = widen base bbase 64 (bit_and mask bmask) in
    if base == 2 ^ 64 - 1 then (bbase, bmask) else (bit_and base wide, wide)

abbrev pub empty_entry : TlbEntry
empty_entry = record {
  va_page = 0;
  pa_page = 0;
  gen = 0;
  valid = false;
  ap = 0;
  uxn = false;
  pxn = false;
  el0 = false;
}

-- `tlb_flush_all`: the generation moves on; when it wraps, the entries are cleared.
unfoldable pub tlb_flush_all : {W : Type 0} → Mmu W → Mmu W
tlb_flush_all m =
    let g = (m.tlb_gen + 1) % 2 ^ 32 in
    record m {
      tlb_gen = if g == 0 then 1 else g;
      tlb = if g == 0 then (λ _. empty_entry) else m.tlb;
      lp_base = 2 ^ 64 - 1;
      lp_mask = 2 ^ 64 - 1;
    }

unfoldable pub tlb_flush_page : {W : Type 0} → Mmu W → ℕ → Mmu W
tlb_flush_page m va =
    let i = tlb_idx va in
    if bit_and (va_notag va) m.lp_mask == m.lp_base
    then tlb_flush_all m
    else record m { tlb = update m.tlb i (record (m.tlb i) { valid = false }) }

-- `raise_abort`.
unfoldable pub raise_abort : Cpu → ℕ → Access → ℕ → Cpu
raise_abort c va acc fsc =
    let same = not (c.el == 0) in
    elim acc [
      | Access.exec ↦ raise_sync c (esr_make (if same then 0x21 else 0x20) (fsc % 2 ^ 6)) va
      | Access.read ↦
          raise_sync c (esr_make (if same then 0x25 else 0x24) (iss_dabort false fsc)) va
      | Access.write ↦
          raise_sync c (esr_make (if same then 0x25 else 0x24) (iss_dabort true fsc)) va
    ]

unfoldable pub acc_el0 : Cpu → Bool
acc_el0 c = (c.el == 0) || c.ldst_unpriv

-- The TLB entry of an address is current and allows the access.
unfoldable pub hits : {W : Type 0} → Mmu W → ℕ → Access → Bool
hits m va acc =
    let e = m.tlb (tlb_idx va) in
    let el0' = acc_el0 m.cpu in
    e.valid
    && ((e.gen == m.tlb_gen)
        && ((e.va_page == align_down va 12)
            && (beq e.el0 el0' && perm_ok_el acc e.ap e.uxn e.pxn el0')))

-- What a fresh walk leaves in the entry.
abbrev pub entry_of : ℕ → ℕ → Bool → Leaf → TlbEntry
entry_of gen va el0' l = record {
  va_page = align_down va 12;
  pa_page = l.pa_page;
  gen = gen;
  valid = true;
  ap = l.ap;
  uxn = l.uxn;
  pxn = l.pxn;
  el0 = el0';
}

-- The answer of a translation: the physical address, or a fault that has been raised.
abbrev pub abort : {W : Type 0} → Mmu W → ℕ → Access → ℕ → Option ℕ × Mmu W
abort m va acc fsc = (none, record m { cpu = raise_abort m.cpu va acc fsc })

-- The entry of `va` filled with a leaf, and a block recorded.
unfoldable pub filled : {W : Type 0} → Mmu W → ℕ → Leaf → Mmu W
filled m va l =
    let range : ℕ × ℕ = (m.lp_base, m.lp_mask) in
    let (lp_base', lp_mask') = if l.blk_shift == 0 then range else lp_record range va l.blk_shift in
    record m {
      lp_base = lp_base';
      lp_mask = lp_mask';
      tlb = update m.tlb (tlb_idx va) (entry_of m.tlb_gen va (acc_el0 m.cpu) l);
    }

-- After a walk: a fault, or the entry is filled and then checked.
unfoldable pub fill : {W : Type 0} → Mmu W → ℕ → Access → Walked → Option ℕ × Mmu W
fill m va acc (Walked.fault fsc) = abort m va acc fsc
fill m va acc (Walked.leaf l) =
    if perm_ok_el acc l.ap l.uxn l.pxn (acc_el0 m.cpu)
    then (some (bit_or l.pa_page (va % 2 ^ 12)), filled m va l)
    else abort (filled m va l) va acc fsc_perm_l3

-- `mmu_translate`; `none` outside is a walk that leaves the memory arrays.
unfoldable pub mmu_translate : {W : Type 0} → Mmu W → ℕ → Access → Option (Option ℕ × Mmu W)
mmu_translate m va acc =
    if not (has_bit (m.cpu.sctlr 1) 0)
    then some (some va, m)
    else if hits m va acc
    then some (some (bit_or (m.tlb (tlb_idx va)).pa_page (va % 2 ^ 12)), m)
    else walk m.bus m.cpu va >>= λ r. some (fill (record m { bus = r.1 }) va acc r.0)

-- `mmu_at_s1`: the value for PAR_EL1.
unfoldable pub mmu_at_s1 : {W : Type 0} → Mmu W → ℕ → Bool → Bool → Option (ℕ × Mmu W)
mmu_at_s1 m va is_write as_el0 =
    let fault = λ (fsc : ℕ). bit_or (bit_or 1 (fsc % 2 ^ 6 * 2)) (2 ^ 11) in
    if not (has_bit (m.cpu.sctlr 1) 0)
    then some (bit_or (bits va 12 36 * 2 ^ 12) (2 ^ 9), m)
    else walk m.bus m.cpu va >>= λ r. elim r.0 [
      | Walked.fault fsc ↦ some (fault fsc, record m { bus = r.1 })
      | Walked.leaf l ↦ some (
        (if perm_ok_el (if is_write then Access.write else Access.read) l.ap l.uxn l.pxn as_el0
            then bit_or (bit_or (bit_or (bits l.pa_page 12 36 * 2 ^ 12) (l.sh * 2 ^ 7)) (2 ^ 9))
                (m.cpu.mair 1 / 2 ^ (l.attridx * 8) % 2 ^ 8 * 2 ^ 56)
            else fault fsc_perm_l3),
        record m { bus = r.1 },
      )
    ]

-- The part of `mem_read` and `mem_write` behind the D-TLB, for an access that stays in its page or
-- runs with the MMU off: the value read, or a fault that has been raised.
unfoldable pub read_in_page : {W : Type 0} → Mmu W → ℕ → ℕ → Option (Option ℕ × Mmu W)
read_in_page m va size = mmu_translate m va Access.read >>= λ t. elim t.0 [
  | none ↦ some (none, t.1)
  | some pa ↦ phys_read t.1.bus pa size >>= λ r.
      let m' = record t.1 { bus = r.1 } in
      some (elim r.1.last_bus_status [
        | BusStatus.bus_ok ↦ (some r.0, m')
        | BusStatus.bus_fault ↦ abort m' va Access.read fsc_external
      ])
]

unfoldable pub write_in_page : {W : Type 0} → Mmu W → ℕ → ℕ → ℕ → Option (Bool × Mmu W)
write_in_page m va size val = mmu_translate m va Access.write >>= λ t. elim t.0 [
  | none ↦ some (false, t.1)
  | some pa ↦ phys_write t.1.bus pa size val >>= λ b.
      let m' = record t.1 { bus = b } in
      some (elim b.last_bus_status [
        | BusStatus.bus_ok ↦ (true, m')
        | BusStatus.bus_fault ↦ (false, (abort m' va Access.write fsc_external).1)
      ])
]

-- An access that spans two pages, with the MMU on.
abbrev pub spans : {W : Type 0} → Mmu W → ℕ → ℕ → Bool
spans m va size = has_bit (m.cpu.sctlr 1) 0 && ltb 0x1000 (va % 2 ^ 12 + size)

unfoldable pub mem_read : {W : Type 0} → Mmu W → ℕ → ℕ → Option (Option ℕ × Mmu W)
mem_read m va size =
    let first = 0x1000 - va % 2 ^ 12 in
    if spans m va size
    then (read_in_page m va first >>= λ lo. elim lo.0 [
      | none ↦ some (none, lo.1)
      | some l ↦ read_in_page lo.1 (u64 (va + first)) (size - first) >>= λ hi. elim hi.0 [
        | none ↦ some (none, hi.1)
        | some h ↦ some (some (bit_or l (u64 (h * 2 ^ (first * 8)))), hi.1)
      ]
    ])
    else read_in_page m va size

unfoldable pub mem_write : {W : Type 0} → Mmu W → ℕ → ℕ → ℕ → Option (Bool × Mmu W)
mem_write m va size val =
    let first = 0x1000 - va % 2 ^ 12 in
    if spans m va size
    then (write_in_page m va first val >>= λ lo. elim lo.0 [
      | false ↦ some (false, lo.1)
      | true ↦ write_in_page lo.1 (u64 (va + first)) (size - first) (val / 2 ^ (first * 8))
    ])
    else write_in_page m va size val
