-- ===== src/Mmu/Walk.antt =====
-- src/mmu.c: the access permissions, and the walk of the translation tables (4 KB granule).
use arm64emu_system.Base.{ℕ, zero, suc, ◌+◌, ◌-◌, ◌*◌, ◌/◌, ◌%◌, ◌^◌, Bool, true, not, ◌&&◌, ◌||◌}
use arm64emu_system.Base.{
  Option, some, ◌>>=◌, ◌==◌, ltb, if◌then◌else◌, bit_and, has_bit, bits, align_down,
}
use arm64emu_system.Cpu.{Cpu}
use arm64emu_system.Memory.{Bus, BusStatus, phys_read}

-- ACC_READ, ACC_WRITE and ACC_EXEC.
pub data Access : Type 0 where
  read write exec : Access

-- FSC_TRANS_L0, FSC_ACCESS_L0, FSC_PERM_L3 and FSC_EXTERNAL.
abbrev pub fsc_trans_l0 : ℕ
fsc_trans_l0 = 0x04

abbrev pub fsc_access_l0 : ℕ
fsc_access_l0 = 0x08

abbrev pub fsc_perm_l3 : ℕ
fsc_perm_l3 = 0x0f

abbrev pub fsc_external : ℕ
fsc_external = 0x10

unfoldable pub perm_ok_el : Access → ℕ → Bool → Bool → Bool → Bool
perm_ok_el acc ap uxn pxn el0 =
    let k = ap % 2 ^ 2 in
    let can_read = if (k == 0) || (k == 2) then not el0 else true in
    let can_write = if k == 0 then not el0 else k == 1 in
    let can_exec = if el0 then not uxn else not pxn in
    elim acc [
      | Access.read ↦ can_read
      | Access.write ↦ can_write
      | Access.exec ↦ can_exec && can_read
    ]

-- What a walk finds: the page and the attributes of the leaf (`blk_shift` is 0 for a page), or a
-- fault status.
pub record Leaf : Type 0 where
  pub pa_page : ℕ
  pub ap : ℕ
  pub uxn : Bool
  pub pxn : Bool
  pub attridx : ℕ
  pub sh : ℕ
  pub blk_shift : ℕ

pub data Walked : Type 0 where
  fault : ℕ → Walked
  leaf : Leaf → Walked

-- The address field of a descriptor: bits 47 to 12.
abbrev pub address_field : ℕ → ℕ
address_field desc = bits desc 12 36 * 2 ^ 12

-- A leaf with its access flag clear is an access-flag fault.
unfoldable pub found : ℕ → ℕ → ℕ → ℕ → Walked
found desc level pa_page blk_shift =
    if has_bit desc 10
    then Walked.leaf (record {
      pa_page = pa_page;
      ap = bits desc 6 2;
      uxn = has_bit desc 54;
      pxn = has_bit desc 53;
      attridx = bits desc 2 3;
      sh = bits desc 8 2;
      blk_shift = blk_shift;
    })
    else Walked.fault (fsc_access_l0 + level)

-- What a descriptor says at a level: the walk ends, or goes on in a table.
pub data Step : Type 0 where
  done : Walked → Step
  next : ℕ → Step

-- The block's output address with the low bits of the virtual address, at a level above the last.
abbrev pub block_page : ℕ → ℕ → ℕ → ℕ
block_page desc va shift =
    align_down (address_field desc / 2 ^ shift * 2 ^ shift + va % 2 ^ shift) 12

unfoldable pub descriptor : ℕ → ℕ → ℕ → ℕ → Step
descriptor desc va level shift =
    if desc % 2 ^ 2 == 1
    then (if level == 3
        then Step.done (Walked.fault (fsc_trans_l0 + level))
        else Step.done (found desc level (block_page desc va shift) shift))
    else if desc % 2 ^ 2 == 3
    then (if level == 3
        then Step.done (found desc level (address_field desc) 0)
        else Step.next (address_field desc))
    else Step.done (Walked.fault (fsc_trans_l0 + level))

-- The levels `4 - left .. 3`, from a table on.
unfoldable pub walk_from : {W : Type 0} → Bus W → ℕ → ℕ → ℕ → Option (Walked × Bus W)
walk_from b va table zero = some (Walked.fault (fsc_trans_l0 + 3), b)
walk_from b va table (suc left) = phys_read b (table + bits va (12 + 9 * left) 9 * 8) 8 >>= λ r.
    elim r.1.last_bus_status [
      | BusStatus.bus_fault ↦ some (Walked.fault fsc_external, r.1)
      | BusStatus.bus_ok ↦ elim (descriptor r.0 va (3 - left) (12 + 9 * left)) [
        | Step.done w ↦ some (w, r.1)
        | Step.next table' ↦ walk_from r.1 va table' left
      ]
    ]

-- TxSZ, clamped to 16 .. 39.
abbrev pub clamped : ℕ → ℕ
clamped txsz = if ltb txsz 16 then 16 else if ltb 39 txsz then 39 else txsz

-- `walk`: the regime by bit 55, the range check, the starting level.
unfoldable pub walk : {W : Type 0} → Bus W → Cpu → ℕ → Option (Walked × Bus W)
walk b c va =
    let tcr = c.tcr 1 in
    let sel = has_bit va 55 in
    let tbi = if sel then has_bit tcr 38 else has_bit tcr 37 in
    let epd = if sel then has_bit tcr 23 else has_bit tcr 7 in
    let top = if tbi then 55 else 63 in
    let ttbr = if sel then c.ttbr1 1 else c.ttbr0 1 in
    let va_size = 64 - clamped (if sel then bits tcr 16 6 else bits tcr 0 6) in
    let chk = 2 ^ (top + 1) - 2 ^ va_size in
    if epd
    then some (Walked.fault fsc_trans_l0, b)
    else if not (bit_and va chk == (if sel then chk else 0))
    then some (Walked.fault fsc_trans_l0, b)
    else walk_from b va (address_field ttbr) ((va_size - 4) / 9)
