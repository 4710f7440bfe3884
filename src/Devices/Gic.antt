-- ===== src/Devices/Gic.antt =====
-- src/devices/gicv2.c: the GICv2 distributor and CPU interface of a single CPU.
-- `g->cpu->irq_line`, which only this file writes, is the field `irq_line` here. The trace output
-- of `g_dbg` is left out. An array access out of range, undefined in C, is `none`.
pub mod Best
pub mod Line
pub mod Access
pub mod Service
pub mod Runs
mod Tests
use arm64emu_system.Base.{ℕ, zero, suc, ◌+◌, ◌-◌, ◌*◌, ◌/◌, ◌%◌, ◌^◌, bit_or}
use arm64emu_system.Base.{
  Bool, true, false, not, ◌&&◌, ◌||◌, Option, none, some, ◌>>=◌, List, [], ◌∷◌,
}
use arm64emu_system.Base.{ltb, leb, ◌==◌, beq, if◌then◌else◌, has_bit, u8, u32, update, load, store}

-- GIC_NUM_IRQS and SPURIOUS.
abbrev pub num_irqs : ℕ
num_irqs = 256

abbrev pub spurious : ℕ
spurious = 1023

pub record Gic : Type 0 where
  pub irq_line : Bool
  pub d_ctlr : ℕ
  pub c_ctlr : ℕ
  pub pmr : ℕ
  pub enabled : ℕ → Bool
  pub pending : ℕ → Bool
  pub active : ℕ → Bool
  pub line : ℕ → Bool
  pub cfg_edge : ℕ → Bool
  pub priority : ℕ → ℕ
  pub target : ℕ → ℕ

-- One round of the loop of `gic_best`: `(best, bestpri)` after looking at interrupt `i`.
abbrev pub consider : Gic → ℕ → ℕ × ℕ → ℕ × ℕ
consider g i (best, bestpri) =
    if not (g.enabled i) || (not (g.pending i) || g.active i)
    then (best, bestpri)
    else if leb g.pmr (g.priority i)
    then (best, bestpri)
    else if ltb (g.priority i) bestpri
    then (i, g.priority i)
    else (best, bestpri)

-- The rounds `0 .. n - 1`, in that order.
unfoldable pub best_below : Gic → ℕ → ℕ × ℕ
best_below g zero = (spurious, 256)
best_below g (suc n) = consider g n (best_below g n)

unfoldable pub best : Gic → ℕ
best g =
    if not (has_bit g.d_ctlr 0) || not (has_bit g.c_ctlr 0)
    then spurious
    else (best_below g num_irqs).0

unfoldable pub update_line : Gic → Gic
update_line g = record g { irq_line = not (best g == spurious) }

-- `gic_set_irq` at a controller that is there; a level is already `level != 0`.
unfoldable pub set_irq : ℕ → Bool → Gic → Gic
set_irq intid lv g =
    let pend = if g.cfg_edge intid then g.pending intid || (lv && not (g.line intid)) else lv in
    let g' = record g { line = update g.line intid lv } in
    if not (ltb intid num_irqs)
    then g
    else if beq pend (g.pending intid)
    then g'
    else update_line (record g' { pending = update g.pending intid pend })

-- The guard `if (!g) return`.
unfoldable pub set_irq_opt : ℕ → Bool → Option Gic → Option Gic
unfolding set_irq
set_irq_opt intid lv none = none
set_irq_opt intid lv (some g) = some (set_irq intid lv g)

-- `for (i ..) if (f[base + i]) v |= 1u << (step * i + at)`, with `left` rounds to go.
pub gather : (ℕ → Bool) → ℕ → ℕ → ℕ → ℕ → ℕ → ℕ → Option ℕ
gather f base step at zero i v = some v
gather f base step at (suc left) i v = do
  b ← load num_irqs f (base + i)
  gather f base step at left (i + 1) (if b then bit_or v (2 ^ (step * i + at)) else v)

-- `for (i < size) v |= (u64)f[base + i] << (i * 8)`.
pub gather_bytes : (ℕ → ℕ) → ℕ → ℕ → ℕ → ℕ → Option ℕ
gather_bytes f base zero i v = some v
gather_bytes f base (suc left) i v = do
  b ← load num_irqs f (base + i)
  gather_bytes f base left (i + 1) (bit_or v (b * 2 ^ (i * 8)))

-- `for (i ..) if (val & (1u << i)) f[base + i] = b`.
pub mark : ℕ → Bool → ℕ → ℕ → ℕ → (ℕ → Bool) → Option (ℕ → Bool)
mark val b base zero i f = some f
mark val b base (suc left) i f = do
  f' ← (if has_bit val i then store num_irqs f (base + i) b else some f)
  mark val b base left (i + 1) f'

-- `for (i < 16) f[base + i] = ((val >> (i * 2)) & 2) != 0`.
pub configure : ℕ → ℕ → ℕ → ℕ → (ℕ → Bool) → Option (ℕ → Bool)
configure val base zero i f = some f
configure val base (suc left) i f = do
  f' ← store num_irqs f (base + i) (has_bit val (2 * i + 1))
  configure val base left (i + 1) f'

-- `for (i < size) f[base + i] = (val >> (i * 8)) & 0xff`, below `first` skipped.
pub scatter_bytes : ℕ → ℕ → ℕ → ℕ → ℕ → (ℕ → ℕ) → Option (ℕ → ℕ)
scatter_bytes first val base zero i f = some f
scatter_bytes first val base (suc left) i f = do
  f' ←
      (if ltb (base + i) first
        then some f
        else store num_irqs f (base + i) (u8 (val / 2 ^ (i * 8))))
  scatter_bytes first val base left (i + 1) f'

-- ITARGETSR reads 1 for the banked interrupts 0 to 31.
abbrev pub target_of : Gic → ℕ → ℕ
target_of g irq = if ltb irq 32 then 1 else g.target irq

-- `off >= lo && off < hi`.
abbrev pub within : ℕ → ℕ → ℕ → Bool
within lo hi off = leb lo off && ltb off hi

unfoldable pub gicd_read : Gic → ℕ → ℕ → Option ℕ
gicd_read g off size =
    if off == 0x000
    then some g.d_ctlr
    else if off == 0x004
    then some 7
    else if off == 0x008
    then some 0x0200043b
    else if within 0x100 0x180 off
    then gather g.enabled ((off - 0x100) * 8) 1 0 32 0 0
    else if within 0x180 0x200 off
    then gather g.enabled ((off - 0x180) * 8) 1 0 32 0 0
    else if within 0x200 0x280 off
    then gather g.pending ((off - 0x200) * 8) 1 0 32 0 0
    else if within 0x280 0x300 off
    then gather g.pending ((off - 0x280) * 8) 1 0 32 0 0
    else if within 0x300 0x380 off
    then gather g.active ((off - 0x300) * 8) 1 0 32 0 0
    else if within 0x400 0x800 off
    then gather_bytes g.priority (off - 0x400) size 0 0
    else if within 0x800 0xc00 off
    then gather_bytes (target_of g) (off - 0x800) size 0 0
    else if within 0xc00 0xd00 off
    then gather g.cfg_edge ((off - 0xc00) * 4) 2 1 16 0 0
    else some 0

unfoldable pub gicd_write : Gic → ℕ → ℕ → ℕ → Option Gic
gicd_write g off size val =
    if off == 0x000
    then some (update_line (record g { d_ctlr = u32 val }))
    else if within 0x100 0x180 off
    then (do
      f ← mark val true ((off - 0x100) * 8) 32 0 g.enabled
      some (update_line (record g { enabled = f })))
    else if within 0x180 0x200 off
    then (do
      f ← mark val false ((off - 0x180) * 8) 32 0 g.enabled
      some (update_line (record g { enabled = f })))
    else if within 0x200 0x280 off
    then (do
      f ← mark val true ((off - 0x200) * 8) 32 0 g.pending
      some (update_line (record g { pending = f })))
    else if within 0x280 0x300 off
    then (do
      f ← mark val false ((off - 0x280) * 8) 32 0 g.pending
      some (update_line (record g { pending = f })))
    else if within 0x300 0x380 off
    then (do f ← mark val true ((off - 0x300) * 8) 32 0 g.active; some (record g { active = f }))
    else if within 0x380 0x400 off
    then (do
      f ← mark val false ((off - 0x380) * 8) 32 0 g.active
      some (update_line (record g { active = f })))
    else if within 0x400 0x800 off
    then (do
      f ← scatter_bytes 0 val (off - 0x400) size 0 g.priority
      some (update_line (record g { priority = f })))
    else if within 0x800 0xc00 off
    then (do f ← scatter_bytes 32 val (off - 0x800) size 0 g.target; some (record g { target = f }))
    else if within 0xc00 0xd00 off
    then (do
      f ← configure val ((off - 0xc00) * 4) 16 0 g.cfg_edge
      some (record g { cfg_edge = f }))
    else some g

-- What reading GICC_IAR does to interrupt `id`: active, and an edge is consumed.
abbrev pub accepted : Gic → ℕ → Gic
accepted g id = record g {
  active = update g.active id true;
  pending = if g.cfg_edge id then update g.pending id false else g.pending;
}

-- Reading GICC_IAR: the interrupt that is now active, and the controller after it.
unfoldable pub acknowledge : Gic → ℕ × Gic
acknowledge g =
    if best g == spurious then (best g, g) else (best g, update_line (accepted g (best g)))

unfoldable pub gicc_read : Gic → ℕ → ℕ → ℕ × Gic
unfolding acknowledge
gicc_read g off size =
    if off == 0x00
    then (g.c_ctlr, g)
    else if off == 0x04
    then (g.pmr, g)
    else if off == 0x0c
    then acknowledge g
    else if off == 0x18
    then (best g, g)
    else if off == 0xfc
    then (0x0202143b, g)
    else (0, g)

abbrev pub finished : Gic → ℕ → Gic
finished g id = if ltb id num_irqs then record g { active = update g.active id false } else g

-- Writing GICC_EOIR (or GICC_DIR).
unfoldable pub end_of_interrupt : Gic → ℕ → Gic
end_of_interrupt g val = update_line (finished g (val % 2 ^ 10))

unfoldable pub gicc_write : Gic → ℕ → ℕ → ℕ → Gic
unfolding end_of_interrupt
gicc_write g off size val =
    if off == 0x00
    then update_line (record g { c_ctlr = u32 val })
    else if off == 0x04
    then update_line (record g { pmr = u8 val })
    else if (off == 0x10) || (off == 0x1000)
    then end_of_interrupt g val
    else g

-- `memset(g, 0, ..)` with the CPU kept: its `irq_line` is not touched.
unfoldable pub reset : Gic → Gic
reset g = record {
  irq_line = g.irq_line;
  d_ctlr = 0;
  c_ctlr = 0;
  pmr = 0;
  enabled = λ _. false;
  pending = λ _. false;
  active = λ _. false;
  line = λ _. false;
  cfg_edge = λ _. false;
  priority = λ _. 0;
  target = λ _. 0;
}

-- `gic_create`: a zeroed controller on a CPU whose line is low.
unfoldable pub create : Gic
create = record {
  irq_line = false;
  d_ctlr = 0;
  c_ctlr = 0;
  pmr = 0;
  enabled = λ _. false;
  pending = λ _. false;
  active = λ _. false;
  line = λ _. false;
  cfg_edge = λ _. false;
  priority = λ _. 0;
  target = λ _. 0;
}

-- What can happen to the controller: a device moves a line, or the guest accesses a register.
pub data Event : Type 0 where
  device : ℕ → Bool → Event
  read_distributor : ℕ → ℕ → Event
  write_distributor : ℕ → ℕ → ℕ → Event
  read_interface : ℕ → ℕ → Event
  write_interface : ℕ → ℕ → ℕ → Event

unfoldable pub handle : Event → Gic → Option Gic
handle (device intid lv) g = some (set_irq intid lv g)
handle (read_distributor off size) g = gicd_read g off size >>= λ _. some g
handle (write_distributor off size val) g = gicd_write g off size val
handle (read_interface off size) g = some (gicc_read g off size).1
handle (write_interface off size val) g = some (gicc_write g off size val)

unfoldable pub run : List Event → Gic → Option Gic
run [] g = some g
run (e ∷ es) g = handle e g >>= run es
