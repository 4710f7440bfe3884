-- ===== src/Devices/Timer.antt =====
-- src/devices/timer.c: the physical and the virtual timer of the CPU. `Clock` holds the mode
-- (`g_rtclock`) and what the host's monotonic clock answers, which only the real-time mode asks.
-- The trace output of `g_dbg` is left out.
pub mod Deadline
pub mod Check
mod Tests
use arm64emu_system.Base.{ℕ, ◌+◌, ◌-◌, ◌*◌, ◌/◌, ◌%◌, ◌^◌, Bool, true, false, not, ◌&&◌, ◌||◌}
use arm64emu_system.Base.{Option, none, some, ltb, leb, ◌==◌, if◌then◌else◌, has_bit, u64, sub64}
use arm64emu_system.Cpu.{Cpu}
use arm64emu_system.Devices.Gic.{Gic, set_irq_opt}

-- INTID_TIMER_VIRT and INTID_TIMER_PHYS.
abbrev pub intid_virt : ℕ
intid_virt = 27

abbrev pub intid_phys : ℕ
intid_phys = 30

pub record Clock : Type 0 where
  pub rtclock : Bool
  pub now : ℕ

-- `~0ULL`: no deadline.
abbrev pub never : ℕ
never = 2 ^ 64 - 1

-- `if (c->cntpct_base == 0) c->cntpct_base = now`, in the real-time mode.
unfoldable pub based : Clock → Cpu → Cpu
based clock c =
    if clock.rtclock && (c.cntpct_base == 0) then record c { cntpct_base = clock.now } else c

unfoldable pub ticks : Clock → Cpu → ℕ
ticks clock c =
    if clock.rtclock
    then u64 (sub64 clock.now c.cntpct_base * c.cntfrq / 1_000_000_000)
    else u64 (c.icount + c.timer_skip)

unfoldable pub gt_count : Clock → Cpu → Bool → Cpu × ℕ
unfolding based ticks
gt_count clock c virt =
    let c' = based clock c in
    (c', if virt then sub64 (ticks clock c') c'.cntvoff else ticks clock c')

-- ENABLE and not IMASK.
abbrev pub armed : ℕ → Bool
armed ctl = has_bit ctl 0 && not (has_bit ctl 1)

unfoldable pub fires : ℕ → ℕ → ℕ → Bool
fires ctl count cval = armed ctl && leb cval count

unfoldable pub deadline_count : Cpu → ℕ
deadline_count c =
    let best = if armed c.cntp_ctl then c.cntp_cval else never in
    let d = u64 (c.cntv_cval + c.cntvoff) in if armed c.cntv_ctl && ltb d best then d else best

-- The parts of the machine that the timer reads and drives: the CPU, the interrupt controller and
-- the cached deadline, where they exist.
pub record Timed : Type 0 where
  pub cpu : Cpu
  pub gic : Option Gic
  pub deadline : Option ℕ

-- `if (m->timer) m->timer->deadline = d`.
abbrev pub set_deadline : ℕ → Option ℕ → Option ℕ
set_deadline d none = none
set_deadline d (some _) = some d

-- The two clocks are the host's answers to the two readings of the count.
unfoldable pub timer_update : Clock → Clock → Timed → Timed
timer_update clock clock' m =
    let (c, pc) = gt_count clock m.cpu false in
    let (c', vc) = gt_count clock' c true in
    let pf = fires c'.cntp_ctl pc c'.cntp_cval in
    let vf = fires c'.cntv_ctl vc c'.cntv_cval in
    record {
      cpu = c';
      gic = set_irq_opt intid_virt vf (set_irq_opt intid_phys pf m.gic);
      deadline = set_deadline (deadline_count c') m.deadline;
    }

-- `timer_check`, at a machine whose timer has the deadline `d`.
unfoldable pub timer_check : Clock → Clock → Clock → ℕ → Timed → Timed
timer_check clock clock' clock'' d m =
    let (c, count) = gt_count clock m.cpu false in
    let m' = record m { cpu = c } in if leb d count then timer_update clock' clock'' m' else m'

-- Nanoseconds for `d` ticks, cut to 64 bits.
abbrev pub tick_ns : Cpu → ℕ → ℕ
tick_ns c d = u64 (d * 1_000_000_000 / c.cntfrq)

unfoldable pub next_deadline_ns : Clock → Clock → Cpu → Cpu × ℕ
next_deadline_ns clock clock' c₀ =
    let (c₁, pc) = gt_count clock c₀ false in
    let (c, vc) = gt_count clock' c₁ true in
    let dp = tick_ns c (sub64 c.cntp_cval pc) in
    let dv = tick_ns c (sub64 c.cntv_cval vc) in
    let best = if armed c.cntp_ctl && ltb dp never then dp else never in
    (
      c,
      if armed c.cntp_ctl && leb c.cntp_cval pc
          then 0
          else if armed c.cntv_ctl && leb c.cntv_cval vc
          then 0
          else if armed c.cntv_ctl && ltb dv best
          then dv
          else best,
    )

unfoldable pub next_deadline_ticks : Clock → Clock → Cpu → Cpu × ℕ
next_deadline_ticks clock clock' c₀ =
    let (c₁, pc) = gt_count clock c₀ false in
    let (c, vc) = gt_count clock' c₁ true in
    let dp = if leb c.cntp_cval pc then 0 else c.cntp_cval - pc in
    let dv = if leb c.cntv_cval vc then 0 else c.cntv_cval - vc in
    let best = if armed c.cntp_ctl && ltb dp never then dp else never in
    (c, if armed c.cntv_ctl && ltb dv best then dv else best)

-- `gtimer_create`, with the deadline zeroed by `calloc`.
unfoldable pub create : Clock → Timed → Timed
create clock m = record m { cpu = record m.cpu { cntpct_base = clock.now }; deadline = some 0 }
