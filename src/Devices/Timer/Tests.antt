-- ===== src/Devices/Timer/Tests.antt =====
-- The timer theorems at a machine whose virtual timer is armed for tick 100.
use arm64emu_system.Base.{ℕ, ◌+◌, ◌≤◌, ◌<◌, ◌≡◌, refl, arith, true, false}
use arm64emu_system.Base.{u64, leb, some}
use arm64emu_system.Cpu.{Cpu, cpu_reset}
use arm64emu_system.Devices.Gic.{Gic, create}
use arm64emu_system.Devices.Timer.{Clock, Timed, timer_check, deadline_count, fires}
use arm64emu_system.Devices.Timer.{next_deadline_ticks, gt_count}
use arm64emu_system.Devices.Timer.Deadline.{
  any_fires, deadline_count-fires, next_deadline_ticks-fires,
}
use arm64emu_system.Devices.Timer.Check.{IsRunning, IsTracking, count, timer_check-IsTracking}

abbrev counting : Clock
counting = record { rtclock = false; now = 0 }

-- After 99 and after 100 instructions.
abbrev early : Cpu
early = record (cpu_reset 0x4008_0000 1) { cntv_ctl = 1; cntv_cval = 100; icount = 99 }

abbrev due : Cpu
due = record early { icount = 100 }

abbrev waiting : Timed
waiting = record { cpu = due; gic = some create; deadline = some 100 }

due-IsRunning : IsRunning counting due
unfolding cpu_reset
due-IsRunning = record {
  deterministic = refl;
  no_offset = refl;
  cval_small = omega arith;
  not_over = omega arith;
}

waiting-IsTracking : IsTracking waiting create 99 100
unfolding cpu_reset deadline_count fires create
waiting-IsTracking = record {
  wired = refl;
  cached = refl;
  current = refl;
  phys = refl;
  virt = refl;
}

later : 99 ≤ count due
unfolding cpu_reset
later = omega arith

timer_check-IsTracking_example :
    (g' : Gic) × IsTracking (timer_check counting counting counting 100 waiting) g' (count due) 100
timer_check-IsTracking_example =
    timer_check-IsTracking counting counting counting waiting create 99 100 due-IsRunning refl refl
      waiting-IsTracking later

deadline_count-fires_example : leb (deadline_count due) 100 ≡ any_fires due 100
unfolding cpu_reset
deadline_count-fires_example = deadline_count-fires due 100 refl (omega arith) (omega arith)

one_tick : (next_deadline_ticks counting counting early).1 ≡ 1
unfolding next_deadline_ticks gt_count cpu_reset
one_tick = refl

next_deadline_ticks-fires_example :
    let n = u64 (early.icount + early.timer_skip) in
    let dl = (next_deadline_ticks counting counting early).1 in
    (any_fires early (n + dl) ≡ true) × ((k : ℕ) → k < dl → any_fires early (n + k) ≡ false)
unfolding cpu_reset
next_deadline_ticks-fires_example =
    next_deadline_ticks-fires counting counting early refl refl refl (omega (arith, one_tick))
      (omega (arith, one_tick))
