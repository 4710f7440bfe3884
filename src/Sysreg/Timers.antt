-- ===== src/Sysreg/Timers.antt =====
-- src/sysreg.c and src/devices/timer.c together: writes to the timer registers.
use arm64emu_system.Base.{ℕ, ◌/◌, ◌%◌, ◌^◌, ◌≡◌, arith, true, false, ◌==◌, some}
use arm64emu_system.Cpu.{Cpu, reg_x}
use arm64emu_system.Devices.Gic.{Gic}
use arm64emu_system.Devices.Timer.{Clock, Timed, deadline_count}
use arm64emu_system.Devices.Timer.Check.{IsRunning, IsTracking, count, timer_update-IsTracking}
use arm64emu_system.Sysreg.{flushes}
use arm64emu_system.Sysreg.Exec.{Soc, do_msr, write_register}

-- The part of the machine that the timer drives.
abbrev pub timed : {W : Type 0} → Soc W → Timed
timed s = record { cpu = s.mmu.cpu; gic = s.gic; deadline = s.deadline }

no_flush : (k : ℕ) → (k / 2 ^ 9 % 2 ^ 4 == 14) ≡ true → flushes k ≡ false
unfolding flushes
no_flush k h = ground arith

-- In a machine with a controller and a timer, in the deterministic mode, with no virtual
-- offset, a 64-bit compare value and the count below its largest value after the write: an MSR
-- to a register with CRn 14 leaves both interrupt lines and the cached deadline right for the
-- timer registers as written.
pub do_msr-IsTracking :
    {W : Type 0} (clock clock' clock'' : Clock) (sync : Cpu → Cpu) (s : Soc W) (k rt : ℕ) (g : Gic)
    (d : ℕ)
    → (k / 2 ^ 9 % 2 ^ 4 == 14) ≡ true
    → s.gic ≡ some g
    → s.deadline ≡ some d
    → IsRunning clock' (write_register clock sync s.mmu.cpu k (reg_x s.mmu.cpu rt))
    → clock''.rtclock ≡ false
    → let c = write_register clock sync s.mmu.cpu k (reg_x s.mmu.cpu rt) in
      (g' : Gic) × IsTracking
        (timed (do_msr clock clock' clock'' sync s k rt))
        g'
        (count c)
        (deadline_count c)
unfolding do_msr
do_msr-IsTracking clock clock' clock'' sync s k rt g d timers wired cached r e =
    let c = write_register clock sync s.mmu.cpu k (reg_x s.mmu.cpu rt) in
    rw (no_flush k timers, timers)
      (timer_update-IsTracking clock' clock''
        (record { cpu = c; gic = s.gic; deadline = s.deadline }) g d r e wired cached)
