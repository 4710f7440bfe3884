-- ===== src/Sysreg/Tests.antt =====
-- The theorems on the system registers at concrete states.
use arm64emu_system.Base.{ℕ, ◌-◌, ◌^◌, refl, arith, false, [], some}
use arm64emu_system.Cpu.{Cpu, cpu_reset, reg_x}
use arm64emu_system.Memory.{BusStatus}
use arm64emu_system.Memory.Nor.{ready}
use arm64emu_system.Mmu.{empty_entry}
use arm64emu_system.Devices.Gic.{Gic, create}
use arm64emu_system.Devices.Timer.{Clock, deadline_count}
use arm64emu_system.Devices.Timer.Check.{IsRunning, IsTracking, count}
use arm64emu_system.Sysreg.{key, write_plain}
use arm64emu_system.Sysreg.Exec.{Soc, do_msr, write_register}
use arm64emu_system.Sysreg.Timers.{timed, do_msr-IsTracking}

abbrev base : Cpu
base = cpu_reset 0x4008_0000 1

abbrev counting : Clock
counting = record { rtclock = false; now = 0 }

abbrev board : Soc ℕ
board = record {
  mmu = record {
    cpu = base;
    bus = record {
      ram = λ _. 0;
      ram_base = 0x4000_0000;
      ram_size = 0x1_0000;
      flash = record { cells = λ _. 0; banks = λ _. ready };
      flash_base = 0;
      flash_size = 0x0800_0000;
      devices = [];
      last_bus_status = BusStatus.bus_ok;
      world = 0;
    };
    tlb = λ _. empty_entry;
    tlb_gen = 1;
    lp_base = 2 ^ 64 - 1;
    lp_mask = 2 ^ 64 - 1;
  };
  gic = some create;
  deadline = some 0;
}

-- The virtual timer's compare value is set from XZR.
abbrev written : Cpu
written = write_register counting (λ c. c) base (key 3 3 14 3 2) (reg_x base 31)

written-IsRunning : IsRunning counting written
unfolding write_register write_plain cpu_reset reg_x
written-IsRunning = record {
  deterministic = refl;
  no_offset = refl;
  cval_small = omega arith;
  not_over = omega arith;
}

do_msr-IsTracking_example :
    (g' : Gic) × IsTracking
      (timed (do_msr counting counting counting (λ c. c) board (key 3 3 14 3 2) 31))
      g'
      (count written)
      (deadline_count written)
do_msr-IsTracking_example =
    do_msr-IsTracking counting counting counting (λ c. c) board (key 3 3 14 3 2) 31 create 0 refl
      refl refl written-IsRunning refl
