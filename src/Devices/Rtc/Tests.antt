-- ===== src/Devices/Rtc/Tests.antt =====
-- The theorems on the real-time clock at a clock whose alarm is set for the fixed epoch.
use arm64emu_system.Base.{refl, true, some}
use arm64emu_system.Devices.Gic.{create}
use arm64emu_system.Devices.Rtc.{Rtc, power_on, rtc_fixed_epoch}
use arm64emu_system.Devices.Rtc.Laws.{IsDriven}

abbrev alarmed : Rtc
alarmed = record {
  clock = record power_on { mr = rtc_fixed_epoch; armed = true; imsc = 1 };
  gic = some create;
}

alarmed-IsDriven : IsDriven alarmed
unfolding create
alarmed-IsDriven = record {
  wired = record { controller = create; present = refl; level = refl };
  current = refl;
}
