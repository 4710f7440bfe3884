-- ===== src/Devices/Rtc.antt =====
-- src/devices/pl031.c: the real-time clock. `host` is what `rtc_host_count` answers: the seconds of
-- the host's clock (`time(NULL)`) in the real-time mode. The offset is kept as the 32 bits to which
-- every use cuts it.
pub mod Laws
mod Tests
use arm64emu_system.Base.{ℕ, ◌+◌, ◌-◌, ◌*◌, ◌/◌, ◌%◌, ◌^◌, Bool, true, false, not, ◌&&◌}
use arm64emu_system.Base.{
  Option, none, some, ◌==◌, beq, leb, if◌then◌else◌, u32, sub32, not32, bit_or, bit_and, has_bit,
}
use arm64emu_system.Devices.Gic.{Gic, set_irq_opt}

-- INTID_RTC and RTC_FIXED_EPOCH.
abbrev pub intid_rtc : ℕ
intid_rtc = 34

abbrev pub rtc_fixed_epoch : ℕ
rtc_fixed_epoch = 1_735_689_600

pub record Pl031 : Type 0 where
  pub mr : ℕ
  pub lr : ℕ
  pub cr : ℕ
  pub imsc : ℕ
  pub ris : ℕ
  pub tick_offset : ℕ
  pub armed : Bool
  pub irq_line : Bool

-- The clock and the interrupt controller to which it points.
pub record Rtc : Type 0 where
  pub clock : Pl031
  pub gic : Option Gic

abbrev pub pl031_id : ℕ → ℕ
pl031_id i =
    if i == 0
    then 0x31
    else if i == 1
    then 0x10
    else if i == 2
    then 0x14
    else if i == 3
    then 0x00
    else if i == 4
    then 0x0d
    else if i == 5
    then 0xf0
    else if i == 6
    then 0x05
    else 0xb1

unfoldable pub rtc_host_count : Bool → ℕ → ℕ
rtc_host_count rtclock time = if rtclock then u32 time else rtc_fixed_epoch

unfoldable pub rtc_count : ℕ → Pl031 → ℕ
rtc_count host p = u32 (host + p.tick_offset)

-- The line moves only when the masked status does.
unfoldable pub set_line : Rtc → Rtc
set_line r =
    let line = has_bit (bit_and r.clock.ris r.clock.imsc) 0 in
    if beq line r.clock.irq_line then r else record {
      clock = record r.clock { irq_line = line };
      gic = set_irq_opt intid_rtc line r.gic;
    }

unfoldable pub rtc_read : ℕ → ℕ → Pl031 → ℕ
rtc_read host off p =
    if leb 0xfe0 off && leb off 0xffc
    then pl031_id ((off - 0xfe0) / 4)
    else if off == 0x00
    then rtc_count host p
    else if off == 0x04
    then p.mr
    else if off == 0x08
    then p.lr
    else if off == 0x0c
    then p.cr
    else if off == 0x10
    then p.imsc
    else if off == 0x14
    then p.ris
    else if off == 0x18
    then bit_and p.ris p.imsc
    else 0

unfoldable pub rtc_write : ℕ → ℕ → ℕ → Rtc → Rtc
rtc_write host off val r =
    let p = r.clock in
    let put = λ (p' : Pl031). record r { clock = p' } in
    if off == 0x04
    then put (record p { mr = u32 val; armed = true })
    else if off == 0x08
    then put (record p { lr = u32 val; tick_offset = sub32 (u32 val) host })
    else if off == 0x0c
    then put (record p { cr = u32 val })
    else if off == 0x10
    then set_line (put (record p { imsc = u32 val }))
    else if off == 0x1c
    then set_line (put (record p { ris = bit_and p.ris (not32 (u32 val)) }))
    else r

-- The alarm: once, at the first tick at which the count has reached the match value.
abbrev pub matched : ℕ → Pl031 → Pl031
matched host p =
    if p.armed && leb p.mr (rtc_count host p)
    then record p { ris = bit_or p.ris 1; armed = false }
    else p

unfoldable pub update : ℕ → Rtc → Rtc
update host r = set_line (record r { clock = matched host r.clock })

abbrev pub power_on : Pl031
power_on = record {
  mr = 0;
  lr = 0;
  cr = 0;
  imsc = 0;
  ris = 0;
  tick_offset = 0;
  armed = false;
  irq_line = false;
}

unfoldable pub reset : Rtc → Rtc
reset r = record { clock = power_on; gic = set_irq_opt intid_rtc false r.gic }
