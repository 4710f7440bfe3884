-- ===== src/Devices/Timer/Deadline.antt =====
-- src/devices/timer.c: the deadlines say exactly when a timer fires, in the deterministic mode, for
-- a virtual offset of zero (nothing in the program sets another).
use arm64emu_system.Base.{ℕ, ◌+◌, ◌-◌, ◌^◌, ◌<◌, ◌≡◌, refl, arith, Bool, true, false}
use arm64emu_system.Base.{◌&&◌, ◌||◌, ltb, leb, if◌then◌else◌, u64, sub64}
use arm64emu_system.Cpu.{Cpu}
use arm64emu_system.Devices.Timer.{Clock, never, armed, fires, deadline_count, gt_count}
use arm64emu_system.Devices.Timer.{next_deadline_ticks}

-- One of the two timers fires at a count.
abbrev pub any_fires : Cpu → ℕ → Bool
any_fires c n = fires c.cntp_ctl n c.cntp_cval || fires c.cntv_ctl n c.cntv_cval

-- With no virtual offset, a 64-bit virtual compare value and a count below the largest: the
-- count has reached the deadline exactly when one of the two timers fires.
pub deadline_count-fires :
    (c : Cpu) (n : ℕ)
    → c.cntvoff ≡ 0
    → c.cntv_cval < 2 ^ 64
    → n < never
    → leb (deadline_count c) n ≡ any_fires c n
unfolding deadline_count fires
deadline_count-fires c n off small h =
    let v : u64 (c.cntv_cval + c.cntvoff) ≡ c.cntv_cval = omega arith in
    rw v (lem (armed c.cntp_ctl) (armed c.cntv_ctl) c.cntp_cval c.cntv_cval n h)
  where
    lem :
        (a b : Bool) (p v n : ℕ)
        → n < never
        → leb (if b && ltb v (if a then p else never) then v else if a then p else never) n
          ≡ a && leb p n || b && leb v n
    lem a b p v n h = ground arith

-- In the deterministic mode both counts are the number of instructions and skipped ticks.
pub gt_count-deterministic :
    (clock : Clock) (c : Cpu) (virt : Bool)
    → clock.rtclock ≡ false
    → c.cntvoff ≡ 0
    → gt_count clock c virt ≡ (c, u64 (c.icount + c.timer_skip))
unfolding gt_count
gt_count-deterministic clock c true e off = rw e (
    let z : sub64 (u64 (c.icount + c.timer_skip)) c.cntvoff ≡ u64 (c.icount + c.timer_skip) =
      omega arith in
    rw z refl)
gt_count-deterministic clock c false e off = rw e refl

-- The ticks that are left, over what the code reads of the two timers.
abbrev soonest : Bool → Bool → ℕ → ℕ → ℕ → ℕ
soonest a b p v n =
    let dp = if leb p n then 0 else p - n in
    let dv = if leb v n then 0 else v - n in
    let best = if a && ltb dp never then dp else never in if b && ltb dv best then dv else best

soonest_fires :
    (a b : Bool) (p v n : ℕ)
    → soonest a b p v n < never
    → n + soonest a b p v n < never
    → a && leb p (n + soonest a b p v n) || b && leb v (n + soonest a b p v n) ≡ true
soonest_fires a b p v n finite fits = ground arith

before_soonest :
    (a b : Bool) (p v n k : ℕ)
    → k < soonest a b p v n
    → a && leb p (n + k) || b && leb v (n + k) ≡ false
before_soonest a b p v n k h = ground arith

-- In the deterministic mode with no virtual offset, when there is a deadline and the count
-- moved on by the ticks to it stays below the largest value: at that count a timer fires, and
-- at none before it from the present one on.
pub next_deadline_ticks-fires :
    (clock clock' : Clock) (c : Cpu)
    → clock.rtclock ≡ false
    → clock'.rtclock ≡ false
    → c.cntvoff ≡ 0
    → (next_deadline_ticks clock clock' c).1 < never
    → u64 (c.icount + c.timer_skip) + (next_deadline_ticks clock clock' c).1 < never
    → let n = u64 (c.icount + c.timer_skip) in
      let dl = (next_deadline_ticks clock clock' c).1 in
      (any_fires c (n + dl) ≡ true) × ((k : ℕ) → k < dl → any_fires c (n + k) ≡ false)
unfolding next_deadline_ticks fires
next_deadline_ticks-fires clock clock' c e e' off =
    rw (gt_count-deterministic clock c false e off, gt_count-deterministic clock' c true e' off)
      (λ finite fits. (
        soonest_fires (armed c.cntp_ctl) (armed c.cntv_ctl) c.cntp_cval c.cntv_cval _ finite fits,
        λ k h. before_soonest (armed c.cntp_ctl) (armed c.cntv_ctl) c.cntp_cval c.cntv_cval _ k h,
      ))
