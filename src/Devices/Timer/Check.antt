-- ===== src/Devices/Timer/Check.antt =====
-- src/devices/timer.c: `timer_check` compares one number with a cached deadline, and the interrupt
-- lines are nevertheless what a full update would make of them. For the deterministic mode.
use arm64emu_system.Base.{ℕ, ◌+◌, ◌^◌, ◌≤◌, ◌<◌, ◌≡◌, refl, arith, Bool, true, false}
use arm64emu_system.Base.{◌||◌, leb, u64, some, ◌∙◌, sym, inl, inr, Bool-cases}
use mathlib.Core.Bool.{false≢true}
use mathlib.Core.Path.{subst}
use arm64emu_system.Cpu.{Cpu}
use arm64emu_system.Devices.Gic.{Gic, set_irq, set_irq_opt}
use arm64emu_system.Devices.Gic.Service.{set_irq_lem}
use arm64emu_system.Devices.Timer.{Clock, Timed, never, fires, deadline_count, timer_update}
use arm64emu_system.Devices.Timer.{timer_check, intid_phys, intid_virt}
use arm64emu_system.Devices.Timer.Deadline.{deadline_count-fires, gt_count-deterministic}

-- The count of the deterministic mode.
abbrev pub count : Cpu → ℕ
count c = u64 (c.icount + c.timer_skip)

-- What the timer code relies on: the deterministic mode, no virtual offset, a count that does not
-- reach the end of its range.
pub record IsRunning (clock : Clock) (c : Cpu) : Type 0 where
  pub deterministic : clock.rtclock ≡ false
  pub no_offset : c.cntvoff ≡ 0
  pub cval_small : c.cntv_cval < 2 ^ 64
  pub not_over : count c < never

-- Both lines of the controller are as at the count `n`, and the cached deadline is the current one.
pub record IsTracking (m : Timed) (g : Gic) (n d : ℕ) : Type 0 where
  pub wired : m.gic ≡ some g
  pub cached : m.deadline ≡ some d
  pub current : d ≡ deadline_count m.cpu
  pub phys : g.line intid_phys ≡ fires m.cpu.cntp_ctl n m.cpu.cntp_cval
  pub virt : g.line intid_virt ≡ fires m.cpu.cntv_ctl n m.cpu.cntv_cval

-- Driving the two lines.
abbrev driven : Bool → Bool → Gic → Gic
driven pf vf g = set_irq intid_virt vf (set_irq intid_phys pf g)

driven-phys : (pf vf : Bool) (g : Gic) → (driven pf vf g).line intid_phys ≡ pf
driven-phys pf vf g =
    (set_irq_lem (set_irq intid_phys pf g) intid_virt vf intid_phys (omega arith)).0
    ∙ (set_irq_lem g intid_phys pf intid_phys (omega arith)).0

driven-virt : (pf vf : Bool) (g : Gic) → (driven pf vf g).line intid_virt ≡ vf
driven-virt pf vf g =
    (set_irq_lem (set_irq intid_phys pf g) intid_virt vf intid_virt (omega arith)).0

-- The full update of a machine with a controller and a timer.
timer_update-some :
    (clock clock' : Clock) (m : Timed) (g : Gic) (d : ℕ)
    → IsRunning clock m.cpu
    → clock'.rtclock ≡ false
    → m.gic ≡ some g
    → m.deadline ≡ some d
    → timer_update clock clock' m ≡ record {
      cpu = m.cpu;
      gic = some (
          driven
            (fires m.cpu.cntp_ctl (count m.cpu) m.cpu.cntp_cval)
            (fires m.cpu.cntv_ctl (count m.cpu) m.cpu.cntv_cval)
            g);
      deadline = some (deadline_count m.cpu);
    }
unfolding timer_update set_irq_opt
timer_update-some clock clock' m g d r e wired cached =
    rw
      (
        gt_count-deterministic clock m.cpu false r.deterministic r.no_offset,
        gt_count-deterministic clock' m.cpu true e r.no_offset,
        wired,
        cached,
      )
      refl

-- After a full update both lines say whether their timer fires, and the deadline is the current
-- one.
pub timer_update-IsTracking :
    (clock clock' : Clock) (m : Timed) (g : Gic) (d : ℕ)
    → IsRunning clock m.cpu
    → clock'.rtclock ≡ false
    → m.gic ≡ some g
    → m.deadline ≡ some d
    → (g' : Gic) × IsTracking (timer_update clock clock' m) g' (count m.cpu) (deadline_count m.cpu)
timer_update-IsTracking clock clock' m g d r e wired cached =
    rw (timer_update-some clock clock' m g d r e wired cached) (
      driven pf vf g,
      record {
        wired = refl;
        cached = refl;
        current = refl;
        phys = driven-phys pf vf g;
        virt = driven-virt pf vf g;
      },
    )
  where
    pf : Bool
    pf = fires m.cpu.cntp_ctl (count m.cpu) m.cpu.cntp_cval

    vf : Bool
    vf = fires m.cpu.cntv_ctl (count m.cpu) m.cpu.cntv_cval

neither : (a b : Bool) → a || b ≡ false → (a ≡ false) × (b ≡ false)
neither false false h = (refl, refl)
neither false true h = (refl, h)
neither true b h = absurd (false≢true (sym h))

-- Below the deadline neither timer fires, at this count or an earlier one.
quiet_below :
    (c : Cpu) (n : ℕ)
    → c.cntvoff ≡ 0
    → c.cntv_cval < 2 ^ 64
    → n < never
    → n < deadline_count c
    → (fires c.cntp_ctl n c.cntp_cval ≡ false) × (fires c.cntv_ctl n c.cntv_cval ≡ false)
quiet_below c n off small h lt =
    let e = deadline_count-fires c n off small h in
    let below : leb (deadline_count c) n ≡ false = ground arith in
    neither (fires c.cntp_ctl n c.cntp_cval) (fires c.cntv_ctl n c.cntv_cval) (sym e ∙ below)

-- In the deterministic mode, with no virtual offset, a 64-bit compare value and the count below
-- its largest value: if both interrupt lines were right at an earlier count for the present
-- timer registers, and the cached deadline is theirs, then both are right at the present count
-- after `timer_check`, and the deadline is still theirs.
pub timer_check-IsTracking :
    (clock clock' clock'' : Clock) (m : Timed) (g : Gic) (n d : ℕ)
    → IsRunning clock m.cpu
    → clock'.rtclock ≡ false
    → clock''.rtclock ≡ false
    → IsTracking m g n d
    → n ≤ count m.cpu
    → (g' : Gic) × IsTracking (timer_check clock clock' clock'' d m) g' (count m.cpu) d
unfolding timer_check
timer_check-IsTracking clock clock' clock'' m g n d r e e' t later =
    rw (gt_count-deterministic clock m.cpu false r.deterministic r.no_offset)
      (elim (Bool-cases (leb d (count m.cpu))) [
        | inl reached ↦ rw reached (
            subst
              (λ (d' : ℕ).
                (g' : Gic) × IsTracking (timer_update clock' clock'' m) g' (count m.cpu) d')
              (sym t.current)
              (timer_update-IsTracking clock' clock'' m g d
                (record {
                  deterministic = e;
                  no_offset = r.no_offset;
                  cval_small = r.cval_small;
                  not_over = r.not_over;
                })
                e' t.wired t.cached))
        | inr waiting ↦ rw waiting (g, still waiting)
      ])
  where
    below : leb d (count m.cpu) ≡ false → count m.cpu < deadline_count m.cpu
    below w = let eq = t.current in ground arith

    still : leb d (count m.cpu) ≡ false → IsTracking m g (count m.cpu) d
    still w =
        let here = quiet_below m.cpu (count m.cpu) r.no_offset r.cval_small r.not_over (below w) in
        let before =
          quiet_below m.cpu n r.no_offset r.cval_small (omega (arith, r.not_over))
            (omega (arith, below w)) in
        record {
          wired = t.wired;
          cached = t.cached;
          current = t.current;
          phys = t.phys ∙ (before.0 ∙ sym here.0);
          virt = t.virt ∙ (before.1 ∙ sym here.1);
        }
