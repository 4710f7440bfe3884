-- ===== src/Devices/Rtc/Laws.antt =====
-- src/devices/pl031.c: setting the time, and the interrupt line against the masked status.
use arm64emu_system.Base.{ℕ, ◌+◌, ◌-◌, ◌^◌, ◌≤◌, ◌<◌, ◌≡◌, refl, sym, arith, ◌∙◌}
use arm64emu_system.Base.{
  Bool, true, false, ◌&&◌, some, ◌==◌, beq, leb, if_ind, has_bit, u32, bit_and, inl, inr,
  Bool-cases,
}
use arm64emu_system.Devices.Gic.{Gic, set_irq, set_irq_opt}
use arm64emu_system.Devices.Gic.Service.{set_irq_lem}
use arm64emu_system.Devices.Rtc.{
  Pl031, Rtc, rtc_count, rtc_write, set_line, update, matched, intid_rtc,
}

-- `RTCMIS & 1`.
abbrev pub status : Pl031 → Bool
status p = has_bit (bit_and p.ris p.imsc) 0

-- The controller is there, and has the level that the clock remembers.
pub record IsWired (r : Rtc) : Type 0 where
  pub controller : Gic
  pub present : r.gic ≡ some controller
  pub level : controller.line intid_rtc ≡ r.clock.irq_line

-- Besides, that level is the masked status.
pub record IsDriven (r : Rtc) : Type 0 where
  pub wired : IsWired r
  pub current : r.clock.irq_line ≡ status r.clock

beq-eq : (a b : Bool) → beq a b ≡ true → a ≡ b
beq-eq true b h = sym h
beq-eq false true h = h
beq-eq false false h = refl

set_line-IsDriven : (r : Rtc) → IsWired r → IsDriven (set_line r)
unfolding set_line set_irq_opt
set_line-IsDriven r w = elim (Bool-cases (beq (status r.clock) r.clock.irq_line)) [
  | inl same ↦ rw same (record { wired = w; current = sym (beq-eq _ _ same) })
  | inr moved ↦
      rw (moved, w.present)
        (record {
          wired = record {
            controller = set_irq intid_rtc (status r.clock) w.controller;
            present = refl;
            level = (set_irq_lem w.controller intid_rtc (status r.clock) intid_rtc (omega arith)).0;
          };
          current = refl;
        })
]

-- If the controller's line of the clock, the level that the clock remembers and its masked
-- status are the same, then they are the same after a write to any of its registers.
rtc_write-IsDriven : (host off val : ℕ) (r : Rtc) → IsDriven r → IsDriven (rtc_write host off val r)
unfolding rtc_write
rtc_write-IsDriven host off val r d =
    if_ind IsDriven (off == 0x04) (λ _. record { wired = put _ refl; current = d.current })
      (λ _.
        if_ind IsDriven (off == 0x08) (λ _. record { wired = put _ refl; current = d.current })
          (λ _.
            if_ind IsDriven (off == 0x0c) (λ _. record { wired = put _ refl; current = d.current })
              (λ _.
                if_ind IsDriven (off == 0x10) (λ _. set_line-IsDriven _ (put _ refl))
                  (λ _.
                    if_ind IsDriven (off == 0x1c) (λ _. set_line-IsDriven _ (put _ refl))
                      (λ _. d)))))
  where
    put : (p : Pl031) → p.irq_line ≡ r.clock.irq_line → IsWired (record r { clock = p })
    put p e = record {
      controller = d.wired.controller;
      present = d.wired.present;
      level = d.wired.level ∙ sym e;
    }

-- If the controller's line of the clock, the level that the clock remembers and its masked
-- status are the same, then they are the same after the evaluation of the alarm at a tick.
update-IsDriven : (host : ℕ) (r : Rtc) → IsDriven r → IsDriven (update host r)
unfolding update
update-IsDriven host r d =
    set_line-IsDriven (record r { clock = matched host r.clock })
      (record {
        controller = d.wired.controller;
        present = d.wired.present;
        level = d.wired.level ∙ same;
      })
  where
    same : r.clock.irq_line ≡ (matched host r.clock).irq_line
    same =
        if_ind (λ (p : Pl031). r.clock.irq_line ≡ p.irq_line)
          (r.clock.armed && leb r.clock.mr (rtc_count host r.clock)) (λ _. refl) (λ _. refl)

-- For seconds of the host that do not go back and stay below 2 ^ 32: after a time is loaded the
-- count is that time plus the seconds that have passed since, cut to 32 bits.
rtc_write-count :
    (host later val : ℕ) (r : Rtc)
    → host ≤ later
    → later < 2 ^ 32
    → rtc_count later (rtc_write host 0x08 val r).clock ≡ u32 (val + (later - host))
unfolding rtc_write rtc_count
rtc_write-count host later val r h small = omega arith
