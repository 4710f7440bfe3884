-- ===== src/Devices/Gic/Service.antt =====
-- Serving an interrupt (acknowledge, end of interrupt), and what a device line does to it.
use arm64emu_system.Base.{ℕ, ◌<◌, ◌≡◌, ◌≢◌, ◌%◌, ◌^◌, refl, arith, sym, fun_ext, ◌∙◌, ◌⊎◌}
use arm64emu_system.Base.{inl, inr, Bool, true, false, not, ◌&&◌, ◌||◌, ◌==◌, beq, update}
use arm64emu_system.Base.{if◌then◌else◌, Bool-cases, lt→ltb, ==_refl, subst}
use mathlib.Core.Bool.{false≢true}
use native.Mathlib.Decide.{ℕ_discrete}
use arm64emu_system.Devices.Gic.{Gic, num_irqs, spurious, best, update_line, set_irq}
use arm64emu_system.Devices.Gic.{acknowledge, accepted, end_of_interrupt}
use arm64emu_system.Devices.Gic.Best.{IsValid, IsHighest, best-IsHighest}
use arm64emu_system.Devices.Gic.Line.{IsSettled, update_line-relit}

beq-eq : (a b : Bool) → beq a b ≡ true → a ≡ b
beq-eq a b h = ground arith

==_false : (a b : ℕ) → a ≢ b → (a == b) ≡ false
==_false a b h = ground arith

IsHighest-of_best : (g : Gic) → IsValid g → best g ≢ spurious → IsHighest g (best g)
IsHighest-of_best g valid ne = elim (best-IsHighest g valid) [
  | inl h ↦ h
  | inr (e, q) ↦ absurd (ne e)
]

acknowledge-some :
    (g : Gic) → best g ≢ spurious → acknowledge g ≡ (best g, update_line (accepted g (best g)))
unfolding acknowledge
acknowledge-some g ne = rw (==_false (best g) spurious ne)

-- With a priority mask that is a byte, when an interrupt can be signalled: acknowledging
-- returns the highest one, makes it active, and what can be signalled next is another one or
-- none.
pub acknowledge_lem :
    (g : Gic)
    → IsValid g
    → best g ≢ spurious
    → IsHighest g (acknowledge g).0
      × ((acknowledge g).1.active (acknowledge g).0 ≡ true)
      × (best (acknowledge g).1 ≢ (acknowledge g).0)
unfolding update_line
acknowledge_lem g valid ne = rw (acknowledge-some g ne) (highest, now_active, other)
  where
    highest : IsHighest g (best g)
    highest = IsHighest-of_best g valid ne

    after : Gic
    after = update_line (accepted g (best g))

    now_active : after.active (best g) ≡ true
    now_active = ground arith

    pmr_kept : after.pmr ≡ g.pmr
    pmr_kept = refl

    other : best after ≢ best g
    other e =
        let h = IsHighest-of_best after (omega arith) (λ e'. ne (sym e ∙ e')) in
        let idle = subst (λ k. after.active k ≡ false) e h.eligible.not_active in
        false≢true (sym idle ∙ now_active)

restored :
    (g : Gic) (id : ℕ)
    → id < num_irqs
    → g.active id ≡ false
    → g.cfg_edge id ≡ false
    → IsSettled g
    → end_of_interrupt (update_line (accepted g id)) id ≡ g
unfolding end_of_interrupt
restored g id h idle level s =
    let whole : id % 2 ^ 10 ≡ id = omega arith in
    rw (whole, lt→ltb id num_irqs h)
      (unfold update_line in
        rw (level, actives)
          (update_line-relit g
            (not (best (record g { active = update g.active id true }) == spurious)) s))
  where
    actives : update (update g.active id true) id false ≡ g.active
    actives = fun_ext (λ j. elim (ℕ_discrete j id) [
      | yes e ↦ rw e (rw ==_refl (sym idle))
      | no ne ↦ rw (==_false j id ne)
    ])

-- With a priority mask that is a byte, in a settled controller whose interrupt to signal is
-- level-sensitive: acknowledging and then ending it gives back the same controller, in which it
-- is signalled again.
pub end_of_interrupt-acknowledge :
    (g : Gic)
    → IsValid g
    → IsSettled g
    → best g ≢ spurious
    → g.cfg_edge (best g) ≡ false
    → end_of_interrupt (acknowledge g).1 (acknowledge g).0 ≡ g
end_of_interrupt-acknowledge g valid s ne level =
    rw (acknowledge-some g ne) (restored g (best g) high.in_range high.eligible.not_active level s)
  where
    high : IsHighest g (best g)
    high = IsHighest-of_best g valid ne

set_irq_cases :
    (g : Gic) (intid : ℕ) (lv pend : Bool)
    → intid < num_irqs
    → (if g.cfg_edge intid then g.pending intid || (lv && not (g.line intid)) else lv) ≡ pend
    → (pend ≡ g.pending intid) × (set_irq intid lv g ≡ record g { line = update g.line intid lv })
      ⊎ (set_irq intid lv g
          ≡ update_line
              (record g { line = update g.line intid lv; pending = update g.pending intid pend }))
unfolding set_irq
set_irq_cases g intid lv pend h e = elim (Bool-cases (beq pend (g.pending intid))) [
  | inl eq ↦ inl (beq-eq pend (g.pending intid) eq, rw (lt→ltb intid num_irqs h, e, eq))
  | inr ne ↦ inr (rw (lt→ltb intid num_irqs h, e, ne))
]

-- For an interrupt that exists: `gic_set_irq` records the level; the interrupt becomes pending
-- exactly with the level if it is level-sensitive, and if it is edge-triggered it is pending
-- when it was before or when the level rose; the lines and pending bits of the others are kept.
pub set_irq_lem :
    (g : Gic) (intid : ℕ) (lv : Bool) (j : ℕ)
    → intid < num_irqs
    → ((set_irq intid lv g).line j ≡ (if j == intid then lv else g.line j))
      × ((set_irq intid lv g).pending j ≡ (
          if j == intid
          then if g.cfg_edge intid then g.pending intid || (lv && not (g.line intid)) else lv
          else g.pending j))
set_irq_lem g intid lv j h = elim (set_irq_cases g intid lv _ h refl) [
  | inl (same, e) ↦ (rw e, rw e (rw same (kept g j intid)))
  | inr e ↦ (rw e (unfold update_line in refl), rw e (unfold update_line in refl))
]
  where
    kept : (g : Gic) (j k : ℕ) → g.pending j ≡ (if j == k then g.pending k else g.pending j)
    kept g j k = elim (ℕ_discrete j k) [
      | yes e ↦ rw e (rw ==_refl refl)
      | no ne ↦ rw (==_false j k ne)
    ]
