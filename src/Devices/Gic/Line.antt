-- ===== src/Devices/Gic/Line.antt =====
-- The interrupt line to the CPU is up to date after the operations of the controller.
use arm64emu_system.Base.{
  ℕ, zero, suc, ◌≡◌, ◌%◌, ◌^◌, refl, inl, inr, arith, ap, sym, ◌∙◌, subst, if_ind, some_inj,
}
use arm64emu_system.Base.{Bool, true, false, not, ◌&&◌, ◌||◌, u8, u32, ◌==◌, has_bit, update}
use arm64emu_system.Base.{Option, some, none, if◌then◌else◌, Bool-cases, ◌>>=◌}
use arm64emu_system.Devices.Gic.{Gic, num_irqs, spurious, consider, best_below, best, update_line}
use arm64emu_system.Devices.Gic.{set_irq, gicd_write, gicc_read, gicc_write, within}
use arm64emu_system.Devices.Gic.{acknowledge, accepted, end_of_interrupt, finished}

-- The CPU's line says whether an interrupt can be signalled.
abbrev pub IsSettled : Gic → Type 0
IsSettled g = g.irq_line ≡ not (best g == spurious)

module _ (g : Gic) (a : Bool) (l c : ℕ → Bool) (t : ℕ → ℕ) where
  -- `g` with the fields changed that `gic_best` does not read.
  abbrev pub relabel : Gic
  relabel = record g { irq_line = a; line = l; cfg_edge = c; target = t }

  best_below-relabel : (n : ℕ) → best_below relabel n ≡ best_below g n
  unfolding best_below
  best_below-relabel zero = refl
  best_below-relabel (suc n) = ap (consider g n) (best_below-relabel n)

  pub best-relabel : best relabel ≡ best g
  unfolding best
  best-relabel =
      ap
        (λ (r : ℕ × ℕ).
          if not (has_bit g.d_ctlr 0) || not (has_bit g.c_ctlr 0) then spurious else r.0)
        (best_below-relabel num_irqs)

-- Looking again changes nothing once the line is right, whatever it was.
pub update_line-relit :
    (g : Gic) (b : Bool) → IsSettled g → update_line (record g { irq_line = b }) ≡ g
unfolding update_line
update_line-relit g b s =
    ap (λ (l : Bool). record g { irq_line = l })
      (ap (λ (n : ℕ). not (n == spurious)) (best-relabel g b g.line g.cfg_edge g.target) ∙ sym s)

pub update_line-IsSettled : (g : Gic) → IsSettled (update_line g)
unfolding update_line
update_line-IsSettled g =
    ap (λ (b : ℕ). not (b == spurious))
      (sym (best-relabel g (not (best g == spurious)) g.line g.cfg_edge g.target))

-- A change of the fields that `gic_best` does not read leaves the line right.
relabel-IsSettled :
    (g : Gic) (l c : ℕ → Bool) (t : ℕ → ℕ) → IsSettled g → IsSettled (relabel g g.irq_line l c t)
relabel-IsSettled g l c t s = rw (best-relabel g g.irq_line l c t) s

-- A device that moves its interrupt line leaves the CPU's line right, though the controller looks
-- for the best interrupt only when the pending bit has moved.
pub set_irq-IsSettled :
    (intid : ℕ) (lv : Bool) (g : Gic) → IsSettled g → IsSettled (set_irq intid lv g)
unfolding set_irq
set_irq-IsSettled intid lv g s = ground (
  arith,
  relabel-IsSettled g (update g.line intid lv) g.cfg_edge g.target s,
  update_line-IsSettled (record g {
    line = update g.line intid lv;
    pending =
        update g.pending intid
          (if g.cfg_edge intid then g.pending intid || (lv && not (g.line intid)) else lv);
  }),
)

pub acknowledge-IsSettled : (g : Gic) → IsSettled g → IsSettled (acknowledge g).1
unfolding acknowledge
acknowledge-IsSettled g s = elim (Bool-cases (best g == spurious)) [
  | inl e ↦ rw e s
  | inr e ↦ rw e (update_line-IsSettled (accepted g (best g)))
]

pub end_of_interrupt-IsSettled : (g : Gic) (val : ℕ) → IsSettled (end_of_interrupt g val)
unfolding end_of_interrupt
end_of_interrupt-IsSettled g val = update_line-IsSettled (finished g (val % 2 ^ 10))

abbrev LineOf : ℕ × Gic → Type 0
LineOf r = IsSettled r.1

-- Reading a register of the CPU interface keeps the line right.
pub gicc_read-IsSettled :
    (g : Gic) (off size : ℕ) → IsSettled g → IsSettled (gicc_read g off size).1
unfolding gicc_read
gicc_read-IsSettled g off size s =
    if_ind LineOf (off == 0x00) (λ _. s)
      λ _.
        if_ind LineOf (off == 0x04) (λ _. s)
          λ _.
            if_ind LineOf (off == 0x0c) (λ _. acknowledge-IsSettled g s)
              λ _.
                if_ind LineOf (off == 0x18) (λ _. s)
                  λ _. if_ind LineOf (off == 0xfc) (λ _. s) (λ _. s)

-- Writing one keeps it right, and writing a modelled register makes it right.
pub gicc_write-IsSettled :
    (g : Gic) (off size val : ℕ) → IsSettled g → IsSettled (gicc_write g off size val)
unfolding gicc_write
gicc_write-IsSettled g off size val s =
    if_ind IsSettled (off == 0x00) (λ _. update_line-IsSettled (record g { c_ctlr = u32 val }))
      λ _.
        if_ind IsSettled (off == 0x04) (λ _. update_line-IsSettled (record g { pmr = u8 val }))
          λ _.
            if_ind IsSettled ((off == 0x10) || (off == 0x1000))
              (λ _. end_of_interrupt-IsSettled g val) (λ _. s)

-- The controller that a fallible operation leaves, if it leaves one, has the line right.
abbrev Leaves : Option Gic → Type 0
Leaves o = (g' : Gic) → o ≡ some g' → IsSettled g'

Leaves-some : (g : Gic) → IsSettled g → Leaves (some g)
Leaves-some g s g' e = subst IsSettled (some_inj e) s

Leaves-updated :
    {A : Type 0} (m : Option A) (k : A → Gic) → Leaves (m >>= λ a. some (update_line (k a)))
Leaves-updated none k = λ g' e. cc
Leaves-updated (some a) k = Leaves-some (update_line (k a)) (update_line-IsSettled (k a))

Leaves-relabelled :
    {A : Type 0} (m : Option A) (g : Gic) (c : A → ℕ → Bool) (t : A → ℕ → ℕ)
    → IsSettled g
    → Leaves (m >>= λ a. some (record g { cfg_edge = c a; target = t a }))
Leaves-relabelled none g c t s = λ g' e. cc
Leaves-relabelled (some a) g c t s = Leaves-some _ (relabel-IsSettled g g.line (c a) (t a) s)

Leaves-if :
    (b : Bool) {x y : Option Gic} → Leaves x → (b ≡ false → Leaves y) → Leaves (if b then x else y)
Leaves-if b t f = if_ind Leaves b (λ _. t) f

-- A write to the distributor that stays inside the arrays keeps the line right, unless it sets
-- active bits.
pub gicd_write-IsSettled :
    (g g' : Gic) (off size val : ℕ)
    → IsSettled g
    → within 0x300 0x380 off ≡ false
    → gicd_write g off size val ≡ some g'
    → IsSettled g'
unfolding gicd_write
gicd_write-IsSettled g g' off size val s other =
    Leaves-if (off == 0) (Leaves-some _ (update_line-IsSettled (record g { d_ctlr = u32 val })))
      (λ _.
        Leaves-if (within 0x100 0x180 off) (Leaves-updated _ (λ f. record g { enabled = f })) (λ _.
          Leaves-if (within 0x180 0x200 off) (Leaves-updated _ (λ f. record g { enabled = f }))
            (λ _.
              Leaves-if (within 0x200 0x280 off) (Leaves-updated _ (λ f. record g { pending = f }))
                (λ _.
                  Leaves-if (within 0x280 0x300 off)
                    (Leaves-updated _ (λ f. record g { pending = f }))
                    (λ _.
                      if_ind Leaves (within 0x300 0x380 off) (λ h. absurd (not_both h))
                        (λ _.
                          Leaves-if (within 0x380 0x400 off)
                            (Leaves-updated _ (λ f. record g { active = f }))
                            (λ _.
                              Leaves-if (within 0x400 0x800 off)
                                (Leaves-updated _ (λ f. record g { priority = f }))
                                (λ _.
                                  Leaves-if (within 0x800 0xc00 off)
                                    (Leaves-relabelled _ g (λ f. g.cfg_edge) (λ f. f) s)
                                    (λ _.
                                      Leaves-if (within 0xc00 0xd00 off)
                                        (Leaves-relabelled _ g (λ f. f) (λ f. g.target) s)
                                        (λ _. Leaves-some g s))))))))))
      g'
  where
    not_both : within 0x300 0x380 off ≡ true → ⊥
    not_both h = cc
