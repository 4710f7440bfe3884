-- ===== src/Devices/Gic/Runs.antt =====
-- Any sequence of device and guest actions on the controller.
use arm64emu_system.Base.{
  ℕ, ◌≡◌, ◌≢◌, refl, arith, sym, ap, ◌∙◌, Bool, true, false, not, ◌==◌, List, [], ◌∷◌,
}
use arm64emu_system.Base.{Option, some, none, ◌>>=◌, some_inj, subst, ◌-◌, ◌*◌}
use mathlib.Core.Bool.{false≢true}
use arm64emu_system.Devices.Gic.{
  Gic, Event, handle, run, create, best, spurious, gicd_write, within,
}
use arm64emu_system.Devices.Gic.{device, read_distributor, write_distributor, read_interface}
use arm64emu_system.Devices.Gic.{write_interface, mark, gicd_read}
use arm64emu_system.Devices.Gic.Line.{IsSettled, set_irq-IsSettled, gicd_write-IsSettled}
use arm64emu_system.Devices.Gic.Line.{gicc_read-IsSettled, gicc_write-IsSettled}

-- The event is no write to the set-active bank.
abbrev pub IsPlain : Event → Type 0
IsPlain (write_distributor off size val) = within 0x300 0x380 off ≡ false
IsPlain _ = Unit

abbrev pub ArePlain : List Event → Type 0
ArePlain [] = Unit
ArePlain (e ∷ es) = IsPlain e × ArePlain es

handle-IsSettled :
    (e : Event) (g g' : Gic) → IsPlain e → IsSettled g → handle e g ≡ some g' → IsSettled g'
unfolding handle
handle-IsSettled (device intid lv) g g' p s h =
    subst IsSettled (some_inj h) (set_irq-IsSettled intid lv g s)
handle-IsSettled (read_distributor off size) g g' p s h = same (gicd_read g off size) h
  where
    same : (r : Option ℕ) → (r >>= λ _. some g) ≡ some g' → IsSettled g'
    same none h = cc
    same (some r) h = subst IsSettled (some_inj h) s
handle-IsSettled (write_distributor off size val) g g' p s h =
    gicd_write-IsSettled g g' off size val s p h
handle-IsSettled (read_interface off size) g g' p s h =
    subst IsSettled (some_inj h) (gicc_read-IsSettled g off size s)
handle-IsSettled (write_interface off size val) g g' p s h =
    subst IsSettled (some_inj h) (gicc_write-IsSettled g off size val s)

-- From a settled controller, after any sequence of device and guest actions that stays inside
-- the arrays and has no write to the set-active bank, the CPU's line says whether an interrupt
-- can be signalled.
pub run-IsSettled :
    (es : List Event) (g g' : Gic) → ArePlain es → IsSettled g → run es g ≡ some g' → IsSettled g'
unfolding run
run-IsSettled [] g g' p s h = subst IsSettled (some_inj h) s
run-IsSettled (e ∷ es) g g' p s h = rest (handle e g) refl (λ m. run-IsSettled es m g' p.1) h
  where
    rest :
        (o : Option Gic)
        → handle e g ≡ o
        → ((m : Gic) → IsSettled m → run es m ≡ some g' → IsSettled g')
        → (o >>= run es) ≡ some g'
        → IsSettled g'
    rest none eq ih h = cc
    rest (some m) eq ih h = ih m (handle-IsSettled e g m p.0 s eq) h

pub create-IsSettled : IsSettled create
unfolding create best
create-IsSettled = refl

isactiver_write :
    (g : Gic) (off size val : ℕ)
    → within 0x300 0x380 off ≡ true
    → gicd_write g off size val
      ≡ (mark val true ((off - 0x300) * 8) 32 0 g.active >>= λ f. some (record g { active = f }))
unfolding gicd_write
isactiver_write g off size val here =
    let a : (off == 0x000) ≡ false = ground arith in
    let b : within 0x100 0x180 off ≡ false = ground arith in
    let c : within 0x180 0x200 off ≡ false = ground arith in
    let d : within 0x200 0x280 off ≡ false = ground arith in
    let e : within 0x280 0x300 off ≡ false = ground arith in rw (a, b, c, d, e, here)

isactiver_line :
    (g g' : Gic) (off size val : ℕ)
    → within 0x300 0x380 off ≡ true
    → gicd_write g off size val ≡ some g'
    → g'.irq_line ≡ g.irq_line
isactiver_line g g' off size val here h =
    stored (mark val true ((off - 0x300) * 8) 32 0 g.active)
      (sym (isactiver_write g off size val here) ∙ h)
  where
    stored :
        (m : Option (ℕ → Bool))
        → (m >>= λ f. some (record g { active = f })) ≡ some g'
        → g'.irq_line ≡ g.irq_line
    stored none h = cc
    stored (some f) h = ap (λ (k : Gic). k.irq_line) (sym (some_inj h))

-- When a settled controller signals an interrupt and a write to the set-active bank leaves
-- nothing to signal, the CPU's line stays up, so that the controller is not settled.
pub isactiver_stale :
    (g g' : Gic) (off size val : ℕ)
    → IsSettled g
    → best g ≢ spurious
    → within 0x300 0x380 off ≡ true
    → gicd_write g off size val ≡ some g'
    → best g' ≡ spurious
    → (g'.irq_line ≡ true) × ¬ IsSettled g'
isactiver_stale g g' off size val s ne here h quiet =
    (up, λ settled. false≢true (sym (settled ∙ rw quiet refl) ∙ up))
  where
    some_interrupt : not (best g == spurious) ≡ true
    some_interrupt = ground arith

    up : g'.irq_line ≡ true
    up = isactiver_line g g' off size val here h ∙ (s ∙ some_interrupt)
