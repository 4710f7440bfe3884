-- ===== src/Devices/Gic/Access.antt =====
-- The register banks of the distributor: what a write stores, what a read returns, and which
-- accesses stay inside the arrays of 256 interrupts.
use arm64emu_system.Base.{ℕ, zero, suc, ◌+◌, ◌-◌, ◌*◌, ◌/◌, ◌%◌, ◌^◌, ◌≤◌, ◌<◌, ◌≡◌, arith}
use arm64emu_system.Base.{Bool, true, false, ◌&&◌, ◌||◌, ltb, leb, ◌==◌, has_bit, bit_or, update}
use arm64emu_system.Base.{some, none, if◌then◌else◌, Bool-cases}
use arm64emu_system.Base.{refl, inl, inr, from_bool, lt→ltb, fun_ext, ap}
use mathlib.Core.Path.{◌∙◌}
use native.Mathlib.Decide.{ℕ_discrete}
use arm64emu_system.Base.Bits.{bit_or-pow, bit-suc, pow-add-one, mul-pow-add-one}
use arm64emu_system.Devices.Gic.{Gic, num_irqs, gather, mark, gicd_read, gicd_write, within}
use arm64emu_system.Devices.Gic.{update_line}

-- The array after the rounds `i .. i + left - 1` of `mark`.
abbrev pub marked : ℕ → Bool → ℕ → ℕ → ℕ → (ℕ → Bool) → ℕ → Bool
marked val b base left i f j =
    if (leb (base + i) j && ltb j (base + i + left)) && has_bit val (j - base) then b else f j

abbrev marked_step : ℕ → Bool → ℕ → ℕ → (ℕ → Bool) → ℕ → Bool
marked_step val b base i f = if has_bit val i then update f (base + i) b else f

mark_round :
    (val : ℕ) (b : Bool) (base left i : ℕ) (f : ℕ → Bool)
    → base + i < num_irqs
    → mark val b base (suc left) i f
      ≡ mark val b base left (i + 1) (if has_bit val i then update f (base + i) b else f)
unfolding mark
mark_round val b base left i f h = elim (Bool-cases (has_bit val i)) [
  | inl e ↦ rw (e, lt→ltb (base + i) num_irqs h)
  | inr e ↦ rw e
]

marked_round :
    (val : ℕ) (b : Bool) (base left i : ℕ) (f : ℕ → Bool) (j : ℕ)
    → marked val b base left (i + 1) (if has_bit val i then update f (base + i) b else f) j
      ≡ marked val b base (suc left) i f j
marked_round val b base left i f j = elim (ℕ_discrete j (base + i)) [
  | yes e ↦
      let at_i : has_bit val (j - base) ≡ has_bit val i = ap (has_bit val) (omega arith) in
      rw at_i (ground arith)
  | no ne ↦ ground arith
]

-- Inside the array `mark` stores `b` at the interrupts whose bits are set, and changes no other.
pub mark-marked :
    (val : ℕ) (b : Bool) (base left i : ℕ) (f : ℕ → Bool)
    → base + i + left ≤ num_irqs
    → mark val b base left i f ≡ some (marked val b base left i f)
unfolding mark
mark-marked val b base zero i f h = ap some (fun_ext (λ j. ground arith))
mark-marked val b base (suc left) i f h =
    mark_round val b base left i f (omega arith)
    ∙ (mark-marked val b base left (i + 1) (marked_step val b base i f) (omega arith)
        ∙ ap some (fun_ext (marked_round val b base left i f)))

gather-none :
    (f : ℕ → Bool) (base step at left i v : ℕ)
    → 0 < left
    → num_irqs < base + i + left
    → gather f base step at left i v ≡ none
unfolding gather
gather-none f base step at zero i v h k = absurd (omega arith)
gather-none f base step at (suc zero) i v h k = ground arith
gather-none f base step at (suc (suc left)) i v h k = elim (Bool-cases (ltb (base + i) num_irqs)) [
  | inl e ↦ rw e (
      gather-none f base step at (suc left) (i + 1)
        (if f (base + i) then bit_or v (2 ^ (step * i + at)) else v) (omega arith) (omega arith))
  | inr e ↦ rw e
]

-- The flags of the interrupts from `base + i` on, as the binary digits of a number.
abbrev pub word : (ℕ → Bool) → ℕ → ℕ → ℕ → ℕ
word f base zero i = 0
word f base (suc left) i = from_bool (f (base + i)) + 2 * word f base left (i + 1)

digit_zero : (b : Bool) (w : ℕ) → has_bit (from_bool b + 2 * w) 0 ≡ b
digit_zero b w = ground arith

digit_suc : (b : Bool) (w k : ℕ) → has_bit (from_bool b + 2 * w) (suc k) ≡ has_bit w k
digit_suc b w k =
    ap (λ (t : ℕ). t == 1)
      (bit-suc (from_bool b + 2 * w) k ∙ ap (λ (t : ℕ). t / 2 ^ k % 2) (ground arith))

pub has_bit-word :
    (f : ℕ → Bool) (base left i k : ℕ)
    → k < left
    → has_bit (word f base left i) k ≡ f (base + (i + k))
has_bit-word f base zero i k h = elim h [ ]
has_bit-word f base (suc left) i zero h = digit_zero (f (base + i)) _ ∙ ap f (omega arith)
has_bit-word f base (suc left) i (suc k) h =
    digit_suc (f (base + i)) (word f base left (i + 1)) k
    ∙ (has_bit-word f base left (i + 1) k (omega arith) ∙ ap f (omega arith))

gather-word :
    (f : ℕ → Bool) (base left i v : ℕ)
    → base + i + left ≤ num_irqs
    → v < 2 ^ i
    → gather f base 1 0 left i v ≡ some (v + word f base left i * 2 ^ i)
unfolding gather
gather-word f base zero i v h fits = ap some (omega arith)
gather-word f base (suc left) i v h fits =
    rw (lt→ltb (base + i) num_irqs (omega arith))
      (next (f (base + i)) (λ v'. gather-word f base left (i + 1) v' (omega arith)))
  where
    w : ℕ
    w = word f base left (i + 1)

    place : 2 ^ (1 * i + 0) ≡ 2 ^ i
    place = ap (λ (t : ℕ). 2 ^ t) (omega arith)

    next :
        (b : Bool)
        → ((v' : ℕ)
            → v' < 2 ^ (i + 1)
            → gather f base 1 0 left (i + 1) v' ≡ some (v' + w * 2 ^ (i + 1)))
        → gather f base 1 0 left (i + 1) (if b then bit_or v (2 ^ (1 * i + 0)) else v)
          ≡ some (v + (from_bool b + 2 * w) * 2 ^ i)
    next true ih =
        rw (place, bit_or-pow i v fits)
          (ih (v + 2 ^ i) (omega (arith, pow-add-one i))
            ∙ ap some (omega (arith, mul-pow-add-one w i)))
    next false ih =
        ih v (omega (arith, pow-add-one i)) ∙ ap some (omega (arith, mul-pow-add-one w i))

isenabler_read :
    (g : Gic) (off size : ℕ)
    → 0x100 ≤ off
    → off ≤ 0x11c
    → gicd_read g off size ≡ some (word g.enabled ((off - 0x100) * 8) 32 0)
unfolding gicd_read
isenabler_read g off size lo hi =
    let base = (off - 0x100) * 8 in
    let at_0 : (off == 0x000) ≡ false = ground arith in
    let at_4 : (off == 0x004) ≡ false = ground arith in
    let at_8 : (off == 0x008) ≡ false = ground arith in
    let here : within 0x100 0x180 off ≡ true = ground arith in
    rw (at_0, at_4, at_8, here, gather-word g.enabled base 32 0 0 (omega arith) (omega arith))
      (ap some (omega arith))

isenabler_write :
    (g : Gic) (off size val : ℕ)
    → 0x100 ≤ off
    → off ≤ 0x11c
    → gicd_write g off size val
      ≡ some
          (update_line (record g { enabled = marked val true ((off - 0x100) * 8) 32 0 g.enabled }))
unfolding gicd_write
isenabler_write g off size val lo hi =
    let at_0 : (off == 0x000) ≡ false = ground arith in
    let here : within 0x100 0x180 off ≡ true = ground arith in
    rw (at_0, here, mark-marked val true ((off - 0x100) * 8) 32 0 g.enabled (omega arith)) refl

enabled-update_line : (g : Gic) → (update_line g).enabled ≡ g.enabled
unfolding update_line
enabled-update_line g = refl

marked_at :
    (val base k : ℕ) (f : ℕ → Bool)
    → k < 32
    → marked val true base 32 0 f (base + (0 + k)) ≡ has_bit val k || f (base + k)
marked_at val base k f h =
    let there : base + (0 + k) ≡ base + k = omega arith in
    let back : has_bit val (base + k - base) ≡ has_bit val k = ap (has_bit val) (omega arith) in
    rw (there, back) (ground arith)

-- For the words of the set-enable bank at 0x100 to 0x11c: a write succeeds, reading the same
-- offset then succeeds, and the value read has the bits that were enabled before or written,
-- and no other below bit 32.
isenabler_readback :
    (g : Gic) (off size val : ℕ)
    → 0x100 ≤ off
    → off ≤ 0x11c
    → (g' : Gic) × (r : ℕ) × (gicd_write g off size val ≡ some g')
      × (gicd_read g' off size ≡ some r)
      × ((k : ℕ) → k < 32 → has_bit r k ≡ has_bit val k || g.enabled ((off - 0x100) * 8 + k))
isenabler_readback g off size val lo hi = (
  g',
  word g'.enabled base 32 0,
  isenabler_write g off size val lo hi,
  isenabler_read g' off size lo hi,
  λ k h.
      has_bit-word g'.enabled base 32 0 k h
      ∙ (ap (λ (f : ℕ → Bool). f (base + (0 + k)))
            (enabled-update_line (record g { enabled = marked val true base 32 0 g.enabled }))
          ∙ marked_at val base k g.enabled h),
)
  where
    base : ℕ
    base = (off - 0x100) * 8

    g' : Gic
    g' = update_line (record g { enabled = marked val true base 32 0 g.enabled })

-- A read of the set-enable bank above 0x11c and below 0x180, beyond the 256 interrupts that
-- exist, leaves the array.
pub gicd_read-none :
    (g : Gic) (off size : ℕ) → 0x11c < off → off < 0x180 → gicd_read g off size ≡ none
unfolding gicd_read
gicd_read-none g off size lo hi =
    let at_0 : (off == 0x000) ≡ false = ground arith in
    let at_4 : (off == 0x004) ≡ false = ground arith in
    let at_8 : (off == 0x008) ≡ false = ground arith in
    let here : within 0x100 0x180 off ≡ true = ground arith in
    rw (at_0, at_4, at_8, here)
      (gather-none g.enabled ((off - 0x100) * 8) 1 0 32 0 0 (omega arith) (omega arith))
