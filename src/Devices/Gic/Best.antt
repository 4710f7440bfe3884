-- ===== src/Devices/Gic/Best.antt =====
-- `gic_best` against its specification: the eligible interrupt of highest priority.
use arm64emu_system.Base.{ℕ, zero, suc, ◌≤◌, ◌<◌, ◌≡◌, refl, ◌⊎◌, inl, inr, arith}
use arm64emu_system.Base.{Bool, true, false, not, ◌&&◌, ◌||◌, ltb, has_bit, Bool-cases}
use arm64emu_system.Base.{if◌then◌else◌, subst, sym, ap}
use native.Mathlib.Decide.{dec_lt}
use native.Mathlib.Nat.{le_of_eq}
use arm64emu_system.Devices.Gic.{Gic, num_irqs, spurious, consider, best_below, best}

-- Interrupt `i` may be signalled: enabled, pending, not active, and not masked by the priority mask.
pub record IsEligible (g : Gic) (i : ℕ) : Type 0 where
  pub is_enabled : g.enabled i ≡ true
  pub is_pending : g.pending i ≡ true
  pub not_active : g.active i ≡ false
  pub unmasked : g.priority i < g.pmr

-- Both the distributor and the CPU interface forward interrupts.
abbrev pub IsForwarding : Gic → Type 0
IsForwarding g = (has_bit g.d_ctlr 0 ≡ true) × (has_bit g.c_ctlr 0 ≡ true)

-- `pmr` is a byte.
abbrev pub IsValid : Gic → Type 0
IsValid g = g.pmr < 256

-- `id` is the interrupt to signal: nothing eligible has a lower priority value, and nothing
-- eligible below it has the same one.
pub record IsHighest (g : Gic) (id : ℕ) : Type 0 where
  pub in_range : id < num_irqs
  pub forwarding : IsForwarding g
  pub eligible : IsEligible g id
  pub least : (i : ℕ) → i < num_irqs → IsEligible g i → g.priority id ≤ g.priority i
  pub first : (i : ℕ) → i < id → IsEligible g i → g.priority id < g.priority i

-- Nothing can be signalled.
abbrev pub IsQuiet : Gic → Type 0
IsQuiet g = (i : ℕ) → i < num_irqs → IsForwarding g → IsEligible g i → ⊥

abbrev is_eligible : Gic → ℕ → Bool
is_eligible g i = g.enabled i && (g.pending i && (not (g.active i) && ltb (g.priority i) g.pmr))

is_eligible_sound : (g : Gic) (i : ℕ) → is_eligible g i ≡ true → IsEligible g i
is_eligible_sound g i h = ground arith

is_eligible_complete : (g : Gic) (i : ℕ) → IsEligible g i → is_eligible g i ≡ true
is_eligible_complete g i h = ground arith

consider_lem :
    (g : Gic) (i : ℕ) (r : ℕ × ℕ)
    → consider g i r ≡ (if is_eligible g i && ltb (g.priority i) r.1 then (i, g.priority i) else r)
consider_lem g i r = ground arith

-- What the scan knows after the interrupts below `n`.
record Scanned (g : Gic) (n : ℕ) (r : ℕ × ℕ) : Type 0 where
  found : ((r.0 ≡ spurious) × (r.1 ≡ 256)) ⊎ ((r.0 < n) × IsEligible g r.0 × (r.1 ≡ g.priority r.0))
  least : (i : ℕ) → i < n → IsEligible g i → r.1 ≤ g.priority i
  first : (i : ℕ) → i < n → i < r.0 → IsEligible g i → r.1 < g.priority i

module _ (g : Gic) (valid : IsValid g) (n : ℕ) (r : ℕ × ℕ) (s : Scanned g n r) where
  Scanned-taken : is_eligible g n ≡ true → g.priority n < r.1 → Scanned g (suc n) (n, g.priority n)
  Scanned-taken e lt = record {
    found = inr (omega arith, is_eligible_sound g n e, refl);
    least = λ i h el. elim (dec_lt i n) [
      | yes below ↦ omega (arith, s.least i below el)
      | no same ↦ le_of_eq (ap g.priority (omega arith))
    ];
    first = λ i h h' el. omega (arith, s.least i h' el);
  }

  -- The interrupt `n` is skipped: it is not eligible, or no better than the one that is kept.
  Scanned-kept : (is_eligible g n ≡ true → r.1 ≤ g.priority n) → Scanned g (suc n) r
  Scanned-kept no_better = record {
    found = ground (arith, s.found);
    least = λ i h el. elim (dec_lt i n) [
      | yes below ↦ s.least i below el
      | no same ↦ at_end i (omega arith) el
    ];
    first = λ i h h' el. elim (dec_lt i n) [
      | yes below ↦ s.first i below h' el
      | no same ↦ absurd (past_end i (omega arith) h' el (at_end i (omega arith) el))
    ];
  }
    where
      at_end : (i : ℕ) → i ≡ n → IsEligible g i → r.1 ≤ g.priority i
      at_end i e el =
          subst (λ k. r.1 ≤ g.priority k) (sym e)
            (no_better (is_eligible_complete g n (subst (IsEligible g) e el)))

      past_end : (i : ℕ) → i ≡ n → i < r.0 → IsEligible g i → r.1 ≤ g.priority i → ⊥
      past_end i e h el le = ground (arith, s.found, el.unmasked)

  scan_step : Scanned g (suc n) (consider g n r)
  scan_step = rw (consider_lem g n r) (by_cases (is_eligible g n) refl)
    where
      by_cases :
          (b : Bool)
          → is_eligible g n ≡ b
          → Scanned g (suc n) (if b && ltb (g.priority n) r.1 then (n, g.priority n) else r)
      by_cases false e = Scanned-kept (λ t. cc)
      by_cases true e = elim (Bool-cases (ltb (g.priority n) r.1)) [
        | inl lt ↦ rw lt (Scanned-taken e (ground arith))
        | inr ge ↦ rw ge (Scanned-kept (λ t. ground arith))
      ]

scan : (g : Gic) → IsValid g → (n : ℕ) → Scanned g n (best_below g n)
unfolding best_below
scan g valid zero = record {
  found = inl (refl, refl);
  least = λ i h el. elim h [ ];
  first = λ i h h' el. elim h [ ];
}
scan g valid (suc n) = scan_step g valid n (best_below g n) (scan g valid n)

best-forwarding : (g : Gic) → IsForwarding g → best g ≡ (best_below g num_irqs).0
unfolding best
best-forwarding g (d, c) = rw (d, c)

best-not_forwarding :
    (g : Gic) → not (has_bit g.d_ctlr 0) || not (has_bit g.c_ctlr 0) ≡ true → best g ≡ spurious
unfolding best
best-not_forwarding g off = rw off

IsForwarding-cases :
    (g : Gic) → IsForwarding g ⊎ (not (has_bit g.d_ctlr 0) || not (has_bit g.c_ctlr 0) ≡ true)
IsForwarding-cases g = ground arith

IsHighest-of_scan :
    (g : Gic) (r : ℕ × ℕ)
    → IsValid g
    → IsForwarding g
    → Scanned g num_irqs r
    → IsHighest g r.0 ⊎ ((r.0 ≡ spurious) × IsQuiet g)
IsHighest-of_scan g r valid on s = elim s.found [
  | inl (e, p) ↦ inr (e, λ i h _ el. omega (arith, s.least i h el, el.unmasked))
  | inr (h, el, p) ↦ inl (record {
    in_range = h;
    forwarding = on;
    eligible = el;
    least = λ i hi eli. omega (arith, s.least i hi eli);
    first = λ i hi eli. omega (arith, s.first i (omega arith) hi eli);
  })
]

-- With a priority mask that is a byte: `gic_best` returns the interrupt to signal (both enables
-- on; enabled, pending, not active, of a priority that passes the mask; none of higher
-- priority, and none of the same priority with a lower number), or SPURIOUS, and then no
-- interrupt can be signalled.
pub best-IsHighest :
    (g : Gic) → IsValid g → IsHighest g (best g) ⊎ ((best g ≡ spurious) × IsQuiet g)
best-IsHighest g valid = elim (IsForwarding-cases g) [
  | inl on ↦
      rw (best-forwarding g on)
        (IsHighest-of_scan g (best_below g num_irqs) valid on (scan g valid num_irqs))
  | inr off ↦ inr (best-not_forwarding g off, λ i h on el. ground arith)
]
