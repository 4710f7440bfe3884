-- ===== src/Devices/Uart/Fifo.antt =====
-- src/devices/pl011.c: the receive ring is a queue of at most 63 bytes, and polling and reading
-- move the terminal's bytes through it in order.
use mathlib.Core.List.{map, append_assoc}
use arm64emu_system.Base.{ℕ, zero, suc, ◌+◌, ◌-◌, ◌%◌, ◌≤◌, ◌<◌, ◌≡◌, refl, arith, ap, ◌∙◌}
use arm64emu_system.Base.{
  true, false, List, [], ◌∷◌, ◌++◌, Option, none, some, ◌==◌, ◌≢◌, ==_refl, u8, update, ◌⊎◌, inl,
  inr, Bool-cases,
}
use arm64emu_system.Devices.Uart.{Pl011, fifo_size, rx_empty, rx_full, rx_push, rx_pop, rx_loop}

-- Both indices stand in the ring.
pub record IsValid (p : Pl011) : Type 0 where
  pub head_small : p.rx_head < fifo_size
  pub tail_small : p.rx_tail < fifo_size

-- How many bytes wait, and the bytes from index `h` on.
abbrev pub used : Pl011 → ℕ
used p = (p.rx_tail + fifo_size - p.rx_head) % fifo_size

unfoldable pub ring : (ℕ → ℕ) → ℕ → ℕ → List ℕ
ring f h zero = []
ring f h (suc n) = f h ∷ ring f ((h + 1) % fifo_size) n

-- The abstract queue of a port.
abbrev pub queue : Pl011 → List ℕ
queue p = ring p.rx_fifo p.rx_head (used p)

==_false : (a b : ℕ) → a ≢ b → (a == b) ≡ false
==_false a b ne = ground arith

-- A store at an index that the bytes do not reach leaves them.
ring-update :
    (f : ℕ → ℕ) (h n t x : ℕ)
    → h < fifo_size
    → t < fifo_size
    → n ≤ (t + fifo_size - h) % fifo_size
    → ring (update f t x) h n ≡ ring f h n
unfolding ring
ring-update f h zero t x hh ht le = refl
ring-update f h (suc n) t x hh ht le =
    let here : (h == t) ≡ false = ==_false h t (λ e. omega arith) in
    rw here
      (ap (λ l. f h ∷ l) (ring-update f ((h + 1) % fifo_size) n t x (omega arith) ht (omega arith)))

-- One more byte at the end.
ring-suc :
    (f : ℕ → ℕ) (h n : ℕ)
    → h < fifo_size
    → ring f h (suc n) ≡ ring f h n ++ (f ((h + n) % fifo_size) ∷ [])
unfolding ring
ring-suc f h zero hh = let e : (h + 0) % fifo_size ≡ h = omega arith in rw e refl
ring-suc f h (suc n) hh =
    let e : ((h + 1) % fifo_size + n) % fifo_size ≡ (h + suc n) % fifo_size = omega arith in
    ap (λ l. f h ∷ l)
      (ring-suc f ((h + 1) % fifo_size) n (omega arith)
        ∙ ap (λ i. ring f ((h + 1) % fifo_size) n ++ (f i ∷ [])) e)

pub rx_push-IsValid : (p : Pl011) (ch : ℕ) → IsValid p → IsValid (rx_push ch p)
unfolding rx_push
rx_push-IsValid p ch v = elim (Bool-cases (rx_full p)) [
  | inl full ↦ rw full v
  | inr room ↦ rw room (record { head_small = v.head_small; tail_small = omega arith })
]

-- From indices inside the ring that is not full: a byte that is pushed stands at the end of the
-- queue, behind the bytes that were there.
pub rx_push-queue :
    (p : Pl011) (ch : ℕ)
    → IsValid p
    → rx_full p ≡ false
    → queue (rx_push ch p) ≡ queue p ++ (ch ∷ [])
unfolding rx_push rx_full
rx_push-queue p ch v room =
    let h = v.head_small in
    let t = v.tail_small in
    let grown : ((p.rx_tail + 1) % fifo_size + fifo_size - p.rx_head) % fifo_size ≡ suc (used p) =
      ground arith in
    let end : (p.rx_head + used p) % fifo_size ≡ p.rx_tail = omega arith in
    let f = update p.rx_fifo p.rx_tail ch in
    let stored : f ((p.rx_head + used p) % fifo_size) ≡ ch = rw (end, ==_refl p.rx_tail) refl in
    rw (room, grown)
      (ring-suc f p.rx_head (used p) h
        ∙ (ap (λ i. ring f p.rx_head (used p) ++ (i ∷ [])) stored
            ∙ ap (λ l. l ++ (ch ∷ []))
                (ring-update p.rx_fifo p.rx_head (used p) p.rx_tail ch h t (omega arith))))

-- What taking a byte out of a queue means for the port: nothing to take, or the first byte.
pub data IsTaken (p : Pl011) : Option ℕ × Pl011 → Type 0 where
  nothing : queue p ≡ [] → IsTaken p (none, p)
  first : (x : ℕ) (p' : Pl011) → queue p ≡ x ∷ queue p' → IsValid p' → IsTaken p (some x, p')

-- From indices inside the ring: taking a byte answers that there is none and the queue is
-- empty, or takes the first byte of the queue, leaves the others in their order, and the
-- indices inside.
rx_pop-IsTaken : (p : Pl011) → IsValid p → IsTaken p (rx_pop p)
unfolding rx_pop rx_empty ring
rx_pop-IsTaken p v = elim (Bool-cases (rx_empty p)) [
  | inl none_left ↦ let nil : used p ≡ 0 = ground arith in rw none_left (nothing (rw nil refl))
  | inr some_left ↦
      let p' = record p { rx_head = (p.rx_head + 1) % fifo_size } in
      let more : used p ≡ suc (used p') = ground arith in
      rw some_left (
        first (p.rx_fifo p.rx_head) p' (rw more refl)
          (record { head_small = omega arith; tail_small = v.tail_small }))
]

-- From indices inside the ring: polling leaves them inside, moves bytes of the terminal to the
-- end of the queue in their order and loses none, and stops only when the terminal has no more
-- or the ring is full.
pub rx_loop-queue :
    (ready : List ℕ) (p : Pl011)
    → IsValid p
    → let (p', rest) = rx_loop ready p in
      IsValid p'
      × (queue p' ++ map u8 rest ≡ queue p ++ map u8 ready)
      × ((rest ≡ []) ⊎ (rx_full p' ≡ true))
unfolding rx_loop
rx_loop-queue [] p v = (v, refl, inl refl)
rx_loop-queue (ch ∷ ready) p v = elim (Bool-cases (rx_full p)) [
  | inl full ↦ rw (rx_loop, full) (v, refl, inr full)
  | inr room ↦
      let ih = rx_loop-queue ready (rx_push (u8 ch) p) (rx_push-IsValid p (u8 ch) v) in
      rw (rx_loop, room)
        (
          ih.0,
          ih.1
              ∙ (rw (rx_push-queue p (u8 ch) v room)
                  (append_assoc (queue p) (u8 ch ∷ []) (map u8 ready))),
          ih.2,
        )
]
