-- ===== src/Devices/FwCfg/Laws.antt =====
-- src/devices/fwcfg.c: the guest selects an item and reads it through the data register.
use mathlib.Core.Path.{ap₂}
use arm64emu_system.Base.{
  ℕ, zero, suc, ◌+◌, ◌*◌, ◌/◌, ◌%◌, ◌^◌, ◌<◌, ◌≡◌, refl, arith, ap, ◌∙◌, List, [], ◌∷◌, Option,
  some, none, u16,
}
use arm64emu_system.Base.Bits.{bit_or_high, zero-bit_or}
use arm64emu_system.Devices.FwCfg.{
  FwCfg, Item, find, byte_at, length, select, next_byte, advance, fwcfg_read, read_bytes,
}

-- A key as the guest writes it: big-endian.
abbrev pub big_endian : ℕ → ℕ
big_endian k = k % 2 ^ 8 * 2 ^ 8 + k / 2 ^ 8

-- `n` reads of a byte from the data register.
unfoldable pub stream : ℕ → FwCfg → List ℕ
stream zero f = []
stream (suc n) f = let (v, f') = fwcfg_read 0x00 1 f in v ∷ stream n f'

-- The bytes of a list from index `o` on.
window : List ℕ → ℕ → ℕ → List ℕ
window xs o zero = []
window xs o (suc n) = byte_at xs o ∷ window xs (o + 1) n

read_byte : (f : FwCfg) → fwcfg_read 0x00 1 f ≡ (next_byte f, advance f 1)
unfolding fwcfg_read read_bytes
read_byte f =
    ap (λ (v : ℕ). (v, advance f 1)) (zero-bit_or (next_byte f * 2 ^ (0 * 8)) ∙ omega arith)

stream-window :
    (n o : ℕ) (f : FwCfg) (it : Item)
    → find f.items f.sel ≡ some it
    → f.offset ≡ o
    → o + n < 2 ^ 32
    → stream n f ≡ window it.content o n
unfolding stream window
stream-window zero o f it found start fits = refl
stream-window (suc n) o f it found start fits =
    let now : next_byte f ≡ byte_at it.content o =
      ap (λ (t : Option Item). elim t [ none ↦ 0 | some i ↦ byte_at i.content f.offset ]) found
      ∙ ap (byte_at it.content) start in
    rw (read_byte f) (
      ap₂ (λ (b : ℕ) (l : List ℕ). b ∷ l) now
        (stream-window n (o + 1) (advance f 1) it found (omega arith) (omega arith)))

window-cons : (x : ℕ) (xs : List ℕ) (o n : ℕ) → window (x ∷ xs) (suc o) n ≡ window xs o n
unfolding window byte_at
window-cons x xs o zero = refl
window-cons x xs o (suc n) =
    let e : suc o + 1 ≡ suc (o + 1) = omega arith in
    ap (λ (l : List ℕ). byte_at xs o ∷ l) (rw e (window-cons x xs (o + 1) n))

window-all : (xs : List ℕ) → window xs 0 (length xs) ≡ xs
unfolding window byte_at length
window-all [] = refl
window-all (x ∷ xs) = ap (λ (l : List ℕ). x ∷ l) (window-cons x xs 0 (length xs) ∙ window-all xs)

select-big_endian : (f : FwCfg) (k : ℕ) → k < 2 ^ 16 → (select f (big_endian k)).sel ≡ k
unfolding select
select-big_endian f k h =
    let v = big_endian k in ap u16 (bit_or_high 8 v (v / 2 ^ 8) (omega arith)) ∙ omega arith

-- For an item with a 16-bit key and fewer than 2 ^ 32 bytes: writing its key to the selector, then
-- reading the data register as often as it has bytes, gives its bytes in order.
pub stream-select :
    (f : FwCfg) (k : ℕ) (it : Item)
    → k < 2 ^ 16
    → find f.items k ≡ some it
    → length it.content < 2 ^ 32
    → stream (length it.content) (select f (big_endian k)) ≡ it.content
unfolding select
stream-select f k it h found short =
    stream-window (length it.content) 0 (select f (big_endian k)) it
      (ap (find f.items) (select-big_endian f k h) ∙ found) refl (omega arith)
    ∙ window-all it.content
