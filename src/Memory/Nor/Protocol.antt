-- ===== src/Memory/Nor/Protocol.antt =====
-- src/memory.c: the command sequence by which the firmware stores a variable.
use native.Mathlib.Nat.{div-div-eq-div-mul}
use arm64emu_system.Base.{
  ℕ, zero, suc, ◌+◌, ◌-◌, ◌*◌, ◌/◌, ◌%◌, ◌^◌, ◌≤◌, ◌<◌, ◌≡◌, refl, sym, arith, ap, ◌∙◌,
}
use arm64emu_system.Base.{true, ◌&&◌, ==_refl, leb, ltb, bit_and, align_down, none}
use arm64emu_system.Base.Bits.{bit_and_step, zero-bit_and}
use arm64emu_system.Memory.{ld_le}
use arm64emu_system.Memory.Bytes.{pow_bytes, mod_split}
use arm64emu_system.Memory.Nor.{
  Flash, Phase, Mode, bank_of, program, wipe, cfi_write, cfi_write_in, cfi_read, command, fl_block,
  fl_stat_rdy, put_bank, FlashCfi,
}
use arm64emu_system.Memory.Nor.Laws.{program_lem}

low_and : (b : ℕ) → b < 2 ^ 4 → bit_and 0xf b ≡ b
low_and b h = omega (
  arith,
  bit_and_step 15 b,
  bit_and_step 7 (b / 2),
  bit_and_step 3 (b / 2 / 2),
  bit_and_step 1 (b / 2 / 2 / 2),
  zero-bit_and (b / 2 / 2 / 2 / 2),
)

-- An erased byte takes what is programmed.
erased_and : (b : ℕ) → b < 2 ^ 8 → bit_and 0xff b ≡ b
erased_and b h = omega (
  arith,
  bit_and_step 255 b,
  bit_and_step 127 (b / 2),
  bit_and_step 63 (b / 2 / 2),
  bit_and_step 31 (b / 2 / 2 / 2),
  low_and (b / 2 / 2 / 2 / 2) (omega arith),
)

-- Bytes that are the digits of a value load as the value, cut to their number.
ld_le-digits :
    (g : ℕ → ℕ) (i n v : ℕ)
    → ((k : ℕ) → k < n → g (i + k) ≡ v / 2 ^ (k * 8) % 2 ^ 8)
    → ld_le g i n ≡ v % 2 ^ (8 * n)
unfolding ld_le
ld_le-digits g i zero v digit = omega arith
ld_le-digits g i (suc n) v digit =
    let first : g i ≡ v % 2 ^ 8 = ap g (omega arith) ∙ (digit 0 (omega arith) ∙ omega arith) in
    let others = ld_le-digits g (i + 1) n (v / 2 ^ 8) (λ k h.
      ap g (omega arith) ∙ (digit (suc k) (omega arith) ∙ ap (λ (t : ℕ). t % 2 ^ 8) (shifted k))) in
    rw (first, others) (mod_split (2 ^ (8 * n)) v ∙ ap (λ (t : ℕ). v % t) (sym (pow_bytes n)))
  where
    shifted : (k : ℕ) → v / 2 ^ (suc k * 8) ≡ v / 2 ^ 8 / 2 ^ (k * 8)
    shifted k =
        let e : suc k * 8 ≡ 8 * suc k = omega arith in
        let e' : 8 * k ≡ k * 8 = omega arith in
        ap (λ (t : ℕ). v / t)
          (ap (λ (t : ℕ). 2 ^ t) e ∙ (pow_bytes k ∙ ap (λ (t : ℕ). 2 ^ 8 * 2 ^ t) e'))
        ∙ sym (div-div-eq-div-mul v (2 ^ 8) (2 ^ (k * 8)))

-- The flash after erasing the block of `off` and programming a word in it, back in read-array mode.
abbrev pub rewrite : Flash → ℕ → ℕ → ℕ → Flash
rewrite f off size val =
    let f₁ = cfi_write f off size 0x20 in
    let f₂ = cfi_write f₁ off size 0xd0 in
    let f₃ = cfi_write f₂ off size 0x40 in
    let f₄ = cfi_write f₃ off size val in cfi_write f₄ off size 0xff

put_bank-read : (off : ℕ) (s : FlashCfi) (f : Flash) → (put_bank off s f).banks (bank_of off) ≡ s
put_bank-read off s f = rw (==_refl (bank_of off)) refl

-- A write to a bank whose state is known.
cfi_write-put_bank :
    (f : Flash) (off size val : ℕ) (s : FlashCfi)
    → cfi_write (put_bank off s f) off size val
      ≡ cfi_write_in s.prog s (put_bank off s f) off size val
unfolding cfi_write
cfi_write-put_bank f off size val s =
    ap (λ (t : FlashCfi). cfi_write_in t.prog t (put_bank off s f) off size val)
      (put_bank-read off s f)

abbrev entered : Phase → FlashCfi → FlashCfi
entered phase s = record s { prog = phase; mode = Mode.read_status }

abbrev settled : FlashCfi → FlashCfi
settled s = record s { prog = Phase.idle; mode = Mode.read_status; status = fl_stat_rdy }

abbrev wiped : Flash → ℕ → Flash
wiped f off = record f { cells = wipe (align_down off 18) f.cells }

abbrev filled : Flash → ℕ → ℕ → ℕ → Flash
filled f off size val = record f { cells = program off val size 0 f.cells }

erase_started :
    (f : Flash) (off size : ℕ)
    → (f.banks (bank_of off)).prog ≡ Phase.idle
    → cfi_write f off size 0x20 ≡ put_bank off (entered Phase.erase (f.banks (bank_of off))) f
unfolding cfi_write cfi_write_in command
erase_started f off size e = rw e refl

erase_confirmed :
    (g : Flash) (off size : ℕ) (s : FlashCfi)
    → let g' = put_bank off (entered Phase.erase s) g in
      cfi_write g' off size 0xd0 ≡ put_bank off (settled s) (wiped g' off)
unfolding cfi_write_in
erase_confirmed g off size s = cfi_write-put_bank g off size 0xd0 (entered Phase.erase s)

word_started :
    (g : Flash) (off size : ℕ) (s : FlashCfi)
    → let g' = put_bank off (settled s) g in
      cfi_write g' off size 0x40 ≡ put_bank off (entered Phase.word (settled s)) g'
unfolding cfi_write_in command
word_started g off size s = cfi_write-put_bank g off size 0x40 (settled s)

word_stored :
    (g : Flash) (off size val : ℕ) (s : FlashCfi)
    → let g' = put_bank off (entered Phase.word (settled s)) g in
      cfi_write g' off size val ≡ put_bank off (settled s) (filled g' off size val)
unfolding cfi_write_in
word_stored g off size val s = cfi_write-put_bank g off size val (entered Phase.word (settled s))

array_selected :
    (g : Flash) (off size : ℕ) (s : FlashCfi)
    → let g' = put_bank off (settled s) g in
      cfi_write g' off size 0xff ≡ put_bank off (record (settled s) { mode = Mode.read_array }) g'
unfolding cfi_write_in command
array_selected g off size s = cfi_write-put_bank g off size 0xff (settled s)

-- The array after the sequence, and the bank, which is read as an array.
rewrite-stored :
    (f : Flash) (off size val : ℕ)
    → (f.banks (bank_of off)).prog ≡ Phase.idle
    → ((rewrite f off size val).cells ≡ program off val size 0 (wipe (align_down off 18) f.cells))
      × (((rewrite f off size val).banks (bank_of off)).mode ≡ Mode.read_array)
rewrite-stored f off size val e =
    let s = f.banks (bank_of off) in
    let g₁ = put_bank off (entered Phase.erase s) f in
    let g₂ = put_bank off (settled s) (wiped g₁ off) in
    let g₃ = put_bank off (entered Phase.word (settled s)) g₂ in
    let g₄ = put_bank off (settled s) (filled g₃ off size val) in
    let all : rewrite f off size val
        ≡ put_bank off (record (settled s) { mode = Mode.read_array }) g₄ =
      ap
        (λ (g : Flash).
          cfi_write (cfi_write (cfi_write (cfi_write g off size 0xd0) off size 0x40) off size val)
            off size 0xff)
        (erase_started f off size e)
      ∙ (ap
            (λ (g : Flash).
              cfi_write (cfi_write (cfi_write g off size 0x40) off size val) off size 0xff)
            (erase_confirmed f off size s)
          ∙ (ap (λ (g : Flash). cfi_write (cfi_write g off size val) off size 0xff)
                (word_started (wiped g₁ off) off size s)
              ∙ (ap (λ (g : Flash). cfi_write g off size 0xff) (word_stored g₂ off size val s)
                  ∙ array_selected (filled g₃ off size val) off size s))) in
    (
      ap (λ (g : Flash). g.cells) all,
      ap (λ (g : Flash). (g.banks (bank_of off)).mode) all
          ∙ ap (λ (t : FlashCfi). t.mode)
              (put_bank-read off (record (settled s) { mode = Mode.read_array }) g₄),
    )

cfi_read-array :
    (g : Flash) (off size : ℕ)
    → (g.banks (bank_of off)).mode ≡ Mode.read_array
    → cfi_read g off size ≡ none
unfolding cfi_read
cfi_read-array g off size e = rw (cfi_read, e) refl

-- When the bank is idle and the bytes stand in one block of the flash: erasing the block,
-- programming a value, and going back to read-array mode makes the flash answer from its array,
-- where the bytes are the value cut to its size, whatever the block held before.
pub rewrite-read :
    (f : Flash) (off size val : ℕ)
    → (f.banks (bank_of off)).prog ≡ Phase.idle
    → off + size ≤ align_down off 18 + fl_block
    → (cfi_read (rewrite f off size val) off size ≡ none)
      × (ld_le (rewrite f off size val).cells off size ≡ val % 2 ^ (8 * size))
unfolding wipe
rewrite-read f off size val e inside =
    let r = rewrite-stored f off size val e in
    (
      cfi_read-array (rewrite f off size val) off size r.1,
      rw r.0 (ld_le-digits _ off size val (λ k h. stored k h)),
    )
  where
    w : ℕ → ℕ
    w = wipe (align_down off 18) f.cells

    erased : (k : ℕ) → k < size → w (off + k) ≡ 0xff
    erased k h =
        let hit : leb (align_down off 18) (off + k) && ltb (off + k) (align_down off 18 + fl_block)
            ≡ true =
          ground arith in
        rw hit refl

    stored : (k : ℕ) → k < size → program off val size 0 w (off + k) ≡ val / 2 ^ (k * 8) % 2 ^ 8
    stored k h =
        let hit : leb (off + 0) (off + k) && ltb (off + k) (off + 0 + size) ≡ true = ground arith in
        let back : off + k - off ≡ k = omega arith in
        program_lem off val size 0 w (off + k)
        ∙ rw (hit, back, erased k h) (erased_and (val / 2 ^ (k * 8) % 2 ^ 8) (omega arith))
