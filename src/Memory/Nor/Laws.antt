-- ===== src/Memory/Nor/Laws.antt =====
-- src/memory.c: what the flash commands do to the array.
use mathlib.Core.Bool.{false≢true}
use native.Mathlib.Decide.{ℕ_discrete}
use arm64emu_system.Base.{ℕ, zero, suc, ◌+◌, ◌-◌, ◌*◌, ◌/◌, ◌^◌, ◌≡◌, refl, sym, arith, ◌∙◌, ◌⊎◌}
use arm64emu_system.Base.{
  Bool, true, false, ◌&&◌, ◌==◌, ==_refl, leb, ltb, if◌then◌else◌, u8, bit_and, inl, inr, subst,
  if_ind,
}
use arm64emu_system.Memory.Bytes.{==_false}
use arm64emu_system.Memory.Nor.{Flash, FlashCfi, Phase, bank_of, program, cfi_write, cfi_write_in}

-- Byte `j` after programming `n` bytes of `val` from `off + i` on.
abbrev pub programmed : ℕ → ℕ → ℕ → ℕ → (ℕ → ℕ) → ℕ → ℕ
programmed off val n i f j =
    if leb (off + i) j && ltb j (off + i + n)
    then bit_and (f j) (u8 (val / 2 ^ ((j - off) * 8)))
    else f j

pub program_lem :
    (off val n i : ℕ) (f : ℕ → ℕ) (j : ℕ) → program off val n i f j ≡ programmed off val n i f j
unfolding program
program_lem off val zero i f j = ground arith
program_lem off val (suc n) i f j = elim (ℕ_discrete j (off + i)) [
  | yes e ↦
      let low : leb (off + (i + 1)) (off + i) && ltb (off + i) (off + (i + 1) + n) ≡ false =
        ground arith in
      let hit : leb (off + i) (off + i) && ltb (off + i) (off + i + suc n) ≡ true = ground arith in
      let back : off + i - off ≡ i = omega arith in
      rw e (program_lem off val n (i + 1) _ (off + i) ∙ rw (low, ==_refl (off + i), hit, back) refl)
  | no ne ↦
      let same : leb (off + (i + 1)) j && ltb j (off + (i + 1) + n)
          ≡ leb (off + i) j && ltb j (off + i + suc n) =
        ground arith in
      program_lem off val n (i + 1) _ j ∙ rw (same, ==_false j (off + i) ne) refl
]

-- The new value of a byte is the old one, or has only bits of it.
abbrev pub IsKept : ℕ → ℕ → Type 0
IsKept old new = (new ≡ old) ⊎ ((m : ℕ) × (new ≡ bit_and old m))

abbrev pub is_erase : Phase → Bool
is_erase Phase.erase = true
is_erase Phase.idle = false
is_erase Phase.word = false
is_erase Phase.buf_count = false
is_erase Phase.buf_data = false
is_erase Phase.buf_confirm = false

program-IsKept : (off val n : ℕ) (f : ℕ → ℕ) (j : ℕ) → IsKept (f j) (program off val n 0 f j)
program-IsKept off val n f j = subst (IsKept (f j)) (sym (program_lem off val n 0 f j)) (
    if_ind (IsKept (f j)) (leb (off + 0) j && ltb j (off + 0 + n))
      (λ _. inr (u8 (val / 2 ^ ((j - off) * 8)), refl)) (λ _. inl refl))

cfi_write_in-IsKept :
    (phase : Phase) (s : FlashCfi) (f : Flash) (off size val j : ℕ)
    → is_erase phase ≡ false
    → IsKept (f.cells j) ((cfi_write_in phase s f off size val).cells j)
unfolding cfi_write_in
cfi_write_in-IsKept Phase.erase s f off size val j h = absurd (false≢true (sym h))
cfi_write_in-IsKept Phase.word s f off size val j h = program-IsKept off val size f.cells j
cfi_write_in-IsKept Phase.buf_data s f off size val j h = program-IsKept off val size f.cells j
cfi_write_in-IsKept Phase.buf_count s f off size val j h = inl refl
cfi_write_in-IsKept Phase.idle s f off size val j h = inl refl
cfi_write_in-IsKept Phase.buf_confirm s f off size val j h =
    if_ind (λ (g : Flash). IsKept (f.cells j) (g.cells j)) (u8 val == 0xd0) (λ _. inl refl)
      (λ _. inl refl)

-- Unless its bank waits for the confirmation of an erase, a write to the flash sets no bit of
-- the array: each byte is kept, or is the conjunction of its old value with some mask.
cfi_write-IsKept :
    (f : Flash) (off size val j : ℕ)
    → is_erase (f.banks (bank_of off)).prog ≡ false
    → IsKept (f.cells j) ((cfi_write f off size val).cells j)
unfolding cfi_write
cfi_write-IsKept f off size val j h =
    cfi_write_in-IsKept (f.banks (bank_of off)).prog (f.banks (bank_of off)) f off size val j h
