-- ===== src/Fdt/Edit.antt =====
-- src/fdt/fdt.c: the edit changes nothing but the sixteen bytes of one property value.
use native.Mathlib.Nat.{div-add-mod, add-mul, mul_comm, mul_assoc, div-div-eq-div-mul}
use arm64emu_system.Memory.Bytes.{pow_bytes, ==_false}
use arm64emu_system.Base.{
  ℕ, zero, suc, ◌+◌, ◌*◌, ◌/◌, ◌%◌, ◌^◌, ◌≤◌, ◌<◌, ◌≡◌, refl, sym, ap, ◌∙◌, arith, true, not, ◌==◌,
  ==_refl, ltb, if_ind, u8, update, ◌⊎◌, inl, inr,
}
use arm64emu_system.Fdt.{
  Result, ◌>>=◌, failed, done, Blob, be32, put_be64, Layout, walk, start, fdt_set_memory, fdt_magic,
  hdr_size,
}
use arm64emu_system.Fdt.Texts.{Ensures, good, weaken, be32-Ensures}
use arm64emu_system.Fdt.Safe.{IsLayout, walk-Ensures}

-- The number that `n` bytes from `p` on stand for, the highest first.
unfoldable pub big_endian : (ℕ → ℕ) → ℕ → ℕ → ℕ
big_endian cells p zero = 0
big_endian cells p (suc n) = cells p * 2 ^ (8 * n) + big_endian cells (p + 1) n

-- A blob with the bytes from `p` on replaced by `n` bytes of a number.
record IsWritten (f : Blob) (p n v : ℕ) (f' : Blob) : Type 0 where
  size : f'.len ≡ f.len
  value : big_endian f'.cells p n ≡ v % 2 ^ (8 * n)
  rest : (j : ℕ) → (j < p) ⊎ (p + n ≤ j) → f'.cells j ≡ f.cells j

-- A number is its digit at `a` and what is below.
digit_split : (a b v : ℕ) → v / a % b * a + v % a ≡ v % (b * a)
digit_split a b v = omega (
  arith,
  div-add-mod v a,
  div-add-mod v (b * a),
  ap (λ (t : ℕ). t * a) (div-add-mod (v / a) b),
  add-mul (b * (v / a / b)) (v / a % b) a,
  mul_comm b a,
  mul_comm (v / a) a,
  mul_assoc a b (v / a / b),
  mul_comm (b * (v / a / b)) a,
  ap (λ (t : ℕ). a * b * t) (div-div-eq-div-mul v a b),
  ap (λ (t : ℕ). t * (v / t)) (mul_comm b a),
)

put_be64-Ensures :
    (f : Blob) (p n v : ℕ) → p + n ≤ f.len → Ensures (IsWritten f p n v) (put_be64 f p n v)
unfolding put_be64 big_endian
put_be64-Ensures f p zero v h =
    good f (record { size = refl; value = omega arith; rest = λ j out. refl })
put_be64-Ensures f p (suc n) v h =
    let f₁ = record f { cells = update f.cells p (u8 (v / 2 ^ (8 * n))) } in
    let inside : ltb p f.len ≡ true = ground arith in
    rw inside (
      weaken (put_be64-Ensures f₁ (p + 1) n v (omega arith)) (λ f' w. record {
        size = w.size;
        value =
            let first : f'.cells p ≡ u8 (v / 2 ^ (8 * n)) =
              w.rest p (inl (omega arith)) ∙ rw (==_refl p) refl in
            rw (first, w.value)
              (digit_split (2 ^ (8 * n)) (2 ^ 8) v ∙ ap (λ (t : ℕ). v % t) (sym (pow_bytes n)));
        rest = λ j out. elim out [
          | inl below ↦ w.rest j (inl (omega arith)) ∙ rw (==_false j p (λ e. omega arith)) refl
          | inr above ↦ w.rest j (inr (omega arith)) ∙ rw (==_false j p (λ e. omega arith)) refl
        ];
      }))

-- What the edit may do to a blob: refuse, or set the sixteen bytes from some index on to the two
-- numbers.
pub data IsEdit (f : Blob) (base size : ℕ) : Result Blob → Type 0 where
  refused : IsEdit f base size failed
  edited :
      (f' : Blob) (r : ℕ)
      → r + 16 ≤ f.len
      → f'.len ≡ f.len
      → big_endian f'.cells r 8 ≡ base
      → big_endian f'.cells (r + 8) 8 ≡ size
      → ((j : ℕ) → (j < r) ⊎ (r + 16 ≤ j) → f'.cells j ≡ f.cells j)
      → IsEdit f base size (done f')

big_endian_eq :
    (g h : ℕ → ℕ) (p n : ℕ)
    → ((j : ℕ) → p ≤ j → j < p + n → g j ≡ h j)
    → big_endian g p n ≡ big_endian h p n
unfolding big_endian
big_endian_eq g h p zero e = refl
big_endian_eq g h p (suc n) e =
    rw
      (
        e p (omega arith) (omega arith),
        big_endian_eq g h (p + 1) n (λ j lo hi. e j (omega arith) (omega arith)),
      )
      refl

edit :
    (f : Blob) (base size r : ℕ)
    → base < 2 ^ 64
    → size < 2 ^ 64
    → r + 16 ≤ f.len
    → IsEdit f base size (put_be64 f r 8 base >>= λ f'. put_be64 f' (r + 8) 8 size)
edit f base size r hb hs h = first (put_be64 f r 8 base) (put_be64-Ensures f r 8 base (omega arith))
  where
    second :
        (f' : Blob)
        → IsWritten f r 8 base f'
        → (o : Result Blob) → Ensures (IsWritten f' (r + 8) 8 size) o
        → IsEdit f base size o
    second f' w _ Ensures.refused = IsEdit.refused
    second f' w _ (good f'' w') =
        edited f'' r h (w'.size ∙ w.size)
          (big_endian_eq f''.cells f'.cells r 8 (λ j lo hi. w'.rest j (inl (omega arith)))
            ∙ (w.value ∙ omega arith))
          (w'.value ∙ omega arith)
          (λ j out. elim out [
            | inl below ↦ w'.rest j (inl (omega arith)) ∙ w.rest j (inl below)
            | inr above ↦ w'.rest j (inr (omega arith)) ∙ w.rest j (inr (omega arith))
          ])

    first :
        (o : Result Blob)
        → Ensures (IsWritten f r 8 base) o
        → IsEdit f base size (o >>= λ f'. put_be64 f' (r + 8) 8 size)
    first _ Ensures.refused = IsEdit.refused
    first _ (good f' w) =
        second f' w (put_be64 f' (r + 8) 8 size)
          (put_be64-Ensures f' (r + 8) 8 size (let s = w.size in omega arith))

-- For any blob and two numbers of 64 bits: the edit never reads or writes outside the blob, its
-- walk ends, and it either refuses or returns the blob with the same length, in which sixteen
-- bytes in a row hold the two numbers, the highest byte first, and every other byte is as it was.
pub fdt_set_memory-IsEdit :
    (f : Blob) (base size : ℕ)
    → base < 2 ^ 64
    → size < 2 ^ 64
    → IsEdit f base size (fdt_set_memory f base size)
unfolding fdt_set_memory
fdt_set_memory-IsEdit f base size hb hs =
    if_ind (IsEdit f base size) (ltb f.len hdr_size) (λ _. IsEdit.refused)
      (λ long.
        let header : 40 ≤ f.len = ground arith in
        read 0 (omega arith) _ (λ magic.
          if_ind (IsEdit f base size) (not (magic == fdt_magic)) (λ _. IsEdit.refused)
            (λ _. read 8 (omega arith) _ (λ off_struct. read 12 (omega arith) _ (λ off_strings.
              read 32 (omega arith) _ (λ len_strings. read 36 (omega arith) _ (λ len_struct.
                if_ind (IsEdit f base size) (ltb f.len (off_struct + len_struct))
                  (λ _. IsEdit.refused)
                  (λ a.
                    if_ind (IsEdit f base size) (ltb f.len (off_strings + len_strings))
                      (λ _. IsEdit.refused)
                      (λ b.
                        let l : Layout = record {
                          end = off_struct + len_struct;
                          off_strings = off_strings;
                          len_strings = len_strings;
                        } in
                        let ok : IsLayout f l = record {
                          structure = ground arith;
                          strings = ground arith;
                        } in
                        found ok (walk (suc len_struct) f l (start off_struct)) (
                          walk-Ensures f l ok (suc len_struct) (start off_struct) (omega arith)
                            tt))))))))))
  where
    read :
        (p : ℕ)
        → p + 4 ≤ f.len
        → (k : ℕ → Result Blob) → ((v : ℕ) → IsEdit f base size (k v))
        → IsEdit f base size (be32 f p >>= k)
    read p h k e = word (be32 f p) (be32-Ensures f p h) k e
      where
        word :
            (o : Result ℕ)
            → Ensures (λ _. Unit {0}) o
            → (k : ℕ → Result Blob) → ((v : ℕ) → IsEdit f base size (k v))
            → IsEdit f base size (o >>= k)
        word _ Ensures.refused k e = IsEdit.refused
        word _ (good v _) k e = e v

    found :
        {l : Layout}
        → IsLayout f l
        → (o : Result ℕ) → Ensures (λ r. r + 16 ≤ l.end) o
        → IsEdit f base size (o >>= λ r. put_be64 f r 8 base >>= λ f'. put_be64 f' (r + 8) 8 size)
    found ok _ Ensures.refused = IsEdit.refused
    found ok _ (good r h) = edit f base size r hb hs (let fits = ok.structure in omega arith)
