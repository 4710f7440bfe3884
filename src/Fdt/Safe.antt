-- ===== src/Fdt/Safe.antt =====
-- src/fdt/fdt.c: whatever the blob holds, the walk over its tokens stays inside it and ends.
use arm64emu_system.Base.{
  ℕ, zero, suc, ◌+◌, ◌-◌, ◌≤◌, ◌<◌, ◌≡◌, refl, arith, Bool, true, false, not, ◌&&◌, ◌||◌, [], ◌∷◌,
  ◌++◌, Option, none, some, ◌==◌, ltb, leb, if◌then◌else◌, u32, align_down, inl, inr, Bool-cases,
}
use arm64emu_system.Fdt.{
  ◌>>=◌, failed, done, Blob, at, be32, strnlen, has_prefix, memory_text, reg_text, device_type_text,
  Layout, prop_name, Cursor, at_candidate, Next, names_memory, no_candidate, begin_node, leave,
  end_node, candidate_prop, prop, token, walk,
}
use arm64emu_system.Fdt.Texts.{
  Ensures, refused, good, bind, either, at-Ensures, be32-Ensures, IsLength, strnlen-Ensures,
  has_prefix-Ensures, has_prefix-before, has_prefix-within,
}

-- The blocks lie inside the blob.
pub record IsLayout (f : Blob) (l : Layout) : Type 0 where
  pub structure : l.end ≤ f.len
  pub strings : l.off_strings + l.len_strings ≤ f.len

-- A value to patch lies before the end of the structure.
abbrev pub IsValue : Layout → Option ℕ → Type 0
IsValue l none = Unit {0}
IsValue l (some r) = r + 16 ≤ l.end

-- What a token at `p` leaves: the walk has moved on by at least its 4 bytes.
abbrev pub IsNext : Layout → ℕ → Next → Type 0
IsNext l p (Next.go c) = (p + 4 ≤ c.p) × IsValue l c.reg
IsNext l p Next.stop = Unit {0}
IsNext l p (Next.patch r) = r + 16 ≤ l.end

pub chosen :
    (l : Layout) (p : ℕ) (b : Bool) (c d : Cursor)
    → IsNext l p (Next.go c)
    → IsNext l p (Next.go d)
    → IsNext l p (Next.go (if b then c else d))
chosen l p true c d h k = h
chosen l p false c d h k = k

module _ (f : Blob) (l : Layout) (ok : IsLayout f l) where
  pub names_memory-Ensures :
      (p n : ℕ) → p + n < f.len → f.cells (p + n) ≡ 0 → Ensures (λ _. Unit {0}) (names_memory f p)
  unfolding names_memory
  names_memory-Ensures p n h nul =
      bind _ _ (has_prefix f p memory_text) _
        (has_prefix-before f p n memory_text h nul (omega arith)) after_
    where
      after_ :
          (same : Bool)
          → (same ≡ true → 6 ≤ n)
          → Ensures
              (λ _. Unit {0})
              (elim same [
                | false ↦ done false
                | true ↦ at f (p + 6) >>= λ b. done ((b == 0) || (b == 64))
              ])
      after_ false h = good false tt
      after_ true long =
          bind _ _ (at f (p + 6)) _ (at-Ensures f (p + 6) (omega (arith, long refl)))
            (λ b _. good _ tt)

  pub begin_node-Ensures :
      (c : Cursor) (p : ℕ)
      → p + 4 ≤ c.p
      → c.p ≤ l.end
      → IsValue l c.reg
      → Ensures (IsNext l p) (begin_node f l c)
  unfolding begin_node
  begin_node-Ensures c p moved inside v =
      let max = l.end - c.p in
      let fits = ok.structure in
      bind _ _ (strnlen f c.p max) _ (strnlen-Ensures f c.p max (omega arith)) (λ n len.
        either (IsNext l p) (n == max) (λ _. refused)
          (λ ends.
            either (IsNext l p) (no_candidate c && (c.depth + 1 == 2))
              (λ _. bind _ _ (names_memory f c.p) _ (named n len ends) (λ memory _.
                let c' = record c { p = c.p + align_down (n + 4) 2; depth = c.depth + 1 } in
                let found = record c' {
                  cand = some (c.depth + 1);
                  reg = none;
                  is_memory = false;
                } in
                good _ (chosen l p memory found c' (omega arith, tt) (omega arith, v))))
              (λ _. good _ (omega arith, v))))
    where
      named :
          (n : ℕ)
          → IsLength f c.p (l.end - c.p) n
          → (n == (l.end - c.p)) ≡ false
          → Ensures (λ _. Unit {0}) (names_memory f c.p)
      named n (inl e) ends = absurd (ground arith)
      named n (inr (lt, nul)) ends =
          names_memory-Ensures c.p n (let fits = ok.structure in omega arith) nul

  -- A node is left or its value is found; `p` is where the token stood.
  pub leave-Ensures :
      (c : Cursor) (p : ℕ) → p + 4 ≤ c.p → IsValue l c.reg → Ensures (IsNext l p) (leave c)
  unfolding leave
  leave-Ensures c p moved v =
      either (IsNext l p) (c.depth == 0) (λ _. refused) (λ _. good _ (moved, v))

  pub end_node-Ensures :
      (c : Cursor) (p : ℕ) → p + 4 ≤ c.p → IsValue l c.reg → Ensures (IsNext l p) (end_node c)
  unfolding end_node
  end_node-Ensures c p moved v =
      let dropped = record c { cand = none } in
      either (IsNext l p) (at_candidate c) (λ _. found c.reg v) (λ _. leave-Ensures c p moved v)
    where
      found :
          (o : Option ℕ)
          → IsValue l o
          → Ensures (IsNext l p) (elim o [
            | none ↦ leave (record c { cand = none })
            | some r ↦ if c.is_memory then done (Next.patch r) else leave (record c { cand = none })
          ])
      found none v' = leave-Ensures (record c { cand = none }) p moved v
      found (some r) v' =
          either (IsNext l p) c.is_memory (λ _. good _ v')
            (λ _. leave-Ensures (record c { cand = none }) p moved v)

  pub candidate_prop-Ensures :
      (c : Cursor) (p name n plen val : ℕ)
      → name + n < f.len
      → f.cells (name + n) ≡ 0
      → val + plen ≤ l.end
      → p + 4 ≤ c.p
      → IsValue l c.reg
      → Ensures (IsNext l p) (candidate_prop f c name plen val)
  unfolding candidate_prop
  candidate_prop-Ensures c p name n plen val h nul room moved v =
      let fits = ok.structure in
      bind _ _ (has_prefix f name reg_text) _
        (has_prefix-Ensures f name n reg_text h nul (omega arith))
        (λ is_reg _.
          either (IsNext l p) (is_reg && (plen == 16)) (λ e. good _ (moved, value is_reg e))
            (λ _.
              bind _ _ (has_prefix f name device_type_text) _
                (has_prefix-Ensures f name n device_type_text h nul (omega arith))
                (λ is_type _.
                  either (IsNext l p) (is_type && (plen == 7))
                    (λ e.
                      bind _ _ (has_prefix f val (memory_text ++ (0 ∷ []))) _
                        (has_prefix-within f val (memory_text ++ (0 ∷ [])) (seven is_type e))
                        (λ memory _. good _ (
                          chosen l p memory (record c { is_memory = true }) c (moved, v)
                            (moved, v))))
                    (λ _. good _ (moved, v)))))
    where
      value : (b : Bool) → (b && (plen == 16)) ≡ true → val + 16 ≤ l.end
      value b e = ground arith

      seven : (b : Bool) → (b && (plen == 7)) ≡ true → val + 7 ≤ f.len
      seven b e = let fits = ok.structure in ground arith

  -- The name of a property: none, or a text that ends in NUL inside the blob.
  pub IsName : Option ℕ → Type 0
  IsName none = Unit {0}
  IsName (some s) = (n : ℕ) × (s + n < f.len) × (f.cells (s + n) ≡ 0)

  pub prop_name-Ensures : (off : ℕ) → Ensures IsName (prop_name f l off)
  unfolding prop_name IsName
  prop_name-Ensures off =
      let fits = ok.strings in
      either IsName (leb l.len_strings off) (λ _. good none tt)
        (λ below.
          let inside : off < l.len_strings = ground arith in
          bind _ _ (strnlen f (l.off_strings + off) (l.len_strings - off)) _
            (strnlen-Ensures f (l.off_strings + off) (l.len_strings - off) (omega arith))
            (λ n len. elim (Bool-cases (n == (l.len_strings - off))) [
              | inl whole ↦ rw whole (good none tt)
              | inr ends ↦ rw ends (good _ (named n inside len ends))
            ]))
    where
      named :
          (n : ℕ)
          → off < l.len_strings
          → IsLength f (l.off_strings + off) (l.len_strings - off) n
          → (n == (l.len_strings - off)) ≡ false
          → IsName (some (l.off_strings + off))
      named n inside (inl e) ends = absurd (ground arith)
      named n inside (inr (lt, nul)) ends = (n, (let fits = ok.strings in omega arith), nul)

  pub prop-Ensures :
      (c : Cursor) (p : ℕ) → p + 4 ≤ c.p → IsValue l c.reg → Ensures (IsNext l p) (prop f l c)
  unfolding prop IsName
  prop-Ensures c p moved v =
      let fits = ok.structure in
      either (IsNext l p) (ltb l.end (c.p + 8)) (λ _. refused)
        (λ room.
          let inside : c.p + 8 ≤ l.end = ground arith in
          bind _ _ (be32 f c.p) _ (be32-Ensures f c.p (omega arith)) (λ plen _.
            bind _ _ (be32 f (c.p + 4)) _ (be32-Ensures f (c.p + 4) (omega arith)) (λ noff _.
              let c' = record c { p = c.p + 8 + u32 (align_down (plen + 3) 2) } in
              either (IsNext l p) (ltb (l.end - (c.p + 8)) plen) (λ _. refused)
                (λ short.
                  let held : c.p + 8 + plen ≤ l.end = ground arith in
                  either (IsNext l p) (ltb l.end c'.p) (λ _. refused)
                    (λ _.
                      either (IsNext l p) (not (at_candidate c)) (λ _. good _ (omega arith, v))
                        (λ _.
                          bind _ _ (prop_name f l noff) _ (prop_name-Ensures noff)
                            (λ name named. of_name name named c' plen held (omega arith) v)))))))
    where
      of_name :
          (name : Option ℕ)
          → IsName name
          → (c' : Cursor) (plen : ℕ) → c.p + 8 + plen ≤ l.end
          → p + 4 ≤ c'.p
          → IsValue l c'.reg
          → Ensures
              (IsNext l p)
              (elim name [ none ↦ failed | some s ↦ candidate_prop f c' s plen (c.p + 8) ])
      of_name none named c' plen held moved' v' = refused
      of_name (some s) (n, lt, nul) c' plen held moved' v' =
          candidate_prop-Ensures c' p s n plen (c.p + 8) lt nul held moved' v'

  pub token-Ensures :
      (c : Cursor) → c.p + 4 ≤ l.end → IsValue l c.reg → Ensures (IsNext l c.p) (token f l c)
  unfolding token
  token-Ensures c room v =
      let fits = ok.structure in
      let c' = record c { p = c.p + 4 } in
      bind _ _ (be32 f c.p) _ (be32-Ensures f c.p (omega arith)) (λ tok _.
        either (IsNext l c.p) (tok == 4) (λ _. good _ (omega arith, v))
          (λ _.
            either (IsNext l c.p) (tok == 9) (λ _. good _ tt)
              (λ _.
                either (IsNext l c.p) (tok == 1)
                  (λ _. begin_node-Ensures c' c.p (omega arith) room v)
                  (λ _.
                    either (IsNext l c.p) (tok == 2) (λ _. end_node-Ensures c' c.p (omega arith) v)
                      (λ _.
                        either (IsNext l c.p) (tok == 3) (λ _. prop-Ensures c' c.p (omega arith) v)
                          (λ _. refused))))))

  pub continue-Ensures :
      (fuel p : ℕ) (n : Next)
      → IsNext l p n
      → ((c : Cursor)
          → p + 4 ≤ c.p
          → IsValue l c.reg
          → Ensures (λ r. r + 16 ≤ l.end) (walk fuel f l c))
      → Ensures
          (λ r. r + 16 ≤ l.end)
          (elim n [ Next.go c ↦ walk fuel f l c | Next.stop ↦ failed | Next.patch r ↦ done r ])
  continue-Ensures fuel p (Next.go c) (moved, v) h = h c moved v
  continue-Ensures fuel p Next.stop next h = refused
  continue-Ensures fuel p (Next.patch r) next h = good r next

  -- Enough fuel for the structure that is left: the walk ends with a value inside it, or fails.
  pub walk-Ensures :
      (fuel : ℕ) (c : Cursor)
      → l.end - c.p < fuel
      → IsValue l c.reg
      → Ensures (λ r. r + 16 ≤ l.end) (walk fuel f l c)
  unfolding walk
  walk-Ensures zero c h v = absurd (omega arith)
  walk-Ensures (suc fuel) c h v = elim (Bool-cases (leb (c.p + 4) l.end)) [
    | inr out ↦ rw (walk, out) refused
    | inl room ↦
        let le : c.p + 4 ≤ l.end = ground arith in
        rw (walk, room)
          (bind _ _ (token f l c) _ (token-Ensures c le v) (λ n next.
            continue-Ensures fuel c.p n next
              (λ c' moved v'. walk-Ensures fuel c' (omega arith) v')))
  ]
