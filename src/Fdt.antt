-- ===== src/Fdt.antt =====
-- src/fdt/fdt.c: the edit of the flattened device tree that sets the guest's memory. Pointers into
-- the blob are indices; a read or write past its length is `wild`, and `failed` is the code's -1.
pub mod Texts
pub mod Safe
pub mod Edit
mod Tests
use arm64emu_system.Base.{
  ℕ, zero, suc, ◌+◌, ◌-◌, ◌*◌, ◌/◌, ◌%◌, ◌^◌, Bool, true, false, not, ◌&&◌, ◌||◌,
}
use arm64emu_system.Base.{
  List, [], ◌∷◌, ◌++◌, Option, none, some, ◌==◌, ltb, leb, if◌then◌else◌, u8, u32, align_down,
  update,
}

pub data Result {ℓ} (A : Type ℓ) : Type ℓ where
  wild failed : Result A
  done : A → Result A

infixl 5 ◌>>=◌
abbrev pub ◌>>=◌ {ℓ κ} : {A : Type ℓ} {B : Type κ} → Result A → (A → Result B) → Result B
wild >>= k = wild
failed >>= k = failed
done a >>= k = k a

pub record Blob : Type 0 where
  pub cells : ℕ → ℕ
  pub len : ℕ

abbrev pub at : Blob → ℕ → Result ℕ
at f i = if ltb i f.len then done (f.cells i) else wild

-- The tokens and the size of the header that is read.
abbrev pub fdt_magic : ℕ
fdt_magic = 0xd00d_feed

abbrev pub hdr_size : ℕ
hdr_size = 40

unfoldable pub be32 : Blob → ℕ → Result ℕ
be32 f p = do
  a ← at f p
  b ← at f (p + 1)
  c ← at f (p + 2)
  d ← at f (p + 3)
  done (a * 2 ^ 24 + b * 2 ^ 16 + c * 2 ^ 8 + d)

-- `put_be64`: `left` bytes of `v` to write, from the highest on.
unfoldable pub put_be64 : Blob → ℕ → ℕ → ℕ → Result Blob
put_be64 f p zero v = done f
put_be64 f p (suc left) v =
    if ltb p f.len
    then put_be64 (record f { cells = update f.cells p (u8 (v / 2 ^ (8 * left))) }) (p + 1) left v
    else wild

-- `strnlen(s, max)`.
unfoldable pub strnlen : Blob → ℕ → ℕ → Result ℕ
strnlen f p zero = done 0
strnlen f p (suc max) = at f p >>= λ b. elim (b == 0) [
  | true ↦ done 0
  | false ↦ strnlen f (p + 1) max >>= λ n. done (suc n)
]

-- Whether the bytes are those of a text: `strncmp` and `memcmp` stop at the first difference.
unfoldable pub has_prefix : Blob → ℕ → List ℕ → Result Bool
has_prefix f p [] = done true
has_prefix f p (c ∷ cs) =
    at f p >>= λ b. elim (b == c) [ true ↦ has_prefix f (p + 1) cs | false ↦ done false ]

-- "memory", and "reg" and "device_type" with their NUL.
abbrev pub memory_text : List ℕ
memory_text = 109 ∷ 101 ∷ 109 ∷ 111 ∷ 114 ∷ 121 ∷ []

abbrev pub reg_text : List ℕ
reg_text = 114 ∷ 101 ∷ 103 ∷ 0 ∷ []

abbrev pub device_type_text : List ℕ
device_type_text = 100 ∷ 101 ∷ 118 ∷ 105 ∷ 99 ∷ 101 ∷ 95 ∷ 116 ∷ 121 ∷ 112 ∷ 101 ∷ 0 ∷ []

-- The blocks of the tree: where the structure ends, and the strings.
pub record Layout : Type 0 where
  pub end : ℕ
  pub off_strings : ℕ
  pub len_strings : ℕ

-- `prop_name`: where the name starts; `none` is a name that runs past the strings.
unfoldable pub prop_name : Blob → Layout → ℕ → Result (Option ℕ)
prop_name f l off =
    let max = l.len_strings - off in
    let s = l.off_strings + off in
    if leb l.len_strings off
    then done none
    else strnlen f s max >>= λ n. done (if n == max then none else some s)

-- The variables of the walk. `cand` is `none` for the code's -1.
pub record Cursor : Type 0 where
  pub p : ℕ
  pub depth : ℕ
  pub cand : Option ℕ
  pub reg : Option ℕ
  pub is_memory : Bool

-- `depth == cand_depth`.
abbrev pub at_candidate : Cursor → Bool
at_candidate c = elim c.cand [ none ↦ false | some d ↦ c.depth == d ]

-- What follows a token: the walk goes on, ends, or has found the value to patch.
pub data Next : Type 0 where
  go : Cursor → Next
  stop : Next
  patch : ℕ → Next

-- A child of the root named "memory" or "memory@..".
unfoldable pub names_memory : Blob → ℕ → Result Bool
names_memory f p = has_prefix f p memory_text >>= λ same. elim same [
  | false ↦ done false
  | true ↦ at f (p + 6) >>= λ b. done ((b == 0) || (b == 64))
]

abbrev pub no_candidate : Cursor → Bool
no_candidate c = elim c.cand [ none ↦ true | some d ↦ false ]

unfoldable pub begin_node : Blob → Layout → Cursor → Result Next
begin_node f l c =
    let max = l.end - c.p in
    strnlen f c.p max >>= λ n.
    let c' = record c { p = c.p + align_down (n + 4) 2; depth = c.depth + 1 } in
    let found = record c' { cand = some (c.depth + 1); reg = none; is_memory = false } in
    if n == max
    then failed
    else if no_candidate c && (c.depth + 1 == 2)
    then (names_memory f c.p >>= λ memory. done (Next.go (if memory then found else c')))
    else done (Next.go c')

-- The end of a node, after the candidate has been looked at.
unfoldable pub leave : Cursor → Result Next
leave c = if c.depth == 0 then failed else done (Next.go (record c { depth = c.depth - 1 }))

unfoldable pub end_node : Cursor → Result Next
end_node c =
    let dropped = record c { cand = none } in
    if at_candidate c
    then elim c.reg [
      | none ↦ leave dropped
      | some r ↦ if c.is_memory then done (Next.patch r) else leave dropped
    ]
    else leave c

-- The name of a property of the candidate, and its value of `plen` bytes at `val`.
unfoldable pub candidate_prop : Blob → Cursor → ℕ → ℕ → ℕ → Result Next
candidate_prop f c name plen val = has_prefix f name reg_text >>= λ is_reg.
    if is_reg && (plen == 16)
    then done (Next.go (record c { reg = some val }))
    else has_prefix f name device_type_text >>= λ is_type.
        if is_type && (plen == 7)
        then (has_prefix f val (memory_text ++ (0 ∷ [])) >>= λ memory.
            done (Next.go (if memory then record c { is_memory = true } else c)))
        else done (Next.go c)

unfoldable pub prop : Blob → Layout → Cursor → Result Next
prop f l c =
    if ltb l.end (c.p + 8)
    then failed
    else be32 f c.p >>= λ plen. be32 f (c.p + 4) >>= λ noff.
        let val = c.p + 8 in
        let c' = record c { p = val + u32 (align_down (plen + 3) 2) } in
        if ltb (l.end - val) plen
        then failed
        else if ltb l.end c'.p
        then failed
        else if not (at_candidate c)
        then done (Next.go c')
        else prop_name f l noff >>= λ name. elim name [
          | none ↦ failed
          | some s ↦ candidate_prop f c' s plen val
        ]

-- One token of the walk: FDT_NOP, FDT_END, FDT_BEGIN_NODE, FDT_END_NODE and FDT_PROP.
unfoldable pub token : Blob → Layout → Cursor → Result Next
token f l c' = be32 f c'.p >>= λ tok.
    let c = record c' { p = c'.p + 4 } in
    if tok == 4
    then done (Next.go c)
    else if tok == 9
    then done Next.stop
    else if tok == 1
    then begin_node f l c
    else if tok == 2
    then end_node c
    else if tok == 3
    then prop f l c
    else failed

-- The walk: the index of the value to patch. Every token moves on by at least 4 bytes.
unfoldable pub walk : ℕ → Blob → Layout → Cursor → Result ℕ
walk zero f l c = wild
walk (suc fuel) f l c = elim (leb (c.p + 4) l.end) [
  | false ↦ failed
  | true ↦ token f l c >>= λ n. elim n [
    | Next.go c' ↦ walk fuel f l c'
    | Next.stop ↦ failed
    | Next.patch r ↦ done r
  ]
]

-- The walk begins outside the root.
abbrev pub start : ℕ → Cursor
start p = record { p = p; depth = 0; cand = none; reg = none; is_memory = false }

unfoldable pub fdt_set_memory : Blob → ℕ → ℕ → Result Blob
fdt_set_memory f base size =
    if ltb f.len hdr_size
    then failed
    else be32 f 0 >>= λ magic.
        if not (magic == fdt_magic)
        then failed
        else be32 f 8 >>= λ off_struct. be32 f 12 >>= λ off_strings. be32 f 32 >>= λ len_strings.
            be32 f 36 >>= λ len_struct.
            let end = off_struct + len_struct in
            let l : Layout = record {
              end = end;
              off_strings = off_strings;
              len_strings = len_strings;
            } in
            if ltb f.len end
            then failed
            else if ltb f.len (off_strings + len_strings)
            then failed
            else walk (suc len_struct) f l (start off_struct) >>= λ r.
                put_be64 f r 8 base >>= λ f'. put_be64 f' (r + 8) 8 size
