-- ===== src/Decode/Locality.antt =====
-- src/decode.c: what data-processing instructions may change; here those with an immediate.
pub mod Registers
use arm64emu_system.Base.{
  ℕ, ◌-◌, ◌+◌, ◌*◌, ◌/◌, ◌%◌, ◌^◌, ◌≡◌, refl, Bool, true, false, ◌==◌, not, ◌&&◌, ◌||◌, ltb,
  if◌then◌else◌, if_ind, update, has_bit, bit, Option, none, some, ◌⊎◌, inl, inr, Option-cases,
}
use arm64emu_system.Cpu.{Cpu, cur_sp, set_x, set_xsp, set_x_sz, sized}
use arm64emu_system.Alu.{decode_bitmasks}
use arm64emu_system.Decode.{field, undefined}
use arm64emu_system.Decode.Immediate.{
  pc_relative, add_sub_immediate, logical_immediate, move_wide, bitfield, extract, dp_immediate,
}

-- Only the general registers, the stack pointers and the flags differ; or the instruction took the
-- UNDEFINED exception at the state before it.
pub data IsContained (c : Cpu) : Cpu → Type 0 where
  local :
      (x : ℕ → ℕ) (f : ℕ) (sp : ℕ → ℕ) → IsContained c (record c { x = x; nzcv = f; sp_el = sp })
  stopped : IsContained c (undefined c)

pub flagged : (c : Cpu) (f : ℕ) → IsContained c (record c { nzcv = f })
flagged c f = local c.x f c.sp_el

pub unchanged : (c : Cpu) → IsContained c c
unchanged c = local c.x c.nzcv c.sp_el

pub set_x-IsContained : (c : Cpu) (f n v : ℕ) → IsContained c (set_x (record c { nzcv = f }) n v)
unfolding set_x
set_x-IsContained c f n v =
    if_ind (IsContained c) (n == 31) (λ _. flagged c f) (λ _. local (update c.x n v) f c.sp_el)

pub set_x_sz-IsContained :
    (c : Cpu) (f n : ℕ) (sf : Bool) (v : ℕ)
    → IsContained c (set_x_sz (record c { nzcv = f }) n sf v)
unfolding set_x_sz
set_x_sz-IsContained c f n sf v = set_x-IsContained c f n (sized sf v)

pub set_xsp-IsContained : (c : Cpu) (n v : ℕ) → IsContained c (set_xsp c n v)
unfolding set_xsp
set_xsp-IsContained c n v =
    if_ind (IsContained c) (n == 31) (λ _. local c.x c.nzcv (update c.sp_el (cur_sp c) v))
      (λ _. local (update c.x n v) c.nzcv c.sp_el)

pub either :
    {c d e : Cpu} (b : Bool)
    → IsContained c d
    → IsContained c e
    → IsContained c (if b then d else e)
either {c} b h k = if_ind (IsContained c) b (λ _. h) (λ _. k)

-- The destination written through `set_x_sz`, with the flags as they were.
pub put_x : (c : Cpu) (insn v : ℕ) → IsContained c (set_x_sz c (field insn 4 0) (has_bit insn 31) v)
put_x c insn v = set_x_sz-IsContained c c.nzcv (field insn 4 0) (has_bit insn 31) v

move_wide-IsContained : (c : Cpu) (insn : ℕ) → IsContained c (move_wide c insn)
unfolding move_wide
move_wide-IsContained c insn =
    let opc = field insn 30 29 in
    either (not (has_bit insn 31) && not (ltb (field insn 22 21) 2)) stopped (
      either (opc == 0) (put_x c insn _)
        (either (opc == 2) (put_x c insn _) (either (opc == 3) (put_x c insn _) stopped)))

-- An encoding without masks is UNDEFINED.
decoded :
    {c : Cpu} (o : Option (ℕ × ℕ)) (g : ℕ × ℕ → Cpu)
    → ((p : ℕ × ℕ) → IsContained c (g p))
    → IsContained c (elim o [ none ↦ undefined c | some p ↦ g p ])
decoded none g h = stopped
decoded (some p) g h = h p

bitfield-IsContained : (c : Cpu) (insn : ℕ) → IsContained c (bitfield c insn)
unfolding bitfield
bitfield-IsContained c insn =
    either ((field insn 30 29 == 3) || not (bit insn 22 == bit insn 31)) stopped (
      decoded
        (decode_bitmasks (bit insn 22) (field insn 15 10) (field insn 21 16) (has_bit insn 31)) _
        (λ p. put_x c insn _))

logical_immediate-IsContained : (c : Cpu) (insn : ℕ) → IsContained c (logical_immediate c insn)
unfolding logical_immediate
logical_immediate-IsContained c insn =
    decoded (decode_bitmasks (bit insn 22) (field insn 15 10) (field insn 21 16) (has_bit insn 31))
      _
      (λ p.
        either (field insn 30 29 == 3) (set_x-IsContained c _ (field insn 4 0) _)
          (set_xsp-IsContained c (field insn 4 0) _))

pc_relative-IsContained : (c : Cpu) (insn : ℕ) → IsContained c (pc_relative c insn)
unfolding pc_relative
pc_relative-IsContained c insn =
    either (bit insn 31 == 0) (set_x-IsContained c c.nzcv (field insn 4 0) _)
      (set_x-IsContained c c.nzcv (field insn 4 0) _)

add_sub_immediate-IsContained : (c : Cpu) (insn : ℕ) → IsContained c (add_sub_immediate c insn)
unfolding add_sub_immediate
add_sub_immediate-IsContained c insn =
    either (has_bit insn 29) (set_x_sz-IsContained c _ (field insn 4 0) (has_bit insn 31) _)
      (set_xsp-IsContained c (field insn 4 0) _)

extract-IsContained : (c : Cpu) (insn : ℕ) → IsContained c (extract c insn)
unfolding extract
extract-IsContained c insn =
    either
      (not (field insn 30 29 == 0)
        || (not (bit insn 22 == bit insn 31)
            || (has_bit insn 21 || (not (has_bit insn 31) && has_bit (field insn 15 10) 5))))
      stopped (put_x c insn _)

-- For every instruction word in the group: data processing with an immediate changes at most
-- general registers, stack pointers and flags, or takes the UNDEFINED exception at the state
-- before it.
dp_immediate-IsContained : (c : Cpu) (insn : ℕ) → IsContained c (dp_immediate c insn)
unfolding dp_immediate
dp_immediate-IsContained c insn =
    let t = field insn 28 23 in
    either ((t == 0x20) || (t == 0x21)) (pc_relative-IsContained c insn) (
      either (t == 0x22) (add_sub_immediate-IsContained c insn) (
        either (t == 0x24) (logical_immediate-IsContained c insn) (
          either (t == 0x25) (move_wide-IsContained c insn) (
            either (t == 0x26) (bitfield-IsContained c insn)
              (either (t == 0x27) (extract-IsContained c insn) stopped)))))
