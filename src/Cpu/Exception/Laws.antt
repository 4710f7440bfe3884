-- ===== src/Cpu/Exception/Laws.antt =====
-- PSTATE is saved and restored faithfully; exception entry and return undo each other.
use arm64emu_system.Base.{ℕ, ◌+◌, ◌*◌, ◌/◌, ◌%◌, ◌^◌, ◌≤◌, ◌<◌, ◌≡◌, refl, arith}
use arm64emu_system.Base.{
  Bool, false, ◌==◌, if◌then◌else◌, u32, bits, update, ==_refl, u64, align_down, ltb, bit_or,
  bit_and, ap, ◌∙◌, sym,
}
use mathlib.Core.Path.{ap₂, ◌≡⟨◌⟩◌, ◌∎}
use arm64emu_system.Base.Bits.{bit_or_fields, bit_and_field, bit_or_step, bit_or-zero, bit_or-split}
use arm64emu_system.Cpu.{Cpu, nzcv_mask, daif_mask, fp_trap_at}
use arm64emu_system.Cpu.Exception.{pack_spsr, unpack_spsr, exception_take, eret, ExcKind}
use arm64emu_system.Cpu.Exception.{target_el, vector_offset, kind_code}

-- The PSTATE fields hold what their C types and masks allow, and the cached FP trap is current.
pub record IsValid (c : Cpu) : Type 0 where
  pub flags_small : c.nzcv < 2 ^ 32
  pub flags_high : c.nzcv % 2 ^ 28 ≡ 0
  pub masks_small : c.daif < 2 ^ 10
  pub masks_high : c.daif % 2 ^ 6 ≡ 0
  pub el_small : c.el < 4
  pub sp_sel_small : c.sp_sel < 2
  pub trap_current : c.fp_trapped ≡ fp_trap_at c.cpacr_el1 c.el

-- `a | b` is a sum when `b` lies below a bit from which `a` starts.
bit_or-sum : (k a b : ℕ) → a % 2 ^ k ≡ 0 → b < 2 ^ k → bit_or a b ≡ a + b
bit_or-sum k a b h lt =
    let whole : a ≡ a / 2 ^ k * 2 ^ k = omega arith in
    rw whole (bit_or_fields k (a / 2 ^ k) b lt ∙ ap (λ (t : ℕ). t + b) (omega arith))

-- The saved word is the sum of its fields.
packed_words :
    (n d e s : ℕ)
    → n < 2 ^ 32
    → n % 2 ^ 28 ≡ 0
    → d < 2 ^ 10
    → d % 2 ^ 6 ≡ 0
    → e < 4
    → s < 2
    → bit_or
        (bit_or (bit_and n nzcv_mask) (bit_and d daif_mask))
        (bit_or (u32 (e * 2 ^ 2)) (if s == 0 then 0 else 1))
      ≡ n + d + (e * 4 + s)
packed_words n d e s hn hn' hd hd' he hs =
    let flags : bit_and n nzcv_mask ≡ n = bit_and_field 28 4 n ∙ omega arith in
    let masks : bit_and d daif_mask ≡ d = bit_and_field 6 4 d ∙ omega arith in
    let sel : (if s == 0 then 0 else 1) ≡ s = ground arith in
    let level : u32 (e * 2 ^ 2) ≡ e * 4 = omega arith in
    let mode : bit_or (e * 4) s ≡ e * 4 + s = bit_or-sum 2 (e * 4) s (omega arith) (omega arith) in
    let high : bit_or n d ≡ n + d = bit_or-sum 28 n d hn' (omega arith) in
    rw (flags, masks, sel, level, mode, high)
      (bit_or-sum 6 (n + d) (e * 4 + s) (omega arith) (omega arith))

pack_spsr-sum : (c : Cpu) → IsValid c → pack_spsr c ≡ c.nzcv + c.daif + (c.el * 4 + c.sp_sel)
unfolding pack_spsr
pack_spsr-sum c v =
    packed_words c.nzcv c.daif c.el c.sp_sel v.flags_small v.flags_high v.masks_small v.masks_high
      v.el_small v.sp_sel_small

-- The fields of a sum of fields.
unpacked_words :
    (n d e s : ℕ)
    → n < 2 ^ 32
    → n % 2 ^ 28 ≡ 0
    → d < 2 ^ 10
    → d % 2 ^ 6 ≡ 0
    → e < 4
    → s < 2
    → let w = n + d + (e * 4 + s) in
      (bit_and w nzcv_mask ≡ n)
      × (bit_and w daif_mask ≡ d)
      × (bits (w % 2 ^ 4) 2 2 ≡ e)
      × (w % 2 ^ 4 % 2 ≡ s)
unpacked_words n d e s hn hn' hd hd' he hs = (
  bit_and_field 28 4 (n + d + (e * 4 + s)) ∙ omega arith,
  bit_and_field 6 4 (n + d + (e * 4 + s)) ∙ omega arith,
  omega arith,
  omega arith,
)

-- Restoring what was saved into any processor state brings back the flags, the masks, the level
-- and the stack selection, and the FP trap that goes with the level; nothing else moves.
pub unpack_spsr-pack_spsr :
    (c d : Cpu)
    → IsValid c
    → unpack_spsr d (pack_spsr c) ≡ record d {
      nzcv = c.nzcv;
      daif = c.daif;
      el = c.el;
      sp_sel = c.sp_sel;
      fp_trapped = fp_trap_at d.cpacr_el1 c.el;
    }
unfolding unpack_spsr
unpack_spsr-pack_spsr c d v =
    let f =
      unpacked_words c.nzcv c.daif c.el c.sp_sel v.flags_small v.flags_high v.masks_small
        v.masks_high v.el_small v.sp_sel_small in
    rw (pack_spsr-sum c v, f.0, f.1, f.2, f.3)

pack_spsr-lt : (c : Cpu) → IsValid c → pack_spsr c < 2 ^ 32
pack_spsr-lt c v = omega (arith, pack_spsr-sum c v)

-- For a processor with well-formed PSTATE: taking an exception of any kind and returning from
-- it with ERET gives the processor back, with the PC at the return address. What differs is the
-- SPSR, ELR, ESR and FAR of the target level, which hold what the entry wrote, and the halt
-- flag and the exclusive monitor, which are clear.
pub eret-exception_take :
    (c : Cpu) (kind : ExcKind) (e f ret : ℕ)
    → IsValid c
    → eret (exception_take c kind e f ret) ≡ record c {
      pc = ret;
      spsr = update c.spsr (target_el c) (pack_spsr c);
      elr = update c.elr (target_el c) ret;
      esr = update c.esr (target_el c) e;
      far = update c.far (target_el c) f;
      halted = false;
      excl_valid = false;
    }
unfolding eret exception_take
eret-exception_take c kind e f ret v =
    let whole : u32 (pack_spsr c) ≡ pack_spsr c = omega (arith, pack_spsr-lt c v) in
    let same = ==_refl (target_el c) in
    rw (same, whole, unpack_spsr-pack_spsr c (exception_take c kind e f ret) v)
      (ap
        (λ (b : Bool). record c {
          pc = ret;
          fp_trapped = b;
          spsr = update c.spsr (target_el c) (pack_spsr c);
          elr = update c.elr (target_el c) ret;
          esr = update c.esr (target_el c) e;
          far = update c.far (target_el c) f;
          halted = false;
          excl_valid = false;
        })
        (sym v.trap_current))

-- Every mask bit is set once `daif` has been joined with them.
masks_full : (d : ℕ) → d < 16 → bit_or d 15 ≡ 15
masks_full d h = omega (
  arith,
  bit_or_step d 15,
  bit_or_step (d / 2) 7,
  bit_or_step (d / 2 / 2) 3,
  bit_or_step (d / 2 / 2 / 2) 1,
  zeros,
)
  where
    zeros : bit_or (d / 2 / 2 / 2 / 2) 0 ≡ 0
    zeros = bit_or-zero (d / 2 / 2 / 2 / 2) ∙ omega arith

daif_full : (d : ℕ) → d < 2 ^ 10 → d % 2 ^ 6 ≡ 0 → bit_or d daif_mask ≡ daif_mask
daif_full d h h' =
    bit_or d daif_mask
    ≡⟨ ap₂ bit_or (omega arith) refl ⟩ bit_or (d / 2 ^ 6 * 2 ^ 6 + 0) (15 * 2 ^ 6 + 0)
    ≡⟨ bit_or-split 6 (d / 2 ^ 6) 15 0 0 (omega arith) (omega arith) ⟩
      bit_or (d / 2 ^ 6) 15 * 2 ^ 6 + bit_or 0 0
    ≡⟨ (rw (masks_full (d / 2 ^ 6) (omega arith))) ⟩ daif_mask ∎

kind_code-lt : (k : ExcKind) → kind_code k < 4
kind_code-lt ExcKind.sync = omega arith
kind_code-lt ExcKind.irq = omega arith
kind_code-lt ExcKind.fiq = omega arith
kind_code-lt ExcKind.serror = omega arith

-- Where an exception comes from, as the architecture tells the groups of vectors apart: EL1 or
-- above running on SP_EL0, EL1 or above running on its own stack pointer, and EL0.
pub data Origin : Type 0 where
  on_sp_el0 on_sp_elx from_lower : Origin

pub data ComesFrom (c : Cpu) : Origin → Type 0 where
  on_shared : 1 ≤ c.el → c.sp_sel ≡ 0 → ComesFrom c on_sp_el0
  on_own : 1 ≤ c.el → c.sp_sel ≡ 1 → ComesFrom c on_sp_elx
  from_el0 : c.el ≡ 0 → ComesFrom c from_lower

-- The architecture's vector table.
abbrev pub vector_table : Origin → ExcKind → ℕ
vector_table on_sp_el0 ExcKind.sync = 0x000
vector_table on_sp_el0 ExcKind.irq = 0x080
vector_table on_sp_el0 ExcKind.fiq = 0x100
vector_table on_sp_el0 ExcKind.serror = 0x180
vector_table on_sp_elx ExcKind.sync = 0x200
vector_table on_sp_elx ExcKind.irq = 0x280
vector_table on_sp_elx ExcKind.fiq = 0x300
vector_table on_sp_elx ExcKind.serror = 0x380
vector_table from_lower ExcKind.sync = 0x400
vector_table from_lower ExcKind.irq = 0x480
vector_table from_lower ExcKind.fiq = 0x500
vector_table from_lower ExcKind.serror = 0x580

-- The offset of the first vector of a group.
group_offset :
    (c : Cpu) (o : Origin)
    → ComesFrom c o
    → (if ltb c.el (target_el c) then 0x400 else if c.sp_sel == 0 then 0x000 else 0x200)
      ≡ vector_table o ExcKind.sync
group_offset c on_sp_el0 (on_shared level sel) = ground arith
group_offset c on_sp_elx (on_own level sel) = ground arith
group_offset c from_lower (from_el0 level) = ground arith

kind_offset :
    (o : Origin) (k : ExcKind) → vector_table o ExcKind.sync + kind_code k * 0x80 ≡ vector_table o k
kind_offset on_sp_el0 ExcKind.sync = refl
kind_offset on_sp_el0 ExcKind.irq = refl
kind_offset on_sp_el0 ExcKind.fiq = refl
kind_offset on_sp_el0 ExcKind.serror = refl
kind_offset on_sp_elx ExcKind.sync = refl
kind_offset on_sp_elx ExcKind.irq = refl
kind_offset on_sp_elx ExcKind.fiq = refl
kind_offset on_sp_elx ExcKind.serror = refl
kind_offset from_lower ExcKind.sync = refl
kind_offset from_lower ExcKind.irq = refl
kind_offset from_lower ExcKind.fiq = refl
kind_offset from_lower ExcKind.serror = refl

vector_offset-table :
    (c : Cpu) (o : Origin) (k : ExcKind) → ComesFrom c o → vector_offset c k ≡ vector_table o k
vector_offset-table c o k from =
    ap (λ (t : ℕ). t + kind_code k * 0x80) (group_offset c o from) ∙ kind_offset o k

vector_offset-lt : (c : Cpu) (o : Origin) (k : ExcKind) → ComesFrom c o → vector_offset c k < 2 ^ 11
vector_offset-lt c on_sp_el0 k from = omega (arith, kind_code-lt k, group_offset c on_sp_el0 from)
vector_offset-lt c on_sp_elx k from = omega (arith, kind_code-lt k, group_offset c on_sp_elx from)
vector_offset-lt c from_lower k from = omega (arith, kind_code-lt k, group_offset c from_lower from)

slot :
    (base off : ℕ)
    → base < 2 ^ 64
    → off < 2 ^ 11
    → (u64 (align_down base 11 + off) / 2 ^ 11 ≡ base / 2 ^ 11)
      × (u64 (align_down base 11 + off) % 2 ^ 11 ≡ off)
slot base off h h' = omega arith

target_el-bounds :
    (c : Cpu) → c.el < 4 → (1 ≤ target_el c) × (target_el c < 4) × (c.el ≤ target_el c)
target_el-bounds c h = ground arith

-- For a processor with well-formed PSTATE and a vector base of 64 bits: after exception entry
-- PSTATE is well formed, all of DAIF is masked, the level is EL1 or above and not below the old
-- one, and the PC is in the 2 KB table that VBAR of the new level points to, at the offset that
-- the architecture's vector table gives for where the exception comes from (EL0, or a higher level
-- on SP_EL0 or on its own stack pointer) and for its kind.
pub exception_take_lem :
    (c : Cpu) (origin : Origin) (kind : ExcKind) (e f ret : ℕ)
    → IsValid c
    → ComesFrom c origin
    → c.vbar (target_el c) < 2 ^ 64
    → let c' = exception_take c kind e f ret in
      IsValid c'
      × (c'.daif ≡ daif_mask)
      × (1 ≤ c'.el)
      × (c.el ≤ c'.el)
      × (c'.pc / 2 ^ 11 ≡ c.vbar c'.el / 2 ^ 11)
      × (c'.pc % 2 ^ 11 ≡ vector_table origin kind)
unfolding exception_take
exception_take_lem c origin kind e f ret v from small =
    let full = daif_full c.daif v.masks_small v.masks_high in
    let level = target_el-bounds c v.el_small in
    let at =
      slot (c.vbar (target_el c)) (vector_offset c kind) small
        (vector_offset-lt c origin kind from) in
    (
      record {
        flags_small = v.flags_small;
        flags_high = v.flags_high;
        masks_small = rw full (omega arith);
        masks_high = rw full (omega arith);
        el_small = level.1;
        sp_sel_small = omega arith;
        trap_current = refl;
      },
      full,
      level.0,
      level.2,
      at.0,
      at.1 ∙ vector_offset-table c origin kind from,
    )
