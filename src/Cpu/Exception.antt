-- ===== src/Cpu/Exception.antt =====
-- src/exception.c and src/esr.h: saving and restoring PSTATE, syndromes, taking an exception to EL1,
-- and the exception return of src/decode.c. Trace output is left out.
pub mod Laws
use arm64emu_system.Base.{ℕ, ◌+◌, ◌-◌, ◌*◌, ◌/◌, ◌%◌, ◌^◌, Bool, true, false, ◌==◌, ltb}
use arm64emu_system.Base.{if◌then◌else◌, bits, u32, u64, update, bit_or, bit_and, align_down}
use arm64emu_system.Cpu.{Cpu, nzcv_mask, daif_mask, refresh_fp_trap}

unfoldable pub pack_spsr : Cpu → ℕ
pack_spsr c =
    let s = bit_and c.nzcv nzcv_mask in
    let s' = bit_or s (bit_and c.daif daif_mask) in
    bit_or s' (bit_or (u32 (c.el * 2 ^ 2)) (if c.sp_sel == 0 then 0 else 1))

unfoldable pub unpack_spsr : Cpu → ℕ → Cpu
unpack_spsr c spsr =
    let m = spsr % 2 ^ 4 in
    refresh_fp_trap (record c {
      nzcv = bit_and spsr nzcv_mask;
      daif = bit_and spsr daif_mask;
      el = bits m 2 2;
      sp_sel = m % 2;
    })

-- `ExcKind`.
pub data ExcKind : Type 0 where
  sync irq fiq serror : ExcKind

abbrev pub kind_code : ExcKind → ℕ
kind_code sync = 0
kind_code irq = 1
kind_code fiq = 2
kind_code serror = 3

-- The target level: EL1, or the current level above it.
abbrev pub target_el : Cpu → ℕ
target_el c = if ltb 1 c.el then c.el else 1

-- The offset in the vector table: by origin, stack pointer and kind.
abbrev pub vector_offset : Cpu → ExcKind → ℕ
vector_offset c kind =
    (if ltb c.el (target_el c) then 0x400 else if c.sp_sel == 0 then 0x000 else 0x200)
    + kind_code kind * 0x80

unfoldable pub exception_take : Cpu → ExcKind → ℕ → ℕ → ℕ → Cpu
exception_take c kind esr far ret_addr =
    let tel = target_el c in
    refresh_fp_trap (record c {
      spsr = update c.spsr tel (pack_spsr c);
      elr = update c.elr tel ret_addr;
      esr = update c.esr tel esr;
      far = update c.far tel far;
      el = tel;
      sp_sel = 1;
      daif = bit_or c.daif daif_mask;
      pc = u64 (align_down (c.vbar tel) 11 + vector_offset c kind);
      halted = false;
      excl_valid = false;
    })

unfoldable pub raise_sync : Cpu → ℕ → ℕ → Cpu
raise_sync c esr far = exception_take c sync esr far c.cur_insn_pc

-- `esr_make`: class, IL, syndrome.
unfoldable pub esr_make : ℕ → ℕ → ℕ
esr_make ec iss = bit_or (bit_or (ec % 2 ^ 6 * 2 ^ 26) (2 ^ 25)) (iss % 2 ^ 25)

unfoldable pub iss_dabort : Bool → ℕ → ℕ
iss_dabort write dfsc = let iss = dfsc % 2 ^ 6 in if write then bit_or iss (2 ^ 6) else iss

-- The FP access trap, with the syndrome of a trapped A64 access.
unfoldable pub fp_trap : Cpu → Cpu
fp_trap c = raise_sync c (esr_make 0x07 0x01e00000) 0

-- ERET (case 4 of the register branches in `branch_system`).
unfoldable pub eret : Cpu → Cpu
eret c =
    let spsr = u32 (c.spsr c.el) in let elr = c.elr c.el in record (unpack_spsr c spsr) { pc = elr }
