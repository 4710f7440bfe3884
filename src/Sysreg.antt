-- ===== src/Sysreg.antt =====
-- src/sysreg.c: the system registers of EL1 and EL0 that hold what is written to them, the
-- identification registers, and the views of PSTATE. `key` is the macro KEY; the children hold what
-- else the file does.
pub mod Laws
pub mod Exec
pub mod Timers
mod Tests
use arm64emu_system.Base.{ℕ, ◌+◌, ◌-◌, ◌*◌, ◌/◌, ◌%◌, ◌^◌, Bool, true, false, ◌&&◌, ◌||◌, not}
use arm64emu_system.Base.{
  Option, none, some, ◌==◌, if◌then◌else◌, bit_and, bit_or, bit_xor, u32, u64, update, has_bit,
  not32,
}
use arm64emu_system.Cpu.{Cpu, nzcv_mask, daif_mask, ps_c, refresh_fp_trap}
use arm64emu_system.Alu.{flags_word}

abbrev pub key : ℕ → ℕ → ℕ → ℕ → ℕ → ℕ
key op0 op1 crn crm op2 = op0 * 2 ^ 16 + op1 * 2 ^ 13 + crn * 2 ^ 9 + crm * 2 ^ 5 + op2

-- The MRS cases that only read a field or a constant; registers without a case read 0.
unfoldable pub read_plain : Cpu → ℕ → ℕ
read_plain c k =
    if k == key 3 0 0 0 0
    then 0x411f_d070
    else if k == key 3 0 0 0 5
    then c.mpidr
    else if k == key 3 3 0 0 1
    then 0x8444_c004
    else if k == key 3 3 0 0 7
    then 4
    else if k == key 3 0 0 4 0
    then 0x11_0022
    else if k == key 3 0 0 5 0
    then 0x1030_5106
    else if k == key 3 0 0 6 0
    then 0x21_1001_1021_2120
    else if k == key 3 0 0 6 1
    then 0x21_1000
    else if k == key 3 0 0 6 2
    then 0x1_0000
    else if k == key 3 0 0 7 0
    then 0x0f00_1124
    else if k == key 3 0 1 0 2
    then c.cpacr_el1
    else if k == key 3 0 4 2 2
    then u64 (c.el * 2 ^ 2)
    else if k == key 3 0 4 2 0
    then c.sp_sel
    else if k == key 3 3 4 2 0
    then bit_and c.nzcv nzcv_mask
    else if k == key 3 3 4 2 1
    then bit_and c.daif daif_mask
    else if k == key 3 0 1 0 0
    then c.sctlr 1
    else if k == key 3 0 2 0 0
    then c.ttbr0 1
    else if k == key 3 0 2 0 1
    then c.ttbr1 1
    else if k == key 3 0 2 0 2
    then c.tcr 1
    else if k == key 3 0 10 2 0
    then c.mair 1
    else if k == key 3 0 10 3 0
    then c.amair 1
    else if k == key 3 0 12 0 0
    then c.vbar 1
    else if k == key 3 0 5 2 0
    then c.esr 1
    else if k == key 3 0 6 0 0
    then c.far 1
    else if k == key 3 0 7 4 0
    then c.par_el1
    else if k == key 3 0 13 0 1
    then c.contextidr_el1
    else if k == key 3 0 13 0 4
    then c.tpidr 1
    else if k == key 3 3 13 0 2
    then c.tpidr 0
    else if k == key 3 3 13 0 3
    then c.tpidrro_el0
    else if k == key 2 0 0 2 2
    then c.mdscr_el1
    else if k == key 3 0 4 0 0
    then c.spsr 1
    else if k == key 3 0 4 0 1
    then c.elr 1
    else if k == key 3 0 4 1 0
    then c.sp_el 0
    else if k == key 3 3 14 0 0
    then c.cntfrq
    else if k == key 3 3 14 2 2
    then c.cntp_cval
    else if k == key 3 3 14 3 2
    then c.cntv_cval
    else if k == key 3 0 14 1 0
    then c.cntkctl_el1
    else 0

-- The MSR cases that only set a field. The flush that some of them end in is in `flushes`.
unfoldable pub write_plain : Cpu → ℕ → ℕ → Cpu
write_plain c k v =
    if k == key 3 0 1 0 0
    then record c { sctlr = update c.sctlr 1 v }
    else if k == key 3 0 2 0 0
    then record c { ttbr0 = update c.ttbr0 1 v }
    else if k == key 3 0 2 0 1
    then record c { ttbr1 = update c.ttbr1 1 v }
    else if k == key 3 0 2 0 2
    then record c { tcr = update c.tcr 1 v }
    else if k == key 3 0 10 2 0
    then record c { mair = update c.mair 1 v }
    else if k == key 3 0 10 3 0
    then record c { amair = update c.amair 1 v }
    else if k == key 3 0 12 0 0
    then record c { vbar = update c.vbar 1 v }
    else if k == key 3 0 5 2 0
    then record c { esr = update c.esr 1 v }
    else if k == key 3 0 6 0 0
    then record c { far = update c.far 1 v }
    else if k == key 3 0 7 4 0
    then record c { par_el1 = v }
    else if k == key 3 0 13 0 1
    then record c { contextidr_el1 = v }
    else if k == key 3 0 13 0 4
    then record c { tpidr = update c.tpidr 1 v }
    else if k == key 3 3 13 0 2
    then record c { tpidr = update c.tpidr 0 v }
    else if k == key 3 3 13 0 3
    then record c { tpidrro_el0 = v }
    else if k == key 2 0 0 2 2
    then record c { mdscr_el1 = v }
    else if k == key 3 0 4 0 0
    then record c { spsr = update c.spsr 1 v }
    else if k == key 3 0 4 0 1
    then record c { elr = update c.elr 1 v }
    else if k == key 3 0 4 1 0
    then record c { sp_el = update c.sp_el 0 v }
    else if k == key 3 3 14 0 0
    then record c { cntfrq = v }
    else if k == key 3 3 14 2 2
    then record c { cntp_cval = v }
    else if k == key 3 3 14 3 2
    then record c { cntv_cval = v }
    else if k == key 3 0 14 1 0
    then record c { cntkctl_el1 = v }
    else if k == key 3 0 1 0 2
    then refresh_fp_trap (record c { cpacr_el1 = v })
    else if k == key 3 0 4 2 0
    then record c { sp_sel = v % 2 }
    else if k == key 3 3 4 2 0
    then record c { nzcv = bit_and v nzcv_mask }
    else if k == key 3 3 4 2 1
    then record c { daif = bit_and v daif_mask }
    else if k == key 3 3 14 2 1
    then record c { cntp_ctl = v }
    else if k == key 3 3 14 3 1
    then record c { cntv_ctl = v }
    else c

-- SCTLR_EL1, TTBR0_EL1, TTBR1_EL1 and TCR_EL1: the TLB is flushed.
unfoldable pub flushes : ℕ → Bool
flushes k =
    (k == key 3 0 1 0 0) || ((k == key 3 0 2 0 0) || ((k == key 3 0 2 0 1) || (k == key 3 0 2 0 2)))

-- The instructions on PSTATE: SPSel, CFINV, XAFLAG, AXFLAG, DAIFSet and DAIFClr.
unfoldable pub msr_immediate : Cpu → ℕ → Cpu
msr_immediate c insn =
    let op1 = insn / 2 ^ 16 % 2 ^ 3 in
    let op2 = insn / 2 ^ 5 % 2 ^ 3 in
    let crm = insn / 2 ^ 8 % 2 ^ 4 in
    let zf = has_bit c.nzcv 30 in
    let cf = has_bit c.nzcv 29 in
    let vf = has_bit c.nzcv 28 in
    if (op1 == 0) && (op2 == 5)
    then record c { sp_sel = crm % 2 }
    else if (op1 == 0) && ((crm == 0) && (op2 == 0))
    then record c { nzcv = bit_xor c.nzcv ps_c }
    else if (op1 == 0) && ((crm == 0) && (op2 == 1))
    then record c { nzcv = flags_word (not cf && not zf) (zf && cf) (cf || zf) (not cf && zf) }
    else if (op1 == 0) && ((crm == 0) && (op2 == 2))
    then record c { nzcv = flags_word false (zf || vf) (cf && not vf) false }
    else if (op1 == 3) && (op2 == 6)
    then record c { daif = bit_or c.daif (crm * 2 ^ 6) }
    else if (op1 == 3) && (op2 == 7)
    then record c { daif = bit_and c.daif (not32 (crm * 2 ^ 6)) }
    else c
