-- ===== src/Cpu.antt =====
-- src/cpu.h and src/cpu.c: the AArch64 register state, its access helpers, condition codes, reset.
-- Arrays are functions. `irq_line` is the field of the interrupt controller that drives it
-- (Devices/Gic.antt); `fiq_line`, which nothing in the program raises, is kept. The debugging
-- fields and the pointer to the machine are left out. Registers hold numbers below 2 ^ 64 (or of
-- the width of their C type).
pub mod Exception
mod Tests
use arm64emu_system.Base.{ℕ, zero, suc, ◌+◌, ◌-◌, ◌*◌, ◌/◌, ◌%◌, ◌^◌, Bool, true, false, not, ◌&&◌}
use arm64emu_system.Base.{
  ◌||◌, ◌==◌, beq, if◌then◌else◌, has_bit, bits, u32, update, bit_or, bit_and,
}

-- PSTATE bit positions (PS_N .. PS_F).
abbrev pub ps_n : ℕ
ps_n = 2 ^ 31

abbrev pub ps_z : ℕ
ps_z = 2 ^ 30

abbrev pub ps_c : ℕ
ps_c = 2 ^ 29

abbrev pub ps_v : ℕ
ps_v = 2 ^ 28

-- `PS_N | PS_Z | PS_C | PS_V` and `PS_D | PS_A | PS_I | PS_F`.
abbrev pub nzcv_mask : ℕ
nzcv_mask = 0xf000_0000

abbrev pub daif_mask : ℕ
daif_mask = 0x3c0

pub record Cpu : Type 0 where
  pub x : ℕ → ℕ
  pub pc : ℕ
  pub nzcv : ℕ
  pub daif : ℕ
  pub el : ℕ
  pub sp_sel : ℕ
  pub sp_el : ℕ → ℕ
  pub v : ℕ → ℕ
  pub fpcr : ℕ
  pub fpsr : ℕ
  pub fp_trapped : Bool
  pub ldst_unpriv : Bool
  pub sctlr : ℕ → ℕ
  pub ttbr0 : ℕ → ℕ
  pub ttbr1 : ℕ → ℕ
  pub tcr : ℕ → ℕ
  pub mair : ℕ → ℕ
  pub amair : ℕ → ℕ
  pub vbar : ℕ → ℕ
  pub esr : ℕ → ℕ
  pub far : ℕ → ℕ
  pub elr : ℕ → ℕ
  pub spsr : ℕ → ℕ
  pub tpidr : ℕ → ℕ
  pub tpidrro_el0 : ℕ
  pub contextidr_el1 : ℕ
  pub cpacr_el1 : ℕ
  pub mdscr_el1 : ℕ
  pub par_el1 : ℕ
  pub mpidr : ℕ
  pub cntfrq : ℕ
  pub cntp_ctl : ℕ
  pub cntp_cval : ℕ
  pub cntv_ctl : ℕ
  pub cntv_cval : ℕ
  pub cntkctl_el1 : ℕ
  pub cntvoff : ℕ
  pub cntpct_base : ℕ
  pub timer_skip : ℕ
  pub excl_valid : Bool
  pub excl_addr : ℕ
  pub excl_size : ℕ
  pub fiq_line : Bool
  pub halted : Bool
  pub event : Bool
  pub stop : Bool
  pub reset : Bool
  pub icount : ℕ
  pub cur_insn_pc : ℕ

-- The index of the selected stack pointer in `sp_el`.
abbrev pub cur_sp : Cpu → ℕ
cur_sp c = if c.sp_sel == 0 then 0 else c.el

-- Register 31 is XZR here.
unfoldable pub reg_x : Cpu → ℕ → ℕ
reg_x c n = if n == 31 then 0 else c.x n

unfoldable pub set_x : Cpu → ℕ → ℕ → Cpu
set_x c n v = if n == 31 then c else record c { x = update c.x n v }

-- Register 31 is SP here.
unfoldable pub reg_xsp : Cpu → ℕ → ℕ
reg_xsp c n = if n == 31 then c.sp_el (cur_sp c) else c.x n

unfoldable pub set_xsp : Cpu → ℕ → ℕ → Cpu
set_xsp c n v =
    if n == 31
    then record c { sp_el = update c.sp_el (cur_sp c) v }
    else record c { x = update c.x n v }

-- `is64 ? v : (u32)v`.
abbrev pub sized : Bool → ℕ → ℕ
sized is64 v = if is64 then v else u32 v

unfoldable pub reg_x_sz : Cpu → ℕ → Bool → ℕ
unfolding reg_x
reg_x_sz c n is64 = sized is64 (reg_x c n)

unfoldable pub set_x_sz : Cpu → ℕ → Bool → ℕ → Cpu
unfolding set_x
set_x_sz c n is64 v = set_x c n (sized is64 v)

-- CPACR_EL1.FPEN: whether FP accesses are trapped at an exception level.
abbrev pub fp_trap_at : ℕ → ℕ → Bool
fp_trap_at cpacr el =
    let fpen = bits cpacr 20 2 in
    if el == 0 then not (fpen == 3) else if el == 1 then (fpen == 0) || (fpen == 2) else false

abbrev pub refresh_fp_trap : Cpu → Cpu
refresh_fp_trap c = record c { fp_trapped = fp_trap_at c.cpacr_el1 c.el }

-- `r` of `cond_holds` before the lowest bit of the condition inverts it.
abbrev pub cond_base : ℕ → ℕ → Bool
cond_base nzcv k =
    let n = has_bit nzcv 31 in
    let z = has_bit nzcv 30 in
    let c = has_bit nzcv 29 in
    let v = has_bit nzcv 28 in
    if k == 0
    then z
    else if k == 1
    then c
    else if k == 2
    then n
    else if k == 3
    then v
    else if k == 4
    then c && not z
    else if k == 5
    then beq n v
    else if k == 6
    then beq n v && not z
    else true

unfoldable pub cond_holds : ℕ → ℕ → Bool
cond_holds nzcv cond =
    let r = cond_base nzcv (cond / 2) in if (cond % 2 == 1) && not (cond == 15) then not r else r

-- `sysreg_init` (src/sysreg.c).
abbrev pub sysreg_init : Cpu → Cpu
sysreg_init c = refresh_fp_trap (record c {
  sctlr = update c.sctlr 1 0x00c50838;
  cpacr_el1 = 0x300000;
  mdscr_el1 = 0;
  fpsr = 0;
})

-- `cpu_reset`: everything zero but what is named.
unfoldable pub cpu_reset : ℕ → ℕ → Cpu
cpu_reset entry reset_el = sysreg_init record {
  x = λ _. 0;
  pc = entry;
  nzcv = 0;
  daif = daif_mask;
  el = reset_el;
  sp_sel = 1;
  sp_el = λ _. 0;
  v = λ _. 0;
  fpcr = 0;
  fpsr = 0;
  fp_trapped = false;
  ldst_unpriv = false;
  sctlr = λ _. 0;
  ttbr0 = λ _. 0;
  ttbr1 = λ _. 0;
  tcr = λ _. 0;
  mair = λ _. 0;
  amair = λ _. 0;
  vbar = λ _. 0;
  esr = λ _. 0;
  far = λ _. 0;
  elr = λ _. 0;
  spsr = λ _. 0;
  tpidr = λ _. 0;
  tpidrro_el0 = 0;
  contextidr_el1 = 0;
  cpacr_el1 = 0;
  mdscr_el1 = 0;
  par_el1 = 0;
  mpidr = 2 ^ 31;
  cntfrq = 24_000_000;
  cntp_ctl = 0;
  cntp_cval = 0;
  cntv_ctl = 0;
  cntv_cval = 0;
  cntkctl_el1 = 0;
  cntvoff = 0;
  cntpct_base = 0;
  timer_skip = 0;
  excl_valid = false;
  excl_addr = 0;
  excl_size = 0;
  fiq_line = false;
  halted = false;
  event = false;
  stop = false;
  reset = false;
  icount = 0;
  cur_insn_pc = 0;
}
