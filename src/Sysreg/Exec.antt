-- ===== src/Sysreg/Exec.antt =====
-- src/sysreg.c: `sysreg_exec`, with what it does to the TLB, the memory and the timer. `fpsr_sync` is
-- the hook of the same name, which folds the host's floating-point flags into FPSR. DC ZVA takes the
-- loop of eight stores, to which the D-TLB is a shortcut.
use arm64emu_system.Base.{ℕ, zero, suc, ◌+◌, ◌*◌, ◌/◌, ◌%◌, ◌^◌, Bool, true, false, ◌&&◌, ◌||◌}
use arm64emu_system.Base.{
  Option, some, ◌>>=◌, ◌==◌, leb, if◌then◌else◌, has_bit, u32, u64, sub64, bit_or, align_down,
}
use arm64emu_system.Alu.{sign_extend}
use arm64emu_system.Cpu.{Cpu, reg_x, set_x}
use arm64emu_system.Cpu.Exception.{fp_trap}
use arm64emu_system.Mmu.{Mmu, tlb_flush_all, tlb_flush_page, mmu_at_s1, mem_write}
use arm64emu_system.Devices.Gic.{Gic}
use arm64emu_system.Devices.Timer.{Clock, gt_count, timer_update}
use arm64emu_system.Sysreg.{key, read_plain, write_plain, flushes, msr_immediate}

-- The machine as the system registers see it.
pub record Soc (W : Type 0) : Type 0 where
  pub mmu : Mmu W
  pub gic : Option Gic
  pub deadline : Option ℕ

abbrev pub on_cpu : {W : Type 0} → Soc W → Cpu → Soc W
on_cpu s c = record s { mmu = record s.mmu { cpu = c } }

-- The loop of DC ZVA: it stops at a store that faults.
unfoldable pub zero_line : {W : Type 0} → Mmu W → ℕ → ℕ → Option (Mmu W)
zero_line m base zero = some m
zero_line m base (suc left) = mem_write m base 8 0 >>= λ r. elim r.0 [
  | false ↦ some r.1
  | true ↦ zero_line r.1 (u64 (base + 8)) left
]

-- TLBI, AT and DC ZVA; the other cache operations do nothing.
unfoldable pub sys_op : {W : Type 0} → Mmu W → ℕ → Option (Mmu W)
sys_op m insn =
    let op1 = insn / 2 ^ 16 % 2 ^ 3 in
    let crn = insn / 2 ^ 12 % 2 ^ 4 in
    let crm = insn / 2 ^ 8 % 2 ^ 4 in
    let op2 = insn / 2 ^ 5 % 2 ^ 3 in
    let x = reg_x m.cpu (insn % 2 ^ 5) in
    let page = x % 2 ^ 44 * 2 ^ 12 in
    let va = if has_bit page 55 then page + 0xff * 2 ^ 56 else page in
    if crn == 8
    then (if (op1 == 0) && (((crm == 3) || (crm == 7)) && has_bit op2 0)
        then some (tlb_flush_page m va)
        else some (tlb_flush_all m))
    else if (crn == 7) && ((crm == 8) && ((op1 == 0) && leb op2 3))
    then (mmu_at_s1 m x (has_bit op2 0) (leb 2 op2) >>= λ r.
        some (record r.1 { cpu = record r.1.cpu { par_el1 = r.0 } }))
    else if (crn == 7) && ((crm == 4) && (op2 == 1))
    then zero_line m (align_down x 6) 8
    else some m

-- The value of CNTx_TVAL: the low 32 bits of the distance, as a signed number.
abbrev pub tval : ℕ → ℕ → ℕ
tval cval count = sign_extend (u32 (sub64 cval count)) 32

-- CNTx_CTL with ISTATUS; the count is asked only when the timer is enabled.
unfoldable pub read_ctl : Clock → Cpu → Bool → ℕ → ℕ → Cpu × ℕ
read_ctl clock c virt ctl cval =
    let (c', n) = gt_count clock c virt in
    if has_bit ctl 0
    then (c', if leb cval n then bit_or (ctl % 2 ^ 2) 4 else ctl % 2 ^ 2)
    else (c, ctl % 2 ^ 2)

unfoldable pub do_mrs : Clock → (Cpu → Cpu) → Cpu → ℕ → ℕ → Cpu
do_mrs clock fpsr_sync c k rt =
    let (cp, np) = gt_count clock c false in
    let (cv, nv) = gt_count clock c true in
    let (ctl_p, vp) = read_ctl clock c false c.cntp_ctl c.cntp_cval in
    let (ctl_v, vv) = read_ctl clock c true c.cntv_ctl c.cntv_cval in
    if k == key 3 3 4 4 0
    then (if c.fp_trapped then fp_trap c else set_x c rt c.fpcr)
    else if k == key 3 3 4 4 1
    then (if c.fp_trapped then fp_trap c else set_x (fpsr_sync c) rt (fpsr_sync c).fpsr)
    else if k == key 3 3 14 0 1
    then set_x cp rt np
    else if k == key 3 3 14 0 2
    then set_x cv rt nv
    else if k == key 3 3 14 2 0
    then set_x cp rt (tval cp.cntp_cval np)
    else if k == key 3 3 14 3 0
    then set_x cv rt (tval cv.cntv_cval nv)
    else if k == key 3 3 14 2 1
    then set_x ctl_p rt vp
    else if k == key 3 3 14 3 1
    then set_x ctl_v rt vv
    else set_x c rt (read_plain c k)

-- The writes that need more than a field: CNTx_TVAL, FPCR and FPSR.
unfoldable pub write_register : Clock → (Cpu → Cpu) → Cpu → ℕ → ℕ → Cpu
write_register clock fpsr_sync c k v =
    let (cp, np) = gt_count clock c false in
    let (cv, nv) = gt_count clock c true in
    if k == key 3 3 14 2 0
    then record cp { cntp_cval = u64 (np + sign_extend (u32 v) 32) }
    else if k == key 3 3 14 3 0
    then record cv { cntv_cval = u64 (nv + sign_extend (u32 v) 32) }
    else if k == key 3 3 4 4 0
    then (if c.fp_trapped then fp_trap c else record c { fpcr = u32 v })
    else if k == key 3 3 4 4 1
    then (if c.fp_trapped then fp_trap c else record (fpsr_sync c) { fpsr = u32 v })
    else write_plain c k v

-- `do_msr`: the write, the flush, and for CRn 14 the timer. The three clocks are the host's answers.
unfoldable pub do_msr : {W : Type 0} → Clock → Clock → Clock → (Cpu → Cpu) → Soc W → ℕ → ℕ → Soc W
do_msr clock clock' clock'' fpsr_sync s k rt =
    let c = s.mmu.cpu in
    let s₁ = on_cpu s (write_register clock fpsr_sync c k (reg_x c rt)) in
    let s₂ = if flushes k then record s₁ { mmu = tlb_flush_all s₁.mmu } else s₁ in
    let t =
      timer_update clock' clock''
        (record { cpu = s₂.mmu.cpu; gic = s.gic; deadline = s.deadline }) in
    if k / 2 ^ 9 % 2 ^ 4 == 14
    then record { mmu = record s₂.mmu { cpu = t.cpu }; gic = t.gic; deadline = t.deadline }
    else s₂

unfoldable pub sysreg_exec :
    {W : Type 0} → Clock → Clock → Clock → (Cpu → Cpu) → Soc W → ℕ → Option (Soc W)
sysreg_exec clock clock' clock'' fpsr_sync s insn =
    let l = has_bit insn 21 in
    let op0 = insn / 2 ^ 19 % 2 ^ 2 in
    let k =
      key op0 (insn / 2 ^ 16 % 2 ^ 3) (insn / 2 ^ 12 % 2 ^ 4) (insn / 2 ^ 8 % 2 ^ 4)
        (insn / 2 ^ 5 % 2 ^ 3) in
    let rt = insn % 2 ^ 5 in
    let c = s.mmu.cpu in
    if op0 == 0
    then some (on_cpu s (msr_immediate c insn))
    else if op0 == 1
    then (if l
        then some (on_cpu s (set_x c rt 0))
        else sys_op s.mmu insn >>= λ m. some (record s { mmu = m }))
    else if l
    then some (on_cpu s (do_mrs clock fpsr_sync c k rt))
    else some (do_msr clock clock' clock'' fpsr_sync s k rt)
