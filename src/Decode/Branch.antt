-- ===== src/Decode/Branch.antt =====
-- `branch_system` of src/decode.c: branches, exception generation, hints, barriers and the way into
-- the system registers. `Hooks` holds the two function pointers that the code calls; `W` is what the
-- system instructions may change besides the CPU (memory, TLBs, devices). The line that HLT prints
-- and the call trace of SVC are left out.
use arm64emu_system.Base.{ℕ, ◌+◌, ◌*◌, ◌^◌, Bool, true, false, not, ◌&&◌}
use arm64emu_system.Base.{◌||◌, ◌==◌, if◌then◌else◌, has_bit, bit, u64, Option, none, some}
use arm64emu_system.Cpu.{Cpu, reg_x, set_x, reg_x_sz, cond_holds}
use arm64emu_system.Cpu.Exception.{sync, exception_take, raise_sync, esr_make, eret}
use arm64emu_system.Alu.{sign_extend}
use arm64emu_system.Decode.{field, undefined}

-- A conduit answers whether it took the call; the system registers may change the rest of the
-- machine.
pub record Hooks (W : Type 0) : Type 0 where
  pub smccc_conduit : Option (Cpu → Bool → Cpu × Bool)
  pub sysreg_exec : Option (Cpu × W → ℕ → Cpu × W)

-- `c->cur_insn_pc + ((s64)sign_extend(imm, w) << 2)`.
unfoldable pub branch_target : Cpu → ℕ → ℕ → ℕ
branch_target c imm w = u64 (c.cur_insn_pc + u64 (sign_extend imm w * 2 ^ 2))

-- A branch taken or not.
abbrev pub branch_if : Bool → Cpu → ℕ → ℕ → Cpu
branch_if take c imm w = if take then record c { pc = branch_target c imm w } else c

unfoldable pub branch_link : Cpu → ℕ → Cpu
branch_link c insn =
    let c' = set_x c 30 (u64 (c.cur_insn_pc + 4)) in
    record c' { pc = branch_target c' (field insn 25 0) 26 }

unfoldable pub compare_branch : Cpu → ℕ → Cpu
compare_branch c insn =
    let zero' = reg_x_sz c (field insn 4 0) (has_bit insn 31) == 0 in
    branch_if (if has_bit insn 24 then not zero' else zero') c (field insn 23 5) 19

unfoldable pub test_branch : Cpu → ℕ → Cpu
test_branch c insn =
    let bitpos = bit insn 31 * 2 ^ 5 + field insn 23 19 in
    let set = has_bit (reg_x c (field insn 4 0)) bitpos in
    branch_if (if has_bit insn 24 then set else not set) c (field insn 18 5) 14

-- HVC and SMC: UNDEFINED at EL0, or where no conduit takes the call.
unfoldable pub firmware_call : Option (Cpu → Bool → Cpu × Bool) → Cpu → Bool → Cpu
firmware_call conduit c is_hvc = if c.el == 0 then undefined c else elim conduit [
  | none ↦ undefined c
  | some call ↦ let (c', taken) = call c is_hvc in if taken then c' else undefined c'
]

unfoldable pub generate_exception : Option (Cpu → Bool → Cpu × Bool) → Cpu → ℕ → Cpu
generate_exception conduit c insn =
    let opc = field insn 23 21 in
    let ll = field insn 1 0 in
    let imm16 = field insn 20 5 in
    if (opc == 0) && (ll == 1)
    then exception_take c sync (esr_make 0x15 imm16) 0 c.pc
    else if (opc == 0) && (ll == 2)
    then firmware_call conduit c true
    else if (opc == 0) && (ll == 3)
    then firmware_call conduit c false
    else if (opc == 1) && (ll == 0)
    then raise_sync c (esr_make 0x3c imm16) 0
    else if (opc == 2) && (ll == 0)
    then record c { stop = true }
    else undefined c

-- BR, BLR (which reads its target before it writes the link register), RET and ERET.
unfoldable pub branch_register : Cpu → ℕ → Cpu
branch_register c insn =
    let opc = field insn 24 21 in
    let tgt = reg_x c (field insn 9 5) in
    if opc == 0
    then record c { pc = tgt }
    else if opc == 1
    then record (set_x c 30 (u64 (c.cur_insn_pc + 4))) { pc = tgt }
    else if opc == 2
    then record c { pc = tgt }
    else if opc == 4
    then eret c
    else undefined c

-- WFE, WFI, SEV and SEVL; the other hints do nothing.
unfoldable pub hint : Cpu → ℕ → Cpu
hint c insn =
    let crm = field insn 11 8 in
    let op2 = field insn 7 5 in
    if (crm == 0) && (op2 == 2)
    then (if c.event then record c { event = false } else record c { halted = true })
    else if (crm == 0) && (op2 == 3)
    then record c { halted = true }
    else if (crm == 0) && ((op2 == 4) || (op2 == 5))
    then record c { event = true }
    else c

-- `L == 0 && op0 == 0 && op1 == 3 && CRn == crn && Rt == 31`.
abbrev pub is_hint_space : ℕ → ℕ → Bool
is_hint_space insn crn =
    (bit insn 21 == 0)
    && ((field insn 20 19 == 0)
        && ((field insn 18 16 == 3) && ((field insn 15 12 == crn) && (field insn 4 0 == 31))))

unfoldable pub system : {W : Type 0} → Hooks W → Cpu × W → ℕ → Cpu × W
system hooks (c, w) insn =
    if is_hint_space insn 2
    then (hint c insn, w)
    else if is_hint_space insn 3
    then (if field insn 7 5 == 2 then record c { excl_valid = false } else c, w)
    else elim hooks.sysreg_exec [ none ↦ (undefined c, w) | some exec ↦ exec (c, w) insn ]

unfoldable pub branch_system : {W : Type 0} → Hooks W → Cpu × W → ℕ → Cpu × W
branch_system hooks (c, w) insn =
    let top6 = field insn 31 26 in
    if top6 == 0x05
    then (branch_if true c (field insn 25 0) 26, w)
    else if top6 == 0x25
    then (branch_link c insn, w)
    else if (field insn 31 24 == 0x54) && (bit insn 4 == 0)
    then (branch_if (cond_holds c.nzcv (field insn 3 0)) c (field insn 23 5) 19, w)
    else if field insn 30 25 == 0x1a
    then (compare_branch c insn, w)
    else if field insn 30 25 == 0x1b
    then (test_branch c insn, w)
    else if field insn 31 24 == 0xd4
    then (generate_exception hooks.smccc_conduit c insn, w)
    else if field insn 31 25 == 0x6b
    then (branch_register c insn, w)
    else if field insn 31 24 == 0xd5
    then system hooks (c, w) insn
    else (undefined c, w)
