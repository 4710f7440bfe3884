-- ===== src/Decode/Exec.antt =====
-- src/decode.c and src/cpu.c: `loads_stores`, the dispatch `exec_a64`, and `cpu_step`. The vector
-- and floating-point unit is a parameter, the hook `exec_fpsimd` of the code; so are the clocks and
-- the floating-point flags that the system registers use (Sysreg/Exec.antt). The debugging
-- facilities, which `g_debug_hooks` and `g_systrace` switch on, are left out.
pub mod Restart
pub mod Precise
pub mod Interrupts
mod Tests
use arm64emu_system.Base.{ℕ, ◌+◌, ◌-◌, ◌*◌, ◌/◌, ◌%◌, ◌^◌, Bool, true, false, not, ◌&&◌, ◌||◌}
use arm64emu_system.Base.{Option, none, some, ◌==◌, if◌then◌else◌, has_bit, u64}
use arm64emu_system.Cpu.{Cpu}
use arm64emu_system.Cpu.Exception.{ExcKind, exception_take, fp_trap}
use arm64emu_system.Mmu.{Mmu}
use arm64emu_system.Mmu.Wide.{mem_ifetch}
use arm64emu_system.Devices.Gic.{Gic}
use arm64emu_system.Sysreg.Exec.{Soc, on_cpu, sysreg_exec}
use arm64emu_system.Devices.Timer.{Clock}
use arm64emu_system.Decode.{field, undefined}
use arm64emu_system.Decode.Immediate.{dp_immediate}
use arm64emu_system.Decode.Register.{dp_register}
use arm64emu_system.Decode.Branch.{Hooks, branch_system}
use arm64emu_system.Decode.Access.{Access, stop}
use arm64emu_system.Decode.LoadStore.{ldst_register, ldst_pair, ldst_literal, ldst_rcpc_unscaled}
use arm64emu_system.Decode.Atomic.{ldst_exclusive}
use arm64emu_system.Decode.Vector.{ldst_vector_multi, ldst_vector_single}
use arm64emu_system.Decode.Mops.{mops}

-- The class of the MOPS instructions.
abbrev pub is_mops : ℕ → Bool
is_mops insn =
    (field insn 29 27 == 3)
    && ((field insn 25 24 == 1) && (not (has_bit insn 21) && (field insn 11 10 == 1)))

unfoldable pub loads_stores : {W : Type 0} → ℕ → Access W (Unit {0})
loads_stores insn =
    let b2927 = field insn 29 27 in
    if b2927 == 7
    then ldst_register insn
    else if b2927 == 5
    then ldst_pair insn
    else if (b2927 == 3) && (field insn 25 24 == 0)
    then ldst_literal insn
    else if (b2927 == 1) && (field insn 26 24 == 0)
    then ldst_exclusive insn
    else if (b2927 == 1) && (has_bit insn 26 && (not (has_bit insn 25) && not (has_bit insn 24)))
    then ldst_vector_multi insn
    else if (b2927 == 1) && (has_bit insn 26 && (not (has_bit insn 25) && has_bit insn 24))
    then ldst_vector_single insn
    else if (b2927 == 3)
        && (not (has_bit insn 26)
            && ((field insn 25 24 == 1) && (not (has_bit insn 21) && (field insn 11 10 == 0))))
    then ldst_rcpc_unscaled insn
    else if is_mops insn
    then mops insn
    else stop undefined

-- What the interpreter is linked with, and the host's answers during one instruction.
pub record Env : Type 0 where
  pub clock : Clock
  pub clock' : Clock
  pub clock'' : Clock
  pub fpsr_sync : Cpu → Cpu
  pub conduit : Option (Cpu → Bool → Cpu × Bool)
  pub exec_fpsimd : Option (Cpu → ℕ → Cpu)

-- `sysreg_exec` behind the hook of `branch_system`; `none` is an access that leaves the memory.
unfoldable pub system_hook : {W : Type 0} → Env → Cpu × Option (Soc W) → ℕ → Cpu × Option (Soc W)
system_hook env (c, none) insn = (c, none)
system_hook env (c, some s) insn =
    elim (sysreg_exec env.clock env.clock' env.clock'' env.fpsr_sync (on_cpu s c) insn) [
      | none ↦ (c, none)
      | some s' ↦ (s'.mmu.cpu, some s')
    ]

abbrev pub hooks : {W : Type 0} → Env → Hooks (Option (Soc W))
hooks env = record { smccc_conduit = env.conduit; sysreg_exec = some (system_hook env) }

-- The CPU put back into the machine.
abbrev pub rejoin : {W : Type 0} → Cpu × Option (Soc W) → Option (Soc W)
rejoin (c, none) = none
rejoin (c, some s) = some (on_cpu s c)

-- An instruction that accesses memory, in the whole machine.
abbrev pub with_mmu : {W : Type 0} → Soc W → Option (Option (Unit {0}) × Mmu W) → Option (Soc W)
with_mmu s none = none
with_mmu s (some (r, m)) = some (record s { mmu = m })

-- The floating-point and vector group.
unfoldable pub fp_group : Env → Cpu → ℕ → Cpu
fp_group env c insn =
    if c.fp_trapped
    then fp_trap c
    else elim env.exec_fpsimd [ none ↦ undefined c | some exec ↦ exec c insn ]

unfoldable pub exec_a64 : {W : Type 0} → Env → Soc W → ℕ → Option (Soc W)
exec_a64 env s insn =
    let g = insn / 2 ^ 25 % 2 ^ 4 in
    let c = s.mmu.cpu in
    if (g == 0x8) || (g == 0x9)
    then some (on_cpu s (dp_immediate c insn))
    else if (g == 0xa) || (g == 0xb)
    then rejoin (branch_system (hooks env) (c, some s) insn)
    else if (g == 0x4) || ((g == 0x6) || ((g == 0xc) || (g == 0xe)))
    then with_mmu s (loads_stores insn s.mmu)
    else if (g == 0x5) || (g == 0xd)
    then some (on_cpu s (dp_register c insn))
    else if (g == 0x7) || (g == 0xf)
    then some (on_cpu s (fp_group env c insn))
    else some (on_cpu s (undefined c))

-- `StepResult`.
pub data StepResult : Type 0 where
  ok halt : StepResult

-- `c->irq_line`, which the interrupt controller drives.
abbrev pub irq_line : {W : Type 0} → Soc W → Bool
irq_line s = elim s.gic [ none ↦ false | some g ↦ g.irq_line ]

abbrev pub done : {W : Type 0} → Soc W → StepResult × Soc W
done s = (if s.mmu.cpu.stop then StepResult.halt else StepResult.ok, s)

-- The instruction that was fetched: the program counter moves on before it is executed.
unfoldable pub execute : {W : Type 0} → Env → Soc W → ℕ → Option (StepResult × Soc W)
execute env s insn =
    let c = s.mmu.cpu in
    elim (exec_a64 env (on_cpu s (record c { pc = u64 (c.pc + 4) })) insn) [
      | none ↦ none
      | some s' ↦
          some (done (on_cpu s' (record s'.mmu.cpu { icount = u64 (s'.mmu.cpu.icount + 1) })))
    ]

unfoldable pub fetch_execute : {W : Type 0} → Env → Soc W → Option (StepResult × Soc W)
fetch_execute env s =
    let c = record s.mmu.cpu { cur_insn_pc = s.mmu.cpu.pc } in
    elim (mem_ifetch (record s.mmu { cpu = c }) c.pc) [
      | none ↦ none
      | some (none, m) ↦ some (StepResult.ok, record s { mmu = m })
      | some (some insn, m) ↦ execute env (record s { mmu = m }) insn
    ]

-- `cpu_step`: a stopped CPU halts, a pending interrupt that is not masked is taken, a waiting CPU
-- does nothing; otherwise one instruction is fetched and executed.
unfoldable pub cpu_step : {W : Type 0} → Env → Soc W → Option (StepResult × Soc W)
cpu_step env s =
    let c = s.mmu.cpu in
    let take = λ (kind : ExcKind). on_cpu s (exception_take c kind 0 0 c.pc) in
    if c.stop
    then some (StepResult.halt, s)
    else if c.fiq_line && not (has_bit c.daif 6)
    then some (StepResult.ok, take ExcKind.fiq)
    else if irq_line s && not (has_bit c.daif 7)
    then some (StepResult.ok, take ExcKind.irq)
    else if c.halted
    then some (StepResult.ok, s)
    else fetch_execute env s
