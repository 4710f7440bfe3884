-- ===== src/Decode/Exec/Interrupts.antt =====
-- src/cpu.c with src/exception.c and src/decode.c: interrupts between two instructions.
use arm64emu_system.Base.{
  ℕ, ◌+◌, ◌*◌, ◌/◌, ◌%◌, ◌^◌, ◌<◌, ◌≡◌, refl, arith, true, false, ◌==◌, ==_refl, some, has_bit,
  update, ap, ◌∙◌,
}
use arm64emu_system.Cpu.{Cpu, reg_x, set_x}
use arm64emu_system.Cpu.Exception.{ExcKind, exception_take, eret, pack_spsr, target_el}
use arm64emu_system.Cpu.Exception.Laws.{IsValid, eret-exception_take}
use arm64emu_system.Sysreg.Exec.{Soc, on_cpu}
use arm64emu_system.Decode.{field}
use arm64emu_system.Decode.Access.{sp_misaligned}
use arm64emu_system.Decode.LoadStore.Memory.{aligned_base}
use arm64emu_system.Decode.Branch.{branch_system, branch_register}
use arm64emu_system.Decode.Atomic.Laws.{IsExclusive, stxr-fails}
use arm64emu_system.Decode.Exec.{Env, StepResult, irq_line, loads_stores, exec_a64, cpu_step}

-- STXR with status register `rs`.
abbrev pub stxr : ℕ → ℕ → ℕ → ℕ → ℕ
stxr size rs rn rt = size * 2 ^ 30 + 0x08 * 2 ^ 24 + rs * 2 ^ 16 + 31 * 2 ^ 10 + rn * 2 ^ 5 + rt

-- The interrupt is pending and not masked, and nothing comes before it.
pub record IsInterrupted {W : Type 0} (s : Soc W) : Type 0 where
  pub running : s.mmu.cpu.stop ≡ false
  pub no_fiq : s.mmu.cpu.fiq_line ≡ false
  pub raised : irq_line s ≡ true
  pub unmasked : has_bit s.mmu.cpu.daif 7 ≡ false

-- The processor that ERET gives back.
abbrev pub resumed : Cpu → Cpu
resumed c = record c {
  pc = c.pc;
  spsr = update c.spsr (target_el c) (pack_spsr c);
  elr = update c.elr (target_el c) c.pc;
  esr = update c.esr (target_el c) 0;
  far = update c.far (target_el c) 0;
  halted = false;
  excl_valid = false;
}

interrupted :
    {W : Type 0} (env : Env) (s : Soc W)
    → IsInterrupted s
    → cpu_step env s
      ≡ some (StepResult.ok, on_cpu s (exception_take s.mmu.cpu ExcKind.irq 0 0 s.mmu.cpu.pc))
unfolding cpu_step
interrupted env s i = rw (i.running, i.no_fiq, i.raised, i.unmasked) refl

eret_lem :
    {W : Type 0} (env : Env) (s : Soc W)
    → exec_a64 env s 0xd69f_03e0 ≡ some (on_cpu s (eret s.mmu.cpu))
unfolding exec_a64 branch_system branch_register
eret_lem env s = refl

-- For a processor with well-formed PSTATE and a pending interrupt that is not masked: the next
-- step takes the interrupt, and an ERET in the handler resumes at the same PC. An STXR of any size,
-- its status register and its base not register 31, executed then answers 1, whatever the monitor
-- was before the interrupt, and the bus is as it was.
pub stxr-interrupted :
    {W : Type 0} (env : Env) (s : Soc W) (size rs rn rt : ℕ)
    → IsValid s.mmu.cpu
    → IsInterrupted s
    → size < 4
    → rs < 31
    → rn < 31
    → rt < 32
    → (s₁ s₂ s₃ : Soc W) × (cpu_step env s ≡ some (StepResult.ok, s₁))
      × (exec_a64 env s₁ 0xd69f_03e0 ≡ some s₂)
      × (s₂.mmu.cpu.pc ≡ s.mmu.cpu.pc)
      × (exec_a64 env s₂ (stxr size rs rn rt) ≡ some s₃)
      × (reg_x s₃.mmu.cpu rs ≡ 1)
      × (s₃.mmu.bus ≡ s.mmu.bus)
unfolding exec_a64 loads_stores set_x reg_x
stxr-interrupted env s size rs rn rt v i hs hr hn ht =
    let c = s.mmu.cpu in
    let insn = stxr size rs rn rt in
    let c₁ = exception_take c ExcKind.irq 0 0 c.pc in
    let s₁ = on_cpu s c₁ in
    let s₂ = on_cpu s (resumed c) in
    let c₃ = record (set_x (resumed c) (field insn 20 16) 1) { excl_valid = false } in
    let exclusive : IsExclusive insn false = record {
      o2 = ground arith;
      o1 = ground arith;
      l = ground arith;
    } in
    let base : field insn 9 5 ≡ rn = omega arith in
    let status : field insn 20 16 ≡ rs = omega arith in
    let aligned : sp_misaligned (resumed c) (field insn 9 5) ≡ false =
      rw base (aligned_base (resumed c) rn hn) in
    let group : insn / 2 ^ 25 % 2 ^ 4 ≡ 4 = omega arith in
    let class : field insn 29 27 ≡ 1 = omega arith in
    let general : field insn 26 24 ≡ 0 = omega arith in
    let apart : (rs == 31) ≡ false = ground arith in
    (
      s₁,
      s₂,
      on_cpu s c₃,
      interrupted env s i,
      eret_lem env s₁ ∙ ap (λ d. some (on_cpu s d)) (eret-exception_take c ExcKind.irq 0 0 c.pc v),
      refl,
      rw (group, class, general, stxr-fails s₂.mmu insn exclusive aligned refl) refl,
      rw (status, apart, ==_refl rs) refl,
      refl,
    )
