-- ===== src/Decode/Calls.antt =====
-- src/decode.c: the instructions by which code calls a higher level.
use arm64emu_system.Base.{ℕ, ◌+◌, ◌*◌, ◌^◌, ◌≤◌, ◌<◌, ◌≡◌, refl, arith, ap, ◌∙◌, false, update}
use native.Mathlib.Decide.{ℕ_discrete}
use arm64emu_system.Base.{==_refl}
use arm64emu_system.Cpu.{Cpu}
use arm64emu_system.Cpu.Exception.{sync, exception_take, eret, esr_make, target_el, pack_spsr}
use arm64emu_system.Cpu.Exception.Laws.{IsValid, eret-exception_take}
use arm64emu_system.Decode.{field, undefined}
use arm64emu_system.Decode.Branch.{
  Hooks, branch_system, generate_exception, firmware_call, branch_register,
}

-- The encodings `SVC #imm`, `HVC #imm` and `SMC #imm`.
abbrev pub call : ℕ → ℕ → ℕ
call ll imm = 0xd400_0000 + imm * 2 ^ 5 + ll

-- What the decoder reads of them.
call-fields :
    (ll imm : ℕ)
    → ll < 4
    → imm < 2 ^ 16
    → (field (call ll imm) 31 26 ≡ 0x35)
      × (field (call ll imm) 31 24 ≡ 0xd4)
      × (field (call ll imm) 30 25 ≡ 0x2a)
      × (field (call ll imm) 23 21 ≡ 0)
      × (field (call ll imm) 1 0 ≡ ll)
      × (field (call ll imm) 20 5 ≡ imm)
call-fields ll imm l i =
    (omega arith, omega arith, omega arith, omega arith, omega arith, omega arith)

branch_system-call :
    {W : Type 0} (hooks : Hooks W) (c : Cpu) (w : W) (ll imm : ℕ)
    → ll < 4
    → imm < 2 ^ 16
    → branch_system hooks (c, w) (call ll imm)
      ≡ (generate_exception hooks.smccc_conduit c (call ll imm), w)
unfolding branch_system
branch_system-call hooks c w ll imm l i = let f = call-fields ll imm l i in rw (f.0, f.1, f.2) refl

syndrome : (c : Cpu) (e ret : ℕ) → (exception_take c sync e 0 ret).esr (target_el c) ≡ e
unfolding exception_take
syndrome c e ret = rw (==_refl (target_el c)) refl

returned :
    {W : Type 0} (hooks : Hooks W) (c : Cpu) (w : W)
    → branch_system hooks (c, w) 0xd69f_03e0 ≡ (eret c, w)
unfolding branch_system branch_register
returned hooks c w = refl

-- At EL0, HVC and SMC with any 16-bit immediate are UNDEFINED, whatever firmware is installed,
-- and change nothing else.
firmware_call-el0 :
    {W : Type 0} (hooks : Hooks W) (c : Cpu) (w : W) (ll imm : ℕ)
    → c.el ≡ 0
    → 2 ≤ ll
    → ll < 4
    → imm < 2 ^ 16
    → branch_system hooks (c, w) (call ll imm) ≡ (undefined c, w)
unfolding generate_exception firmware_call
firmware_call-el0 hooks c w ll imm el0 lo hi i =
    branch_system-call hooks c w ll imm hi i ∙ elim (ℕ_discrete ll 2) [
      | yes e ↦ let f = call-fields 2 imm (omega arith) i in rw (e, f.3, f.4, el0) refl
      | no ne ↦
          let e : ll ≡ 3 = omega arith in
          let f = call-fields 3 imm (omega arith) i in rw (e, f.3, f.4, el0) refl
    ]

-- For a processor with well-formed PSTATE and a 16-bit immediate: SVC puts its class and
-- immediate in the syndrome of the target level, and an ERET right after it gives the processor
-- back, but for the SPSR, ELR, ESR and FAR of that level, and the halt flag and the exclusive
-- monitor, which are clear.
pub eret-svc :
    {W : Type 0} (hooks : Hooks W) (c : Cpu) (w : W) (imm : ℕ)
    → IsValid c
    → imm < 2 ^ 16
    → let svc = branch_system hooks (c, w) (call 1 imm) in
      (svc.0.esr (target_el c) ≡ esr_make 0x15 imm)
      × (branch_system hooks svc 0xd69f_03e0 ≡ (
        record c {
          spsr = update c.spsr (target_el c) (pack_spsr c);
          elr = update c.elr (target_el c) c.pc;
          esr = update c.esr (target_el c) (esr_make 0x15 imm);
          far = update c.far (target_el c) 0;
          halted = false;
          excl_valid = false;
        },
        w,
      ))
unfolding generate_exception
eret-svc hooks c w imm v i =
    let f = call-fields 1 imm (omega arith) i in
    let taken : branch_system hooks (c, w) (call 1 imm)
        ≡ (exception_take c sync (esr_make 0x15 imm) 0 c.pc, w) =
      branch_system-call hooks c w 1 imm (omega arith) i ∙ rw (f.3, f.4, f.5) refl in
    rw taken (
      syndrome c (esr_make 0x15 imm) c.pc,
      returned hooks (exception_take c sync (esr_make 0x15 imm) 0 c.pc) w
          ∙ ap (λ (d : Cpu). (d, w)) (eret-exception_take c sync (esr_make 0x15 imm) 0 c.pc v),
    )
