-- ===== src/Decode/Tests.antt =====
-- The theorems on the instructions at concrete instructions, on a processor after reset.
use arm64emu_system.Base.{ℕ, ◌≡◌, refl, arith, false, update, Option, some}
use arm64emu_system.Cpu.{Cpu, cpu_reset, reg_x}
use arm64emu_system.Cpu.Exception.{esr_make, target_el, pack_spsr}
use arm64emu_system.Cpu.Exception.Laws.{IsValid}
use arm64emu_system.Decode.Register.{dp_register}
use arm64emu_system.Decode.Branch.{Hooks, branch_system}
use arm64emu_system.Decode.Locality.{IsContained}
use arm64emu_system.Decode.Locality.Registers.{dp_register-IsContained}
use arm64emu_system.Decode.Constants.{load_constant, load_constant_lem}
use arm64emu_system.Decode.Calls.{call, eret-svc}
use arm64emu_system.Devices.Psci.{smccc_conduit}

abbrev kernel : Cpu
kernel = cpu_reset 0x4008_0000 1

abbrev user : Cpu
user = cpu_reset 0x4008_0000 0

dp_register-IsContained_example : IsContained kernel (dp_register kernel 0x8b02_0020)
dp_register-IsContained_example = dp_register-IsContained kernel 0x8b02_0020

load_constant_lem_example :
    reg_x (load_constant kernel 5 0x0123_4567_89ab_cdef) 5 ≡ 0x0123_4567_89ab_cdef
load_constant_lem_example =
    load_constant_lem kernel 5 0x0123_4567_89ab_cdef (omega arith) (omega arith)

-- The firmware is installed; the system registers are not.
abbrev hooks : Hooks ℕ
hooks = record { smccc_conduit = some smccc_conduit; sysreg_exec = Option.none }

user-IsValid : IsValid user
unfolding cpu_reset
user-IsValid = record {
  flags_small = omega arith;
  flags_high = refl;
  masks_small = omega arith;
  masks_high = refl;
  el_small = omega arith;
  sp_sel_small = omega arith;
  trap_current = refl;
}

eret-svc_example :
    let svc = branch_system hooks (user, 7) (call 1 42) in
    (svc.0.esr (target_el user) ≡ esr_make 0x15 42)
    × (branch_system hooks svc 0xd69f_03e0 ≡ (
      record user {
        spsr = update user.spsr (target_el user) (pack_spsr user);
        elr = update user.elr (target_el user) user.pc;
        esr = update user.esr (target_el user) (esr_make 0x15 42);
        far = update user.far (target_el user) 0;
        halted = false;
        excl_valid = false;
      },
      7,
    ))
eret-svc_example = eret-svc hooks user 7 42 user-IsValid (omega arith)
