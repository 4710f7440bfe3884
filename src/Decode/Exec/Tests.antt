-- ===== src/Decode/Exec/Tests.antt =====
-- The theorems on loads, stores and interrupts at a machine with RAM and with the MMU off.
use arm64emu_system.Base.{
  ℕ, ◌+◌, ◌-◌, ◌^◌, ◌%◌, ◌≡◌, ◌≤◌, ◌<◌, ◌⊎◌, refl, arith, true, false, [], some, none,
}
use arm64emu_system.Base.{update, if◌then◌else◌, ◌==◌}
use arm64emu_system.Cpu.{Cpu, cpu_reset, reg_x, reg_xsp, set_x}
use arm64emu_system.Cpu.Exception.Laws.{IsValid}
use arm64emu_system.Memory.{Bus, BusStatus, ld_le, st_le}
use arm64emu_system.Memory.Nor.{ready}
use arm64emu_system.Mmu.{Mmu, empty_entry}
use arm64emu_system.Mmu.Flat.{InRam, with_ram}
use arm64emu_system.Devices.Gic.{create}
use arm64emu_system.Devices.Timer.{Clock}
use arm64emu_system.Sysreg.Exec.{Soc}
use arm64emu_system.Decode.Access.Restart.{Restarts}
use arm64emu_system.Decode.Atomic.{ldst_atomic, ldst_cas, ldst_casp, ldst_exclusive}
use arm64emu_system.Decode.Atomic.Laws.{
  IsExclusive, ldst_atomic-ram, ldst_cas-ram, stxr-succeeds, ldst_casp-xzr, st_le-bytes,
}
use arm64emu_system.Decode.Atomic.Combine.{ldadd}
use arm64emu_system.Decode.Atomic.Pairing.{IsPair, stxr-ldxr}
use arm64emu_system.Decode.LoadStore.Memory.{unsigned_offset, ldr-str}
use arm64emu_system.Decode.Exec.{Env, StepResult, loads_stores, exec_a64, cpu_step}
use arm64emu_system.Decode.Exec.Precise.{loads_stores-Restarts}
use arm64emu_system.Decode.Exec.Interrupts.{IsInterrupted, stxr, stxr-interrupted}

-- At EL1, interrupts unmasked; x1 points into the RAM, x2 is 7, and the monitor covers x1.
abbrev kernel : Cpu
kernel = record (cpu_reset 0x4000_0000 1) {
  daif = 0;
  x = update (update (λ _. 0) 1 0x4000_0100) 2 7;
  excl_valid = true;
  excl_addr = 0x4000_0100;
}

abbrev bus : Bus ℕ
bus = record {
  ram = st_le (λ _. 0) 0x100 8 5;
  ram_base = 0x4000_0000;
  ram_size = 0x1_0000;
  flash = record { cells = λ _. 0; banks = λ _. ready };
  flash_base = 0;
  flash_size = 0x0800_0000;
  devices = [];
  last_bus_status = BusStatus.bus_ok;
  world = 0;
}

abbrev machine : Cpu → Mmu ℕ
machine c = record {
  cpu = c;
  bus = bus;
  tlb = λ _. empty_entry;
  tlb_gen = 1;
  lp_base = 2 ^ 64 - 1;
  lp_mask = 2 ^ 64 - 1;
}

-- `ldr x0, [x1], #8`.
loads_stores-Restarts_example : Restarts kernel (loads_stores 0xf840_8420 (machine kernel))
loads_stores-Restarts_example = loads_stores-Restarts (machine kernel) 0xf840_8420 refl

-- `str x2, [x1, #16]` and `ldr x3, [x1, #16]`.
ldr-str_example :
    (m' : Mmu ℕ) × (m'' : Mmu ℕ) × (loads_stores (unsigned_offset 3 0 2 1 2) (machine kernel)
      ≡ some (some tt, m'))
    × (loads_stores (unsigned_offset 3 1 2 1 3) m' ≡ some (some tt, m''))
    × (m''.cpu.x ≡ update kernel.x 3 (reg_x kernel 2 % 2 ^ 64))
    × ((j : ℕ) → (j < 0x110) ⊎ (0x118 ≤ j) → m''.bus.ram j ≡ bus.ram j)
unfolding cpu_reset reg_xsp
ldr-str_example =
    ldr-str (machine kernel) 3 2 1 2 3 (omega arith) (omega arith) (omega arith) (omega arith)
      (omega arith) refl (omega arith) (omega arith) (omega arith)

in_ram : (n : ℕ) → n ≤ 16 → InRam (machine kernel) 0x4000_0100 n
unfolding cpu_reset
in_ram n h = record { off = refl; above = omega arith; below = omega arith; small = omega arith }

ram-bytes : (j : ℕ) → bus.ram j < 2 ^ 8
ram-bytes = st_le-bytes (λ _. 0) 0x100 8 5 (λ _. omega arith)

-- `ldadd x2, x0, [x1]`.
ldst_atomic-ram_example :
    (m' : Mmu ℕ) × (ldst_atomic 0xf822_0020 (machine kernel) ≡ some (some tt, m'))
    × (ld_le m'.bus.ram 0x100 8 ≡ (ld_le bus.ram 0x100 8 + reg_x kernel 2 % 2 ^ 64) % 2 ^ 64)
    × (m'.cpu ≡ set_x kernel 0 (ld_le bus.ram 0x100 8))
    × ((j : ℕ) → (j < 0x100) ⊎ (0x108 ≤ j) → m'.bus.ram j ≡ bus.ram j)
unfolding cpu_reset reg_xsp
ldst_atomic-ram_example =
    ldst_atomic-ram (machine kernel) 0xf822_0020 ldadd refl refl ram-bytes (in_ram 8 (omega arith))

-- `cas x2, x3, [x1]`.
ldst_cas-ram_example :
    (m' : Mmu ℕ) × (ldst_cas 0xc8a2_7c23 (machine kernel) ≡ some (some tt, m'))
    × (ld_le m'.bus.ram 0x100 8 ≡ (
        if ld_le bus.ram 0x100 8 == reg_x kernel 2 % 2 ^ 64
        then reg_x kernel 3 % 2 ^ 64
        else ld_le bus.ram 0x100 8))
    × (m'.cpu ≡ set_x kernel 2 (ld_le bus.ram 0x100 8))
unfolding cpu_reset reg_xsp
ldst_cas-ram_example = ldst_cas-ram (machine kernel) 0xc8a2_7c23 (in_ram 8 (omega arith))

-- `stxr w0, x2, [x1]`.
store_x2-IsExclusive : IsExclusive 0xc800_7c22 false
store_x2-IsExclusive = record { o2 = refl; o1 = refl; l = refl }

stxr-succeeds_example :
    ldst_exclusive 0xc800_7c22 (machine kernel)
    ≡ some (
      some tt,
      record (with_ram (machine kernel) (st_le bus.ram 0x100 8 (reg_x kernel 2))) {
        cpu = record (set_x kernel 0 0) { excl_valid = false };
      },
    )
unfolding cpu_reset reg_xsp
stxr-succeeds_example =
    stxr-succeeds (machine kernel) 0xc800_7c22 store_x2-IsExclusive refl refl
      (in_ram 8 (omega arith))

-- `ldxr x3, [x1]` and `stxr w0, x2, [x1]`.
exclusive-IsPair : IsPair 0xc85f_7c23 0xc800_7c22
exclusive-IsPair = record {
  loads = record { o2 = refl; o1 = refl; l = refl };
  stores = store_x2-IsExclusive;
  same_size = refl;
  same_base = refl;
  base_lt = omega arith;
  loaded_lt = omega arith;
  loaded_apart = λ e. omega arith;
  status_lt = omega arith;
}

stxr-ldxr_example :
    (m₁ m₂ m₃ : Mmu ℕ) × (ldst_exclusive 0xc85f_7c23 (machine kernel) ≡ some (some tt, m₁))
    × (m₁.cpu.x 3 ≡ ld_le bus.ram 0x100 8)
    × (ldst_exclusive 0xc800_7c22 m₁ ≡ some (some tt, m₂))
    × (m₂.cpu.x 0 ≡ 0)
    × (ld_le m₂.bus.ram 0x100 8 ≡ reg_x m₁.cpu 2 % 2 ^ 64)
    × ((j : ℕ) → (j < 0x100) ⊎ (0x108 ≤ j) → m₂.bus.ram j ≡ bus.ram j)
    × (ldst_exclusive 0xc800_7c22 m₂ ≡ some (some tt, m₃))
    × (m₃.cpu.x 0 ≡ 1)
    × (m₃.bus ≡ m₂.bus)
stxr-ldxr_example =
    stxr-ldxr (machine kernel) 0xc85f_7c23 0xc800_7c22 exclusive-IsPair (in_ram 8 (omega arith))

-- `casp xzr, x0, x2, x3, [x1]`, encoded with register 31.
ldst_casp-xzr_example : ldst_casp 0x483f_7c22 (machine kernel) ≡ none
unfolding cpu_reset reg_xsp
ldst_casp-xzr_example = ldst_casp-xzr (machine kernel) 0x483f_7c22 refl (in_ram 16 (omega arith))

abbrev ticking : Clock
ticking = record { rtclock = false; now = 0 }

abbrev env : Env
env = record {
  clock = ticking;
  clock' = ticking;
  clock'' = ticking;
  fpsr_sync = λ c. c;
  conduit = none;
  exec_fpsimd = none;
}

abbrev soc : Soc ℕ
soc = record {
  mmu = machine kernel;
  gic = some (record create { irq_line = true });
  deadline = none;
}

kernel-IsValid : IsValid kernel
unfolding cpu_reset
kernel-IsValid = record {
  flags_small = omega arith;
  flags_high = refl;
  masks_small = omega arith;
  masks_high = refl;
  el_small = omega arith;
  sp_sel_small = omega arith;
  trap_current = refl;
}

soc-IsInterrupted : IsInterrupted soc
unfolding cpu_reset
soc-IsInterrupted = record { running = refl; no_fiq = refl; raised = refl; unmasked = refl }

stxr-interrupted_example :
    (s₁ s₂ s₃ : Soc ℕ) × (cpu_step env soc ≡ some (StepResult.ok, s₁))
    × (exec_a64 env s₁ 0xd69f_03e0 ≡ some s₂)
    × (s₂.mmu.cpu.pc ≡ kernel.pc)
    × (exec_a64 env s₂ (stxr 3 0 1 2) ≡ some s₃)
    × (reg_x s₃.mmu.cpu 0 ≡ 1)
    × (s₃.mmu.bus ≡ bus)
stxr-interrupted_example =
    stxr-interrupted env soc 3 0 1 2 kernel-IsValid soc-IsInterrupted (omega arith) (omega arith)
      (omega arith) (omega arith)
