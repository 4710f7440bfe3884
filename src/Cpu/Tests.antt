-- ===== src/Cpu/Tests.antt =====
-- The theorems on src/exception.c at a freshly reset processor.
use arm64emu_system.Base.{◌<◌, ◌≤◌, ◌≡◌, ◌/◌, ◌%◌, ◌^◌, refl, arith, false}
use arm64emu_system.Base.{update}
use arm64emu_system.Cpu.{Cpu, cpu_reset, daif_mask, fp_trap_at}
use arm64emu_system.Cpu.Exception.{irq, pack_spsr, unpack_spsr, exception_take, eret, target_el}
use arm64emu_system.Cpu.Exception.Laws.{IsValid, unpack_spsr-pack_spsr, eret-exception_take}
use arm64emu_system.Cpu.Exception.Laws.{exception_take_lem, on_sp_elx, ComesFrom, on_own}

-- A processor at EL1 with a vector table.
abbrev booted : Cpu
booted = record (cpu_reset 0x4008_0000 1) { vbar = update (λ _. 0) 1 0x4008_1000 }

booted-IsValid : IsValid booted
unfolding cpu_reset
booted-IsValid = record {
  flags_small = omega arith;
  flags_high = refl;
  masks_small = omega arith;
  masks_high = refl;
  el_small = omega arith;
  sp_sel_small = omega arith;
  trap_current = refl;
}

unpack_spsr-pack_spsr_example :
    unpack_spsr (cpu_reset 0 1) (pack_spsr booted) ≡ record (cpu_reset 0 1) {
      nzcv = booted.nzcv;
      daif = booted.daif;
      el = booted.el;
      sp_sel = booted.sp_sel;
      fp_trapped = fp_trap_at (cpu_reset 0 1).cpacr_el1 booted.el;
    }
unpack_spsr-pack_spsr_example = unpack_spsr-pack_spsr booted (cpu_reset 0 1) booted-IsValid

eret-exception_take_example : eret (exception_take booted irq 0 0 0x4008_0004) ≡ record booted {
  pc = 0x4008_0004;
  spsr = update booted.spsr (target_el booted) (pack_spsr booted);
  elr = update booted.elr (target_el booted) 0x4008_0004;
  esr = update booted.esr (target_el booted) 0;
  far = update booted.far (target_el booted) 0;
  halted = false;
  excl_valid = false;
}
eret-exception_take_example = eret-exception_take booted irq 0 0 0x4008_0004 booted-IsValid

booted-vbar : booted.vbar (target_el booted) < 2 ^ 64
unfolding cpu_reset
booted-vbar = omega arith

booted-own : ComesFrom booted on_sp_elx
unfolding cpu_reset
booted-own = on_own (omega arith) refl

exception_take_lem_example :
    let c' = exception_take booted irq 0 0 0x4008_0004 in
    IsValid c'
    × (c'.daif ≡ daif_mask)
    × (1 ≤ c'.el)
    × (booted.el ≤ c'.el)
    × (c'.pc / 2 ^ 11 ≡ booted.vbar c'.el / 2 ^ 11)
    × (c'.pc % 2 ^ 11 ≡ 0x280)
exception_take_lem_example =
    exception_take_lem booted on_sp_elx irq 0 0 0x4008_0004 booted-IsValid booted-own booted-vbar
