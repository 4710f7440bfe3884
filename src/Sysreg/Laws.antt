-- ===== src/Sysreg/Laws.antt =====
-- src/sysreg.c: reading back what was written.
use arm64emu_system.Base.{ℕ, ◌+◌, ◌≡◌, refl}
use arm64emu_system.Cpu.{Cpu}
use arm64emu_system.Alu.{flags_word}
use arm64emu_system.Cpu.{ps_n, ps_z, ps_c, ps_v}
use arm64emu_system.Sysreg.{key, read_plain, write_plain, msr_immediate}

-- The registers whose every bit is kept.
pub data Kept : Type 0 where
  sctlr_el1 ttbr0_el1 ttbr1_el1 tcr_el1 mair_el1 amair_el1 vbar_el1 esr_el1 far_el1 par_el1
        contextidr_el1 tpidr_el1 tpidr_el0 tpidrro_el0 mdscr_el1 spsr_el1 elr_el1 sp_el0 cntfrq_el0
        cntp_cval_el0 cntv_cval_el0 cntkctl_el1 :
      Kept

abbrev pub key_of : Kept → ℕ
key_of sctlr_el1 = key 3 0 1 0 0
key_of ttbr0_el1 = key 3 0 2 0 0
key_of ttbr1_el1 = key 3 0 2 0 1
key_of tcr_el1 = key 3 0 2 0 2
key_of mair_el1 = key 3 0 10 2 0
key_of amair_el1 = key 3 0 10 3 0
key_of vbar_el1 = key 3 0 12 0 0
key_of esr_el1 = key 3 0 5 2 0
key_of far_el1 = key 3 0 6 0 0
key_of par_el1 = key 3 0 7 4 0
key_of contextidr_el1 = key 3 0 13 0 1
key_of tpidr_el1 = key 3 0 13 0 4
key_of tpidr_el0 = key 3 3 13 0 2
key_of tpidrro_el0 = key 3 3 13 0 3
key_of mdscr_el1 = key 2 0 0 2 2
key_of spsr_el1 = key 3 0 4 0 0
key_of elr_el1 = key 3 0 4 0 1
key_of sp_el0 = key 3 0 4 1 0
key_of cntfrq_el0 = key 3 3 14 0 0
key_of cntp_cval_el0 = key 3 3 14 2 2
key_of cntv_cval_el0 = key 3 3 14 3 2
key_of cntkctl_el1 = key 3 0 14 1 0

-- For each of the 22 registers that keep every bit: an MRS after an MSR gives the value that
-- was written.
read_plain-write_plain :
    (r : Kept) (c : Cpu) (v : ℕ) → read_plain (write_plain c (key_of r) v) (key_of r) ≡ v
unfolding read_plain write_plain
read_plain-write_plain sctlr_el1 c v = refl
read_plain-write_plain ttbr0_el1 c v = refl
read_plain-write_plain ttbr1_el1 c v = refl
read_plain-write_plain tcr_el1 c v = refl
read_plain-write_plain mair_el1 c v = refl
read_plain-write_plain amair_el1 c v = refl
read_plain-write_plain vbar_el1 c v = refl
read_plain-write_plain esr_el1 c v = refl
read_plain-write_plain far_el1 c v = refl
read_plain-write_plain par_el1 c v = refl
read_plain-write_plain contextidr_el1 c v = refl
read_plain-write_plain tpidr_el1 c v = refl
read_plain-write_plain tpidr_el0 c v = refl
read_plain-write_plain tpidrro_el0 c v = refl
read_plain-write_plain mdscr_el1 c v = refl
read_plain-write_plain spsr_el1 c v = refl
read_plain-write_plain elr_el1 c v = refl
read_plain-write_plain sp_el0 c v = refl
read_plain-write_plain cntfrq_el0 c v = refl
read_plain-write_plain cntp_cval_el0 c v = refl
read_plain-write_plain cntv_cval_el0 c v = refl
read_plain-write_plain cntkctl_el1 c v = refl

-- The answers of a floating-point comparison, and the flags that it sets for them.
pub data Comparison : Type 0 where
  less same greater unordered : Comparison

abbrev pub flags_of : Comparison → ℕ
flags_of less = ps_n
flags_of same = ps_z + ps_c
flags_of greater = ps_c
flags_of unordered = ps_c + ps_v

-- On the flags of each of the four answers of a floating-point comparison, AXFLAG followed by
-- XAFLAG changes nothing.
xaflag-axflag :
    (r : Comparison) (c : Cpu)
    → msr_immediate (msr_immediate (record c { nzcv = flags_of r }) 0xd500_405f) 0xd500_403f
      ≡ record c { nzcv = flags_of r }
unfolding msr_immediate flags_word
xaflag-axflag less c = refl
xaflag-axflag same c = refl
xaflag-axflag greater c = refl
xaflag-axflag unordered c = refl
