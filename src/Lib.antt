-- ===== src/Lib.antt =====
-- arm64emu, an AArch64 system emulator in C: a processor that interprets A64 instructions, its
-- MMU, and the devices of a QEMU `virt` machine.
--
-- The processor fetches a word, dispatches on its bits (`exec_a64` of src/decode.c), and
-- changes the `CPU` structure; loads and stores go through the MMU to the physical bus, which
-- holds RAM, flash and the devices; a device raises an interrupt by `gic_set_irq`, and the
-- interrupt controller drives the line of the processor; the timer compares its registers with
-- the count of retired instructions, or with the host's clock.
--
-- - Base and its children: numbers of the machine (words of w bits are natural numbers below 2
--   ^ w, every wrap written out), Boolean tests, arrays as functions, lemmas on `&`, `|` and
--   `^`; Base/Always is for what holds of every answer of a step that may have none.
-- - Cpu: src/cpu.h and src/cpu.c, the state (`CPU`), register access, condition codes, reset.
--   Cpu/Exception: src/exception.c and src/esr.h, `exception_take`, PSTATE saved and restored,
--   ERET.
-- - Alu: the helpers of src/decode.c and src/types.h (`add_with_carry`, `shift_reg`,
--   `decode_bitmasks`).
-- - Decode: src/decode.c. Decode/Immediate is `dp_immediate`, Decode/Register is `dp_register`,
--   Decode/Crc is `crc32_step` with its tables, Decode/Branch is `branch_system`, whose two
--   function pointers are the record `Hooks`. Each of these is a function from the state and
--   the word to the state. Decode/Access is what the loads and stores are built from: a
--   function on the machine behind the MMU that stops when an exception has been raised.
--   Decode/LoadStore (`ldst_register`, `ldst_pair`, `ldst_literal`, `ldst_rcpc_unscaled`),
--   Decode/Atomic (`ldst_atomic`, `ldst_cas`, `ldst_casp`, `ldst_exclusive`), Decode/Vector
--   (`ldst_vector_multi`, `ldst_vector_single`) and Decode/Mops (`mops`) are the classes of
--   them. Decode/Exec is the dispatch (`loads_stores`, `exec_a64`) and `cpu_step` of src/cpu.c.
-- - Memory: src/memory.c, the bus with a list of devices over a world of their own
--   (`phys_read`, `phys_write`, the block transfers). Memory/Nor: its flash command set
--   (`flash_cfi_write`, `flash_cfi_read`).
-- - Mmu: src/mmu.c. Mmu/Walk is `walk` and `perm_ok_el`; Mmu holds the TLB, `mmu_translate`,
--   the flushes, `mmu_at_s1`, `mem_read` and `mem_write`; Mmu/Wide the accesses of 16 bytes,
--   `mem_ifetch` and the probes. These take the path behind the host-pointer caches; Mmu/Dtlb
--   has the same operations with the D-TLB and the fetch cache in front (`dtlb_fill`,
--   `cached_read` for `mem_read`, `flush_all` for `tlb_flush_all`).
-- - Devices/Gic: src/devices/gicv2.c. Devices/Timer: src/devices/timer.c. Devices/Uart:
--   src/devices/pl011.c. Devices/Rtc: src/devices/pl031.c. Devices/FwCfg: src/devices/fwcfg.c,
--   whose DMA takes and returns the bus. Devices/VirtioBlk: src/devices/virtio_blk.c, with the
--   image file as the parameter `Host`; its state is kept beside the bus, so that the addresses
--   in its rings are taken not to name its own registers. Devices/Psci: src/devices/psci.c. A
--   device's back pointer to the interrupt controller is a field of the state that its
--   operations take and return.
-- - Sysreg: src/sysreg.c. Sysreg holds the cases of MRS and MSR that only move a field and the
--   PSTATE instructions; Sysreg/Exec the others, with what they do to the TLB, the memory and
--   the timer (`sysreg_exec`).
-- - Fdt: src/fdt/fdt.c, `fdt_set_memory` on an array of bytes, token by token.
--
-- An access of C outside its array is `none`, in the interrupt controller, on the bus and in
-- the instructions, and `wild` in the device tree. What the host answers (its clocks, the bytes
-- that the terminal has ready) is an argument. `fpsr_sync`, the hook into the floating-point
-- code, is an argument. Loops are structural: over the 256 interrupts, the bytes of an access,
-- the bits of a word, the levels of a translation table (at most four). Two loops are on fuel.
-- That of `lp_record` (`widen`) shifts a 64-bit mask at most 64 times; the results below say
-- why that is enough. The walk over a device tree has one unit of fuel for each byte of its
-- structure block, and each token takes at least four. The loops of MOPS count down the bytes
-- of their stage, those of the block device the descriptors, the chunks of 4096 bytes and the
-- entries of the available ring that are left.
--
-- Not modelled: floating point and SIMD (src/exec_fpsimd.c), the MOPS steps of several bytes,
-- which the D-TLB allows, src/jit, the other virtio devices, src/net, src/platform.c, the
-- terminal and the command line, and all trace output.
pub mod Base
pub mod Cpu
pub mod Alu
pub mod Decode
pub mod Memory
pub mod Mmu
pub mod Devices
pub mod Sysreg
pub mod Fdt
