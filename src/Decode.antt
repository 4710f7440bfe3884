-- ===== src/Decode.antt =====
-- src/decode.c: the integer instructions of A64. Each child takes one of the decoder's groups; an
-- instruction that the code treats as unallocated takes the UNDEFINED exception.
pub mod Access
pub mod Atomic
pub mod Vector
pub mod LoadStore
pub mod Mops
pub mod Exec
pub mod Immediate
pub mod Crc
pub mod Register
pub mod Branch
pub mod Locality
pub mod Constants
pub mod Calls
mod Tests
use arm64emu_system.Base.{ℕ, ◌+◌, ◌-◌, ◌*◌, ◌/◌, ◌%◌, ◌^◌}
use arm64emu_system.Cpu.{Cpu}
use arm64emu_system.Cpu.Exception.{raise_sync, esr_make}

-- `BITS(hi, lo)` of an instruction word.
abbrev pub field : ℕ → ℕ → ℕ → ℕ
field insn hi lo = insn / 2 ^ lo % 2 ^ (hi - lo + 1)

-- `undefined`: EC_UNKNOWN at the instruction.
unfoldable pub undefined : Cpu → Cpu
undefined c = raise_sync c (esr_make 0x00 0) 0
