-- ===== src/Alu/Tests.antt =====
-- The theorems on the arithmetic helpers of src/decode.c at concrete operands.
use arm64emu_system.Base.{◌≡◌, ◌-◌, ◌^◌, arith, true}
use arm64emu_system.Base.{◌==◌, ltb, leb, leb_ℤ, ltb_ℤ, signed64}
use arm64emu_system.Alu.{decode_bitmasks_slow}
use arm64emu_system.Alu.Compare.{Says, compare_flags, compare_conditions64}
use arm64emu_system.Alu.Masks.{described, decode_bitmasks_slow-described}

-- Minus one against one: below as signed, above as unsigned.
compare_conditions64_example :
    Says
      (compare_flags (2 ^ 64 - 1) 1 true)
      (2 ^ 64 - 1 == 1)
      (leb 1 (2 ^ 64 - 1))
      (ltb 1 (2 ^ 64 - 1))
      (leb_ℤ (signed64 1) (signed64 (2 ^ 64 - 1)))
      (ltb_ℤ (signed64 1) (signed64 (2 ^ 64 - 1)))
compare_conditions64_example = compare_conditions64 (2 ^ 64 - 1) 1 (omega arith) (omega arith)

decode_bitmasks_slow-described_example : decode_bitmasks_slow 0 60 3 ≡ described 0 60 3
decode_bitmasks_slow-described_example =
    decode_bitmasks_slow-described 0 60 3 (omega arith) (omega arith) (omega arith)
