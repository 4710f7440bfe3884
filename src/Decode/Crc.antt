-- ===== src/Decode/Crc.antt =====
-- `crc32_tab_init` and `crc32_step` of src/decode.c: CRC32 by slicing. The static tables are built
-- once and read after that; here a cell is computed when it is read.
use arm64emu_system.Base.{ℕ, zero, suc, ◌+◌, ◌*◌, ◌/◌, ◌%◌, ◌^◌, ◌==◌, if◌then◌else◌, u32}
use arm64emu_system.Base.{bit_xor}

-- `c = (c >> 1) ^ (poly & -(c & 1))`, `k` times.
unfoldable pub crc_rounds : ℕ → ℕ → ℕ → ℕ
crc_rounds poly zero c = c
crc_rounds poly (suc k) c = crc_rounds poly k (bit_xor (c / 2) (if c % 2 == 1 then poly else 0))

-- `t[j][i]`.
unfoldable pub tab : ℕ → ℕ → ℕ → ℕ
unfolding crc_rounds
tab poly zero i = crc_rounds poly 8 i
tab poly (suc j) i =
    let below = tab poly j i in bit_xor (below / 2 ^ 8) (crc_rounds poly 8 (below % 2 ^ 8))

-- The byte loop, with `left` bytes to go.
unfoldable pub crc_bytes : ℕ → ℕ → ℕ → ℕ → ℕ → ℕ
unfolding tab
crc_bytes poly word zero i acc = acc
crc_bytes poly word (suc left) i acc =
    crc_bytes poly word left (i + 1)
      (bit_xor (acc / 2 ^ 8) (tab poly 0 (bit_xor acc (u32 (word / 2 ^ (8 * i))) % 2 ^ 8)))

unfoldable pub crc32_step : ℕ → ℕ → ℕ → ℕ → ℕ
unfolding crc_bytes
crc32_step acc word bytes poly =
    let a = bit_xor acc (u32 word) in
    let hi = u32 (word / 2 ^ 32) in
    let cell = λ (j x : ℕ). tab poly j (x % 2 ^ 8) in
    if bytes == 8
    then bit_xor
        (bit_xor
          (bit_xor
            (bit_xor
              (bit_xor (bit_xor (bit_xor (cell 7 a) (cell 6 (a / 2 ^ 8))) (cell 5 (a / 2 ^ 16)))
                (cell 4 (a / 2 ^ 24)))
              (cell 3 hi))
            (cell 2 (hi / 2 ^ 8)))
          (cell 1 (hi / 2 ^ 16)))
        (cell 0 (hi / 2 ^ 24))
    else crc_bytes poly word bytes 0 acc

-- The reflected polynomials of CRC32 and CRC32C.
abbrev pub crc32_poly : ℕ
crc32_poly = 0xedb8_8320

abbrev pub crc32c_poly : ℕ
crc32c_poly = 0x82f6_3b78
