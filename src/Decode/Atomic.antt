-- ===== src/Decode/Atomic.antt =====
-- src/decode.c: the LSE atomics, compare-and-swap, and the exclusive accesses with their monitor
-- (`excl_valid`, `excl_addr`, `excl_size`). A register number past 30 that is not XZR indexes the
-- register file out of range.
pub mod Combine
pub mod Laws
pub mod Pairing
use arm64emu_system.Base.{ℕ, ◌+◌, ◌-◌, ◌*◌, ◌/◌, ◌%◌, ◌^◌, Bool, true, false, not, ◌&&◌, ◌||◌}
use arm64emu_system.Base.{◌==◌, ltb, if◌then◌else◌, has_bit, u64, bit_and, bit_or, bit_xor, not64}
use arm64emu_system.Base.{signed64, ltb_ℤ}
use arm64emu_system.Cpu.{Cpu, reg_x, reg_xsp, set_x}
use arm64emu_system.Alu.{sign_extend}
use arm64emu_system.Decode.{field, undefined}
use arm64emu_system.Decode.Access.{
  Access, ◌>>=◌, ◌>>◌, pure, cpu, on_cpu, stop, outside, read, write, sp_align_ok, after,
}

-- The new value of an atomic operation on `old`, before it is cut to the element of `esize` bits.
unfoldable pub combine : ℕ → ℕ → ℕ → ℕ → ℕ
combine opc esize old operand =
    let so = signed64 (sign_extend old esize) in
    let sn = signed64 (sign_extend operand esize) in
    if opc == 0
    then u64 (old + operand)
    else if opc == 1
    then bit_and old (not64 operand)
    else if opc == 2
    then bit_xor old operand
    else if opc == 3
    then bit_or old operand
    else if opc == 4
    then (if ltb_ℤ sn so then old else operand)
    else if opc == 5
    then (if ltb_ℤ so sn then old else operand)
    else if opc == 6
    then (if ltb operand old then old else operand)
    else if ltb old operand
    then old
    else operand

-- `ldst_atomic`: LD<op> and SWP, and LDAPR.
unfoldable pub ldst_atomic : {W : Type 0} → ℕ → Access W (Unit {0})
ldst_atomic insn =
    let bytes = 2 ^ field insn 31 30 in
    let o3 = has_bit insn 15 in
    let opc = field insn 14 12 in
    let rt = field insn 4 0 in
    do
      c ← cpu
      (let va = reg_xsp c (field insn 9 5) in
          let operand = reg_x c (field insn 20 16) % 2 ^ (8 * bytes) in
          if o3 && (opc == 4)
          then (do v ← read va bytes; on_cpu (λ c'. set_x c' rt v))
          else if o3 && not (opc == 0)
          then stop undefined
          else do
            old ← read va bytes
            write va bytes
                ((if o3 then operand else combine opc (8 * bytes) old operand) % 2 ^ (8 * bytes))
            on_cpu (λ c'. set_x c' rt old))

-- CAS.
unfoldable pub ldst_cas : {W : Type 0} → ℕ → Access W (Unit {0})
ldst_cas insn =
    let bytes = 2 ^ field insn 31 30 in
    let rs = field insn 20 16 in
    do
      c ← cpu
      (let va = reg_xsp c (field insn 9 5) in
          let expected = reg_x c rs % 2 ^ (8 * bytes) in
          do
            old ← read va bytes
            (if old == expected
                then write va bytes (reg_x c (field insn 4 0) % 2 ^ (8 * bytes))
                else pure tt)
            on_cpu (λ c'. set_x c' rs old))

-- `reg_x(c, n + 1)`: for XZR the next index is past the register file.
abbrev pub next_reg : {W : Type 0} → ℕ → Access W ℕ
next_reg n = if n == 31 then outside else pure (n + 1)

-- CASP. The second register is looked at only when the first half matches.
unfoldable pub casp_matches : {W : Type 0} → ℕ → ℕ → ℕ → ℕ → Access W Bool
casp_matches rs w lo hi = do
  c ← cpu
  (if lo == reg_x c rs % 2 ^ w
      then (do n ← next_reg rs; pure (hi == reg_x c n % 2 ^ w))
      else pure false)

unfoldable pub ldst_casp : {W : Type 0} → ℕ → Access W (Unit {0})
ldst_casp insn =
    let bytes = if has_bit insn 30 then 8 else 4 in
    let rs = field insn 20 16 in
    let rt = field insn 4 0 in
    let cut = λ (v : ℕ). v % 2 ^ (8 * bytes) in
    do
      c ← cpu
      (let va = reg_xsp c (field insn 9 5) in
          let next = u64 (va + bytes) in
          do
            lo ← read va bytes
            hi ← read next bytes
            same ← casp_matches rs (8 * bytes) lo hi
            (if same
                then (do
                  write va bytes (cut (reg_x c rt))
                  n ← next_reg rt
                  write next bytes (cut (reg_x c n)))
                else pure tt)
            on_cpu (λ c'. set_x c' rs lo)
            n ← next_reg rs
            on_cpu (λ c'. set_x c' n hi))

-- The monitor after LDXR and LDXP.
abbrev pub monitor : ℕ → ℕ → Cpu → Cpu
monitor va bytes c = record c { excl_valid = true; excl_addr = va; excl_size = bytes }

abbrev pub clear_monitor : {W : Type 0} → Access W (Unit {0})
clear_monitor = on_cpu (λ c. record c { excl_valid = false })

-- STXR and STXP: the stores go through only under a valid monitor of the same address.
unfoldable pub store_exclusive : {W : Type 0} → ℕ → ℕ → Access W (Unit {0}) → Access W (Unit {0})
store_exclusive va rs stores = do
  c ← cpu
  (if c.excl_valid && (c.excl_addr == va)
      then (do stores; on_cpu (λ c'. set_x c' rs 0))
      else on_cpu (λ c'. set_x c' rs 1))
  clear_monitor

unfoldable pub exclusive_single : {W : Type 0} → ℕ → ℕ → Access W (Unit {0})
exclusive_single insn va =
    let bytes = 2 ^ field insn 31 30 in
    let rt = field insn 4 0 in
    if has_bit insn 22
    then (do v ← read va bytes; on_cpu (λ c. monitor va bytes (set_x c rt v)))
    else do c ← cpu; store_exclusive va (field insn 20 16) (write va bytes (reg_x c rt))

unfoldable pub exclusive_pair : {W : Type 0} → ℕ → ℕ → Access W (Unit {0})
exclusive_pair insn va =
    let bytes = 2 ^ field insn 31 30 in
    let rt = field insn 4 0 in
    let rt2 = field insn 14 10 in
    let next = u64 (va + bytes) in
    if has_bit insn 22
    then (do
      a ← read va bytes
      b ← read next bytes
      on_cpu (λ c. monitor va (bytes * 2) (set_x (set_x c rt a) rt2 b)))
    else do
      c ← cpu
      store_exclusive va (field insn 20 16)
          (do write va bytes (reg_x c rt); write next bytes (reg_x c rt2))

-- LDAR and STLR.
unfoldable pub ordered : {W : Type 0} → ℕ → ℕ → Access W (Unit {0})
ordered insn va =
    let bytes = 2 ^ field insn 31 30 in
    let rt = field insn 4 0 in
    if has_bit insn 22
    then (do v ← read va bytes; on_cpu (λ c. set_x c rt v))
    else (do c ← cpu; write va bytes (reg_x c rt))

unfoldable pub ldst_exclusive : {W : Type 0} → ℕ → Access W (Unit {0})
ldst_exclusive insn =
    let o2 = has_bit insn 23 in
    let o1 = has_bit insn 21 in
    let rn = field insn 9 5 in
    do
      c ← cpu
      sp_align_ok rn
      (let va = reg_xsp c rn in
          if o2 && o1
          then ldst_cas insn
          else if not o2 && (o1 && not (has_bit insn 31))
          then ldst_casp insn
          else if o2
          then ordered insn va
          else if not o1
          then exclusive_single insn va
          else exclusive_pair insn va)
