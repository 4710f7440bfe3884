-- ===== src/Decode/Locality/Registers.antt =====
-- src/decode.c: what data-processing instructions on registers may change.
use arm64emu_system.Base.{
  ℕ, ◌+◌, ◌*◌, Bool, true, false, ◌==◌, not, ◌&&◌, ◌||◌, ltb, if◌then◌else◌, has_bit, bit,
}
use arm64emu_system.Cpu.{Cpu, set_x_sz, cond_holds}
use arm64emu_system.Decode.{field}
use arm64emu_system.Decode.Register.{
  logical_shifted, add_sub_result, add_sub_register, multiply, add_sub_carry, conditional_compare,
  conditional_select, one_source, two_source, dp_register,
}
use arm64emu_system.Decode.Locality.{
  IsContained, stopped, flagged, set_x-IsContained, set_x_sz-IsContained, set_xsp-IsContained,
  either, put_x,
}

logical_shifted-IsContained : (c : Cpu) (insn : ℕ) → IsContained c (logical_shifted c insn)
unfolding logical_shifted
logical_shifted-IsContained c insn =
    either (not (has_bit insn 31) && has_bit (field insn 15 10) 5) stopped (
      either (field insn 30 29 == 3) (set_x-IsContained c _ (field insn 4 0) _)
        (set_x-IsContained c c.nzcv (field insn 4 0) _))

add_sub_result-IsContained :
    (c : Cpu) (insn n op2 : ℕ) (sp : Bool) → IsContained c (add_sub_result c insn n op2 sp)
add_sub_result-IsContained c insn n op2 sp =
    either (has_bit insn 29) (set_x_sz-IsContained c _ (field insn 4 0) (has_bit insn 31) _)
      (either sp (set_xsp-IsContained c (field insn 4 0) _) (put_x c insn _))

add_sub_register-IsContained : (c : Cpu) (insn : ℕ) → IsContained c (add_sub_register c insn)
unfolding add_sub_register
add_sub_register-IsContained c insn =
    either (has_bit insn 21)
      (either (ltb 4 (field insn 12 10) || not (field insn 23 22 == 0)) stopped
        (add_sub_result-IsContained c insn _ _ true))
      (either ((field insn 23 22 == 3) || (not (has_bit insn 31) && has_bit (field insn 15 10) 5))
        stopped (add_sub_result-IsContained c insn _ _ false))

multiply-IsContained : (c : Cpu) (insn : ℕ) → IsContained c (multiply c insn)
unfolding multiply
multiply-IsContained c insn =
    let op = field insn 23 21 * 2 + bit insn 15 in
    either (not (field insn 30 29 == 0)) stopped (
      either (not (has_bit insn 31) && not (field insn 23 21 == 0)) stopped (
        either (op == 0x0) (put_x c insn _) (
          either (op == 0x1) (put_x c insn _) (
            either (op == 0x2) (put_x c insn _) (
              either (op == 0x3) (put_x c insn _) (
                either (op == 0x4) (put_x c insn _) (
                  either (op == 0xa) (put_x c insn _) (
                    either (op == 0xb) (put_x c insn _)
                      (either (op == 0xc) (put_x c insn _) stopped)))))))))

conditional_compare-IsContained : (c : Cpu) (insn : ℕ) → IsContained c (conditional_compare c insn)
unfolding conditional_compare
conditional_compare-IsContained c insn =
    either (not (has_bit insn 29) || (has_bit insn 10 || has_bit insn 4)) stopped
      (either (cond_holds c.nzcv (field insn 15 12)) (flagged c _) (flagged c _))

conditional_select-IsContained : (c : Cpu) (insn : ℕ) → IsContained c (conditional_select c insn)
unfolding conditional_select
conditional_select-IsContained c insn =
    either (has_bit insn 29 || has_bit insn 11) stopped (put_x c insn _)

one_source-IsContained : (c : Cpu) (insn : ℕ) → IsContained c (one_source c insn)
unfolding one_source
one_source-IsContained c insn =
    let op = field insn 15 10 in
    either (op == 0x00) (put_x c insn _) (
      either (op == 0x01) (put_x c insn _) (
        either (op == 0x02) (put_x c insn _) (
          either (op == 0x03) (put_x c insn _)
            (either (op == 0x04) (put_x c insn _) (either (op == 0x05) (put_x c insn _) stopped)))))

two_source-IsContained : (c : Cpu) (insn : ℕ) → IsContained c (two_source c insn)
unfolding two_source
two_source-IsContained c insn =
    let op = field insn 15 10 in
    either (op == 0x02) (put_x c insn _) (
      either (op == 0x03) (put_x c insn _) (
        either (op == 0x08) (put_x c insn _) (
          either (op == 0x09) (put_x c insn _) (
            either (op == 0x0a) (put_x c insn _) (
              either (op == 0x0b) (put_x c insn _) (
                either (op == 0x10) (put_x c insn _) (
                  either (op == 0x11) (put_x c insn _) (
                    either (op == 0x12) (put_x c insn _) (
                      either (op == 0x13) (put_x c insn _) (
                        either (op == 0x14) (put_x c insn _) (
                          either (op == 0x15) (put_x c insn _) (
                            either (op == 0x16) (put_x c insn _)
                              (either (op == 0x17) (put_x c insn _) stopped)))))))))))))

put_if_flagged :
    (c : Cpu) (insn : ℕ) (b : Bool) (f v : ℕ)
    → IsContained c
        (set_x_sz (if b then record c { nzcv = f } else c) (field insn 4 0) (has_bit insn 31) v)
put_if_flagged c insn true f v = set_x_sz-IsContained c f (field insn 4 0) (has_bit insn 31) v
put_if_flagged c insn false f v = put_x c insn v

add_sub_carry-IsContained : (c : Cpu) (insn : ℕ) → IsContained c (add_sub_carry c insn)
unfolding add_sub_carry
add_sub_carry-IsContained c insn =
    either (field insn 15 10 == 0) (put_if_flagged c insn (has_bit insn 29) _ _) (
      either
        (has_bit insn 31
          && (not (has_bit insn 30)
              && (has_bit insn 29 && ((field insn 14 10 == 1) && not (has_bit insn 4)))))
        (flagged c _)
        (either
          (not (has_bit insn 31)
            && (not (has_bit insn 30)
                && (has_bit insn 29
                    && ((field insn 20 16 == 0)
                        && (((field insn 15 10 == 0x02) || (field insn 15 10 == 0x12))
                            && (field insn 4 0 == 0x0d))))))
          (flagged c _) stopped))

-- For every instruction word in the group: data processing on registers changes at most general
-- registers, stack pointers and flags, or takes the UNDEFINED exception at the state before it.
pub dp_register-IsContained : (c : Cpu) (insn : ℕ) → IsContained c (dp_register c insn)
unfolding dp_register
dp_register-IsContained c insn =
    let op24 = field insn 28 24 in
    let op21 = field insn 28 21 in
    either (op24 == 0x0a) (logical_shifted-IsContained c insn) (
      either (op24 == 0x0b) (add_sub_register-IsContained c insn) (
        either (op24 == 0x1b) (multiply-IsContained c insn) (
          either (op21 == 0xd0) (add_sub_carry-IsContained c insn) (
            either (op21 == 0xd2) (conditional_compare-IsContained c insn) (
              either (op21 == 0xd4) (conditional_select-IsContained c insn) (
                either (op21 == 0xd6)
                  (either (has_bit insn 30) (one_source-IsContained c insn)
                    (two_source-IsContained c insn))
                  stopped))))))
