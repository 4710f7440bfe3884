-- ===== src/Decode/Exec/Precise.antt =====
-- src/decode.c: the loads and stores of vector structures can be run again after a fault; so every
-- load and store can but for the MOPS instructions, which report their progress in the registers.
use arm64emu_system.Base.{
  ℕ, zero, suc, ◌+◌, ◌*◌, ◌/◌, ◌%◌, ◌≡◌, Bool, false, not, ◌&&◌, Option, none, some, if◌then◌else◌,
  ◌==◌, has_bit, u64,
}
use arm64emu_system.Cpu.{Cpu, reg_xsp}
use arm64emu_system.Mmu.{Mmu}
use arm64emu_system.Decode.{field}
use arm64emu_system.Decode.Access.{Access, set_v}
use arm64emu_system.Decode.Access.Restart.{
  IsKept, IsKept-refl, Keeps, Restarts, Safe, Restartable, >>=-Safe, >>=-Restartable, >>=-last,
  either-Safe, either-Restartable, either-NoFault, Safe-Restartable, pure-Safe, pure-NoFault,
  undefined-Safe, cpu-Safe, on_cpu-NoFault, fp_access_ok-Safe, sp_align_ok-Safe, read-Safe,
  write-Safe, set_v-Safe, vreg_load-Safe, vreg_store-Safe, NoFault,
}
use arm64emu_system.Decode.Vector.{
  contiguous, move_lane, interleaved, clear_registers, post_index, multi_access, multi_shaped,
  ldst_vector_multi, Shape, single_loop, single_access, single_shaped, ldst_vector_single, lane,
  set_lane, replicated,
}
use arm64emu_system.Decode.Exec.{loads_stores, is_mops}
use arm64emu_system.Decode.Exec.Restart.{
  ldst_register-Restartable, ldst_pair-Restartable, ldst_literal-Restartable,
  ldst_rcpc_unscaled-Restartable, ldst_exclusive-Restartable,
}

post_index-NoFault :
    {W : Type 0} (insn base total : ℕ) → NoFault (post_index {W = W} insn base total)
post_index-NoFault insn base total =
    either-NoFault (has_bit insn 23) (on_cpu-NoFault _) (pure-NoFault tt)

clear_registers-IsKept :
    (c : Cpu) (vt n : ℕ) (d : Cpu) → IsKept c d → IsKept c (clear_registers vt n d)
unfolding clear_registers
clear_registers-IsKept c vt zero d k = k
clear_registers-IsKept c vt (suc n) d k =
    clear_registers-IsKept c ((vt + 1) % 32) n (set_v d vt 0)
      (record { registers = k.registers; stacks = k.stacks; here = k.here })

module _ {W : Type 0} {c : Cpu} where
  contiguous-Safe : (l : Bool) (bytes n vt addr : ℕ) → Safe c (contiguous {W = W} l bytes n vt addr)
  unfolding contiguous
  contiguous-Safe l bytes zero vt addr = pure-Safe tt
  contiguous-Safe l bytes (suc n) vt addr =
      >>=-Safe _ _ (either-Safe l (vreg_load-Safe vt addr bytes) (vreg_store-Safe vt addr bytes))
        (λ _. contiguous-Safe l bytes n ((vt + 1) % 32) (u64 (addr + bytes)))

  move_lane-Safe :
      (l : Bool) (vt off ebytes addr : ℕ) → Safe c (move_lane {W = W} l vt off ebytes addr)
  unfolding move_lane
  move_lane-Safe l vt off ebytes addr =
      either-Safe l
        (>>=-Safe _ _ (read-Safe addr ebytes)
          (λ t. set_v-Safe (λ d. set_lane (d.v vt) off ebytes t) vt))
        (>>=-Safe _ _ cpu-Safe (λ d. write-Safe addr ebytes (lane (d.v vt) off ebytes)))

  interleaved-Safe :
      (l : Bool) (rt nregs ebytes n k addr : ℕ)
      → Safe c (interleaved {W = W} l rt nregs ebytes n k addr)
  unfolding interleaved
  interleaved-Safe l rt nregs ebytes zero k addr = pure-Safe tt
  interleaved-Safe l rt nregs ebytes (suc n) k addr =
      >>=-Safe _ _ (move_lane-Safe l ((rt + k % nregs) % 32) (k / nregs * ebytes) ebytes addr)
        (λ _. interleaved-Safe l rt nregs ebytes n (k + 1) (u64 (addr + ebytes)))

  multi_access-Safe : (insn nregs sel base : ℕ) → Safe c (multi_access {W = W} insn nregs sel base)
  unfolding multi_access
  multi_access-Safe insn nregs sel base =
      let rt = field insn 4 0 in
      let l = has_bit insn 22 in
      either-Safe (sel == 1) (contiguous-Safe l _ nregs rt base) (
        >>=-Safe _ _
          (either-Safe l (λ m k. Keeps.went_on tt _ (clear_registers-IsKept c rt nregs m.cpu k))
            (pure-Safe tt))
          (λ _. interleaved-Safe l rt nregs _ _ 0 base))

  multi_shaped-Restartable :
      (insn : ℕ) (o : Option (ℕ × ℕ)) → Restartable c (multi_shaped {W = W} insn o)
  unfolding multi_shaped
  multi_shaped-Restartable insn none = Safe-Restartable _ undefined-Safe
  multi_shaped-Restartable insn (some (nregs, sel)) =
      let rn = field insn 9 5 in
      >>=-Restartable _ _ cpu-Safe (λ d. >>=-Restartable _ _ (sp_align_ok-Safe rn) (λ _.
        >>=-last _ _ (Safe-Restartable _ (multi_access-Safe insn nregs sel (reg_xsp d rn))) (λ _.
          post_index-NoFault insn (reg_xsp d rn) (nregs * (if has_bit insn 30 then 16 else 8)))))

  single_loop-Safe :
      (body : ℕ → ℕ → Access W (Unit {0})) (ebytes n vt addr : ℕ)
      → ((vt addr : ℕ) → Safe c (body vt addr))
      → Safe c (single_loop body ebytes n vt addr)
  unfolding single_loop
  single_loop-Safe body ebytes zero vt addr p = pure-Safe tt
  single_loop-Safe body ebytes (suc n) vt addr p =
      >>=-Safe _ _ (p vt addr)
        (λ _. single_loop-Safe body ebytes n ((vt + 1) % 32) (u64 (addr + ebytes)) p)

  single_access-Restartable :
      (insn selem ebytes : ℕ) (body : ℕ → ℕ → Access W (Unit {0}))
      → ((vt addr : ℕ) → Safe c (body vt addr))
      → Restartable c (single_access insn selem ebytes body)
  unfolding single_access
  single_access-Restartable insn selem ebytes body p =
      let rn = field insn 9 5 in
      >>=-Restartable _ _ cpu-Safe (λ d. >>=-Restartable _ _ (sp_align_ok-Safe rn) (λ _.
        >>=-last _ _
          (Safe-Restartable _
            (single_loop-Safe body ebytes selem (field insn 4 0) (reg_xsp d rn) p))
          (λ _. post_index-NoFault insn (reg_xsp d rn) (selem * ebytes))))

  single_shaped-Restartable : (insn : ℕ) (s : Shape) → Restartable c (single_shaped {W = W} insn s)
  unfolding single_shaped
  single_shaped-Restartable insn Shape.unallocated = Safe-Restartable _ undefined-Safe
  single_shaped-Restartable insn (Shape.one_lane index ebytes) =
      single_access-Restartable insn _ ebytes _
        (λ vt addr. move_lane-Safe (has_bit insn 22) vt (index * ebytes) ebytes addr)
  single_shaped-Restartable insn (Shape.all_lanes ebytes) =
      single_access-Restartable insn _ ebytes _ (λ vt addr.
        >>=-Safe _ _ (read-Safe addr ebytes) (λ t.
          set_v-Safe (λ _. replicated ebytes ((if has_bit insn 30 then 16 else 8) / ebytes) t) vt))

  loads_stores-Restartable :
      (insn : ℕ) → is_mops insn ≡ false → Restartable c (loads_stores {W = W} insn)
  unfolding loads_stores ldst_vector_multi ldst_vector_single
  loads_stores-Restartable insn no_mops =
      let b2927 = field insn 29 27 in
      either-Restartable (b2927 == 7) (ldst_register-Restartable insn) (
        either-Restartable (b2927 == 5) (ldst_pair-Restartable insn) (
          either-Restartable ((b2927 == 3) && (field insn 25 24 == 0))
            (ldst_literal-Restartable insn)
            (either-Restartable ((b2927 == 1) && (field insn 26 24 == 0))
              (ldst_exclusive-Restartable insn)
              (either-Restartable
                ((b2927 == 1)
                  && (has_bit insn 26 && (not (has_bit insn 25) && not (has_bit insn 24))))
                (>>=-Restartable _ _ fp_access_ok-Safe (λ _. multi_shaped-Restartable insn _))
                (either-Restartable
                  ((b2927 == 1) && (has_bit insn 26 && (not (has_bit insn 25) && has_bit insn 24)))
                  (>>=-Restartable _ _ fp_access_ok-Safe (λ _. single_shaped-Restartable insn _))
                  (either-Restartable
                    ((b2927 == 3)
                      && (not (has_bit insn 26)
                          && ((field insn 25 24 == 1)
                              && (not (has_bit insn 21) && (field insn 11 10 == 0)))))
                    (ldst_rcpc_unscaled-Restartable insn)
                    (rw no_mops (Safe-Restartable _ undefined-Safe))))))))

-- For a load or store outside the MOPS class: if it raises an exception, the general registers and
-- the stack pointers are as they were before the instruction, no base is written back, and the
-- exception returns to this instruction.
pub loads_stores-Restarts :
    {W : Type 0} (m : Mmu W) (insn : ℕ)
    → is_mops insn ≡ false
    → Restarts m.cpu (loads_stores insn m)
loads_stores-Restarts m insn no_mops = loads_stores-Restartable insn no_mops m (IsKept-refl m.cpu)
