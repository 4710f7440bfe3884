-- ===== src/Decode/Exec/Restart.antt =====
-- src/decode.c: the loads and stores of general registers, pairs and single vector registers can be
-- run again after a fault.
use arm64emu_system.Base.{
  ℕ, ◌+◌, ◌*◌, ◌%◌, ◌^◌, Bool, false, not, ◌&&◌, ◌||◌, Option, none, some, if◌then◌else◌, ◌==◌, leb,
  has_bit, u32, u64,
}
use arm64emu_system.Cpu.{Cpu, reg_x, reg_xsp, set_x, set_xsp}
use arm64emu_system.Alu.{sign_extend}
use arm64emu_system.Mmu.{Mmu}
use arm64emu_system.Decode.{field}
use arm64emu_system.Decode.Access.{Access, vreg_load, vreg_store, ◌>>=◌, read, on_cpu}
use arm64emu_system.Decode.Access.Restart.{
  Keeps, Restarts, Safe, Restartable, NoFault, >>=-Safe, >>=-Restartable, >>=-NoFault, >>=-last,
  either-Safe, either-Restartable, either-NoFault, Safe-Restartable, pure-Safe, pure-NoFault,
  outside-NoFault, undefined-Safe, cpu-Safe, on_cpu-NoFault, on_cpu-Restartable, fp_access_ok-Safe,
  sp_align_ok-Safe, read-Safe, write-Safe, read128-Safe, write128-Safe, do_load-Restartable,
  vreg_load-Safe, vreg_store-Safe,
}
use arm64emu_system.Decode.LoadStore.{
  Form, lowered, unprivileged, write_back, transfer, perform, ldst_register, pair_access, ldst_pair,
  ldst_literal, ldst_rcpc_unscaled, displaced,
}
use arm64emu_system.Decode.Atomic.{
  ldst_atomic, ldst_cas, casp_matches, next_reg, ldst_casp, store_exclusive, exclusive_single,
  exclusive_pair, ordered, ldst_exclusive, combine,
}

next_reg-NoFault : {W : Type 0} (n : ℕ) → NoFault (next_reg {W = W} n)
next_reg-NoFault n = either-NoFault (n == 31) outside-NoFault (pure-NoFault (n + 1))

write_back-NoFault : {W : Type 0} (rn : ℕ) (o : Option ℕ) → NoFault (write_back {W = W} rn o)
write_back-NoFault rn none = pure-NoFault tt
write_back-NoFault rn (some base) = on_cpu-NoFault (λ d. set_xsp d rn base)

module _ {W : Type 0} {c : Cpu} where
  -- Loads of one and of two words that end in registers.
  load-Restartable :
      (va size : ℕ) (f : ℕ → Cpu → Cpu) → Restartable c (read {W = W} va size >>= λ v. on_cpu (f v))
  load-Restartable va size f =
      >>=-Restartable _ _ (read-Safe va size) (λ v. on_cpu-Restartable (f v))

  load_two-Restartable :
      (va va' size : ℕ) (f : ℕ → ℕ → Cpu → Cpu)
      → Restartable c (read {W = W} va size >>= λ v. read va' size >>= λ v'. on_cpu (f v v'))
  load_two-Restartable va va' size f =
      >>=-Restartable _ _ (read-Safe va size) (λ v. load-Restartable va' size (f v))

  ldst_atomic-Restartable : (insn : ℕ) → Restartable c (ldst_atomic {W = W} insn)
  unfolding ldst_atomic
  ldst_atomic-Restartable insn =
      let bytes = 2 ^ field insn 31 30 in
      let rt = field insn 4 0 in
      let o3 = has_bit insn 15 in
      let opc = field insn 14 12 in
      >>=-Restartable _ _ cpu-Safe (λ d.
        let va = reg_xsp d (field insn 9 5) in
        let operand = reg_x d (field insn 20 16) % 2 ^ (8 * bytes) in
        either-Restartable (o3 && (opc == 4)) (load-Restartable va bytes (λ v c'. set_x c' rt v)) (
          either-Restartable (o3 && not (opc == 0)) (Safe-Restartable _ undefined-Safe) (
            >>=-Restartable _ _ (read-Safe va bytes) (λ old.
              >>=-Restartable _ _
                (write-Safe va bytes
                  ((if o3 then operand else combine opc (8 * bytes) old operand) % 2 ^ (8 * bytes)))
                (λ _. on_cpu-Restartable (λ c'. set_x c' rt old))))))

  ldst_cas-Restartable : (insn : ℕ) → Restartable c (ldst_cas {W = W} insn)
  unfolding ldst_cas
  ldst_cas-Restartable insn = >>=-Restartable _ _ cpu-Safe (λ d.
      >>=-Restartable _ _ (read-Safe _ _) (λ old.
        >>=-Restartable _ _ (either-Safe _ (write-Safe _ _ _) (pure-Safe tt))
          (λ _. on_cpu-Restartable _)))

  next_reg-Safe : (n : ℕ) → Safe c (next_reg {W = W} n)
  next_reg-Safe n = either-Safe (n == 31) (λ m k. Keeps.lost) (pure-Safe (n + 1))

  casp_matches-Safe : (rs w lo hi : ℕ) → Safe c (casp_matches {W = W} rs w lo hi)
  unfolding casp_matches
  casp_matches-Safe rs w lo hi =
      >>=-Safe _ _ cpu-Safe
        (λ d. either-Safe _ (>>=-Safe _ _ (next_reg-Safe rs) (λ n. pure-Safe _)) (pure-Safe false))

  ldst_casp-Restartable : (insn : ℕ) → Restartable c (ldst_casp {W = W} insn)
  unfolding ldst_casp
  ldst_casp-Restartable insn =
      let rs = field insn 20 16 in
      >>=-Restartable _ _ cpu-Safe (λ d. >>=-Restartable _ _ (read-Safe _ _) (λ lo.
        >>=-Restartable _ _ (read-Safe _ _) (λ hi.
          >>=-Restartable _ _ (casp_matches-Safe _ _ lo hi) (λ same.
            >>=-Restartable _ _
              (either-Safe same
                (>>=-Safe _ _ (write-Safe _ _ _)
                  (λ _. >>=-Safe _ _ (next_reg-Safe _) (λ n. write-Safe _ _ _)))
                (pure-Safe tt))
              (λ _. >>=-last _ _ (on_cpu-Restartable (λ c'. set_x c' rs lo)) (λ _.
                >>=-NoFault _ _ (next_reg-NoFault rs)
                  (λ n. on_cpu-NoFault (λ c'. set_x c' n hi))))))))

  store_exclusive-Restartable :
      (va rs : ℕ) (stores : Access W (Unit {0}))
      → Safe c stores
      → Restartable c (store_exclusive va rs stores)
  unfolding store_exclusive
  store_exclusive-Restartable va rs stores p = >>=-Restartable _ _ cpu-Safe (λ d.
      >>=-last _ _
        (either-Restartable _ (>>=-Restartable _ _ p (λ _. on_cpu-Restartable _))
          (on_cpu-Restartable _))
        (λ _. on_cpu-NoFault _))

  exclusive_single-Restartable : (insn va : ℕ) → Restartable c (exclusive_single {W = W} insn va)
  unfolding exclusive_single
  exclusive_single-Restartable insn va =
      either-Restartable _ (load-Restartable _ _ _)
        (>>=-Restartable _ _ cpu-Safe (λ d. store_exclusive-Restartable _ _ _ (write-Safe _ _ _)))

  exclusive_pair-Restartable : (insn va : ℕ) → Restartable c (exclusive_pair {W = W} insn va)
  unfolding exclusive_pair
  exclusive_pair-Restartable insn va = either-Restartable _ (load_two-Restartable _ _ _ _) (
      >>=-Restartable _ _ cpu-Safe (λ d.
        store_exclusive-Restartable _ _ _
          (>>=-Safe _ _ (write-Safe _ _ _) (λ _. write-Safe _ _ _))))

  ordered-Restartable : (insn va : ℕ) → Restartable c (ordered {W = W} insn va)
  unfolding ordered
  ordered-Restartable insn va =
      either-Restartable _ (load-Restartable _ _ _)
        (>>=-Restartable _ _ cpu-Safe (λ d. Safe-Restartable _ (write-Safe _ _ _)))

  pub ldst_exclusive-Restartable : (insn : ℕ) → Restartable c (ldst_exclusive {W = W} insn)
  unfolding ldst_exclusive
  ldst_exclusive-Restartable insn =
      let o2 = has_bit insn 23 in
      let o1 = has_bit insn 21 in
      let rn = field insn 9 5 in
      >>=-Restartable _ _ cpu-Safe (λ d.
        let va = reg_xsp d rn in
        >>=-Restartable _ _ (sp_align_ok-Safe rn) (λ _.
          either-Restartable (o2 && o1) (ldst_cas-Restartable insn) (
            either-Restartable (not o2 && (o1 && not (has_bit insn 31)))
              (ldst_casp-Restartable insn)
              (either-Restartable o2 (ordered-Restartable insn va) (
                either-Restartable (not o1) (exclusive_single-Restartable insn va)
                  (exclusive_pair-Restartable insn va))))))

  -- A transfer with another privilege, and the write-back behind it.
  lowered-Restarts :
      (o : Option (Option (Unit {0}) × Mmu W)) → Restarts c o → Restarts c (lowered o)
  lowered-Restarts _ Restarts.lost = Restarts.lost
  lowered-Restarts _ (Restarts.faulted m r) =
      Restarts.faulted _
        (record { registers = r.registers; stacks = r.stacks; returns_to = r.returns_to })
  lowered-Restarts _ (Restarts.finished a m) = Restarts.finished a _

  unprivileged-Restartable :
      (u : Bool) (a : Access W (Unit {0})) → Restartable c a → Restartable c (unprivileged u a)
  unprivileged-Restartable u a p m k =
      lowered-Restarts (a (record m { cpu = record m.cpu { ldst_unpriv = u } }))
        (p _ (record { registers = k.registers; stacks = k.stacks; here = k.here }))

  transfer-Restartable :
      (insn : ℕ) (v is_store : Bool) (va bytes : ℕ)
      → Restartable c (transfer {W = W} insn v is_store va bytes)
  unfolding transfer
  transfer-Restartable insn v is_store va bytes =
      either-Restartable v
        (Safe-Restartable _
          (either-Safe is_store (vreg_store-Safe _ va bytes) (vreg_load-Safe _ va bytes)))
        (either-Restartable is_store
          (>>=-Restartable _ _ cpu-Safe (λ d. Safe-Restartable _ (write-Safe _ _ _)))
          (do_load-Restartable _ va _ _))

  perform-Restartable :
      (insn : ℕ) (v is_store : Bool) (bytes : ℕ) (f : Form)
      → Restartable c (perform {W = W} insn v is_store bytes f)
  unfolding perform
  perform-Restartable insn v is_store bytes Form.atomic = ldst_atomic-Restartable insn
  perform-Restartable insn v is_store bytes Form.unallocated = Safe-Restartable _ undefined-Safe
  perform-Restartable insn v is_store bytes (Form.address va unpriv wb) =
      either-Restartable _ (Safe-Restartable _ undefined-Safe) (
        >>=-last _ _
          (unprivileged-Restartable unpriv _ (transfer-Restartable insn v is_store va bytes))
          (λ _. write_back-NoFault _ wb))

  pub ldst_register-Restartable : (insn : ℕ) → Restartable c (ldst_register {W = W} insn)
  unfolding ldst_register
  ldst_register-Restartable insn = either-Restartable _ (Safe-Restartable _ undefined-Safe) (
      >>=-Restartable _ _ (either-Safe _ fp_access_ok-Safe (pure-Safe tt)) (λ _.
        >>=-Restartable _ _ cpu-Safe
          (λ d. >>=-Restartable _ _ (sp_align_ok-Safe _) (λ _. perform-Restartable insn _ _ _ _))))

  one_of-Safe :
      (l : Bool) (vt va bytes : ℕ)
      → Safe c (if l then vreg_load {W = W} vt va bytes else vreg_store vt va bytes)
  one_of-Safe l vt va bytes =
      either-Safe l (vreg_load-Safe vt va bytes) (vreg_store-Safe vt va bytes)

  pair_access-Restartable :
      (insn : ℕ) (v : Bool) (addr esz : ℕ) → Restartable c (pair_access {W = W} insn v addr esz)
  unfolding pair_access
  pair_access-Restartable insn v addr esz =
      let l = has_bit insn 22 in
      let next = u64 (addr + esz) in
      either-Restartable v
        (>>=-Restartable _ _ fp_access_ok-Safe (λ _.
          >>=-Restartable _ _ (one_of-Safe l (field insn 4 0) addr esz)
            (λ _. Safe-Restartable _ (one_of-Safe l (field insn 14 10) next esz))))
        (either-Restartable _
          (either-Restartable _ (>>=-Restartable _ _ (read128-Safe _) (λ val. on_cpu-Restartable _))
            (load_two-Restartable _ _ _ _))
          (either-Restartable _
            (>>=-Restartable _ _ cpu-Safe (λ d. Safe-Restartable _ (write128-Safe _ _)))
            (>>=-Restartable _ _ cpu-Safe (λ d.
              >>=-Restartable _ _ (write-Safe _ _ _) (λ _.
                >>=-Restartable _ _ cpu-Safe (λ d'. Safe-Restartable _ (write-Safe _ _ _)))))))

  pub ldst_pair-Restartable : (insn : ℕ) → Restartable c (ldst_pair {W = W} insn)
  unfolding ldst_pair
  ldst_pair-Restartable insn = either-Restartable _ (Safe-Restartable _ undefined-Safe) (
      >>=-Restartable _ _ cpu-Safe (λ d. >>=-Restartable _ _ (sp_align_ok-Safe _) (λ _.
        either-Restartable _ (Safe-Restartable _ undefined-Safe)
          (>>=-last _ _ (pair_access-Restartable insn _ _ _) (λ _. write_back-NoFault _ _)))))

  pub ldst_literal-Restartable : (insn : ℕ) → Restartable c (ldst_literal {W = W} insn)
  unfolding ldst_literal
  ldst_literal-Restartable insn =
      let opc = field insn 31 30 in
      let rt = field insn 4 0 in
      >>=-Restartable _ _ cpu-Safe (λ d.
        let va = displaced d.cur_insn_pc (field insn 23 5) 19 2 in
        either-Restartable (has_bit insn 26)
          (either-Restartable (opc == 3) (Safe-Restartable _ undefined-Safe) (
            >>=-Restartable _ _ fp_access_ok-Safe
              (λ _. Safe-Restartable _ (vreg_load-Safe rt va (4 * 2 ^ opc)))))
          (either-Restartable (opc == 0) (load-Restartable va 4 (λ v c'. set_x c' rt (u32 v))) (
            either-Restartable (opc == 1) (load-Restartable va 8 (λ v c'. set_x c' rt v)) (
              either-Restartable (opc == 2)
                (load-Restartable va 4 (λ v c'. set_x c' rt (sign_extend v 32)))
                (Safe-Restartable _ (pure-Safe tt))))))

  pub ldst_rcpc_unscaled-Restartable : (insn : ℕ) → Restartable c (ldst_rcpc_unscaled {W = W} insn)
  unfolding ldst_rcpc_unscaled
  ldst_rcpc_unscaled-Restartable insn =
      let size = field insn 31 30 in
      let opc = field insn 23 22 in
      let rt = field insn 4 0 in
      let rn = field insn 9 5 in
      either-Restartable (((opc == 2) && (size == 3)) || ((opc == 3) && leb 2 size))
        (Safe-Restartable _ undefined-Safe)
        (>>=-Restartable _ _ (sp_align_ok-Safe rn) (λ _. >>=-Restartable _ _ cpu-Safe (λ d.
          let va = displaced (reg_xsp d rn) (field insn 20 12) 9 0 in
          either-Restartable (opc == 0) (Safe-Restartable _ (write-Safe va (2 ^ size) (reg_x d rt)))
            (do_load-Restartable rt va size opc))))
