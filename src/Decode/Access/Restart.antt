-- ===== src/Decode/Access/Restart.antt =====
-- src/decode.c: a load or store that faults can be run again. The fault leaves the general registers
-- and the stack pointers as they were, and the exception returns to the instruction.
use arm64emu_system.Base.{
  ℕ, ◌≡◌, refl, ◌∙◌, sym, subst, Bool, true, false, Option, none, some, if◌then◌else◌, if_ind, ◌==◌,
  ◌&&◌, ◌^◌, ◌%◌,
}
use arm64emu_system.Cpu.{Cpu, set_x}
use arm64emu_system.Cpu.Exception.{raise_sync, esr_make, fp_trap}
use arm64emu_system.Decode.{undefined}
use arm64emu_system.Mmu.{Mmu}
use arm64emu_system.Mmu.Precise.{
  IsRestart, IsPrecise, raise_sync-IsRestart, mem_read-IsPrecise, mem_write-IsPrecise,
  mem_read128-IsPrecise, mem_write128-IsPrecise,
}
use arm64emu_system.Decode.Access.{
  Access, ◌>>=◌, after, pure, cpu, on_cpu, stop, outside, read, write, read128, write128,
  fp_access_ok, sp_misaligned, sp_align_ok, do_load, loaded, vreg_load, vreg_store, set_v,
}

-- The general registers and the place of the instruction are those of `c`.
pub record IsKept (c d : Cpu) : Type 0 where
  pub registers : d.x ≡ c.x
  pub stacks : d.sp_el ≡ c.sp_el
  pub here : d.cur_insn_pc ≡ c.cur_insn_pc

pub IsKept-refl : (c : Cpu) → IsKept c c
IsKept-refl c = record { registers = refl; stacks = refl; here = refl }

-- The outcome of a part of an instruction that began with the CPU `c`: the exception can be
-- returned from, and success leaves the registers.
pub data Keeps {W A : Type 0} (c : Cpu) : Option (Option A × Mmu W) → Type 0 where
  lost : Keeps c none
  faulted : (m : Mmu W) → IsRestart c m.cpu → Keeps c (some (none, m))
  went_on : (a : A) (m : Mmu W) → IsKept c m.cpu → Keeps c (some (some a, m))

-- The outcome of an instruction: nothing is said of one that finished.
pub data Restarts {W A : Type 0} (c : Cpu) : Option (Option A × Mmu W) → Type 0 where
  lost : Restarts c none
  faulted : (m : Mmu W) → IsRestart c m.cpu → Restarts c (some (none, m))
  finished : (a : A) (m : Mmu W) → Restarts c (some (some a, m))

IsRestart-trans : {c d e : Cpu} → IsKept c d → IsRestart d e → IsRestart c e
IsRestart-trans k r = record {
  registers = r.registers ∙ k.registers;
  stacks = r.stacks ∙ k.stacks;
  returns_to = r.returns_to ∙ k.here;
}

module _ {W : Type 0} {A : Type 0} {c : Cpu} where
  pub done-Restarts : {o : Option (Option A × Mmu W)} → Keeps c o → Restarts c o
  done-Restarts lost = Restarts.lost
  done-Restarts (faulted m r) = Restarts.faulted m r
  done-Restarts (went_on a m k) = finished a m

  precise-Keeps : {d : Cpu} {o : Option (Option A × Mmu W)} → IsKept c d → IsPrecise d o → Keeps c o
  precise-Keeps k IsPrecise.lost = lost
  precise-Keeps k (IsPrecise.faulted m r) = faulted m (IsRestart-trans k r)
  precise-Keeps k (IsPrecise.answered a m e) = went_on a m (subst (λ x. IsKept c x) (sym e) k)

-- A part that raises no exception.
pub data Ends {W A : Type 0} : Option (Option A × Mmu W) → Type 0 where
  lost : Ends none
  finished : (a : A) (m : Mmu W) → Ends (some (some a, m))

-- The same for a part on every machine.
abbrev pub Safe : {W A : Type 0} → Cpu → Access W A → Type 0
Safe {W} c a = (m : Mmu W) → IsKept c m.cpu → Keeps c (a m)

abbrev pub Restartable : {W A : Type 0} → Cpu → Access W A → Type 0
Restartable {W} c a = (m : Mmu W) → IsKept c m.cpu → Restarts c (a m)

abbrev pub NoFault : {W A : Type 0} → Access W A → Type 0
NoFault {W} a = (m : Mmu W) → Ends (a m)

module _ {W : Type 0} {A B : Type 0} where
  after-Ends :
      (o : Option (Option A × Mmu W)) (k : A → Access W B)
      → Ends o
      → ((a : A) → NoFault (k a))
      → Ends (after o k)
  after-Ends _ k lost h = lost
  after-Ends _ k (finished a m) h = h a m

  pub >>=-NoFault :
      (s : Access W A) (k : A → Access W B)
      → NoFault s
      → ((a : A) → NoFault (k a))
      → NoFault (s >>= k)
  >>=-NoFault s k p h m = after-Ends (s m) k (p m) h

module _ {W : Type 0} {A : Type 0} where
  pub either-NoFault :
      (b : Bool) {s t : Access W A} → NoFault s → NoFault t → NoFault (if b then s else t)
  either-NoFault true p q = p
  either-NoFault false p q = q

  pub outside-NoFault : NoFault (outside {W = W} {A = A})
  outside-NoFault m = lost

  pub pure-NoFault : (a : A) → NoFault (pure {W = W} a)
  pure-NoFault a m = finished a m

pub on_cpu-NoFault : {W : Type 0} (f : Cpu → Cpu) → NoFault (on_cpu {W = W} f)
on_cpu-NoFault f m = finished tt _

ends-Restarts : {W B : Type 0} {c : Cpu} (o : Option (Option B × Mmu W)) → Ends o → Restarts c o
ends-Restarts _ lost = Restarts.lost
ends-Restarts _ (finished a m) = Restarts.finished a m

module _ {W : Type 0} {A B : Type 0} {c : Cpu} where
  after-Keeps :
      (o : Option (Option A × Mmu W)) (k : A → Access W B)
      → Keeps c o
      → ((a : A) → Safe c (k a))
      → Keeps c (after o k)
  after-Keeps _ k lost h = lost
  after-Keeps _ k (faulted m r) h = faulted m r
  after-Keeps _ k (went_on a m kept) h = h a m kept

  after-Restarts :
      (o : Option (Option A × Mmu W)) (k : A → Access W B)
      → Keeps c o
      → ((a : A) → Restartable c (k a))
      → Restarts c (after o k)
  after-Restarts _ k lost h = Restarts.lost
  after-Restarts _ k (faulted m r) h = Restarts.faulted m r
  after-Restarts _ k (went_on a m kept) h = h a m kept

  after-last :
      (o : Option (Option A × Mmu W)) (k : A → Access W B)
      → Restarts c o
      → ((a : A) → NoFault (k a))
      → Restarts c (after o k)
  after-last _ k Restarts.lost h = Restarts.lost
  after-last _ k (Restarts.faulted m r) h = Restarts.faulted m r
  after-last _ k (Restarts.finished a m) h = ends-Restarts (k a m) (h a m)

  -- The steps of an instruction in a row.
  pub >>=-Safe :
      (s : Access W A) (k : A → Access W B) → Safe c s → ((a : A) → Safe c (k a)) → Safe c (s >>= k)
  >>=-Safe s k p h m kept = after-Keeps (s m) k (p m kept) h

  pub >>=-Restartable :
      (s : Access W A) (k : A → Access W B)
      → Safe c s
      → ((a : A) → Restartable c (k a))
      → Restartable c (s >>= k)
  >>=-Restartable s k p h m kept = after-Restarts (s m) k (p m kept) h

  -- Once the registers are written, nothing may fault.
  pub >>=-last :
      (s : Access W A) (k : A → Access W B)
      → Restartable c s
      → ((a : A) → NoFault (k a))
      → Restartable c (s >>= k)
  >>=-last s k p h m kept = after-last (s m) k (p m kept) h

module _ {W : Type 0} {A : Type 0} {c : Cpu} where
  pub either-Safe :
      (b : Bool) {s t : Access W A} → Safe c s → Safe c t → Safe c (if b then s else t)
  either-Safe true p q = p
  either-Safe false p q = q

  pub either-Restartable :
      (b : Bool) {s t : Access W A}
      → Restartable c s
      → Restartable c t
      → Restartable c (if b then s else t)
  either-Restartable true p q = p
  either-Restartable false p q = q

  pub Safe-Restartable : (s : Access W A) → Safe c s → Restartable c s
  Safe-Restartable s p m kept = done-Restarts (p m kept)

  pub NoFault-Restartable : (s : Access W A) → NoFault s → Restartable c s
  NoFault-Restartable s p m kept = ends-Restarts (s m) (p m)

  pub pure-Safe : (a : A) → Safe c (pure {W = W} a)
  pure-Safe a m kept = went_on a m kept

  -- The exceptions that an instruction raises by itself.
  pub raised : (esr far : ℕ) → Safe c (stop {W = W} {A = A} (λ d. raise_sync d esr far))
  raised esr far m k = faulted _ (IsRestart-trans k (raise_sync-IsRestart m.cpu esr far))

  pub undefined-Safe : Safe c (stop {W = W} {A = A} undefined)
  unfolding undefined
  undefined-Safe = raised (esr_make 0x00 0) 0

module _ {W : Type 0} {c : Cpu} where
  pub cpu-Safe : Safe c (cpu {W = W})
  cpu-Safe m k = went_on m.cpu m k

  pub on_cpu-Restartable : (f : Cpu → Cpu) → Restartable c (on_cpu {W = W} f)
  on_cpu-Restartable f m k = Restarts.finished tt _

  pub fp_access_ok-Safe : Safe c (fp_access_ok {W = W})
  unfolding fp_trap
  fp_access_ok-Safe m k =
      if_ind (Keeps {W = W} {A = Unit {0}} c) m.cpu.fp_trapped
        (λ _. raised (esr_make 0x07 0x01e00000) 0 m k) (λ _. went_on tt m k)

  pub sp_align_ok-Safe : (rn : ℕ) → Safe c (sp_align_ok {W = W} rn)
  unfolding sp_align_ok
  sp_align_ok-Safe rn m k =
      if_ind (Keeps {W = W} {A = Unit {0}} c) (sp_misaligned m.cpu rn)
        (λ _. raised (esr_make 0x26 0) 0 m k) (λ _. went_on tt m k)

  pub read-Safe : (va size : ℕ) → Safe c (read {W = W} va size)
  read-Safe va size m k = precise-Keeps k (mem_read-IsPrecise m.cpu m va size refl)

  pub write-Safe : (va size val : ℕ) → Safe c (write {W = W} va size val)
  write-Safe va size val m k = precise-Keeps k (mem_write-IsPrecise m.cpu m va size val refl)

  pub read128-Safe : (va : ℕ) → Safe c (read128 {W = W} va)
  read128-Safe va m k = precise-Keeps k (mem_read128-IsPrecise m.cpu m va refl)

  pub write128-Safe : (va val : ℕ) → Safe c (write128 {W = W} va val)
  write128-Safe va val m k = precise-Keeps k (mem_write128-IsPrecise m.cpu m va val refl)

  -- A vector register is loaded.
  pub set_v-Safe : (g : Cpu → ℕ) (vt : ℕ) → Safe c (on_cpu {W = W} (λ d. set_v d vt (g d)))
  set_v-Safe g vt m k =
      went_on tt _ (record { registers = k.registers; stacks = k.stacks; here = k.here })

  pub do_load-Restartable : (rt va size opc : ℕ) → Restartable c (do_load {W = W} rt va size opc)
  unfolding do_load
  do_load-Restartable rt va size opc =
      either-Restartable ((opc == 2) && (size == 3)) (Safe-Restartable _ (pure-Safe tt)) (
        >>=-Restartable _ _ (read-Safe va (2 ^ size))
          (λ raw. on_cpu-Restartable (λ d. set_x d rt (loaded size opc raw))))

  pub vreg_load-Safe : (vt va bytes : ℕ) → Safe c (vreg_load {W = W} vt va bytes)
  unfolding vreg_load
  vreg_load-Safe vt va bytes =
      >>=-Safe _ _ (either-Safe (bytes == 16) (read128-Safe va) (read-Safe va bytes))
        (λ val. set_v-Safe (λ _. val) vt)

  pub vreg_store-Safe : (vt va bytes : ℕ) → Safe c (vreg_store {W = W} vt va bytes)
  unfolding vreg_store
  vreg_store-Safe vt va bytes = >>=-Safe _ _ cpu-Safe (λ d.
      either-Safe (bytes == 16) (write128-Safe va (d.v vt)) (write-Safe va bytes (d.v vt % 2 ^ 64)))
