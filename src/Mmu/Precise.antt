-- ===== src/Mmu/Precise.antt =====
-- src/mmu.c: what data accesses leave of the CPU. One that succeeds leaves it as it was; one that
-- faults enters the exception with the registers as they were and the instruction to come back to.
use arm64emu_system.Base.{
  ℕ, ◌+◌, ◌-◌, ◌*◌, ◌/◌, ◌%◌, ◌^◌, ◌≡◌, refl, subst, ==_refl, Bool, true, false, not, Option, none,
  some, ◌>>=◌, if_ind, u64, has_bit, Bool-cases, inl, inr,
}
use arm64emu_system.Cpu.{Cpu}
use arm64emu_system.Cpu.Exception.{raise_sync, exception_take, target_el}
use arm64emu_system.Memory.{Bus, BusStatus, phys_read, phys_write}
use arm64emu_system.Mmu.{
  Mmu, raise_abort, abort, fill, filled, acc_el0, hits, mmu_translate, read_in_page, write_in_page,
  spans, mem_read, mem_write,
}
use arm64emu_system.Mmu.Walk.{Access, Walked, perm_ok_el, walk, fsc_perm_l3, fsc_external}
use arm64emu_system.Mmu.Wide.{mem_read128, mem_write128, stored}

-- The exception state `c'` of an instruction that began in `c`.
pub record IsRestart (c c' : Cpu) : Type 0 where
  pub registers : c'.x ≡ c.x
  pub stacks : c'.sp_el ≡ c.sp_el
  pub returns_to : c'.elr c'.el ≡ c.cur_insn_pc

-- The answer of an access that began with the CPU `c`.
pub data IsPrecise {W A : Type 0} (c : Cpu) : Option (Option A × Mmu W) → Type 0 where
  lost : IsPrecise c none
  faulted : (m : Mmu W) → IsRestart c m.cpu → IsPrecise c (some (none, m))
  answered : (a : A) (m : Mmu W) → m.cpu ≡ c → IsPrecise c (some (some a, m))

pub raise_sync-IsRestart : (c : Cpu) (esr far : ℕ) → IsRestart c (raise_sync c esr far)
unfolding raise_sync exception_take
raise_sync-IsRestart c esr far = record {
  registers = refl;
  stacks = refl;
  returns_to = rw (==_refl (target_el c)) refl;
}

raise_abort-IsRestart :
    (c : Cpu) (va : ℕ) (acc : Access) (fsc : ℕ) → IsRestart c (raise_abort c va acc fsc)
unfolding raise_abort
raise_abort-IsRestart c va Access.exec fsc = raise_sync-IsRestart c _ va
raise_abort-IsRestart c va Access.read fsc = raise_sync-IsRestart c _ va
raise_abort-IsRestart c va Access.write fsc = raise_sync-IsRestart c _ va

module _ {W : Type 0} (c : Cpu) where
  -- The steps of an access in a row.
  pub then-IsPrecise :
      {A B : Type 0} (o : Option (Option A × Mmu W)) (k : A → Mmu W → Option (Option B × Mmu W))
      → IsPrecise c o
      → ((a : A) (m : Mmu W) → m.cpu ≡ c → IsPrecise c (k a m))
      → IsPrecise c (o >>= λ t. elim t.0 [ none ↦ some (none, t.1) | some a ↦ k a t.1 ])
  then-IsPrecise _ k lost h = lost
  then-IsPrecise _ k (faulted m r) h = faulted m r
  then-IsPrecise _ k (answered a m e) h = h a m e

  abort-IsPrecise :
      (m : Mmu W) (va : ℕ) (acc : Access) (fsc : ℕ)
      → m.cpu ≡ c
      → IsPrecise {A = ℕ} c (some (abort m va acc fsc))
  abort-IsPrecise m va acc fsc e = faulted _ (
      subst (λ d. IsRestart d (raise_abort m.cpu va acc fsc)) e
        (raise_abort-IsRestart m.cpu va acc fsc))

  fill-IsPrecise :
      (m : Mmu W) (va : ℕ) (acc : Access) (w : Walked)
      → m.cpu ≡ c
      → IsPrecise c (some (fill m va acc w))
  unfolding fill filled
  fill-IsPrecise m va acc (Walked.fault fsc) e = abort-IsPrecise m va acc fsc e
  fill-IsPrecise m va acc (Walked.leaf l) e =
      elim (Bool-cases (perm_ok_el acc l.ap l.uxn l.pxn (acc_el0 m.cpu))) [
        | inl yes_ ↦ rw yes_ (answered _ _ e)
        | inr denied ↦ rw denied (abort-IsPrecise (filled m va l) va acc fsc_perm_l3 e)
      ]

  mmu_translate-IsPrecise :
      (m : Mmu W) (va : ℕ) (acc : Access) → m.cpu ≡ c → IsPrecise c (mmu_translate m va acc)
  unfolding mmu_translate
  mmu_translate-IsPrecise m va acc e =
      if_ind (IsPrecise c) (not (has_bit (m.cpu.sctlr 1) 0)) (λ _. answered va m e)
        (λ _.
          if_ind (IsPrecise c) (hits m va acc) (λ _. answered _ m e)
            (λ _. walked (walk m.bus m.cpu va)))
    where
      walked :
          (o : Option (Walked × Bus W))
          → IsPrecise c (o >>= λ r. some (fill (record m { bus = r.1 }) va acc r.0))
      walked none = lost
      walked (some (w, b)) = fill-IsPrecise (record m { bus = b }) va acc w e

  read_in_page-IsPrecise :
      (m : Mmu W) (va size : ℕ) → m.cpu ≡ c → IsPrecise c (read_in_page m va size)
  unfolding read_in_page
  read_in_page-IsPrecise m va size e =
      then-IsPrecise (mmu_translate m va Access.read) _ (mmu_translate-IsPrecise m va Access.read e)
        (λ pa m' e'. answer (phys_read m'.bus pa size) m' e')
    where
      checked :
          (s : BusStatus) (v : ℕ) (m' : Mmu W)
          → m'.cpu ≡ c
          → IsPrecise {W = W} {A = ℕ} c (
              some (elim s [
                | BusStatus.bus_ok ↦ (some v, m')
                | BusStatus.bus_fault ↦ abort m' va Access.read fsc_external
              ]))
      checked BusStatus.bus_ok v m' e' = answered v m' e'
      checked BusStatus.bus_fault v m' e' = abort-IsPrecise m' va Access.read fsc_external e'

      answer :
          (o : Option (ℕ × Bus W)) (m' : Mmu W)
          → m'.cpu ≡ c
          → IsPrecise {W = W} {A = ℕ} c (
              o >>= λ r. some (elim r.1.last_bus_status [
                | BusStatus.bus_ok ↦ (some r.0, record m' { bus = r.1 })
                | BusStatus.bus_fault ↦ abort (record m' { bus = r.1 }) va Access.read fsc_external
              ]))
      answer none m' e' = lost
      answer (some (v, b)) m' e' = checked b.last_bus_status v (record m' { bus = b }) e'

  -- The same for stores, which answer whether they went through.
  stored-IsPrecise :
      (o : Option (Bool × Mmu W)) (k : Mmu W → Option (Bool × Mmu W))
      → IsPrecise c (stored o)
      → ((m : Mmu W) → m.cpu ≡ c → IsPrecise c (stored (k m)))
      → IsPrecise c (stored (o >>= λ t. elim t.0 [ false ↦ some (false, t.1) | true ↦ k t.1 ]))
  stored-IsPrecise none k p h = lost
  stored-IsPrecise (some (true, m)) k p h = h m (kept p)
    where
      kept : IsPrecise c (some (some tt, m)) → m.cpu ≡ c
      kept (answered _ _ e) = e
  stored-IsPrecise (some (false, m)) k p h = p

  write_in_page-IsPrecise :
      (m : Mmu W) (va size val : ℕ) → m.cpu ≡ c → IsPrecise c (stored (write_in_page m va size val))
  unfolding write_in_page
  write_in_page-IsPrecise m va size val e =
      translated (mmu_translate m va Access.write) (mmu_translate-IsPrecise m va Access.write e)
    where
      checked :
          (s : BusStatus) (m' : Mmu W)
          → m'.cpu ≡ c
          → IsPrecise {W = W} c (
              stored (
                some (elim s [
                  | BusStatus.bus_ok ↦ (true, m')
                  | BusStatus.bus_fault ↦ (false, (abort m' va Access.write fsc_external).1)
                ])))
      checked BusStatus.bus_ok m' e' = answered tt m' e'
      checked BusStatus.bus_fault m' e' =
          elim (abort-IsPrecise m' va Access.write fsc_external e') [ faulted _ r ↦ faulted _ r ]

      answer :
          (o : Option (Bus W)) (m' : Mmu W)
          → m'.cpu ≡ c
          → IsPrecise {W = W} c (
              stored (
                o >>= λ b. some (elim b.last_bus_status [
                  | BusStatus.bus_ok ↦ (true, record m' { bus = b })
                  | BusStatus.bus_fault ↦
                      (false, (abort (record m' { bus = b }) va Access.write fsc_external).1)
                ])))
      answer none m' e' = lost
      answer (some b) m' e' = checked b.last_bus_status (record m' { bus = b }) e'

      translated :
          (o : Option (Option ℕ × Mmu W))
          → IsPrecise c o
          → IsPrecise {W = W} c (
              stored (
                o >>= λ t. elim t.0 [
                  | none ↦ some (false, t.1)
                  | some pa ↦ phys_write t.1.bus pa size val >>= λ b. some (elim b.last_bus_status [
                    | BusStatus.bus_ok ↦ (true, record t.1 { bus = b })
                    | BusStatus.bus_fault ↦
                        (false, (abort (record t.1 { bus = b }) va Access.write fsc_external).1)
                  ])
                ]))
      translated _ lost = lost
      translated _ (faulted m' r) = faulted m' r
      translated _ (answered pa m' e') = answer (phys_write m'.bus pa size val) m' e'

  pub mem_read-IsPrecise : (m : Mmu W) (va size : ℕ) → m.cpu ≡ c → IsPrecise c (mem_read m va size)
  unfolding mem_read
  mem_read-IsPrecise m va size e =
      let first = 0x1000 - va % 2 ^ 12 in
      if_ind (IsPrecise c) (spans m va size)
        (λ _.
          then-IsPrecise (read_in_page m va first) _ (read_in_page-IsPrecise m va first e)
            (λ l m₁ e₁.
              then-IsPrecise (read_in_page m₁ (u64 (va + first)) (size - first)) _
                (read_in_page-IsPrecise m₁ (u64 (va + first)) (size - first) e₁)
                (λ h m₂ e₂. answered _ m₂ e₂)))
        (λ _. read_in_page-IsPrecise m va size e)

  pub mem_write-IsPrecise :
      (m : Mmu W) (va size val : ℕ) → m.cpu ≡ c → IsPrecise c (stored (mem_write m va size val))
  unfolding mem_write
  mem_write-IsPrecise m va size val e =
      let first = 0x1000 - va % 2 ^ 12 in
      if_ind (λ (o : Option (Bool × Mmu W)). IsPrecise {W = W} c (stored o)) (spans m va size)
        (λ _.
          stored-IsPrecise (write_in_page m va first val) _
            (write_in_page-IsPrecise m va first val e)
            (λ m₁ e₁.
              write_in_page-IsPrecise m₁ (u64 (va + first)) (size - first) (val / 2 ^ (first * 8))
                e₁))
        (λ _. write_in_page-IsPrecise m va size val e)

  pub mem_read128-IsPrecise : (m : Mmu W) (va : ℕ) → m.cpu ≡ c → IsPrecise c (mem_read128 m va)
  unfolding mem_read128
  mem_read128-IsPrecise m va e =
      then-IsPrecise (mem_read m va 8) _ (mem_read-IsPrecise m va 8 e) (λ l m₁ e₁.
        then-IsPrecise (mem_read m₁ (u64 (va + 8)) 8) _ (mem_read-IsPrecise m₁ (u64 (va + 8)) 8 e₁)
          (λ h m₂ e₂. answered _ m₂ e₂))

  pub mem_write128-IsPrecise :
      (m : Mmu W) (va val : ℕ) → m.cpu ≡ c → IsPrecise c (stored (mem_write128 m va val))
  unfolding mem_write128
  mem_write128-IsPrecise m va val e =
      stored-IsPrecise (mem_write m va 8 (val % 2 ^ 64)) _
        (mem_write-IsPrecise m va 8 (val % 2 ^ 64) e)
        (λ m₁ e₁. mem_write-IsPrecise m₁ (u64 (va + 8)) 8 (val / 2 ^ 64) e₁)
