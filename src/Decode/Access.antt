-- ===== src/Decode/Access.antt =====
-- src/decode.c: what loads and stores are built from. An instruction that accesses memory is a
-- function on the machine behind the MMU: it is undefined in C (`none`), or it stops with an
-- exception that it has raised, or it goes on with a result.
pub mod Restart
use arm64emu_system.Base.{ℕ, ◌+◌, ◌-◌, ◌*◌, ◌/◌, ◌%◌, ◌^◌, Bool, true, false, not, ◌&&◌, ◌||◌}
use arm64emu_system.Base.{Option, none, some, ◌==◌, if◌then◌else◌, has_bit, u32, u64, update}
use arm64emu_system.Cpu.{Cpu, reg_xsp, set_x}
use arm64emu_system.Cpu.Exception.{raise_sync, esr_make, fp_trap}
use arm64emu_system.Alu.{sign_extend}
use arm64emu_system.Mmu.{Mmu, mem_read, mem_write}
use arm64emu_system.Mmu.Wide.{mem_read128, mem_write128, stored}
use arm64emu_system.Decode.{undefined}

-- `some (none, m)`: an exception was raised and the instruction returns.
abbrev pub Access : Type 0 → Type 0 → Type 0
Access W A = Mmu W → Option (Option A × Mmu W)

-- What follows a step that may have stopped.
abbrev pub after :
    {W A B : Type 0} → Option (Option A × Mmu W) → (A → Access W B) → Option (Option B × Mmu W)
after none k = none
after (some (none, m)) k = some (none, m)
after (some (some a, m)) k = k a m

infixl 5 ◌>>=◌ ◌>>◌
abbrev pub ◌>>=◌ : {W A B : Type 0} → Access W A → (A → Access W B) → Access W B
◌>>=◌ s k m = after (s m) k

abbrev pub ◌>>◌ : {W B : Type 0} → Access W (Unit {0}) → Access W B → Access W B
s >> t = s >>= λ _. t

abbrev pub pure : {W A : Type 0} → A → Access W A
pure a m = some (some a, m)

-- The CPU as it is, a change of it, and an exception.
abbrev pub cpu : {W : Type 0} → Access W Cpu
cpu m = some (some m.cpu, m)

abbrev pub on_cpu : {W : Type 0} → (Cpu → Cpu) → Access W (Unit {0})
on_cpu f m = some (some tt, record m { cpu = f m.cpu })

abbrev pub stop : {W A : Type 0} → (Cpu → Cpu) → Access W A
stop f m = some (none, record m { cpu = f m.cpu })

-- An array index out of range.
abbrev pub outside : {W A : Type 0} → Access W A
outside m = none

abbrev pub read : {W : Type 0} → ℕ → ℕ → Access W ℕ
read va size m = mem_read m va size

abbrev pub write : {W : Type 0} → ℕ → ℕ → ℕ → Access W (Unit {0})
write va size val m = stored (mem_write m va size val)

abbrev pub read128 : {W : Type 0} → ℕ → Access W ℕ
read128 va m = mem_read128 m va

abbrev pub write128 : {W : Type 0} → ℕ → ℕ → Access W (Unit {0})
write128 va val m = stored (mem_write128 m va val)

-- `fp_access_ok`: the FP access trap, where it is on.
abbrev pub fp_access_ok : {W : Type 0} → Access W (Unit {0})
fp_access_ok m = if m.cpu.fp_trapped then stop fp_trap m else pure tt m

-- Whether `sp_align_ok` raises its fault: SP is the base, unaligned, and checked at this level.
abbrev pub sp_misaligned : Cpu → ℕ → Bool
sp_misaligned c rn =
    (rn == 31)
    && (not (reg_xsp c 31 % 2 ^ 4 == 0) && has_bit (c.sctlr 1) (if c.el == 0 then 4 else 3))

unfoldable pub sp_align_ok : {W : Type 0} → ℕ → Access W (Unit {0})
sp_align_ok rn m =
    if sp_misaligned m.cpu rn then stop (λ c. raise_sync c (esr_make 0x26 0) 0) m else pure tt m

-- The value that a load of `2 ^ size` bytes puts into its register: sign-extended for `opc` 2 and
-- 3, and cut to 32 bits but for the 64-bit results.
unfoldable pub loaded : ℕ → ℕ → ℕ → ℕ
loaded size opc raw =
    let sign = (opc == 2) || (opc == 3) in
    let ext64 = if opc == 2 then true else if opc == 3 then false else size == 3 in
    let val = if sign then sign_extend raw (2 ^ size * 8) else raw in if ext64 then val else u32 val

-- `do_load`; the prefetch does nothing.
unfoldable pub do_load : {W : Type 0} → ℕ → ℕ → ℕ → ℕ → Access W (Unit {0})
do_load rt va size opc =
    if (opc == 2) && (size == 3)
    then pure tt
    else do raw ← read va (2 ^ size); on_cpu (λ c. set_x c rt (loaded size opc raw))

-- A vector register is one number of 128 bits.
abbrev pub set_v : Cpu → ℕ → ℕ → Cpu
set_v c n val = record c { v = update c.v n val }

unfoldable pub vreg_load : {W : Type 0} → ℕ → ℕ → ℕ → Access W (Unit {0})
vreg_load vt va bytes = do
  val ← (if bytes == 16 then read128 va else read va bytes)
  on_cpu (λ c. set_v c vt val)

unfoldable pub vreg_store : {W : Type 0} → ℕ → ℕ → ℕ → Access W (Unit {0})
vreg_store vt va bytes = do
  c ← cpu
  (if bytes == 16 then write128 va (c.v vt) else write va bytes (c.v vt % 2 ^ 64))
