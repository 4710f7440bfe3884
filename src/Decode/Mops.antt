-- ===== src/Decode/Mops.antt =====
-- src/decode.c: FEAT_MOPS, the memory set and copy instructions, each in a prologue, a main part and
-- an epilogue that keep their progress in the registers. A step takes the path without a D-TLB hit,
-- one byte through `mem_read` and `mem_write`; with a hit the code moves the bytes up to the page's
-- end at once. The loops count down the bytes that are left.
use arm64emu_system.Base.{ℕ, zero, suc, ◌+◌, ◌-◌, ◌*◌, ◌%◌, ◌^◌, Bool, true, false, not, ◌&&◌, ◌||◌}
use arm64emu_system.Base.{◌==◌, leb, ltb, if◌then◌else◌, has_bit, u8, u64, sub64, min}
use arm64emu_system.Base.{from_bool, align_down}
use arm64emu_system.Cpu.{Cpu, reg_x, set_x}
use arm64emu_system.Cpu.Exception.{raise_sync, esr_make}
use arm64emu_system.Decode.{field, undefined}
use arm64emu_system.Decode.Access.{Access, ◌>>=◌, ◌>>◌, pure, cpu, on_cpu, stop, read, write}
use arm64emu_system.Decode.LoadStore.{unprivileged}

-- How far it is to the end of the page, and to its start.
abbrev pub page_limit : ℕ → ℕ
page_limit addr = 0x1000 - addr % 2 ^ 12

abbrev pub page_limit_rev : ℕ → ℕ
page_limit_rev addr = addr % 2 ^ 12 + 1

-- `mops_iss`: the syndrome of the mismatch exception.
unfoldable pub mops_iss : ℕ → Bool → ℕ
mops_iss insn wrong_option =
    let is_set = field insn 23 22 == 3 in
    let options = if is_set then field insn 13 12 else field insn 15 12 in
    let epilogue = if is_set then field insn 15 14 == 2 else field insn 23 22 == 2 in
    from_bool is_set * 2 ^ 24
    + options * 2 ^ 19
    + from_bool epilogue * 2 ^ 18
    + from_bool wrong_option * 2 ^ 17
    + 2 ^ 16
    + field insn 4 0 * 2 ^ 10
    + field insn 20 16 * 2 ^ 5
    + field insn 9 5

abbrev pub mismatch : {W : Type 0} → ℕ → Bool → Access W (Unit {0})
mismatch insn wrong_option = stop (λ c. raise_sync c (esr_make 0x27 (mops_iss insn wrong_option)) 0)

-- One byte set, and one byte copied, each side with its own privilege.
unfoldable pub set_step : {W : Type 0} → Bool → ℕ → ℕ → Access W (Unit {0})
set_step unpriv byte toaddr = unprivileged unpriv (write toaddr 1 byte)

unfoldable pub copy_step : {W : Type 0} → Bool → Bool → ℕ → ℕ → Access W (Unit {0})
copy_step wunpriv runpriv toaddr fromaddr = do
  byte ← unprivileged runpriv (read fromaddr 1)
  unprivileged wunpriv (write toaddr 1 byte)

-- SETP: `left` bytes of the stage; the registers keep the input format.
unfoldable pub setp_loop : {W : Type 0} → ℕ → Bool → ℕ → ℕ → ℕ → ℕ → Access W (Unit {0})
setp_loop insn unpriv byte zero toaddr setsize = on_cpu (λ c.
    let c' =
      set_x (set_x c (field insn 4 0) (u64 (toaddr + setsize))) (field insn 9 5)
        (sub64 0 setsize) in
    record c' { nzcv = 0 })
setp_loop insn unpriv byte (suc left) toaddr setsize = do
  on_cpu (λ c. set_x (set_x c (field insn 4 0) toaddr) (field insn 9 5) setsize)
  set_step unpriv byte toaddr
  setp_loop insn unpriv byte left (u64 (toaddr + 1)) (setsize - 1)

-- SETM and SETE: the size that is left is folded into Xn after each byte.
unfoldable pub set_loop : {W : Type 0} → ℕ → Bool → ℕ → ℕ → ℕ → ℕ → Access W (Unit {0})
set_loop rn unpriv byte zero toaddr setsize = pure tt
set_loop rn unpriv byte (suc left) toaddr setsize = do
  set_step unpriv byte toaddr
  on_cpu (λ c. set_x c rn (sub64 0 (setsize - 1)))
  set_loop rn unpriv byte left (u64 (toaddr + 1)) (setsize - 1)

-- `mops_set`, by stage.
unfoldable pub mops_set : {W : Type 0} → ℕ → ℕ → Access W (Unit {0})
mops_set insn stage =
    let rd = field insn 4 0 in
    let rn = field insn 9 5 in
    do
      c ← cpu
      (let unpriv = has_bit insn 12 && (c.el == 1) in
          let byte = u8 (reg_x c (field insn 20 16)) in
          let xn = reg_x c rn in
          let first = min xn (2 ^ 63 - 1) in
          let setsize = sub64 0 xn in
          if stage == 0
          then setp_loop insn unpriv byte (min (page_limit (reg_x c rd)) first) (reg_x c rd) first
          else if xn == 0
          then pure tt
          else if has_bit c.nzcv 29
          then mismatch insn true
          else if (stage == 2) && leb 0x1000 setsize
          then mismatch insn false
          else set_loop rn unpriv byte (if stage == 1 then align_down setsize 12 else setsize)
              (u64 (reg_x c rd + xn)) setsize)

-- CPY[F]P forwards and backwards.
unfoldable pub cpyp_forward : {W : Type 0} → ℕ → Bool → Bool → ℕ → ℕ → ℕ → ℕ → Access W (Unit {0})
cpyp_forward insn w r zero toaddr fromaddr copysize = on_cpu (λ c.
    let c₁ = set_x c (field insn 4 0) (u64 (toaddr + copysize)) in
    let c₂ = set_x c₁ (field insn 20 16) (u64 (fromaddr + copysize)) in
    record (set_x c₂ (field insn 9 5) (sub64 0 copysize)) { nzcv = 0 })
cpyp_forward insn w r (suc left) toaddr fromaddr copysize = do
  on_cpu (λ c.
      let c₁ = set_x (set_x c (field insn 4 0) toaddr) (field insn 20 16) fromaddr in
      set_x c₁ (field insn 9 5) copysize)
  copy_step w r toaddr fromaddr
  cpyp_forward insn w r left (u64 (toaddr + 1)) (u64 (fromaddr + 1)) (copysize - 1)

unfoldable pub cpyp_backward : {W : Type 0} → ℕ → Bool → Bool → ℕ → ℕ → ℕ → ℕ → Access W (Unit {0})
cpyp_backward insn w r zero t f copysize =
    on_cpu (λ c. record (set_x c (field insn 9 5) copysize) { nzcv = 0 })
cpyp_backward insn w r (suc left) t f copysize = do
  on_cpu (λ c. set_x c (field insn 9 5) copysize)
  copy_step w r t f
  cpyp_backward insn w r left (sub64 t 1) (sub64 f 1) (copysize - 1)

-- The direction of CPYP: backwards when the source starts below a destination that it overlaps.
unfoldable pub copies_backward : ℕ → ℕ → ℕ → Bool
copies_backward toaddr fromaddr copysize =
    let fs = fromaddr % 2 ^ 56 in
    let ts = toaddr % 2 ^ 56 in let fe = (fromaddr + copysize) % 2 ^ 56 in ltb fs ts && ltb ts fe

unfoldable pub cpy_prologue : {W : Type 0} → ℕ → Bool → Bool → Bool → Cpu → Access W (Unit {0})
cpy_prologue insn move w r c =
    let toaddr = reg_x c (field insn 4 0) in
    let fromaddr = reg_x c (field insn 20 16) in
    let size = min (reg_x c (field insn 9 5)) (if move then 2 ^ 55 - 1 else 2 ^ 63 - 1) in
    let t = sub64 (toaddr + size) 1 in
    let f = sub64 (fromaddr + size) 1 in
    if move && copies_backward toaddr fromaddr size
    then cpyp_backward insn w r (min (min (page_limit_rev t) (page_limit_rev f)) size) t f size
    else cpyp_forward insn w r (min (min (page_limit toaddr) (page_limit fromaddr)) size) toaddr
        fromaddr size

-- CPY[F]M and CPY[F]E: `left` bytes of the stage, forwards or backwards.
unfoldable pub cpy_loop :
    {W : Type 0} → ℕ → Bool → Bool → Bool → ℕ → ℕ → ℕ → ℕ → Access W (Unit {0})
cpy_loop rn w r fwd zero toaddr fromaddr copysize = pure tt
cpy_loop rn w r fwd (suc left) toaddr fromaddr copysize = do
  copy_step w r toaddr fromaddr
  on_cpu (λ c. set_x c rn (if fwd then sub64 0 (copysize - 1) else copysize - 1))
  cpy_loop rn w r fwd left (if fwd then u64 (toaddr + 1) else sub64 toaddr 1)
      (if fwd then u64 (fromaddr + 1) else sub64 fromaddr 1) (copysize - 1)

unfoldable pub cpy_rest : {W : Type 0} → ℕ → ℕ → Bool → Bool → Bool → Cpu → Access W (Unit {0})
cpy_rest insn stage move w r c =
    let rn = field insn 9 5 in
    let xn = reg_x c rn in
    let fwd = not move || leb (2 ^ 63) xn in
    let copysize = if fwd then sub64 0 xn else xn in
    let to = reg_x c (field insn 4 0) in
    let from = reg_x c (field insn 20 16) in
    let at = λ (base : ℕ). if fwd then u64 (base + xn) else sub64 (base + copysize) 1 in
    if xn == 0
    then pure tt
    else if has_bit c.nzcv 29
    then mismatch insn true
    else if (stage == 2) && leb 0x1000 copysize
    then mismatch insn false
    else cpy_loop rn w r fwd (if stage == 1 then copysize - 0xfff else copysize) (at to) (at from)
        copysize

unfoldable pub mops_cpy : {W : Type 0} → ℕ → ℕ → Bool → Access W (Unit {0})
mops_cpy insn stage move = do
  c ← cpu
  (let w = has_bit insn 12 && (c.el == 1) in
      let r = has_bit insn 13 && (c.el == 1) in
      if stage == 0 then cpy_prologue insn move w r c else cpy_rest insn stage move w r c)

-- `mops_enabled_ok`: at EL0 the family needs SCTLR_EL1.MSCEn.
abbrev pub mops_enabled : Cpu → Bool
mops_enabled c = not (c.el == 0) || has_bit (c.sctlr 1) 33

unfoldable pub mops : {W : Type 0} → ℕ → Access W (Unit {0})
mops insn =
    let op1 = field insn 23 22 in
    let rd = field insn 4 0 in
    let rn = field insn 9 5 in
    let rs = field insn 20 16 in
    let stage = field insn 15 14 in
    let clash = (rs == rn) || ((rs == rd) || ((rn == rd) || ((rd == 31) || (rn == 31)))) in
    do
      c ← cpu
      (if not (field insn 31 30 == 0)
          then stop undefined
          else if op1 == 3
          then (if has_bit insn 26 || ((stage == 3) || clash)
              then stop undefined
              else if not (mops_enabled c)
              then stop undefined
              else mops_set insn stage)
          else if clash || (rs == 31)
          then stop undefined
          else if not (mops_enabled c)
          then stop undefined
          else mops_cpy insn op1 (has_bit insn 26))
