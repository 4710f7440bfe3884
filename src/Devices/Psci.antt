-- ===== src/Devices/Psci.antt =====
-- src/devices/psci.c: the PSCI firmware calls behind HVC and SMC. The lines that the power calls
-- print are left out.
use arm64emu_system.Base.{ℕ, ◌-◌, ◌^◌, Bool, true, ◌||◌}
use arm64emu_system.Base.{◌==◌, if◌then◌else◌, u32, update}
use arm64emu_system.Cpu.{Cpu}

-- PSCI_OK and PSCI_NOT_SUPPORTED.
abbrev pub psci_ok : ℕ
psci_ok = 0

abbrev pub psci_not_supported : ℕ
psci_not_supported = 2 ^ 64 - 1

-- What PSCI_FEATURES says of a function.
abbrev pub features : ℕ → ℕ
features q =
    if (q == 0xc400_0003)
      || ((q == 0x8400_0008)
          || ((q == 0x8400_0009)
              || ((q == 0x8400_0000) || ((q == 0xc400_0001) || (q == 0xc400_0004)))))
    then psci_ok
    else psci_not_supported

-- The answer goes to X0, but for the power calls, which stop the run.
unfoldable pub smccc_conduit : Cpu → Bool → Cpu × Bool
smccc_conduit c is_hvc =
    let fn = u32 (c.x 0) in
    let ret : Cpu → ℕ → Cpu × Bool = λ c' r. (record c' { x = update c'.x 0 r }, true) in
    if fn == 0x8400_0000
    then ret c 0x0001_0000
    else if fn == 0x8400_000a
    then ret c (features (u32 (c.x 1)))
    else if fn == 0xc400_0001
    then ret (record c { halted = true }) psci_ok
    else if fn == 0xc400_0004
    then ret c (if c.x 1 == 0 then 0 else 1)
    else if fn == 0x8400_0006
    then ret c 2
    else if fn == 0xc400_0003
    then ret c psci_not_supported
    else if fn == 0x8400_0002
    then ret c psci_not_supported
    else if fn == 0x8400_0008
    then (record c { stop = true }, true)
    else if fn == 0x8400_0009
    then (record c { reset = true; stop = true }, true)
    else ret c psci_not_supported
