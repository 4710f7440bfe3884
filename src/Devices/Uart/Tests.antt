-- ===== src/Devices/Uart/Tests.antt =====
-- The theorems on the serial port at a port in which one byte waits.
use arm64emu_system.Base.{◌^◌, ◌≡◌, arith, true, false}
use arm64emu_system.Base.{[], ◌∷◌, ◌++◌, some, u8, ◌⊎◌, update}
use mathlib.Core.List.{map}
use arm64emu_system.Devices.Gic.{create}
use arm64emu_system.Devices.Uart.{Pl011, Serial, power_on, rx_loop, rx_full}
use arm64emu_system.Devices.Uart.Fifo.{IsValid, queue, rx_loop-queue}

-- Index 63 is the last of the ring: the next byte wraps around.
abbrev wrapping : Pl011
wrapping = record power_on {
  imsc = 2 ^ 4;
  rx_fifo = update (λ _. 0) 63 0x61;
  rx_head = 63;
  rx_tail = 0;
}

wrapping-IsValid : IsValid wrapping
wrapping-IsValid = record { head_small = omega arith; tail_small = omega arith }

abbrev serial : Serial
serial = record {
  port = wrapping;
  gic = some create;
  console_virtio = false;
  console_active_virtio = false;
  sent = [];
}

rx_loop-queue_example :
    let (p', rest) = rx_loop (0x62 ∷ 0x63 ∷ []) wrapping in
    IsValid p'
    × (queue p' ++ map u8 rest ≡ queue wrapping ++ map u8 (0x62 ∷ 0x63 ∷ []))
    × ((rest ≡ []) ⊎ (rx_full p' ≡ true))
rx_loop-queue_example = rx_loop-queue (0x62 ∷ 0x63 ∷ []) wrapping wrapping-IsValid
