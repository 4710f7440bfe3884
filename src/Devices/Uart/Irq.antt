-- ===== src/Devices/Uart/Irq.antt =====
-- src/devices/pl011.c: the interrupt line of the serial port.
use arm64emu_system.Base.{ℕ, ◌/◌, ◌≡◌, refl, arith, ◌∙◌}
use arm64emu_system.Base.{
  not, ◌&&◌, ◌||◌, some, ◌==◌, has_bit, bit_and, bit_or, inl, inr, Bool-cases,
}
use arm64emu_system.Base.Bits.{bit_and_step, zero-bit_and}
use arm64emu_system.Devices.Gic.{Gic, set_irq, set_irq_opt}
use arm64emu_system.Devices.Gic.Service.{set_irq_lem}
use arm64emu_system.Devices.Uart.{Serial, intid_uart, txris, rxris, rx_empty, update_irq}

tx_masked : (m : ℕ) → not (bit_and 32 m == 0) ≡ has_bit m 5
tx_masked m = ground (
  arith,
  bit_and_step 32 m,
  bit_and_step 16 (m / 2),
  bit_and_step 8 (m / 2 / 2),
  bit_and_step 4 (m / 2 / 2 / 2),
  bit_and_step 2 (m / 2 / 2 / 2 / 2),
  bit_and_step 1 (m / 2 / 2 / 2 / 2 / 2),
  zero-bit_and (m / 2 / 2 / 2 / 2 / 2 / 2),
)

both_masked : (m : ℕ) → not (bit_and 48 m == 0) ≡ has_bit m 5 || has_bit m 4
both_masked m = ground (
  arith,
  bit_and_step 48 m,
  bit_and_step 24 (m / 2),
  bit_and_step 12 (m / 2 / 2),
  bit_and_step 6 (m / 2 / 2 / 2),
  bit_and_step 3 (m / 2 / 2 / 2 / 2),
  bit_and_step 1 (m / 2 / 2 / 2 / 2 / 2),
  zero-bit_and (m / 2 / 2 / 2 / 2 / 2 / 2),
)

-- For a port with a controller: after `update_irq` the controller's line of the port is up
-- exactly when the transmit interrupt is unmasked, or the receive interrupt is unmasked and a
-- byte waits.
update_irq-line :
    (s : Serial) (g : Gic)
    → s.gic ≡ some g
    → (g' : Gic) × ((update_irq s).gic ≡ some g')
      × (g'.line intid_uart
          ≡ has_bit s.port.imsc 5 || has_bit s.port.imsc 4 && not (rx_empty s.port))
unfolding update_irq set_irq_opt
update_irq-line s g e = elim (Bool-cases (rx_empty s.port)) [
  | inl empty ↦
      rw (e, empty)
        (
          set_irq intid_uart (not (bit_and txris s.port.imsc == 0)) g,
          refl,
          (set_irq_lem g intid_uart (not (bit_and txris s.port.imsc == 0)) intid_uart
                (omega arith)).0
              ∙ (tx_masked s.port.imsc ∙ ground arith),
        )
  | inr waits ↦
      rw (e, waits)
        (
          set_irq intid_uart (not (bit_and (bit_or txris rxris) s.port.imsc == 0)) g,
          refl,
          (set_irq_lem g intid_uart (not (bit_and (bit_or txris rxris) s.port.imsc == 0)) intid_uart
                (omega arith)).0
              ∙ (both_masked s.port.imsc ∙ ground arith),
        )
]
