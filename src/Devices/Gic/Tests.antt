-- ===== src/Devices/Gic/Tests.antt =====
-- Runs of the interrupt controller, and its theorems at concrete inputs.
use arm64emu_system.Base.{◌≡◌, ◌≢◌, refl, arith, ◌⊎◌, Bool, true, false}
use arm64emu_system.Base.{List, [], ◌∷◌, Option, some, none, ◌==◌, if◌then◌else◌}
use arm64emu_system.Devices.Gic.{Gic, spurious, best, best_below, update_line, create}
use arm64emu_system.Devices.Gic.{Event, handle, run, device, write_distributor, write_interface}
use arm64emu_system.Devices.Gic.{read_interface, set_irq, gicd_read, gicd_write, gicc_write, mark}
use arm64emu_system.Devices.Gic.{gicc_read, acknowledge, end_of_interrupt}
use arm64emu_system.Devices.Gic.Best.{IsHighest, IsQuiet, best-IsHighest}
use arm64emu_system.Devices.Gic.Line.{IsSettled, set_irq-IsSettled}
use arm64emu_system.Devices.Gic.Access.{gicd_read-none}
use arm64emu_system.Devices.Gic.Service.{acknowledge_lem, end_of_interrupt-acknowledge}
use arm64emu_system.Devices.Gic.Runs.{run-IsSettled, create-IsSettled, isactiver_stale}

-- Interrupt 33 is enabled, pending and unmasked.
abbrev uart_pending : Gic
uart_pending = record {
  irq_line = true;
  d_ctlr = 1;
  c_ctlr = 1;
  pmr = 0xf0;
  enabled = λ i. i == 33;
  pending = λ i. i == 33;
  active = λ _. false;
  line = λ i. i == 33;
  cfg_edge = λ _. false;
  priority = λ _. 0xa0;
  target = λ _. 1;
}

best_uart : best uart_pending ≡ 33
unfolding best best_below
best_uart = refl

uart-IsSettled : IsSettled uart_pending
unfolding best best_below
uart-IsSettled = refl

uart-signalled : best uart_pending ≢ spurious
unfolding best best_below
uart-signalled = omega arith

-- A guest sets the controller up, the UART asserts its line, and the guest serves it.
abbrev session : List Event
session =
    write_distributor 0x000 4 1
    ∷ write_interface 0x00 4 1
    ∷ write_interface 0x04 4 0xf0
    ∷ write_distributor 0x104 4 2
    ∷ device 33 true
    ∷ read_interface 0x0c 4
    ∷ device 33 false
    ∷ write_interface 0x10 4 33
    ∷ []

line_of : Option Gic → Bool
line_of none = true
line_of (some g) = g.irq_line

session_ends_quiet : line_of (run session create) ≡ false
unfolding line_of run handle create gicd_write gicc_write gicc_read set_irq acknowledge
    end_of_interrupt update_line best best_below mark
session_ends_quiet = refl

best-IsHighest_example :
    IsHighest uart_pending (best uart_pending)
    ⊎ ((best uart_pending ≡ spurious) × IsQuiet uart_pending)
best-IsHighest_example = best-IsHighest uart_pending (omega arith)

set_irq-IsSettled_example : IsSettled (set_irq 27 true uart_pending)
set_irq-IsSettled_example = set_irq-IsSettled 27 true uart_pending uart-IsSettled

acknowledge_lem_example :
    IsHighest uart_pending (acknowledge uart_pending).0
    × ((acknowledge uart_pending).1.active (acknowledge uart_pending).0 ≡ true)
    × (best (acknowledge uart_pending).1 ≢ (acknowledge uart_pending).0)
acknowledge_lem_example = acknowledge_lem uart_pending (omega arith) uart-signalled

end_of_interrupt-acknowledge_example :
    end_of_interrupt (acknowledge uart_pending).1 (acknowledge uart_pending).0 ≡ uart_pending
end_of_interrupt-acknowledge_example =
    end_of_interrupt-acknowledge uart_pending (omega arith) uart-IsSettled uart-signalled refl

gicd_read-none_example : gicd_read uart_pending 0x120 4 ≡ none
gicd_read-none_example = gicd_read-none uart_pending 0x120 4 (omega arith) (omega arith)

-- The controller after `session`, or the fresh one if an access left the arrays.
abbrev after_session : Gic
after_session = elim (run session create) [ none ↦ create | some g ↦ g ]

run-IsSettled_example : IsSettled after_session
unfolding run handle create gicd_write gicc_write gicc_read set_irq acknowledge end_of_interrupt
    update_line best best_below mark
run-IsSettled_example =
    run-IsSettled session create after_session
      (refl, (tt, (tt, (refl, (tt, (tt, (tt, (tt, tt)))))))) create-IsSettled refl

-- The guest makes the pending UART interrupt active by hand.
abbrev forced : Gic
forced = record uart_pending { active = λ i. if i == 33 then true else false }

isactiver_stale_example : (forced.irq_line ≡ true) × ¬ IsSettled forced
unfolding gicd_write mark best best_below
isactiver_stale_example =
    isactiver_stale uart_pending forced 0x304 4 2 uart-IsSettled uart-signalled refl refl refl
