-- ===== src/Devices/Uart.antt =====
-- src/devices/pl011.c: the serial port. Its back pointers are the other fields of `Serial`: the
-- interrupt controller, the console that the machine follows, and what the host was sent. The
-- bytes that the host's terminal has ready are a list.
pub mod Fifo
pub mod Irq
mod Tests
use arm64emu_system.Base.{
  ℕ, ◌+◌, ◌-◌, ◌*◌, ◌/◌, ◌%◌, ◌^◌, Bool, true, false, not, ◌&&◌, List, [], ◌∷◌, ◌++◌,
}
use arm64emu_system.Base.{
  Option, none, some, ◌==◌, leb, if◌then◌else◌, u8, u32, bit_or, bit_and, update,
}
use arm64emu_system.Devices.Gic.{Gic, set_irq_opt}

-- INTID_UART, and `sizeof(p->rx_fifo)`.
abbrev pub intid_uart : ℕ
intid_uart = 33

abbrev pub fifo_size : ℕ
fifo_size = 64

pub record Pl011 : Type 0 where
  pub imsc : ℕ
  pub ris : ℕ
  pub rx_fifo : ℕ → ℕ
  pub rx_head : ℕ
  pub rx_tail : ℕ
  pub cr : ℕ
  pub lcr_h : ℕ
  pub ibrd : ℕ
  pub fbrd : ℕ
  pub ifls : ℕ

pub record Serial : Type 0 where
  pub port : Pl011
  pub gic : Option Gic
  pub console_virtio : Bool
  pub console_active_virtio : Bool
  pub sent : List ℕ

-- RXRIS and TXRIS.
abbrev pub rxris : ℕ
rxris = 2 ^ 4

abbrev pub txris : ℕ
txris = 2 ^ 5

-- `pl011_id[i]`.
abbrev pub pl011_id : ℕ → ℕ
pl011_id i =
    if i == 0
    then 0x11
    else if i == 1
    then 0x10
    else if i == 2
    then 0x14
    else if i == 3
    then 0x00
    else if i == 4
    then 0x0d
    else if i == 5
    then 0xf0
    else if i == 6
    then 0x05
    else 0xb1

unfoldable pub rx_empty : Pl011 → Bool
rx_empty p = p.rx_head == p.rx_tail

unfoldable pub rx_full : Pl011 → Bool
rx_full p = (p.rx_tail + 1) % fifo_size == p.rx_head

unfoldable pub rx_push : ℕ → Pl011 → Pl011
rx_push ch p =
    if rx_full p
    then p
    else record p { rx_fifo = update p.rx_fifo p.rx_tail ch; rx_tail = (p.rx_tail + 1) % fifo_size }

-- -1 is `none`.
unfoldable pub rx_pop : Pl011 → Option ℕ × Pl011
rx_pop p =
    if rx_empty p
    then (none, p)
    else (some (p.rx_fifo p.rx_head), record p { rx_head = (p.rx_head + 1) % fifo_size })

unfoldable pub update_irq : Serial → Serial
update_irq s =
    let ris' = if rx_empty s.port then txris else bit_or txris rxris in
    record s {
      port = record s.port { ris = ris' };
      gic = set_irq_opt intid_uart (not (bit_and ris' s.port.imsc == 0)) s.gic;
    }

-- The loop of `pl011_rx_poll`: the port, and the bytes that the terminal keeps.
unfoldable pub rx_loop : List ℕ → Pl011 → Pl011 × List ℕ
rx_loop [] p = (p, [])
rx_loop (ch ∷ rest) p = elim (rx_full p) [
  | true ↦ (p, ch ∷ rest)
  | false ↦ rx_loop rest (rx_push (u8 ch) p)
]

unfoldable pub rx_poll : List ℕ → Serial → Serial × List ℕ
rx_poll ready s = let (p, rest) = rx_loop ready s.port in (update_irq (record s { port = p }), rest)

-- Reading the data register: an empty FIFO reads 0.
unfoldable pub read_data : Serial → ℕ × Serial
read_data s =
    let (ch, p) = rx_pop s.port in
    (elim ch [ none ↦ 0 | some b ↦ b ], update_irq (record s { port = p }))

unfoldable pub uart_read : ℕ → Serial → ℕ × Serial
uart_read off s =
    let p = s.port in
    if leb 0xfe0 off && leb off 0xffc
    then (pl011_id ((off - 0xfe0) / 4), s)
    else if off == 0x00
    then read_data s
    else if off == 0x18
    then (if rx_empty p then bit_or (2 ^ 7) (2 ^ 4) else 2 ^ 7, s)
    else if off == 0x24
    then (p.ibrd, s)
    else if off == 0x28
    then (p.fbrd, s)
    else if off == 0x2c
    then (p.lcr_h, s)
    else if off == 0x30
    then (p.cr, s)
    else if off == 0x34
    then (p.ifls, s)
    else if off == 0x38
    then (p.imsc, s)
    else if off == 0x3c
    then (p.ris, s)
    else if off == 0x40
    then (bit_and p.ris p.imsc, s)
    else (0, s)

-- Writing the data register: the byte goes out, and the host's input follows the output.
unfoldable pub write_data : ℕ → Serial → Serial
write_data val s = update_irq (record s {
  sent = s.sent ++ (val % 2 ^ 8 ∷ []);
  console_active_virtio = if s.console_virtio then false else s.console_active_virtio;
})

unfoldable pub uart_write : ℕ → ℕ → Serial → Serial
uart_write off val s =
    let p = s.port in
    if off == 0x00
    then write_data val s
    else if off == 0x24
    then record s { port = record p { ibrd = u32 val } }
    else if off == 0x28
    then record s { port = record p { fbrd = u32 val } }
    else if off == 0x2c
    then record s { port = record p { lcr_h = u32 val } }
    else if off == 0x30
    then record s { port = record p { cr = u32 val } }
    else if off == 0x34
    then record s { port = record p { ifls = u32 val } }
    else if off == 0x38
    then update_irq (record s { port = record p { imsc = u32 val } })
    else if off == 0x44
    then update_irq s
    else s

-- What `calloc` or `memset` and `cr = 0x300` leave.
abbrev pub power_on : Pl011
power_on = record {
  imsc = 0;
  ris = 0;
  rx_fifo = λ _. 0;
  rx_head = 0;
  rx_tail = 0;
  cr = 0x300;
  lcr_h = 0;
  ibrd = 0;
  fbrd = 0;
  ifls = 0;
}

unfoldable pub reset : Serial → Serial
reset s = record s { port = power_on; gic = set_irq_opt intid_uart false s.gic }
