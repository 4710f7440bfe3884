-- ===== src/Devices/VirtioBlk/Tests.antt =====
-- A read of 16 bytes from sector 1, and the theorems on the block device at it. The host remembers
-- how far into the image it has been.
use arm64emu_system.Base.{
  ℕ, ◌+◌, ◌*◌, ◌≡◌, ◌≤◌, refl, arith, true, List, [], ◌∷◌, none, some, ltb, if◌then◌else◌,
}
use arm64emu_system.Memory.{
  BusStatus, st_le, bytes, phys_read, phys_write, phys_write_blk, ld_le, copy_in,
}
use arm64emu_system.Memory.Nor.{ready}
use arm64emu_system.Devices.FwCfg.{length, padded, take}
use arm64emu_system.Devices.Gic.{create, set_irq, set_irq_opt}
use arm64emu_system.Devices.VirtioBlk.{
  Host, VirtioBlk, Slot, Desc, chain, descriptor, blk_push_used, sector_size,
}
use arm64emu_system.Devices.VirtioBlk.Service.{
  virtio_blk_process, drain, blk_request, blk_serve, split_last, perform, total, transfer, chunks,
  chunk_read,
}
use arm64emu_system.Devices.VirtioBlk.Registers.{blk_write, write_plain, write_address}
use arm64emu_system.Devices.VirtioBlk.Transfer.{IsSafe}
use arm64emu_system.Devices.VirtioBlk.Image.{IsHeld, writes, writes-IsHeld}

abbrev larger : ℕ → ℕ → ℕ
larger a b = if ltb a b then b else a

abbrev host : Host ℕ
host = record {
  pread = λ d off n. (some [], larger d (off + n));
  pwrite = λ d off vs. (true, larger d (off + bytes vs));
  fsync = λ d. d;
}

-- Three descriptors at the start of the RAM, the available ring at 0x100, the header at 0x300.
abbrev memory : ℕ → ℕ
memory =
    st_le
      (st_le
        (st_le
          (st_le
            (st_le
              (st_le
                (st_le (st_le (st_le (λ _. 0) 0x00 8 0x4000_0300) 0x08 8 0x0001_0001_0000_0010) 0x10
                  8 0x4000_0400)
                0x18 8 0x0002_0003_0000_0010)
              0x20 8 0x4000_0500)
            0x28 8 0x0000_0002_0000_0001)
          0x100 8 0x0001_0000)
        0x300 8 0)
      0x308 8 1

abbrev disk : VirtioBlk
disk = record {
  irq = 48;
  index = 0;
  capacity = 4;
  ro = true;
  features = 0;
  status = 0;
  isr = 0;
  dev_feat_sel = 0;
  drv_feat_sel = 0;
  drv_feat = 0;
  queue_sel = 0;
  q_num = 0;
  q_ready = 0;
  q_desc = 0;
  q_avail = 0;
  q_used = 0;
  last_avail = 0;
}

abbrev slot : Slot ℕ ℕ
slot = record {
  blk = disk;
  gic = some create;
  bus = record {
    ram = memory;
    ram_base = 0x4000_0000;
    ram_size = 0x1_0000;
    flash = record { cells = λ _. 0; banks = λ _. ready };
    flash_base = 0;
    flash_size = 0x0800_0000;
    devices = [];
    last_bus_status = BusStatus.bus_ok;
    world = 0;
  };
  disk = 0;
}

-- The driver sets the queue up and notifies it.
abbrev session : List (ℕ × ℕ)
session =
    (0x038, 4)
    ∷ (0x080, 0x4000_0000)
    ∷ (0x090, 0x4000_0100)
    ∷ (0x0a0, 0x4000_0200)
    ∷ (0x044, 1)
    ∷ (0x050, 0)
    ∷ []

abbrev ended : Slot ℕ ℕ
ended = elim (writes host session slot) [ none ↦ slot | some s ↦ s ]

touched : ended.disk ≡ 528
unfolding writes blk_write write_plain write_address virtio_blk_process drain blk_request chain
    descriptor blk_serve split_last perform total transfer chunks chunk_read blk_push_used padded
    take copy_in phys_read phys_write phys_write_blk bytes st_le ld_le set_irq_opt set_irq create
touched = refl

served_lem : writes host session slot ≡ some ended
unfolding writes blk_write write_plain write_address virtio_blk_process drain blk_request chain
    descriptor blk_serve split_last perform total transfer chunks chunk_read blk_push_used padded
    take copy_in phys_read phys_write phys_write_blk bytes st_le ld_le set_irq_opt set_irq create
served_lem = refl

host-IsSafe : IsSafe host (4 * sector_size) true (λ d. d ≤ 2048)
host-IsSafe = record {
  reads = λ d off n le p. ground arith;
  writes = λ d off vs w le p. ground arith;
  syncs = λ d p. p;
}

writes-IsHeld_example :
    IsHeld host (λ d. d ≤ 2048) 4 true ended
    × ((head : ℕ) (ds : List Desc) (s : Slot ℕ ℕ)
        → chain ended.blk.q_num ended head ≡ some (ds, s)
        → length ds ≤ 256)
writes-IsHeld_example =
    writes-IsHeld host (λ d. d ≤ 2048) 4 true session slot ended host-IsSafe (omega arith)
      (omega arith, (refl, refl, omega arith, omega arith)) served_lem

-- The queue before the notification.
abbrev waiting : Slot ℕ ℕ
waiting = record slot {
  blk = record disk {
    q_num = 4;
    q_ready = 1;
    q_desc = 0x4000_0000;
    q_avail = 0x4000_0100;
    q_used = 0x4000_0200;
  };
}

abbrev notified_slot : Slot ℕ ℕ
notified_slot = elim (virtio_blk_process host waiting) [ none ↦ waiting | some s ↦ s ]
