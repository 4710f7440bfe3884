-- ===== src/Memory/Tests.antt =====
-- The theorems on the bus and the flash at a machine with 64 KB of RAM and an idle flash.
use arm64emu_system.Base.{ℕ, ◌+◌, ◌-◌, ◌*◌, ◌%◌, ◌^◌, ◌≤◌, ◌<◌, ◌≡◌, refl, arith, []}
use arm64emu_system.Base.{some, none, ◌⊎◌}
use arm64emu_system.Memory.{Bus, BusStatus, phys_read, phys_write, phys_read_blk, ld_le}
use arm64emu_system.Memory.Access.{phys_read-phys_write, phys_read_blk-none}
use arm64emu_system.Memory.Nor.{Flash, ready, cfi_read}
use arm64emu_system.Memory.Nor.Protocol.{rewrite, rewrite-read}

abbrev chip : Flash
chip = record { cells = λ _. 0; banks = λ _. ready }

abbrev small : Bus ℕ
small = record {
  ram = λ _. 0;
  ram_base = 0x4000_0000;
  ram_size = 0x1_0000;
  flash = chip;
  flash_base = 0;
  flash_size = 0x0800_0000;
  devices = [];
  last_bus_status = BusStatus.bus_ok;
  world = 0;
}

phys_read-phys_write_example :
    (b' : Bus ℕ) × (phys_write small 0x4000_0010 4 0x1_2345_6789 ≡ some b')
    × (b'.last_bus_status ≡ BusStatus.bus_ok)
    × (phys_read b' 0x4000_0010 4 ≡ some (0x1_2345_6789 % 2 ^ (8 * 4), b'))
    × ((j : ℕ)
        → (j < 0x4000_0010 - small.ram_base) ⊎ (0x4000_0010 - small.ram_base + 4 ≤ j)
        → b'.ram j ≡ small.ram j)
phys_read-phys_write_example =
    phys_read-phys_write small 0x4000_0010 4 0x1_2345_6789 (omega arith) (omega arith) (omega arith)

phys_read_blk-none_example : phys_read_blk small 0xffff_ffff_ffff_fff8 16 ≡ none
phys_read_blk-none_example =
    phys_read_blk-none small 0xffff_ffff_ffff_fff8 16 (omega arith) (omega arith) (omega arith)
      (omega arith) (omega arith)

rewrite-read_example :
    (cfi_read (rewrite chip 0x0404_0010 4 0xcafe) 0x0404_0010 4 ≡ none)
    × (ld_le (rewrite chip 0x0404_0010 4 0xcafe).cells 0x0404_0010 4 ≡ 0xcafe % 2 ^ (8 * 4))
rewrite-read_example = rewrite-read chip 0x0404_0010 4 0xcafe refl (omega arith)
