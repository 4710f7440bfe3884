-- ===== src/Devices/FwCfg/Tests.antt =====
-- The data register at the device after creation, whose item 0 is the signature.
use arm64emu_system.Base.{false, ◌≡◌, refl, arith, [], ◌∷◌}
use arm64emu_system.Devices.FwCfg.{Item, create, set_item, rebuild_dir, find, length, select}
use arm64emu_system.Devices.FwCfg.{overwrite, files, entries}
use arm64emu_system.Devices.FwCfg.Laws.{stream, big_endian, stream-select}

abbrev signature : Item
signature = record { key = 0; content = 0x51 ∷ 0x45 ∷ 0x4d ∷ 0x55 ∷ []; name = []; is_file = false }

stream-select_example :
    stream (length signature.content) (select create (big_endian 0))
    ≡ 0x51 ∷ 0x45 ∷ 0x4d ∷ 0x55 ∷ []
unfolding create set_item rebuild_dir find length overwrite files entries
stream-select_example = stream-select create 0 signature (omega arith) refl (omega arith)
