-- ===== src/Devices/VirtioBlk/Registers.antt =====
-- src/devices/virtio_blk.c: the registers, `blk_read` and `blk_write`.
use arm64emu_system.Base.{
  ℕ, zero, suc, ◌+◌, ◌-◌, ◌*◌, ◌/◌, ◌%◌, ◌^◌, false, Option, some, ◌==◌, ltb, leb, if◌then◌else◌,
  bit_and, not32, u32, min,
}
use arm64emu_system.Devices.Gic.{set_irq_opt}
use arm64emu_system.Devices.VirtioBlk.{Host, queue_num_max, VirtioBlk, Slot, blk_reset}
use arm64emu_system.Devices.VirtioBlk.Service.{virtio_blk_process}

-- `blk_config_read`: the capacity in the first 8 of 64 bytes, then zeros.
abbrev pub config_byte : VirtioBlk → ℕ → ℕ
config_byte v i = if ltb i 8 then v.capacity / 2 ^ (i * 8) % 2 ^ 8 else 0

unfoldable pub config_bytes : VirtioBlk → ℕ → ℕ → ℕ
config_bytes v off zero = 0
config_bytes v off (suc left) =
    (if ltb off 64 then config_byte v off else 0) + 2 ^ 8 * config_bytes v (off + 1) left

unfoldable pub blk_read : VirtioBlk → ℕ → ℕ → ℕ
blk_read v off size =
    if leb 0x100 off
    then config_bytes v (off - 0x100) size
    else if off == 0x000
    then 0x74726976
    else if off == 0x004
    then 2
    else if off == 0x008
    then 2
    else if off == 0x00c
    then 0x554d4551
    else if off == 0x010
    then (if v.dev_feat_sel == 1 then u32 (v.features / 2 ^ 32) else u32 v.features)
    else if off == 0x034
    then (if v.queue_sel == 0 then queue_num_max else 0)
    else if off == 0x044
    then v.q_ready
    else if off == 0x060
    then v.isr
    else if off == 0x070
    then v.status
    else 0

-- One half of a 64-bit register replaced.
abbrev pub with_low : ℕ → ℕ → ℕ
with_low r v = r / 2 ^ 32 * 2 ^ 32 + v

abbrev pub with_high : ℕ → ℕ → ℕ
with_high r v = u32 r + v * 2 ^ 32

-- InterruptACK.
unfoldable pub acknowledge : {W D : Type 0} → Slot W D → ℕ → Slot W D
acknowledge s v =
    let isr = bit_and s.blk.isr (not32 v) in
    record s {
      blk = record s.blk { isr = isr };
      gic = if isr == 0 then set_irq_opt s.blk.irq false s.gic else s.gic;
    }

-- The addresses of the queue, half by half.
unfoldable pub write_address : VirtioBlk → ℕ → ℕ → VirtioBlk
write_address b off v =
    if off == 0x080
    then record b { q_desc = with_low b.q_desc v }
    else if off == 0x084
    then record b { q_desc = with_high b.q_desc v }
    else if off == 0x090
    then record b { q_avail = with_low b.q_avail v }
    else if off == 0x094
    then record b { q_avail = with_high b.q_avail v }
    else if off == 0x0a0
    then record b { q_used = with_low b.q_used v }
    else if off == 0x0a4
    then record b { q_used = with_high b.q_used v }
    else b

-- The registers that only keep what is written to them.
unfoldable pub write_plain : VirtioBlk → ℕ → ℕ → VirtioBlk
write_plain b off v =
    if off == 0x014
    then record b { dev_feat_sel = v }
    else if off == 0x020
    then record b {
      drv_feat = if b.drv_feat_sel == 1 then with_high b.drv_feat v else with_low b.drv_feat v;
    }
    else if off == 0x024
    then record b { drv_feat_sel = v }
    else if off == 0x030
    then record b { queue_sel = v }
    else if off == 0x038
    then record b { q_num = min v queue_num_max }
    else if off == 0x044
    then record b { q_ready = v }
    else write_address b off v

unfoldable pub blk_write : {W D : Type 0} → Host D → Slot W D → ℕ → ℕ → Option (Slot W D)
blk_write h s off val =
    let v = u32 val in
    if off == 0x050
    then (if v == 0 then virtio_blk_process h s else some s)
    else if off == 0x064
    then some (acknowledge s v)
    else if off == 0x070
    then some (if v == 0 then blk_reset s else record s { blk = record s.blk { status = v } })
    else some (record s { blk = write_plain s.blk off v })
