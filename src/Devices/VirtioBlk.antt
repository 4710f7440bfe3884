-- ===== src/Devices/VirtioBlk.antt =====
-- src/devices/virtio_blk.c: the block device on virtio-mmio. The image file is a parameter, the
-- record `Host` of what the host answers. The state is kept beside the bus: the guest's addresses
-- are taken not to name this device's own registers.
pub mod Service
pub mod Registers
pub mod Transfer
pub mod Requests
pub mod Image
mod Tests
use arm64emu_system.Base.{
  ℕ, zero, suc, ◌+◌, ◌-◌, ◌*◌, ◌/◌, ◌%◌, ◌^◌, Bool, true, false, not, ◌&&◌, ◌||◌, List, [], ◌∷◌,
  ◌++◌, Option, none, some, ◌>>=◌, ◌==◌, ltb, leb, if◌then◌else◌, bit_and, bit_or, has_bit, not32,
  u16, u32, u64, min,
}
use arm64emu_system.Memory.{Bus, phys_read, phys_write, phys_read_blk, phys_write_blk}
use arm64emu_system.Devices.Gic.{Gic, set_irq_opt}
use arm64emu_system.Devices.FwCfg.{padded, take}

-- `pread`, `pwrite` (whether it wrote all) and `fsync` on the image, by offset; `none` is an error.
pub record Host (D : Type 0) : Type 0 where
  pub pread : D → ℕ → ℕ → Option (List ℕ) × D
  pub pwrite : D → ℕ → List ℕ → Bool × D
  pub fsync : D → D

abbrev pub sector_size : ℕ
sector_size = 512

abbrev pub queue_num_max : ℕ
queue_num_max = 256

-- `VirtIOBlk` without its pointers.
pub record VirtioBlk : Type 0 where
  pub irq : ℕ
  pub index : ℕ
  pub capacity : ℕ
  pub ro : Bool
  pub features : ℕ
  pub status : ℕ
  pub isr : ℕ
  pub dev_feat_sel : ℕ
  pub drv_feat_sel : ℕ
  pub drv_feat : ℕ
  pub queue_sel : ℕ
  pub q_num : ℕ
  pub q_ready : ℕ
  pub q_desc : ℕ
  pub q_avail : ℕ
  pub q_used : ℕ
  pub last_avail : ℕ

-- The device with what it points to.
pub record Slot (W D : Type 0) : Type 0 where
  pub blk : VirtioBlk
  pub gic : Option Gic
  pub bus : Bus W
  pub disk : D

unfoldable pub blk_reset : {W D : Type 0} → Slot W D → Slot W D
blk_reset s = record s {
  blk = record s.blk {
    status = 0;
    isr = 0;
    dev_feat_sel = 0;
    drv_feat_sel = 0;
    drv_feat = 0;
    queue_sel = 0;
    q_num = 0;
    q_ready = 0;
    q_desc = 0;
    q_avail = 0;
    q_used = 0;
    last_avail = 0;
  };
  gic = set_irq_opt s.blk.irq false s.gic;
}

-- Accesses to the guest's memory.
abbrev pub load : {W D : Type 0} → Slot W D → ℕ → ℕ → Option (ℕ × Slot W D)
load s pa n = phys_read s.bus (u64 pa) n >>= λ r. some (r.0, record s { bus = r.1 })

abbrev pub store : {W D : Type 0} → Slot W D → ℕ → ℕ → ℕ → Option (Slot W D)
store s pa n v = phys_write s.bus (u64 pa) n v >>= λ b. some (record s { bus = b })

unfoldable pub blk_push_used : {W D : Type 0} → Slot W D → ℕ → ℕ → Option (Slot W D)
blk_push_used s id len = load s (s.blk.q_used + 2) 2 >>= λ r.
    let used_idx = u16 r.0 in
    let e = s.blk.q_used + 4 + used_idx % s.blk.q_num * 8 in
    store r.1 e 4 id >>= λ s₁.
    store s₁ (e + 4) 4 len >>= λ s₂. store s₂ (s.blk.q_used + 2) 2 (u16 (used_idx + 1))

pub record Desc : Type 0 where
  pub addr : ℕ
  pub len : ℕ
  pub flags : ℕ

-- One descriptor, and the index of the next.
unfoldable pub descriptor : {W D : Type 0} → Slot W D → ℕ → Option ((Desc × ℕ) × Slot W D)
descriptor s idx =
    let d = s.blk.q_desc + idx * 16 in
    load s d 8 >>= λ a. load a.1 (d + 8) 4 >>= λ l. load l.1 (d + 12) 2 >>= λ f.
    load f.1 (d + 14) 2 >>= λ n.
    some ((record { addr = a.0; len = u32 l.0; flags = u16 f.0 }, u16 n.0), n.1)

-- The chain from an index on: `left` descriptors may still be read.
unfoldable pub chain : {W D : Type 0} → ℕ → Slot W D → ℕ → Option (List Desc × Slot W D)
chain zero s idx = some ([], s)
chain (suc left) s idx = descriptor s idx >>= λ d.
    (if has_bit d.0.0.flags 0 then chain left d.1 d.0.1 else some ([], d.1)) >>= λ rest.
    some (d.0.0 ∷ rest.0, rest.1)
