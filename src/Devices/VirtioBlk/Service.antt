-- ===== src/Devices/VirtioBlk/Service.antt =====
-- src/devices/virtio_blk.c: `blk_request` behind the walk of its chain, and `virtio_blk_process`.
use arm64emu_system.Base.{
  ℕ, zero, suc, ◌+◌, ◌-◌, ◌*◌, ◌/◌, ◌%◌, ◌^◌, Bool, true, false, ◌&&◌, ◌||◌, List, [], ◌∷◌, Option,
  none, some, ◌>>=◌, ◌==◌, ltb, if◌then◌else◌, bit_or, u16, u32, u64, min,
}
use arm64emu_system.Memory.{phys_read_blk, phys_write_blk}
use arm64emu_system.Devices.Gic.{set_irq_opt}
use arm64emu_system.Devices.FwCfg.{padded, take}
use arm64emu_system.Devices.VirtioBlk.{
  Host, sector_size, Slot, load, store, blk_push_used, Desc, chain,
}

-- The variables of the transfer: `status`, `used_len`, `off`, and whether `goto` has left the loops.
pub record Io (W D : Type 0) : Type 0 where
  pub slot : Slot W D
  pub status : ℕ
  pub used_len : ℕ
  pub off : ℕ
  pub aborted : Bool

-- A chunk of VIRTIO_BLK_T_IN, by what `pread` answered: a short read is filled up with zeros.
unfoldable pub chunk_read : {W D : Type 0} → Io W D → ℕ → ℕ → Option (List ℕ) × D → Option (Io W D)
chunk_read io gpa n (none, disk) =
    some (record io { slot = record io.slot { disk = disk }; status = 1; aborted = true })
chunk_read io gpa n (some vs, disk) = phys_write_blk io.slot.bus gpa (padded n (take n vs)) >>= λ b.
    some (record io {
      slot = record io.slot { bus = b; disk = disk };
      used_len = u32 (io.used_len + n);
      off = u64 (io.off + n);
    })

abbrev pub chunk_in : {W D : Type 0} → Host D → Io W D → ℕ → ℕ → Option (Io W D)
chunk_in h io gpa n = chunk_read io gpa n (h.pread io.slot.disk io.off n)

-- A chunk of VIRTIO_BLK_T_OUT: an incomplete write is remembered, and the loop goes on.
unfoldable pub chunk_out : {W D : Type 0} → Host D → Io W D → ℕ → ℕ → Option (Io W D)
chunk_out h io gpa n = phys_read_blk io.slot.bus gpa n >>= λ r.
    let w = h.pwrite io.slot.disk io.off r.0 in
    some (record io {
      slot = record io.slot { bus = r.1; disk = w.1 };
      status = if w.0 then io.status else 1;
      off = u64 (io.off + n);
    })

-- The rounds of one descriptor: chunks of up to 4096 bytes.
unfoldable pub chunks : {W D : Type 0} → Host D → Bool → ℕ → Io W D → ℕ → ℕ → Option (Io W D)
chunks h out zero io gpa rem = some io
chunks h out (suc left) io gpa rem =
    let n = min rem 4096 in
    (if out then chunk_out h io gpa n else chunk_in h io gpa n) >>= λ io'.
    if io'.aborted then some io' else chunks h out left io' (u64 (gpa + n)) (rem - n)

-- The data descriptors, in order.
unfoldable pub transfer : {W D : Type 0} → Host D → Bool → List Desc → Io W D → Option (Io W D)
transfer h out [] io = some io
transfer h out (d ∷ ds) io = chunks h out ((d.len + 4095) / 4096) io d.addr d.len >>= λ io'.
    if io'.aborted then some io' else transfer h out ds io'

unfoldable pub total : List Desc → ℕ
total [] = 0
total (d ∷ ds) = d.len + total ds

-- "arm64emu-vblk" and the index, one digit for up to MAX_DRIVES disks, in 20 bytes.
unfoldable pub serial : ℕ → List ℕ
serial index =
    padded 20
      (97 ∷ 114 ∷ 109 ∷ 54 ∷ 52 ∷ 101 ∷ 109 ∷ 117 ∷ 45 ∷ 118 ∷ 98 ∷ 108 ∷ 107 ∷ (48 + index) ∷ [])

unfoldable pub get_id : {W D : Type 0} → List Desc → Io W D → Option (Io W D)
get_id [] io = some io
get_id (d ∷ ds) io =
    let cap = min d.len 20 in
    phys_write_blk io.slot.bus d.addr (take cap (serial io.slot.blk.index)) >>= λ b.
    some (record io { slot = record io.slot { bus = b }; used_len = io.used_len + cap })

-- The request by its type, on the data descriptors.
unfoldable pub perform : {W D : Type 0} → Host D → List Desc → ℕ → ℕ → Slot W D → Option (Io W D)
perform h data_descs type sector s =
    let out = type == 1 in
    let ok : Io _ _ = record {
      slot = s;
      status = 0;
      used_len = 0;
      off = u64 (sector * sector_size);
      aborted = false;
    } in
    if out && s.blk.ro
    then some (record ok { status = 1 })
    else if (type == 0) || out
    then (if ltb s.blk.capacity sector
          || ltb ((s.blk.capacity - sector) * sector_size) (total data_descs)
        then some (record ok { status = 1 })
        else transfer h out data_descs ok)
    else if type == 8
    then get_id data_descs ok
    else if type == 4
    then some (record ok { slot = record s { disk = h.fsync s.disk } })
    else some (record ok { status = 2 })

-- The last descriptor, and those before it.
unfoldable pub split_last : Desc → List Desc → List Desc × Desc
split_last d [] = ([], d)
split_last d (e ∷ es) = let r = split_last e es in (d ∷ r.0, r.1)

-- `blk_request` after the walk: a chain of fewer than two descriptors is dropped.
unfoldable pub blk_serve : {W D : Type 0} → Host D → ℕ → List Desc × Slot W D → Option (Slot W D)
blk_serve h head ([], s) = some s
blk_serve h head (hdr ∷ [], s) = some s
blk_serve h head (hdr ∷ d ∷ ds, s) =
    let (data_descs, last) = split_last d ds in
    load s hdr.addr 4 >>= λ type. load type.1 (hdr.addr + 8) 8 >>= λ sector.
    perform h data_descs (u32 type.0) sector.0 sector.1 >>= λ io.
    store io.slot last.addr 1 io.status >>= λ s'. blk_push_used s' head (u32 (io.used_len + 1))

unfoldable pub blk_request : {W D : Type 0} → Host D → Slot W D → ℕ → Option (Slot W D)
blk_request h s head = chain s.blk.q_num s head >>= blk_serve h head

-- The loop of `virtio_blk_process`: the entries still to go.
unfoldable pub drain : {W D : Type 0} → Host D → ℕ → Slot W D → Option (Slot W D)
drain h zero s = some s
drain h (suc left) s = load s (s.blk.q_avail + 4 + s.blk.last_avail % s.blk.q_num * 2) 2 >>= λ hd.
    blk_request h hd.1 (u16 hd.0) >>= λ s'.
    drain h left (record s' { blk = record s'.blk { last_avail = u16 (s'.blk.last_avail + 1) } })

-- The ring indices wrap at 2 ^ 16: so many steps take the cursor to `avail_idx`.
abbrev pub distance : ℕ → ℕ → ℕ
distance avail_idx cursor = (avail_idx + 2 ^ 16 - cursor) % 2 ^ 16

unfoldable pub virtio_blk_process : {W D : Type 0} → Host D → Slot W D → Option (Slot W D)
virtio_blk_process h s =
    if (s.blk.q_ready == 0) || (s.blk.q_num == 0)
    then some s
    else load s (s.blk.q_avail + 2) 2 >>= λ r.
        let left = distance (u16 r.0) s.blk.last_avail in
        drain h left r.1 >>= λ s'. some (
          if left == 0 then s' else record s' {
            blk = record s'.blk { isr = bit_or s'.blk.isr 1 };
            gic = set_irq_opt s'.blk.irq true s'.gic;
          })
