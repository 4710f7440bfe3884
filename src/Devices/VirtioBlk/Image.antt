-- ===== src/Devices/VirtioBlk/Image.antt =====
-- src/devices/virtio_blk.c: what a guest can make the device do to the image by its register writes,
-- the bound on its descriptor chains, and the progress of the queue.
use arm64emu_system.Base.{
  ℕ, ◌+◌, ◌*◌, ◌^◌, ◌≤◌, ◌<◌, ◌≡◌, refl, arith, Bool, ◌||◌, List, [], ◌∷◌, Option, some, ◌>>=◌,
  ◌==◌, if◌then◌else◌, u16, u32, bit_or,
}
use arm64emu_system.Base.Always.{Always, >>=-Always, either, cases, holds}
use arm64emu_system.Devices.FwCfg.{length}
use arm64emu_system.Devices.VirtioBlk.{
  Host, Slot, Desc, VirtioBlk, load, chain, blk_reset, sector_size, queue_num_max,
}
use arm64emu_system.Devices.VirtioBlk.Service.{drain, distance, virtio_blk_process}
use arm64emu_system.Devices.VirtioBlk.Registers.{blk_write, write_plain, write_address, acknowledge}
use arm64emu_system.Devices.VirtioBlk.Transfer.{IsSafe}
use arm64emu_system.Devices.VirtioBlk.Requests.{load-Good, chain-Walked, drain-Good}

-- The registers of a device with an image of `capacity` sectors: the queue is not larger than
-- QueueNumMax, and the cursor is a ring index.
abbrev pub HasImage : ℕ → Bool → VirtioBlk → Type 0
HasImage capacity ro b =
    (b.capacity ≡ capacity) × (b.ro ≡ ro) × (b.q_num ≤ queue_num_max) × (b.last_avail < 2 ^ 16)

address-HasImage :
    (capacity : ℕ) (ro : Bool) (b : VirtioBlk) (off v : ℕ)
    → HasImage capacity ro b
    → HasImage capacity ro (write_address b off v)
unfolding write_address
address-HasImage capacity ro b off v k =
    let Q = HasImage capacity ro in
    cases Q (off == 0x080) (λ _. k)
      (λ _.
        cases Q (off == 0x084) (λ _. k)
          (λ _.
            cases Q (off == 0x090) (λ _. k)
              (λ _.
                cases Q (off == 0x094) (λ _. k)
                  (λ _.
                    cases Q (off == 0x0a0) (λ _. k)
                      (λ _. cases Q (off == 0x0a4) (λ _. k) (λ _. k))))))

plain-HasImage :
    (capacity : ℕ) (ro : Bool) (b : VirtioBlk) (off v : ℕ)
    → HasImage capacity ro b
    → HasImage capacity ro (write_plain b off v)
unfolding write_plain
plain-HasImage capacity ro b off v k =
    let Q = HasImage capacity ro in
    cases Q (off == 0x014) (λ _. k)
      (λ _.
        cases Q (off == 0x020) (λ _. k)
          (λ _.
            cases Q (off == 0x024) (λ _. k)
              (λ _.
                cases Q (off == 0x030) (λ _. k)
                  (λ _.
                    cases Q (off == 0x038) (λ _. (k.0, k.1, omega arith, k.3))
                      (λ _.
                        cases Q (off == 0x044) (λ _. k)
                          (λ _. address-HasImage capacity ro b off v k))))))

-- Any sequence of register writes, each an offset and a value.
unfoldable pub writes : {W D : Type 0} → Host D → List (ℕ × ℕ) → Slot W D → Option (Slot W D)
writes h [] s = some s
writes h (e ∷ es) s = blk_write h s e.0 e.1 >>= writes h es

module _ {W D : Type 0} (h : Host D) (P : D → Type 0) (capacity : ℕ) (ro : Bool) where
  -- Before and after every register write.
  abbrev pub IsHeld : Slot W D → Type 0
  IsHeld s = P s.disk × HasImage capacity ro s.blk

  process-IsHeld :
      (s : Slot W D)
      → IsSafe h (capacity * sector_size) ro P
      → capacity * sector_size < 2 ^ 64
      → IsHeld s
      → Always IsHeld (virtio_blk_process h s)
  unfolding virtio_blk_process
  process-IsHeld s safe small (p, k) =
      either (Always IsHeld) ((s.blk.q_ready == 0) || (s.blk.q_num == 0)) (Always.answered s (p, k))
        (>>=-Always (load s (s.blk.q_avail + 2) 2) _ (load-Good h P s.blk s _ 2 (p, refl)) (λ a g.
          let left = distance (u16 a.0) s.blk.last_avail in
          >>=-Always (drain h left a.1) _
            (drain-Good h P left s.blk a.1 (rw (k.0, k.1) safe) (rw k.0 small) k.3 g)
            (λ s' g'.
              let b : HasImage capacity ro s'.blk = rw g'.1 (k.0, k.1, k.2, omega arith) in
              Always.answered _ (either IsHeld (left == 0) (g'.0, b) (g'.0, b)))))

  reset-IsHeld : (s : Slot W D) → IsHeld s → IsHeld (blk_reset s)
  unfolding blk_reset
  reset-IsHeld s (p, k) = (p, (k.0, k.1, omega arith, omega arith))

  write-IsHeld :
      (s : Slot W D) (off val : ℕ)
      → IsSafe h (capacity * sector_size) ro P
      → capacity * sector_size < 2 ^ 64
      → IsHeld s
      → Always IsHeld (blk_write h s off val)
  unfolding blk_write acknowledge
  write-IsHeld s off val safe small (p, k) =
      let A = Always IsHeld in
      either A (off == 0x050)
        (either A (u32 val == 0) (process-IsHeld s safe small (p, k)) (Always.answered s (p, k)))
        (either A (off == 0x064) (Always.answered _ (p, k)) (
          either A (off == 0x070)
            (Always.answered _ (either IsHeld (u32 val == 0) (reset-IsHeld s (p, k)) (p, k)))
            (Always.answered _ (p, plain-HasImage capacity ro s.blk off (u32 val) k))))

  all_writes :
      (es : List (ℕ × ℕ)) (s : Slot W D)
      → IsSafe h (capacity * sector_size) ro P
      → capacity * sector_size < 2 ^ 64
      → IsHeld s
      → Always IsHeld (writes h es s)
  unfolding writes
  all_writes [] s safe small k = Always.answered s k
  all_writes (e ∷ es) s safe small k =
      >>=-Always (blk_write h s e.0 e.1) _ (write-IsHeld s e.0 e.1 safe small k)
        (λ s' k'. all_writes es s' safe small k')

-- For a device whose queue is not larger than QueueNumMax: let a property of the image be kept by
-- reads and writes inside the capacity (by writes only if the disk is not read-only) and by fsync.
-- Then any sequence of the guest's register writes that is defined keeps it, whatever the rings in
-- memory say; the capacity stays, and no descriptor chain is longer than the 256 entries of the
-- arrays of `blk_request`.
pub writes-IsHeld :
    {W D : Type 0} (h : Host D) (P : D → Type 0) (capacity : ℕ) (ro : Bool) (es : List (ℕ × ℕ))
    (s s' : Slot W D)
    → IsSafe h (capacity * sector_size) ro P
    → capacity * sector_size < 2 ^ 64
    → IsHeld h P capacity ro s
    → writes h es s ≡ some s'
    → IsHeld h P capacity ro s'
      × ((head : ℕ) (ds : List Desc) (s'' : Slot W D)
          → chain s'.blk.q_num s' head ≡ some (ds, s'')
          → length ds ≤ 256)
writes-IsHeld h P capacity ro es s s' safe small k done =
    let k' = holds (writes h es s) s' (all_writes h P capacity ro es s safe small k) done in
    (
      k',
      λ head ds s'' e.
          let w =
            holds (chain s'.blk.q_num s' head) (ds, s'')
              (chain-Walked h P s'.blk s'.blk.q_num s' head (k'.0, refl)) e in
          let le = w.0 in let q = k'.1.2 in omega arith,
    )

-- The registers after a notification, by the index that the guest had published.
abbrev pub notified : VirtioBlk → ℕ → VirtioBlk
notified b idx = record b {
  last_avail = idx;
  isr = if idx == b.last_avail then b.isr else bit_or b.isr 1;
}
