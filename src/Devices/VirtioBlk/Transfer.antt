-- ===== src/Devices/VirtioBlk/Transfer.antt =====
-- src/devices/virtio_blk.c: the transfers of one request stay inside the range that was checked.
use arm64emu_system.Base.{
  ℕ, zero, suc, ◌+◌, ◌-◌, ◌*◌, ◌/◌, ◌^◌, ◌≤◌, ◌<◌, ◌≡◌, refl, arith, Bool, true, false, List, [],
  ◌∷◌, Option, none, some, leb, if◌then◌else◌, ap, u64, min,
}
use arm64emu_system.Base.Always.{Always, >>=-Always, anything, either}
use arm64emu_system.Memory.{
  Bus, phys_read, phys_read_blk, phys_write_blk, bytes, copy_out, read_bytes, inside, in_window,
}
use arm64emu_system.Devices.FwCfg.{padded, take}
use arm64emu_system.Devices.VirtioBlk.{Host, Slot, Desc, VirtioBlk, sector_size}
use arm64emu_system.Devices.VirtioBlk.Service.{
  Io, chunk_read, chunk_in, chunk_out, chunks, transfer, total,
}

-- What the operations on an image of `size` bytes keep, as long as they stay inside it and write
-- only where the disk is not read-only.
pub record IsSafe {D : Type 0} (h : Host D) (size : ℕ) (ro : Bool) (P : D → Type 0) : Type 0 where
  pub reads : (d : D) (off n : ℕ) → off + n ≤ size → P d → P (h.pread d off n).1
  pub writes :
      (d : D) (off : ℕ) (vs : List ℕ)
      → ro ≡ false
      → off + bytes vs ≤ size
      → P d
      → P (h.pwrite d off vs).1
  pub syncs : (d : D) → P d → P (h.fsync d)

bytes-copy_out : (f : ℕ → ℕ) (i n : ℕ) → bytes (copy_out f i n) ≡ n
unfolding bytes copy_out
bytes-copy_out f i zero = refl
bytes-copy_out f i (suc n) = ap suc (bytes-copy_out f (i + 1) n)

-- A block that was read has the length asked for.
abbrev Long : {W : Type 0} → ℕ → List ℕ × Bus W → Type 0
Long n r = bytes r.0 ≡ n

read_bytes-Long : {W : Type 0} (b : Bus W) (pa n : ℕ) → Always (Long n) (read_bytes b pa n)
unfolding read_bytes bytes
read_bytes-Long b pa zero = Always.answered _ refl
read_bytes-Long b pa (suc n) = >>=-Always (phys_read b pa 1) _ (anything (phys_read b pa 1)) (λ r _.
    >>=-Always (read_bytes r.1 (u64 (pa + 1)) n) _ (read_bytes-Long r.1 (u64 (pa + 1)) n)
      (λ rest e. Always.answered _ (ap suc e)))

inside-Always :
    {A : Type 0} {P : A → Type 0} (len i n : ℕ) (a : A) → P a → Always P (inside len i n a)
inside-Always len i n a p = either (Always _) (leb (i + n) len) (Always.answered a p) Always.lost

phys_read_blk-Long : {W : Type 0} (b : Bus W) (pa n : ℕ) → Always (Long n) (phys_read_blk b pa n)
unfolding phys_read_blk
phys_read_blk-Long b pa n =
    either (Always (Long n)) (in_window b.ram_base b.ram_size pa n)
      (inside-Always b.ram_size _ n _ (bytes-copy_out b.ram (pa - b.ram_base) n))
      (either (Always (Long n)) (in_window b.flash_base b.flash_size pa n)
        (inside-Always b.flash_size _ n _ (bytes-copy_out b.flash.cells (pa - b.flash_base) n))
        (read_bytes-Long b pa n))

module _ {W D : Type 0} (h : Host D) (P : D → Type 0) (v : VirtioBlk) where
  -- The image is as wanted, and the device's registers are `v`.
  abbrev pub Good : Slot W D → Type 0
  Good s = P s.disk × (s.blk ≡ v)

  -- The same in a transfer of which `rest` bytes are left.
  pub record IsKept (rest : ℕ) (io : Io W D) : Type 0 where
    pub good : Good io.slot
    pub room : io.off + rest ≤ v.capacity * sector_size

  chunk_read-IsKept :
      (io : Io W D) (gpa n rest : ℕ) (r : Option (List ℕ) × D)
      → v.capacity * sector_size < 2 ^ 64
      → P r.1
      → IsKept (n + rest) io
      → Always (IsKept rest) (chunk_read io gpa n r)
  unfolding chunk_read
  chunk_read-IsKept io gpa n rest (none, d) small p k =
      Always.answered _ (record { good = (p, k.good.1); room = let m = k.room in omega arith })
  chunk_read-IsKept io gpa n rest (some vs, d) small p k =
      >>=-Always (phys_write_blk io.slot.bus gpa (padded n (take n vs))) _ (anything _) (λ b _.
        Always.answered _ (record { good = (p, k.good.1); room = let m = k.room in omega arith }))

  chunk_out-IsKept :
      (io : Io W D) (gpa n rest : ℕ)
      → IsSafe h (v.capacity * sector_size) v.ro P
      → v.capacity * sector_size < 2 ^ 64
      → v.ro ≡ false
      → IsKept (n + rest) io
      → Always (IsKept rest) (chunk_out h io gpa n)
  unfolding chunk_out
  chunk_out-IsKept io gpa n rest safe small writable k =
      >>=-Always (phys_read_blk io.slot.bus gpa n) _ (phys_read_blk-Long io.slot.bus gpa n) (λ r e.
        Always.answered _ (record {
          good = (
            safe.writes io.slot.disk io.off r.0 writable (let m = k.room in omega arith) k.good.0,
            k.good.1,
          );
          room = let m = k.room in omega arith;
        }))

  -- A chunk in the direction of the request.
  chunk-IsKept :
      (out : Bool) (io : Io W D) (gpa n rest : ℕ)
      → IsSafe h (v.capacity * sector_size) v.ro P
      → v.capacity * sector_size < 2 ^ 64
      → (out ≡ true → v.ro ≡ false)
      → IsKept (n + rest) io
      → Always (IsKept rest) (if out then chunk_out h io gpa n else chunk_in h io gpa n)
  chunk-IsKept true io gpa n rest safe small writable k =
      chunk_out-IsKept io gpa n rest safe small (writable refl) k
  chunk-IsKept false io gpa n rest safe small writable k =
      chunk_read-IsKept io gpa n rest (h.pread io.slot.disk io.off n) small
        (safe.reads io.slot.disk io.off n (let m = k.room in omega arith) k.good.0) k

  shorter : (io : Io W D) (m n : ℕ) → n ≤ m → IsKept m io → IsKept n io
  shorter io m n le k = record { good = k.good; room = let r = k.room in omega arith }

  chunks-IsKept :
      (out : Bool) (left : ℕ) (io : Io W D) (gpa rem rest : ℕ)
      → IsSafe h (v.capacity * sector_size) v.ro P
      → v.capacity * sector_size < 2 ^ 64
      → (out ≡ true → v.ro ≡ false)
      → rem ≤ left * 4096
      → IsKept (rem + rest) io
      → Always (IsKept rest) (chunks h out left io gpa rem)
  unfolding chunks
  chunks-IsKept out zero io gpa rem rest safe small writable fits k =
      Always.answered _ (shorter io (rem + rest) rest (omega arith) k)
  chunks-IsKept out (suc left) io gpa rem rest safe small writable fits k =
      let n = min rem 4096 in
      >>=-Always (if out then chunk_out h io gpa n else chunk_in h io gpa n) _
        (chunk-IsKept out io gpa n (rem - n + rest) safe small writable
          (shorter io (rem + rest) (n + (rem - n + rest)) (ground arith) k))
        (λ io' k'.
          either (Always (IsKept rest)) io'.aborted
            (Always.answered _ (shorter io' (rem - n + rest) rest (omega arith) k'))
            (chunks-IsKept out left io' (u64 (gpa + n)) (rem - n) rest safe small writable
              (ground arith) k'))

  pub transfer-IsKept :
      (out : Bool) (ds : List Desc) (io : Io W D)
      → IsSafe h (v.capacity * sector_size) v.ro P
      → v.capacity * sector_size < 2 ^ 64
      → (out ≡ true → v.ro ≡ false)
      → IsKept (total ds) io
      → Always (IsKept 0) (transfer h out ds io)
  unfolding transfer total
  transfer-IsKept out [] io safe small writable k = Always.answered _ k
  transfer-IsKept out (d ∷ ds) io safe small writable k =
      >>=-Always (chunks h out ((d.len + 4095) / 4096) io d.addr d.len) _
        (chunks-IsKept out ((d.len + 4095) / 4096) io d.addr d.len (total ds) safe small writable
          (omega arith) k)
        (λ io' k'.
          either (Always (IsKept 0)) io'.aborted
            (Always.answered _ (shorter io' (total ds) 0 (omega arith) k'))
            (transfer-IsKept out ds io' safe small writable k'))
