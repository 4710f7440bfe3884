-- ===== src/Devices/VirtioBlk/Requests.antt =====
-- src/devices/virtio_blk.c: a request leaves the image as wanted and the registers as they were.
use arm64emu_system.Base.{
  ℕ, zero, suc, ◌+◌, ◌-◌, ◌*◌, ◌^◌, ◌≤◌, ◌<◌, ◌≡◌, sym, ◌∙◌, arith, Bool, true, false, ◌&&◌, ◌||◌,
  List, [], ◌∷◌, some, ◌==◌, ltb, if◌then◌else◌, ap, u16, u32, u64, min, has_bit,
}
use arm64emu_system.Base.Always.{Always, >>=-Always, anything, weaken-Always, either, cases}
use arm64emu_system.Memory.{phys_read, phys_write, phys_write_blk}
use arm64emu_system.Devices.FwCfg.{take, length}
use arm64emu_system.Devices.VirtioBlk.{
  Host, Slot, Desc, VirtioBlk, load, store, blk_push_used, descriptor, chain, sector_size,
}
use arm64emu_system.Devices.VirtioBlk.Service.{
  Io, transfer, total, serial, get_id, perform, split_last, blk_serve, blk_request, drain,
}
use arm64emu_system.Devices.VirtioBlk.Transfer.{IsSafe, Good, transfer-IsKept}

writable_disk : (out ro : Bool) → (out && ro) ≡ false → out ≡ true → ro ≡ false
writable_disk out ro free w = ground arith

module _ {W D : Type 0} (h : Host D) (P : D → Type 0) (v : VirtioBlk) where
  abbrev GoodIo : Io W D → Type 0
  GoodIo io = Good h P v io.slot

  get_id-Good : (ds : List Desc) (io : Io W D) → GoodIo io → Always GoodIo (get_id ds io)
  unfolding get_id
  get_id-Good [] io g = Always.answered _ g
  get_id-Good (d ∷ ds) io g =
      >>=-Always
        (phys_write_blk io.slot.bus d.addr (take (min d.len 20) (serial io.slot.blk.index))) _
        (anything _) (λ b _. Always.answered _ g)

  perform-Good :
      (ds : List Desc) (type sector : ℕ) (s : Slot W D)
      → IsSafe h (v.capacity * sector_size) v.ro P
      → v.capacity * sector_size < 2 ^ 64
      → Good h P v s
      → Always GoodIo (perform h ds type sector s)
  unfolding perform
  perform-Good ds type sector s safe small g =
      let out = type == 1 in
      let ok : Io W D = record {
        slot = s;
        status = 0;
        used_len = 0;
        off = u64 (sector * sector_size);
        aborted = false;
      } in
      let A = Always GoodIo in
      cases A (out && s.blk.ro) (λ _. Always.answered _ g)
        (λ free.
          cases A ((type == 0) || out)
            (λ _.
              cases A
                (ltb s.blk.capacity sector
                  || ltb ((s.blk.capacity - sector) * sector_size) (total ds))
                (λ _. Always.answered _ g)
                (λ fits.
                  let cap : s.blk.capacity ≡ v.capacity = ap (λ t. t.capacity) g.1 in
                  let below : sector ≤ v.capacity = ground arith in
                  let enough : total ds ≤ (v.capacity - sector) * sector_size = ground arith in
                  let writable : out ≡ true → v.ro ≡ false =
                    λ w. sym (ap (λ t. t.ro) g.1) ∙ writable_disk out s.blk.ro free w in
                  weaken-Always (transfer h out ds ok)
                    (transfer-IsKept h P v out ds ok safe small writable
                      (record { good = g; room = omega arith }))
                    (λ io k. k.good)))
            (λ _. either A (type == 8) (get_id-Good ds ok g) (
              either A (type == 4) (Always.answered _ (safe.syncs s.disk g.0, g.1))
                (Always.answered _ g))))

  pub load-Good :
      (s : Slot W D) (pa n : ℕ) → Good h P v s → Always (λ r. Good h P v r.1) (load s pa n)
  load-Good s pa n g =
      >>=-Always (phys_read s.bus (u64 pa) n) _ (anything _) (λ r _. Always.answered _ g)

  store-Good : (s : Slot W D) (pa n x : ℕ) → Good h P v s → Always (Good h P v) (store s pa n x)
  store-Good s pa n x g =
      >>=-Always (phys_write s.bus (u64 pa) n x) _ (anything _) (λ b _. Always.answered _ g)

  push-Good :
      (s : Slot W D) (id len : ℕ) → Good h P v s → Always (Good h P v) (blk_push_used s id len)
  unfolding blk_push_used
  push-Good s id len g = >>=-Always (load s (s.blk.q_used + 2) 2) _ (load-Good s _ 2 g) (λ r g₁.
      >>=-Always (store r.1 _ 4 id) _ (store-Good r.1 _ 4 id g₁) (λ s₁ g₂.
        >>=-Always (store s₁ _ 4 len) _ (store-Good s₁ _ 4 len g₂)
          (λ s₂ g₃. store-Good s₂ _ 2 _ g₃)))

  -- A chain of at most `n` descriptors.
  abbrev pub Walked : ℕ → List Desc × Slot W D → Type 0
  Walked n r = (length r.0 ≤ n) × Good h P v r.1

  descriptor-Good :
      (s : Slot W D) (idx : ℕ) → Good h P v s → Always (λ r. Good h P v r.1) (descriptor s idx)
  unfolding descriptor
  descriptor-Good s idx g = >>=-Always (load s _ 8) _ (load-Good s _ 8 g) (λ a g₁.
      >>=-Always (load a.1 _ 4) _ (load-Good a.1 _ 4 g₁) (λ l g₂.
        >>=-Always (load l.1 _ 2) _ (load-Good l.1 _ 2 g₂) (λ f g₃.
          >>=-Always (load f.1 _ 2) _ (load-Good f.1 _ 2 g₃) (λ n g₄. Always.answered _ g₄))))

  pub chain-Walked :
      (left : ℕ) (s : Slot W D) (idx : ℕ) → Good h P v s → Always (Walked left) (chain left s idx)
  unfolding chain length
  chain-Walked zero s idx g = Always.answered _ (omega arith, g)
  chain-Walked (suc left) s idx g =
      >>=-Always (descriptor s idx) _ (descriptor-Good s idx g) (λ d g₁.
        >>=-Always (if has_bit d.0.0.flags 0 then chain left d.1 d.0.1 else some ([], d.1)) _
          (either (Always (Walked left)) (has_bit d.0.0.flags 0) (chain-Walked left d.1 d.0.1 g₁)
            (Always.answered _ (omega arith, g₁)))
          (λ rest w. Always.answered _ (let le = w.0 in omega arith, w.1)))

  serve-Good :
      (head : ℕ) (ds : List Desc) (s : Slot W D)
      → IsSafe h (v.capacity * sector_size) v.ro P
      → v.capacity * sector_size < 2 ^ 64
      → Good h P v s
      → Always (Good h P v) (blk_serve h head (ds, s))
  unfolding blk_serve
  serve-Good head [] s safe small g = Always.answered _ g
  serve-Good head (hdr ∷ []) s safe small g = Always.answered _ g
  serve-Good head (hdr ∷ d ∷ ds) s safe small g =
      >>=-Always (load s hdr.addr 4) _ (load-Good s hdr.addr 4 g) (λ type g₁.
        >>=-Always (load type.1 (hdr.addr + 8) 8) _ (load-Good type.1 (hdr.addr + 8) 8 g₁)
          (λ sector g₂.
            >>=-Always (perform h (split_last d ds).0 (u32 type.0) sector.0 sector.1) _
              (perform-Good (split_last d ds).0 (u32 type.0) sector.0 sector.1 safe small g₂)
              (λ io g₃.
                >>=-Always (store io.slot (split_last d ds).1.addr 1 io.status) _
                  (store-Good io.slot _ 1 _ g₃)
                  (λ s' g₄. push-Good s' head (u32 (io.used_len + 1)) g₄))))

  request-Good :
      (s : Slot W D) (head : ℕ)
      → IsSafe h (v.capacity * sector_size) v.ro P
      → v.capacity * sector_size < 2 ^ 64
      → Good h P v s
      → Always (Good h P v) (blk_request h s head)
  unfolding blk_request
  request-Good s head safe small g =
      >>=-Always (chain s.blk.q_num s head) _ (chain-Walked s.blk.q_num s head g)
        (λ r w. serve-Good head r.0 r.1 safe small w.1)

-- After `n` requests the cursor has moved `n` times, and no other register has changed.
abbrev pub served : VirtioBlk → ℕ → VirtioBlk
served v n = record v { last_avail = u16 (v.last_avail + n) }

module _ {W D : Type 0} (h : Host D) (P : D → Type 0) where
  pub drain-Good :
      (n : ℕ) (v : VirtioBlk) (s : Slot W D)
      → IsSafe h (v.capacity * sector_size) v.ro P
      → v.capacity * sector_size < 2 ^ 64
      → v.last_avail < 2 ^ 16
      → Good h P v s
      → Always (Good h P (served v n)) (drain h n s)
  unfolding drain
  drain-Good zero v s safe small word g =
      Always.answered _ (g.0, g.1 ∙ ap (λ (c : ℕ). record v { last_avail = c }) (omega arith))
  drain-Good (suc n) v s safe small word g =
      >>=-Always (load s _ 2) _ (load-Good h P v s _ 2 g) (λ hd g₁.
        >>=-Always (blk_request h hd.1 (u16 hd.0)) _
          (request-Good h P v hd.1 (u16 hd.0) safe small g₁)
          (λ s' g₂.
            weaken-Always (drain h n _)
              (drain-Good n (served v 1)
                (record s' { blk = record s'.blk { last_avail = u16 (s'.blk.last_avail + 1) } })
                safe small (omega arith) (g₂.0, ap (λ t. served t 1) g₂.1))
              (λ t g₃. (g₃.0, g₃.1 ∙ ap (λ (c : ℕ). record v { last_avail = c }) (omega arith)))))
