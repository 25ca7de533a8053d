-- ===== src/Delta/Update/Whole.antt =====
-- The update of app/src/delta/delta.c from its header to the restart, on a patch of the format.
use delta_updates_for_embedd.Common.{
  ℕ, ◌+◌, ◌-◌, ◌*◌, ◌≤◌, ◌<◌, arith, ◌≡◌, refl, ap, ◌∙◌, sym, true, false, List, ◌++◌, length, some,
  pos, word, ltb, leb_ℤ, ℤ,
}
use delta_updates_for_embedd.Detools.Decoder.{Decoder, FiniteOutput}
use delta_updates_for_embedd.Detools.Inflate.{InflateLaws, inflate, IsNeeded}
use delta_updates_for_embedd.Detools.Apply.{ApplyPatch, Stepped}
use delta_updates_for_embedd.Detools.Run.{apply_patch_callbacks}
use delta_updates_for_embedd.Detools.Format.{bytes_of, Segment, stream, patch_bytes, target, Fits}
use delta_updates_for_embedd.Detools.Format.Refines.{apply_patch_callbacks-target}
use delta_updates_for_embedd.Delta.Codes.{page_size, header_size}
use delta_updates_for_embedd.Delta.Platform.{Platform, Layout, FlashLaws, WorkingLaws, ReadLaws}
use delta_updates_for_embedd.Delta.Flash.{FlashMem, delta_init}
use delta_updates_for_embedd.Delta.Flash.Bytes.{length-bytes_of}
use delta_updates_for_embedd.Delta.Update.{
  new_patch, word_at, delta_read_patch_header, delta_callbacks, upgrade, delta_check_and_apply,
  rebooted,
}
use delta_updates_for_embedd.Delta.Update.Begins.{
  zeros, header_taken, init_works, init-IsReady, taken, taken_kept, begun_images,
}
use delta_updates_for_embedd.Delta.Update.Endings.{patch_read-size}
use delta_updates_for_embedd.Delta.Update.Ready.{IsLaidOut, written}
use delta_updates_for_embedd.Delta.Update.Images.{delta-ImageLaws}

module _ {p : Platform} (l : FlashLaws p) {size : ℕ} (w : WorkingLaws l size) (lay : Layout)
    (laid : IsLaidOut lay size) where
  open p use {Device, flash_read, flash_write, flash_erase}
  open l use {peek}

  -- The parts of `delta_check_and_apply`, one behind the other.
  pub update_ends :
      (h : Decoder) (rounds fuel : ℕ) (memory : ApplyPatch h.State) (flash flash1 : FlashMem Device)
      (n : ℕ) (t : Stepped h.State (FlashMem Device))
      → delta_read_patch_header p lay flash 0 ≡ (flash1, pos 0, n)
      → 0 < n
      → (delta_init p lay flash1).1 ≡ pos 0
      → apply_patch_callbacks h (delta_callbacks p) rounds fuel memory n (delta_init p lay flash1).0
        ≡ some t
      → delta_check_and_apply p h lay rounds fuel memory flash ≡ some (upgrade p t.arg t.res)
  unfolding delta_check_and_apply
  update_ends h rounds fuel memory flash flash1 n t e1 h1 e2 e3 =
      let more : ltb 0 n ≡ true = ground arith in rw (e1, more, e2, e3) refl

  upgrade_boots :
      (flash : FlashMem Device) (res : ℤ) (m : ℕ)
      → res ≡ pos m
      → 0 < m
      → (p.boot_request_upgrade flash.device).1 ≡ pos 0
      → upgrade p flash res
        ≡ (record flash { device = (p.boot_request_upgrade flash.device).0 }, rebooted)
  upgrade_boots flash res m e h boots =
      let above : leb_ℤ (pos m) (pos 0) ≡ false = ground arith in rw (e, above, boots) refl

  written_image :
      (before storage : ℕ → ℕ) (stop : ℕ) (flash : FlashMem Device) (image : List ℕ)
      → written l w lay laid before storage stop flash ≡ image
      → bytes_of (peek flash.device) lay.secondary_offset (length image) ≡ image
  written_image before storage stop flash image e =
      let n : length image ≡ flash.to_current - lay.secondary_offset =
        ap length (sym e)
        ∙ length-bytes_of (peek flash.device) lay.secondary_offset
            (flash.to_current - lay.secondary_offset) in
      ap (bytes_of (peek flash.device) lay.secondary_offset) n ∙ e

-- The update as a whole, on a flash whose driver works and whose partitions are laid out one behind the
-- other below 2 ^ 31, with a secondary slot that starts at a page and has three pages or more: where the storage partition holds the mark, the size of a patch and, within the partition, the
-- patch, and the patch is one of the format for the source in the primary slot, with a compression below
-- 16, input of which every byte is needed, a target of one byte to two pages, rounds that read no byte
-- behind the last but one of the slot, and fewer than 2 ^ 32 bytes in all, `delta_check_and_apply`
-- requests the upgrade and restarts the device. The flash on which it requests the upgrade holds the
-- target of the patch from the start of the secondary slot on, is as it was in front of that slot, and has
-- changed from the storage partition on by the write of zeros over the mark only. The decoder keeps its
-- laws, reads of the flash give bytes, the request succeeds, and the rounds and the fuel are enough for the
-- size of the patch.
pub delta_check_and_apply-target :
    {p : Platform} (l : FlashLaws p) {size : ℕ} (w : WorkingLaws l size) (r : ReadLaws p)
    (lay : Layout) (laid : IsLaidOut lay size) (h : Decoder) (f : FiniteOutput h)
    (g : InflateLaws h) (rounds fuel : ℕ) (memory : ApplyPatch h.State) (flash : FlashMem p.Device)
    (compression : ℕ) (segments : List Segment) (z : List ℕ)
    → let peek = l.peek flash.device in
      let source = λ (offset : ℕ). peek (lay.primary_offset + offset) in
      let image = target source segments 0 in
      let patch = patch_bytes compression (length image) z in
      let header = bytes_of peek lay.storage_offset 8 in
      word_at header 0 ≡ new_patch
      → word_at header 4 ≡ length patch
      → bytes_of peek (lay.storage_offset + header_size) (length patch) ≡ patch
      → header_size + length patch ≤ lay.storage_size
      → compression < 16
      → inflate g g.initial z ≡ stream segments
      → IsNeeded g g.initial z
      → Fits source (lay.primary_size - 1) segments 0
      → 0 < length image
      → length image ≤ 2 * page_size
      → length patch < word
      → length patch ≤ 512 * rounds
      → 2 * (f.gain * length patch) + 2 ≤ fuel
      → ((d : p.Device) → (p.boot_request_upgrade d).1 ≡ pos 0)
      → (flash' : FlashMem p.Device) × (d : p.Device) × (delta_check_and_apply p h lay rounds fuel
            memory flash
          ≡ some (flash', rebooted))
        × (flash'.device ≡ (p.boot_request_upgrade d).0)
        × (bytes_of (l.peek d) lay.secondary_offset (length image) ≡ image)
        × ((a : ℕ) → a < lay.secondary_offset → l.peek d a ≡ peek a)
        × ((a : ℕ)
            → lay.storage_offset ≤ a
            → l.peek d a ≡ l.peek (p.flash_write flash.device lay.storage_offset zeros).0 a)
delta_check_and_apply-target {p} l w r lay laid h f g rounds fuel memory flash compression segments
      z mark stated stored room low inflates needed fits some_image two_pages small chunks enough
      boots =
    let before = l.peek flash.device in
    let image = target (λ (offset : ℕ). before (lay.primary_offset + offset)) segments 0 in
    let patch = patch_bytes compression (length image) z in
    let stop = lay.storage_offset + header_size + length patch in
    let some_room : header_size ≤ lay.storage_size = omega arith in
    let stop_fits : stop ≤ lay.storage_offset + lay.storage_size = omega arith in
    let flash1 = taken l w lay laid flash in
    let storage = l.peek flash1.device in
    let flash2 = (delta_init p lay flash1).0 in
    let header = header_taken l w lay laid flash 0 mark some_room in
    let (none_written, at, left) =
      begun_images l w lay laid flash before storage (length patch) some_room in
    let ready =
      init-IsReady l w lay laid flash1 before stop
        (λ a ha. taken_kept l w lay laid flash a some_room ha) stop_fits in
    let fits_slot : length (written l w lay laid before storage stop flash2 ++ image)
        ≤ 2 * page_size =
      rw none_written two_pages in
    let run =
      apply_patch_callbacks-target h f g (delta_callbacks p)
        (delta-ImageLaws l w lay laid before storage stop) rounds fuel memory flash2 compression 0
        segments z (left ∙ stored) ready at low inflates needed fits some_image (omega arith)
        fits_slot small chunks enough (patch_read-size p h lay r) in
    let t = run.0 in
    let d = t.arg.device in
    let whole : written l w lay laid before storage stop t.arg ≡ image =
      run.3 ∙ ap (λ ys. ys ++ image) none_written in
    (
      record t.arg { device = (p.boot_request_upgrade d).0 },
      d,
      update_ends l w lay laid h rounds fuel memory flash flash1 (length patch) t
            (rw stated at header) (omega arith) (init_works l w lay laid flash1) run.1
          ∙ ap (λ u. some u)
              (upgrade_boots l w lay laid t.arg t.res (length image) run.2 some_image (boots d)),
      refl,
      written_image l w lay laid before storage stop t.arg image whole,
      run.4.source_kept,
      run.4.storage_kept,
    )
