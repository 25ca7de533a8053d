-- ===== src/Delta/Update/Cut.antt =====
-- The update of app/src/delta/delta.c on a patch of the format that is cut short.
use delta_updates_for_embedd.Common.{
  ℕ, ◌+◌, ◌-◌, ◌*◌, ◌≤◌, ◌<◌, arith, ◌≡◌, ◌≢◌, ap, ◌∙◌, sym, List, [], ◌++◌, length, some, ℤ, pos,
  neg, word,
}
use delta_updates_for_embedd.Detools.Codes.{not_enough_patch_data}
use delta_updates_for_embedd.Detools.Decoder.{Decoder, FiniteOutput}
use delta_updates_for_embedd.Detools.Inflate.{InflateLaws, inflate, IsNeeded}
use delta_updates_for_embedd.Detools.Apply.{ApplyPatch}
use delta_updates_for_embedd.Detools.Format.{bytes_of, Segment, stream, patch_bytes, target, Fits}
use delta_updates_for_embedd.Detools.Format.First.{length-patch_header}
use delta_updates_for_embedd.Detools.Format.Refines.{apply_patch_callbacks-cut}
use delta_updates_for_embedd.Delta.Codes.{page_size, header_size}
use delta_updates_for_embedd.Delta.Platform.{Platform, Layout, FlashLaws, WorkingLaws, ReadLaws}
use delta_updates_for_embedd.Delta.Flash.{FlashMem, delta_init}
use delta_updates_for_embedd.Delta.Flash.Bytes.{length-bytes_of}
use delta_updates_for_embedd.Delta.Update.{
  new_patch, word_at, delta_callbacks, upgrade, delta_check_and_apply, returned,
}
use delta_updates_for_embedd.Delta.Update.Begins.{
  zeros, header_taken, init_works, init-IsReady, taken, taken_kept, begun_images,
}
use delta_updates_for_embedd.Delta.Update.Endings.{patch_read-size}
use delta_updates_for_embedd.Delta.Update.Ready.{IsLaidOut, written, patch_left}
use delta_updates_for_embedd.Delta.Update.Images.{delta-ImageLaws}
use delta_updates_for_embedd.Delta.Update.Whole.{update_ends}

upgrade-error :
    (p : Platform) (flash : FlashMem p.Device) (res : ℤ) (e : ℕ)
    → res ≡ neg e
    → upgrade p flash res ≡ (flash, returned (neg e))
upgrade-error p flash res e h = ground (arith, h)

-- The update on a patch that is cut short, on a flash whose driver works and whose partitions are laid out
-- one behind the other below 2 ^ 31, with a secondary slot that starts at a page and has three pages or
-- more: where the storage partition holds the mark, a size of five bytes or more and,
-- within the partition, so many bytes that are the front of a patch of the format for the source in the
-- primary slot but not all of it, `delta_check_and_apply` returns the error -19 that patch data is missing
-- and does not restart the device, the flash in front of the secondary slot is as it was, from the storage
-- partition on it has changed by the write of zeros over the mark only, and what is written in the
-- secondary slot is a front of the target. The patch has a compression below 16, input of
-- which every byte is needed, a target of one byte to two pages, and rounds that read no byte behind the
-- last but one of the slot; the size is below 2 ^ 32, the decoder keeps its laws, reads of the flash give
-- bytes, and the rounds and the fuel are enough for the size.
pub delta_check_and_apply-cut :
    {p : Platform} (l : FlashLaws p) {size : ℕ} (w : WorkingLaws l size) (r : ReadLaws p)
    (lay : Layout) (laid : IsLaidOut lay size) (h : Decoder) (f : FiniteOutput h)
    (g : InflateLaws h) (rounds fuel : ℕ) (memory : ApplyPatch h.State) (flash : FlashMem p.Device)
    (compression n : ℕ) (segments : List Segment) (z missing : List ℕ)
    → let peek = l.peek flash.device in
      let source = λ (offset : ℕ). peek (lay.primary_offset + offset) in
      let image = target source segments 0 in
      let header = bytes_of peek lay.storage_offset 8 in
      word_at header 0 ≡ new_patch
      → word_at header 4 ≡ n
      → bytes_of peek (lay.storage_offset + header_size) n ++ missing
        ≡ patch_bytes compression (length image) z
      → 5 ≤ n
      → missing ≢ []
      → header_size + n ≤ lay.storage_size
      → compression < 16
      → inflate g g.initial z ≡ stream segments
      → IsNeeded g g.initial z
      → Fits source (lay.primary_size - 1) segments 0
      → 0 < length image
      → length image ≤ 2 * page_size
      → n < word
      → n ≤ 512 * rounds
      → 2 * (f.gain * n) + 2 ≤ fuel
      → (flash' : FlashMem p.Device) × (delta_check_and_apply p h lay rounds fuel memory flash
          ≡ some (flash', returned (neg not_enough_patch_data)))
        × ((a : ℕ) → a < lay.secondary_offset → l.peek flash'.device a ≡ peek a)
        × ((a : ℕ)
            → lay.storage_offset ≤ a
            → l.peek flash'.device a
              ≡ l.peek (p.flash_write flash.device lay.storage_offset zeros).0 a)
        × (rest : List ℕ) × (bytes_of
                (l.peek flash'.device)
                lay.secondary_offset
                (flash'.to_current - lay.secondary_offset)
              ++ rest
            ≡ image)
delta_check_and_apply-cut {p} l w r lay laid h f g rounds fuel memory flash compression n segments z
      missing mark stated stored holds more room low inflates needed fits some_image two_pages small
      chunks enough =
    let before = l.peek flash.device in
    let image = target (λ (offset : ℕ). before (lay.primary_offset + offset)) segments 0 in
    let stop = lay.storage_offset + header_size + n in
    let some_room : header_size ≤ lay.storage_size = omega arith in
    let stop_fits : stop ≤ lay.storage_offset + lay.storage_size = omega arith in
    let flash1 = taken l w lay laid flash in
    let storage = l.peek flash1.device in
    let flash2 = (delta_init p lay flash1).0 in
    let header = header_taken l w lay laid flash 0 mark some_room in
    let (none_written, at, left) = begun_images l w lay laid flash before storage n some_room in
    let ready =
      init-IsReady l w lay laid flash1 before stop
        (λ a ha. taken_kept l w lay laid flash a some_room ha) stop_fits in
    let fits_slot : length (written l w lay laid before storage stop flash2 ++ image)
        ≤ 2 * page_size =
      rw none_written two_pages in
    let measured : length (patch_left l w lay laid before storage stop flash2) ≡ n =
      rw left (length-bytes_of before (lay.storage_offset + header_size) n) in
    let run =
      apply_patch_callbacks-cut h f g (delta_callbacks p)
        (delta-ImageLaws l w lay laid before storage stop) rounds fuel memory flash2 compression 0
        segments z missing (rw left stored)
        (rw measured (omega (arith, length-patch_header compression (length image)))) more ready at
        low inflates needed fits some_image (omega arith) fits_slot (rw measured small)
        (rw measured chunks) (rw measured enough) (patch_read-size p h lay r) in
    let t = run.0 in
    (
      t.arg,
      update_ends l w lay laid h rounds fuel memory flash flash1
            (length (patch_left l w lay laid before storage stop flash2)) t
            (header ∙ ap (λ (m : ℕ). (flash1, pos 0, m)) (stated ∙ sym measured))
            (rw measured (omega arith)) (init_works l w lay laid flash1) run.1
          ∙ ap (λ u. some u) (upgrade-error p t.arg t.res not_enough_patch_data run.2),
      run.3.source_kept,
      run.3.storage_kept,
      run.4,
      run.5 ∙ ap (λ ys. ys ++ image) none_written,
    )
