-- ===== src/Delta/Update/Images.antt =====
-- The flash callbacks of app/src/delta/delta.c as the images that the patch applier works on: the source
-- is the primary slot, the patch lies behind its header in the storage partition, and the target goes to
-- the first two pages of the secondary slot.
use delta_updates_for_embedd.Common.{
  ℕ, ◌+◌, ◌-◌, ◌*◌, ◌≤◌, ◌<◌, arith, ◌≡◌, refl, ap, ◌∙◌, sym, inl, inr, List, ◌++◌, All, length,
  take, drop, ℤ, pos, ◌+ℤ◌,
}
use delta_updates_for_embedd.Delta.Codes.{page_size}
use delta_updates_for_embedd.Delta.Platform.{Platform, Layout, FlashLaws, WorkingLaws}
use delta_updates_for_embedd.Delta.Flash.{
  FlashMem, delta_flash_write, delta_flash_from_read, delta_flash_patch_read, delta_flash_seek,
}
use delta_updates_for_embedd.Delta.Flash.Bytes.{
  length-bytes_of, bytes_of_same, bytes_of_shift, bytes_of_extended, take-bytes_of, drop-bytes_of,
}
use delta_updates_for_embedd.Delta.Flash.TwoPages.{
  write_works_here, two_pages_stored, two_pages_kept, two_pages_moved, two_pages-IsAhead,
}
use delta_updates_for_embedd.Delta.Update.{delta_callbacks}
use delta_updates_for_embedd.Detools.Format.{bytes_of}
use delta_updates_for_embedd.Detools.Format.Images.{ImageLaws}
use delta_updates_for_embedd.Delta.Update.Ready.{
  IsLaidOut, IsReady, source, position, written, patch_left, source_read, source_seek, patch_read,
  write_leaves, moved-IsReady,
}

module _ {p : Platform} (l : FlashLaws p) {size : ℕ} (w : WorkingLaws l size) (lay : Layout)
    (laid : IsLaidOut lay size) (before storage : ℕ → ℕ) (stop : ℕ) where
  open p use {Device}
  open l use {peek}

  -- The four callbacks, each on a flash that is ready.
  pub from_read_images :
      (flash : FlashMem Device) (offset n : ℕ)
      → IsReady l w lay laid before storage stop flash
      → position l w lay laid before storage stop flash ≡ pos offset
      → 0 < n
      → offset + n ≤ lay.primary_size - 1
      → let (flash', res, bytes) = delta_flash_from_read p flash n in
        (res ≡ pos 0)
        × (bytes ≡ bytes_of (source l w lay laid before storage stop) offset n)
        × (position l w lay laid before storage stop flash' ≡ pos (offset + n))
        × (written l w lay laid before storage stop flash'
            ≡ written l w lay laid before storage stop flash)
        × (patch_left l w lay laid before storage stop flash'
            ≡ patch_left l w lay laid before storage stop flash)
        × IsReady l w lay laid before storage stop flash'
  from_read_images flash offset n r e h1 h2 =
      let (ok, bytes, same) =
        source_read l w lay laid before storage stop flash offset n r e h1 h2 in
      let read : bytes_of (peek flash.device) (lay.primary_offset + offset) n
          ≡ bytes_of (source l w lay laid before storage stop) offset n =
        bytes_of_shift (peek flash.device) (source l w lay laid before storage stop)
          (lay.primary_offset + offset) offset n
          (λ k hk.
            let a : lay.primary_offset + offset + k ≡ lay.primary_offset + (offset + k) =
              omega arith in
            r.source_kept (lay.primary_offset + offset + k) (omega (arith, laid.primary_first))
            ∙ ap before a) in
      rw same (
        ok,
        bytes ∙ read,
        ground arith,
        refl,
        refl,
        moved-IsReady l w lay laid before storage stop flash _ _ r r.patch_start,
      )

  pub seek_images :
      (flash : FlashMem Device) (step : ℤ) (offset : ℕ)
      → IsReady l w lay laid before storage stop flash
      → position l w lay laid before storage stop flash +ℤ step ≡ pos offset
      → offset ≤ lay.primary_size - 1
      → let (flash', res) = delta_flash_seek p flash step in
        (res ≡ pos 0)
        × (position l w lay laid before storage stop flash' ≡ pos offset)
        × (written l w lay laid before storage stop flash'
            ≡ written l w lay laid before storage stop flash)
        × (patch_left l w lay laid before storage stop flash'
            ≡ patch_left l w lay laid before storage stop flash)
        × IsReady l w lay laid before storage stop flash'
  seek_images flash step offset r e h =
      let (ok, same) = source_seek l w lay laid before storage stop flash step offset r e h in
      rw same (
        ok,
        ground arith,
        refl,
        refl,
        moved-IsReady l w lay laid before storage stop flash _ _ r r.patch_start,
      )

  pub patch_read_images :
      (flash : FlashMem Device) (n : ℕ)
      → IsReady l w lay laid before storage stop flash
      → 0 < n
      → n ≤ length (patch_left l w lay laid before storage stop flash)
      → let (flash', res, bytes) = delta_flash_patch_read p flash n in
        (res ≡ pos 0)
        × (bytes ≡ take n (patch_left l w lay laid before storage stop flash))
        × (position l w lay laid before storage stop flash'
            ≡ position l w lay laid before storage stop flash)
        × (written l w lay laid before storage stop flash'
            ≡ written l w lay laid before storage stop flash)
        × (patch_left l w lay laid before storage stop flash'
            ≡ drop n (patch_left l w lay laid before storage stop flash))
        × IsReady l w lay laid before storage stop flash'
  patch_read_images flash n r h1 h2 =
      let f = peek flash.device in
      let left = stop - flash.patch_current in
      let within : n ≤ left = omega (arith, length-bytes_of f flash.patch_current left) in
      let (ok, bytes, same) = patch_read l w lay laid before storage stop flash n r h1 within in
      let rest : left - n ≡ stop - (flash.patch_current + n) = omega arith in
      rw same (
        ok,
        bytes ∙ sym (take-bytes_of f flash.patch_current n left within),
        refl,
        refl,
        ap (bytes_of f (flash.patch_current + n)) (sym rest)
            ∙ sym (drop-bytes_of f flash.patch_current n left within),
        moved-IsReady l w lay laid before storage stop flash _ (flash.patch_current + n) r
            (omega (arith, r.patch_start)),
      )

  -- On a flash whose driver works, with the partitions laid out one behind the other below 2 ^ 31, a
  -- secondary slot that starts at a page and has three pages or more, and the flash ready for a write:
  -- a write of 128 bytes at most that ends in the first two pages of the secondary slot succeeds,
  -- whatever the sizes of the writes before it. Behind what is written there the flash holds the bytes,
  -- the position in the source and the patch that is still to be read stay as they are, and the flash is
  -- ready for the next write.
  pub to_write_images :
      (flash : FlashMem Device) (bytes : List ℕ)
      → IsReady l w lay laid before storage stop flash
      → All (λ b. b < 256) bytes
      → length bytes ≤ 128
      → length (written l w lay laid before storage stop flash) + length bytes ≤ 2 * page_size
      → let (flash', res) = delta_flash_write p flash bytes in
        (res ≡ pos 0)
        × (position l w lay laid before storage stop flash'
            ≡ position l w lay laid before storage stop flash)
        × (written l w lay laid before storage stop flash'
            ≡ written l w lay laid before storage stop flash ++ bytes)
        × (patch_left l w lay laid before storage stop flash'
            ≡ patch_left l w lay laid before storage stop flash)
        × IsReady l w lay laid before storage stop flash'
  to_write_images flash bytes r all short h =
      let start = lay.secondary_offset in
      let flash' = (delta_flash_write p flash bytes).0 in
      let f = peek flash.device in
      let f' = peek flash'.device in
      let there = flash.to_current - start in
      let in_flash : start + 3 * page_size ≤ size =
        omega (arith, laid.room, laid.storage_last, laid.in_flash) in
      let in_slot : start + 2 * page_size < flash.to_end = rw r.to_end (omega (arith, laid.room)) in
      let page : length bytes ≤ page_size = omega arith in
      let fits : flash.to_current + length bytes ≤ start + 2 * page_size =
        omega (arith, r.to_start, length-bytes_of f start there) in
      let (from, from_end, to_end, patch, patch_end) =
        write_leaves l w lay laid before storage stop flash bytes in
      let moved =
        two_pages_moved l w start flash bytes r.ahead laid.aligned in_flash in_slot all page fits in
      let kept =
        two_pages_kept l w start flash bytes r.ahead laid.aligned in_flash in_slot all page fits in
      let stored =
        two_pages_stored l w start flash bytes r.ahead laid.aligned in_flash in_slot all page
          fits in
      (
        write_works_here l w start flash bytes r.ahead laid.aligned in_flash in_slot all page fits,
        rw from refl,
        bytes_of_extended f f' start flash.to_current flash'.to_current bytes r.to_start moved
            (λ a ha. kept a (inl ha)) stored,
        rw patch (
            bytes_of_same f' f flash.patch_current (stop - flash.patch_current) (λ a h1 h2.
              kept a (inr (omega (arith, laid.room, laid.storage_last, r.patch_start))))),
        record {
          source_kept = λ a ha. kept a (inl (omega (arith, r.to_start))) ∙ r.source_kept a ha;
          storage_kept = λ a ha.
              kept a (inr (omega (arith, laid.room, laid.storage_last))) ∙ r.storage_kept a ha;
          from_end = from_end ∙ r.from_end;
          to_end = to_end ∙ r.to_end;
          patch_end = patch_end ∙ r.patch_end;
          to_start = rw moved (omega (arith, r.to_start));
          patch_start = rw patch r.patch_start;
          patch_stop = r.patch_stop;
          ahead =
              two_pages-IsAhead l w start flash bytes r.ahead laid.aligned in_flash in_slot all page
                fits;
        },
      )

  -- The laws of the patch applier.
  abbrev pub delta-ImageLaws : ImageLaws (delta_callbacks p)
  delta-ImageLaws = record {
    source = source l w lay laid before storage stop;
    limit = lay.primary_size - 1;
    capacity = 2 * page_size;
    position = position l w lay laid before storage stop;
    written = written l w lay laid before storage stop;
    patch_left = patch_left l w lay laid before storage stop;
    IsSound = IsReady l w lay laid before storage stop;
    read_ok = from_read_images;
    seek_ok = seek_images;
    write_ok = to_write_images;
    patch_ok = patch_read_images;
  }
