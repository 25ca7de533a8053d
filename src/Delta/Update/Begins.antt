-- ===== src/Delta/Update/Begins.antt =====
-- The update of app/src/delta/delta.c up to the patch applier: the header is taken and the
-- flash is made ready.
use delta_updates_for_embedd.Common.{
  ℕ, ◌+◌, ◌-◌, ◌≤◌, ◌<◌, arith, ◌≡◌, refl, ap, ◌∙◌, ◌⊎◌, inl, inr, List, [], ◌∷◌, pos,
}
use delta_updates_for_embedd.Detools.Format.{bytes_of}
use delta_updates_for_embedd.Delta.Codes.{page_size, header_size}
use delta_updates_for_embedd.Delta.Platform.{Platform, Layout, FlashLaws, WorkingLaws}
use delta_updates_for_embedd.Delta.Flash.{
  FlashMem, page_start, erase_page, delta_init_flash_mem, delta_init,
}
use delta_updates_for_embedd.Delta.Flash.Bytes.{bytes_of_same}
use delta_updates_for_embedd.Delta.Update.{new_patch, word_at, delta_read_patch_header}
use delta_updates_for_embedd.Delta.Update.Ready.{IsLaidOut, IsReady, position, written, patch_left}

-- What the mark is cleared with.
abbrev pub zeros : List ℕ
zeros = 0 ∷ 0 ∷ 0 ∷ 0 ∷ []

module _ {p : Platform} (l : FlashLaws p) {size : ℕ} (w : WorkingLaws l size) (lay : Layout)
    (laid : IsLaidOut lay size) where
  open p use {Device, flash_read, flash_write, flash_erase}
  open l use {peek}

  -- What the header leaves: the mark is cleared, and nothing else has changed.
  pub header_taken :
      (flash : FlashMem Device) (old : ℕ)
      → word_at (bytes_of (peek flash.device) lay.storage_offset 8) 0 ≡ new_patch
      → header_size ≤ lay.storage_size
      → let cleared = (flash_write flash.device lay.storage_offset zeros).0 in
        delta_read_patch_header p lay flash old ≡ (
          record flash { device = cleared },
          pos 0,
          word_at (bytes_of (peek flash.device) lay.storage_offset 8) 4,
        )
  unfolding delta_read_patch_header
  header_taken flash old e h =
      let (ok, bytes) =
        w.read_works flash.device lay.storage_offset 8 (omega (arith, laid.in_flash)) in
      let ok' =
        w.write_works flash.device lay.storage_offset zeros
          (omega arith, (omega arith, (omega arith, (omega arith, tt))))
          (omega (arith, laid.in_flash)) in
      rw (ok, bytes, e, ok') refl

  -- What the initialisation leaves: the first page of the secondary slot is erased, and the flash is
  -- ready.
  abbrev pub erased_slot : Device → Device
  erased_slot d = (flash_erase d lay.secondary_offset page_size).0

  pub slot_erases : (d : Device) → (flash_erase d lay.secondary_offset page_size).1 ≡ pos 0
  slot_erases d =
      w.erase_works d lay.secondary_offset laid.aligned
        (omega (arith, laid.room, laid.storage_last, laid.in_flash))

  pub initialised :
      (flash : FlashMem Device)
      → delta_init p lay flash
        ≡ (record (delta_init_flash_mem p lay flash) { device = erased_slot flash.device }, pos 0)
  unfolding delta_init delta_init_flash_mem erase_page
  initialised flash =
      let e : page_start p lay.secondary_offset ≡ lay.secondary_offset =
        omega (arith, laid.aligned) in
      rw (e, slot_erases flash.device) refl

  pub slot_kept :
      (d : Device) (a : ℕ)
      → (a < lay.secondary_offset) ⊎ (lay.storage_offset ≤ a)
      → peek (erased_slot d) a ≡ peek d a
  slot_kept d a h =
      ground (arith, laid, slot_erases d, l.erase_out d lay.secondary_offset page_size a)

  pub init-IsReady :
      (flash : FlashMem Device) (before : ℕ → ℕ) (stop : ℕ)
      → ((a : ℕ) → a < lay.secondary_offset → peek flash.device a ≡ before a)
      → stop ≤ lay.storage_offset + lay.storage_size
      → IsReady l w lay laid before (peek flash.device) stop (delta_init p lay flash).0
  unfolding delta_init_flash_mem
  init-IsReady flash before stop same h = rw (initialised flash) record {
    source_kept = λ a ha. slot_kept flash.device a (inl ha) ∙ same a ha;
    storage_kept = λ a ha. slot_kept flash.device a (inr ha);
    from_end = refl;
    to_end = refl;
    patch_end = refl;
    to_start = omega arith;
    patch_start = omega arith;
    patch_stop = h;
    ahead = record {
      stop = lay.secondary_offset + page_size;
      pages = inl (refl, omega arith, omega arith);
      erased = λ a h1 h2.
          l.erase_in flash.device lay.secondary_offset page_size a (slot_erases flash.device) h1 h2;
    };
  }

  pub init_works : (flash : FlashMem Device) → (delta_init p lay flash).1 ≡ pos 0
  init_works flash = rw (initialised flash) refl

  -- The flash behind the header and the initialisation: outside of the mark and of the secondary slot
  -- it is as it was.
  pub begun_kept :
      (d : Device) (a : ℕ)
      → header_size ≤ lay.storage_size
      → (a < lay.secondary_offset) ⊎ (lay.storage_offset + header_size ≤ a)
      → peek (erased_slot (flash_write d lay.storage_offset zeros).0) a ≡ peek d a
  begun_kept d a room h = ground (
    arith,
    laid,
    slot_kept (flash_write d lay.storage_offset zeros).0 a,
    w.write_works d lay.storage_offset zeros,
    l.write_out d lay.storage_offset zeros a,
  )

  -- The flash behind the header.
  abbrev pub taken : FlashMem Device → FlashMem Device
  taken flash = record flash { device = (flash_write flash.device lay.storage_offset zeros).0 }

  pub taken_kept :
      (flash : FlashMem Device) (a : ℕ)
      → header_size ≤ lay.storage_size
      → a < lay.secondary_offset
      → peek (taken flash).device a ≡ peek flash.device a
  taken_kept flash a room h = ground (
    arith,
    laid,
    w.write_works flash.device lay.storage_offset zeros,
    l.write_out flash.device lay.storage_offset zeros a,
  )

  -- Behind the initialisation, nothing is written, the source stands at its start, and the patch of
  -- `n` bytes is still to be read.
  pub begun_images :
      (flash : FlashMem Device) (before storage : ℕ → ℕ) (n : ℕ)
      → header_size ≤ lay.storage_size
      → let stop = lay.storage_offset + header_size + n in
        let flash' = (delta_init p lay (taken flash)).0 in
        (written l w lay laid before storage stop flash' ≡ [])
        × (position l w lay laid before storage stop flash' ≡ pos 0)
        × (patch_left l w lay laid before storage stop flash'
            ≡ bytes_of (peek flash.device) (lay.storage_offset + header_size) n)
  unfolding delta_init_flash_mem
  begun_images flash before storage n room =
      let start = lay.storage_offset + header_size in
      let d = erased_slot (taken flash).device in
      let nothing : lay.secondary_offset - lay.secondary_offset ≡ 0 = omega arith in
      let left : start + n - start ≡ n = omega arith in
      rw (initialised (taken flash)) (
        ap (bytes_of (peek d) lay.secondary_offset) nothing,
        ground arith,
        ap (bytes_of (peek d) start) left
            ∙ bytes_of_same (peek d) (peek flash.device) start n
                (λ a h1 h2. begun_kept flash.device a room (inr h1)),
      )
