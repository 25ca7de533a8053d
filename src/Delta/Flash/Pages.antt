-- ===== src/Delta/Flash/Pages.antt =====
-- `delta_flash_write` and the pages of the flash: what it stores where every write ends inside a
-- page or at its end, and what it destroys where one does not.
use delta_updates_for_embedd.Common.{
  ℕ, ◌+◌, ◌-◌, ◌%◌, ◌≤◌, ◌<◌, arith, ◌≡◌, List, length, get_or, pos, neg, word,
}
use delta_updates_for_embedd.Delta.Codes.{page_size, slot1_out_of_memory}
use delta_updates_for_embedd.Delta.Platform.{Platform, FlashLaws, erased_byte}
use delta_updates_for_embedd.Delta.Flash.{FlashMem, page_start, erase_page, delta_flash_write}

-- The rest of the page that `to_current` stands in is erased, and `write_buf` counts the bytes of
-- the page that are written.
pub record IsErasedAhead {p : Platform} (l : FlashLaws p) (flash : FlashMem p.Device) : Type 0 where
  pub counted : flash.write_buf ≡ flash.to_current % page_size
  pub erased :
      (a : ℕ)
      → flash.to_current ≤ a
      → a < flash.to_current - flash.to_current % page_size + page_size
      → l.peek flash.device a ≡ erased_byte

module _ (p : Platform) (l : FlashLaws p) (flash : FlashMem p.Device) (buf : List ℕ) where
  open p use {Device, flash_erase, flash_write}
  open l use {peek}

  abbrev pub flash' : FlashMem Device
  flash' = (delta_flash_write p flash buf).0

  -- A write that starts in an erased rest of a page and does not leave the page.
  module _ (ahead : IsErasedAhead l flash)
      (fits : flash.to_current % page_size + length buf ≤ page_size)
      (ok : (delta_flash_write p flash buf).1 ≡ pos 0) where
    pub write_stores :
        (a : ℕ)
        → flash.to_current ≤ a
        → a < flash.to_current + length buf
        → peek flash'.device a ≡ get_or buf (a - flash.to_current) 0
    unfolding delta_flash_write
    write_stores a h1 h2 =
        let e = flash_erase flash.device (page_start p (flash.to_current + length buf)) page_size in
        ground (
          arith,
          ahead.counted,
          ahead.erased a,
          l.write_in flash.device flash.to_current buf a,
          l.write_in e.0 flash.to_current buf a,
          l.erase_out flash.device (page_start p (flash.to_current + length buf)) page_size a,
        )

    pub write_keeps : (a : ℕ) → a < flash.to_current → peek flash'.device a ≡ peek flash.device a
    unfolding delta_flash_write
    write_keeps a h1 =
        let page = page_start p (flash.to_current + length buf) in
        let e = flash_erase flash.device page page_size in
        ground (
          arith,
          ahead.counted,
          l.write_out flash.device flash.to_current buf a,
          l.write_out e.0 flash.to_current buf a,
          l.erase_out flash.device page page_size a,
        )

    pub write_moves : flash'.to_current ≡ flash.to_current + length buf
    unfolding delta_flash_write
    write_moves = ground arith

    pub write_counts : flash'.write_buf ≡ flash'.to_current % page_size
    unfolding delta_flash_write
    write_counts = ground (arith, ahead.counted)

    pub write_ahead :
        (a : ℕ)
        → flash'.to_current ≤ a
        → a < flash'.to_current - flash'.to_current % page_size + page_size
        → peek flash'.device a ≡ erased_byte
    unfolding delta_flash_write
    write_ahead a h1 h2 =
        let page = page_start p (flash.to_current + length buf) in
        let e = flash_erase flash.device page page_size in
        ground (
          arith,
          ahead.counted,
          ahead.erased a,
          l.write_out flash.device flash.to_current buf a,
          l.write_out e.0 flash.to_current buf a,
          l.erase_in flash.device page page_size a,
        )

  -- A write that fills the slot up to its end, which is the end of a page, where the count reaches a
  -- page, the erase and the write succeed: it is refused as out of memory, but the page behind the slot,
  -- which belongs to the next partition, is erased.
  pub page_behind_slot_erased :
      flash.to_current + length buf ≡ flash.to_end
      → flash.to_end % page_size ≡ 0
      → flash.write_buf + length buf < word
      → page_size ≤ flash.write_buf + length buf
      → (flash_erase flash.device flash.to_end page_size).1 ≡ pos 0
      → (flash_write (flash_erase flash.device flash.to_end page_size).0 flash.to_current buf).1
        ≡ pos 0
      → ((delta_flash_write p flash buf).1 ≡ neg slot1_out_of_memory)
        × ((a : ℕ)
            → flash.to_end ≤ a
            → a < flash.to_end + page_size
            → peek flash'.device a ≡ erased_byte)
  unfolding delta_flash_write erase_page
  page_behind_slot_erased e aligned h1 h2 erased written =
      let d = (flash_erase flash.device flash.to_end page_size).0 in
      let page : page_start p flash.to_end ≡ flash.to_end = omega arith in
      rw (e, page)
        (
          ground arith,
          λ a h3 h4. ground (
            arith,
            l.write_out d flash.to_current buf a,
            l.erase_in flash.device flash.to_end page_size a,
          ),
        )
