-- ===== src/Delta/Flash/TwoPages.antt =====
-- `delta_flash_write` of app/src/delta/delta.c on the first two pages of its target, with writes of any
-- sizes.
use delta_updates_for_embedd.Common.{
  ℕ, ◌+◌, ◌-◌, ◌*◌, ◌%◌, ◌≤◌, ◌<◌, arith, ◌≡◌, refl, ◌⊎◌, inl, inr, List, All, length, get_or, pos,
}
use delta_updates_for_embedd.Delta.Codes.{page_size}
use delta_updates_for_embedd.Delta.Platform.{Platform, FlashLaws, WorkingLaws, erased_byte}
use delta_updates_for_embedd.Delta.Flash.{FlashMem, page_start, delta_flash_write}

module _ {p : Platform} (l : FlashLaws p) {size : ℕ} (w : WorkingLaws l size) (start : ℕ) where
  open p use {Device, flash_erase, flash_write}
  open l use {peek}

  -- The rest of the first page is erased, and `write_buf` counts what is written; or the rest of the
  -- second page is, and `write_buf` counts no more than what is written in it.
  pub record IsAhead (flash : FlashMem Device) : Type 0 where
    pub stop : ℕ
    pub pages :
        ((stop ≡ start + page_size)
          × (flash.to_current ≡ start + flash.write_buf)
          × (flash.write_buf < page_size))
        ⊎ ((stop ≡ start + 2 * page_size)
            × (start + page_size + flash.write_buf ≤ flash.to_current)
            × (flash.to_current ≤ stop))
    pub erased : (a : ℕ) → flash.to_current ≤ a → a < stop → peek flash.device a ≡ erased_byte

  module _ (flash : FlashMem Device) (bytes : List ℕ) (ahead : IsAhead flash)
      (aligned : start % page_size ≡ 0) (in_flash : start + 3 * page_size ≤ size)
      (in_slot : start + 2 * page_size < flash.to_end) (all : All (λ b. b < 256) bytes)
      (short : length bytes ≤ page_size)
      (fits : flash.to_current + length bytes ≤ start + 2 * page_size) where
    abbrev n : ℕ
    n = length bytes

    -- A page that the write erases is the one behind the erased rest.
    erases : page_size ≤ flash.write_buf + n → page_start p (flash.to_current + n) ≡ ahead.stop
    erases h = ground (arith, ahead.pages)

    stop_fits : ahead.stop + page_size ≤ size
    stop_fits = ground (arith, ahead.pages)

    pub write_works_here : (delta_flash_write p flash bytes).1 ≡ pos 0
    unfolding delta_flash_write
    write_works_here =
        let e = flash_erase flash.device (page_start p (flash.to_current + n)) page_size in
        ground (
          arith,
          ahead.pages,
          w.erase_works flash.device (page_start p (flash.to_current + n)),
          w.write_works flash.device flash.to_current bytes,
          w.write_works e.0 flash.to_current bytes,
        )

    abbrev pub after_write : FlashMem Device
    after_write = (delta_flash_write p flash bytes).0

    pub two_pages_stored :
        (a : ℕ)
        → flash.to_current ≤ a
        → a < flash.to_current + n
        → peek after_write.device a ≡ get_or bytes (a - flash.to_current) 0
    unfolding delta_flash_write
    two_pages_stored a h1 h2 =
        let page = page_start p (flash.to_current + n) in
        let e = flash_erase flash.device page page_size in
        ground (
          arith,
          write_works_here,
          ahead.pages,
          ahead.erased a,
          l.erase_in flash.device page page_size a,
          l.erase_out flash.device page page_size a,
          l.write_in flash.device flash.to_current bytes a,
          l.write_in e.0 flash.to_current bytes a,
        )

    pub two_pages_kept :
        (a : ℕ)
        → (a < flash.to_current) ⊎ (start + 3 * page_size ≤ a)
        → peek after_write.device a ≡ peek flash.device a
    unfolding delta_flash_write
    two_pages_kept a h =
        let page = page_start p (flash.to_current + n) in
        let e = flash_erase flash.device page page_size in
        ground (
          arith,
          write_works_here,
          ahead.pages,
          l.erase_out flash.device page page_size a,
          l.write_out flash.device flash.to_current bytes a,
          l.write_out e.0 flash.to_current bytes a,
        )

    pub two_pages_moved : after_write.to_current ≡ flash.to_current + n
    unfolding delta_flash_write
    two_pages_moved = ground (arith, write_works_here)

    two_pages_erased :
        (a stop : ℕ)
        → flash.to_current + n ≤ a
        → a < stop
        → (stop ≡ ahead.stop)
          ⊎ ((page_size ≤ flash.write_buf + n) × (stop ≡ ahead.stop + page_size))
        → peek after_write.device a ≡ erased_byte
    unfolding delta_flash_write
    two_pages_erased a stop h1 h2 h =
        let page = page_start p (flash.to_current + n) in
        let e = flash_erase flash.device page page_size in
        ground (
          arith,
          write_works_here,
          erases,
          ahead.erased a,
          l.erase_in flash.device page page_size a,
          l.erase_out flash.device page page_size a,
          l.write_out flash.device flash.to_current bytes a,
          l.write_out e.0 flash.to_current bytes a,
        )

    two_pages_count :
        ((page_size ≤ flash.write_buf + n) × (after_write.write_buf ≡ 0))
        ⊎ ((flash.write_buf + n < page_size) × (after_write.write_buf ≡ flash.write_buf + n))
    unfolding delta_flash_write
    two_pages_count = ground (arith, write_works_here, ahead.pages)

    pub two_pages-IsAhead : IsAhead after_write
    two_pages-IsAhead = elim two_pages_count [
      | inr (h, e) ↦ record {
        stop = ahead.stop;
        pages = ground (arith, ahead.pages, two_pages_moved);
        erased = λ a h1 h2. two_pages_erased a ahead.stop (rw two_pages_moved at h1) h2 (inl refl);
      }
      | inl (h, e) ↦ record {
        stop = start + 2 * page_size;
        pages = ground (arith, ahead.pages, two_pages_moved);
        erased = λ a h1 h2.
            two_pages_erased a (start + 2 * page_size) (rw two_pages_moved at h1) h2
              (ground (arith, ahead.pages));
      }
    ]
