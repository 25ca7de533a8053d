-- ===== src/Delta/Update/Ready.antt =====
-- The flash of app/src/delta/delta.c as it is ready for the patch applier: what holds of it, the images
-- in it, and the callbacks that read them.
use delta_updates_for_embedd.Common.{
  ℕ, ◌+◌, ◌-◌, ◌*◌, ◌%◌, ◌^◌, ◌≤◌, ◌<◌, arith, ◌≡◌, List, ℤ, pos, pos_part, neg_part, sub_ℕ, ◌+ℤ◌,
  add_off_fits, add_off_pos,
}
use delta_updates_for_embedd.Delta.Codes.{page_size, header_size}
use delta_updates_for_embedd.Delta.Platform.{Platform, Layout, FlashLaws, WorkingLaws}
use delta_updates_for_embedd.Delta.Flash.{
  FlashMem, erase_page, delta_flash_write, delta_flash_from_read, delta_flash_patch_read,
  delta_flash_seek,
}
use delta_updates_for_embedd.Delta.Flash.TwoPages.{IsAhead}
use delta_updates_for_embedd.Detools.Format.{bytes_of}

-- The partitions lie one behind the other in a flash of `size` bytes, below 2 ^ 31; the secondary slot
-- starts at a page and has three pages or more.
pub record IsLaidOut (lay : Layout) (size : ℕ) : Type 0 where
  pub aligned : lay.secondary_offset % page_size ≡ 0
  pub primary_first : lay.primary_offset + lay.primary_size ≤ lay.secondary_offset
  pub some_source : 0 < lay.primary_size
  pub room : 3 * page_size ≤ lay.secondary_size
  pub storage_last : lay.secondary_offset + lay.secondary_size ≤ lay.storage_offset
  pub in_flash : lay.storage_offset + lay.storage_size ≤ size
  pub in_range : lay.storage_offset + lay.storage_size < 2 ^ 31

module _ {p : Platform} (l : FlashLaws p) {size : ℕ} (w : WorkingLaws l size) (lay : Layout)
    (laid : IsLaidOut lay size) (before storage : ℕ → ℕ) (stop : ℕ) where
  open p use {Device}
  open l use {peek}

  abbrev pub two_pages : ℕ
  two_pages = 2 * page_size

  -- What the callbacks rely on: the flash in front of the secondary slot is as it was before, the
  -- storage partition and what is behind it as it was at the start of the patch, the ends
  -- are those of the partitions, the patch ends at `stop`, and the slot is ready for the next write.
  pub record IsReady (flash : FlashMem Device) : Type 0 where
    pub source_kept : (a : ℕ) → a < lay.secondary_offset → peek flash.device a ≡ before a
    pub storage_kept : (a : ℕ) → lay.storage_offset ≤ a → peek flash.device a ≡ storage a
    pub from_end : flash.from_end ≡ pos (lay.primary_offset + lay.primary_size)
    pub to_end : flash.to_end ≡ lay.secondary_offset + lay.secondary_size
    pub patch_end : flash.patch_end ≡ lay.storage_offset + header_size + lay.storage_size
    pub to_start : lay.secondary_offset ≤ flash.to_current
    pub patch_start : lay.storage_offset + header_size ≤ flash.patch_current
    pub patch_stop : stop ≤ lay.storage_offset + lay.storage_size
    pub ahead : IsAhead l w lay.secondary_offset flash

  abbrev pub source : ℕ → ℕ
  source offset = before (lay.primary_offset + offset)

  abbrev pub position : FlashMem Device → ℤ
  position flash =
      sub_ℕ (pos_part flash.from_current) (neg_part flash.from_current + lay.primary_offset)

  abbrev pub written : FlashMem Device → List ℕ
  written flash =
      bytes_of (peek flash.device) lay.secondary_offset (flash.to_current - lay.secondary_offset)

  abbrev pub patch_left : FlashMem Device → List ℕ
  patch_left flash = bytes_of (peek flash.device) flash.patch_current (stop - flash.patch_current)

  pub at_position :
      (z : ℤ) (offset : ℕ)
      → sub_ℕ (pos_part z) (neg_part z + lay.primary_offset) ≡ pos offset
      → z ≡ pos (lay.primary_offset + offset)
  at_position z offset e = ground arith

  at_step :
      (z step : ℤ) (offset : ℕ)
      → sub_ℕ (pos_part z) (neg_part z + lay.primary_offset) +ℤ step ≡ pos offset
      → z +ℤ step ≡ pos (lay.primary_offset + offset)
  unfolding ◌+ℤ◌
  at_step z step offset e = ground arith

  pub source_read :
      (flash : FlashMem Device) (offset n : ℕ)
      → IsReady flash
      → position flash ≡ pos offset
      → 0 < n
      → offset + n ≤ lay.primary_size - 1
      → let t = delta_flash_from_read p flash n in
        (t.1 ≡ pos 0)
        × (t.2 ≡ bytes_of (peek flash.device) (lay.primary_offset + offset) n)
        × (t.0 ≡ record flash { from_current = pos (lay.primary_offset + offset + n) })
  unfolding delta_flash_from_read
  source_read flash offset n r e h1 h2 = ground (
    arith,
    r,
    laid,
    at_position flash.from_current offset,
    add_off_pos (lay.primary_offset + offset) n,
    w.read_works flash.device (lay.primary_offset + offset) n,
  )

  pub source_seek :
      (flash : FlashMem Device) (step : ℤ) (offset : ℕ)
      → IsReady flash
      → position flash +ℤ step ≡ pos offset
      → offset ≤ lay.primary_size - 1
      → let t = delta_flash_seek p flash step in
        (t.1 ≡ pos 0) × (t.0 ≡ record flash { from_current = pos (lay.primary_offset + offset) })
  unfolding delta_flash_seek
  source_seek flash step offset r e h =
      let at = lay.primary_offset + offset in
      ground (
        arith,
        r,
        laid,
        at_step flash.from_current step offset e,
        add_off_fits flash.from_current step at,
      )

  pub patch_read :
      (flash : FlashMem Device) (n : ℕ)
      → IsReady flash
      → 0 < n
      → n ≤ stop - flash.patch_current
      → let t = delta_flash_patch_read p flash n in
        (t.1 ≡ pos 0)
        × (t.2 ≡ bytes_of (peek flash.device) flash.patch_current n)
        × (t.0 ≡ record flash { patch_current = flash.patch_current + n })
  unfolding delta_flash_patch_read
  patch_read flash n r h1 h2 =
      ground (arith, r, laid, w.read_works flash.device flash.patch_current n)

  pub write_leaves :
      (flash : FlashMem Device) (bytes : List ℕ)
      → let flash' = (delta_flash_write p flash bytes).0 in
        (flash'.from_current ≡ flash.from_current)
        × (flash'.from_end ≡ flash.from_end)
        × (flash'.to_end ≡ flash.to_end)
        × (flash'.patch_current ≡ flash.patch_current)
        × (flash'.patch_end ≡ flash.patch_end)
  unfolding delta_flash_write erase_page
  write_leaves flash bytes = ground arith

  -- The two offsets that a read and a seek move are free.
  pub moved-IsReady :
      (flash : FlashMem Device) (from : ℤ) (patch : ℕ)
      → IsReady flash
      → lay.storage_offset + header_size ≤ patch
      → IsReady (record flash { from_current = from; patch_current = patch })
  moved-IsReady flash from patch r h = record {
    source_kept = r.source_kept;
    storage_kept = r.storage_kept;
    from_end = r.from_end;
    to_end = r.to_end;
    patch_end = r.patch_end;
    to_start = r.to_start;
    patch_start = h;
    patch_stop = r.patch_stop;
    ahead = record { stop = r.ahead.stop; pages = r.ahead.pages; erased = r.ahead.erased };
  }
