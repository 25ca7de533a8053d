-- ===== src/Delta/Flash.antt =====
-- The flash callbacks of app/src/delta/delta.c and the setting up of `struct flash_mem`. The
-- pointer to the structure is not null: `main` writes through it before it is passed on.
pub mod Pages
pub mod Bounds
pub mod Writes
pub mod Bytes
pub mod TwoPages
use delta_updates_for_embedd.Common.{ℕ, ◌+◌, ◌-◌, ◌%◌, ◌==◌, List, [], length, leb, add32}
use delta_updates_for_embedd.Common.{if◌then◌else◌, not, ℤ, pos, neg, is_zero, leb_ℤ, add_off}
use delta_updates_for_embedd.Delta.Codes.{
  header_size, page_size, slot1_out_of_memory, reading_patch_error, reading_source_error,
  writing_error, seeking_error, invalid_buf_size, clearing_error,
}
use delta_updates_for_embedd.Delta.Platform.{Platform, Layout}

-- `struct flash_mem`, over the flash device. `from_current` can be moved back by a seek, so it is an
-- integer, and its sums are those of an `off_t` of 32 bits, with their wrap-around; the other offsets
-- only grow, and no further than the first operation that ends past their partition.
pub record FlashMem (D : Type 0) : Type 0 where
  pub device : D
  pub patch_current : ℕ
  pub patch_end : ℕ
  pub from_current : ℤ
  pub from_end : ℤ
  pub to_current : ℕ
  pub to_end : ℕ
  pub write_buf : ℕ

module _ (p : Platform) where
  open p use {Device, flash_read, flash_write, flash_erase}

  abbrev pub page_start : ℕ → ℕ
  page_start offset = offset - offset % page_size

  -- `erase_page`
  unfoldable pub erase_page : FlashMem Device → ℕ → FlashMem Device × ℤ
  erase_page flash offset =
      let (d, res) = flash_erase flash.device (page_start offset) page_size in
      let flash' = record flash { device = d } in
      if not (is_zero res) then (flash', neg clearing_error) else (flash', pos 0)

  -- The end of `delta_flash_write`, behind the erasing of the next page.
  abbrev program : FlashMem Device → List ℕ → FlashMem Device × ℤ
  program flash buf =
      let (d, res) = flash_write flash.device flash.to_current buf in
      let to = flash.to_current + length buf in
      if not (is_zero res)
      then (record flash { device = d }, neg writing_error)
      else if leb flash.to_end to
      then (record flash { device = d; to_current = to }, neg slot1_out_of_memory)
      else (record flash { device = d; to_current = to }, pos 0)

  -- `delta_flash_write`; `buf` holds the `size` bytes at `buf_p`.
  unfoldable pub delta_flash_write : FlashMem Device → List ℕ → FlashMem Device × ℤ
  unfolding erase_page
  delta_flash_write flash buf =
      let flash1 = record flash { write_buf = add32 flash.write_buf (length buf) } in
      let (flash2, res) = erase_page flash1 (flash.to_current + length buf) in
      if leb page_size flash1.write_buf
      then (if not (is_zero res)
          then (flash2, neg clearing_error)
          else program (record flash2 { write_buf = 0 }) buf)
      else program flash1 buf

  -- `delta_flash_from_read`
  unfoldable pub delta_flash_from_read : FlashMem Device → ℕ → FlashMem Device × ℤ × List ℕ
  delta_flash_from_read flash size =
      let (res, buf) = flash_read flash.device flash.from_current size in
      let flash' = record flash { from_current = add_off flash.from_current (pos size) } in
      if size == 0
      then (flash, neg invalid_buf_size, [])
      else if not (is_zero res)
      then (flash, neg reading_source_error, buf)
      else if leb_ℤ flash.from_end flash'.from_current
      then (flash', neg reading_source_error, buf)
      else (flash', pos 0, buf)

  -- `delta_flash_patch_read`
  unfoldable pub delta_flash_patch_read : FlashMem Device → ℕ → FlashMem Device × ℤ × List ℕ
  delta_flash_patch_read flash size =
      let (res, buf) = flash_read flash.device (pos flash.patch_current) size in
      let flash' = record flash { patch_current = flash.patch_current + size } in
      if size == 0
      then (flash, neg invalid_buf_size, [])
      else if not (is_zero res)
      then (flash, neg reading_patch_error, buf)
      else if leb flash.patch_end flash'.patch_current
      then (flash', neg reading_patch_error, buf)
      else (flash', pos 0, buf)

  -- `delta_flash_seek`
  unfoldable pub delta_flash_seek : FlashMem Device → ℤ → FlashMem Device × ℤ
  delta_flash_seek flash offset =
      let flash' = record flash { from_current = add_off flash.from_current offset } in
      if leb_ℤ flash.from_end flash'.from_current
      then (flash', neg seeking_error)
      else (flash', pos 0)

  -- `delta_init_flash_mem`
  unfoldable pub delta_init_flash_mem : Layout → FlashMem Device → FlashMem Device
  delta_init_flash_mem l flash =
      let patch = l.storage_offset + header_size in
      record flash {
        from_current = pos l.primary_offset;
        from_end = pos (l.primary_offset + l.primary_size);
        to_current = l.secondary_offset;
        to_end = l.secondary_offset + l.secondary_size;
        patch_current = patch;
        patch_end = patch + l.storage_size;
        write_buf = 0;
      }

  -- `delta_init`
  unfoldable pub delta_init : Layout → FlashMem Device → FlashMem Device × ℤ
  unfolding delta_init_flash_mem erase_page
  delta_init l flash =
      let flash1 = delta_init_flash_mem l flash in erase_page flash1 flash1.to_current
