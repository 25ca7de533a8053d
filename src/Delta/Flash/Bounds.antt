-- ===== src/Delta/Flash/Bounds.antt =====
-- The bounds that the flash callbacks check: when each of them succeeds, and where it leaves its
-- offset.
use delta_updates_for_embedd.Common.{ℕ, ◌+◌, ◌-◌, ◌^◌, ◌≤◌, ◌<◌, arith, ◌≡◌, ◌↔◌}
use delta_updates_for_embedd.Common.{
  List, length, ℤ, pos, neg, pos_part, neg_part, ◌+ℤ◌, add_off, add_off_fits, add_off_pos,
}
use delta_updates_for_embedd.Delta.Codes.{header_size}
use delta_updates_for_embedd.Delta.Platform.{Platform, Layout}
use delta_updates_for_embedd.Delta.Flash.{
  FlashMem, delta_flash_write, delta_flash_from_read, delta_flash_patch_read, delta_flash_seek,
  delta_init_flash_mem,
}

-- `a < b` on the integers.
infix 50 ◌<ℤ◌
abbrev pub ◌<ℤ◌ : ℤ → ℤ → Type 0
a <ℤ b = pos_part a + neg_part b < pos_part b + neg_part a

module _ (p : Platform) (flash : FlashMem p.Device) where
  open p use {Device, flash_read, flash_write}

  -- A read of the source succeeds exactly if it asks for a byte at least, the driver succeeds and the
  -- offset behind it, the sum as an `off_t` of 32 bits, lies before the end of the partition: a read up to the end is refused.
  pub from_read_iff :
      (n : ℕ)
      → ((delta_flash_from_read p flash n).1 ≡ pos 0) ↔ (
          (0 < n)
          × ((flash_read flash.device flash.from_current n).0 ≡ pos 0)
          × (add_off flash.from_current (pos n) <ℤ flash.from_end))
  unfolding delta_flash_from_read
  from_read_iff n = ground arith

  -- A read that succeeds, and a seek whatever its result, move the offset by what they are given.
  pub from_current_moves :
      (n : ℕ) (offset : ℤ)
      → (delta_flash_from_read p flash n).1 ≡ pos 0
      → ((delta_flash_from_read p flash n).0.from_current ≡ add_off flash.from_current (pos n))
        × ((delta_flash_seek p flash offset).0.from_current ≡ add_off flash.from_current offset)
  unfolding delta_flash_from_read delta_flash_seek
  from_current_moves n offset e = ground arith

  step_back : (a k : ℕ) → k ≤ a → a < 2 ^ 31 → add_off (pos a) (neg k) ≡ pos (a - k)
  unfolding ◌+ℤ◌
  step_back a k le h = add_off_fits (pos a) (neg k) (a - k) (ground arith) (omega arith)

  -- Behind the initialisation, a seek back over k bytes is accepted, where k is up to the address of the
  -- primary slot, and n bytes in front of the slot, with n up to k, are then read as a part of the
  -- source: if the slot is not empty and ends below 2 ^ 31, n is not 0 and the driver reads them, the
  -- seek and the read return 0, with the bytes that the driver gives.
  pub seek_before_partition :
      (lay : Layout) (k n : ℕ)
      → (flash_read flash.device (pos (lay.primary_offset - k)) n).0 ≡ pos 0
      → 0 < n
      → n ≤ k
      → k ≤ lay.primary_offset
      → 0 < lay.primary_size
      → lay.primary_offset + lay.primary_size < 2 ^ 31
      → let s = delta_flash_seek p (delta_init_flash_mem p lay flash) (neg k) in
        let t = delta_flash_from_read p s.0 n in
        (s.1 ≡ pos 0)
        × (t.1 ≡ pos 0)
        × (t.2 ≡ (flash_read flash.device (pos (lay.primary_offset - k)) n).1)
  unfolding delta_flash_seek delta_flash_from_read delta_init_flash_mem
  seek_before_partition lay k n e h1 h2 h3 h4 h5 =
      ground (arith, step_back lay.primary_offset k, add_off_pos (lay.primary_offset - k) n)

  -- A write that succeeds ends before the end of the partition.
  pub write_in_bounds :
      (buf : List ℕ)
      → (delta_flash_write p flash buf).1 ≡ pos 0
      → flash.to_current + length buf < flash.to_end
  unfolding delta_flash_write
  write_in_bounds buf e = ground arith

  -- Behind the initialisation, reads of the patch are accepted that end up to 7 bytes past the storage
  -- partition, which ends `storage_offset + storage_size`: `patch_end` is computed from the offset
  -- behind the header.
  pub patch_read_past_partition :
      (lay : Layout) (n : ℕ)
      → (flash_read flash.device (pos (lay.storage_offset + header_size)) n).0 ≡ pos 0
      → 0 < n
      → lay.storage_offset + lay.storage_size < lay.storage_offset + header_size + n
      → lay.storage_offset + header_size + n < lay.storage_offset + lay.storage_size + header_size
      → (delta_flash_patch_read p (delta_init_flash_mem p lay flash) n).1 ≡ pos 0
  unfolding delta_flash_patch_read delta_init_flash_mem
  patch_read_past_partition lay n e h1 h2 h3 = ground arith
