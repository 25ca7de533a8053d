-- ===== src/Delta/Update/Image.antt =====
-- The counts of the patch applier and of the flash behind a restart of `delta_check_and_apply` in
-- app/src/delta/delta.c.
use delta_updates_for_embedd.Common.{ℕ, ◌+◌, ◌-◌, ◌%◌, ◌≤◌, ◌<◌, ◌^◌, arith, ◌≡◌, List, length}
use delta_updates_for_embedd.Common.{ℤ, pos, some, word, subst}
use delta_updates_for_embedd.Detools.Decoder.{Decoder, PollLaws, FiniteOutput}
use delta_updates_for_embedd.Detools.Apply.{ApplyPatch, Stepped}
use delta_updates_for_embedd.Detools.Apply.Written.{CountsWrites}
use delta_updates_for_embedd.Detools.Run.Complete.{apply_patch_callbacks-IsComplete}
use delta_updates_for_embedd.Detools.Run.Written.{apply_patch_callbacks-written}
use delta_updates_for_embedd.Delta.Platform.{Platform, Layout}
use delta_updates_for_embedd.Delta.Flash.{
  FlashMem, erase_page, delta_flash_write, delta_flash_from_read, delta_flash_patch_read,
  delta_flash_seek, delta_init_flash_mem, delta_init,
}
use delta_updates_for_embedd.Delta.Update.{
  delta_callbacks, delta_check_and_apply, delta_read_patch_header, rebooted,
}
use delta_updates_for_embedd.Delta.Update.Endings.{applied, rebooted_needs, above_zero}

module _ (p : Platform) where
  open p use {Device}

  to_current_write :
      (flash : FlashMem Device) (buf : List ℕ)
      → (delta_flash_write p flash buf).1 ≡ pos 0
      → (delta_flash_write p flash buf).0.to_current ≡ flash.to_current + length buf
  unfolding delta_flash_write erase_page
  to_current_write flash buf e = ground arith

  to_current_read :
      (flash : FlashMem Device) (n : ℕ)
      → (delta_flash_from_read p flash n).0.to_current ≡ flash.to_current
  unfolding delta_flash_from_read
  to_current_read flash n = ground arith

  to_current_seek :
      (flash : FlashMem Device) (offset : ℤ)
      → (delta_flash_seek p flash offset).0.to_current ≡ flash.to_current
  unfolding delta_flash_seek
  to_current_seek flash offset = ground arith

  to_current_patch :
      (flash : FlashMem Device) (n : ℕ)
      → (delta_flash_patch_read p flash n).0.to_current ≡ flash.to_current
  unfolding delta_flash_patch_read
  to_current_patch flash n = ground arith

  -- `to_current` counts what is written.
  to_current-CountsWrites : CountsWrites (delta_callbacks p) (λ flash. flash.to_current)
  to_current-CountsWrites = record {
    count_write = to_current_write;
    count_read = to_current_read;
    count_seek = to_current_seek;
    count_patch = to_current_patch;
  }

  to_current_init :
      (lay : Layout) (flash : FlashMem Device)
      → (delta_init p lay flash).0.to_current ≡ lay.secondary_offset
  unfolding delta_init delta_init_flash_mem erase_page
  to_current_init lay flash = ground arith

-- For a decoder that keeps its promises and holds finitely many bytes of output: where the update
-- ends in a restart, the patch applier has counted as many bytes written as the patch announces, more
-- than 0 and below 2 ^ 31, and `to_current` has moved from the start of the secondary slot by that
-- many, modulo 2 ^ 32. Nothing is said here of what the flash holds.
pub rebooted_counts :
    (p : Platform) (h : Decoder) (lay : Layout) (l : PollLaws h) (f : FiniteOutput h)
    (rounds fuel : ℕ) (memory : ApplyPatch h.State) (flash flash' : FlashMem p.Device)
    → delta_check_and_apply p h lay rounds fuel memory flash ≡ some (flash', rebooted)
    → (t : Stepped h.State (FlashMem p.Device)) × (applied p h lay rounds fuel memory flash
        ≡ some t)
      × (0 < t.self.to_size)
      × (t.self.to_size < 2 ^ 31)
      × (t.self.to_offset ≡ t.self.to_size)
      × (lay.secondary_offset ≤ t.arg.to_current)
      × ((t.arg.to_current - lay.secondary_offset) % word ≡ t.self.to_size)
rebooted_counts p h lay l f rounds fuel memory flash flash' e =
    let (t, mark, size, ran, above, request, device) =
      rebooted_needs p h lay rounds fuel memory flash flash' e in
    let flash1 = (delta_read_patch_header p lay flash 0).0 in
    let start = to_current_init p lay flash1 in
    let whole =
      apply_patch_callbacks-IsComplete h f l (delta_callbacks p) rounds fuel memory _ _ t ran
        above in
    let counted =
      apply_patch_callbacks-written h f l (delta_callbacks p) (λ fl. fl.to_current)
        (to_current-CountsWrites p) rounds fuel memory _ _ t ran above in
    let (positive, bounded) = above_zero p h lay t.self.to_size (rw (← whole.0) above) in
    let (moved, count) =
      subst (λ x. (x ≤ t.arg.to_current) × ((t.arg.to_current - x) % word ≡ t.self.to_size)) start
        (counted.1, counted.2) in
    (t, ran, positive, bounded, whole.1, moved, count)
