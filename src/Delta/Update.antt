-- ===== src/Delta/Update.antt =====
-- The patch header and the update of app/src/delta/delta.c: `delta_read_patch_header` and
-- `delta_check_and_apply`, with the patch applier of app/src/detools.
pub mod Header
pub mod Endings
pub mod Image
pub mod Ready
pub mod Images
pub mod Begins
pub mod Whole
pub mod Cut
pub mod Cleared
pub mod Primary
use delta_updates_for_embedd.Common.{ℕ, ◌+◌, ◌*◌, ◌==◌, List, [], ◌∷◌, get_or, Option, none, some}
use delta_updates_for_embedd.Common.{if◌then◌else◌, not, ltb, ℤ, pos, neg, is_zero, is_neg, leb_ℤ}
use delta_updates_for_embedd.Detools.Decoder.{Decoder}
use delta_updates_for_embedd.Detools.Apply.{ApplyPatch, Callbacks, Stepped}
use delta_updates_for_embedd.Detools.Run.{apply_patch_callbacks}
use delta_updates_for_embedd.Delta.Codes.{patch_header_error}
use delta_updates_for_embedd.Delta.Platform.{Platform, Layout}
use delta_updates_for_embedd.Delta.Flash.{
  FlashMem, delta_flash_write, delta_flash_from_read, delta_flash_patch_read, delta_flash_seek,
  delta_init,
}

-- ASCII for "NEWP" as a `uint32_t`.
abbrev pub new_patch : ℕ
new_patch = 0x5057454E

-- The `uint32_t` at byte `i` of a buffer: the target is little-endian.
abbrev pub word_at : List ℕ → ℕ → ℕ
word_at buf i =
    get_or buf i 0
    + (256 * get_or buf (i + 1) 0
        + (65536 * get_or buf (i + 2) 0 + 16777216 * get_or buf (i + 3) 0))

-- How `delta_check_and_apply` ends: it returns, or `sys_reboot` restarts the device.
pub data Ending : Type 0 where
  returned : ℤ → Ending
  rebooted : Ending

module _ (p : Platform) where
  open p use {Device, flash_read, flash_write, boot_request_upgrade}

  -- `delta_read_patch_header`: the flash, the result and `*size_ptr`, which holds `old` before.
  unfoldable pub delta_read_patch_header : Layout → FlashMem Device → ℕ → FlashMem Device × ℤ × ℕ
  delta_read_patch_header l flash old =
      let (res, header) = flash_read flash.device (pos l.storage_offset) 8 in
      let (d, res') = flash_write flash.device l.storage_offset (0 ∷ 0 ∷ 0 ∷ 0 ∷ []) in
      let flash' = record flash { device = d } in
      if not (is_zero res)
      then (flash, neg patch_header_error, old)
      else if not (word_at header 0 == new_patch)
      then (flash, pos 0, old)
      else if not (is_zero res')
      then (flash', neg patch_header_error, word_at header 4)
      else (flash', pos 0, word_at header 4)

  -- The callbacks that `delta_check_and_apply` passes on.
  abbrev pub delta_callbacks : Callbacks (FlashMem Device)
  delta_callbacks = record {
    from_read = delta_flash_from_read p;
    from_seek = delta_flash_seek p;
    patch_read = delta_flash_patch_read p;
    to_write = delta_flash_write p;
  }

  -- The end of `delta_check_and_apply`, on what the patch applier leaves.
  abbrev pub upgrade : FlashMem Device → ℤ → FlashMem Device × Ending
  upgrade flash ret =
      let (d, res) = boot_request_upgrade flash.device in
      let flash' = record flash { device = d } in
      if leb_ℤ ret (pos 0)
      then (flash, returned ret)
      else if not (is_zero res)
      then (flash', returned (neg 1))
      else (flash', rebooted)

  abbrev pub upgrade_with :
      {S : Type 0} → Option (Stepped S (FlashMem Device)) → Option (FlashMem Device × Ending)
  upgrade_with none = none
  upgrade_with (some t) = some (upgrade t.arg t.res)

  -- `delta_check_and_apply`. `none` means that the fuel of the patch applier ran out; `memory` is
  -- what its local structure holds before it is set.
  unfoldable pub delta_check_and_apply :
      (h : Decoder)
      → Layout
      → ℕ
      → ℕ
      → ApplyPatch h.State
      → FlashMem Device
      → Option (FlashMem Device × Ending)
  unfolding delta_read_patch_header delta_init
  delta_check_and_apply h l rounds fuel memory flash =
      let (flash1, ret, patch_size) = delta_read_patch_header l flash 0 in
      let (flash2, ret2) = delta_init p l flash1 in
      let applied = apply_patch_callbacks h delta_callbacks rounds fuel memory patch_size flash2 in
      if is_neg ret
      then some (flash1, returned ret)
      else if ltb 0 patch_size
      then (if not (is_zero ret2) then some (flash2, returned ret2) else upgrade_with applied)
      else some (flash1, returned (pos 0))
