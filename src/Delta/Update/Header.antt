-- ===== src/Delta/Update/Header.antt =====
-- The patch header: it is accepted once.
use delta_updates_for_embedd.Common.{ℕ, zero, suc, ◌+◌, ◌-◌, ◌<◌, arith, ◌≡◌, ◌≢◌, refl}
use delta_updates_for_embedd.Common.{[], ◌∷◌, get_or, pos}
use delta_updates_for_embedd.Delta.Platform.{Platform, Layout, FlashLaws, ClearLaws}
use delta_updates_for_embedd.Delta.Flash.{FlashMem}
use delta_updates_for_embedd.Delta.Update.{delta_read_patch_header}

pub get_or-zeros : (i : ℕ) → ◌≡◌ {A = ℕ} (get_or (0 ∷ 0 ∷ 0 ∷ 0 ∷ []) i 0) 0
get_or-zeros zero = refl
get_or-zeros (suc zero) = refl
get_or-zeros (suc (suc zero)) = refl
get_or-zeros (suc (suc (suc zero))) = refl
get_or-zeros (suc (suc (suc (suc i)))) = refl

module _ (p : Platform) {l : FlashLaws p} (cl : ClearLaws l) (lay : Layout) where
  open p use {Device, flash_read, flash_write}
  open l use {peek}

  -- The four bytes of the mark are cleared by a call that stores a size.
  cleared :
      (flash : FlashMem Device) (old i : ℕ)
      → (delta_read_patch_header p lay flash old).1 ≡ pos 0
      → (delta_read_patch_header p lay flash old).2 ≢ old
      → i < 4
      → peek (delta_read_patch_header p lay flash old).0.device (lay.storage_offset + i) ≡ 0
  unfolding delta_read_patch_header
  cleared flash old i ok new hi = ground (
    arith,
    cl.clear_in flash.device lay.storage_offset (0 ∷ 0 ∷ 0 ∷ 0 ∷ []) (lay.storage_offset + i),
    get_or-zeros (lay.storage_offset + i - lay.storage_offset),
  )

  -- A read of a cleared mark.
  pub read_cleared :
      (flash : FlashMem Device) (old : ℕ)
      → (flash_read flash.device (pos lay.storage_offset) 8).0 ≡ pos 0
      → ((i : ℕ) → i < 4 → peek flash.device (lay.storage_offset + i) ≡ 0)
      → delta_read_patch_header p lay flash old ≡ (flash, pos 0, old)
  unfolding delta_read_patch_header
  read_cleared flash old ok clear = ground (
    arith,
    cl.read_in flash.device lay.storage_offset 8 0,
    cl.read_in flash.device lay.storage_offset 8 1,
    cl.read_in flash.device lay.storage_offset 8 2,
    cl.read_in flash.device lay.storage_offset 8 3,
    clear 0,
    clear 1,
    clear 2,
    clear 3,
  )

  -- A header is accepted once: after a call that succeeded and stored a size, a second call finds no
  -- new patch, if its read succeeds. It leaves the flash and the size it is given as they are.
  pub header_read_once :
      (flash : FlashMem Device) (old old' : ℕ)
      → (delta_read_patch_header p lay flash old).1 ≡ pos 0
      → (delta_read_patch_header p lay flash old).2 ≢ old
      → (flash_read (delta_read_patch_header p lay flash old).0.device (pos lay.storage_offset) 8).0
        ≡ pos 0
      → let flash' = (delta_read_patch_header p lay flash old).0 in
        delta_read_patch_header p lay flash' old' ≡ (flash', pos 0, old')
  header_read_once flash old old' ok new ok' =
      read_cleared (delta_read_patch_header p lay flash old).0 old' ok'
        (λ i. cleared flash old i ok new)
