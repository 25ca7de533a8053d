-- ===== src/App/Failures.antt =====
-- The main loop of app/src/main.c where the update of app/src/delta/delta.c fails.
use delta_updates_for_embedd.Common.{
  ℕ, ◌≤◌, ◌<◌, arith, ◌≡◌, refl, Bool, true, false, List, [], ◌∷◌, ◌++◌, Option, some, pos, neg,
  is_zero,
}
use delta_updates_for_embedd.Detools.Decoder.{Decoder}
use delta_updates_for_embedd.Detools.Apply.{ApplyPatch}
use delta_updates_for_embedd.Delta.Codes.{page_size, patch_header_error, clearing_error}
use delta_updates_for_embedd.Delta.Platform.{Platform, Layout}
use delta_updates_for_embedd.Delta.Flash.{
  FlashMem, page_start, erase_page, delta_init, delta_init_flash_mem,
}
use delta_updates_for_embedd.Delta.Update.{
  Ending, returned, delta_read_patch_header, delta_check_and_apply, new_patch, word_at,
}
use delta_updates_for_embedd.Delta.ErrorText.{delta_error_as_string_negated}
use delta_updates_for_embedd.Delta.Update.Begins.{zeros}
use delta_updates_for_embedd.App.{Board, Round, ended, checked, main, config_devices}
use delta_updates_for_embedd.App.Pressed.{Pressing, main-pressed}

-- How the driver fails in front of the patch: the header is not read, or the mark is there and is not
-- cleared, or it is cleared and the first page of the secondary slot is not erased.
pub data FailsEarly (p : Platform) (lay : Layout) (flash : FlashMem p.Device) : Type 0 where
  unread :
      is_zero (p.flash_read flash.device (pos lay.storage_offset) 8).0 ≡ false
      → FailsEarly p lay flash
  uncleared :
      (p.flash_read flash.device (pos lay.storage_offset) 8).0 ≡ pos 0
      → word_at (p.flash_read flash.device (pos lay.storage_offset) 8).1 0 ≡ new_patch
      → is_zero (p.flash_write flash.device lay.storage_offset (0 ∷ 0 ∷ 0 ∷ 0 ∷ [])).1 ≡ false
      → FailsEarly p lay flash
  unerased :
      (p.flash_read flash.device (pos lay.storage_offset) 8).0 ≡ pos 0
      → word_at (p.flash_read flash.device (pos lay.storage_offset) 8).1 0 ≡ new_patch
      → 0 < word_at (p.flash_read flash.device (pos lay.storage_offset) 8).1 4
      → (p.flash_write flash.device lay.storage_offset (0 ∷ 0 ∷ 0 ∷ 0 ∷ [])).1 ≡ pos 0
      → is_zero
          (p.flash_erase
            (p.flash_write flash.device lay.storage_offset (0 ∷ 0 ∷ 0 ∷ 0 ∷ [])).0
            (page_start p lay.secondary_offset)
            page_size).1
        ≡ false
      → FailsEarly p lay flash

-- A check that returns an error of delta.h.
checked-unknown :
    {F : Type 0} (check : F → Option (F × Ending)) (flash : F) (e : ℕ)
    → 28 ≤ e
    → checked check (some (flash, returned (neg e))) ≡ ended flash (some "Unknown error.")
checked-unknown check flash e h = ground (arith, delta_error_as_string_negated e h)

module _ (p : Platform) (h : Decoder) (lay : Layout) (rounds fuel : ℕ) (memory : ApplyPatch h.State)
    (board : Board) (btn_flag : Bool) (idles later : List Round) (r r' : Round)
    (flash : FlashMem p.Device) (configured : (config_devices board btn_flag).1 ≡ pos 0)
    (pressing : Pressing idles r r') where
  early_failure :
      FailsEarly p lay flash
      → (flash' : FlashMem p.Device) × (e : ℕ) × (28 ≤ e)
        × (delta_check_and_apply p h lay rounds fuel memory flash ≡ some (flash', returned (neg e)))
  unfolding delta_check_and_apply delta_read_patch_header delta_init delta_init_flash_mem erase_page
  early_failure (unread fails) = (flash, patch_header_error, omega arith, ground arith)
  early_failure (uncleared read mark fails) = (
    record flash { device = (p.flash_write flash.device lay.storage_offset zeros).0 },
    patch_header_error,
    omega arith,
    ground arith,
  )
  early_failure (unerased read mark size clear fails) = (
    (delta_init p lay
        (record flash { device = (p.flash_write flash.device lay.storage_offset zeros).0 })).0,
    clearing_error,
    omega arith,
    ground arith,
  )

  -- Where the driver fails in front of the patch, `main` prints "Unknown error." behind the first press
  -- of the button and returns, whether the header is not read, the mark of a new patch is not cleared,
  -- or the first page of the secondary slot is not erased for a patch of one byte or more: it prints
  -- none of the texts that app/src/delta/delta.c has for these errors. The devices are configured and
  -- the LED is toggled up to the round behind the press.
  pub main-early_failure :
      FailsEarly p lay flash
      → (flash' : FlashMem p.Device) × (main
            (delta_check_and_apply p h lay rounds fuel memory)
            board
            true
            (idles ++ (r ∷ r' ∷ later))
            flash
            btn_flag
          ≡ ended flash' (some "Unknown error."))
  main-early_failure early =
      let (flash', e, high, fails) = early_failure early in
      (
        flash',
        main-pressed (delta_check_and_apply p h lay rounds fuel memory) board btn_flag idles later r
            r' flash (ended flash' (some "Unknown error.")) configured pressing
            (rw fails
              (checked-unknown (delta_check_and_apply p h lay rounds fuel memory) flash' e high))
            (λ k. refl),
      )
