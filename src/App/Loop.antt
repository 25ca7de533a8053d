-- ===== src/App/Loop.antt =====
-- The main loop: what it does while the button is left alone and while there is no new
-- patch.
use delta_updates_for_embedd.Common.{
  ℕ, arith, ◌≡◌, ◌≢◌, refl, ◌⊎◌, Bool, true, false, List, [], ◌∷◌, All,
}
use delta_updates_for_embedd.Common.{Option, some, none, pos, is_neg}
use delta_updates_for_embedd.Detools.Decoder.{Decoder}
use delta_updates_for_embedd.Detools.Apply.{ApplyPatch}
use delta_updates_for_embedd.Delta.Platform.{Platform, Layout}
use delta_updates_for_embedd.Delta.Flash.{FlashMem}
use delta_updates_for_embedd.Delta.Update.{
  Ending, returned, delta_check_and_apply, new_patch, word_at,
}
use delta_updates_for_embedd.Delta.Update.Endings.{no_new_patch}
use delta_updates_for_embedd.App.{
  Board, Round, Progress, looping, ended, restarting, stuck, main_round, main_loop, main,
  config_devices,
}

-- The button is left alone for a round.
abbrev pub IsIdle : Round → Type 0
IsIdle r = (r.pressed ≡ false) × (r.pressed_later ≡ false)

-- The LED is toggled.
abbrev pub IsToggled : Round → Type 0
IsToggled r = is_neg r.toggled ≡ false

-- The loop goes on, with this flash.
abbrev pub IsLooping : {F : Type 0} → F → Progress F → Type 0
IsLooping flash (looping flash' btn_flag) = flash' ≡ flash
IsLooping flash (ended flash' text) = ⊥
IsLooping flash (restarting flash') = ⊥
IsLooping flash stuck = ⊥

-- A loop in which the flag is down and no button is pressed leaves the flash alone, whatever a check
-- would do: it goes on, or ends without a text where the LED fails.
pub main_loop-idle :
    {F : Type 0} (check : F → Option (F × Ending)) (rounds : List Round) (flash : F)
    → All IsIdle rounds
    → (main_loop check rounds flash false ≡ looping flash false)
      ⊎ (main_loop check rounds flash false ≡ ended flash none)
unfolding main_loop main_round
main_loop-idle check [] flash idle = ground arith
main_loop-idle check (r ∷ rounds) flash idle = ground (arith, main_loop-idle check rounds flash)

-- While the LED is toggled and a check returns 0 and leaves the flash as it is, the loop goes on with
-- the flash as it is, whatever buttons are pressed.
pub main_loop-unchanged :
    {F : Type 0} (check : F → Option (F × Ending)) (rounds : List Round) (flash : F)
    (btn_flag : Bool)
    → check flash ≡ some (flash, returned (pos 0))
    → All IsToggled rounds
    → IsLooping flash (main_loop check rounds flash btn_flag)
unfolding main_loop main_round
main_loop-unchanged check [] flash btn_flag e on = refl
main_loop-unchanged check (r ∷ rounds) flash btn_flag e on = ground (
  arith,
  main_loop-unchanged check rounds flash false e on.1,
  main_loop-unchanged check rounds flash true e on.1,
)

-- Where the read of the header succeeds and the storage partition does not begin with the mark of a
-- new patch, `main` keeps going round its loop with the flash as it is, whatever buttons are pressed,
-- if the devices are configured and the LED is toggled in every round.
pub main-no_new_patch :
    (p : Platform) (h : Decoder) (lay : Layout) (rounds_left fuel : ℕ) (memory : ApplyPatch h.State)
    (board : Board) (rounds : List Round) (flash : FlashMem p.Device) (btn_flag : Bool)
    → (config_devices board btn_flag).1 ≡ pos 0
    → All IsToggled rounds
    → (p.flash_read flash.device (pos lay.storage_offset) 8).0 ≡ pos 0
    → word_at (p.flash_read flash.device (pos lay.storage_offset) 8).1 0 ≢ new_patch
    → IsLooping flash (
        main
          (delta_check_and_apply p h lay rounds_left fuel memory)
          board
          true
          rounds
          flash
          btn_flag)
unfolding main
main-no_new_patch p h lay rounds_left fuel memory board rounds flash btn_flag ok on read other =
    let same = no_new_patch p h lay rounds_left fuel memory flash read other in
    ground (
      arith,
      main_loop-unchanged (delta_check_and_apply p h lay rounds_left fuel memory) rounds flash
          (config_devices board btn_flag).0 same on,
    )
