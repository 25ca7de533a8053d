-- ===== src/App/Tests.antt =====
-- The theorems on `main` at a concrete board, concrete rounds and a flash in memory.
use delta_updates_for_embedd.Common.{ℕ, arith, ◌≡◌, refl, inr, ◌<◌, true, false, [], ◌∷◌, some}
use delta_updates_for_embedd.Common.{pos, neg}
use delta_updates_for_embedd.Detools.Stored.{stored, stored-FiniteOutput}
use delta_updates_for_embedd.Detools.Stored.Inflating.{stored-InflateLaws}
use delta_updates_for_embedd.Detools.Chunk.RoundTrip.{pack_header_size}
use delta_updates_for_embedd.Detools.Format.{bytes_of}
use delta_updates_for_embedd.Detools.Tests.Formats.{
  two_rounds, two_rounds_stream, stored-IsNeeded, two_rounds-inflate, second_round,
}
use delta_updates_for_embedd.Delta.Flash.{FlashMem}
use delta_updates_for_embedd.Delta.Tests.Wholes.{
  wide_layout, wide_layout-IsLaidOut, two_rounds_loaded, loaded-Fits, cut_loaded, cut_loaded-Fits,
}
use delta_updates_for_embedd.App.Pressed.{Pressing}
use delta_updates_for_embedd.App.Updates.{main-restarts, main-once, main-cut}
use delta_updates_for_embedd.Detools.Tests.{fresh}
use delta_updates_for_embedd.Delta.Ram.{
  Ram, ram, ram_peek, ram-FlashLaws, ram-WorkingLaws, ram-ReadLaws, ram-ClearLaws,
}
use delta_updates_for_embedd.Delta.Update.{delta_check_and_apply}
use delta_updates_for_embedd.Delta.Tests.{layout, blank, flash_mem}
use delta_updates_for_embedd.App.{Board, Round, ended, restarting, main, config_devices}
use delta_updates_for_embedd.App.Loop.{IsLooping, main-no_new_patch}
use delta_updates_for_embedd.App.Failures.{unerased, main-early_failure}
use delta_updates_for_embedd.Delta.Platform.{Platform}

abbrev board : Board
board = record {
  led_ready = true;
  configure_led = pos 0;
  button_ready = true;
  configure_button = pos 0;
  configure_interrupt = pos 0;
}

abbrev idle : Round
idle = record { toggled = pos 0; pressed = false; pressed_later = false }

abbrev press_round : Round
press_round = record { toggled = pos 0; pressed = true; pressed_later = false }

main-no_new_patch_example : IsLooping (flash_mem blank) (
    main
      (delta_check_and_apply ram stored layout 1 24 fresh)
      board
      true
      (press_round ∷ idle ∷ press_round ∷ [])
      (flash_mem blank)
      true)
unfolding config_devices
main-no_new_patch_example =
    main-no_new_patch ram stored layout 1 24 fresh board (press_round ∷ idle ∷ press_round ∷ [])
      (flash_mem blank) true refl (refl, (refl, (refl, tt))) refl (omega arith)

-- A round in which the button is pressed behind the test of the flag.
abbrev late_round : Round
late_round = record { toggled = pos 0; pressed = false; pressed_later = true }

late_round-Pressing : Pressing (idle ∷ []) late_round idle
late_round-Pressing = record {
  idle = ((refl, refl), tt);
  toggled = (refl, (refl, (refl, tt)));
  pressed = inr refl;
}

-- A platform whose driver fails to erase.
abbrev unerasing : Platform
unerasing = record ram { flash_erase = λ d offset n. (d, neg 5) }

main-early_failure_example :
    (flash' : FlashMem Ram) × (main
        (delta_check_and_apply unerasing stored wide_layout 1 32 fresh)
        board
        true
        (idle ∷ late_round ∷ idle ∷ [])
        (flash_mem two_rounds_loaded)
        true
      ≡ ended flash' (some "Unknown error."))
unfolding config_devices
main-early_failure_example =
    main-early_failure unerasing stored wide_layout 1 32 fresh board true (idle ∷ []) [] late_round
      idle (flash_mem two_rounds_loaded) refl late_round-Pressing
      (unerased refl refl (omega arith) refl refl)

main-restarts_example :
    (flash' : FlashMem Ram) × (d : Ram) × (main
        (delta_check_and_apply ram stored wide_layout 1 32 fresh)
        board
        true
        (idle ∷ late_round ∷ idle ∷ [])
        (flash_mem two_rounds_loaded)
        true
      ≡ restarting flash')
    × (flash'.device ≡ (ram.boot_request_upgrade d).0)
    × (bytes_of (ram_peek d) 0x2000 5 ≡ 66 ∷ 67 ∷ 120 ∷ 67 ∷ 68 ∷ [])
unfolding config_devices pack_header_size
main-restarts_example =
    main-restarts ram-FlashLaws (ram-WorkingLaws 0x6000) ram-ReadLaws wide_layout
      wide_layout-IsLaidOut stored stored-FiniteOutput stored-InflateLaws 1 32 fresh board true
      (idle ∷ []) [] late_round idle (flash_mem two_rounds_loaded) 4 15 two_rounds two_rounds_stream
      refl late_round-Pressing refl refl (omega arith) (omega arith) two_rounds-inflate
      (stored-IsNeeded two_rounds_stream) (omega arith) (omega arith) (omega arith) loaded-Fits refl
      (omega arith) (omega arith) (λ d. refl)

-- The flash behind the restart.
restarted :
    (flash' : FlashMem Ram) × (main
        (delta_check_and_apply ram stored wide_layout 1 32 fresh)
        board
        true
        (idle ∷ late_round ∷ idle ∷ [])
        (flash_mem two_rounds_loaded)
        true
      ≡ restarting flash')
unfolding config_devices pack_header_size
restarted =
    let t =
      main-restarts ram-FlashLaws (ram-WorkingLaws 0x6000) ram-ReadLaws wide_layout
        wide_layout-IsLaidOut stored stored-FiniteOutput stored-InflateLaws 1 32 fresh board true
        (idle ∷ []) [] late_round idle (flash_mem two_rounds_loaded) 4 15 two_rounds
        two_rounds_stream refl late_round-Pressing refl refl (omega arith) (omega arith)
        two_rounds-inflate (stored-IsNeeded two_rounds_stream) (omega arith) (omega arith)
        (omega arith) loaded-Fits refl (omega arith) (omega arith) (λ d. refl) in
    (t.0, t.2)

main-once_example : IsLooping restarted.0 (
    main
      (delta_check_and_apply ram stored wide_layout 1 32 fresh)
      board
      true
      (press_round ∷ idle ∷ press_round ∷ [])
      restarted.0
      true)
unfolding config_devices pack_header_size
main-once_example =
    main-once ram-FlashLaws (ram-WorkingLaws 0x6000) ram-ReadLaws wide_layout wide_layout-IsLaidOut
      stored stored-FiniteOutput stored-InflateLaws 1 32 fresh board true (idle ∷ []) [] late_round
      idle (flash_mem two_rounds_loaded) 4 15 two_rounds two_rounds_stream refl late_round-Pressing
      refl refl (omega arith) (omega arith) two_rounds-inflate (stored-IsNeeded two_rounds_stream)
      (omega arith) (omega arith) (omega arith) loaded-Fits ram-ClearLaws restarted.0 restarted.0
      board true (press_round ∷ idle ∷ press_round ∷ []) refl (omega arith) (omega arith)
      (λ d. refl) (λ d a h. refl) restarted.1 (λ i h. refl) refl (refl, (refl, (refl, tt)))

main-cut_example :
    (flash' : FlashMem Ram) × (main
        (delta_check_and_apply ram stored wide_layout 1 32 fresh)
        board
        true
        (idle ∷ late_round ∷ idle ∷ [])
        (flash_mem cut_loaded)
        true
      ≡ ended flash' (some "Not enough patch data."))
    × ((a : ℕ) → a < 0x2000 → ram_peek flash'.device a ≡ ram_peek cut_loaded a)
unfolding config_devices pack_header_size
main-cut_example =
    main-cut ram-FlashLaws (ram-WorkingLaws 0x6000) ram-ReadLaws wide_layout wide_layout-IsLaidOut
      stored stored-FiniteOutput stored-InflateLaws 1 32 fresh board true (idle ∷ []) [] late_round
      idle (flash_mem cut_loaded) 4 10 two_rounds two_rounds_stream refl late_round-Pressing refl
      refl (omega arith) (omega arith) two_rounds-inflate (stored-IsNeeded two_rounds_stream)
      (omega arith) (omega arith) (omega arith) cut_loaded-Fits second_round refl (omega arith)
      (λ e. cc) (omega arith) (omega arith)
