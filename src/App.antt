-- ===== src/App.antt =====
-- app/src/main.c: the set-up of the LED and the button, and the main loop, which checks for a patch
-- after a press of the button.
pub mod Loop
pub mod Pressed
pub mod Updates
pub mod Failures
pub mod Tests
use Prim.Native.String.{String}
use delta_updates_for_embedd.Common.{
  ℕ, Bool, true, false, not, ◌||◌, List, [], ◌∷◌, Option, some, none,
}
use delta_updates_for_embedd.Common.{if◌then◌else◌, ℤ, pos, neg, is_zero, is_neg}
use delta_updates_for_embedd.Delta.Update.{Ending, returned, rebooted}
use delta_updates_for_embedd.Delta.ErrorText.{delta_error_as_string}

-- The results of Zephyr's GPIO calls in `config_devices`.
pub record Board : Type 0 where
  pub led_ready : Bool
  pub configure_led : ℤ
  pub button_ready : Bool
  pub configure_button : ℤ
  pub configure_interrupt : ℤ

-- `config_devices`, on what `btn_flag` holds: the flag and the result.
unfoldable pub config_devices : Board → Bool → Bool × ℤ
config_devices b btn_flag =
    if not b.led_ready
    then (btn_flag, neg 1)
    else if is_neg b.configure_led
    then (btn_flag, neg 1)
    else if not b.button_ready
    then (btn_flag, neg 1)
    else if not (is_zero b.configure_button)
    then (btn_flag, neg 1)
    else if not (is_zero b.configure_interrupt)
    then (btn_flag, neg 1)
    else (false, pos 0)

-- `button_pressed` sets the flag.
abbrev pub button_pressed : Bool → Bool
button_pressed btn_flag = true

-- What one round of the main loop meets: the result of `gpio_pin_toggle_dt`, whether the button is
-- pressed before `btn_flag` is tested, and whether it is pressed between the test and the reset.
pub record Round : Type 0 where
  pub toggled : ℤ
  pub pressed : Bool
  pub pressed_later : Bool

-- How far `main` has come: it goes round the loop, it has returned and may have printed an error,
-- the device restarts, or the fuel of the update ran out.
pub data Progress (F : Type 0) : Type 0 where
  looping : F → Bool → Progress F
  ended : F → Option String → Progress F
  restarting : F → Progress F
  stuck : Progress F

abbrev press : Bool → Bool → Bool
press pressed btn_flag = if pressed then button_pressed btn_flag else btn_flag

-- `delta_check_and_apply` is a parameter of the loop.
module _ {F : Type 0} (check_and_apply : F → Option (F × Ending)) where
  -- The body of the `if (btn_flag)`, on how the check ends. A press before the flag is reset is lost.
  abbrev pub checked : Option (F × Ending) → Progress F
  checked none = stuck
  checked (some (flash, rebooted)) = restarting flash
  checked (some (flash, returned ret)) =
      if not (is_zero ret)
      then ended flash (some (delta_error_as_string ret))
      else looping flash false

  -- One round of the `while (1)`.
  unfoldable pub main_round : Round → F → Bool → Progress F
  main_round r flash btn_flag =
      if is_neg r.toggled
      then ended flash none
      else if press r.pressed btn_flag
      then checked (check_and_apply flash)
      else looping flash (press r.pressed_later btn_flag)

  abbrev pub resume : (F → Bool → Progress F) → Progress F → Progress F
  resume k (looping flash btn_flag) = k flash btn_flag
  resume k (ended flash text) = ended flash text
  resume k (restarting flash) = restarting flash
  resume k stuck = stuck

  -- The main loop over the rounds of a run.
  unfoldable pub main_loop : List Round → F → Bool → Progress F
  unfolding main_round
  main_loop [] flash btn_flag = looping flash btn_flag
  main_loop (r ∷ rounds) flash btn_flag = resume (main_loop rounds) (main_round r flash btn_flag)

  -- `main`; `has_device` tells whether the flash controller is there.
  unfoldable pub main : Board → Bool → List Round → F → Bool → Progress F
  unfolding config_devices main_loop
  main board has_device rounds flash btn_flag =
      let (btn_flag', res) = config_devices board btn_flag in
      if not has_device
      then ended flash none
      else if not (is_zero res)
      then ended flash none
      else main_loop rounds flash btn_flag'
