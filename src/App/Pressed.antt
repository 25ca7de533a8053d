-- ===== src/App/Pressed.antt =====
-- The main loop of app/src/main.c from its start to the check behind the first press of the button.
use delta_updates_for_embedd.Common.{
  arith, ◌≡◌, ◌⊎◌, Bool, true, false, List, [], ◌∷◌, ◌++◌, All, Option, pos,
}
use delta_updates_for_embedd.Delta.Update.{Ending}
use delta_updates_for_embedd.App.{
  Board, Round, Progress, checked, resume, main_round, main_loop, main, config_devices,
}
use delta_updates_for_embedd.App.Loop.{IsIdle, IsToggled}

-- Rounds up to a press of the button: the LED is toggled in all of them, the first are idle, and the
-- button is pressed in the one behind them, before the flag is tested there or after it; one more round
-- follows.
pub record Pressing (idles : List Round) (r r' : Round) : Type 0 where
  pub idle : All IsIdle idles
  pub toggled : All IsToggled (idles ++ (r ∷ r' ∷ []))
  pub pressed : (r.pressed ≡ true) ⊎ (r.pressed_later ≡ true)

module _ {F : Type 0} (check : F → Option (F × Ending)) where
  -- The loop up to the check: a check that ends it is the end of the loop.
  main_loop-pressed :
      (idles later : List Round) (r r' : Round) (flash : F) (end : Progress F)
      → Pressing idles r r'
      → checked check (check flash) ≡ end
      → ((k : F → Bool → Progress F) → resume check k end ≡ end)
      → main_loop check (idles ++ (r ∷ r' ∷ later)) flash false ≡ end
  unfolding main_loop main_round
  main_loop-pressed [] later r r' flash end h e ends = ground (
    arith,
    h.toggled,
    h.pressed,
    e,
    ends (main_loop check later),
    ends (main_loop check (r' ∷ later)),
  )
  main_loop-pressed (i ∷ idles) later r r' flash end h e ends =
      let rest : Pressing idles r r' = record {
        idle = h.idle.1;
        toggled = h.toggled.1;
        pressed = h.pressed;
      } in
      ground
        (arith, h.idle.0, h.toggled.0, main_loop-pressed idles later r r' flash end rest e ends)

  -- `main` up to the end of the check behind the first press.
  pub main-pressed :
      (board : Board) (btn_flag : Bool) (idles later : List Round) (r r' : Round) (flash : F)
      (end : Progress F)
      → (config_devices board btn_flag).1 ≡ pos 0
      → Pressing idles r r'
      → checked check (check flash) ≡ end
      → ((k : F → Bool → Progress F) → resume check k end ≡ end)
      → main check board true (idles ++ (r ∷ r' ∷ later)) flash btn_flag ≡ end
  unfolding main config_devices
  main-pressed board btn_flag idles later r r' flash end ok pressing e ends =
      ground (arith, ok, main_loop-pressed idles later r r' flash end pressing e ends)
