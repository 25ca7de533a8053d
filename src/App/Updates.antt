-- ===== src/App/Updates.antt =====
-- The main loop of app/src/main.c from the first press of the button to the end of the update of
-- app/src/delta/delta.c.
use delta_updates_for_embedd.Common.{
  ℕ, ◌+◌, ◌-◌, ◌*◌, ◌≤◌, ◌<◌, arith, ◌≡◌, ◌≢◌, refl, ap, ◌∙◌, sym, Bool, true, List, [], ◌∷◌, ◌++◌,
  length, All, some, pos, neg, word,
}
use delta_updates_for_embedd.Detools.Codes.{not_enough_patch_data}
use delta_updates_for_embedd.Detools.Decoder.{Decoder, FiniteOutput}
use delta_updates_for_embedd.Detools.Inflate.{InflateLaws, inflate, IsNeeded}
use delta_updates_for_embedd.Detools.Apply.{ApplyPatch}
use delta_updates_for_embedd.Detools.Format.{bytes_of, Segment, stream, patch_bytes, target, Fits}
use delta_updates_for_embedd.Detools.ErrorText.{text_of, detools_error_as_string}
use delta_updates_for_embedd.Delta.Codes.{page_size, header_size}
use delta_updates_for_embedd.Delta.ErrorText.{delta_error_as_string}
use delta_updates_for_embedd.Delta.Platform.{
  Platform, Layout, FlashLaws, WorkingLaws, ReadLaws, ClearLaws,
}
use delta_updates_for_embedd.Delta.Flash.{FlashMem}
use delta_updates_for_embedd.Delta.Flash.Bytes.{length-bytes_of}
use delta_updates_for_embedd.Delta.Update.{new_patch, word_at, delta_check_and_apply}
use delta_updates_for_embedd.Delta.Update.Ready.{IsLaidOut}
use delta_updates_for_embedd.Delta.Update.Begins.{zeros}
use delta_updates_for_embedd.Delta.Update.Cleared.{mark_cleared, no_mark_left}
use delta_updates_for_embedd.Delta.Update.Whole.{delta_check_and_apply-target}
use delta_updates_for_embedd.Delta.Update.Cut.{delta_check_and_apply-cut}
use delta_updates_for_embedd.App.{Board, Round, Progress, ended, restarting, main, config_devices}
use delta_updates_for_embedd.App.Pressed.{Pressing, main-pressed}
use delta_updates_for_embedd.App.Loop.{IsToggled, IsLooping, main-no_new_patch}

restarting-injective :
    {F : Type 0} (a b : F) → ◌≡◌ {A = Progress F} (restarting a) (restarting b) → a ≡ b
restarting-injective a b e = cc

cut_text : delta_error_as_string (neg not_enough_patch_data) ≡ "Not enough patch data."
unfolding delta_error_as_string detools_error_as_string text_of
cut_text = refl

module _ {p : Platform} (l : FlashLaws p) {size : ℕ} (w : WorkingLaws l size) (reads : ReadLaws p)
    (lay : Layout) (laid : IsLaidOut lay size) (h : Decoder) (f : FiniteOutput h)
    (g : InflateLaws h) (rounds fuel : ℕ) (memory : ApplyPatch h.State) (board : Board)
    (btn_flag : Bool) (idles later : List Round) (r r' : Round) (flash : FlashMem p.Device)
    (compression n : ℕ) (segments : List Segment) (z : List ℕ)
    (configured : (config_devices board btn_flag).1 ≡ pos 0) (pressing : Pressing idles r r')
    (mark : word_at (bytes_of (l.peek flash.device) lay.storage_offset 8) 0 ≡ new_patch)
    (stated : word_at (bytes_of (l.peek flash.device) lay.storage_offset 8) 4 ≡ n)
    (room : header_size + n ≤ lay.storage_size) (low : compression < 16)
    (inflates : inflate g g.initial z ≡ stream segments) (needed : IsNeeded g g.initial z)
    (small : n < word) (chunks : n ≤ 512 * rounds) (enough : 2 * (f.gain * n) + 2 ≤ fuel)
    (fits : Fits
      (λ offset. l.peek flash.device (lay.primary_offset + offset))
      (lay.primary_size - 1)
      segments
      0) where
  abbrev image : List ℕ
  image = target (λ offset. l.peek flash.device (lay.primary_offset + offset)) segments 0

  abbrev run : Progress (FlashMem p.Device)
  run =
      main (delta_check_and_apply p h lay rounds fuel memory) board true (idles ++ (r ∷ r' ∷ later))
        flash btn_flag

  updated :
      bytes_of (l.peek flash.device) (lay.storage_offset + header_size) n
        ≡ patch_bytes compression (length image) z
      → 0 < length image
      → length image ≤ 2 * page_size
      → ((d : p.Device) → (p.boot_request_upgrade d).1 ≡ pos 0)
      → (flash' : FlashMem p.Device) × (d : p.Device) × (run ≡ restarting flash')
        × (flash'.device ≡ (p.boot_request_upgrade d).0)
        × (bytes_of (l.peek d) lay.secondary_offset (length image) ≡ image)
        × ((a : ℕ)
            → lay.storage_offset ≤ a
            → l.peek d a ≡ l.peek (p.flash_write flash.device lay.storage_offset zeros).0 a)
  updated stored some_image two_pages boots =
      let measured : n ≡ length (patch_bytes compression (length image) z) =
        sym (length-bytes_of (l.peek flash.device) (lay.storage_offset + header_size) n)
        ∙ ap length stored in
      let (flash', d, updates, same, whole, source, storage) =
        delta_check_and_apply-target l w reads lay laid h f g rounds fuel memory flash compression
          segments z mark (stated ∙ measured) (rw measured at stored) (rw measured at room) low
          inflates needed fits some_image two_pages (rw measured at small) (rw measured at chunks)
          (rw measured at enough) boots in
      (
        flash',
        d,
        main-pressed (delta_check_and_apply p h lay rounds fuel memory) board btn_flag idles later r
            r' flash (restarting flash') configured pressing (rw updates refl) (λ k. refl),
        same,
        whole,
        storage,
      )

  -- `main` from its start to the restart, where the devices are configured, the LED is toggled up to the
  -- round behind the first press of the button, and the flash holds a new patch: on a flash whose driver
  -- works and whose partitions are laid out one behind the other below 2 ^ 31, with a secondary slot that
  -- starts at a page and has three pages or more, and with the mark, the size and a patch of
  -- the format for the source in the primary slot in the storage partition, a compression below 16, input
  -- of which every byte is needed, a target of one byte to two pages, and rounds that read no byte behind
  -- the last but one of the slot, `main` ends in a restart, behind a request for the upgrade on a flash
  -- that holds the target from the start of the secondary slot on. The size is below 2 ^ 32, the decoder
  -- keeps its laws, reads give bytes, the request succeeds, and the rounds and the fuel are enough.
  pub main-restarts :
      bytes_of (l.peek flash.device) (lay.storage_offset + header_size) n
        ≡ patch_bytes compression (length image) z
      → 0 < length image
      → length image ≤ 2 * page_size
      → ((d : p.Device) → (p.boot_request_upgrade d).1 ≡ pos 0)
      → (flash' : FlashMem p.Device) × (d : p.Device) × (run ≡ restarting flash')
        × (flash'.device ≡ (p.boot_request_upgrade d).0)
        × (bytes_of (l.peek d) lay.secondary_offset (length image) ≡ image)
  main-restarts stored some_image two_pages boots =
      let (flash', d, restarts, same, whole, storage) = updated stored some_image two_pages boots in
      (flash', d, restarts, same, whole)

  -- The update is applied once: where `main` has ended in a restart, in the setting of the theorem on the
  -- restart (the secondary slot of three pages or more at a page, the partitions below 2 ^ 31), and the device starts again with the mark as `main` left it, `main` keeps going round its loop
  -- with the flash as it is, whatever buttons are pressed, if the devices are configured and the LED is
  -- toggled in every round. A write of zeros clears what it is written to, and the request for the upgrade
  -- leaves the storage partition and what is behind it as they are.
  pub main-once :
      (cl : ClearLaws l) (flash' again : FlashMem p.Device) (board' : Board) (btn_flag' : Bool)
      (turns : List Round)
      → bytes_of (l.peek flash.device) (lay.storage_offset + header_size) n
        ≡ patch_bytes compression (length image) z
      → 0 < length image
      → length image ≤ 2 * page_size
      → ((d : p.Device) → (p.boot_request_upgrade d).1 ≡ pos 0)
      → ((d : p.Device) (a : ℕ)
          → lay.storage_offset ≤ a
          → l.peek (p.boot_request_upgrade d).0 a ≡ l.peek d a)
      → run ≡ restarting flash'
      → ((i : ℕ)
          → i < 4
          → l.peek again.device (lay.storage_offset + i)
            ≡ l.peek flash'.device (lay.storage_offset + i))
      → (config_devices board' btn_flag').1 ≡ pos 0
      → All IsToggled turns
      → IsLooping again (
          main (delta_check_and_apply p h lay rounds fuel memory) board' true turns again btn_flag')
  main-once cl flash' again board' btn_flag' turns stored some_image two_pages boots keeps runs same
        ok on =
      let (f1, d, restarts, boot, whole, storage) = updated stored some_image two_pages boots in
      let one : flash' ≡ f1 = restarting-injective flash' f1 (sym runs ∙ restarts) in
      let some_room : header_size ≤ lay.storage_size = omega arith in
      let (read, no_mark) = no_mark_left l w lay laid some_room again.device (λ i hi.
        let a = lay.storage_offset + i in
        same i hi
        ∙ ap (λ x. l.peek x.device a) one
        ∙ ap (λ x. l.peek x a) boot
        ∙ keeps d a (omega arith)
        ∙ storage a (omega arith)
        ∙ mark_cleared l w lay laid some_room cl flash.device i hi) in
      main-no_new_patch p h lay rounds fuel memory board' turns again btn_flag' ok on read no_mark

  -- `main` on a patch that is cut short, where the devices are configured, the LED is toggled up to the
  -- round behind the first press of the button, and the storage partition holds the mark, a size of five
  -- bytes or more, and so many bytes that are the front of a patch of the format but not all of it: `main`
  -- prints "Not enough patch data." and returns, and the flash in front of the secondary slot is as it
  -- was. The driver, the partitions, the patch, the decoder, the rounds and the fuel are as in the theorem
  -- on the restart: the partitions end below 2 ^ 31, and the secondary slot starts at a page and has three
  -- pages or more.
  pub main-cut :
      (missing : List ℕ)
      → bytes_of (l.peek flash.device) (lay.storage_offset + header_size) n ++ missing
        ≡ patch_bytes compression (length image) z
      → 5 ≤ n
      → missing ≢ []
      → 0 < length image
      → length image ≤ 2 * page_size
      → (flash' : FlashMem p.Device) × (run ≡ ended flash' (some "Not enough patch data."))
        × ((a : ℕ) → a < lay.secondary_offset → l.peek flash'.device a ≡ l.peek flash.device a)
  main-cut missing stored holds more some_image two_pages =
      let (flash', fails, kept, storage, written, front) =
        delta_check_and_apply-cut l w reads lay laid h f g rounds fuel memory flash compression n
          segments z missing mark stated stored holds more room low inflates needed fits some_image
          two_pages small chunks enough in
      (
        flash',
        main-pressed (delta_check_and_apply p h lay rounds fuel memory) board btn_flag idles later r
            r' flash (ended flash' (some "Not enough patch data.")) configured pressing
            (rw (fails, cut_text) refl) (λ k. refl),
        kept,
      )
