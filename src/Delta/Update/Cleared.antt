-- ===== src/Delta/Update/Cleared.antt =====
-- The mark of a new patch, as app/src/delta/delta.c clears it.
use delta_updates_for_embedd.Common.{ℕ, suc, ◌+◌, ◌-◌, ◌≤◌, ◌<◌, arith, ◌≡◌, ◌≢◌, ap, ◌∙◌, pos}
use delta_updates_for_embedd.Delta.Codes.{header_size}
use delta_updates_for_embedd.Delta.Platform.{Platform, Layout, FlashLaws, WorkingLaws, ClearLaws}
use delta_updates_for_embedd.Delta.Update.{new_patch, word_at}
use delta_updates_for_embedd.Delta.Update.Header.{get_or-zeros}
use delta_updates_for_embedd.Delta.Update.Begins.{zeros}
use delta_updates_for_embedd.Delta.Update.Ready.{IsLaidOut}

module _ {p : Platform} (l : FlashLaws p) {size : ℕ} (w : WorkingLaws l size) (lay : Layout)
    (laid : IsLaidOut lay size) (room : header_size ≤ lay.storage_size) where
  open p use {Device, flash_read, flash_write}
  open l use {peek}

  pub mark_cleared :
      (cl : ClearLaws l) (d : Device) (i : ℕ)
      → i < 4
      → peek (flash_write d lay.storage_offset zeros).0 (lay.storage_offset + i) ≡ 0
  mark_cleared cl d i h =
      cl.clear_in d lay.storage_offset zeros (lay.storage_offset + i)
        (w.write_works d lay.storage_offset zeros
          (omega arith, (omega arith, (omega arith, (omega arith, tt))))
          (omega (arith, laid.in_flash)))
        (omega arith) (omega arith) (get_or-zeros (lay.storage_offset + i - lay.storage_offset))

  -- A cleared mark is read, and is none.
  pub no_mark_left :
      (d : Device)
      → ((i : ℕ) → i < 4 → peek d (lay.storage_offset + i) ≡ 0)
      → ((flash_read d (pos lay.storage_offset) 8).0 ≡ pos 0)
        × (word_at (flash_read d (pos lay.storage_offset) 8).1 0 ≢ new_patch)
  no_mark_left d clear =
      let (ok, bytes) = w.read_works d lay.storage_offset 8 (omega (arith, laid.in_flash)) in
      let o = lay.storage_offset in
      let at : (a i : ℕ) → a ≡ o + i → i < 4 → peek d a ≡ 0 =
        λ a i e h. ap (λ b. peek d b) e ∙ clear i h in
      (
        ok,
        rw bytes λ e. omega (
          arith,
          e,
          at o 0 (omega arith) (omega arith),
          at (suc o) 1 (omega arith) (omega arith),
          at (suc (suc o)) 2 (omega arith) (omega arith),
          at (suc (suc (suc o))) 3 (omega arith) (omega arith),
        ),
      )
