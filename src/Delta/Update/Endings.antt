-- ===== src/Delta/Update/Endings.antt =====
-- How `delta_check_and_apply` ends: when it restarts the device, what it does where there is no new
-- patch, and that it ends at all.
use delta_updates_for_embedd.Common.{ℕ, zero, suc, ◌+◌, ◌*◌, ◌≤◌, ◌<◌, arith, ◌≡◌, ◌≢◌, refl}
use delta_updates_for_embedd.Common.{List, [], ◌∷◌, length, get_or, ℤ, pos, Option, none, some}
use delta_updates_for_embedd.Common.{
  is_zero, is_neg, leb_ℤ, ltb, not, Bool, if◌then◌else◌, ltb→lt, true, false, word, All,
}
use delta_updates_for_embedd.Detools.Decoder.{Decoder, PollLaws, FiniteOutput}
use delta_updates_for_embedd.Detools.Apply.{ApplyPatch, Stepped}
use delta_updates_for_embedd.Detools.Run.{apply_patch_callbacks}
use delta_updates_for_embedd.Common.{signed32, ◌^◌}
use delta_updates_for_embedd.Detools.Run.Rounds.{apply_patch_callbacks-ne-none}
use delta_updates_for_embedd.Delta.Platform.{Platform, Layout, ReadLaws}
use delta_updates_for_embedd.Delta.Flash.{FlashMem, delta_init, delta_flash_patch_read}
use delta_updates_for_embedd.Delta.Update.{
  delta_read_patch_header, delta_check_and_apply, delta_callbacks, new_patch, word_at, Ending,
  returned, rebooted, upgrade_with,
}

-- The three returns of `delta_check_and_apply` do not restart the device.
third_branch :
    {F : Type 0} (b1 b2 b3 : Bool) (x y z : F × ℤ) (o : Option (F × Ending)) {flash : F}
    → (if b1
        then some (x.0, returned x.1)
        else if b2
        then (if b3 then some (y.0, returned y.1) else o)
        else some (z.0, returned z.1))
      ≡ some (flash, rebooted)
    → (b2 ≡ true) × (o ≡ some (flash, rebooted))
third_branch true b2 b3 x y z o e = cc
third_branch false false b3 x y z o e = cc
third_branch false true true x y z o e = cc
third_branch false true false x y z o e = (refl, e)

module _ (p : Platform) (h : Decoder) (lay : Layout) where
  open p use {Device, flash_read, flash_write, boot_request_upgrade}

  -- What the patch applier leaves, started on what the header and the initialisation leave.
  abbrev pub applied :
      ℕ → ℕ → ApplyPatch h.State → FlashMem Device → Option (Stepped h.State (FlashMem Device))
  applied rounds fuel memory flash =
      let (flash1, ret, patch_size) = delta_read_patch_header p lay flash 0 in
      apply_patch_callbacks h (delta_callbacks p) rounds fuel memory patch_size
        (delta_init p lay flash1).0

  upgrade-rebooted :
      (o : Option (Stepped h.State (FlashMem Device))) (flash' : FlashMem Device)
      → upgrade_with p o ≡ some (flash', rebooted)
      → (t : Stepped h.State (FlashMem Device)) × (o ≡ some t)
        × (leb_ℤ t.res (pos 0) ≡ false)
        × ((boot_request_upgrade t.arg.device).1 ≡ pos 0)
        × (flash'.device ≡ (boot_request_upgrade t.arg.device).0)
  upgrade-rebooted none flash' e = cc
  upgrade-rebooted (some t) flash' e = (t, refl, ground arith, ground arith, ground arith)

  pub above_zero : (n : ℕ) → leb_ℤ (signed32 n) (pos 0) ≡ false → (0 < n) × (n < 2 ^ 31)
  above_zero n e = ground arith

  branch-rebooted :
      (rounds fuel : ℕ) (memory : ApplyPatch h.State) (flash flash' : FlashMem Device)
      → delta_check_and_apply p h lay rounds fuel memory flash ≡ some (flash', rebooted)
      → (0 < (delta_read_patch_header p lay flash 0).2)
        × (upgrade_with p (applied rounds fuel memory flash) ≡ some (flash', rebooted))
  unfolding delta_check_and_apply
  branch-rebooted rounds fuel memory flash flash' e =
      let (flash1, ret, size) = delta_read_patch_header p lay flash 0 in
      let (flash2, ret2) = delta_init p lay flash1 in
      let (some_size, ran) =
        third_branch (is_neg ret) (ltb 0 size) (not (is_zero ret2)) (flash1, ret) (flash2, ret2)
          (flash1, pos 0) (upgrade_with p (applied rounds fuel memory flash)) e in
      (ltb→lt 0 size some_size, ran)

  -- A size above 0 comes from a header with the mark.
  header_accepted :
      (flash : FlashMem Device) (old : ℕ)
      → old < (delta_read_patch_header p lay flash old).2
      → let header = (flash_read flash.device (pos lay.storage_offset) 8).1 in
        (word_at header 0 ≡ new_patch)
        × ((delta_read_patch_header p lay flash old).2 ≡ word_at header 4)
  unfolding delta_read_patch_header
  header_accepted flash old size = ground arith

  -- The device is restarted only behind a header with the mark of a new patch and a size above 0, a
  -- patch applier that returned a result above 0, and a request for the upgrade that succeeded.
  pub rebooted_needs :
      (rounds fuel : ℕ) (memory : ApplyPatch h.State) (flash flash' : FlashMem Device)
      → delta_check_and_apply p h lay rounds fuel memory flash ≡ some (flash', rebooted)
      → (t : Stepped h.State (FlashMem Device)) × (word_at
            (flash_read flash.device (pos lay.storage_offset) 8).1
            0
          ≡ new_patch)
        × (0 < word_at (flash_read flash.device (pos lay.storage_offset) 8).1 4)
        × (applied rounds fuel memory flash ≡ some t)
        × (leb_ℤ t.res (pos 0) ≡ false)
        × ((boot_request_upgrade t.arg.device).1 ≡ pos 0)
        × (flash'.device ≡ (boot_request_upgrade t.arg.device).0)
  unfolding delta_check_and_apply
  rebooted_needs rounds fuel memory flash flash' e =
      let (size, ran) = branch-rebooted rounds fuel memory flash flash' e in
      let ends = upgrade-rebooted (applied rounds fuel memory flash) flash' ran in
      let (mark, stored) = header_accepted flash 0 size in
      (ends.0, mark, rw (← stored) size, ends.1, ends.2, ends.3, ends.4)

  no_mark :
      (flash : FlashMem Device) (old : ℕ)
      → (flash_read flash.device (pos lay.storage_offset) 8).0 ≡ pos 0
      → word_at (flash_read flash.device (pos lay.storage_offset) 8).1 0 ≢ new_patch
      → delta_read_patch_header p lay flash old ≡ (flash, pos 0, old)
  unfolding delta_read_patch_header
  no_mark flash old ok other = ground arith

  -- Where the header is read and does not begin with the mark, the call returns 0 and leaves the
  -- flash, the offsets of the structure included, as it is.
  pub no_new_patch :
      (rounds fuel : ℕ) (memory : ApplyPatch h.State) (flash : FlashMem Device)
      → (flash_read flash.device (pos lay.storage_offset) 8).0 ≡ pos 0
      → word_at (flash_read flash.device (pos lay.storage_offset) 8).1 0 ≢ new_patch
      → delta_check_and_apply p h lay rounds fuel memory flash ≡ some (flash, returned (pos 0))
  unfolding delta_check_and_apply
  no_new_patch rounds fuel memory flash ok other = rw (no_mark flash 0 ok other)

  get_or-lt : (xs : List ℕ) (i : ℕ) → All (λ b. b < 256) xs → get_or xs i 0 < 256
  get_or-lt [] i e = omega arith
  get_or-lt (x ∷ xs) zero e = e.0
  get_or-lt (x ∷ xs) (suc i) e = get_or-lt xs i e.1

  stored_size-lt :
      ReadLaws p → (flash : FlashMem Device) → (delta_read_patch_header p lay flash 0).2 < word
  unfolding delta_read_patch_header
  stored_size-lt r flash =
      let header = (flash_read flash.device (pos lay.storage_offset) 8).1 in
      let bytes = r.read_bytes flash.device (pos lay.storage_offset) 8 in
      ground (
        arith,
        get_or-lt header 4 bytes,
        get_or-lt header 5 bytes,
        get_or-lt header 6 bytes,
        get_or-lt header 7 bytes,
      )

  pub patch_read-size :
      ReadLaws p
      → (flash : FlashMem Device) (n : ℕ) → length (delta_flash_patch_read p flash n).2 ≤ n
  unfolding delta_flash_patch_read
  patch_read-size r flash n = ground (arith, r.read_size flash.device (pos flash.patch_current) n)

  -- For a decoder that keeps its promises and holds finitely many bytes of output, and a flash
  -- driver whose reads give bytes, no more than they are asked for: the update ends, with a return
  -- or a restart, on every flash. The rounds and the fuel that are enough for the size that the
  -- header states are enough for the whole.
  pub check_and_apply-ne-none :
      (r : ReadLaws p) (l : PollLaws h) (f : FiniteOutput h) (rounds fuel : ℕ)
      (memory : ApplyPatch h.State) (flash : FlashMem Device)
      → (delta_read_patch_header p lay flash 0).2 ≤ 512 * rounds
      → 2 * (f.gain * (delta_read_patch_header p lay flash 0).2) + 2 ≤ fuel
      → delta_check_and_apply p h lay rounds fuel memory flash ≢ none
  unfolding delta_check_and_apply
  check_and_apply-ne-none r l f rounds fuel memory flash e1 e2 =
      let (flash1, ret, size) = delta_read_patch_header p lay flash 0 in
      ground (
        arith,
        apply_patch_callbacks-ne-none h f l (delta_callbacks p) rounds fuel memory size
            (delta_init p lay flash1).0 (patch_read-size r) (stored_size-lt r flash) e1 e2,
      )
