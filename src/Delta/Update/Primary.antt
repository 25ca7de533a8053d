-- ===== src/Delta/Update/Primary.antt =====
-- The update of app/src/delta/delta.c and the flash in front of the secondary slot, where the running
-- image is.
use delta_updates_for_embedd.Common.{
  ℕ, ◌+◌, ◌%◌, ◌≤◌, ◌<◌, arith, ◌≡◌, refl, ◌∙◌, ◌⊎◌, inl, List, [], ◌∷◌, length, subst, Option,
  some, none, ℤ, pos, Bool, true, false, not, is_neg, is_zero, ltb, if◌then◌else◌,
}
use delta_updates_for_embedd.Detools.Decoder.{Decoder}
use delta_updates_for_embedd.Detools.Apply.{ApplyPatch, Stepped}
use delta_updates_for_embedd.Detools.Run.{apply_patch_callbacks}
use delta_updates_for_embedd.Detools.Run.Kept.{IsKept, apply_patch_callbacks-Kept}
use delta_updates_for_embedd.Delta.Codes.{page_size}
use delta_updates_for_embedd.Delta.Platform.{Platform, Layout, FlashLaws, BoundLaws}
use delta_updates_for_embedd.Delta.Flash.{
  FlashMem, page_start, erase_page, delta_flash_write, delta_flash_from_read,
  delta_flash_patch_read, delta_flash_seek, delta_init_flash_mem, delta_init,
}
use delta_updates_for_embedd.Delta.Update.{
  delta_read_patch_header, delta_callbacks, upgrade, upgrade_with, delta_check_and_apply, Ending,
  returned,
}

module _ {p : Platform} (l : FlashLaws p) (b : BoundLaws l) (lay : Layout) (before : ℕ → ℕ) where
  open p use {Device, flash_erase, flash_write, boot_request_upgrade}
  open l use {peek}

  -- In front of the secondary slot the flash holds what it held before.
  pub record IsUntouched (d : Device) : Type 0 where
    pub same : (a : ℕ) → a < lay.secondary_offset → peek d a ≡ before a

  -- And the next write is in the slot or behind it.
  pub record IsBehind (flash : FlashMem Device) : Type 0 where
    pub untouched : IsUntouched flash.device
    pub from_start : lay.secondary_offset ≤ flash.to_current

  erase-IsUntouched :
      (d : Device) (off n : ℕ)
      → lay.secondary_offset ≤ off
      → IsUntouched d
      → IsUntouched (flash_erase d off n).0
  erase-IsUntouched d off n h u = record {
    same = λ a ha. b.erase_bound d off n a (inl (omega arith)) ∙ u.same a ha;
  }

  write-IsUntouched :
      (d : Device) (off : ℕ) (bytes : List ℕ)
      → lay.secondary_offset ≤ off
      → IsUntouched d
      → IsUntouched (flash_write d off bytes).0
  write-IsUntouched d off bytes h u = record {
    same = λ a ha. b.write_bound d off bytes a (inl (omega arith)) ∙ u.same a ha;
  }

  module _ (aligned : lay.secondary_offset % page_size ≡ 0) where
    write-IsBehind :
        (flash : FlashMem Device) (bytes : List ℕ)
        → IsBehind flash
        → IsBehind (delta_flash_write p flash bytes).0
    unfolding delta_flash_write erase_page
    write-IsBehind flash bytes u =
        let page = page_start p (flash.to_current + length bytes) in
        let behind : lay.secondary_offset ≤ page = omega (arith, u.from_start) in
        let d = (flash_erase flash.device page page_size).0 in
        let erased = erase-IsUntouched flash.device page page_size behind u.untouched in
        record {
          untouched = ground (
            arith,
            u.untouched,
            erased,
            write-IsUntouched flash.device flash.to_current bytes u.from_start u.untouched,
            write-IsUntouched d flash.to_current bytes u.from_start erased,
          );
          from_start = ground (arith, u.from_start);
        }

    read-IsBehind :
        (flash : FlashMem Device) (n : ℕ)
        → IsBehind flash
        → IsBehind (delta_flash_from_read p flash n).0
    unfolding delta_flash_from_read
    read-IsBehind flash n u = record {
      untouched = ground (arith, u.untouched);
      from_start = ground (arith, u.from_start);
    }

    patch-IsBehind :
        (flash : FlashMem Device) (n : ℕ)
        → IsBehind flash
        → IsBehind (delta_flash_patch_read p flash n).0
    unfolding delta_flash_patch_read
    patch-IsBehind flash n u = record {
      untouched = ground (arith, u.untouched);
      from_start = ground (arith, u.from_start);
    }

    seek-IsBehind :
        (flash : FlashMem Device) (step : ℤ)
        → IsBehind flash
        → IsBehind (delta_flash_seek p flash step).0
    unfolding delta_flash_seek
    seek-IsBehind flash step u = record {
      untouched = ground (arith, u.untouched);
      from_start = ground (arith, u.from_start);
    }

    IsBehind-IsKept : IsKept (delta_callbacks p) IsBehind
    IsBehind-IsKept = record {
      by_read = read-IsBehind;
      by_seek = seek-IsBehind;
      by_patch = patch-IsBehind;
      by_write = write-IsBehind;
    }

    init-IsBehind :
        (flash : FlashMem Device) → IsUntouched flash.device → IsBehind (delta_init p lay flash).0
    unfolding delta_init delta_init_flash_mem erase_page
    init-IsBehind flash u =
        let page = page_start p lay.secondary_offset in
        let behind : lay.secondary_offset ≤ page = omega (arith, aligned) in
        record {
          untouched = ground (arith, erase-IsUntouched flash.device page page_size behind u);
          from_start = ground arith;
        }

    header-IsUntouched :
        (flash : FlashMem Device) (old : ℕ)
        → lay.secondary_offset ≤ lay.storage_offset
        → IsUntouched flash.device
        → IsUntouched (delta_read_patch_header p lay flash old).0.device
    unfolding delta_read_patch_header
    header-IsUntouched flash old h u =
        ground
          (arith, u, write-IsUntouched flash.device lay.storage_offset (0 ∷ 0 ∷ 0 ∷ 0 ∷ []) h u)

  -- A flash that is untouched, or what a request for the upgrade makes of one.
  abbrev pub Asked : Device → Type 0
  Asked d' = (d : Device) × ((d' ≡ d) ⊎ (d' ≡ (boot_request_upgrade d).0)) × IsUntouched d

  some-Asked :
      (x r : FlashMem Device × Ending) → some x ≡ some r → Asked x.0.device → Asked r.0.device
  some-Asked x r e h = let same : x ≡ r = cc in subst (λ r. Asked r.0.device) same h

  upgrade-Asked :
      (flash : FlashMem Device) (ret : ℤ)
      → IsUntouched flash.device
      → Asked (upgrade p flash ret).0.device
  upgrade-Asked flash ret u = (flash.device, ground arith, u)

  upgrade_with-Asked :
      {S : Type 0} (o : Option (Stepped S (FlashMem Device))) (r : FlashMem Device × Ending)
      → ((t : Stepped S (FlashMem Device)) → o ≡ some t → IsUntouched t.arg.device)
      → upgrade_with p o ≡ some r
      → Asked r.0.device
  upgrade_with-Asked none r all e = absurd (cc)
  upgrade_with-Asked (some t) r all e =
      some-Asked (upgrade p t.arg t.res) r e (upgrade-Asked t.arg t.res (all t refl))

  branches-Asked :
      (b1 b2 b3 : Bool) (x y z r : FlashMem Device × Ending) (o : Option (FlashMem Device × Ending))
      → IsUntouched x.0.device
      → IsUntouched y.0.device
      → IsUntouched z.0.device
      → (o ≡ some r → Asked r.0.device)
      → (if b1 then some x else if b2 then (if b3 then some y else o) else some z) ≡ some r
      → Asked r.0.device
  branches-Asked true b2 b3 x y z r o hx hy hz ho e = some-Asked x r e (x.0.device, inl refl, hx)
  branches-Asked false false b3 x y z r o hx hy hz ho e =
      some-Asked z r e (z.0.device, inl refl, hz)
  branches-Asked false true true x y z r o hx hy hz ho e =
      some-Asked y r e (y.0.device, inl refl, hy)
  branches-Asked false true false x y z r o hx hy hz ho e = ho e

-- For every patch, and whatever the flash driver, the decoder and the bootloader return: where the
-- secondary slot starts at a page and the storage partition does not start in front of it, and an erase
-- and a write touch nothing outside of their range, an update that ends, with a return or a restart,
-- leaves each byte in front of the secondary slot as it was, up to what the request for the upgrade
-- itself does to the flash.
pub delta_check_and_apply-untouched :
    {p : Platform} (l : FlashLaws p) (b : BoundLaws l) (lay : Layout) (h : Decoder)
    (rounds fuel : ℕ) (memory : ApplyPatch h.State) (flash : FlashMem p.Device)
    (r : FlashMem p.Device × Ending)
    → lay.secondary_offset % page_size ≡ 0
    → lay.secondary_offset ≤ lay.storage_offset
    → delta_check_and_apply p h lay rounds fuel memory flash ≡ some r
    → (d : p.Device) × ((r.0.device ≡ d) ⊎ (r.0.device ≡ (p.boot_request_upgrade d).0))
      × ((a : ℕ) → a < lay.secondary_offset → l.peek d a ≡ l.peek flash.device a)
unfolding delta_check_and_apply
delta_check_and_apply-untouched {p} l b lay h rounds fuel memory flash r aligned order e =
    let before = l.peek flash.device in
    let (flash1, ret, size) = delta_read_patch_header p lay flash 0 in
    let (flash2, ret2) = delta_init p lay flash1 in
    let start : IsUntouched l b lay before flash.device = record { same = λ a ha. refl } in
    let header = header-IsUntouched l b lay before aligned flash 0 order start in
    let ready = init-IsBehind l b lay before aligned flash1 header in
    let asked =
      branches-Asked l b lay before (is_neg ret) (ltb 0 size) (not (is_zero ret2))
        (flash1, returned ret) (flash2, returned ret2) (flash1, returned (pos 0)) r
        (upgrade_with p
          (apply_patch_callbacks h (delta_callbacks p) rounds fuel memory size flash2))
        header ready.untouched header
        (λ o.
          upgrade_with-Asked l b lay before _ r
            (λ t et.
              (apply_patch_callbacks-Kept h (IsBehind-IsKept l b lay before aligned) rounds fuel
                memory size flash2 t et ready).untouched)
            o)
        e in
    (asked.0, asked.1, asked.2.same)
