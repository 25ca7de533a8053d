-- ===== src/Delta/Tests/Wholes.antt =====
-- The theorem on a whole update at a concrete flash, with a patch of two rounds.
use delta_updates_for_embedd.Common.{
  ℕ, ◌+◌, ◌-◌, ◌≤◌, ◌<◌, arith, ◌≡◌, refl, inl, inr, List, [], ◌∷◌, ◌++◌, get_or, some, pos, neg,
  leb, if◌then◌else◌,
}
use delta_updates_for_embedd.Detools.Codes.{not_enough_patch_data}
use delta_updates_for_embedd.Detools.Stored.{stored, stored-FiniteOutput}
use delta_updates_for_embedd.Detools.Stored.Inflating.{stored-InflateLaws}
use delta_updates_for_embedd.Detools.Chunk.RoundTrip.{pack_header_size}
use delta_updates_for_embedd.Detools.Format.{bytes_of, Fits}
use delta_updates_for_embedd.Detools.Tests.{fresh}
use delta_updates_for_embedd.Detools.Tests.Formats.{
  two_rounds, two_rounds_stream, stored-IsNeeded, two_rounds-inflate, cut_stream, second_round,
}
use delta_updates_for_embedd.Delta.Platform.{Layout, erased_byte}
use delta_updates_for_embedd.Delta.Ram.{
  Ram, ram, ram_peek, ram-FlashLaws, ram-WorkingLaws, ram-ReadLaws,
}
use delta_updates_for_embedd.Delta.Flash.{
  FlashMem, erase_page, delta_flash_write, delta_init_flash_mem, delta_init,
}
use delta_updates_for_embedd.Delta.Update.{returned, rebooted, delta_check_and_apply}
use delta_updates_for_embedd.Delta.Update.Ready.{IsLaidOut, IsReady, position, written, patch_left}
use delta_updates_for_embedd.Delta.Update.Images.{to_write_images}
use delta_updates_for_embedd.Delta.Update.Begins.{zeros, init-IsReady}
use delta_updates_for_embedd.Delta.Update.Whole.{delta_check_and_apply-target}
use delta_updates_for_embedd.Delta.Update.Cut.{delta_check_and_apply-cut}
use delta_updates_for_embedd.Delta.Tests.{flash_mem}

abbrev pub wide_layout : Layout
wide_layout = record {
  primary_offset = 0x1000;
  primary_size = 0x1000;
  secondary_offset = 0x2000;
  secondary_size = 0x3000;
  storage_offset = 0x5000;
  storage_size = 0x1000;
}

-- The storage partition: the mark, the size and the patch.
abbrev two_rounds_storage : List ℕ
two_rounds_storage = 0x4E ∷ 0x45 ∷ 0x57 ∷ 0x50 ∷ 15 ∷ 0 ∷ 0 ∷ 0 ∷ 4 ∷ 5 ∷ 0x44 ∷ two_rounds_stream

-- ABC is in the primary slot.
abbrev pub two_rounds_loaded : Ram
two_rounds_loaded = record {
  byte_at = λ a.
      if leb 0x5000 a
      then get_or two_rounds_storage (a - 0x5000) erased_byte
      else get_or (65 ∷ 66 ∷ 67 ∷ []) (a - 0x1000) erased_byte;
  upgrades = 0;
}

pub wide_layout-IsLaidOut : IsLaidOut wide_layout 0x6000
wide_layout-IsLaidOut = record {
  aligned = omega arith;
  primary_first = omega arith;
  some_source = omega arith;
  room = omega arith;
  storage_last = omega arith;
  in_flash = omega arith;
  in_range = omega arith;
}

pub loaded-Fits :
    Fits (λ offset. ram_peek two_rounds_loaded (0x1000 + offset)) (0x1000 - 1) two_rounds 0
loaded-Fits = (
  omega arith,
  omega arith,
  omega arith,
  (omega arith, inr (omega arith), omega arith),
  inr λ e. cc,
  (omega arith, omega arith, omega arith, (omega arith, inl refl, omega arith), inl refl, tt),
)

delta_check_and_apply-target_example :
    (flash' : FlashMem Ram) × (d : Ram) × (delta_check_and_apply ram stored wide_layout 1 32 fresh
        (flash_mem two_rounds_loaded)
      ≡ some (flash', rebooted))
    × (flash'.device ≡ (ram.boot_request_upgrade d).0)
    × (bytes_of (ram_peek d) 0x2000 5 ≡ 66 ∷ 67 ∷ 120 ∷ 67 ∷ 68 ∷ [])
    × ((a : ℕ) → a < 0x2000 → ram_peek d a ≡ ram_peek two_rounds_loaded a)
    × ((a : ℕ)
        → 0x5000 ≤ a
        → ram_peek d a ≡ ram_peek (ram.flash_write two_rounds_loaded 0x5000 zeros).0 a)
unfolding pack_header_size
delta_check_and_apply-target_example =
    delta_check_and_apply-target ram-FlashLaws (ram-WorkingLaws 0x6000) ram-ReadLaws wide_layout
      wide_layout-IsLaidOut stored stored-FiniteOutput stored-InflateLaws 1 32 fresh
      (flash_mem two_rounds_loaded) 4 two_rounds two_rounds_stream refl refl refl (omega arith)
      (omega arith) two_rounds-inflate (stored-IsNeeded two_rounds_stream) loaded-Fits (omega arith)
      (omega arith) (omega arith) (omega arith) (omega arith) (λ d. refl)

-- The storage partition with the front of the patch, and its size.
abbrev cut_storage : List ℕ
cut_storage = 0x4E ∷ 0x45 ∷ 0x57 ∷ 0x50 ∷ 10 ∷ 0 ∷ 0 ∷ 0 ∷ 4 ∷ 5 ∷ 0x44 ∷ cut_stream

abbrev pub cut_loaded : Ram
cut_loaded = record {
  byte_at = λ a.
      if leb 0x5000 a
      then get_or cut_storage (a - 0x5000) erased_byte
      else get_or (65 ∷ 66 ∷ 67 ∷ []) (a - 0x1000) erased_byte;
  upgrades = 0;
}

pub cut_loaded-Fits :
    Fits (λ offset. ram_peek cut_loaded (0x1000 + offset)) (0x1000 - 1) two_rounds 0
cut_loaded-Fits = (
  omega arith,
  omega arith,
  omega arith,
  (omega arith, inr (omega arith), omega arith),
  inr λ e. cc,
  (omega arith, omega arith, omega arith, (omega arith, inl refl, omega arith), inl refl, tt),
)

delta_check_and_apply-cut_example :
    (flash' : FlashMem Ram) × (delta_check_and_apply ram stored wide_layout 1 32 fresh
        (flash_mem cut_loaded)
      ≡ some (flash', returned (neg not_enough_patch_data)))
    × ((a : ℕ) → a < 0x2000 → ram_peek flash'.device a ≡ ram_peek cut_loaded a)
    × ((a : ℕ)
        → 0x5000 ≤ a
        → ram_peek flash'.device a ≡ ram_peek (ram.flash_write cut_loaded 0x5000 zeros).0 a)
    × (rest : List ℕ) × (bytes_of (ram_peek flash'.device) 0x2000 (flash'.to_current - 0x2000)
          ++ rest
        ≡ 66 ∷ 67 ∷ 120 ∷ 67 ∷ 68 ∷ [])
unfolding pack_header_size
delta_check_and_apply-cut_example =
    delta_check_and_apply-cut ram-FlashLaws (ram-WorkingLaws 0x6000) ram-ReadLaws wide_layout
      wide_layout-IsLaidOut stored stored-FiniteOutput stored-InflateLaws 1 32 fresh
      (flash_mem cut_loaded) 4 10 two_rounds two_rounds_stream second_round refl refl refl
      (omega arith) (λ e. cc) (omega arith) (omega arith) two_rounds-inflate
      (stored-IsNeeded two_rounds_stream) cut_loaded-Fits (omega arith) (omega arith) (omega arith)
      (omega arith) (omega arith)

-- The flash behind the initialisation.
abbrev begun : FlashMem Ram
begun = (delta_init ram wide_layout (flash_mem two_rounds_loaded)).0

to_write_images_example :
    let flash' = (delta_flash_write ram begun (7 ∷ 8 ∷ [])).0 in
    ((delta_flash_write ram begun (7 ∷ 8 ∷ [])).1 ≡ pos 0)
    × (position ram-FlashLaws
          (ram-WorkingLaws 0x6000)
          wide_layout
          wide_layout-IsLaidOut
          (ram_peek two_rounds_loaded)
          (ram_peek two_rounds_loaded)
          0x5017
          flash'
        ≡ position ram-FlashLaws
            (ram-WorkingLaws 0x6000)
            wide_layout
            wide_layout-IsLaidOut
            (ram_peek two_rounds_loaded)
            (ram_peek two_rounds_loaded)
            0x5017
            begun)
    × (written ram-FlashLaws
          (ram-WorkingLaws 0x6000)
          wide_layout
          wide_layout-IsLaidOut
          (ram_peek two_rounds_loaded)
          (ram_peek two_rounds_loaded)
          0x5017
          flash'
        ≡ written ram-FlashLaws
            (ram-WorkingLaws 0x6000)
            wide_layout
            wide_layout-IsLaidOut
            (ram_peek two_rounds_loaded)
            (ram_peek two_rounds_loaded)
            0x5017
            begun
          ++ (7 ∷ 8 ∷ []))
    × (patch_left ram-FlashLaws
          (ram-WorkingLaws 0x6000)
          wide_layout
          wide_layout-IsLaidOut
          (ram_peek two_rounds_loaded)
          (ram_peek two_rounds_loaded)
          0x5017
          flash'
        ≡ patch_left ram-FlashLaws
            (ram-WorkingLaws 0x6000)
            wide_layout
            wide_layout-IsLaidOut
            (ram_peek two_rounds_loaded)
            (ram_peek two_rounds_loaded)
            0x5017
            begun)
    × IsReady ram-FlashLaws
        (ram-WorkingLaws 0x6000)
        wide_layout
        wide_layout-IsLaidOut
        (ram_peek two_rounds_loaded)
        (ram_peek two_rounds_loaded)
        0x5017
        flash'
unfolding delta_init delta_init_flash_mem erase_page
to_write_images_example =
    to_write_images ram-FlashLaws (ram-WorkingLaws 0x6000) wide_layout wide_layout-IsLaidOut
      (ram_peek two_rounds_loaded) (ram_peek two_rounds_loaded) 0x5017 begun (7 ∷ 8 ∷ [])
      (init-IsReady ram-FlashLaws (ram-WorkingLaws 0x6000) wide_layout wide_layout-IsLaidOut
        (flash_mem two_rounds_loaded) (ram_peek two_rounds_loaded) 0x5017 (λ a h. refl)
        (omega arith))
      (omega arith, (omega arith, tt)) (omega arith) (omega arith)
