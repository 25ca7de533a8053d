-- ===== src/Delta/Tests/Updates.antt =====
-- The theorems on the error texts, the flash callbacks and the update at concrete flashes.
use delta_updates_for_embedd.Common.{ℕ, ◌-◌, ◌<◌, arith, ◌≡◌, ◌≢◌, refl, ◌↔◌, ◌⊎◌}
use delta_updates_for_embedd.Common.{List, [], ◌∷◌, Option, none, some}
use delta_updates_for_embedd.Common.{pos, neg, add_off, ◌+ℤ◌, leb_ℤ, false}
use delta_updates_for_embedd.Detools.Apply.{Stepped}
use delta_updates_for_embedd.Detools.Stored.{stored, stored-PollLaws, stored-FiniteOutput}
use delta_updates_for_embedd.Detools.Tests.{fresh}
use delta_updates_for_embedd.Delta.ErrorText.{
  delta_text_of, delta_error_as_string, delta_error_as_string_negated,
}
use delta_updates_for_embedd.Delta.Codes.{slot1_out_of_memory, seeking_error}
use delta_updates_for_embedd.Delta.Platform.{erased_byte}
use delta_updates_for_embedd.Delta.Ram.{
  Ram, ram, ram_peek, ram_read, ram-FlashLaws, ram-ClearLaws, ram-ReadLaws, ram-BoundLaws,
}
use delta_updates_for_embedd.Delta.Flash.{
  FlashMem, erase_page, delta_flash_write, delta_flash_from_read, delta_flash_patch_read,
  delta_flash_seek, delta_init_flash_mem,
}
use delta_updates_for_embedd.Delta.Flash.Bounds.{
  ◌<ℤ◌, from_read_iff, seek_before_partition, patch_read_past_partition,
}
use delta_updates_for_embedd.Delta.Flash.Pages.{IsErasedAhead, page_behind_slot_erased}
use delta_updates_for_embedd.Delta.Flash.Writes.{Holds, delta_flash_write-Holds}
use delta_updates_for_embedd.Delta.Update.{
  Ending, returned, rebooted, delta_read_patch_header, delta_check_and_apply, new_patch, word_at,
}
use delta_updates_for_embedd.Delta.Update.Header.{header_read_once}
use delta_updates_for_embedd.Delta.Update.Primary.{delta_check_and_apply-untouched}
use delta_updates_for_embedd.Delta.Update.Image.{rebooted_counts}
use delta_updates_for_embedd.Common.{◌^◌, ◌%◌, ◌-◌, ◌≤◌, word}
use delta_updates_for_embedd.Delta.Update.Endings.{applied, rebooted_needs, check_and_apply-ne-none}
use delta_updates_for_embedd.Delta.Tests.{
  layout, loaded, blank, flash_mem, run, ending_of, flash_of, run_reboots,
}

-- A structure that reads the source from the start of the primary slot.
abbrev reading : FlashMem Ram
reading = record (flash_mem loaded) { from_current = pos 0x1000; from_end = pos 0x2000 }

-- A structure that writes from the start of the secondary slot.
abbrev writing : FlashMem Ram
writing = record (flash_mem blank) { to_current = 0x2000; to_end = 0x4000 }

-- The same 100 bytes into its second page, where the count has lost 10 bytes.
abbrev drifted : FlashMem Ram
drifted = record writing { to_current = 0x3064; write_buf = 0x1000 - 2 }

delta_error_as_string_negated_example :
    (delta_error_as_string (neg 31) ≡ "Unknown error.")
    × (delta_error_as_string (pos 31) ≡ delta_text_of 31)
delta_error_as_string_negated_example = delta_error_as_string_negated 31 (omega arith)

from_read_iff_example : ((delta_flash_from_read ram reading 3).1 ≡ pos 0) ↔ (
    (0 < 3)
    × ((ram_read loaded (pos 0x1000) 3).0 ≡ pos 0)
    × (add_off (pos 0x1000) (pos 3) <ℤ pos 0x2000))
from_read_iff_example = from_read_iff ram reading 3

-- Three of the five bytes in front of the primary slot are read as a part of the source.
seek_before_partition_example :
    let s = delta_flash_seek ram (delta_init_flash_mem ram layout (flash_mem loaded)) (neg 5) in
    let t = delta_flash_from_read ram s.0 3 in
    (s.1 ≡ pos 0) × (t.1 ≡ pos 0) × (t.2 ≡ (ram_read loaded (pos 0xffb) 3).1)
seek_before_partition_example =
    seek_before_partition ram (flash_mem loaded) layout 5 3 refl (omega arith) (omega arith)
      (omega arith) (omega arith) (omega arith)

-- A structure at the lowest offset of 32 bits.
abbrev lowest : FlashMem Ram
lowest = record reading { from_current = neg (2 ^ 31) }

-- A step back from there wraps: it ends past the partition, and the seek fails.
seek_wraps :
    ((delta_flash_seek ram lowest (neg 1)).0.from_current ≡ pos (2 ^ 31 - 1))
    × ((delta_flash_seek ram lowest (neg 1)).1 ≡ neg seeking_error)
unfolding delta_flash_seek add_off ◌+ℤ◌
seek_wraps = (refl, refl)

patch_read_past_partition_example :
    (delta_flash_patch_read ram (delta_init_flash_mem ram layout reading) 0xffc).1 ≡ pos 0
patch_read_past_partition_example =
    patch_read_past_partition ram reading layout 0xffc refl (omega arith) (omega arith)
      (omega arith)

-- A structure in front of the last two bytes of the slot.
abbrev filling : FlashMem Ram
filling = record writing { to_current = 0x3ffe; write_buf = 0x1000 - 2 }

page_behind_slot_erased_example :
    ((delta_flash_write ram filling (7 ∷ 8 ∷ [])).1 ≡ neg slot1_out_of_memory)
    × ((a : ℕ)
        → 0x4000 ≤ a
        → a < 0x5000
        → ram_peek (delta_flash_write ram filling (7 ∷ 8 ∷ [])).0.device a ≡ erased_byte)
page_behind_slot_erased_example =
    page_behind_slot_erased ram ram-FlashLaws filling (7 ∷ 8 ∷ []) refl (omega arith) (omega arith)
      (omega arith) refl refl

delta_flash_write-Holds_example :
    let flash' = (delta_flash_write ram writing (7 ∷ 8 ∷ [])).0 in
    Holds ram-FlashLaws flash'.device 0x2000 (7 ∷ 8 ∷ [])
    × (flash'.to_current ≡ 0x2002)
    × IsErasedAhead ram-FlashLaws flash'
unfolding delta_flash_write erase_page
delta_flash_write-Holds_example =
    delta_flash_write-Holds ram-FlashLaws writing (7 ∷ 8 ∷ []) [] 0x2000
      (record { counted = refl; erased = λ a h1 h2. refl }) (omega arith) refl refl tt

header_read_once_example :
    let flash' = (delta_read_patch_header ram layout (flash_mem loaded) 0).0 in
    delta_read_patch_header ram layout flash' 5 ≡ (flash', pos 0, 5)
unfolding delta_read_patch_header
header_read_once_example =
    header_read_once ram ram-ClearLaws layout (flash_mem loaded) 0 5 refl (omega arith) refl

ended :
    (o : Option (FlashMem Ram × Ending)) → ending_of o ≡ rebooted → o ≡ some (flash_of o, rebooted)
ended none e = cc
ended (some (flash, returned r)) e = cc
ended (some (flash, rebooted)) e = refl

rebooted_needs_example :
    (t : Stepped (List ℕ) (FlashMem Ram)) × (word_at (ram_read loaded (pos 0x4000) 8).1 0
      ≡ new_patch)
    × (0 < word_at (ram_read loaded (pos 0x4000) 8).1 4)
    × (applied ram stored layout 1 24 fresh (flash_mem loaded) ≡ some t)
    × (leb_ℤ t.res (pos 0) ≡ false)
    × ((ram.boot_request_upgrade t.arg.device).1 ≡ pos 0)
    × ((flash_of run).device ≡ (ram.boot_request_upgrade t.arg.device).0)
rebooted_needs_example =
    rebooted_needs ram stored layout 1 24 fresh (flash_mem loaded) (flash_of run)
      (ended run run_reboots)

delta_check_and_apply-untouched_example :
    (d : Ram) × (((flash_of run).device ≡ d)
      ⊎ ((flash_of run).device ≡ (ram.boot_request_upgrade d).0))
    × ((a : ℕ) → a < 0x2000 → ram_peek d a ≡ ram_peek loaded a)
delta_check_and_apply-untouched_example =
    delta_check_and_apply-untouched ram-FlashLaws ram-BoundLaws layout stored 1 24 fresh
      (flash_mem loaded) (flash_of run, rebooted) (omega arith) (omega arith)
      (ended run run_reboots)

rebooted_counts_example :
    (t : Stepped (List ℕ) (FlashMem Ram)) × (applied ram stored layout 1 24 fresh (flash_mem loaded)
      ≡ some t)
    × (0 < t.self.to_size)
    × (t.self.to_size < 2 ^ 31)
    × (t.self.to_offset ≡ t.self.to_size)
    × (0x2000 ≤ t.arg.to_current)
    × ((t.arg.to_current - 0x2000) % word ≡ t.self.to_size)
rebooted_counts_example =
    rebooted_counts ram stored layout stored-PollLaws stored-FiniteOutput 1 24 fresh
      (flash_mem loaded) (flash_of run) (ended run run_reboots)

check_and_apply-ne-none_example :
    delta_check_and_apply ram stored layout 1 24 fresh (flash_mem loaded) ≢ none
unfolding delta_read_patch_header
check_and_apply-ne-none_example =
    check_and_apply-ne-none ram stored layout ram-ReadLaws stored-PollLaws stored-FiniteOutput 1 24
      fresh (flash_mem loaded) (omega arith) (omega arith)
