-- ===== src/Delta/Tests.antt =====
-- A run of the whole update on a flash in memory: the patch is read from the storage partition, and
-- the new image is written to the secondary slot.
pub mod Updates
pub mod Wholes
pub mod Lost
use delta_updates_for_embedd.Common.{ℕ, ◌+◌, ◌-◌, ◌≡◌, refl, List, [], ◌∷◌, Option, some, none}
use delta_updates_for_embedd.Common.{if◌then◌else◌, leb, get_or, ℤ, pos, ◌+ℤ◌, add_off}
use delta_updates_for_embedd.Detools.Stored.{stored}
use delta_updates_for_embedd.Detools.Tests.{fresh, sample_patch}
use delta_updates_for_embedd.Detools.Chunk.{chunk_unpack_header_size}
use delta_updates_for_embedd.Detools.Reader.{
  decompress_loop, decompress_header, decompress, unpack_rounds, patch_reader_unpack_size,
  patch_reader_init, common_process_size, destroy_reader,
}
use delta_updates_for_embedd.Detools.Apply.{
  add_bytes, process_once, dispatch, process_init, init_with, process_dfpatch_size, process_size,
  write_data, process_data, process_adjustment,
}
use delta_updates_for_embedd.Detools.Run.{
  apply_patch_callbacks, callbacks_loop, callbacks_process, process, process_loop, finalize,
  finalize_loop, common_finalize, apply_patch_init,
}
use delta_updates_for_embedd.Delta.Platform.{Layout, erased_byte}
use delta_updates_for_embedd.Delta.Ram.{Ram, ram, bytes_from}
use delta_updates_for_embedd.Delta.Flash.{
  FlashMem, erase_page, delta_flash_write, delta_flash_from_read, delta_flash_patch_read,
  delta_flash_seek, delta_init_flash_mem, delta_init,
}
use delta_updates_for_embedd.Delta.Update.{
  Ending, returned, rebooted, delta_read_patch_header, delta_check_and_apply,
}

abbrev pub layout : Layout
layout = record {
  primary_offset = 0x1000;
  primary_size = 0x1000;
  secondary_offset = 0x2000;
  secondary_size = 0x2000;
  storage_offset = 0x4000;
  storage_size = 0x1000;
}

-- The storage partition: the mark, the size and the patch.
abbrev pub storage : List ℕ
storage = 0x4E ∷ 0x45 ∷ 0x57 ∷ 0x50 ∷ 11 ∷ 0 ∷ 0 ∷ 0 ∷ sample_patch

-- ABC is in the primary slot.
abbrev pub loaded : Ram
loaded = record {
  byte_at = λ a.
      if leb 0x4000 a
      then get_or storage (a - 0x4000) erased_byte
      else get_or (65 ∷ 66 ∷ 67 ∷ []) (a - 0x1000) erased_byte;
  upgrades = 0;
}

abbrev pub blank : Ram
blank = record { byte_at = λ a. erased_byte; upgrades = 0 }

-- The structure as `main` passes it on.
abbrev pub flash_mem : Ram → FlashMem Ram
flash_mem d = record {
  device = d;
  patch_current = 0;
  patch_end = 0;
  from_current = pos 0;
  from_end = pos 0;
  to_current = 0;
  to_end = 0;
  write_buf = 0;
}

abbrev pub run : Option (FlashMem Ram × Ending)
run = delta_check_and_apply ram stored layout 1 24 fresh (flash_mem loaded)

abbrev pub ending_of : Option (FlashMem Ram × Ending) → Ending
ending_of none = returned (pos 0)
ending_of (some (flash, e)) = e

abbrev pub flash_of : Option (FlashMem Ram × Ending) → FlashMem Ram
flash_of none = flash_mem blank
flash_of (some (flash, e)) = flash

-- BCDx is in the secondary slot, and the upgrade is requested once.
run_writes :
    (flash_of run).device.upgrades ∷ bytes_from (flash_of run).device 0x2000 5
    ≡ 1 ∷ 66 ∷ 67 ∷ 68 ∷ 120 ∷ 255 ∷ []
unfolding delta_check_and_apply delta_read_patch_header delta_init delta_init_flash_mem erase_page
    delta_flash_write delta_flash_from_read delta_flash_patch_read delta_flash_seek add_off ◌+ℤ◌
    apply_patch_callbacks process_once dispatch apply_patch_init process_init
    chunk_unpack_header_size patch_reader_unpack_size patch_reader_init decompress_loop
    decompress_header decompress process_dfpatch_size process_size common_process_size process_data
    process_adjustment destroy_reader add_bytes callbacks_loop callbacks_process process
    process_loop finalize finalize_loop common_finalize unpack_rounds write_data init_with
run_writes = refl

pub run_reboots : ending_of run ≡ rebooted
unfolding delta_check_and_apply delta_read_patch_header delta_init delta_init_flash_mem erase_page
    delta_flash_write delta_flash_from_read delta_flash_patch_read delta_flash_seek add_off ◌+ℤ◌
    apply_patch_callbacks process_once dispatch apply_patch_init process_init
    chunk_unpack_header_size patch_reader_unpack_size patch_reader_init decompress_loop
    decompress_header decompress process_dfpatch_size process_size common_process_size process_data
    process_adjustment destroy_reader add_bytes callbacks_loop callbacks_process process
    process_loop finalize finalize_loop common_finalize unpack_rounds write_data init_with
run_reboots = refl
