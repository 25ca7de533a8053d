-- ===== src/Detools/Tests.antt =====
-- Runs of the patch applier on concrete patches, with the decoder that stores its input.
pub mod Patches
pub mod Whole
pub mod Formats
pub mod Fed
use delta_updates_for_embedd.Common.{
  leb_ℤ, ℕ, ◌≡◌, refl, false, List, [], ◌∷◌, Option, some, none, ℤ, pos, neg, negsuc,
}
use delta_updates_for_embedd.Detools.Stored.{stored}
use delta_updates_for_embedd.Detools.Stored.Files.{Files, files}
use delta_updates_for_embedd.Detools.Chunk.{chunk_at, chunk_unpack_header_size}
use delta_updates_for_embedd.Detools.Reader.{
  Reader, first, null, decompress_loop, decompress_header, decompress, unpack_rounds,
  patch_reader_unpack_size, patch_reader_init, common_process_size, destroy_reader,
}
use delta_updates_for_embedd.Detools.Apply.{
  ApplyPatch, init, Stepped, stepped, add_bytes, process_once, dispatch, process_init, init_with,
  process_dfpatch_size, process_size, write_data, process_data, process_adjustment,
}
use delta_updates_for_embedd.Detools.Run.{
  apply_patch_callbacks, callbacks_loop, callbacks_process, process, process_loop, finalize,
  finalize_loop, common_finalize, apply_patch_init,
}

-- A structure as it is before `detools_apply_patch_init`.
abbrev pub fresh_reader : Reader (List ℕ)
fresh_reader = record {
  size_state = first;
  value = 0;
  offset = 0;
  is_signed = false;
  window_sz2 = pos 0;
  lookahead_sz2 = pos 0;
  decoder = [];
  destroy = null;
}

abbrev pub fresh : ApplyPatch (List ℕ)
fresh = record {
  patch_size = 0;
  state = init;
  compression = 0;
  patch_offset = 0;
  to_offset = 0;
  to_size = 0;
  from_offset = 0;
  chunk_size = 0;
  patch_reader = fresh_reader;
  chunk = chunk_at [] 0;
}

-- The patch that turns ABC into BCDx: the header with the size 4, the heatshrink header, no
-- data-format patch, three bytes of diff data, one of extra data, and no adjustment.
abbrev pub sample_patch : List ℕ
sample_patch = 4 ∷ 4 ∷ 0x44 ∷ 0 ∷ 3 ∷ 1 ∷ 1 ∷ 1 ∷ 1 ∷ 120 ∷ 0 ∷ []

abbrev pub sample : Files
sample = record { source = 65 ∷ 66 ∷ 67 ∷ []; source_at = pos 0; patch = sample_patch; target = [] }

abbrev end_of : Option (Stepped (List ℕ) Files) → Option (ℤ × List ℕ)
end_of none = none
end_of (some t) = some (t.res, t.arg.target)

sample_runs :
    end_of (apply_patch_callbacks stored files 1 24 fresh 11 sample)
    ≡ some (pos 4, 66 ∷ 67 ∷ 68 ∷ 120 ∷ [])
unfolding apply_patch_callbacks files process_once dispatch apply_patch_init process_init
    chunk_unpack_header_size patch_reader_unpack_size patch_reader_init decompress_loop
    decompress_header decompress process_dfpatch_size process_size common_process_size process_data
    process_adjustment destroy_reader add_bytes callbacks_loop callbacks_process process
    process_loop finalize finalize_loop common_finalize unpack_rounds write_data init_with
sample_runs = refl

abbrev pub outcome : Option (Stepped (List ℕ) Files)
outcome = apply_patch_callbacks stored files 1 24 fresh 11 sample

abbrev pub got : Option (Stepped (List ℕ) Files) → Stepped (List ℕ) Files
got none = stepped fresh sample (pos 0)
got (some t) = t

pub sample_positive : leb_ℤ (got outcome).res (pos 0) ≡ false
unfolding apply_patch_callbacks files process_once dispatch apply_patch_init process_init
    chunk_unpack_header_size patch_reader_unpack_size patch_reader_init decompress_loop
    decompress_header decompress process_dfpatch_size process_size common_process_size process_data
    process_adjustment destroy_reader add_bytes callbacks_loop callbacks_process process
    process_loop finalize finalize_loop common_finalize unpack_rounds write_data init_with
sample_positive = refl
