-- ===== src/Detools/Tests/Patches.antt =====
-- The theorems on the patch applier at concrete readers, machines and patches.
use delta_updates_for_embedd.Common.{ℕ, ◌+◌, ◌-◌, ◌≤◌, ◌<◌, ◌^◌, arith, ◌≡◌, ◌≢◌, refl, ◌⊎◌}
use delta_updates_for_embedd.Common.{List, [], ◌∷◌, ◌++◌, length, All, none, true, false}
use delta_updates_for_embedd.Common.{pos, is_neg, word}
use delta_updates_for_embedd.Detools.Stored.{stored, stored-PollLaws, stored-FiniteOutput}
use delta_updates_for_embedd.Detools.Stored.Files.{files, files-patch_read}
use delta_updates_for_embedd.Detools.Chunk.{chunk_at, chunk_unpack_header_size}
use delta_updates_for_embedd.Detools.Chunk.Header.{IsByte, chunk_unpack_header_size_bounds}
use delta_updates_for_embedd.Detools.Chunk.RoundTrip.{
  tail_groups, pack_header_size, unpack-pack_header_size,
}
use delta_updates_for_embedd.Detools.Reader.{
  Reader, first, consecutive, heatshrink_destroy, decompress_loop, decompress, unpack_rounds,
  patch_reader_unpack_size,
}
use delta_updates_for_embedd.Detools.Reader.Decompress.{DecompressedOutcome, decompress-Outcome}
use delta_updates_for_embedd.Detools.Reader.Values.{Ranged, unpack_size-Ranged}
use delta_updates_for_embedd.Detools.Reader.Stream.{Yields}
use delta_updates_for_embedd.Detools.Reader.RoundTrip.{
  pack_size, signed_value, unpack_size-pack_size,
}
use delta_updates_for_embedd.Detools.Apply.{
  ApplyPatch, diff_size, diff_data, failed, process_size, process_once,
}
use delta_updates_for_embedd.Detools.Apply.Edges.{Edge, process_once-Edge}
use delta_updates_for_embedd.Detools.Apply.Progress.{
  StepOutcome, budget, measure, process_once-Outcome,
}
use delta_updates_for_embedd.Detools.Apply.Sizes.{
  IsWithin, negative_size_accepted, process_once-IsWithin,
}
use delta_updates_for_embedd.Detools.Run.{apply_patch_callbacks}
use delta_updates_for_embedd.Detools.Run.Rounds.{apply_patch_callbacks-ne-none}
use delta_updates_for_embedd.Detools.Tests.{fresh_reader, fresh, sample}

-- A reader behind the heatshrink header, at the start of a size.
abbrev pub ready : Reader (List ℕ)
ready = record fresh_reader {
  window_sz2 = pos 8;
  lookahead_sz2 = pos 7;
  destroy = heatshrink_destroy;
}

-- A reader in the middle of a size: six bits are read.
abbrev pub half_way : Reader (List ℕ)
half_way = record ready { size_state = consecutive; offset = 6; value = 44 }

-- A machine that has written 4 bytes of 10, in front of the size -1.
abbrev pub at_size : ApplyPatch (List ℕ)
at_size = record fresh {
  state = diff_size;
  to_offset = 4;
  to_size = 10;
  patch_reader = ready;
  chunk = chunk_at (0x41 ∷ []) 0;
}

-- A machine with 5 bytes of diff data to come, three of them in its chunk.
abbrev pub in_data : ApplyPatch (List ℕ)
in_data = record at_size { state = diff_data; chunk_size = 5; chunk = chunk_at (1 ∷ 2 ∷ 3 ∷ []) 0 }

unpack-pack_header_size_example :
    chunk_unpack_header_size (chunk_at (pack_header_size 300 ++ (7 ∷ [])) 1) 0
    ≡ (chunk_at (7 ∷ []) (1 + length (pack_header_size 300)), pos 0, 300)
unpack-pack_header_size_example = unpack-pack_header_size 300 0 1 (7 ∷ []) (omega arith)

chunk_unpack_header_size_bounds_example :
    (300 < 2 ^ 27) × All IsByte (7 ∷ []) × (1 + 3 ≡ 3 + 1) × (1 < 3) × (3 ≤ 1 + 4)
unfolding pack_header_size tail_groups
chunk_unpack_header_size_bounds_example =
    chunk_unpack_header_size_bounds (chunk_at (172 ∷ 4 ∷ 7 ∷ []) 1) (chunk_at (7 ∷ []) 3) 0 300
      (omega arith, (omega arith, (omega arith, tt)))
      (unpack-pack_header_size 300 0 1 (7 ∷ []) (omega arith))

decompress-Outcome_example :
    DecompressedOutcome 2 (decompress stored ready (chunk_at (1 ∷ 2 ∷ 3 ∷ []) 0) 2)
decompress-Outcome_example =
    decompress-Outcome stored stored-PollLaws ready (chunk_at (1 ∷ 2 ∷ 3 ∷ []) 0) 2 (omega arith)
      (omega arith)

unpack_size-Ranged_example :
    Ranged stored (patch_reader_unpack_size stored half_way (chunk_at (4 ∷ 7 ∷ []) 0) 0)
unpack_size-Ranged_example =
    unpack_size-Ranged stored stored-PollLaws half_way (chunk_at (4 ∷ 7 ∷ []) 0) 0
      (refl, omega arith, omega arith)

-- The size -300, and the byte behind it.
unpack_size-pack_size_example :
    let u = patch_reader_unpack_size stored ready (chunk_at (236 ∷ 4 ∷ 7 ∷ []) 0) 0 in
    (u.res ≡ pos 0)
    × (u.size ≡ signed_value true 300)
    × (u.reader.size_state ≡ first)
    × Yields stored u.reader u.chunk (7 ∷ [])
unfolding pack_size tail_groups decompress decompress_loop
unpack_size-pack_size_example =
    unpack_size-pack_size stored true 300 ready (chunk_at (236 ∷ 4 ∷ 7 ∷ []) 0) 0 (7 ∷ []) refl
      (omega arith) (refl, refl, refl, (refl, refl, refl, (refl, refl, refl, tt)))

process_once-Edge_example :
    let t = process_once stored files in_data sample in
    ((is_neg t.res ≡ true) × (t.self.state ≡ failed))
    ⊎ ((is_neg t.res ≡ false)
        × ((t.self.state ≡ diff_data) ⊎ Edge diff_data t.self.state)
        × (t.self.state ≢ failed))
process_once-Edge_example = process_once-Edge stored files in_data sample

process_once-Outcome_example :
    let f = stored-FiniteOutput in
    let t = process_once stored files in_data sample in
    StepOutcome stored f (measure stored f in_data) (budget stored f in_data) t
    × (budget stored f t.self ≤ budget stored f in_data)
process_once-Outcome_example =
    process_once-Outcome stored stored-FiniteOutput stored-PollLaws files in_data sample

negative_size_accepted_example :
    let t = process_size stored files at_size sample diff_data in
    (t.res ≡ pos 0)
    × (t.self.state ≡ diff_data)
    × (t.self.chunk_size ≡ word - 1)
    × (t.self.to_size < t.self.to_offset + t.self.chunk_size)
unfolding patch_reader_unpack_size unpack_rounds decompress decompress_loop
negative_size_accepted_example =
    negative_size_accepted stored stored-PollLaws files at_size sample diff_data 1 refl refl
      (omega arith) (omega arith) (omega arith) (omega arith)

-- A machine that has written 4 bytes of 10, in front of the size 3.
abbrev at_small_size : ApplyPatch (List ℕ)
at_small_size = record at_size { chunk = chunk_at (3 ∷ 1 ∷ 2 ∷ 3 ∷ []) 0 }

process_once-IsWithin_example : IsWithin (process_once stored files at_small_size sample).self
unfolding patch_reader_unpack_size unpack_rounds decompress decompress_loop
process_once-IsWithin_example =
    process_once-IsWithin stored stored-PollLaws files at_small_size sample (λ s. omega arith)
      (omega arith) (record { word_size = omega arith; remaining = omega arith })

apply_patch_callbacks-ne-none_example :
    apply_patch_callbacks stored files 1 24 fresh 11 sample ≢ none
apply_patch_callbacks-ne-none_example =
    apply_patch_callbacks-ne-none stored stored-FiniteOutput stored-PollLaws files 1 24 fresh 11
      sample files-patch_read (omega arith) (omega arith) (omega arith)
