-- ===== src/Detools/Tests/Fed.antt =====
-- The theorems on patches that are given chunk by chunk at a concrete patch of two rounds.
use delta_updates_for_embedd.Common.{arith, ◌≡◌, refl, List, [], ◌∷◌, ℕ, some, pos, neg}
use delta_updates_for_embedd.Detools.Codes.{short_header}
use delta_updates_for_embedd.Detools.Stored.{stored, stored-FiniteOutput}
use delta_updates_for_embedd.Detools.Stored.Inflating.{stored-InflateLaws}
use delta_updates_for_embedd.Detools.Stored.Images.{Images, images, images-ImageLaws}
use delta_updates_for_embedd.Detools.Chunk.RoundTrip.{pack_header_size}
use delta_updates_for_embedd.Detools.Apply.{Stepped, failed}
use delta_updates_for_embedd.Detools.Run.{apply_patch_init, process}
use delta_updates_for_embedd.Detools.Format.Short.{process-short}
use delta_updates_for_embedd.Detools.Format.Feed.{feed}
use delta_updates_for_embedd.Detools.Format.Fed.{feed-target}
use delta_updates_for_embedd.Detools.Format.Resumes.{feed_interrupted}
use delta_updates_for_embedd.Detools.Format.Resumed.{feed_interrupted-target}
use delta_updates_for_embedd.Detools.Stored.Saved.{
  Saved, saved, saved-ImageLaws, saved_storage, saved-StorageLaws,
}
use delta_updates_for_embedd.Detools.Tests.{fresh}
use delta_updates_for_embedd.Detools.Tests.Formats.{
  abc, first_round, last_round, two_rounds_stream, stored-IsNeeded, two_rounds-inflate,
  two_rounds-Fits,
}

-- No patch is left to be read: it comes in chunks.
abbrev opened : Images
opened = record { source_at = pos 0; patch = []; target = [] }

abbrev head : List ℕ
head = 4 ∷ 5 ∷ 0x44 ∷ 0 ∷ 2 ∷ 1 ∷ []

abbrev middle : List ℕ
middle = 1 ∷ 1 ∷ 120 ∷ 65 ∷ 2 ∷ []

feed-target_example :
    (t : Stepped (List ℕ) Images) × (feed stored
        (images abc)
        32
        (apply_patch_init fresh 15)
        opened
        (head ∷ middle ∷ [] ∷ (1 ∷ 1 ∷ 0 ∷ 0 ∷ []) ∷ [])
      ≡ some t)
    × (t.res ≡ pos 5)
    × (t.arg.target ≡ 66 ∷ 67 ∷ 120 ∷ 67 ∷ 68 ∷ [])
unfolding pack_header_size
feed-target_example =
    feed-target stored stored-FiniteOutput stored-InflateLaws (images abc) (images-ImageLaws abc) 32
      15 fresh opened 4 0 first_round (last_round ∷ []) two_rounds_stream tt refl (omega arith)
      two_rounds-inflate (stored-IsNeeded two_rounds_stream) two_rounds-Fits (omega arith)
      (omega arith) (omega arith) head (middle ∷ [] ∷ (1 ∷ 1 ∷ 0 ∷ 0 ∷ []) ∷ []) refl (omega arith)
      (omega arith)

-- Of the header only the first byte is there.
process-short_example :
    (t : Stepped (List ℕ) Images) × (process stored
        (images abc)
        2
        (apply_patch_init fresh 15)
        opened
        (4 ∷ [])
        1
      ≡ some t)
    × (t.res ≡ neg short_header)
    × (t.self.state ≡ failed)
    × (t.arg ≡ opened)
unfolding pack_header_size apply_patch_init
process-short_example =
    process-short stored (images abc) 1 (apply_patch_init fresh 15) opened 4 5 1 4 [] (5 ∷ []) refl
      refl (λ e. cc) (omega arith)

-- The same images, with a place for the structure.
abbrev opened_saved : Saved
opened_saved = record { files = opened; stored = fresh }

feed_interrupted-target_example :
    (t : Stepped (List ℕ) Saved) × (feed_interrupted stored
        (saved abc)
        saved_storage
        32
        fresh
        (apply_patch_init fresh 15)
        opened_saved
        (head ∷ [])
        (middle ∷ (1 ∷ 1 ∷ 0 ∷ 0 ∷ []) ∷ [])
      ≡ some t)
    × (t.res ≡ pos 5)
    × (t.arg.files.target ≡ 66 ∷ 67 ∷ 120 ∷ 67 ∷ 68 ∷ [])
unfolding pack_header_size
feed_interrupted-target_example =
    feed_interrupted-target stored stored-FiniteOutput stored-InflateLaws (saved abc)
      (saved-ImageLaws abc) saved_storage (saved-StorageLaws abc) (omega arith) 32 15 fresh fresh
      opened_saved 4 first_round (last_round ∷ []) two_rounds_stream tt refl (omega arith)
      two_rounds-inflate (stored-IsNeeded two_rounds_stream) two_rounds-Fits (omega arith)
      (omega arith) (omega arith) head [] (middle ∷ (1 ∷ 1 ∷ 0 ∷ 0 ∷ []) ∷ []) refl (omega arith)
      (omega arith)
