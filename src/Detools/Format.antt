-- ===== src/Detools/Format.antt =====
-- The sequential patch as a format: what app/src/detools/detools.c is meant to read, and the target
-- that it is meant to write.
pub mod Sizes
pub mod Images
pub mod Matches
pub mod Bytes
pub mod Steps
pub mod Seeks
pub mod Once
pub mod Loops
pub mod Reads
pub mod Start
pub mod Short
pub mod Ends
pub mod First
pub mod Processed
pub mod Refines
pub mod Feed
pub mod Fed
pub mod Resumes
pub mod Resumed
use delta_updates_for_embedd.Common.{
  ℕ, zero, suc, ◌+◌, ◌-◌, ◌%◌, ◌≤◌, ◌<◌, ◌^◌, ◌≡◌, ◌≢◌, ◌⊎◌, Bool, true, false,
}
use delta_updates_for_embedd.Common.{List, [], ◌∷◌, ◌++◌, length, if◌then◌else◌}
use delta_updates_for_embedd.Detools.Chunk.RoundTrip.{pack_header_size}
use delta_updates_for_embedd.Detools.Reader.RoundTrip.{pack_size}

-- A round of the patch: bytes to add to the source, bytes to write as they are, and the step in the
-- source behind them, back or forth.
pub record Segment : Type 0 where
  pub diff : List ℕ
  pub extra : List ℕ
  pub back : Bool
  pub step : ℕ

-- The parts of the stream, each behind the one that is read before it.
module _ (s : Segment) (rest : List ℕ) where
  abbrev pub adjustment_part : List ℕ
  adjustment_part = pack_size s.back s.step ++ rest

  abbrev pub extra_part : List ℕ
  extra_part = pack_size false (length s.extra) ++ (s.extra ++ adjustment_part)

  abbrev pub diff_part : List ℕ
  diff_part = pack_size false (length s.diff) ++ (s.diff ++ extra_part)

abbrev pub rounds : List Segment → List ℕ
rounds [] = []
rounds (s ∷ segments) = diff_part s (rounds segments)

-- The stream: no data-format patch, and the rounds.
abbrev pub stream : List Segment → List ℕ
stream segments = pack_size false 0 ++ rounds segments

-- The bytes in front of the stream: the patch type 0 with the compression, and the size of the target.
abbrev pub patch_header : ℕ → ℕ → List ℕ
patch_header compression size = compression ∷ pack_header_size size

-- A patch: its header, the header of the compression, and the compressed stream.
abbrev pub patch_bytes : ℕ → ℕ → List ℕ → List ℕ
patch_bytes compression size z = patch_header compression size ++ (0x44 ∷ z)

-- A source is its bytes by their offsets.
abbrev pub bytes_of : (ℕ → ℕ) → ℕ → ℕ → List ℕ
bytes_of source offset zero = []
bytes_of source offset (suc n) = source offset ∷ bytes_of source (suc offset) n

-- The offset in the source behind a round that starts the step there.
abbrev pub stepped_from : Segment → ℕ → ℕ
stepped_from s offset = if s.back then offset - s.step else offset + s.step

module _ (source : ℕ → ℕ) where
  -- The sums of diff bytes with the source, as bytes.
  abbrev pub summed : List ℕ → ℕ → List ℕ
  summed [] offset = []
  summed (b ∷ bytes) offset = ((b + source offset) % 256) ∷ summed bytes (suc offset)

  -- The target of the rounds, from an offset in the source.
  abbrev pub target : List Segment → ℕ → List ℕ
  target [] offset = []
  target (s ∷ segments) offset =
      summed s.diff offset ++ (s.extra ++ target segments (stepped_from s (offset + length s.diff)))

-- The step behind a round ends in the source.
abbrev pub StepFits : ℕ → Segment → ℕ → Type 0
StepFits limit s offset =
    (s.step < 2 ^ 27) × ((s.back ≡ false) ⊎ (s.step ≤ offset)) × (stepped_from s offset ≤ limit)

-- The rounds fit a source of `limit` bytes: the sizes are ones of the format, the reads and the steps
-- stay in the source, and no round but the last ends the target.
abbrev pub Fits : (ℕ → ℕ) → ℕ → List Segment → ℕ → Type 0
Fits source limit [] offset = Unit
Fits source limit (s ∷ segments) offset =
    let offset' = stepped_from s (offset + length s.diff) in
    (length s.diff < 2 ^ 27)
    × (length s.extra < 2 ^ 27)
    × (offset + length s.diff ≤ limit)
    × StepFits limit s (offset + length s.diff)
    × ((segments ≡ []) ⊎ (target source segments offset' ≢ []))
    × Fits source limit segments offset'
