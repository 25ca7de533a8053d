-- ===== src/Detools/Format/Matches.antt =====
-- How far the patch applier has come in a patch, and the machine that has come so far.
use delta_updates_for_embedd.Common.{
  ℕ, ◌+◌, ◌%◌, ◌≤◌, ◌<◌, ◌^◌, arith, ◌≡◌, ◌≢◌, ◌⊎◌, List, [], ◌∷◌, ◌++◌, length, word, add32,
}
use delta_updates_for_embedd.Common.{pos}
use delta_updates_for_embedd.Detools.Decoder.{Decoder}
use delta_updates_for_embedd.Detools.Inflate.{InflateLaws, future, IsValid}
use delta_updates_for_embedd.Detools.Reader.{Reader, first}
use delta_updates_for_embedd.Detools.Reader.RoundTrip.{signed_value}
use delta_updates_for_embedd.Detools.Apply.{
  ApplyState, dfpatch_size, diff_size, diff_data, extra_size, extra_data, adjustment, done,
  ApplyPatch, Callbacks,
}
use delta_updates_for_embedd.Detools.Format.{
  Segment, rounds, adjustment_part, extra_part, stepped_from, summed, target, StepFits, Fits,
}
use delta_updates_for_embedd.Detools.Format.Sizes.{Unsizes}
use delta_updates_for_embedd.Detools.Format.Images.{ImageLaws}

-- What is still to be done: in front of the rounds, in front of a size of a round, in data of which
-- these bytes are left, in front of the step, or nothing.
pub data Todo : Type 0 where
  at_dfpatch : List Segment → Todo
  at_diff_size : Segment → List Segment → Todo
  at_diff : List ℕ → Segment → List Segment → Todo
  at_extra_size : Segment → List Segment → Todo
  at_extra : List ℕ → Segment → List Segment → Todo
  at_step : Segment → List Segment → Todo
  finished : Todo

abbrev pub state_of : Todo → ApplyState
state_of (at_dfpatch segments) = dfpatch_size
state_of (at_diff_size s segments) = diff_size
state_of (at_diff bytes s segments) = diff_data
state_of (at_extra_size s segments) = extra_size
state_of (at_extra bytes s segments) = extra_data
state_of (at_step s segments) = adjustment
state_of finished = done

-- What the reader is to read next, and the bytes of a segment that are left.
abbrev pub Awaits : {S : Type 0} → Todo → Reader S → ℕ → List ℕ → Type 0
Awaits (at_dfpatch segments) r left bytes = Unsizes r bytes 0 (rounds segments)
Awaits (at_diff_size s segments) r left bytes =
    Unsizes r bytes (length s.diff) (s.diff ++ extra_part s (rounds segments))
Awaits (at_diff data_left s segments) r left bytes =
    (r.size_state ≡ first)
    × (left ≡ length data_left)
    × (bytes ≡ data_left ++ extra_part s (rounds segments))
Awaits (at_extra_size s segments) r left bytes =
    Unsizes r bytes (length s.extra) (s.extra ++ adjustment_part s (rounds segments))
Awaits (at_extra data_left s segments) r left bytes =
    (r.size_state ≡ first)
    × (left ≡ length data_left)
    × (bytes ≡ data_left ++ adjustment_part s (rounds segments))
Awaits (at_step s segments) r left bytes =
    Unsizes r bytes (signed_value s.back s.step) (rounds segments)
Awaits finished r left bytes = bytes ≡ []

module _ (source : ℕ → ℕ) (limit : ℕ) where
  -- What is still to be written, from an offset in the source.
  abbrev pub remaining : Todo → ℕ → List ℕ
  remaining (at_dfpatch segments) offset = target source segments offset
  remaining (at_diff_size s segments) offset = target source (s ∷ segments) offset
  remaining (at_diff bytes s segments) offset =
      summed source bytes offset
      ++ (s.extra ++ target source segments (stepped_from s (offset + length bytes)))
  remaining (at_extra_size s segments) offset =
      s.extra ++ target source segments (stepped_from s offset)
  remaining (at_extra bytes s segments) offset =
      bytes ++ target source segments (stepped_from s offset)
  remaining (at_step s segments) offset = target source segments (stepped_from s offset)
  remaining finished offset = []

  -- The end of a round fits, and so do the rounds behind it.
  abbrev pub RestFits : Segment → List Segment → ℕ → Type 0
  RestFits s segments offset =
      StepFits limit s offset
      × ((segments ≡ []) ⊎ (target source segments (stepped_from s offset) ≢ []))
      × Fits source limit segments (stepped_from s offset)

  abbrev pub TodoFits : Todo → ℕ → Type 0
  TodoFits (at_dfpatch segments) offset = Fits source limit segments offset × (segments ≢ [])
  TodoFits (at_diff_size s segments) offset = Fits source limit (s ∷ segments) offset
  TodoFits (at_diff bytes s segments) offset =
      (length bytes < 2 ^ 27)
      × (length s.extra < 2 ^ 27)
      × (offset + length bytes ≤ limit)
      × RestFits s segments (offset + length bytes)
  TodoFits (at_extra_size s segments) offset =
      (length s.extra < 2 ^ 27) × RestFits s segments offset
  TodoFits (at_extra bytes s segments) offset = (length bytes < 2 ^ 27) × RestFits s segments offset
  TodoFits (at_step s segments) offset = RestFits s segments offset
  TodoFits finished offset = Unit

-- `from_offset` is the offset in the source, counted from where the source stood at the start of the
-- patch, as a word.
pub record Tracked (start limit from offset : ℕ) : Type 0 where
  pub is_word : from < word
  pub counts : (from + start) % word ≡ offset % word
  pub inside : offset ≤ limit

pub moved-Tracked :
    (start limit from offset n k : ℕ)
    → Tracked start limit from offset
    → n ≡ k
    → offset + n ≤ limit
    → Tracked start limit (add32 from k) (offset + n)
moved-Tracked start limit from offset n k t e h = record {
  is_word = omega arith;
  counts = omega (arith, t.counts);
  inside = h;
}

pub stepped-Tracked :
    (start limit from offset : ℕ) (s : Segment)
    → Tracked start limit from offset
    → StepFits limit s offset
    → Tracked start limit (add32 from (signed_value s.back s.step)) (stepped_from s offset)
stepped-Tracked start limit from offset s t fits = record {
  is_word = omega arith;
  counts = ground (arith, t.counts, fits);
  inside = fits.2;
}

-- The machine has come so far: `whole` is what the target holds at the end, `total` the size in the
-- header, `start` where the source stood, and `later` the input behind the chunk.
pub record Matches {h : Decoder} (l : InflateLaws h) {A : Type 0} {cb : Callbacks A}
    (i : ImageLaws cb) (whole : List ℕ) (total start : ℕ) (later : List ℕ) (todo : Todo)
    (offset : ℕ) (self : ApplyPatch h.State) (arg : A) : Type 0 where
  pub state : self.state ≡ state_of todo
  pub valid : IsValid l self.patch_reader (self.chunk.left ++ later)
  pub awaits :
      Awaits todo self.patch_reader self.chunk_size
        (future l self.patch_reader (self.chunk.left ++ later))
  pub fits : TodoFits i.source i.limit todo offset
  pub sound : i.IsSound arg
  pub position : i.position arg ≡ pos offset
  pub tracked : Tracked start i.limit self.from_offset offset
  pub counted : self.to_offset + length (remaining i.source i.limit todo offset) ≡ self.to_size
  pub sized : self.to_size ≡ total
  pub bounded : total < 2 ^ 27
  pub written : i.written arg ++ remaining i.source i.limit todo offset ≡ whole
  pub room : length whole ≤ i.capacity
