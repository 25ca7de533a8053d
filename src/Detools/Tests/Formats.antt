-- ===== src/Detools/Tests/Formats.antt =====
-- The theorems on patches of the format at a concrete patch of two rounds.
use delta_updates_for_embedd.Common.{
  ℕ, arith, ◌≡◌, refl, inl, inr, true, false, List, [], ◌∷◌, ◌++◌, some, pos, neg, negsuc,
}
use delta_updates_for_embedd.Detools.Stored.{stored, stored-FiniteOutput}
use delta_updates_for_embedd.Detools.Stored.Inflating.{stored-InflateLaws}
use delta_updates_for_embedd.Detools.Stored.Images.{
  Images, images, images-ImageLaws, images-patch_read, source_of,
}
use delta_updates_for_embedd.Detools.Codes.{not_enough_patch_data}
use delta_updates_for_embedd.Detools.Chunk.{chunk_at}
use delta_updates_for_embedd.Detools.Chunk.RoundTrip.{pack_header_size, tail_groups}
use delta_updates_for_embedd.Detools.Reader.RoundTrip.{pack_size}
use delta_updates_for_embedd.Detools.Inflate.{inflate, IsNeeded}
use delta_updates_for_embedd.Detools.Apply.{Stepped}
use delta_updates_for_embedd.Detools.Run.{apply_patch_callbacks}
use delta_updates_for_embedd.Detools.Format.{Segment, stream, Fits}
use delta_updates_for_embedd.Detools.Format.Refines.{
  apply_patch_callbacks-target, apply_patch_callbacks-cut,
}
use delta_updates_for_embedd.Detools.Reader.{
  Reader, heatshrink_destroy, patch_reader_unpack_size, decompress,
}
use delta_updates_for_embedd.Detools.Apply.{ApplyPatch, diff_data, process_once}
use delta_updates_for_embedd.Detools.Inflate.Supply.{Served, decompress-Served}
use delta_updates_for_embedd.Detools.Format.Sizes.{unsize, SizeRead, unpack_size-SizeRead}
use delta_updates_for_embedd.Detools.Format.Matches.{at_diff}
use delta_updates_for_embedd.Detools.Format.Once.{Going, OnceGoes, process_once-OnceGoes}
use delta_updates_for_embedd.Detools.Tests.{fresh, fresh_reader}

abbrev pub abc : List ℕ
abc = 65 ∷ 66 ∷ 67 ∷ []

-- Two bytes of diff data and one of extra data, and a step back; then two bytes of diff data.
abbrev pub first_round : Segment
first_round = record { diff = 1 ∷ 1 ∷ []; extra = 120 ∷ []; back = true; step = 1 }

abbrev pub last_round : Segment
last_round = record { diff = 1 ∷ 1 ∷ []; extra = []; back = false; step = 0 }

abbrev pub two_rounds : List Segment
two_rounds = first_round ∷ last_round ∷ []

abbrev pub two_rounds_stream : List ℕ
two_rounds_stream = 0 ∷ 2 ∷ 1 ∷ 1 ∷ 1 ∷ 120 ∷ 65 ∷ 2 ∷ 1 ∷ 1 ∷ 0 ∷ 0 ∷ []

abbrev two_rounds_patch : Images
two_rounds_patch = record {
  source_at = pos 0;
  patch = 4 ∷ 5 ∷ 0x44 ∷ two_rounds_stream;
  target = [];
}

pub stored-IsNeeded : (bytes : List ℕ) → IsNeeded stored-InflateLaws tt bytes
stored-IsNeeded [] = tt
stored-IsNeeded (b ∷ bytes) = (λ e. cc, stored-IsNeeded bytes)

pub two_rounds-inflate : inflate stored-InflateLaws tt two_rounds_stream ≡ stream two_rounds
unfolding pack_size tail_groups
two_rounds-inflate = refl

pub two_rounds-Fits : Fits (source_of abc) 3 two_rounds 0
two_rounds-Fits = (
  omega arith,
  omega arith,
  omega arith,
  (omega arith, inr (omega arith), omega arith),
  inr λ e. cc,
  (omega arith, omega arith, omega arith, (omega arith, inl refl, omega arith), inl refl, tt),
)

apply_patch_callbacks-target_example :
    (t : Stepped (List ℕ) Images) × (apply_patch_callbacks stored
        (images abc)
        1
        32
        fresh
        15
        two_rounds_patch
      ≡ some t)
    × (t.res ≡ pos 5)
    × (t.arg.target ≡ 66 ∷ 67 ∷ 120 ∷ 67 ∷ 68 ∷ [])
    × (images-ImageLaws abc).IsSound t.arg
unfolding pack_header_size
apply_patch_callbacks-target_example =
    apply_patch_callbacks-target stored stored-FiniteOutput stored-InflateLaws (images abc)
      (images-ImageLaws abc) 1 32 fresh two_rounds_patch 4 0 two_rounds two_rounds_stream refl tt
      refl (omega arith) two_rounds-inflate (stored-IsNeeded two_rounds_stream) two_rounds-Fits
      (omega arith) (omega arith) (omega arith) (omega arith) (omega arith) (omega arith)
      (images-patch_read abc)

-- The patch without the second round, which is missing.
abbrev pub cut_stream : List ℕ
cut_stream = 0 ∷ 2 ∷ 1 ∷ 1 ∷ 1 ∷ 120 ∷ 65 ∷ []

abbrev pub second_round : List ℕ
second_round = 2 ∷ 1 ∷ 1 ∷ 0 ∷ 0 ∷ []

abbrev cut_patch : Images
cut_patch = record { source_at = pos 0; patch = 4 ∷ 5 ∷ 0x44 ∷ cut_stream; target = [] }

apply_patch_callbacks-cut_example :
    (t : Stepped (List ℕ) Images) × (apply_patch_callbacks stored
        (images abc)
        1
        32
        fresh
        10
        cut_patch
      ≡ some t)
    × (t.res ≡ neg not_enough_patch_data)
    × (images-ImageLaws abc).IsSound t.arg
    × (rest : List ℕ) × (t.arg.target ++ rest ≡ 66 ∷ 67 ∷ 120 ∷ 67 ∷ 68 ∷ [])
unfolding pack_header_size
apply_patch_callbacks-cut_example =
    apply_patch_callbacks-cut stored stored-FiniteOutput stored-InflateLaws (images abc)
      (images-ImageLaws abc) 1 32 fresh cut_patch 4 0 two_rounds two_rounds_stream second_round refl
      (omega arith) (λ e. cc) tt refl (omega arith) two_rounds-inflate
      (stored-IsNeeded two_rounds_stream) two_rounds-Fits (omega arith) (omega arith) (omega arith)
      (omega arith) (omega arith) (omega arith) (images-patch_read abc)

-- A reader in front of the heatshrink header.
abbrev started : Reader (List ℕ)
started = record fresh_reader {
  window_sz2 = negsuc 0;
  lookahead_sz2 = negsuc 0;
  destroy = heatshrink_destroy;
}

-- The chunk ends in a size of two bytes: 68 is read from 0x84 and, of the next chunk, 0x01.
unpack_size-SizeRead_example :
    SizeRead stored-InflateLaws
      (0x01 ∷ [])
      68
      []
      (patch_reader_unpack_size stored started (chunk_at (0x44 ∷ 0x84 ∷ []) 0) 0)
unfolding unsize
unpack_size-SizeRead_example =
    unpack_size-SizeRead stored-InflateLaws (0x01 ∷ []) started (chunk_at (0x44 ∷ 0x84 ∷ []) 0) 0 68
      [] (refl, refl, λ e. cc, stored-IsNeeded (0x84 ∷ 0x01 ∷ [])) refl

decompress-Served_example :
    Served stored-InflateLaws
      (3 ∷ 4 ∷ [])
      2
      (1 ∷ 2 ∷ 3 ∷ 4 ∷ [])
      (decompress stored started (chunk_at (0x44 ∷ 1 ∷ 2 ∷ []) 0) 2)
decompress-Served_example =
    decompress-Served stored-InflateLaws started (chunk_at (0x44 ∷ 1 ∷ 2 ∷ []) 0) (3 ∷ 4 ∷ []) 2
      (omega arith) (omega arith) (refl, refl, λ e. cc, stored-IsNeeded (1 ∷ 2 ∷ 3 ∷ 4 ∷ []))
      (λ e. cc)

-- A machine in two bytes of diff data, the last of a patch.
abbrev in_last : Segment
in_last = record { diff = 1 ∷ 1 ∷ []; extra = []; back = false; step = 0 }

abbrev in_last_diff : ApplyPatch (List ℕ)
in_last_diff = record fresh {
  state = diff_data;
  to_size = 2;
  chunk_size = 2;
  patch_reader = record started { window_sz2 = pos 8; lookahead_sz2 = pos 7 };
  chunk = chunk_at (1 ∷ 1 ∷ 0 ∷ 0 ∷ []) 0;
}

abbrev in_last_images : Images
in_last_images = record { source_at = pos 0; patch = []; target = [] }

in_last-Going :
    Going stored-InflateLaws
      (images-ImageLaws abc)
      (66 ∷ 67 ∷ [])
      2
      0
      []
      in_last_diff
      in_last_images
unfolding pack_size tail_groups
in_last-Going = record {
  todo = at_diff (1 ∷ 1 ∷ []) in_last [];
  offset = 0;
  matches = record {
    state = refl;
    valid = stored-IsNeeded (1 ∷ 1 ∷ 0 ∷ 0 ∷ []);
    awaits = (refl, refl, refl);
    fits = (
      omega arith,
      omega arith,
      omega arith,
      ((omega arith, inl refl, omega arith), inl refl, tt),
    );
    sound = tt;
    position = refl;
    tracked = record { is_word = omega arith; counts = refl; inside = omega arith };
    counted = refl;
    sized = refl;
    bounded = omega arith;
    written = refl;
    room = omega arith;
  };
}

process_once-OnceGoes_example :
    OnceGoes stored-InflateLaws
      (images-ImageLaws abc)
      (66 ∷ 67 ∷ [])
      2
      0
      []
      in_last_diff
      in_last_images
      (process_once stored (images abc) in_last_diff in_last_images)
process_once-OnceGoes_example =
    process_once-OnceGoes stored-InflateLaws (images-ImageLaws abc) (66 ∷ 67 ∷ []) 2 0 []
      in_last_diff in_last_images in_last-Going
