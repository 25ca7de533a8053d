-- ===== src/Detools/Tests/Whole.antt =====
-- The theorems on whole patches, and on dumping and restoring, at concrete machines.
use delta_updates_for_embedd.Common.{
  ℕ, ◌-◌, ◌%◌, ◌≤◌, arith, ◌≡◌, ◌≢◌, refl, List, [], length, length-append,
}
use delta_updates_for_embedd.Common.{Option, none, some, ℤ, pos, signed32, word}
use delta_updates_for_embedd.Detools.Stored.{stored, stored-PollLaws, stored-FiniteOutput}
use delta_updates_for_embedd.Detools.Stored.Files.{Files, files, files-patch_read}
use delta_updates_for_embedd.Detools.Apply.{ApplyPatch, Callbacks, Stepped}
use delta_updates_for_embedd.Detools.Apply.Written.{CountsWrites}
use delta_updates_for_embedd.Detools.Run.Rounds.{apply_patch_callbacks-ne-none}
use delta_updates_for_embedd.Detools.Run.Complete.{apply_patch_callbacks-IsComplete}
use delta_updates_for_embedd.Detools.Run.Written.{apply_patch_callbacks-written}
use delta_updates_for_embedd.Detools.Tests.{fresh, sample, outcome, got, sample_positive}

some-got : (o : Option (Stepped (List ℕ) Files)) → o ≢ none → o ≡ some (got o)
some-got none e = absurd (e refl)
some-got (some t) e = refl

outcome-some : outcome ≡ some (got outcome)
outcome-some = some-got outcome (
    apply_patch_callbacks-ne-none stored stored-FiniteOutput stored-PollLaws files 1 24 fresh 11
      sample files-patch_read (omega arith) (omega arith) (omega arith))

abbrev target_size : Files → ℕ
target_size f = length f.target

files-CountsWrites : CountsWrites files target_size
unfolding files
files-CountsWrites = record {
  count_write = λ f bytes e. length-append f.target bytes;
  count_read = λ f n. refl;
  count_seek = λ f offset. refl;
  count_patch = λ f n. refl;
}

apply_patch_callbacks-IsComplete_example :
    ((got outcome).res ≡ signed32 (got outcome).self.to_size)
    × ((got outcome).self.to_offset ≡ (got outcome).self.to_size)
apply_patch_callbacks-IsComplete_example =
    apply_patch_callbacks-IsComplete stored stored-FiniteOutput stored-PollLaws files 1 24 fresh 11
      sample (got outcome) outcome-some sample_positive

apply_patch_callbacks-written_example :
    ((got outcome).res ≡ signed32 (got outcome).self.to_size)
    × (0 ≤ target_size (got outcome).arg)
    × ((target_size (got outcome).arg - 0) % word ≡ (got outcome).self.to_size)
apply_patch_callbacks-written_example =
    apply_patch_callbacks-written stored stored-FiniteOutput stored-PollLaws files target_size
      files-CountsWrites 1 24 fresh 11 sample (got outcome) outcome-some sample_positive

-- What `arg_p` points to is the dump.
abbrev Dump : Type 0
Dump = Option (ApplyPatch (List ℕ))

abbrev dump_callbacks : Callbacks Dump
dump_callbacks = record {
  from_read = λ a n. (a, pos 0, []);
  from_seek = λ a offset. (a, pos 0);
  patch_read = λ a n. (a, pos 0, []);
  to_write = λ a bytes. (a, pos 0);
}

abbrev write_dump : Dump → ApplyPatch (List ℕ) → Dump × ℤ
write_dump a self = (some self, pos 0)

abbrev read_dump : Dump → Dump × ℤ × ApplyPatch (List ℕ)
read_dump none = (none, pos 1, fresh)
read_dump (some self) = (some self, pos 0, self)
