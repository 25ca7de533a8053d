-- ===== src/Detools/Stored/Files.antt =====
-- Callbacks for examples, over byte lists: the source, what is left of the patch, and the target.
use delta_updates_for_embedd.Common.{ℕ, ◌≤◌, arith, List, ◌++◌, take, drop}
use delta_updates_for_embedd.Common.{length, length-take, ℤ, pos, pos_part, ◌+ℤ◌}
use delta_updates_for_embedd.Detools.Apply.{Callbacks}

pub record Files : Type 0 where
  pub source : List ℕ
  pub source_at : ℤ
  pub patch : List ℕ
  pub target : List ℕ

unfoldable pub files : Callbacks Files
unfolding ◌+ℤ◌
files = record {
  from_read = λ f n. (
    record f { source_at = f.source_at +ℤ pos n },
    pos 0,
    take n (drop (pos_part f.source_at) f.source),
  );
  from_seek = λ f offset. (record f { source_at = f.source_at +ℤ offset }, pos 0);
  patch_read = λ f n. (record f { patch = drop n f.patch }, pos 0, take n f.patch);
  to_write = λ f bytes. (record f { target = f.target ++ bytes }, pos 0);
}

pub files-patch_read : (f : Files) (n : ℕ) → length (files.patch_read f n).2 ≤ n
unfolding files
files-patch_read f n = omega (arith, length-take n f.patch)
