-- ===== src/Detools/Stored/Images.antt =====
-- Callbacks for examples that keep the laws of images: a source of bytes that stays as it is.
use delta_updates_for_embedd.Common.{
  ℕ, ◌+◌, ◌^◌, refl, ap, List, ◌++◌, length, get_or, take, drop, ℤ, pos, pos_part, ◌+ℤ◌, arith, ◌≤◌,
  length-take,
}
use delta_updates_for_embedd.Detools.Apply.{Callbacks}
use delta_updates_for_embedd.Detools.Format.{bytes_of}
use delta_updates_for_embedd.Detools.Format.Images.{ImageLaws}

-- The offset in the source, what is left of the patch, and the target.
pub record Images : Type 0 where
  pub source_at : ℤ
  pub patch : List ℕ
  pub target : List ℕ

abbrev pub source_of : List ℕ → ℕ → ℕ
source_of source offset = get_or source offset 0

abbrev pub images : List ℕ → Callbacks Images
images source = record {
  from_read = λ f n. (
    record f { source_at = pos (pos_part f.source_at + n) },
    pos 0,
    bytes_of (source_of source) (pos_part f.source_at) n,
  );
  from_seek = λ f offset. (record f { source_at = f.source_at +ℤ offset }, pos 0);
  patch_read = λ f n. (record f { patch = drop n f.patch }, pos 0, take n f.patch);
  to_write = λ f bytes. (record f { target = f.target ++ bytes }, pos 0);
}

abbrev pub images-ImageLaws : (source : List ℕ) → ImageLaws (images source)
images-ImageLaws source = record {
  source = source_of source;
  limit = length source;
  capacity = 2 ^ 16;
  position = λ f. f.source_at;
  written = λ f. f.target;
  patch_left = λ f. f.patch;
  IsSound = λ f. Unit;
  read_ok = λ f offset n sound e h1 h2. (
    refl,
    ap (λ z. bytes_of (source_of source) (pos_part z) n) e,
    ap (λ z. pos (pos_part z + n)) e,
    refl,
    refl,
    tt,
  );
  seek_ok = λ f step offset sound e h. (refl, e, refl, refl, tt);
  write_ok = λ f bytes sound all short h. (refl, refl, refl, refl, tt);
  patch_ok = λ f n sound h1 h2. (refl, refl, refl, refl, refl, tt);
}

pub images-patch_read :
    (source : List ℕ) (f : Images) (n : ℕ) → length ((images source).patch_read f n).2 ≤ n
images-patch_read source f n = omega (arith, length-take n f.patch)
