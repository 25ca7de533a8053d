-- ===== src/Detools/Stored/Saved.antt =====
-- Callbacks and a storage for examples: images, and a place for the structure of the patch applier.
use delta_updates_for_embedd.Common.{ℕ, refl, List, pos}
use delta_updates_for_embedd.Detools.Apply.{ApplyPatch, Callbacks}
use delta_updates_for_embedd.Detools.Format.Images.{ImageLaws}
use delta_updates_for_embedd.Detools.Format.Resumes.{Storage, StorageLaws}
use delta_updates_for_embedd.Detools.Stored.Images.{Images, images, images-ImageLaws}

pub record Saved : Type 0 where
  pub files : Images
  pub stored : ApplyPatch (List ℕ)

abbrev pub saved : List ℕ → Callbacks Saved
saved source = record {
  from_read = λ s n.
      let (f, res, bytes) = (images source).from_read s.files n in
      (record s { files = f }, res, bytes);
  from_seek = λ s offset.
      let (f, res) = (images source).from_seek s.files offset in (record s { files = f }, res);
  patch_read = λ s n.
      let (f, res, bytes) = (images source).patch_read s.files n in
      (record s { files = f }, res, bytes);
  to_write = λ s bytes.
      let (f, res) = (images source).to_write s.files bytes in (record s { files = f }, res);
}

abbrev pub saved-ImageLaws : (source : List ℕ) → ImageLaws (saved source)
saved-ImageLaws source =
    let i = images-ImageLaws source in
    record {
      source = i.source;
      limit = i.limit;
      capacity = i.capacity;
      position = λ s. i.position s.files;
      written = λ s. i.written s.files;
      patch_left = λ s. i.patch_left s.files;
      IsSound = λ s. i.IsSound s.files;
      read_ok = λ s. i.read_ok s.files;
      seek_ok = λ s. i.seek_ok s.files;
      write_ok = λ s. i.write_ok s.files;
      patch_ok = λ s. i.patch_ok s.files;
    }

abbrev pub saved_storage : Storage (List ℕ) Saved
saved_storage = record {
  state_write = λ s self. (record s { stored = self }, pos 0);
  reopen = λ s. record s { files = record s.files { source_at = pos 0 } };
  state_read = λ s. (s, pos 0, s.stored);
}

pub saved-StorageLaws : (source : List ℕ) → StorageLaws (saved-ImageLaws source) saved_storage
saved-StorageLaws source = record {
  write_ok = λ a self sound. refl;
  read_ok = λ a self sound. (refl, refl, tt, refl, refl);
}
