-- ===== src/Detools/Format/Loops.antt =====
-- The loops of `detools_apply_patch_process`, `detools_apply_patch_finalize` and `callbacks_process` in
-- app/src/detools/detools.c on a machine that is somewhere in a patch.
use delta_updates_for_embedd.Common.{
  ℕ, zero, suc, ◌≤◌, ◌<◌, arith, ◌≡◌, ◌≢◌, refl, ◌∙◌, ◌⊎◌, inl, Option, some, none, List, [], ◌++◌,
  length, ℤ, pos, neg,
}
use delta_updates_for_embedd.Detools.Codes.{already_done}
use delta_updates_for_embedd.Detools.Decoder.{Decoder}
use delta_updates_for_embedd.Detools.Inflate.{InflateLaws}
use delta_updates_for_embedd.Detools.Apply.{ApplyPatch, Callbacks, Stepped, process_once}
use delta_updates_for_embedd.Detools.Run.{
  process_loop, load_chunk, process, with_result, more_wanted, finalize_loop,
}
use delta_updates_for_embedd.Detools.Format.Images.{ImageLaws}
use delta_updates_for_embedd.Detools.Format.Once.{Going, process_once-OnceGoes}

module _ {h : Decoder} (l : InflateLaws h) {A : Type 0} {cb : Callbacks A} (i : ImageLaws cb)
    (whole : List ℕ) (total start : ℕ) where
  open h use {State}

  -- A loop that has used its chunk up, with result 0 or 1, the patch read no further, and this input
  -- still to come.
  abbrev pub UsedUp : List ℕ → List ℕ → Stepped State A → Type 0
  UsedUp later patch t =
      ((t.res ≡ pos 0) ⊎ (t.res ≡ pos 1))
      × (t.self.chunk.left ≡ [])
      × (i.patch_left t.arg ≡ patch)
      × Going l i whole total start later t.self t.arg

  pub process_loop-UsedUp :
      (later : List ℕ) (n : ℕ) (self : ApplyPatch State) (arg : A) (res : ℤ) (t : Stepped State A)
      → (res ≡ pos 0) ⊎ (res ≡ pos 1)
      → Going l i whole total start later self arg
      → process_loop h cb n self arg res ≡ some t
      → UsedUp later (i.patch_left arg) t
  unfolding process_loop
  process_loop-UsedUp later zero self arg res t r g e = ground arith
  process_loop-UsedUp later (suc n) self arg res t r g e =
      let u = process_once h cb self arg in
      let once = process_once-OnceGoes l i whole total start later self arg g in
      ground (arith, once, process_loop-UsedUp later n u.self u.arg u.res t)

  pub with_result-UsedUp :
      (later patch : List ℕ) (o : Option (Stepped State A)) (t : Stepped State A)
      → ((u : Stepped State A) → o ≡ some u → UsedUp later patch u)
      → with_result h cb (more_wanted h cb) o ≡ some t
      → (t.res ≡ pos 0) × UsedUp later patch t
  with_result-UsedUp later patch none t all e = cc
  with_result-UsedUp later patch (some u) t all e = ground (arith, all u refl)

  -- `detools_apply_patch_process` on a machine without a chunk, and the front of what is to come.
  pub process-UsedUp :
      (later : List ℕ) (fuel : ℕ) (self : ApplyPatch State) (arg : A) (patch : List ℕ) (size : ℕ)
      (t : Stepped State A)
      → Going l i whole total start later (load_chunk h cb self patch size) arg
      → process h cb fuel self arg patch size ≡ some t
      → (t.res ≡ pos 0) × UsedUp later (i.patch_left arg) t
  unfolding process
  process-UsedUp later fuel self arg patch size t g e =
      with_result-UsedUp later (i.patch_left arg)
        (process_loop h cb fuel (load_chunk h cb self patch size) arg (pos 0)) t
        (λ u eu.
          process_loop-UsedUp later fuel (load_chunk h cb self patch size) arg (pos 0) u (inl refl)
            g eu)
        e

  -- The front of the input becomes the chunk, for a machine that has none.
  pub load-Going :
      (later later' : List ℕ) (self : ApplyPatch State) (arg : A) (patch : List ℕ) (size : ℕ)
      → Going l i whole total start later self arg
      → self.chunk.left ≡ []
      → patch ++ later' ≡ later
      → Going l i whole total start later' (load_chunk h cb self patch size) arg
  load-Going later later' self arg patch size g empty e =
      let m = g.matches in
      let same : patch ++ later' ≡ self.chunk.left ++ later = rw empty e in
      record {
        todo = g.todo;
        offset = g.offset;
        matches = record {
          state = m.state;
          valid = rw same m.valid;
          awaits = rw same m.awaits;
          fits = m.fits;
          sound = m.sound;
          position = m.position;
          tracked = m.tracked;
          counted = m.counted;
          sized = m.sized;
          bounded = m.bounded;
          written = m.written;
          room = m.room;
        };
      }

  -- A read of the patch leaves the machine where it is.
  pub read-Going :
      (later : List ℕ) (self : ApplyPatch State) (arg : A) (n : ℕ)
      → Going l i whole total start later self arg
      → 0 < n
      → n ≤ length (i.patch_left arg)
      → Going l i whole total start later self (cb.patch_read arg n).0
  read-Going later self arg n g h1 h2 =
      let m = g.matches in
      let (read, bytes, same_position, same_written, left, sound) =
        i.patch_ok arg n m.sound h1 h2 in
      record {
        todo = g.todo;
        offset = g.offset;
        matches = record {
          state = m.state;
          valid = m.valid;
          awaits = m.awaits;
          fits = m.fits;
          sound = sound;
          position = same_position ∙ m.position;
          tracked = m.tracked;
          counted = m.counted;
          sized = m.sized;
          bounded = m.bounded;
          written = rw same_written m.written;
          room = m.room;
        };
      }

  -- The loop of `detools_apply_patch_finalize`, behind the whole patch: it comes to the end of it.
  pub finalize_loop-whole :
      (n : ℕ) (self : ApplyPatch State) (arg : A) (t : Stepped State A)
      → Going l i whole total start [] self arg
      → finalize_loop h cb n self arg ≡ some t
      → (t.res ≡ neg already_done)
        × (i.written t.arg ≡ whole)
        × (t.self.to_size ≡ total)
        × (l.pending t.self.patch_reader.decoder ≡ [])
        × i.IsSound t.arg
  unfolding finalize_loop
  finalize_loop-whole zero self arg t g e = cc
  finalize_loop-whole (suc n) self arg t g e =
      let u = process_once h cb self arg in
      ground (
        arith,
        g.matches.sized,
        g.matches.sound,
        process_once-OnceGoes l i whole total start [] self arg g,
        finalize_loop-whole n u.self u.arg t,
      )

  -- Where input is missing, it ends with the request for more.
  pub finalize_loop-missing :
      (missing : List ℕ) (n : ℕ) (self : ApplyPatch State) (arg : A) (t : Stepped State A)
      → missing ≢ []
      → Going l i whole total start missing self arg
      → finalize_loop h cb n self arg ≡ some t
      → (t.res ≡ pos 1) × Going l i whole total start missing t.self t.arg
  unfolding finalize_loop
  finalize_loop-missing missing zero self arg t more g e = cc
  finalize_loop-missing missing (suc n) self arg t more g e =
      let u = process_once h cb self arg in
      ground (
        arith,
        process_once-OnceGoes l i whole total start missing self arg g,
        finalize_loop-missing missing n u.self u.arg t more,
      )
