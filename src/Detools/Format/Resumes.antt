-- ===== src/Detools/Format/Resumes.antt =====
-- A patch that is given to app/src/detools/detools.c chunk by chunk, with `detools_apply_patch_dump` and
-- `detools_apply_patch_restore` between two chunks.
use delta_updates_for_embedd.Common.{
  ℕ, ◌<◌, ◌^◌, arith, ◌≡◌, refl, Option, some, List, [], is_zero, false, ℤ, pos, ◌+ℤ◌, signed32,
  if◌then◌else◌,
}
use delta_updates_for_embedd.Detools.Decoder.{Decoder}
use delta_updates_for_embedd.Detools.Chunk.{chunk_at}
use delta_updates_for_embedd.Detools.Inflate.{InflateLaws}
use delta_updates_for_embedd.Detools.Reader.{Reader, Destroy, heatshrink_destroy}
use delta_updates_for_embedd.Detools.Apply.{ApplyPatch, Callbacks, Stepped, stepped}
use delta_updates_for_embedd.Detools.Run.{is_init, and_then, apply_patch_dump, apply_patch_restore}
use delta_updates_for_embedd.Detools.Format.Images.{ImageLaws}
use delta_updates_for_embedd.Detools.Format.Matches.{
  Todo, at_dfpatch, at_diff_size, at_diff, at_extra_size, at_extra, at_step, finished, state_of,
  Awaits, Tracked,
}
use delta_updates_for_embedd.Detools.Format.Once.{Going}
use delta_updates_for_embedd.Detools.Format.Feed.{process_all, feed}

-- Where the structure is stored: `state_write` and `state_read` are the callbacks of
-- `detools_apply_patch_dump` and `detools_apply_patch_restore`, and `reopen` is what the client does in
-- between. What is written is read back, the source stands at its start again, and the target is as it
-- was.
pub record Storage (S A : Type 0) : Type 0 where
  pub state_write : A → ApplyPatch S → A × ℤ
  pub reopen : A → A
  pub state_read : A → A × ℤ × ApplyPatch S

pub record StorageLaws {S A : Type 0} {cb : Callbacks A} (i : ImageLaws cb) (st : Storage S A)
    : Type 0 where
  pub write_ok : (a : A) (self : ApplyPatch S) → i.IsSound a → (st.state_write a self).1 ≡ pos 0
  pub read_ok :
      (a : A) (self : ApplyPatch S)
      → i.IsSound a
      → let (a', res, dumped) = st.state_read (st.reopen (st.state_write a self).0) in
        (res ≡ pos 0)
        × (dumped ≡ self)
        × i.IsSound a'
        × (i.position a' ≡ pos 0)
        × (i.written a' ≡ i.written a)

module _ (h : Decoder) {A : Type 0} (cb : Callbacks A) (st : Storage h.State A) where
  open h use {State}

  -- A dump, and a restore into whatever structure.
  unfoldable pub interrupted : ApplyPatch State → ApplyPatch State → A → Stepped State A
  unfolding apply_patch_dump apply_patch_restore
  interrupted other self arg =
      let (arg', res) = apply_patch_dump self st.state_write arg in
      let u = apply_patch_restore cb other st.state_read (st.reopen arg') in
      if is_zero res then u else stepped self arg' res

  -- The first chunks, the interruption, and the others with the last call behind them.
  unfoldable pub feed_interrupted :
      ℕ
      → ApplyPatch State
      → ApplyPatch State
      → A
      → List (List ℕ)
      → List (List ℕ)
      → Option (Stepped State A)
  unfolding process_all interrupted feed
  feed_interrupted fuel other self arg chunks later =
      and_then h cb (process_all h cb fuel self arg chunks) λ t.
        let u = interrupted other t.self t.arg in
        let rest = feed h cb fuel u.self u.arg later in if is_zero u.res then rest else some u

pub state_of-init : (todo : Todo) → is_init (state_of todo) ≡ false
state_of-init todo = ground arith

-- What is awaited does not depend on the pointer `destroy`.
Awaits-destroy :
    {S : Type 0} (todo : Todo) (r : Reader S) (d : Destroy) (left : ℕ) (bytes : List ℕ)
    → Awaits todo r left bytes
    → Awaits todo (record r { destroy = d }) left bytes
Awaits-destroy (at_dfpatch segments) r d left bytes a = a
Awaits-destroy (at_diff_size s segments) r d left bytes a = a
Awaits-destroy (at_diff left_over s segments) r d left bytes a = a
Awaits-destroy (at_extra_size s segments) r d left bytes a = a
Awaits-destroy (at_extra left_over s segments) r d left bytes a = a
Awaits-destroy (at_step s segments) r d left bytes a = a
Awaits-destroy finished r d left bytes a = a

module _ {h : Decoder} (l : InflateLaws h) {A : Type 0} {cb : Callbacks A} (i : ImageLaws cb)
    (st : Storage h.State A) (laws : StorageLaws i st) (short : i.limit < 2 ^ 31) where
  open h use {State}

  -- The offset that the source is moved to is the one it stood at.
  offset-Tracked :
      (from offset : ℕ) → Tracked 0 i.limit from offset → pos 0 +ℤ signed32 from ≡ pos offset
  unfolding ◌+ℤ◌
  offset-Tracked from offset t = ground (arith, t.is_word, t.counts, t.inside)

  -- What an interruption leaves: everything but the chunk, and the source where it stood.
  abbrev back : A → ApplyPatch State → A
  back arg self = (st.state_read (st.reopen (st.state_write arg self).0)).0

  abbrev pub kept_but_chunk : ApplyPatch State → ApplyPatch State → ApplyPatch State
  kept_but_chunk other self = record self {
    chunk = other.chunk;
    patch_reader = record self.patch_reader { destroy = heatshrink_destroy };
  }

  pub interrupted_ends :
      (other self : ApplyPatch State) (arg : A) (offset : ℕ)
      → is_init self.state ≡ false
      → i.IsSound arg
      → Tracked 0 i.limit self.from_offset offset
      → interrupted h cb st other self arg
        ≡ stepped
            (kept_but_chunk other self)
            (cb.from_seek (back arg self) (signed32 self.from_offset)).0
            (pos 0)
  unfolding interrupted apply_patch_dump apply_patch_restore
  interrupted_ends other self arg offset begun sound tracked =
      let (read, dumped, sound', at, same) = laws.read_ok arg self sound in
      let (seek, moved, kept, left, sound2) =
        i.seek_ok (back arg self) (signed32 self.from_offset) offset sound'
          (rw at (offset-Tracked self.from_offset offset tracked)) tracked.inside in
      rw (laws.write_ok arg self sound, read, dumped, begun, seek) refl

  -- Behind an interruption the machine is where it was in the patch, and the next chunk can come.
  pub interrupted-Going :
      (whole : List ℕ) (total : ℕ) (later : List ℕ) (other self : ApplyPatch State) (arg : A)
      → Going l i whole total 0 later self arg
      → self.chunk.left ≡ []
      → let u = interrupted h cb st other self arg in
        (u.res ≡ pos 0)
        × Going l i whole total 0 later (record u.self { chunk = chunk_at [] 0 }) u.arg
  interrupted-Going whole total later other self arg g empty =
      let m = g.matches in
      let (read, dumped, sound, at, same) = laws.read_ok arg self m.sound in
      let (seek, moved, kept, left, sound') =
        i.seek_ok (back arg self) (signed32 self.from_offset) g.offset sound
          (rw at (offset-Tracked self.from_offset g.offset m.tracked)) m.tracked.inside in
      rw
        (interrupted_ends other self arg g.offset (rw m.state (state_of-init g.todo)) m.sound
          m.tracked)
        (
          refl,
          record {
            todo = g.todo;
            offset = g.offset;
            matches = record {
              state = m.state;
              valid = rw empty at m.valid;
              awaits =
                  Awaits-destroy g.todo self.patch_reader heatshrink_destroy self.chunk_size _
                    (rw empty at m.awaits);
              fits = m.fits;
              sound = sound';
              position = moved;
              tracked = m.tracked;
              counted = m.counted;
              sized = m.sized;
              bounded = m.bounded;
              written = rw (kept, same) m.written;
              room = m.room;
            };
          },
        )
