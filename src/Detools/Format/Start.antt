-- ===== src/Detools/Format/Start.antt =====
-- The start of the patch applier of app/src/detools/detools.c in a patch of the format: the header.
use delta_updates_for_embedd.Common.{
  ℕ, ◌+◌, ◌/◌, ◌≤◌, ◌<◌, ◌^◌, arith, ◌≡◌, ◌≢◌, refl, ap, ◌∙◌, sym, false, List, [], ◌∷◌, ◌++◌,
  length, bit_and, pos,
}
use delta_updates_for_embedd.Detools.Decoder.{Decoder}
use delta_updates_for_embedd.Detools.Chunk.RoundTrip.{unpack-pack_header_size}
use delta_updates_for_embedd.Detools.Inflate.{InflateLaws, inflate, IsNeeded}
use delta_updates_for_embedd.Detools.Reader.{patch_reader_init}
use delta_updates_for_embedd.Detools.Reader.RoundTrip.{pack_size}
use delta_updates_for_embedd.Detools.Apply.{
  init, dfpatch_size, ApplyPatch, Callbacks, init_with, process_init, dispatch, process_once,
}
use delta_updates_for_embedd.Detools.Format.{Segment, rounds, stream, patch_header, target, Fits}
use delta_updates_for_embedd.Detools.Format.Sizes.{unsize-pack_size}
use delta_updates_for_embedd.Detools.Format.Images.{ImageLaws}
use delta_updates_for_embedd.Detools.Format.Matches.{at_dfpatch}
use delta_updates_for_embedd.Detools.Format.Once.{Going}

pub no_type : (c : ℕ) → c < 16 → bit_and (c / 16) 0x7 ≡ 0
no_type c h = let e : c / 16 ≡ 0 = omega arith in rw e refl

stream-ne-nil : (segments : List Segment) → stream segments ≢ []
unfolding pack_size
stream-ne-nil segments = λ e. cc

module _ {h : Decoder} (l : InflateLaws h) {A : Type 0} {cb : Callbacks A} (i : ImageLaws cb) where
  open h use {State}

  -- The header of a patch, with the start of what is behind it in the chunk.
  header-init :
      (self : ApplyPatch State) (arg : A) (compression total at : ℕ) (front : List ℕ)
      → self.state ≡ init
      → self.chunk.left ≡ patch_header compression total ++ front
      → compression < 16
      → 0 < total
      → total < 2 ^ 27
      → let t = process_once h cb self arg in
        (t.res ≡ pos 0)
        × (t.self.state ≡ dfpatch_size)
        × (t.self.to_offset ≡ 0)
        × (t.self.to_size ≡ total)
        × (t.self.from_offset ≡ self.from_offset)
        × (t.self.chunk.left ≡ front)
        × (t.self.patch_reader ≡ patch_reader_init h self.patch_reader)
        × (t.arg ≡ arg)
  unfolding process_once dispatch process_init init_with
  header-init self arg compression total at front e1 e2 h1 h2 h3 =
      ground
        (arith, no_type compression, unpack-pack_header_size total 0 (self.chunk.offset + 1) front)

  -- The machine behind the header is in front of the rounds.
  pub header-Going :
      (self : ApplyPatch State) (arg : A) (compression offset : ℕ) (s : Segment)
      (segments : List Segment) (z front later : List ℕ)
      → let whole_target = target i.source (s ∷ segments) offset in
        let t = process_once h cb self arg in
        self.state ≡ init
        → self.from_offset ≡ 0
        → self.chunk.left ≡ patch_header compression (length whole_target) ++ front
        → front ++ later ≡ 0x44 ∷ z
        → compression < 16
        → 0 < length whole_target
        → length whole_target < 2 ^ 27
        → inflate l l.initial z ≡ stream (s ∷ segments)
        → IsNeeded l l.initial z
        → Fits i.source i.limit (s ∷ segments) offset
        → i.IsSound arg
        → i.position arg ≡ pos offset
        → length (i.written arg ++ whole_target) ≤ i.capacity
        → (t.res ≡ pos 0)
          × (i.patch_left t.arg ≡ i.patch_left arg)
          × Going l i
              (i.written arg ++ whole_target)
              (length whole_target)
              offset
              later
              t.self
              t.arg
  unfolding patch_reader_init
  header-Going self arg compression offset s segments z front later e1 e0 e2 e3 h1 h2 h3 inflates
        needed fits sound at room =
      let d = self.patch_reader.decoder in
      let t = process_once h cb self arg in
      let (res, state, none_yet, size, from, left, reader, same) =
        header-init self arg compression (length (target i.source (s ∷ segments) offset)) 0 front e1
          e2 h1 h2 h3 in
      let input : t.self.chunk.left ++ later ≡ 0x44 ∷ z = rw left e3 in
      (
        res,
        ap (λ a. i.patch_left a) same,
        record {
          todo = at_dfpatch (s ∷ segments);
          offset = offset;
          matches = record {
            state = state;
            valid =
                rw (input, reader)
                  (
                    refl,
                    l.reset_pending d,
                    rw (l.reset_core d) λ e. stream-ne-nil (s ∷ segments) (sym inflates ∙ e),
                    rw (l.reset_core d) needed,
                  );
            awaits =
                rw (input, reader, l.reset_pending d, l.reset_core d, inflates)
                  (unsize-pack_size false 0 _ _ _ (rounds (s ∷ segments)) (omega arith));
            fits = (fits, λ e. cc);
            sound = rw same sound;
            position = rw same at;
            tracked =
                rw (from, e0)
                  record {
                    is_word = omega arith;
                    counts = omega arith;
                    inside = omega (arith, fits.2);
                  };
            counted = rw (none_yet, size) (omega arith);
            sized = size;
            bounded = h3;
            written = rw same refl;
            room = room;
          };
        },
      )
