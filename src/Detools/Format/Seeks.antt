-- ===== src/Detools/Format/Seeks.antt =====
-- The steps of the patch applier that write extra bytes, and that step in the source.
use delta_updates_for_embedd.Common.{
  ℕ, ◌≤◌, ◌<◌, ◌^◌, arith, ◌≡◌, ◌≢◌, refl, ◌⊎◌, false, List, [], ◌∷◌, ◌++◌, length, length-append,
  drop, min, signed32, pos, ◌+ℤ◌,
}
use delta_updates_for_embedd.Detools.Decoder.{Decoder}
use delta_updates_for_embedd.Detools.Inflate.{InflateLaws, future}
use delta_updates_for_embedd.Detools.Inflate.Supply.{decompress-Served}
use delta_updates_for_embedd.Detools.Reader.{decompress, patch_reader_unpack_size}
use delta_updates_for_embedd.Detools.Reader.Decompress.{decompress-KeepsSize, decompress-bytes}
use delta_updates_for_embedd.Detools.Reader.RoundTrip.{signed_value}
use delta_updates_for_embedd.Detools.Apply.{
  adjustment, ApplyPatch, Callbacks, write_data, process_data, process_adjustment,
}
use delta_updates_for_embedd.Detools.Format.{
  Segment, rounds, adjustment_part, extra_part, stepped_from, target,
}
use delta_updates_for_embedd.Detools.Format.Sizes.{unsize-pack_size, unpack_size-SizeRead}
use delta_updates_for_embedd.Detools.Format.Bytes.{split_front, plain_front}
use delta_updates_for_embedd.Detools.Format.Images.{ImageLaws}
use delta_updates_for_embedd.Detools.Format.Matches.{
  at_diff_size, at_extra, at_step, finished, remaining, Matches, stepped-Tracked,
}
use delta_updates_for_embedd.Detools.Format.Steps.{Goes}

module _ {h : Decoder} (l : InflateLaws h) {A : Type 0} {cb : Callbacks A} (i : ImageLaws cb)
    (whole : List ℕ) (total start : ℕ) (later : List ℕ) where
  open h use {State}

  pub extra_data-Goes :
      (self : ApplyPatch State) (arg : A) (b : ℕ) (bytes : List ℕ) (s : Segment)
      (segments : List Segment) (offset : ℕ)
      → Matches l i whole total start later (at_extra (b ∷ bytes) s segments) offset self arg
      → let n = length (decompress h self.patch_reader self.chunk (min 128 self.chunk_size)).out in
        Goes l i whole total start later
          (at_extra (b ∷ bytes) s segments)
          offset
          (at_extra (drop n (b ∷ bytes)) s segments)
          offset
          arg
          (process_data h cb self arg adjustment)
  unfolding process_data write_data
  extra_data-Goes self arg b bytes s segments offset m =
      let all = b ∷ bytes in
      let d = decompress h self.patch_reader self.chunk (min 128 self.chunk_size) in
      let n = length d.out in
      let left = drop n all in
      let behind = target i.source segments (stepped_from s offset) in
      let served =
        decompress-Served l self.patch_reader self.chunk later (min 128 self.chunk_size)
          (ground (arith, m)) (ground (arith, m)) m.valid (ground (arith, m)) in
      let room =
        length-append (i.written arg)
          (remaining i.source i.limit (at_extra all s segments) offset) in
      ground (
        arith,
        m,
        served,
        split_front d.out (future l d.reader (d.chunk.left ++ later)) all
            (adjustment_part s (rounds segments)),
        decompress-KeepsSize h self.patch_reader self.chunk (min 128 self.chunk_size),
        i.write_ok arg d.out,
        decompress-bytes h l.polls self.patch_reader self.chunk (min 128 self.chunk_size),
        plain_front d.out all (i.written arg) behind,
        length-append all behind,
        length-append left behind,
        room,
      )

  -- The step in the source, as the seek gets it.
  seek_offset :
      (s : Segment) (offset : ℕ)
      → s.step < 2 ^ 27
      → (s.back ≡ false) ⊎ (s.step ≤ offset)
      → pos offset +ℤ signed32 (signed_value s.back s.step) ≡ pos (stepped_from s offset)
  unfolding ◌+ℤ◌
  seek_offset s offset h1 h2 = ground arith

  pub last-Goes :
      (self : ApplyPatch State) (arg : A) (s : Segment) (offset : ℕ)
      → Matches l i whole total start later (at_step s []) offset self arg
      → Goes l i whole total start later
          (at_step s [])
          offset
          finished
          (stepped_from s offset)
          arg
          (process_adjustment h cb self arg)
  unfolding process_adjustment
  last-Goes self arg s offset m = ground (
    arith,
    m,
    unpack_size-SizeRead l later self.patch_reader self.chunk 0 (signed_value s.back s.step) []
        m.valid m.awaits,
    seek_offset s offset,
    stepped-Tracked start i.limit self.from_offset offset s m.tracked m.fits.0,
    i.seek_ok arg (signed32 (signed_value s.back s.step)) (stepped_from s offset),
  )

  ne_nil-length : (xs : List ℕ) → xs ≢ [] → 0 < length xs
  ne_nil-length [] ne = absurd (ne refl)
  ne_nil-length (x ∷ xs) ne = omega arith

  pub next-Goes :
      (self : ApplyPatch State) (arg : A) (s s' : Segment) (segments : List Segment) (offset : ℕ)
      → Matches l i whole total start later (at_step s (s' ∷ segments)) offset self arg
      → Goes l i whole total start later
          (at_step s (s' ∷ segments))
          offset
          (at_diff_size s' segments)
          (stepped_from s offset)
          arg
          (process_adjustment h cb self arg)
  unfolding process_adjustment
  next-Goes self arg s s' segments offset m =
      let u = patch_reader_unpack_size h self.patch_reader self.chunk 0 in
      let r = u.reader in
      ground (
        arith,
        m,
        unpack_size-SizeRead l later self.patch_reader self.chunk 0 (signed_value s.back s.step)
            (rounds (s' ∷ segments)) m.valid m.awaits,
        seek_offset s offset,
        stepped-Tracked start i.limit self.from_offset offset s m.tracked m.fits.0,
        ne_nil-length (target i.source (s' ∷ segments) (stepped_from s offset)),
        i.seek_ok arg (signed32 (signed_value s.back s.step)) (stepped_from s offset),
        unsize-pack_size false (length s'.diff) r.value r.offset r.is_signed
            (s'.diff ++ extra_part s' (rounds segments)),
      )
