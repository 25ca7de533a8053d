-- ===== src/Detools/Format/Steps.antt =====
-- A step of a machine that has come so far in a patch: it comes further, or it waits for input.
use delta_updates_for_embedd.Common.{
  ℕ, ◌+◌, arith, ◌≡◌, ◌≢◌, ◌⊎◌, false, List, [], ◌∷◌, ◌++◌, length, length-append, drop, min, pos,
}
use delta_updates_for_embedd.Detools.Decoder.{Decoder}
use delta_updates_for_embedd.Detools.Inflate.{InflateLaws, future}
use delta_updates_for_embedd.Detools.Inflate.Supply.{decompress-Served}
use delta_updates_for_embedd.Detools.Reader.{
  decompress, patch_reader_unpack_size, common_process_size,
}
use delta_updates_for_embedd.Detools.Reader.Decompress.{decompress-KeepsSize, decompress-bytes}
use delta_updates_for_embedd.Detools.Apply.{
  diff_data, extra_data, extra_size, adjustment, ApplyPatch, Callbacks, Stepped, add_bytes,
  write_data, process_dfpatch_size, process_size, process_data,
}
use delta_updates_for_embedd.Detools.Format.{
  Segment, rounds, adjustment_part, extra_part, stepped_from, summed, target,
}
use delta_updates_for_embedd.Detools.Format.Sizes.{unsize-pack_size, unpack_size-SizeRead}
use delta_updates_for_embedd.Detools.Format.Bytes.{
  add_bytes-All, length-summed, add_bytes-summed, split_front, summed_front,
}
use delta_updates_for_embedd.Detools.Format.Images.{ImageLaws}
use delta_updates_for_embedd.Detools.Format.Matches.{
  Todo, at_dfpatch, at_diff_size, at_diff, at_extra_size, at_extra, at_step, remaining, Matches,
  moved-Tracked,
}

module _ {h : Decoder} (l : InflateLaws h) {A : Type 0} {cb : Callbacks A} (i : ImageLaws cb)
    (whole : List ℕ) (total start : ℕ) (later : List ℕ) where
  open h use {State}

  -- From `todo`, a step comes to `todo'` with result 0, or waits with result 1, the chunk used up and
  -- more of the patch to come.
  abbrev pub Goes : Todo → ℕ → Todo → ℕ → A → Stepped State A → Type 0
  Goes todo offset todo' offset' arg t =
      ((t.res ≡ pos 0)
        × (i.patch_left t.arg ≡ i.patch_left arg)
        × Matches l i whole total start later todo' offset' t.self t.arg)
      ⊎ ((t.res ≡ pos 1)
          × (t.self.chunk.left ≡ [])
          × (later ≢ [])
          × (t.arg ≡ arg)
          × Matches l i whole total start later todo offset t.self t.arg)

  pub dfpatch_size-Goes :
      (self : ApplyPatch State) (arg : A) (s : Segment) (segments : List Segment) (offset : ℕ)
      → Matches l i whole total start later (at_dfpatch (s ∷ segments)) offset self arg
      → Goes
          (at_dfpatch (s ∷ segments))
          offset
          (at_diff_size s segments)
          offset
          arg
          (process_dfpatch_size h cb self arg)
  unfolding process_dfpatch_size
  dfpatch_size-Goes self arg s segments offset m =
      let read =
        unpack_size-SizeRead l later self.patch_reader self.chunk 0 0 (rounds (s ∷ segments))
          m.valid m.awaits in
      let r = (patch_reader_unpack_size h self.patch_reader self.chunk 0).reader in
      ground (
        arith,
        m,
        read,
        unsize-pack_size false (length s.diff) r.value r.offset r.is_signed
            (s.diff ++ extra_part s (rounds segments)),
      )

  pub diff_size-Goes :
      (self : ApplyPatch State) (arg : A) (s : Segment) (segments : List Segment) (offset : ℕ)
      → Matches l i whole total start later (at_diff_size s segments) offset self arg
      → Goes
          (at_diff_size s segments)
          offset
          (at_diff s.diff s segments)
          offset
          arg
          (process_size h cb self arg diff_data)
  unfolding process_size common_process_size
  diff_size-Goes self arg s segments offset m =
      let behind = s.extra ++ target i.source segments (stepped_from s (offset + length s.diff)) in
      ground (
        arith,
        m,
        unpack_size-SizeRead l later self.patch_reader self.chunk 0 (length s.diff)
            (s.diff ++ extra_part s (rounds segments)) m.valid m.awaits,
        length-append (summed i.source s.diff offset) behind,
        length-summed i.source s.diff offset,
      )

  pub extra_size-Goes :
      (self : ApplyPatch State) (arg : A) (s : Segment) (segments : List Segment) (offset : ℕ)
      → Matches l i whole total start later (at_extra_size s segments) offset self arg
      → Goes
          (at_extra_size s segments)
          offset
          (at_extra s.extra s segments)
          offset
          arg
          (process_size h cb self arg extra_data)
  unfolding process_size common_process_size
  extra_size-Goes self arg s segments offset m = ground (
    arith,
    m,
    unpack_size-SizeRead l later self.patch_reader self.chunk 0 (length s.extra)
        (s.extra ++ adjustment_part s (rounds segments)) m.valid m.awaits,
    length-append s.extra (target i.source segments (stepped_from s offset)),
  )

  -- The end of a segment: `process_data` leaves the state.
  pub diff_end-Goes :
      (self : ApplyPatch State) (arg : A) (s : Segment) (segments : List Segment) (offset : ℕ)
      → Matches l i whole total start later (at_diff [] s segments) offset self arg
      → Goes
          (at_diff [] s segments)
          offset
          (at_extra_size s segments)
          offset
          arg
          (process_data h cb self arg extra_size)
  unfolding process_data
  diff_end-Goes self arg s segments offset m =
      let r = self.patch_reader in
      ground (
        arith,
        m,
        unsize-pack_size false (length s.extra) r.value r.offset r.is_signed
            (s.extra ++ adjustment_part s (rounds segments)),
      )

  pub extra_end-Goes :
      (self : ApplyPatch State) (arg : A) (s : Segment) (segments : List Segment) (offset : ℕ)
      → Matches l i whole total start later (at_extra [] s segments) offset self arg
      → Goes
          (at_extra [] s segments)
          offset
          (at_step s segments)
          offset
          arg
          (process_data h cb self arg adjustment)
  unfolding process_data
  extra_end-Goes self arg s segments offset m =
      let r = self.patch_reader in
      ground
        (arith, m, unsize-pack_size s.back s.step r.value r.offset r.is_signed (rounds segments))

  pub diff_data-Goes :
      (self : ApplyPatch State) (arg : A) (b : ℕ) (bytes : List ℕ) (s : Segment)
      (segments : List Segment) (offset : ℕ)
      → Matches l i whole total start later (at_diff (b ∷ bytes) s segments) offset self arg
      → let n = length (decompress h self.patch_reader self.chunk (min 128 self.chunk_size)).out in
        Goes
          (at_diff (b ∷ bytes) s segments)
          offset
          (at_diff (drop n (b ∷ bytes)) s segments)
          (offset + n)
          arg
          (process_data h cb self arg extra_size)
  unfolding process_data write_data
  diff_data-Goes self arg b bytes s segments offset m =
      let all = b ∷ bytes in
      let d = decompress h self.patch_reader self.chunk (min 128 self.chunk_size) in
      let n = length d.out in
      let left = drop n all in
      let behind = s.extra ++ target i.source segments (stepped_from s (offset + length all)) in
      let served =
        decompress-Served l self.patch_reader self.chunk later (min 128 self.chunk_size)
          (ground (arith, m)) (ground (arith, m)) m.valid (ground (arith, m)) in
      let arg' = (cb.from_read arg d.size).0 in
      let to = add_bytes d.out (cb.from_read arg d.size).2 in
      let room =
        length-append (i.written arg)
          (remaining i.source i.limit (at_diff all s segments) offset) in
      ground (
        arith,
        m,
        served,
        split_front d.out (future l d.reader (d.chunk.left ++ later)) all
            (extra_part s (rounds segments)),
        decompress-KeepsSize h self.patch_reader self.chunk (min 128 self.chunk_size),
        i.read_ok arg offset d.size,
        i.write_ok arg' to,
        add_bytes-All d.out (cb.from_read arg d.size).2,
        decompress-bytes h l.polls self.patch_reader self.chunk (min 128 self.chunk_size),
        summed_front i.source d.out all (i.written arg) behind offset,
        add_bytes-summed i.source d.out offset,
        length-append (summed i.source all offset) behind,
        length-append (summed i.source left (offset + n)) behind,
        length-summed i.source d.out offset,
        length-summed i.source all offset,
        length-summed i.source left (offset + n),
        room,
        moved-Tracked start i.limit self.from_offset offset n d.size m.tracked,
      )
