-- ===== src/Detools/Format/Fed.antt =====
-- A patch that is given to app/src/detools/detools.c chunk by chunk, against the format of a patch.
use delta_updates_for_embedd.Common.{
  ℕ, ◌+◌, ◌*◌, ◌≤◌, ◌<◌, ◌^◌, arith, ◌≡◌, ◌≢◌, refl, ap, ◌∙◌, some, List, [], ◌∷◌, ◌++◌, append-nil,
  length, length-append, pos, neg,
}
use delta_updates_for_embedd.Detools.Codes.{not_enough_patch_data}
use delta_updates_for_embedd.Detools.Decoder.{Decoder, FiniteOutput}
use delta_updates_for_embedd.Detools.Chunk.{chunk_at}
use delta_updates_for_embedd.Detools.Inflate.{InflateLaws, inflate, IsNeeded}
use delta_updates_for_embedd.Detools.Apply.{ApplyPatch, Callbacks, Stepped}
use delta_updates_for_embedd.Detools.Run.{finalize, apply_patch_init}
use delta_updates_for_embedd.Detools.Run.Rounds.{reserve}
use delta_updates_for_embedd.Detools.Format.{
  Segment, stream, patch_header, patch_bytes, target, Fits,
}
use delta_updates_for_embedd.Detools.Format.Images.{ImageLaws}
use delta_updates_for_embedd.Detools.Format.Once.{Going}
use delta_updates_for_embedd.Detools.Format.Ends.{finalize-whole, finalize-missing, emptied-Going}
use delta_updates_for_embedd.Detools.Format.First.{header-UsedUp}
use delta_updates_for_embedd.Detools.Format.Matches.{remaining}
use delta_updates_for_embedd.Detools.Format.Feed.{
  joined, process_all, feed, process_ends, finalize_ends, process_all_follows,
}

module _ (h : Decoder) (f : FiniteOutput h) (l : InflateLaws h) {A : Type 0} (cb : Callbacks A)
    (i : ImageLaws cb) (fuel patch_size : ℕ) (memory : ApplyPatch h.State) (arg : A)
    (compression offset : ℕ) (s : Segment) (segments : List Segment) (z : List ℕ)
    (sound : i.IsSound arg) (at : i.position arg ≡ pos offset) (low : compression < 16)
    (inflates : inflate l l.initial z ≡ stream (s ∷ segments)) (needed : IsNeeded l l.initial z)
    (fits : Fits i.source i.limit (s ∷ segments) offset)
    (some_target : 0 < length (target i.source (s ∷ segments) offset))
    (bounded : length (target i.source (s ∷ segments) offset) < 2 ^ 27)
    (room : length (i.written arg ++ target i.source (s ∷ segments) offset) ≤ i.capacity) where
  open h use {State}

  abbrev whole_target : List ℕ
  whole_target = target i.source (s ∷ segments) offset

  abbrev total : ℕ
  total = length whole_target

  -- Behind the first chunk, which holds the header, and those behind it, the machine is where they end
  -- in the patch.
  pub begun_all :
      (chunk : List ℕ) (chunks : List (List ℕ)) (missing : List ℕ) (size : ℕ)
      → chunk ++ (joined chunks ++ missing) ≡ patch_bytes compression total z
      → length (patch_header compression total) ≤ length chunk
      → length (chunk ++ joined chunks) ≤ size
      → 2 * (f.gain * size) + 2 ≤ fuel
      → (t : Stepped State A) × (process_all h cb fuel
            (apply_patch_init memory patch_size)
            arg
            (chunk ∷ chunks)
          ≡ some t)
        × (t.res ≡ pos 0)
        × (t.self.chunk.left ≡ [])
        × Going l i (i.written arg ++ whole_target) total offset missing t.self t.arg
        × (reserve h f l.polls cb t.self ≤ f.gain * length (chunk ++ joined chunks))
  unfolding process_all apply_patch_init
  begun_all chunk chunks missing size e holds within enough =
      let self = apply_patch_init memory patch_size in
      let whole = i.written arg ++ whole_target in
      let sizes = length-append chunk (joined chunks) in
      let (u, ends, b) =
        process_ends f l i fuel size enough self arg chunk 0 (omega arith) (omega (arith, sizes)) in
      let used =
        header-UsedUp l i compression offset s segments z [] low some_target bounded inflates needed
          fits fuel self arg chunk (joined chunks ++ missing) (length chunk) u refl refl e holds
          sound at room ends in
      let (t, fed, res, none_left, g, b') =
        process_all_follows f l i fuel size enough whole total offset missing chunks u.self u.arg
          (0 + length chunk) used.1.3 used.1.1 b (omega (arith, sizes)) in
      let all : 0 + length chunk + length (joined chunks) ≡ length (chunk ++ joined chunks) =
        omega (arith, sizes) in
      (t, rw (ends, used.0) fed, res, none_left, g, rw all at b')

  -- The run comes to its last call, on a machine that is where the chunks end in the patch.
  fed_ends :
      (chunk : List ℕ) (chunks : List (List ℕ)) (missing : List ℕ)
      → chunk ++ (joined chunks ++ missing) ≡ patch_bytes compression total z
      → length (patch_header compression total) ≤ length chunk
      → 2 * (f.gain * length (chunk ++ joined chunks)) + 2 ≤ fuel
      → (self' : ApplyPatch State) × (arg' : A) × (t : Stepped State A) × (feed h cb fuel
            (apply_patch_init memory patch_size)
            arg
            (chunk ∷ chunks)
          ≡ some t)
        × (finalize h cb fuel self' arg' ≡ some t)
        × Going l i
            (i.written arg ++ whole_target)
            total
            offset
            missing
            (record self' { chunk = chunk_at [] 0 })
            arg'
  unfolding feed
  fed_ends chunk chunks missing e holds enough =
      let whole = i.written arg ++ whole_target in
      let size = length (chunk ++ joined chunks) in
      let (u, fed, res, none_left, g, b) =
        begun_all chunk chunks missing size e holds (omega arith) enough in
      let (t, ends) = finalize_ends f l i fuel size enough u.self u.arg size b (omega arith) in
      (
        u.self,
        u.arg,
        t,
        rw (fed, res) ends,
        ends,
        emptied-Going l i whole total offset missing u.self u.arg none_left g,
      )

  -- A patch of the format that is given chunk by chunk, for a decoder and callbacks that keep their laws,
  -- whatever the structure holds before and whatever size of the patch it is told: where the chunks behind
  -- one another are the patch and the first holds its header, the calls of
  -- `detools_apply_patch_process` and the call of `detools_apply_patch_finalize` behind them end, the last
  -- returns the size of the target, and the target is written behind what was written before, wherever
  -- the patch is cut into chunks, empty ones included. The patch has a compression below 16, input of which
  -- every byte is needed, rounds that fit the source from its position on, and a target of one byte or
  -- more, fewer than 2 ^ 27, that fits in the capacity; the fuel is enough for what the patch yields.
  pub feed-target :
      (chunk : List ℕ) (chunks : List (List ℕ))
      → chunk ++ joined chunks ≡ patch_bytes compression total z
      → length (patch_header compression total) ≤ length chunk
      → 2 * (f.gain * length (patch_bytes compression total z)) + 2 ≤ fuel
      → (t : Stepped State A) × (feed h cb fuel
            (apply_patch_init memory patch_size)
            arg
            (chunk ∷ chunks)
          ≡ some t)
        × (t.res ≡ pos total)
        × (i.written t.arg ≡ i.written arg ++ whole_target)
  feed-target chunk chunks e holds enough =
      let (self', arg', t, fed, last, g) =
        fed_ends chunk chunks [] (ap (λ ys. chunk ++ ys) (append-nil (joined chunks)) ∙ e) holds
          (rw e enough) in
      let (res, written, sound') =
        finalize-whole l i (i.written arg ++ whole_target) total offset fuel self' arg' t bounded g
          last in
      (t, fed, res, written)

  -- A patch of the format of which the last chunks are missing, or a part of them: the first chunk holds
  -- the header, and the chunks with what is missing behind them are the patch. Then
  -- `detools_apply_patch_finalize`, behind the calls of `detools_apply_patch_process`, returns the error
  -- -19 that patch data is missing, and what is written is a front of the target. The patch, the source and
  -- the fuel are as in the theorem on a patch that is given whole.
  pub feed-cut :
      (chunk : List ℕ) (chunks : List (List ℕ)) (missing : List ℕ)
      → chunk ++ (joined chunks ++ missing) ≡ patch_bytes compression total z
      → length (patch_header compression total) ≤ length chunk
      → missing ≢ []
      → 2 * (f.gain * length (chunk ++ joined chunks)) + 2 ≤ fuel
      → (t : Stepped State A) × (feed h cb fuel
            (apply_patch_init memory patch_size)
            arg
            (chunk ∷ chunks)
          ≡ some t)
        × (t.res ≡ neg not_enough_patch_data)
        × (rest : List ℕ) × (i.written t.arg ++ rest ≡ i.written arg ++ whole_target)
  feed-cut chunk chunks missing e holds more enough =
      let (self', arg', t, fed, last, g) = fed_ends chunk chunks missing e holds enough in
      let (res, g') =
        finalize-missing l i (i.written arg ++ whole_target) total offset missing fuel self' arg' t
          more g last in
      (t, fed, res, remaining i.source i.limit g'.todo g'.offset, g'.matches.written)
