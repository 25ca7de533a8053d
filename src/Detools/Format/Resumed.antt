-- ===== src/Detools/Format/Resumed.antt =====
-- A patch that is given to app/src/detools/detools.c in two parts, with a dump and a restore in between,
-- against the format of a patch.
use delta_updates_for_embedd.Common.{
  ℕ, ◌+◌, ◌*◌, ◌≤◌, ◌<◌, ◌^◌, arith, ◌≡◌, refl, ap, ◌∙◌, sym, Option, some, List, [], ◌∷◌, ◌++◌,
  append-nil, append_assoc, length, length-append, is_zero, if◌then◌else◌, pos,
}
use delta_updates_for_embedd.Detools.Decoder.{Decoder, FiniteOutput}
use delta_updates_for_embedd.Detools.Chunk.{Chunk, chunk_at}
use delta_updates_for_embedd.Detools.Inflate.{InflateLaws, inflate, IsNeeded}
use delta_updates_for_embedd.Detools.Reader.{Reader, Destroy, heatshrink_destroy}
use delta_updates_for_embedd.Detools.Apply.{ApplyState, ApplyPatch, Callbacks, Stepped}
use delta_updates_for_embedd.Detools.Apply.Progress.{budget_in}
use delta_updates_for_embedd.Detools.Run.{and_then, process, finalize, apply_patch_init}
use delta_updates_for_embedd.Detools.Run.Rounds.{reserve}
use delta_updates_for_embedd.Detools.Format.{
  Segment, stream, patch_header, patch_bytes, target, Fits,
}
use delta_updates_for_embedd.Detools.Format.Images.{ImageLaws}
use delta_updates_for_embedd.Detools.Format.Once.{Going}
use delta_updates_for_embedd.Detools.Format.Ends.{finalize-whole, emptied-Going}
use delta_updates_for_embedd.Detools.Format.Feed.{
  joined, process_all, feed, finalize_ends, process_all_follows,
}
use delta_updates_for_embedd.Detools.Format.Fed.{begun_all}
use delta_updates_for_embedd.Detools.Format.Resumes.{
  Storage, StorageLaws, interrupted, feed_interrupted, state_of-init, interrupted_ends,
  interrupted-Going,
}

-- The chunk that is left in a structure counts for nothing.
feed-chunk :
    (h : Decoder) {A : Type 0} (cb : Callbacks A) (fuel : ℕ) (self : ApplyPatch h.State) (arg : A)
    (c : Chunk) (chunks : List (List ℕ))
    → feed h cb fuel (record self { chunk = c }) arg chunks ≡ feed h cb fuel self arg chunks
unfolding feed process_all process finalize
feed-chunk h cb fuel self arg c [] = refl
feed-chunk h cb fuel self arg c (chunk ∷ chunks) = refl

fed :
    (h : Decoder) {A : Type 0} (cb : Callbacks A) (fuel : ℕ) (self : ApplyPatch h.State) (arg : A)
    (c : Chunk) (chunks : List (List ℕ)) (t u : Stepped h.State A)
    → process_all h cb fuel (record self { chunk = c }) arg chunks ≡ some t
    → t.res ≡ pos 0
    → finalize h cb fuel t.self t.arg ≡ some u
    → feed h cb fuel self arg chunks ≡ some u
unfolding feed
fed h cb fuel self arg c chunks t u all res ends =
    sym (feed-chunk h cb fuel self arg c chunks) ∙ rw (all, res) ends

picked :
    {S A : Type 0} (u : Stepped S A) (rest : Option (Stepped S A)) (t : Stepped S A)
    → u.res ≡ pos 0
    → rest ≡ some t
    → (if is_zero u.res then rest else some u) ≡ some t
picked u rest t res e = rw (res, e) refl

fed_on :
    (h : Decoder) {A : Type 0} (cb : Callbacks A) (st : Storage h.State A) (fuel : ℕ)
    (other self : ApplyPatch h.State) (arg : A) (chunks later : List (List ℕ))
    (t w : Stepped h.State A)
    → process_all h cb fuel self arg chunks ≡ some t
    → let u = interrupted h cb st other t.self t.arg in
      u.res ≡ pos 0
      → feed h cb fuel u.self u.arg later ≡ some w
      → feed_interrupted h cb st fuel other self arg chunks later ≡ some w
unfolding feed_interrupted
fed_on h cb st fuel other self arg chunks later t w all res e =
    let u = interrupted h cb st other t.self t.arg in
    ap
      (λ o. and_then h cb o λ t'.
        let u' = interrupted h cb st other t'.self t'.arg in
        let rest = feed h cb fuel u'.self u'.arg later in if is_zero u'.res then rest else some u')
      all
    ∙ picked u (feed h cb fuel u.self u.arg later) w res e

-- What can still be read does not depend on the pointer `destroy`.
budget_destroy :
    (h : Decoder) (f : FiniteOutput h) (state : ApplyState) (r : Reader h.State) (d : Destroy)
    (c : Chunk)
    → budget_in h f state (record r { destroy = d }) c ≡ budget_in h f state r c
budget_destroy h f state r d c = ground arith

module _ {h : Decoder} (f : FiniteOutput h) (l : InflateLaws h) {A : Type 0} {cb : Callbacks A}
    (i : ImageLaws cb) (st : Storage h.State A) (laws : StorageLaws i st)
    (short : i.limit < 2 ^ 31) where
  open h use {State}

  -- An interruption adds nothing to what can still be read.
  interrupted-reserve :
      (whole : List ℕ) (total : ℕ) (later : List ℕ) (other self : ApplyPatch State) (arg : A)
      → Going l i whole total 0 later self arg
      → reserve h f l.polls cb (interrupted h cb st other self arg).self
        ≡ reserve h f l.polls cb self
  interrupted-reserve whole total later other self arg g =
      let m = g.matches in
      rw
        (interrupted_ends l i st laws short other self arg g.offset
          (rw m.state (state_of-init g.todo)) m.sound m.tracked)
        (budget_destroy h f self.state self.patch_reader heatshrink_destroy (chunk_at [] 0))

module _ (h : Decoder) (f : FiniteOutput h) (l : InflateLaws h) {A : Type 0} (cb : Callbacks A)
    (i : ImageLaws cb) (st : Storage h.State A) (laws : StorageLaws i st) (short : i.limit < 2 ^ 31)
    (fuel patch_size : ℕ) (memory other : ApplyPatch h.State) (arg : A) (compression : ℕ)
    (s : Segment) (segments : List Segment) (z : List ℕ) (sound : i.IsSound arg)
    (at : i.position arg ≡ pos 0) (low : compression < 16)
    (inflates : inflate l l.initial z ≡ stream (s ∷ segments)) (needed : IsNeeded l l.initial z)
    (fits : Fits i.source i.limit (s ∷ segments) 0)
    (some_target : 0 < length (target i.source (s ∷ segments) 0))
    (bounded : length (target i.source (s ∷ segments) 0) < 2 ^ 27)
    (room : length (i.written arg ++ target i.source (s ∷ segments) 0) ≤ i.capacity) where
  open h use {State}

  abbrev whole_target : List ℕ
  whole_target = target i.source (s ∷ segments) 0

  abbrev total : ℕ
  total = length whole_target

  -- A patch of the format that is given chunk by chunk and interrupted between two chunks: where the first
  -- chunks, the first of them with the header, and those behind the interruption are the patch,
  -- `detools_apply_patch_process` is called on the first, `detools_apply_patch_dump` stores the structure,
  -- `detools_apply_patch_restore` restores it into whatever structure is there then, with the source
  -- opened at its start again, and the calls on the other chunks with `detools_apply_patch_finalize`
  -- behind them end, return the size of the target, and leave the target as a whole behind what was
  -- written before the start. The storage reads back what is written, the target is kept across the
  -- interruption, the decoder and the callbacks keep their laws, and the source has fewer than 2 ^ 31
  -- bytes and stands at its start at first. The patch has a compression below 16, input of which every byte
  -- is needed, rounds that fit the source, and a target of one byte or more, fewer than 2 ^ 27, that fits
  -- in the capacity; the fuel is enough for what the patch yields.
  pub feed_interrupted-target :
      (chunk : List ℕ) (chunks later : List (List ℕ))
      → chunk ++ (joined chunks ++ joined later) ≡ patch_bytes compression total z
      → length (patch_header compression total) ≤ length chunk
      → 2 * (f.gain * length (patch_bytes compression total z)) + 2 ≤ fuel
      → (t : Stepped State A) × (feed_interrupted h cb st fuel other
            (apply_patch_init memory patch_size)
            arg
            (chunk ∷ chunks)
            later
          ≡ some t)
        × (t.res ≡ pos total)
        × (i.written t.arg ≡ i.written arg ++ whole_target)
  feed_interrupted-target chunk chunks later e holds enough =
      let whole = i.written arg ++ whole_target in
      let size = length (patch_bytes compression total z) in
      let first = length (chunk ++ joined chunks) in
      let sizes : first + length (joined later) ≡ size =
        sym (length-append (chunk ++ joined chunks) (joined later))
        ∙ ap length (append_assoc chunk (joined chunks) (joined later) ∙ e) in
      let (t, all, res, empty, g, b) =
        begun_all h f l cb i fuel patch_size memory arg compression 0 s segments z sound at low
          inflates needed fits some_target bounded room chunk chunks (joined later) size e holds
          (omega (arith, sizes)) enough in
      let u = interrupted h cb st other t.self t.arg in
      let (back, g') =
        interrupted-Going l i st laws short whole total (joined later) other t.self t.arg g empty in
      let kept =
        interrupted-reserve f l i st laws short whole total (joined later) other t.self t.arg g in
      let machine = record u.self { chunk = chunk_at [] 0 } in
      let (v, all', res', empty', g'', b') =
        process_all_follows f l i fuel size enough whole total 0 [] later machine u.arg first
          (rw (append-nil (joined later)) g') refl (rw kept b) (omega (arith, sizes)) in
      let (w, ends) =
        finalize_ends f l i fuel size enough v.self v.arg (first + length (joined later)) b'
          (omega (arith, sizes)) in
      let (result, written, sound') =
        finalize-whole l i whole total 0 fuel v.self v.arg w bounded
          (emptied-Going l i whole total 0 [] v.self v.arg empty' g'') ends in
      (
        w,
        fed_on h cb st fuel other (apply_patch_init memory patch_size) arg (chunk ∷ chunks) later t
            w all back (fed h cb fuel u.self u.arg (chunk_at [] 0) later v w all' res' ends),
        result,
        written,
      )
