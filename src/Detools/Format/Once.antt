-- ===== src/Detools/Format/Once.antt =====
-- A call of `apply_patch_process_once` in app/src/detools/detools.c on a machine that is somewhere in a
-- patch.
use delta_updates_for_embedd.Common.{
  ℕ, ◌≡◌, ◌≢◌, refl, ap, ◌∙◌, sym, ◌⊎◌, inl, inr, Bool, true, false, List, [], ◌∷◌, ◌++◌,
  append-nil, pos, neg, is_neg, negsuc, eq_ℤ,
}
use delta_updates_for_embedd.Detools.Codes.{already_done}
use delta_updates_for_embedd.Detools.Decoder.{Decoder}
use delta_updates_for_embedd.Detools.Inflate.{InflateLaws, inflate, future_at, ValidAt}
use delta_updates_for_embedd.Detools.Apply.{
  ApplyPatch, ApplyState, done, Callbacks, Stepped, dispatch, mark_failed, process_once,
}
use delta_updates_for_embedd.Detools.Format.Images.{ImageLaws}
use delta_updates_for_embedd.Detools.Format.Matches.{
  Todo, at_dfpatch, at_diff_size, at_diff, at_extra_size, at_extra, at_step, finished, state_of,
  Matches,
}
use delta_updates_for_embedd.Detools.Format.Steps.{
  Goes, dfpatch_size-Goes, diff_size-Goes, extra_size-Goes, diff_end-Goes, extra_end-Goes,
  diff_data-Goes,
}
use delta_updates_for_embedd.Detools.Format.Seeks.{extra_data-Goes, last-Goes, next-Goes}

append_nil : (xs ys : List ℕ) → xs ++ ys ≡ [] → (xs ≡ []) × (ys ≡ [])
append_nil [] ys e = (refl, e)
append_nil (x ∷ xs) ys e = cc

module _ {h : Decoder} (l : InflateLaws h) where
  open h use {State}

  -- A reader that can be asked for nothing: no input is left over, and nothing is pending.
  drained :
      (b : Bool) (s : State) (input : List ℕ)
      → future_at l b s input ≡ []
      → ValidAt l b s input
      → (input ≡ []) × (l.pending s ≡ [])
  drained true s [] e valid = absurd valid
  drained true s (b ∷ input) e valid =
      absurd (valid.2 (append_nil (l.pending s) (inflate l (l.core s) input) e).1)
  drained false s [] e valid = (refl, (append_nil (l.pending s) [] e).0)
  drained false s (b ∷ input) e valid =
      absurd (valid.0 (append_nil (l.pending s) (inflate l (l.core s) (b ∷ input)) e).1)

module _ {h : Decoder} (l : InflateLaws h) {A : Type 0} {cb : Callbacks A} (i : ImageLaws cb)
    (whole : List ℕ) (total start : ℕ) (later : List ℕ) where
  open h use {State}

  -- The machine is somewhere in the patch.
  pub record Going (self : ApplyPatch State) (arg : A) : Type 0 where
    pub todo : Todo
    pub offset : ℕ
    pub matches : Matches l i whole total start later todo offset self arg

  -- A call keeps the machine in the patch; or it waits for input that is still to come; or the patch is
  -- at its end, and the target is whole.
  abbrev pub OnceGoes : ApplyPatch State → A → Stepped State A → Type 0
  OnceGoes self arg t =
      ((t.res ≡ pos 0) × (i.patch_left t.arg ≡ i.patch_left arg) × Going t.self t.arg)
      ⊎ (((t.res ≡ pos 1)
            × (t.self.chunk.left ≡ [])
            × (later ≢ [])
            × (t.arg ≡ arg)
            × Going t.self t.arg)
          ⊎ ((t.res ≡ neg already_done)
              × (self.chunk.left ≡ [])
              × (later ≡ [])
              × (l.pending self.patch_reader.decoder ≡ [])
              × (t.arg ≡ arg)
              × (t.self.patch_reader ≡ self.patch_reader)
              × (t.self.to_size ≡ self.to_size)
              × (i.written arg ≡ whole)))

  mark_failed-id : (t : Stepped State A) → is_neg t.res ≡ false → mark_failed h cb t ≡ t
  mark_failed-id t e = rw e refl

  Goes-OnceGoes :
      (self : ApplyPatch State) (arg : A) (todo todo' : Todo) (offset offset' : ℕ)
      (t : Stepped State A)
      → Goes l i whole total start later todo offset todo' offset' arg t
      → OnceGoes self arg (mark_failed h cb t)
  Goes-OnceGoes self arg todo todo' offset offset' t (inl (e, left, m)) =
      rw (mark_failed-id t (rw e refl))
        (inl (e, left, record { todo = todo'; offset = offset'; matches = m }))
  Goes-OnceGoes self arg todo todo' offset offset' t (inr (e, used, more, same, m)) =
      rw (mark_failed-id t (rw e refl))
        (inr (inl (e, used, more, same, record { todo = todo; offset = offset; matches = m })))

  process_once-dispatch :
      (self : ApplyPatch State) (arg : A) (st : ApplyState)
      → self.state ≡ st
      → process_once h cb self arg ≡ mark_failed h cb (dispatch h cb st self arg)
  unfolding process_once
  process_once-dispatch self arg st e = ap (λ st. mark_failed h cb (dispatch h cb st self arg)) e

  finished-OnceGoes :
      (self : ApplyPatch State) (arg : A) (offset : ℕ)
      → Matches l i whole total start later finished offset self arg
      → OnceGoes self arg (mark_failed h cb (dispatch h cb done self arg))
  unfolding dispatch
  finished-OnceGoes self arg offset m =
      let (used, dry) =
        drained l (eq_ℤ self.patch_reader.window_sz2 (negsuc 0)) self.patch_reader.decoder
          (self.chunk.left ++ later) m.awaits m.valid in
      let (empty, gone) = append_nil self.chunk.left later used in
      inr (
        inr
          (refl, empty, gone, dry, refl, refl, refl, sym (append-nil (i.written arg)) ∙ m.written))

  dispatch-OnceGoes :
      (self : ApplyPatch State) (arg : A) (todo : Todo) (offset : ℕ)
      → Matches l i whole total start later todo offset self arg
      → OnceGoes self arg (mark_failed h cb (dispatch h cb (state_of todo) self arg))
  unfolding dispatch
  dispatch-OnceGoes self arg (at_dfpatch []) offset m = absurd (m.fits.1 refl)
  dispatch-OnceGoes self arg (at_dfpatch (s ∷ segments)) offset m =
      Goes-OnceGoes self arg _ _ _ _ _
        (dfpatch_size-Goes l i whole total start later self arg s segments offset m)
  dispatch-OnceGoes self arg (at_diff_size s segments) offset m =
      Goes-OnceGoes self arg _ _ _ _ _
        (diff_size-Goes l i whole total start later self arg s segments offset m)
  dispatch-OnceGoes self arg (at_diff [] s segments) offset m =
      Goes-OnceGoes self arg _ _ _ _ _
        (diff_end-Goes l i whole total start later self arg s segments offset m)
  dispatch-OnceGoes self arg (at_diff (b ∷ bytes) s segments) offset m =
      Goes-OnceGoes self arg _ _ _ _ _
        (diff_data-Goes l i whole total start later self arg b bytes s segments offset m)
  dispatch-OnceGoes self arg (at_extra_size s segments) offset m =
      Goes-OnceGoes self arg _ _ _ _ _
        (extra_size-Goes l i whole total start later self arg s segments offset m)
  dispatch-OnceGoes self arg (at_extra [] s segments) offset m =
      Goes-OnceGoes self arg _ _ _ _ _
        (extra_end-Goes l i whole total start later self arg s segments offset m)
  dispatch-OnceGoes self arg (at_extra (b ∷ bytes) s segments) offset m =
      Goes-OnceGoes self arg _ _ _ _ _
        (extra_data-Goes l i whole total start later self arg b bytes s segments offset m)
  dispatch-OnceGoes self arg (at_step s []) offset m =
      Goes-OnceGoes self arg _ _ _ _ _ (last-Goes l i whole total start later self arg s offset m)
  dispatch-OnceGoes self arg (at_step s (s' ∷ segments)) offset m =
      Goes-OnceGoes self arg _ _ _ _ _
        (next-Goes l i whole total start later self arg s s' segments offset m)
  dispatch-OnceGoes self arg finished offset m = finished-OnceGoes self arg offset m

  -- For a decoder and callbacks that keep their laws, a call of `apply_patch_process_once` on a machine
  -- that is somewhere in a patch of the format, with this input still to come behind its chunk: it returns
  -- 0, reads nothing of the patch itself, and leaves the machine somewhere in the same patch, with the same
  -- target; or it returns 1, the chunk is used up, input is still to come, and the machine is still in the
  -- patch; or it returns -11, where no input is left in the chunk or behind it, the decoder holds no
  -- output, and the target is written as a whole.
  pub process_once-OnceGoes :
      (self : ApplyPatch State) (arg : A)
      → Going self arg
      → OnceGoes self arg (process_once h cb self arg)
  process_once-OnceGoes self arg g =
      rw (process_once-dispatch self arg (state_of g.todo) g.matches.state)
        (dispatch-OnceGoes self arg g.todo g.offset g.matches)
