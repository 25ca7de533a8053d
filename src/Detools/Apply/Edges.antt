-- ===== src/Detools/Apply/Edges.antt =====
-- The states of the patch applier: which follow one another, and when it fails.
use delta_updates_for_embedd.Common.{ℕ, arith, ◌≡◌, ◌≢◌, refl, ◌⊎◌, inl, true, false}
use delta_updates_for_embedd.Common.{ℤ, is_neg, List, Option, none, some}
use delta_updates_for_embedd.Detools.Decoder.{Decoder}
use delta_updates_for_embedd.Detools.Chunk.{Chunk, chunk_get}
use delta_updates_for_embedd.Detools.Chunk.Header.{chunk_unpack_header_size-res}
use delta_updates_for_embedd.Detools.Apply.{
  ApplyState, init, dfpatch_size, diff_size, diff_data, extra_size, extra_data, adjustment, done,
  failed, ApplyPatch, Callbacks, write_data, init_with, process_init, process_dfpatch_size,
  process_size, process_data, process_adjustment, dispatch, process_once,
}

-- The order of a sequential patch: the header, the size of the data-format patch, and then rounds of
-- diff data, extra data and adjustment.
pub data Edge : ApplyState → ApplyState → Type 0 where
  header : Edge init dfpatch_size
  nothing_to_write : Edge init done
  no_dfpatch : Edge dfpatch_size diff_size
  diff_length : Edge diff_size diff_data
  diff_end : Edge diff_data extra_size
  extra_length : Edge extra_size extra_data
  extra_end : Edge extra_data adjustment
  next_round : Edge adjustment diff_size
  last_round : Edge adjustment done

Edge-ne-failed : {s s' : ApplyState} → Edge s s' → s' ≢ failed
Edge-ne-failed header = λ e. cc
Edge-ne-failed nothing_to_write = λ e. cc
Edge-ne-failed no_dfpatch = λ e. cc
Edge-ne-failed diff_length = λ e. cc
Edge-ne-failed diff_end = λ e. cc
Edge-ne-failed extra_length = λ e. cc
Edge-ne-failed extra_end = λ e. cc
Edge-ne-failed next_round = λ e. cc
Edge-ne-failed last_round = λ e. cc

-- A handler stays in its state or takes an edge, unless its result is negative.
abbrev Moves : ApplyState → ApplyState → ℤ → Type 0
Moves s s' res = (is_neg res ≡ true) ⊎ ((is_neg res ≡ false) × ((s' ≡ s) ⊎ Edge s s'))

module _ (h : Decoder) {A : Type 0} (cb : Callbacks A) where
  open h use {State}

  init_with-Moves :
      (self : ApplyPatch State) (arg : A) (o : Option (ℕ × Chunk))
      → self.state ≡ init
      → let t = init_with h cb self arg o in Moves init t.self.state t.res
  unfolding init_with
  init_with-Moves self arg none e = ground arith
  init_with-Moves self arg (some (byte, c)) e =
      ground (arith, chunk_unpack_header_size-res c 0, header, nothing_to_write)

  dfpatch_size-Moves :
      (self : ApplyPatch State) (arg : A)
      → self.state ≡ dfpatch_size
      → let t = process_dfpatch_size h cb self arg in Moves dfpatch_size t.self.state t.res
  unfolding process_dfpatch_size
  dfpatch_size-Moves self arg e = ground (arith, no_dfpatch)

  size-Moves :
      (self : ApplyPatch State) (arg : A) (s next : ApplyState)
      → Edge s next
      → self.state ≡ s
      → let t = process_size h cb self arg next in Moves s t.self.state t.res
  unfolding process_size
  size-Moves self arg s next edge e = ground arith

  write-Moves :
      (self : ApplyPatch State) (arg : A) (to : List ℕ) (n : ℕ) (s : ApplyState)
      → self.state ≡ s
      → let t = write_data h cb self arg to n in Moves s t.self.state t.res
  unfolding write_data
  write-Moves self arg to n s e = ground arith

  data-Moves :
      (self : ApplyPatch State) (arg : A) (s next : ApplyState)
      → Edge s next
      → self.state ≡ s
      → let t = process_data h cb self arg next in Moves s t.self.state t.res
  unfolding process_data
  data-Moves self arg s next edge e = ground arith

  adjustment-Moves :
      (self : ApplyPatch State) (arg : A)
      → self.state ≡ adjustment
      → let t = process_adjustment h cb self arg in Moves adjustment t.self.state t.res
  unfolding process_adjustment
  adjustment-Moves self arg e = ground (arith, next_round, last_round)

  dispatch-Moves :
      (s : ApplyState) (self : ApplyPatch State) (arg : A)
      → self.state ≡ s
      → let t = dispatch h cb s self arg in Moves s t.self.state t.res
  unfolding dispatch process_init
  dispatch-Moves init self arg e = init_with-Moves self arg (chunk_get self.chunk) e
  dispatch-Moves dfpatch_size self arg e = dfpatch_size-Moves self arg e
  dispatch-Moves diff_size self arg e = size-Moves self arg diff_size diff_data diff_length e
  dispatch-Moves diff_data self arg e = data-Moves self arg diff_data extra_size diff_end e
  dispatch-Moves extra_size self arg e = size-Moves self arg extra_size extra_data extra_length e
  dispatch-Moves extra_data self arg e = data-Moves self arg extra_data adjustment extra_end e
  dispatch-Moves adjustment self arg e = adjustment-Moves self arg e
  dispatch-Moves done self arg e = inl refl
  dispatch-Moves failed self arg e = inl refl

  failed-is_neg :
      (s : ApplyState) (self : ApplyPatch State) (arg : A)
      → is_neg (dispatch h cb s self arg).res ≡ false
      → s ≢ failed
  unfolding dispatch
  failed-is_neg failed self arg e = cc
  failed-is_neg _ self arg e = λ q. cc

  -- A step with a negative result leaves the state `failed`, and only such a step does; any other
  -- step keeps the state or takes one edge of the order of a patch.
  pub process_once-Edge :
      (self : ApplyPatch State) (arg : A)
      → let t = process_once h cb self arg in
        ((is_neg t.res ≡ true) × (t.self.state ≡ failed))
        ⊎ ((is_neg t.res ≡ false)
            × ((t.self.state ≡ self.state) ⊎ Edge self.state t.self.state)
            × (t.self.state ≢ failed))
  unfolding process_once
  process_once-Edge self arg = ground (
    arith,
    dispatch-Moves self.state self arg refl,
    failed-is_neg self.state self arg,
    Edge-ne-failed {s = self.state} {s' = (dispatch h cb self.state self arg).self.state},
  )
