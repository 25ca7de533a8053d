-- ===== src/Detools/Run/Kept.antt =====
-- Properties of what `arg_p` points to along a run of the patch applier of app/src/detools/detools.c.
use delta_updates_for_embedd.Common.{
  ℕ, zero, suc, arith, ◌≡◌, refl, Option, some, none, List, [], min, ℤ, pos, signed32,
}
use delta_updates_for_embedd.Detools.Decoder.{Decoder}
use delta_updates_for_embedd.Detools.Chunk.{Chunk, chunk_get, chunk_at}
use delta_updates_for_embedd.Detools.Reader.{decompress, patch_reader_unpack_size}
use delta_updates_for_embedd.Detools.Apply.{
  ApplyState, init, dfpatch_size, diff_size, diff_data, extra_size, extra_data, adjustment, done,
  failed, ApplyPatch, Callbacks, Stepped, add_bytes, init_with, process_init, process_dfpatch_size,
  process_size, write_data, process_data, process_adjustment, dispatch, mark_failed, process_once,
}
use delta_updates_for_embedd.Detools.Run.{
  apply_patch_init, finalize_loop, settle, finalize, keep_result, callbacks_process,
  apply_patch_callbacks,
}
use delta_updates_for_embedd.Detools.Run.Chain.{and_then-inv}
use delta_updates_for_embedd.Detools.Run.Invariant.{IsInvariant, callbacks_loop-Holds}

-- A property of what `arg_p` points to that each callback keeps.
pub record IsKept {A : Type 0} (cb : Callbacks A) (Q : A → Type 0) : Type 0 where
  pub by_read : (a : A) (n : ℕ) → Q a → Q (cb.from_read a n).0
  pub by_seek : (a : A) (step : ℤ) → Q a → Q (cb.from_seek a step).0
  pub by_patch : (a : A) (n : ℕ) → Q a → Q (cb.patch_read a n).0
  pub by_write : (a : A) (bytes : List ℕ) → Q a → Q (cb.to_write a bytes).0

module _ (h : Decoder) {A : Type 0} {cb : Callbacks A} {Q : A → Type 0} (k : IsKept cb Q) where
  open h use {State}

  init_with-Kept :
      (self : ApplyPatch State) (arg : A) (o : Option (ℕ × Chunk))
      → Q arg
      → Q (init_with h cb self arg o).arg
  unfolding init_with
  init_with-Kept self arg none q = q
  init_with-Kept self arg (some (byte, c)) q = ground arith

  dfpatch_size-Kept :
      (self : ApplyPatch State) (arg : A) → Q arg → Q (process_dfpatch_size h cb self arg).arg
  unfolding process_dfpatch_size
  dfpatch_size-Kept self arg q = ground arith

  size-Kept :
      (self : ApplyPatch State) (arg : A) (next : ApplyState)
      → Q arg
      → Q (process_size h cb self arg next).arg
  unfolding process_size
  size-Kept self arg next q = ground arith

  data-Kept :
      (self : ApplyPatch State) (arg : A) (next : ApplyState)
      → Q arg
      → Q (process_data h cb self arg next).arg
  unfolding process_data write_data
  data-Kept self arg next q =
      let d = decompress h self.patch_reader self.chunk (min 128 self.chunk_size) in
      let arg' = (cb.from_read arg d.size).0 in
      let to = add_bytes d.out (cb.from_read arg d.size).2 in
      ground (
        arith,
        k.by_read arg d.size q,
        k.by_write arg d.out q,
        k.by_write arg' to (k.by_read arg d.size q),
      )

  adjustment-Kept :
      (self : ApplyPatch State) (arg : A) → Q arg → Q (process_adjustment h cb self arg).arg
  unfolding process_adjustment
  adjustment-Kept self arg q =
      let u = patch_reader_unpack_size h self.patch_reader self.chunk 0 in
      ground (arith, k.by_seek arg (signed32 u.size) q)

  dispatch-Kept :
      (s : ApplyState) (self : ApplyPatch State) (arg : A)
      → Q arg
      → Q (dispatch h cb s self arg).arg
  unfolding dispatch process_init
  dispatch-Kept init self arg q = init_with-Kept self arg (chunk_get self.chunk) q
  dispatch-Kept dfpatch_size self arg q = dfpatch_size-Kept self arg q
  dispatch-Kept diff_size self arg q = size-Kept self arg diff_data q
  dispatch-Kept diff_data self arg q = data-Kept self arg extra_size q
  dispatch-Kept extra_size self arg q = size-Kept self arg extra_data q
  dispatch-Kept extra_data self arg q = data-Kept self arg adjustment q
  dispatch-Kept adjustment self arg q = adjustment-Kept self arg q
  dispatch-Kept done self arg q = q
  dispatch-Kept failed self arg q = q

  mark_failed-Kept : (t : Stepped State A) → Q t.arg → Q (mark_failed h cb t).arg
  mark_failed-Kept t q = ground arith

  process_once-Kept :
      (self : ApplyPatch State) (arg : A) → Q arg → Q (process_once h cb self arg).arg
  unfolding process_once
  process_once-Kept self arg q =
      mark_failed-Kept (dispatch h cb self.state self arg) (dispatch-Kept self.state self arg q)

  Kept-IsInvariant : IsInvariant h cb (λ self arg. Q arg)
  Kept-IsInvariant = record {
    step = process_once-Kept;
    load = λ self arg c offset q. q;
    read = λ self arg n q. k.by_patch arg n q;
  }

  finalize_loop-Kept :
      (n : ℕ) (self : ApplyPatch State) (arg : A) (t : Stepped State A)
      → finalize_loop h cb n self arg ≡ some t
      → Q arg
      → Q t.arg
  unfolding finalize_loop
  finalize_loop-Kept zero self arg t e q = absurd (cc)
  finalize_loop-Kept (suc n) self arg t e q =
      let u = process_once h cb self arg in
      ground (arith, process_once-Kept self arg q, finalize_loop-Kept n u.self u.arg t)

  settle-Kept :
      (o : Option (Stepped State A)) (t : Stepped State A)
      → ((u : Stepped State A) → o ≡ some u → Q u.arg)
      → settle h cb o ≡ some t
      → Q t.arg
  settle-Kept none t all e = absurd (cc)
  settle-Kept (some u) t all e = ground (arith, all u refl)

  finalize-Kept :
      (fuel : ℕ) (self : ApplyPatch State) (arg : A) (t : Stepped State A)
      → finalize h cb fuel self arg ≡ some t
      → Q arg
      → Q t.arg
  unfolding finalize
  finalize-Kept fuel self arg t e q =
      let empty = record self { chunk = chunk_at [] 0 } in
      settle-Kept (finalize_loop h cb fuel empty arg) t
        (λ u eu. finalize_loop-Kept fuel empty arg u eu q) e

  kept_result :
      (res : ℤ) (u t : Stepped State A) → Q u.arg → some (keep_result h cb res u) ≡ some t → Q t.arg
  kept_result res u t q e = ground arith

  -- `detools_apply_patch_callbacks` keeps what its callbacks keep.
  pub apply_patch_callbacks-Kept :
      (rounds fuel : ℕ) (memory : ApplyPatch State) (size : ℕ) (arg : A) (t : Stepped State A)
      → apply_patch_callbacks h cb rounds fuel memory size arg ≡ some t
      → Q arg
      → Q t.arg
  unfolding apply_patch_callbacks callbacks_process
  apply_patch_callbacks-Kept rounds fuel memory size arg t e q =
      let outer = and_then-inv h cb _ _ t e in
      let v = outer.0 in
      let inner = and_then-inv h cb _ _ t outer.2 in
      let q' =
        callbacks_loop-Holds h cb Kept-IsInvariant rounds fuel (apply_patch_init memory size) arg 0
          size (pos 0) v outer.1 q in
      kept_result v.res inner.0 t (finalize-Kept fuel v.self v.arg inner.0 inner.1 q') inner.2
