-- ===== src/Detools/Run/Ends.antt =====
-- The loops of the patch applier end: a bound on their fuel from what can still be read.
use delta_updates_for_embedd.Common.{ℕ, zero, suc, ◌≤◌, ◌<◌, arith, ◌≡◌, ◌≢◌, ◌⊎◌}
use delta_updates_for_embedd.Common.{true}
use delta_updates_for_embedd.Common.{ℤ, pos, is_neg, List, []}
use delta_updates_for_embedd.Common.{none, some}
use delta_updates_for_embedd.Detools.Decoder.{Decoder, PollLaws, FiniteOutput}
use delta_updates_for_embedd.Detools.Chunk.{chunk_at}
use delta_updates_for_embedd.Detools.Apply.{ApplyPatch, Callbacks, Stepped, stepped, process_once}
use delta_updates_for_embedd.Detools.Apply.Progress.{budget, measure, process_once-Outcome}
use delta_updates_for_embedd.Detools.Run.{
  process_loop, load_chunk, process, finalize_loop, finalize,
}

module _ (h : Decoder) (f : FiniteOutput h) (l : PollLaws h) {A : Type 0} (cb : Callbacks A) where
  open h use {State}

  -- The loop stops at once where nothing is left of the chunk or the result is negative.
  process_loop-stop :
      (n : ℕ) (self : ApplyPatch State) (arg : A) (res : ℤ)
      → (self.chunk.left ≡ []) ⊎ (is_neg res ≡ true)
      → process_loop h cb n self arg res ≡ some (stepped self arg res)
  unfolding process_loop
  process_loop-stop zero self arg res e = ground arith
  process_loop-stop (suc n) self arg res e = ground arith

  pub process_loop-ne-none :
      (n : ℕ) (self : ApplyPatch State) (arg : A) (res : ℤ)
      → measure h f self < n
      → process_loop h cb n self arg res ≢ none
  unfolding process_loop
  process_loop-ne-none zero self arg res m = absurd (omega arith)
  process_loop-ne-none (suc n) self arg res m =
      let t = process_once h cb self arg in
      ground (
        arith,
        process_once-Outcome h f l cb self arg,
        process_loop-ne-none n t.self t.arg t.res,
        process_loop-stop n t.self t.arg t.res,
      )

  pub process_loop-budget :
      (n : ℕ) (self : ApplyPatch State) (arg : A) (res : ℤ) (t : Stepped State A)
      → process_loop h cb n self arg res ≡ some t
      → budget h f t.self ≤ budget h f self
  unfolding process_loop
  process_loop-budget zero self arg res t e = ground arith
  process_loop-budget (suc n) self arg res t e =
      let u = process_once h cb self arg in
      ground
        (arith, process_once-Outcome h f l cb self arg, process_loop-budget n u.self u.arg u.res t)

  -- For a decoder that keeps its promises and holds finitely many bytes of output:
  -- `detools_apply_patch_process` ends. With fuel above the measure of the machine that holds the
  -- new chunk, its loop does not run out.
  pub process-ne-none :
      (fuel : ℕ) (self : ApplyPatch State) (arg : A) (patch : List ℕ) (size : ℕ)
      → measure h f (load_chunk h cb self patch size) < fuel
      → process h cb fuel self arg patch size ≢ none
  unfolding process
  process-ne-none fuel self arg patch size m =
      ground (arith, process_loop-ne-none fuel (load_chunk h cb self patch size) arg (pos 0) m)

  finalize_loop-ne-none :
      (n : ℕ) (self : ApplyPatch State) (arg : A)
      → measure h f self < n
      → finalize_loop h cb n self arg ≢ none
  unfolding finalize_loop
  finalize_loop-ne-none zero self arg m = absurd (omega arith)
  finalize_loop-ne-none (suc n) self arg m =
      let t = process_once h cb self arg in
      ground (arith, process_once-Outcome h f l cb self arg, finalize_loop-ne-none n t.self t.arg)

  -- For a decoder that keeps its promises and holds finitely many bytes of output:
  -- `detools_apply_patch_finalize` ends. With fuel above the measure of the machine with no chunk,
  -- its loop does not run out.
  pub finalize-ne-none :
      (fuel : ℕ) (self : ApplyPatch State) (arg : A)
      → measure h f (record self { chunk = chunk_at [] 0 }) < fuel
      → finalize h cb fuel self arg ≢ none
  unfolding finalize
  finalize-ne-none fuel self arg m =
      ground (arith, finalize_loop-ne-none fuel (record self { chunk = chunk_at [] 0 }) arg m)
