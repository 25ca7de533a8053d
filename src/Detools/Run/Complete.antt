-- ===== src/Detools/Run/Complete.antt =====
-- A patch that is applied with a positive result: the whole target is written.
use delta_updates_for_embedd.Common.{
  ℕ, zero, suc, ◌-◌, arith, ◌≡◌, ◌≢◌, refl, ◌⊎◌, inl, inr, min, true, false,
}
use delta_updates_for_embedd.Common.{
  ℤ, pos, neg, is_neg, is_zero, ltb, ◌&&◌, Bool-cases, leb_ℤ, List, [], Option, none, some, add32,
  signed32,
}
use delta_updates_for_embedd.Detools.Codes.{io_failed}
use delta_updates_for_embedd.Detools.Decoder.{Decoder, PollLaws, FiniteOutput}
use delta_updates_for_embedd.Detools.Chunk.{chunk_at}
use delta_updates_for_embedd.Detools.Reader.{destroy_reader}
use delta_updates_for_embedd.Detools.Apply.{ApplyPatch, Callbacks, Stepped, stepped, process_once}
use delta_updates_for_embedd.Detools.Apply.Progress.{process_once-Outcome}
use delta_updates_for_embedd.Detools.Run.Chain.{and_then-inv}
use delta_updates_for_embedd.Detools.Apply.Finished.{IsFull, Finishes, process_once-Finishes}
use delta_updates_for_embedd.Detools.Run.{
  process_loop, load_chunk, process, finalize_loop, finalize, common_finalize, settle, keep_result,
  callbacks_loop, callbacks_process, apply_patch_callbacks, apply_patch_init, with_result,
  more_wanted,
}

module _ (h : Decoder) (f : FiniteOutput h) (l : PollLaws h) {A : Type 0} (cb : Callbacks A) where
  open h use {State}

  -- A result of the state machine.
  abbrev pub IsResult : ℤ → Type 0
  IsResult res = (res ≡ pos 0) ⊎ ((res ≡ pos 1) ⊎ (is_neg res ≡ true))

  process_loop-IsFull :
      (n : ℕ) (self : ApplyPatch State) (arg : A) (res : ℤ) (t : Stepped State A)
      → process_loop h cb n self arg res ≡ some t
      → IsFull self
      → IsResult res
      → IsFull t.self × IsResult t.res
  unfolding process_loop
  process_loop-IsFull zero self arg res t e full r = ground arith
  process_loop-IsFull (suc n) self arg res t e full r =
      let u = process_once h cb self arg in
      ground (
        arith,
        process_once-Outcome h f l cb self arg,
        process_once-Finishes h l cb self arg full,
        process_loop-IsFull n u.self u.arg u.res t,
      )

  -- What the entry points return: a full machine, with 0 or an error.
  abbrev pub IsSettled : Stepped State A → Type 0
  IsSettled t = IsFull t.self × ((t.res ≡ pos 0) ⊎ (is_neg t.res ≡ true))

  result-IsSettled :
      (o : Option (Stepped State A)) (t : Stepped State A)
      → ((u : Stepped State A) → o ≡ some u → IsFull u.self × IsResult u.res)
      → with_result h cb (more_wanted h cb) o ≡ some t
      → IsSettled t
  result-IsSettled none t all e = cc
  result-IsSettled (some u) t all e = ground (arith, all u refl)

  process-IsSettled :
      (fuel : ℕ) (self : ApplyPatch State) (arg : A) (patch : List ℕ) (size : ℕ)
      (t : Stepped State A)
      → process h cb fuel self arg patch size ≡ some t
      → IsFull self
      → IsSettled t
  unfolding process
  process-IsSettled fuel self arg patch size t e full =
      result-IsSettled (process_loop h cb fuel (load_chunk h cb self patch size) arg (pos 0)) t
        (λ u eu.
          process_loop-IsFull fuel (load_chunk h cb self patch size) arg (pos 0) u eu full
            (inl refl))
        e

  -- How the loop of `detools_apply_patch_finalize` ends.
  abbrev pub IsStopped : Stepped State A → Type 0
  IsStopped t = (t.res ≢ pos 0) × IsResult t.res × Finishes h l cb t

  pub finalize_loop-IsStopped :
      (n : ℕ) (self : ApplyPatch State) (arg : A) (t : Stepped State A)
      → finalize_loop h cb n self arg ≡ some t
      → IsFull self
      → IsStopped t
  unfolding finalize_loop
  finalize_loop-IsStopped zero self arg t e full = cc
  finalize_loop-IsStopped (suc n) self arg t e full =
      let u = process_once h cb self arg in
      ground (
        arith,
        process_once-Outcome h f l cb self arg,
        process_once-Finishes h l cb self arg full,
        finalize_loop-IsStopped n u.self u.arg t,
      )

  -- A positive result is the size of the target, and all of it is written.
  abbrev pub IsComplete : Stepped State A → Type 0
  IsComplete t = (t.res ≡ signed32 t.self.to_size) × (t.self.to_offset ≡ t.self.to_size)

  common_finalize_complete :
      (t : Stepped State A)
      → IsStopped t
      → leb_ℤ (common_finalize h cb t.res t.self.patch_reader t.self.to_size) (pos 0) ≡ false
      → (common_finalize h cb t.res t.self.patch_reader t.self.to_size ≡ signed32 t.self.to_size)
        × (t.self.to_offset ≡ t.self.to_size)
  unfolding common_finalize destroy_reader
  common_finalize_complete t e p = ground arith

  settle-IsComplete :
      (o : Option (Stepped State A)) (t : Stepped State A)
      → ((u : Stepped State A) → o ≡ some u → IsStopped u)
      → settle h cb o ≡ some t
      → leb_ℤ t.res (pos 0) ≡ false
      → IsComplete t
  settle-IsComplete none t all e p = ground arith
  settle-IsComplete (some u) t all e p =
      ground (arith, all u refl, common_finalize_complete u (all u refl))

  finalize-IsComplete :
      (fuel : ℕ) (self : ApplyPatch State) (arg : A) (t : Stepped State A)
      → finalize h cb fuel self arg ≡ some t
      → IsFull self
      → leb_ℤ t.res (pos 0) ≡ false
      → IsComplete t
  unfolding finalize
  finalize-IsComplete fuel self arg t e full p =
      let empty = record self { chunk = chunk_at [] 0 } in
      settle-IsComplete (finalize_loop h cb fuel empty arg) t
        (λ u eu. finalize_loop-IsStopped fuel empty arg u eu full) e p

  some-IsSettled : (u t : Stepped State A) → IsSettled u → some u ≡ some t → IsSettled t
  some-IsSettled u t w e = ground arith

  pub callbacks_loop-IsSettled :
      (n fuel : ℕ) (self : ApplyPatch State) (arg : A) (off size : ℕ) (res : ℤ)
      (t : Stepped State A)
      → callbacks_loop h cb n fuel self arg off size res ≡ some t
      → IsSettled (stepped self arg res)
      → IsSettled t
  unfolding callbacks_loop
  callbacks_loop-IsSettled zero fuel self arg off size res t e w = ground arith
  callbacks_loop-IsSettled (suc n) fuel self arg off size res t e w =
      let (arg', read, patch) = cb.patch_read arg (min (size - off) 512) in
      elim (Bool-cases (ltb off size && is_zero res)) [
        | inr stop ↦ some-IsSettled (stepped self arg res) t w (rw stop at e)
        | inl go ↦ elim (Bool-cases (is_zero (cb.patch_read arg (min (size - off) 512)).1)) [
          | inr bad ↦
              some-IsSettled (stepped self arg' (neg io_failed)) t (w.0, inr refl)
                (rw (go, bad) at e)
          | inl good ↦
              let (u, eu, rest) = and_then-inv h cb _ _ t (rw (go, good) at e) in
              callbacks_loop-IsSettled n fuel u.self u.arg (add32 off (min (size - off) 512)) size
                u.res t rest
                (process-IsSettled fuel self arg' patch (min (size - off) 512) u eu w.0)
        ]
      ]

  kept-IsComplete :
      (res : ℤ) (u t : Stepped State A)
      → (res ≡ pos 0) ⊎ (is_neg res ≡ true)
      → (leb_ℤ u.res (pos 0) ≡ false → IsComplete u)
      → some (keep_result h cb res u) ≡ some t
      → leb_ℤ t.res (pos 0) ≡ false
      → IsComplete t
  kept-IsComplete res u t r all e p = ground arith

  callbacks_process-IsComplete :
      (rounds fuel : ℕ) (self : ApplyPatch State) (arg : A) (size : ℕ) (t : Stepped State A)
      → callbacks_process h cb rounds fuel self arg size ≡ some t
      → IsFull self
      → leb_ℤ t.res (pos 0) ≡ false
      → IsComplete t
  unfolding callbacks_process
  callbacks_process-IsComplete rounds fuel self arg size t e full p =
      let (v, ev, rest) = and_then-inv h cb _ _ t e in
      let (u, eu, kept) = and_then-inv h cb _ _ t rest in
      let w = callbacks_loop-IsSettled rounds fuel self arg 0 size (pos 0) v ev (full, inl refl) in
      kept-IsComplete v.res u t w.1 (finalize-IsComplete fuel v.self v.arg u eu w.0) kept p

-- For a decoder that keeps its promises and holds finitely many bytes of output: where
-- `detools_apply_patch_callbacks` returns a result above 0, the result is the size of the target
-- that the patch announces, as an `int`, and `to_offset`, the count of the bytes written, has
-- reached it.
pub apply_patch_callbacks-IsComplete :
    (h : Decoder) (f : FiniteOutput h) (l : PollLaws h) {A : Type 0} (cb : Callbacks A)
    (rounds fuel : ℕ) (memory : ApplyPatch h.State) (patch_size : ℕ) (arg : A)
    (t : Stepped h.State A)
    → apply_patch_callbacks h cb rounds fuel memory patch_size arg ≡ some t
    → leb_ℤ t.res (pos 0) ≡ false
    → (t.res ≡ signed32 t.self.to_size) × (t.self.to_offset ≡ t.self.to_size)
unfolding apply_patch_callbacks apply_patch_init
apply_patch_callbacks-IsComplete h f l cb rounds fuel memory patch_size arg t e p =
    callbacks_process-IsComplete h f l cb rounds fuel (apply_patch_init memory patch_size) arg
      patch_size t e tt p
