-- ===== src/Detools/Run/Written.antt =====
-- A patch that is applied with a positive result: as many bytes are written as the result
-- says.
use delta_updates_for_embedd.Common.{
  ℕ, zero, suc, ◌-◌, ◌%◌, ◌≤◌, arith, ◌≡◌, refl, ap, sym, ◌∙◌, Bool-cases, is_zero, ◌⊎◌, inl, inr,
}
use delta_updates_for_embedd.Common.{
  ℤ, pos, neg, is_neg, leb_ℤ, false, true, [], Option, none, some, signed32, word,
}
use delta_updates_for_embedd.Detools.Codes.{already_done}
use delta_updates_for_embedd.Detools.Run.Chain.{and_then-inv}
use delta_updates_for_embedd.Detools.Decoder.{Decoder, PollLaws, FiniteOutput}
use delta_updates_for_embedd.Detools.Chunk.{Chunk, chunk_at}
use delta_updates_for_embedd.Detools.Reader.{destroy_reader}
use delta_updates_for_embedd.Detools.Apply.{
  ApplyPatch, ApplyState, done, Callbacks, Stepped, process_once,
}
use delta_updates_for_embedd.Detools.Apply.Finished.{IsFull, process_once-already_done}
use delta_updates_for_embedd.Detools.Apply.Written.{
  CountsWrites, CountedAt, IsCounted, process_once-Counted,
}
use delta_updates_for_embedd.Detools.Run.{
  finalize_loop, finalize, settle, keep_result, common_finalize, callbacks_process,
  apply_patch_callbacks, apply_patch_init,
}
use delta_updates_for_embedd.Detools.Run.Complete.{
  IsStopped, finalize_loop-IsStopped, callbacks_loop-IsSettled, apply_patch_callbacks-IsComplete,
}
use delta_updates_for_embedd.Detools.Run.Invariant.{IsInvariant, callbacks_loop-Holds}

module _ (h : Decoder) (f : FiniteOutput h) (l : PollLaws h) {A : Type 0} (cb : Callbacks A)
    (count : A → ℕ) (w : CountsWrites cb count) (start : ℕ) where
  open h use {State}

  load-Counted :
      (self : ApplyPatch State) (arg : A) (c : Chunk) (offset : ℕ)
      → IsCounted h l cb count w start self arg
      → IsCounted h l cb count w start (record self { patch_offset = offset; chunk = c }) arg
  load-Counted self arg c offset e = e

  read-Counted :
      (self : ApplyPatch State) (arg : A) (n : ℕ)
      → IsCounted h l cb count w start self arg
      → IsCounted h l cb count w start self (cb.patch_read arg n).0
  read-Counted self arg n e = rw (w.count_patch arg n) e

  IsCounted-IsInvariant : IsInvariant h cb (IsCounted h l cb count w start)
  IsCounted-IsInvariant = record {
    step = process_once-Counted h l cb count w start;
    load = load-Counted;
    read = read-Counted;
  }

  -- The offset is the count, whatever the state.
  abbrev Counts : Stepped State A → Type 0
  Counts t = CountedAt done start t.self.to_offset (count t.arg)

  done-Counts :
      (s : ApplyState) (off off' n n' : ℕ)
      → s ≡ done
      → off' ≡ off
      → n' ≡ n
      → CountedAt s start off n
      → CountedAt done start off' n'
  done-Counts s off off' n n' e e1 e2 c = ground arith

  step-Counts :
      (self : ApplyPatch State) (arg : A)
      → IsCounted h l cb count w start self arg
      → (process_once h cb self arg).res ≡ neg already_done
      → Counts (process_once h cb self arg)
  step-Counts self arg c r =
      let u = process_once h cb self arg in
      let (state, offset, same) = process_once-already_done h l cb self arg r in
      done-Counts self.state self.to_offset u.self.to_offset (count arg) (count u.arg) state offset
        (ap count same) c

  some-Counts :
      (u t : Stepped State A)
      → (u.res ≡ neg already_done → Counts u)
      → some u ≡ some t
      → t.res ≡ neg already_done
      → Counts t
  some-Counts u t all e r = ground arith

  finalize_loop-Counts :
      (n : ℕ) (self : ApplyPatch State) (arg : A) (t : Stepped State A)
      → finalize_loop h cb n self arg ≡ some t
      → IsCounted h l cb count w start self arg
      → t.res ≡ neg already_done
      → Counts t
  unfolding finalize_loop
  finalize_loop-Counts zero self arg t e c r = absurd (cc)
  finalize_loop-Counts (suc n) self arg t e c r =
      let u = process_once h cb self arg in
      elim (Bool-cases (is_zero u.res)) [
        | inl again ↦
            finalize_loop-Counts n u.self u.arg t (rw again at e)
              (process_once-Counted h l cb count w start self arg c) r
        | inr stop ↦ some-Counts u t (step-Counts self arg c) (rw stop at e) r
      ]

  positive-already_done :
      (t : Stepped State A)
      → IsStopped h f l cb t
      → leb_ℤ (common_finalize h cb t.res t.self.patch_reader t.self.to_size) (pos 0) ≡ false
      → t.res ≡ neg already_done
  unfolding common_finalize destroy_reader
  positive-already_done t e p = ground arith

  settle-Counts :
      (o : Option (Stepped State A)) (t : Stepped State A)
      → ((u : Stepped State A) → o ≡ some u → IsStopped h f l cb u)
      → ((u : Stepped State A) → o ≡ some u → u.res ≡ neg already_done → Counts u)
      → settle h cb o ≡ some t
      → leb_ℤ t.res (pos 0) ≡ false
      → Counts t
  settle-Counts none t all counts e p = absurd (cc)
  settle-Counts (some u) t all counts e p =
      ground (arith, positive-already_done u (all u refl), counts u refl)

  finalize-Counts :
      (fuel : ℕ) (self : ApplyPatch State) (arg : A) (t : Stepped State A)
      → finalize h cb fuel self arg ≡ some t
      → IsFull self
      → IsCounted h l cb count w start self arg
      → leb_ℤ t.res (pos 0) ≡ false
      → Counts t
  unfolding finalize
  finalize-Counts fuel self arg t e full c p =
      let empty = record self { chunk = chunk_at [] 0 } in
      settle-Counts (finalize_loop h cb fuel empty arg) t
        (λ u eu. finalize_loop-IsStopped h f l cb fuel empty arg u eu full)
        (λ u eu. finalize_loop-Counts fuel empty arg u eu c) e p

  kept-Counts :
      (res : ℤ) (u t : Stepped State A)
      → (res ≡ pos 0) ⊎ (is_neg res ≡ true)
      → (leb_ℤ u.res (pos 0) ≡ false → Counts u)
      → some (keep_result h cb res u) ≡ some t
      → leb_ℤ t.res (pos 0) ≡ false
      → Counts t
  kept-Counts res u t r all e p = ground arith

  callbacks_process-Counts :
      (rounds fuel : ℕ) (self : ApplyPatch State) (arg : A) (size : ℕ) (t : Stepped State A)
      → callbacks_process h cb rounds fuel self arg size ≡ some t
      → IsFull self
      → IsCounted h l cb count w start self arg
      → leb_ℤ t.res (pos 0) ≡ false
      → Counts t
  unfolding callbacks_process
  callbacks_process-Counts rounds fuel self arg size t e full c p =
      let (v, ev, rest) = and_then-inv h cb _ _ t e in
      let (u, eu, kept) = and_then-inv h cb _ _ t rest in
      let (full', settled) =
        callbacks_loop-IsSettled h f l cb rounds fuel self arg 0 size (pos 0) v ev
          (full, inl refl) in
      let c' =
        callbacks_loop-Holds h cb IsCounted-IsInvariant rounds fuel self arg 0 size (pos 0) v ev
          c in
      kept-Counts v.res u t settled (finalize-Counts fuel v.self v.arg u eu full' c') kept p

-- For a decoder that keeps its promises and holds finitely many bytes of output: where
-- `detools_apply_patch_callbacks` returns a result above 0, the result is the size of the target,
-- as an `int`, and `to_write` has written as many bytes, modulo 2 ^ 32, by every count of them that
-- `to_write` keeps where it succeeds and that no other callback changes.
pub apply_patch_callbacks-written :
    (h : Decoder) (f : FiniteOutput h) (l : PollLaws h) {A : Type 0} (cb : Callbacks A)
    (count : A → ℕ) (w : CountsWrites cb count) (rounds fuel : ℕ) (memory : ApplyPatch h.State)
    (patch_size : ℕ) (arg : A) (t : Stepped h.State A)
    → apply_patch_callbacks h cb rounds fuel memory patch_size arg ≡ some t
    → leb_ℤ t.res (pos 0) ≡ false
    → (t.res ≡ signed32 t.self.to_size)
      × (count arg ≤ count t.arg)
      × ((count t.arg - count arg) % word ≡ t.self.to_size)
unfolding apply_patch_callbacks apply_patch_init
apply_patch_callbacks-written h f l cb count w rounds fuel memory patch_size arg t e p =
    let (result, whole) =
      apply_patch_callbacks-IsComplete h f l cb rounds fuel memory patch_size arg t e p in
    let (more, counted) =
      callbacks_process-Counts h f l cb count w (count arg) rounds fuel
        (apply_patch_init memory patch_size) arg patch_size t e tt refl p in
    (result, more, sym counted ∙ whole)
