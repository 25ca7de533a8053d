-- ===== src/Detools/Format/Reads.antt =====
-- The loop of `callbacks_process` in app/src/detools/detools.c on a machine that is somewhere in a patch:
-- the patch is read to its end, or to where it is cut short.
use delta_updates_for_embedd.Common.{
  ℕ, zero, suc, ◌+◌, ◌-◌, ◌≤◌, ◌<◌, arith, ◌≡◌, ◌∙◌, inl, inr, true, Bool-cases, some, List, [],
  ◌++◌, append_assoc, ap, sym, length, take, drop, length-drop, min, ltb, word, add32, ℤ, pos,
}
use delta_updates_for_embedd.Detools.Decoder.{Decoder}
use delta_updates_for_embedd.Detools.Inflate.{InflateLaws}
use delta_updates_for_embedd.Detools.Inflate.Supply.{take-drop, nil_of_length}
use delta_updates_for_embedd.Detools.Apply.{ApplyPatch, Callbacks, Stepped}
use delta_updates_for_embedd.Detools.Run.{process, callbacks_loop}
use delta_updates_for_embedd.Detools.Run.Chain.{and_then-inv}
use delta_updates_for_embedd.Detools.Format.Images.{ImageLaws}
use delta_updates_for_embedd.Detools.Format.Loops.{UsedUp, process-UsedUp, load-Going, read-Going}
use delta_updates_for_embedd.Detools.Format.Once.{Going}

module _ {h : Decoder} (l : InflateLaws h) {A : Type 0} {cb : Callbacks A} (i : ImageLaws cb)
    (whole : List ℕ) (total start : ℕ) (missing : List ℕ) where
  open h use {State}

  -- A chunk that is read from the patch.
  chunk-UsedUp :
      (fuel : ℕ) (self : ApplyPatch State) (arg : A) (n : ℕ) (t : Stepped State A)
      → Going l i whole total start (i.patch_left arg ++ missing) self arg
      → self.chunk.left ≡ []
      → 0 < n
      → n ≤ length (i.patch_left arg)
      → process h cb fuel self (cb.patch_read arg n).0 (cb.patch_read arg n).2 n ≡ some t
      → (t.res ≡ pos 0)
        × (t.self.chunk.left ≡ [])
        × (i.patch_left t.arg ≡ drop n (i.patch_left arg))
        × Going l i whole total start (i.patch_left t.arg ++ missing) t.self t.arg
  chunk-UsedUp fuel self arg n t g empty h1 h2 e =
      let (read, bytes, same_position, same_written, left, sound) =
        i.patch_ok arg n g.matches.sound h1 h2 in
      let all = i.patch_left arg in
      let rest = drop n all ++ missing in
      let split : (cb.patch_read arg n).2 ++ rest ≡ all ++ missing = rw bytes (
        sym (append_assoc (take n all) (drop n all) missing)
        ∙ ap (λ ys. ys ++ missing) (take-drop n all)) in
      let used =
        process-UsedUp l i whole total start rest fuel self (cb.patch_read arg n).0
          (cb.patch_read arg n).2 n t
          (load-Going l i whole total start (all ++ missing) rest self (cb.patch_read arg n).0
            (cb.patch_read arg n).2 n
            (read-Going l i whole total start (all ++ missing) self arg n g h1 h2) empty split)
          e in
      let same : i.patch_left t.arg ≡ drop n all = used.1.2 ∙ left in
      (used.0, used.1.1, same, rw same used.1.3)

  chunk_fits :
      (offset left size : ℕ)
      → offset + left ≡ size
      → ltb offset size ≡ true
      → 0 < min (size - offset) 512
  chunk_fits offset left size e lt = ground arith

  pub callbacks_loop-UsedUp :
      (n fuel : ℕ) (self : ApplyPatch State) (arg : A) (offset size : ℕ) (res : ℤ)
      (t : Stepped State A)
      → res ≡ pos 0
      → Going l i whole total start (i.patch_left arg ++ missing) self arg
      → self.chunk.left ≡ []
      → offset + length (i.patch_left arg) ≡ size
      → size < word
      → callbacks_loop h cb n fuel self arg offset size res ≡ some t
      → (t.res ≡ pos 0) × UsedUp l i whole total start missing [] t
  unfolding callbacks_loop
  callbacks_loop-UsedUp zero fuel self arg offset size res t r g empty e bound eq =
      ground (arith, nil_of_length (i.patch_left arg))
  callbacks_loop-UsedUp (suc n) fuel self arg offset size res t r g empty e bound eq =
      elim (Bool-cases (ltb offset size)) [
        | inl more ↦
            let size' = min (size - offset) 512 in
            let some_left : 0 < size' = chunk_fits offset (length (i.patch_left arg)) size e more in
            let in_patch : size' ≤ length (i.patch_left arg) = ground arith in
            let read = (i.patch_ok arg size' g.matches.sound some_left in_patch).0 in
            let next = and_then-inv h cb _ _ t (rw (more, r, read) at eq) in
            let u = next.0 in
            let used = chunk-UsedUp fuel self arg size' u g empty some_left in_patch next.1 in
            callbacks_loop-UsedUp n fuel u.self u.arg (add32 offset size') size u.res t used.0
              used.3 used.1 (rw used.2 (omega (arith, length-drop size' (i.patch_left arg)))) bound
              next.2
        | inr stop ↦ ground (arith, nil_of_length (i.patch_left arg))
      ]
