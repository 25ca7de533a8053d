-- ===== src/Detools/Run/Invariant.antt =====
-- What every step keeps, the loops keep.
use delta_updates_for_embedd.Common.{
  ℕ, not, zero, suc, ◌-◌, ◌≡◌, refl, ltb, ◌&&◌, min, inl, inr, Bool-cases, add32,
}
use delta_updates_for_embedd.Common.{ℤ, pos, neg, is_neg, is_zero, List, Option, none, some}
use delta_updates_for_embedd.Detools.Codes.{io_failed}
use delta_updates_for_embedd.Detools.Run.Chain.{and_then-inv}
use delta_updates_for_embedd.Detools.Decoder.{Decoder}
use delta_updates_for_embedd.Detools.Chunk.{Chunk, chunk_available}
use delta_updates_for_embedd.Detools.Apply.{ApplyPatch, Callbacks, Stepped, stepped, process_once}
use delta_updates_for_embedd.Detools.Run.{
  process_loop, load_chunk, process, callbacks_loop, with_result, more_wanted,
}

-- A property of the machine and of what `arg_p` points to that a step keeps, and that does not
-- depend on the chunk and on the reading of the patch.
pub record IsInvariant (h : Decoder) {A : Type 0} (cb : Callbacks A)
    (Holds : ApplyPatch h.State → A → Type 0) : Type 0 where
  pub step :
      (self : ApplyPatch h.State) (arg : A)
      → Holds self arg
      → Holds (process_once h cb self arg).self (process_once h cb self arg).arg
  pub load :
      (self : ApplyPatch h.State) (arg : A) (c : Chunk) (offset : ℕ)
      → Holds self arg
      → Holds (record self { patch_offset = offset; chunk = c }) arg
  pub read :
      (self : ApplyPatch h.State) (arg : A) (n : ℕ)
      → Holds self arg
      → Holds self (cb.patch_read arg n).0

module _ (h : Decoder) {A : Type 0} (cb : Callbacks A) {Holds : ApplyPatch h.State → A → Type 0}
    (inv : IsInvariant h cb Holds) where
  open h use {State}

  some-Holds : (u t : Stepped State A) → Holds u.self u.arg → some u ≡ some t → Holds t.self t.arg
  some-Holds u t w e = rw (← e') w
    where
      e' : u ≡ t
      e' = cc

  process_loop-Holds :
      (n : ℕ) (self : ApplyPatch State) (arg : A) (res : ℤ) (t : Stepped State A)
      → process_loop h cb n self arg res ≡ some t
      → Holds self arg
      → Holds t.self t.arg
  unfolding process_loop
  process_loop-Holds zero self arg res t e w =
      elim (Bool-cases (chunk_available self.chunk && not (is_neg res))) [
        | inl go ↦ absurd (cc)
        | inr stop ↦ some-Holds (stepped self arg res) t w (rw stop at e)
      ]
  process_loop-Holds (suc n) self arg res t e w =
      let u = process_once h cb self arg in
      elim (Bool-cases (chunk_available self.chunk && not (is_neg res))) [
        | inl go ↦ process_loop-Holds n u.self u.arg u.res t (rw go at e) (inv.step self arg w)
        | inr stop ↦ some-Holds (stepped self arg res) t w (rw stop at e)
      ]

  result-Holds :
      (g : ℤ → ℤ) (o : Option (Stepped State A)) (t : Stepped State A)
      → ((u : Stepped State A) → o ≡ some u → Holds u.self u.arg)
      → with_result h cb g o ≡ some t
      → Holds t.self t.arg
  result-Holds g none t all e = absurd (cc)
  result-Holds g (some u) t all e = some-Holds (record u { res = g u.res }) t (all u refl) e

  pub process-Holds :
      (fuel : ℕ) (self : ApplyPatch State) (arg : A) (patch : List ℕ) (size : ℕ)
      (t : Stepped State A)
      → process h cb fuel self arg patch size ≡ some t
      → Holds self arg
      → Holds t.self t.arg
  unfolding process
  process-Holds fuel self arg patch size t e w =
      let loaded = load_chunk h cb self patch size in
      result-Holds (more_wanted h cb) (process_loop h cb fuel loaded arg (pos 0)) t
        (λ u eu. process_loop-Holds fuel loaded arg (pos 0) u eu (inv.load self arg _ _ w)) e

  pub callbacks_loop-Holds :
      (n fuel : ℕ) (self : ApplyPatch State) (arg : A) (off size : ℕ) (res : ℤ)
      (t : Stepped State A)
      → callbacks_loop h cb n fuel self arg off size res ≡ some t
      → Holds self arg
      → Holds t.self t.arg
  unfolding callbacks_loop
  callbacks_loop-Holds zero fuel self arg off size res t e w =
      elim (Bool-cases (ltb off size && is_zero res)) [
        | inl go ↦ absurd (cc)
        | inr stop ↦ some-Holds (stepped self arg res) t w (rw stop at e)
      ]
  callbacks_loop-Holds (suc n) fuel self arg off size res t e w =
      let k = min (size - off) 512 in
      let (arg', read, patch) = cb.patch_read arg k in
      let w' = inv.read self arg k w in
      elim (Bool-cases (ltb off size && is_zero res)) [
        | inr stop ↦ some-Holds (stepped self arg res) t w (rw stop at e)
        | inl go ↦ elim (Bool-cases (is_zero (cb.patch_read arg (min (size - off) 512)).1)) [
          | inr bad ↦ some-Holds (stepped self arg' (neg io_failed)) t w' (rw (go, bad) at e)
          | inl good ↦
              let (u, eu, rest) = and_then-inv h cb _ _ t (rw (go, good) at e) in
              callbacks_loop-Holds n fuel u.self u.arg (add32 off k) size u.res t rest
                (process-Holds fuel self arg' patch k u eu w')
        ]
      ]
