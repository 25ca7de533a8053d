-- ===== src/Detools/Run/Chain.antt =====
-- Runs that are chained by `and_then`.
use delta_updates_for_embedd.Common.{◌≡◌, ◌≢◌, refl}
use delta_updates_for_embedd.Common.{Option}
use delta_updates_for_embedd.Common.{none, some}
use delta_updates_for_embedd.Detools.Decoder.{Decoder}
use delta_updates_for_embedd.Detools.Apply.{Callbacks, Stepped}
use delta_updates_for_embedd.Detools.Run.{and_then}

-- The value of a run that ends.
pub some_of : {X : Type 0} (o : Option X) → o ≢ none → (x : X) × (o ≡ some x)
some_of none ne = absurd (ne refl)
some_of (some x) ne = (x, refl)

module _ (h : Decoder) {A : Type 0} (cb : Callbacks A) where
  open h use {State}

  pub and_then-ne-none :
      (o : Option (Stepped State A)) (k : Stepped State A → Option (Stepped State A))
      → o ≢ none
      → ((t : Stepped State A) → o ≡ some t → k t ≢ none)
      → and_then h cb o k ≢ none
  and_then-ne-none none k ne all = absurd (ne refl)
  and_then-ne-none (some t) k ne all = all t refl

  pub and_then-inv :
      (o : Option (Stepped State A)) (k : Stepped State A → Option (Stepped State A))
      (t : Stepped State A)
      → and_then h cb o k ≡ some t
      → (u : Stepped State A) × (o ≡ some u) × (k u ≡ some t)
  and_then-inv none k t e = cc
  and_then-inv (some u) k t e = (u, refl, e)
