-- ===== src/Detools/Inflate.antt =====
-- What the heatshrink decoder means: it turns input bytes into output bytes, one after another. The
-- laws say this of the decoder that is a parameter; the rest is what the patch reader of
-- app/src/detools/detools.c stands in front of.
pub mod Supply
use delta_updates_for_embedd.Common.{
  ℕ, ◌≡◌, ◌≢◌, Bool, true, false, List, [], ◌∷◌, ◌++◌, take, drop,
}
use delta_updates_for_embedd.Common.{ℤ, negsuc, eq_ℤ}
use delta_updates_for_embedd.Detools.Decoder.{
  Decoder, PollLaws, poll_failed, sink_failed, finish_done,
}
use delta_updates_for_embedd.Detools.Reader.{Reader}

-- A poll yields bytes, as many as it is asked for at most. `pending` is the output that the decoder
-- holds, and `core` the rest of its state. A poll gives the pending output as far as it is asked for; a
-- byte that is sunk where nothing is pending is taken, and its output is pending then; and the decoder
-- is finished where nothing is pending: HSDR_FINISH_DONE is documented in
-- app/src/heatshrink/heatshrink_decoder.h as "output is done". The decoder's own code is not checked
-- against the laws. It reports more to come for a byte without output that is sunk and not yet polled;
-- the reader asks for the end where the last byte of the patch is polled, for input of which every byte
-- is needed.
pub record InflateLaws (h : Decoder) : Type 1 where
  pub polls : PollLaws h
  pub Core : Type 0
  pub core : h.State → Core
  pub pending : h.State → List ℕ
  pub initial : Core
  pub advance : Core → ℕ → Core
  pub yields : Core → ℕ → List ℕ
  pub reset_core : (s : h.State) → core (h.reset s) ≡ initial
  pub reset_pending : (s : h.State) → pending (h.reset s) ≡ []
  pub poll_ok : (s : h.State) (n : ℕ) → poll_failed (h.poll s n).1 ≡ false
  pub poll_out : (s : h.State) (n : ℕ) → (h.poll s n).2 ≡ take n (pending s)
  pub poll_pending : (s : h.State) (n : ℕ) → pending (h.poll s n).0 ≡ drop n (pending s)
  pub poll_core : (s : h.State) (n : ℕ) → core (h.poll s n).0 ≡ core s
  pub sink_ok : (s : h.State) (b : ℕ) → pending s ≡ [] → sink_failed (h.sink s b).1 ≡ false
  pub sink_one : (s : h.State) (b : ℕ) → pending s ≡ [] → (h.sink s b).2 ≡ 1
  pub sink_core : (s : h.State) (b : ℕ) → pending s ≡ [] → core (h.sink s b).0 ≡ advance (core s) b
  pub sink_pending :
      (s : h.State) (b : ℕ) → pending s ≡ [] → pending (h.sink s b).0 ≡ yields (core s) b
  pub finished : (s : h.State) → pending s ≡ [] → finish_done (h.finish s) ≡ true

module _ {h : Decoder} (l : InflateLaws h) where
  open h use {State}
  open l use {Core, core, pending, advance, yields}

  -- The output of all the input, from a state of the decoder.
  abbrev pub inflate : Core → List ℕ → List ℕ
  inflate c [] = []
  inflate c (b ∷ bytes) = yields c b ++ inflate (advance c b) bytes

  -- Every byte of the input is needed: output comes with it or behind it.
  abbrev pub IsNeeded : Core → List ℕ → Type 0
  IsNeeded c [] = Unit
  IsNeeded c (b ∷ bytes) = (inflate c (b ∷ bytes) ≢ []) × IsNeeded (advance c b) bytes

  -- What the reader can still be asked for: behind the heatshrink header, and in front of it.
  abbrev pub future_body : State → List ℕ → List ℕ
  future_body s input = pending s ++ inflate (core s) input

  abbrev pub future_header : State → List ℕ → List ℕ
  future_header s [] = []
  future_header s (b ∷ bytes) = future_body s bytes

  abbrev pub future_at : Bool → State → List ℕ → List ℕ
  future_at true s input = future_header s input
  future_at false s input = future_body s input

  abbrev pub future : Reader State → List ℕ → List ℕ
  future r input = future_at (eq_ℤ r.window_sz2 (negsuc 0)) r.decoder input

  -- The input is as the reader wants it: the header, if it is still to come, is the one for the sizes
  -- that are compiled in, and the bytes behind it are needed.
  abbrev pub ValidHeader : State → List ℕ → Type 0
  ValidHeader s [] = ⊥
  ValidHeader s (b ∷ bytes) =
      (b ≡ 0x44) × (pending s ≡ []) × (inflate (core s) bytes ≢ []) × IsNeeded (core s) bytes

  abbrev pub ValidAt : Bool → State → List ℕ → Type 0
  ValidAt true s input = ValidHeader s input
  ValidAt false s input = IsNeeded (core s) input

  abbrev pub IsValid : Reader State → List ℕ → Type 0
  IsValid r input = ValidAt (eq_ℤ r.window_sz2 (negsuc 0)) r.decoder input
