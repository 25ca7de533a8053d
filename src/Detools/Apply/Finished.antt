-- ===== src/Detools/Apply/Finished.antt =====
-- When the patch applier is done: the code -11 comes from the state `done` only, and that state is
-- reached with the whole target written.
use delta_updates_for_embedd.Common.{ℕ, zero, suc, arith, ◌≡◌, ◌≢◌, refl, ◌⊎◌, inl, inr, min}
use delta_updates_for_embedd.Common.{neg, List, Option, none, some, get_or, add32}
use delta_updates_for_embedd.Detools.Codes.{already_done}
use delta_updates_for_embedd.Detools.Decoder.{Decoder, PollLaws}
use delta_updates_for_embedd.Detools.Chunk.{Chunk, chunk_get}
use delta_updates_for_embedd.Detools.Chunk.Header.{chunk_unpack_header_size-ne-done}
use delta_updates_for_embedd.Detools.Reader.{
  Reader, Sized, decompress, next_byte, unpack_rounds, or_stuck, patch_reader_unpack_size,
  max_rounds, common_process_size,
}
use delta_updates_for_embedd.Detools.Reader.Decompress.{decompress-Outcome}
use delta_updates_for_embedd.Detools.Apply.{
  ApplyState, init, dfpatch_size, diff_size, diff_data, extra_size, extra_data, adjustment, done,
  failed, ApplyPatch, Callbacks, Stepped, add_bytes, write_data, init_with, process_init,
  process_dfpatch_size, process_size, process_data, process_adjustment, dispatch, process_once,
}

-- In the state `done`, the target is written.
abbrev pub FullAt : ApplyState → ℕ → ℕ → Type 0
FullAt done to_offset to_size = to_offset ≡ to_size
FullAt _ to_offset to_size = Unit

abbrev pub IsFull : {S : Type 0} → ApplyPatch S → Type 0
IsFull self = FullAt self.state self.to_offset self.to_size

module _ (h : Decoder) {A : Type 0} (l : PollLaws h) (cb : Callbacks A) where
  open h use {State}

  rounds-ne-done :
      (n : ℕ) (r : Reader State) (c : Chunk) (size old : ℕ) (u : Sized State)
      → size ≡ 1
      → unpack_rounds h n r c size old ≡ some u
      → u.res ≢ neg already_done
  unfolding unpack_rounds
  rounds-ne-done zero r c size old u e1 e = cc
  rounds-ne-done (suc n) r c size old u e1 e =
      let d = decompress h r c size in
      let next = next_byte h r.size_state d.reader (get_or d.out 0 0) in
      ground (arith, decompress-Outcome h l r c size, rounds-ne-done n next d.chunk d.size old u)

  or_stuck-ne-done :
      (r : Reader State) (c : Chunk) (old : ℕ) (o : Option (Sized State))
      → ((u : Sized State) → o ≡ some u → u.res ≢ neg already_done)
      → (or_stuck h r c old o).res ≢ neg already_done
  or_stuck-ne-done r c old none all = λ e. cc
  or_stuck-ne-done r c old (some u) all = all u refl

  unpack_size-ne-done :
      (r : Reader State) (c : Chunk) (old : ℕ)
      → (patch_reader_unpack_size h r c old).res ≢ neg already_done
  unfolding patch_reader_unpack_size
  unpack_size-ne-done r c old =
      or_stuck-ne-done r c old (unpack_rounds h max_rounds r c 1 old)
        (λ u e. rounds-ne-done max_rounds r c 1 old u refl e)

  -- What a handler of another state than `done` leaves: it is full if it is done, and its result is
  -- not the one of that state.
  abbrev Proceeds : Stepped State A → Type 0
  Proceeds t = IsFull t.self × (t.res ≢ neg already_done)

  init_with-Proceeds :
      (self : ApplyPatch State) (arg : A) (o : Option (ℕ × Chunk))
      → self.state ≡ init
      → Proceeds (init_with h cb self arg o)
  unfolding init_with
  init_with-Proceeds self arg none e = ground arith
  init_with-Proceeds self arg (some (byte, c)) e =
      ground (arith, chunk_unpack_header_size-ne-done c 0)

  dfpatch_size-Proceeds :
      (self : ApplyPatch State) (arg : A)
      → self.state ≡ dfpatch_size
      → Proceeds (process_dfpatch_size h cb self arg)
  unfolding process_dfpatch_size
  dfpatch_size-Proceeds self arg e =
      ground (arith, unpack_size-ne-done self.patch_reader self.chunk 0)

  size-Proceeds :
      (self : ApplyPatch State) (arg : A) (next : ApplyState)
      → (self.state ≡ diff_size) ⊎ (self.state ≡ extra_size)
      → (next ≡ diff_data) ⊎ (next ≡ extra_data)
      → Proceeds (process_size h cb self arg next)
  unfolding process_size common_process_size
  size-Proceeds self arg next e n =
      ground (arith, unpack_size-ne-done self.patch_reader self.chunk 0)

  write-Proceeds :
      (self : ApplyPatch State) (arg : A) (to : List ℕ) (n : ℕ)
      → (self.state ≡ diff_data) ⊎ (self.state ≡ extra_data)
      → Proceeds (write_data h cb self arg to n)
  unfolding write_data
  write-Proceeds self arg to n e = ground arith

  data-Proceeds :
      (self : ApplyPatch State) (arg : A) (next : ApplyState)
      → (self.state ≡ diff_data) ⊎ (self.state ≡ extra_data)
      → (next ≡ extra_size) ⊎ (next ≡ adjustment)
      → Proceeds (process_data h cb self arg next)
  unfolding process_data
  data-Proceeds self arg next e n =
      let k = min 128 self.chunk_size in
      let d = decompress h self.patch_reader self.chunk k in
      let self' = record self { patch_reader = d.reader; chunk = d.chunk } in
      let read = record self' { from_offset = add32 self.from_offset d.size } in
      let (arg', res, from) = cb.from_read arg d.size in
      ground (
        arith,
        decompress-Outcome h l self.patch_reader self.chunk k,
        write-Proceeds self' arg d.out d.size,
        write-Proceeds read arg' (add_bytes d.out from) d.size,
      )

  adjustment-Proceeds :
      (self : ApplyPatch State) (arg : A)
      → self.state ≡ adjustment
      → Proceeds (process_adjustment h cb self arg)
  unfolding process_adjustment
  adjustment-Proceeds self arg e =
      ground (arith, unpack_size-ne-done self.patch_reader self.chunk 0)

  -- Full machines stay full, and the result -11 comes from a full machine.
  abbrev pub Finishes : Stepped State A → Type 0
  Finishes t = IsFull t.self × ((t.res ≢ neg already_done) ⊎ (t.self.to_offset ≡ t.self.to_size))

  dispatch-Finishes :
      (s : ApplyState) (self : ApplyPatch State) (arg : A)
      → self.state ≡ s
      → IsFull self
      → Finishes (dispatch h cb s self arg)
  unfolding dispatch process_init
  dispatch-Finishes init self arg e w =
      ground (arith, init_with-Proceeds self arg (chunk_get self.chunk) e)
  dispatch-Finishes dfpatch_size self arg e w = ground (arith, dfpatch_size-Proceeds self arg e)
  dispatch-Finishes diff_size self arg e w =
      ground (arith, size-Proceeds self arg diff_data (inl e) (inl refl))
  dispatch-Finishes diff_data self arg e w =
      ground (arith, data-Proceeds self arg extra_size (inl e) (inl refl))
  dispatch-Finishes extra_size self arg e w =
      ground (arith, size-Proceeds self arg extra_data (inr e) (inr refl))
  dispatch-Finishes extra_data self arg e w =
      ground (arith, data-Proceeds self arg adjustment (inr e) (inr refl))
  dispatch-Finishes adjustment self arg e w = ground (arith, adjustment-Proceeds self arg e)
  dispatch-Finishes done self arg e w = ground arith
  dispatch-Finishes failed self arg e w = ground arith

  -- A step keeps the target written where the machine is done, and gives the result -11 only where
  -- the target is written.
  pub process_once-Finishes :
      (self : ApplyPatch State) (arg : A) → IsFull self → Finishes (process_once h cb self arg)
  unfolding process_once
  process_once-Finishes self arg w = ground (arith, dispatch-Finishes self.state self arg refl w)

  dispatch-already_done :
      (s : ApplyState) (self : ApplyPatch State) (arg : A)
      → self.state ≡ s
      → (dispatch h cb s self arg).res ≡ neg already_done
      → s ≡ done
  unfolding dispatch process_init
  dispatch-already_done init self arg e r =
      absurd ((init_with-Proceeds self arg (chunk_get self.chunk) e).1 r)
  dispatch-already_done dfpatch_size self arg e r = absurd ((dfpatch_size-Proceeds self arg e).1 r)
  dispatch-already_done diff_size self arg e r =
      absurd ((size-Proceeds self arg diff_data (inl e) (inl refl)).1 r)
  dispatch-already_done diff_data self arg e r =
      absurd ((data-Proceeds self arg extra_size (inl e) (inl refl)).1 r)
  dispatch-already_done extra_size self arg e r =
      absurd ((size-Proceeds self arg extra_data (inr e) (inr refl)).1 r)
  dispatch-already_done extra_data self arg e r =
      absurd ((data-Proceeds self arg adjustment (inr e) (inr refl)).1 r)
  dispatch-already_done adjustment self arg e r = absurd ((adjustment-Proceeds self arg e).1 r)
  dispatch-already_done done self arg e r = refl
  dispatch-already_done failed self arg e r = cc

  done-dispatch :
      (s : ApplyState) (self : ApplyPatch State) (arg : A)
      → s ≡ done
      → ((dispatch h cb s self arg).self ≡ self) × ((dispatch h cb s self arg).arg ≡ arg)
  unfolding dispatch
  done-dispatch done self arg e = (refl, refl)
  done-dispatch _ self arg e = absurd (cc)

  -- The result -11 comes from the state `done`, and nothing but the state is changed then.
  pub process_once-already_done :
      (self : ApplyPatch State) (arg : A)
      → (process_once h cb self arg).res ≡ neg already_done
      → (self.state ≡ done)
        × ((process_once h cb self arg).self.to_offset ≡ self.to_offset)
        × ((process_once h cb self arg).arg ≡ arg)
  unfolding process_once
  process_once-already_done self arg r =
      ground
        (arith, dispatch-already_done self.state self arg refl, done-dispatch self.state self arg)
