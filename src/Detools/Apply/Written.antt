-- ===== src/Detools/Apply/Written.antt =====
-- `to_offset` counts the bytes that are handed to `to_write`.
use delta_updates_for_embedd.Common.{
  ℕ, true, ◌+◌, ◌-◌, ◌%◌, ◌≤◌, arith, ◌≡◌, refl, ◌⊎◌, inl, inr, min, length,
}
use delta_updates_for_embedd.Common.{
  ℤ, pos, is_neg, List, [], ◌∷◌, Option, none, some, add32, word, signed32,
}
use delta_updates_for_embedd.Detools.Decoder.{Decoder, PollLaws}
use delta_updates_for_embedd.Detools.Chunk.{Chunk, chunk_get}
use delta_updates_for_embedd.Detools.Reader.{decompress, patch_reader_unpack_size}
use delta_updates_for_embedd.Detools.Reader.Decompress.{decompress-Outcome}
use delta_updates_for_embedd.Detools.Apply.{
  ApplyState, init, dfpatch_size, diff_size, diff_data, extra_size, extra_data, adjustment, done,
  failed, ApplyPatch, Callbacks, Stepped, add_bytes, write_data, init_with, process_init,
  process_dfpatch_size, process_size, process_data, process_adjustment, dispatch, process_once,
}

-- A count of the bytes that `to_write` was given and has written with result 0; no other callback
-- changes it.
pub record CountsWrites {A : Type 0} (cb : Callbacks A) (count : A → ℕ) : Type 0 where
  pub count_write :
      (a : A) (bytes : List ℕ)
      → (cb.to_write a bytes).1 ≡ pos 0
      → count (cb.to_write a bytes).0 ≡ count a + length bytes
  pub count_read : (a : A) (n : ℕ) → count (cb.from_read a n).0 ≡ count a
  pub count_seek : (a : A) (offset : ℤ) → count (cb.from_seek a offset).0 ≡ count a
  pub count_patch : (a : A) (n : ℕ) → count (cb.patch_read a n).0 ≡ count a

-- The offset is the count since `start`, as a `size_t`. A machine that failed may have done so before
-- the offset was set.
abbrev pub CountedAt : ApplyState → ℕ → ℕ → ℕ → Type 0
CountedAt init start to_offset count = count ≡ start
CountedAt failed start to_offset count = Unit
CountedAt _ start to_offset count = (start ≤ count) × (to_offset ≡ (count - start) % word)

pub length-add_bytes : (to from : List ℕ) → length (add_bytes to from) ≡ length to
unfolding add_bytes
length-add_bytes [] from = omega arith
length-add_bytes (t ∷ to) [] = omega arith
length-add_bytes (t ∷ to) (f ∷ from) = omega (arith, length-add_bytes to from)

module _ (h : Decoder) {A : Type 0} (l : PollLaws h) (cb : Callbacks A) (count : A → ℕ)
    (w : CountsWrites cb count) (start : ℕ) where
  open h use {State}

  abbrev pub IsCounted : ApplyPatch State → A → Type 0
  IsCounted self arg = CountedAt self.state start self.to_offset (count arg)

  abbrev Counted : Stepped State A → Type 0
  Counted t = (is_neg t.res ≡ true) ⊎ IsCounted t.self t.arg

  init_with-Counted :
      (self : ApplyPatch State) (arg : A) (o : Option (ℕ × Chunk))
      → self.state ≡ init
      → IsCounted self arg
      → Counted (init_with h cb self arg o)
  unfolding init_with
  init_with-Counted self arg none e c = ground arith
  init_with-Counted self arg (some (byte, chunk)) e c = ground arith

  dfpatch_size-Counted :
      (self : ApplyPatch State) (arg : A)
      → self.state ≡ dfpatch_size
      → IsCounted self arg
      → Counted (process_dfpatch_size h cb self arg)
  unfolding process_dfpatch_size
  dfpatch_size-Counted self arg e c = ground arith

  size-Counted :
      (self : ApplyPatch State) (arg : A) (next : ApplyState)
      → (self.state ≡ diff_size) ⊎ (self.state ≡ extra_size)
      → (next ≡ diff_data) ⊎ (next ≡ extra_data)
      → IsCounted self arg
      → Counted (process_size h cb self arg next)
  unfolding process_size
  size-Counted self arg next e n c = ground arith

  write-Counted :
      (self : ApplyPatch State) (arg : A) (to : List ℕ) (n : ℕ)
      → (self.state ≡ diff_data) ⊎ (self.state ≡ extra_data)
      → length to ≡ n
      → IsCounted self arg
      → Counted (write_data h cb self arg to n)
  unfolding write_data
  write-Counted self arg to n e len c = ground (arith, w.count_write arg to)

  data-Counted :
      (self : ApplyPatch State) (arg : A) (next : ApplyState)
      → (self.state ≡ diff_data) ⊎ (self.state ≡ extra_data)
      → (next ≡ extra_size) ⊎ (next ≡ adjustment)
      → IsCounted self arg
      → Counted (process_data h cb self arg next)
  unfolding process_data
  data-Counted self arg next e n c =
      let k = min 128 self.chunk_size in
      let d = decompress h self.patch_reader self.chunk k in
      let self' = record self { patch_reader = d.reader; chunk = d.chunk } in
      let read = record self' { from_offset = add32 self.from_offset d.size } in
      let (arg', res, from) = cb.from_read arg d.size in
      ground (
        arith,
        decompress-Outcome h l self.patch_reader self.chunk k,
        w.count_read arg d.size,
        length-add_bytes d.out from,
        write-Counted self' arg d.out d.size,
        write-Counted read arg' (add_bytes d.out from) d.size,
      )

  adjustment-Counted :
      (self : ApplyPatch State) (arg : A)
      → self.state ≡ adjustment
      → IsCounted self arg
      → Counted (process_adjustment h cb self arg)
  unfolding process_adjustment
  adjustment-Counted self arg e c =
      let u = patch_reader_unpack_size h self.patch_reader self.chunk 0 in
      ground (arith, w.count_seek arg (signed32 u.size))

  dispatch-Counted :
      (s : ApplyState) (self : ApplyPatch State) (arg : A)
      → self.state ≡ s
      → IsCounted self arg
      → Counted (dispatch h cb s self arg)
  unfolding dispatch process_init
  dispatch-Counted init self arg e c = init_with-Counted self arg (chunk_get self.chunk) e c
  dispatch-Counted dfpatch_size self arg e c = dfpatch_size-Counted self arg e c
  dispatch-Counted diff_size self arg e c = size-Counted self arg diff_data (inl e) (inl refl) c
  dispatch-Counted diff_data self arg e c = data-Counted self arg extra_size (inl e) (inl refl) c
  dispatch-Counted extra_size self arg e c = size-Counted self arg extra_data (inr e) (inr refl) c
  dispatch-Counted extra_data self arg e c = data-Counted self arg adjustment (inr e) (inr refl) c
  dispatch-Counted adjustment self arg e c = adjustment-Counted self arg e c
  dispatch-Counted done self arg e c = inr c
  dispatch-Counted failed self arg e c = inl refl

  -- A step keeps the count.
  pub process_once-Counted :
      (self : ApplyPatch State) (arg : A)
      → IsCounted self arg
      → IsCounted (process_once h cb self arg).self (process_once h cb self arg).arg
  unfolding process_once
  process_once-Counted self arg c = ground (arith, dispatch-Counted self.state self arg refl c)
