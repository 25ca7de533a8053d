-- ===== src/Detools/Apply/Data.antt =====
-- What a step of diff data or extra data writes.
use delta_updates_for_embedd.Common.{
  ℕ, zero, suc, ◌+◌, ◌%◌, ◌≤◌, ◌<◌, arith, ◌≡◌, refl, ap, ◌∙◌, min, length, get_or,
}
use delta_updates_for_embedd.Common.{pos, List, [], ◌∷◌, add32, word}
use delta_updates_for_embedd.Detools.Decoder.{Decoder, PollLaws}
use delta_updates_for_embedd.Detools.Reader.{decompress}
use delta_updates_for_embedd.Detools.Reader.Decompress.{decompress-Outcome}
use delta_updates_for_embedd.Detools.Apply.{
  ApplyState, extra_size, adjustment, diff_data, extra_data, ApplyPatch, Callbacks, Stepped,
  add_bytes, write_data, process_data, dispatch, mark_failed, process_once,
}

-- Byte by byte, `add_bytes` is the sum modulo 256, where the source has as many bytes at least.
pub get_or-add_bytes :
    (to from : List ℕ) (i : ℕ)
    → i < length to
    → length to ≤ length from
    → get_or (add_bytes to from) i 0 ≡ (get_or to i 0 + get_or from i 0) % 256
unfolding add_bytes
get_or-add_bytes [] from i h1 h2 = absurd (omega arith)
get_or-add_bytes (t ∷ to) [] i h1 h2 = absurd (omega arith)
get_or-add_bytes (t ∷ to) (f ∷ from) zero h1 h2 = refl
get_or-add_bytes (t ∷ to) (f ∷ from) (suc i) h1 h2 =
    get_or-add_bytes to from i (omega arith) (omega arith)

module _ (h : Decoder) {A : Type 0} (l : PollLaws h) (cb : Callbacks A) where
  open h use {State}

  -- The part that diff data and extra data have in common: from one to 128 bytes, no more than are
  -- left of the segment, are taken from the stream, and the counts move by them.
  abbrev pub Moved : ApplyPatch State → ApplyPatch State → ℕ → Type 0
  Moved self self' n =
      (1 ≤ n)
      × (n ≤ 128)
      × (self'.state ≡ self.state)
      × (self'.to_size ≡ self.to_size)
      × (self'.chunk_size + n ≡ self.chunk_size)
      × (self'.to_offset ≡ add32 self.to_offset n)

  unmarked : (t : Stepped State A) → (mark_failed h cb t).res ≡ pos 0 → mark_failed h cb t ≡ t
  unmarked t ok = ground arith

  -- A step with result 0 is what the handler of the state does.
  step-dispatch :
      (s : ApplyState) (self : ApplyPatch State) (arg : A)
      → self.state ≡ s
      → (process_once h cb self arg).res ≡ pos 0
      → process_once h cb self arg ≡ dispatch h cb s self arg
  unfolding process_once
  step-dispatch s self arg e ok =
      unmarked (dispatch h cb self.state self arg) ok ∙ ap (λ s'. dispatch h cb s' self arg) e

  -- What a step of extra data writes: the bytes taken from the stream, as they are.
  abbrev pub ExtraWritten : ApplyPatch State → A → Stepped State A → Type 0
  ExtraWritten self arg t =
      let d = decompress h self.patch_reader self.chunk (min 128 self.chunk_size) in
      Moved self t.self (length d.out)
      × (t.arg ≡ (cb.to_write arg d.out).0)
      × ((cb.to_write arg d.out).1 ≡ pos 0)
      × (t.self.from_offset ≡ self.from_offset)

  -- What a step of diff data writes: the bytes taken from the stream, each added to the byte of the
  -- source, which is read as far as them.
  abbrev pub DiffWritten : ApplyPatch State → A → Stepped State A → Type 0
  DiffWritten self arg t =
      let d = decompress h self.patch_reader self.chunk (min 128 self.chunk_size) in
      let (arg', res, from) = cb.from_read arg (length d.out) in
      Moved self t.self (length d.out)
      × (res ≡ pos 0)
      × (t.arg ≡ (cb.to_write arg' (add_bytes d.out from)).0)
      × ((cb.to_write arg' (add_bytes d.out from)).1 ≡ pos 0)
      × (t.self.from_offset ≡ add32 self.from_offset (length d.out))

  process_data-ExtraWritten :
      (self : ApplyPatch State) (arg : A)
      → 0 < self.chunk_size
      → self.chunk_size < word
      → (process_data h cb self arg adjustment).res ≡ pos 0
      → ExtraWritten self arg (process_data h cb self arg adjustment)
  unfolding process_data write_data
  process_data-ExtraWritten self arg h1 h2 ok =
      ground (arith, decompress-Outcome h l self.patch_reader self.chunk (min 128 self.chunk_size))

  process_data-DiffWritten :
      (self : ApplyPatch State) (arg : A)
      → 0 < self.chunk_size
      → self.chunk_size < word
      → (process_data h cb self arg extra_size).res ≡ pos 0
      → DiffWritten self arg (process_data h cb self arg extra_size)
  unfolding process_data write_data
  process_data-DiffWritten self arg h1 h2 ok =
      ground (arith, decompress-Outcome h l self.patch_reader self.chunk (min 128 self.chunk_size))

  -- For a decoder that keeps its promises: a step of extra data that succeeds while bytes of the
  -- segment are left, less than 2 ^ 32, takes from one to 128 bytes from the stream, no more than
  -- are left, writes them as they are, moves the counts by them, and leaves the source alone.
  pub process_once-ExtraWritten :
      (self : ApplyPatch State) (arg : A)
      → self.state ≡ extra_data
      → 0 < self.chunk_size
      → self.chunk_size < word
      → (process_once h cb self arg).res ≡ pos 0
      → ExtraWritten self arg (process_once h cb self arg)
  unfolding dispatch
  process_once-ExtraWritten self arg e h1 h2 ok =
      let step = step-dispatch extra_data self arg e ok in
      rw step (process_data-ExtraWritten self arg h1 h2 (rw step at ok))

  -- For a decoder that keeps its promises: a step of diff data that succeeds while bytes of the
  -- segment are left, less than 2 ^ 32, takes from one to 128 bytes from the stream, no more than
  -- are left, reads as many bytes of the source, writes their sums, and moves the counts and the
  -- offset in the source by them.
  pub process_once-DiffWritten :
      (self : ApplyPatch State) (arg : A)
      → self.state ≡ diff_data
      → 0 < self.chunk_size
      → self.chunk_size < word
      → (process_once h cb self arg).res ≡ pos 0
      → DiffWritten self arg (process_once h cb self arg)
  unfolding dispatch
  process_once-DiffWritten self arg e h1 h2 ok =
      let step = step-dispatch diff_data self arg e ok in
      rw step (process_data-DiffWritten self arg h1 h2 (rw step at ok))
