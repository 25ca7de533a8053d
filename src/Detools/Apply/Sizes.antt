-- ===== src/Detools/Apply/Sizes.antt =====
-- The bytes that a patch writes against the size that its header announces, and what one step of data
-- does.
use delta_updates_for_embedd.Common.{ℕ, ◌+◌, ◌-◌, ◌^◌, ◌≤◌, ◌<◌, arith, ◌≡◌, refl, ◌⊎◌, inl, inr}
use delta_updates_for_embedd.Common.{min, word, add32}
use delta_updates_for_embedd.Common.{pos, List, Option, none, some}
use delta_updates_for_embedd.Detools.Decoder.{Decoder, PollLaws}
use delta_updates_for_embedd.Detools.Chunk.{Chunk, chunk_get}
use delta_updates_for_embedd.Detools.Reader.{
  decompress, patch_reader_unpack_size, common_process_size,
}
use delta_updates_for_embedd.Detools.Reader.Decompress.{decompress-Outcome}
use delta_updates_for_embedd.Detools.Apply.{
  ApplyState, init, dfpatch_size, diff_size, diff_data, extra_size, extra_data, adjustment, done,
  failed, ApplyPatch, Callbacks, add_bytes, write_data, init_with, process_init,
  process_dfpatch_size, process_size, process_data, process_adjustment, dispatch, process_once,
}

-- In a data state, what is still to be written of the segment fits the target.
abbrev pub Remaining : ApplyState → ℕ → ℕ → ℕ → Type 0
Remaining diff_data to_offset chunk_size to_size = to_offset + chunk_size ≤ to_size
Remaining extra_data to_offset chunk_size to_size = to_offset + chunk_size ≤ to_size
Remaining init to_offset chunk_size to_size = Unit
Remaining failed to_offset chunk_size to_size = Unit
Remaining _ to_offset chunk_size to_size = to_offset ≤ to_size

-- The machine stays within the target.
pub record IsWithin {S : Type 0} (self : ApplyPatch S) : Type 0 where
  pub word_size : self.to_size < word
  pub remaining : Remaining self.state self.to_offset self.chunk_size self.to_size

module _ (h : Decoder) {A : Type 0} (l : PollLaws h) (cb : Callbacks A) where
  open h use {State}

  -- A negative size is accepted: where the size that is read is -k for a k up to the bytes written
  -- so far, the check passes, since the sum wraps, and the segment is taken to be almost 2 ^ 32
  -- bytes long, more than the target can hold.
  pub negative_size_accepted :
      (self : ApplyPatch State) (arg : A) (next : ApplyState) (k : ℕ)
      → (patch_reader_unpack_size h self.patch_reader self.chunk 0).res ≡ pos 0
      → (patch_reader_unpack_size h self.patch_reader self.chunk 0).size ≡ word - k
      → 0 < k
      → k ≤ self.to_offset
      → self.to_offset ≤ self.to_size
      → self.to_size < 2 ^ 31
      → let t = process_size h cb self arg next in
        (t.res ≡ pos 0)
        × (t.self.state ≡ next)
        × (t.self.chunk_size ≡ word - k)
        × (t.self.to_size < t.self.to_offset + t.self.chunk_size)
  unfolding process_size common_process_size
  negative_size_accepted self arg next k e1 e2 h1 h2 h3 h4 = ground arith

  init_with-IsWithin :
      (self : ApplyPatch State) (arg : A) (o : Option (ℕ × Chunk))
      → self.state ≡ init
      → self.to_size < word
      → IsWithin (init_with h cb self arg o).self
  unfolding init_with
  init_with-IsWithin self arg none e w = ground arith
  init_with-IsWithin self arg (some (byte, c)) e w = ground arith

  dfpatch_size-IsWithin :
      (self : ApplyPatch State) (arg : A)
      → self.state ≡ dfpatch_size
      → IsWithin self
      → IsWithin (process_dfpatch_size h cb self arg).self
  unfolding process_dfpatch_size
  dfpatch_size-IsWithin self arg e w = ground arith

  size-IsWithin :
      (self : ApplyPatch State) (arg : A) (next : ApplyState)
      → (self.state ≡ diff_size) ⊎ (self.state ≡ extra_size)
      → (next ≡ diff_data) ⊎ (next ≡ extra_data)
      → (patch_reader_unpack_size h self.patch_reader self.chunk 0).size < 2 ^ 31
      → self.to_size < 2 ^ 31
      → IsWithin self
      → IsWithin (process_size h cb self arg next).self
  unfolding process_size common_process_size
  size-IsWithin self arg next e n small half w = ground arith

  write-IsWithin :
      (self : ApplyPatch State) (arg : A) (to : List ℕ) (n : ℕ)
      → (self.state ≡ diff_data) ⊎ (self.state ≡ extra_data)
      → n ≤ self.chunk_size
      → IsWithin self
      → IsWithin (write_data h cb self arg to n).self
  unfolding write_data
  write-IsWithin self arg to n e le w = ground arith

  data-IsWithin :
      (self : ApplyPatch State) (arg : A) (next : ApplyState)
      → (self.state ≡ diff_data) ⊎ (self.state ≡ extra_data)
      → (next ≡ extra_size) ⊎ (next ≡ adjustment)
      → IsWithin self
      → IsWithin (process_data h cb self arg next).self
  unfolding process_data
  data-IsWithin self arg next e n w =
      let k = min 128 self.chunk_size in
      let d = decompress h self.patch_reader self.chunk k in
      let self' = record self { patch_reader = d.reader; chunk = d.chunk } in
      let read = record self' { from_offset = add32 self.from_offset d.size } in
      let (arg', res, from) = cb.from_read arg d.size in
      ground (
        arith,
        decompress-Outcome h l self.patch_reader self.chunk k,
        write-IsWithin self' arg d.out d.size,
        write-IsWithin read arg' (add_bytes d.out from) d.size,
      )

  adjustment-IsWithin :
      (self : ApplyPatch State) (arg : A)
      → self.state ≡ adjustment
      → IsWithin self
      → IsWithin (process_adjustment h cb self arg).self
  unfolding process_adjustment
  adjustment-IsWithin self arg e w = ground arith

  dispatch-IsWithin :
      (s : ApplyState) (self : ApplyPatch State) (arg : A)
      → self.state ≡ s
      → ((self.state ≡ diff_size) ⊎ (self.state ≡ extra_size)
          → (patch_reader_unpack_size h self.patch_reader self.chunk 0).size < 2 ^ 31)
      → self.to_size < 2 ^ 31
      → IsWithin self
      → IsWithin (dispatch h cb s self arg).self
  unfolding dispatch process_init
  dispatch-IsWithin init self arg e small half w =
      init_with-IsWithin self arg (chunk_get self.chunk) e (omega arith)
  dispatch-IsWithin dfpatch_size self arg e small half w = dfpatch_size-IsWithin self arg e w
  dispatch-IsWithin diff_size self arg e small half w =
      size-IsWithin self arg diff_data (inl e) (inl refl) (small (inl e)) half w
  dispatch-IsWithin diff_data self arg e small half w =
      data-IsWithin self arg extra_size (inl e) (inl refl) w
  dispatch-IsWithin extra_size self arg e small half w =
      size-IsWithin self arg extra_data (inr e) (inr refl) (small (inr e)) half w
  dispatch-IsWithin extra_data self arg e small half w =
      data-IsWithin self arg adjustment (inr e) (inr refl) w
  dispatch-IsWithin adjustment self arg e small half w = adjustment-IsWithin self arg e w
  dispatch-IsWithin done self arg e small half w = w
  dispatch-IsWithin failed self arg e small half w = w

  -- For a decoder that keeps its promises and a target below 2 ^ 31 bytes: a step from any state keeps
  -- the machine within the target, what has been written and what is left of the segment fit it after
  -- the step, if they did before. In a state in front of a size of a segment, the size that is read is
  -- no negative number; in the other states nothing is asked of the patch.
  pub process_once-IsWithin :
      (self : ApplyPatch State) (arg : A)
      → ((self.state ≡ diff_size) ⊎ (self.state ≡ extra_size)
          → (patch_reader_unpack_size h self.patch_reader self.chunk 0).size < 2 ^ 31)
      → self.to_size < 2 ^ 31
      → IsWithin self
      → IsWithin (process_once h cb self arg).self
  unfolding process_once
  process_once-IsWithin self arg small half w =
      ground (arith, dispatch-IsWithin self.state self arg refl small half w)
