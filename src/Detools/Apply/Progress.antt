-- ===== src/Detools/Apply/Progress.antt =====
-- Every step of the patch applier uses up a part of what the input and the decoder can still give,
-- or asks for input, or fails: the measure on which its loops end.
use delta_updates_for_embedd.Common.{ℕ, ◌+◌, ◌*◌, ◌≤◌, ◌<◌, arith, ◌≡◌, refl, ◌⊎◌, inl, inr}
use delta_updates_for_embedd.Common.{true, min, length, add32}
use delta_updates_for_embedd.Common.{pos, is_neg, List, [], ◌∷◌}
use delta_updates_for_embedd.Detools.Decoder.{Decoder, PollLaws, FiniteOutput}
use delta_updates_for_embedd.Detools.Chunk.{Chunk, chunk_at, chunk_unpack_header_size, get_at}
use delta_updates_for_embedd.Detools.Chunk.Header.{chunk_unpack_header_size-res}
use delta_updates_for_embedd.Detools.Reader.{Reader, decompress, patch_reader_init}
use delta_updates_for_embedd.Detools.Reader.Decompress.{
  potential, decompress-Outcome, decompress-potential,
}
use delta_updates_for_embedd.Detools.Reader.Sizes.{
  unpack_size-SizeOutcome, common_process_size-SizeOutcome,
}
use delta_updates_for_embedd.Detools.Apply.{
  ApplyState, init, dfpatch_size, diff_size, diff_data, extra_size, extra_data, adjustment, done,
  failed, ApplyPatch, Callbacks, Stepped, add_bytes, write_data, init_with, process_init,
  process_dfpatch_size, process_size, process_data, process_adjustment, dispatch, process_once,
}

pub mul_mono : (g x y : ℕ) → x ≤ y → g * x ≤ g * y
mul_mono g x y h = grind arith

module _ (h : Decoder) (f : FiniteOutput h) where
  open h use {State}

  -- What can still be read: before the header the decoder holds nothing that counts.
  abbrev pub budget_in : ApplyState → Reader State → Chunk → ℕ
  budget_in init r c = f.gain * length c.left
  budget_in done r c = 0
  budget_in failed r c = 0
  budget_in _ r c = potential h f r c

  -- A data state can be left without reading.
  abbrev pub busy : ApplyState → ℕ
  busy diff_data = 1
  busy extra_data = 1
  busy _ = 0

  pub busy-le : (s : ApplyState) → busy s ≤ 1
  busy-le s = ground arith

  abbrev pub budget : ApplyPatch State → ℕ
  budget self = budget_in self.state self.patch_reader self.chunk

  abbrev pub measure : ApplyPatch State → ℕ
  measure self = 2 * budget self + busy self.state

  module _ {A : Type 0} where
    -- How a step from measure `m` and budget `b` ends: the measure falls; input is wanted, and the
    -- chunk is used up; or the result is negative.
    abbrev pub StepOutcome : ℕ → ℕ → Stepped State A → Type 0
    StepOutcome m b t =
        ((t.res ≡ pos 0) × (measure t.self < m) × (budget t.self ≤ b))
        ⊎ (((t.res ≡ pos 1) × (t.self.chunk.left ≡ []) × (budget t.self ≤ b))
            ⊎ (is_neg t.res ≡ true))

  module _ {A : Type 0} (l : PollLaws h) (cb : Callbacks A) where
    -- The header costs a byte of the chunk at least.
    init_with-Outcome :
        (self : ApplyPatch State) (arg : A) (left : List ℕ) (at : ℕ)
        → StepOutcome
            (2 * (f.gain * length left))
            (f.gain * length left)
            (init_with h cb self arg (get_at left at))
    unfolding init_with patch_reader_init
    init_with-Outcome self arg [] at = ground arith
    init_with-Outcome self arg (b ∷ left) at =
        let c = chunk_at left (at + 1) in
        let got = (chunk_unpack_header_size c 0).0 in
        ground (
          arith,
          f.gain_pos,
          f.pending_reset self.patch_reader.decoder,
          chunk_unpack_header_size-res c 0,
          mul_mono f.gain (length got.left) (length left),
        )

    dfpatch_size-Outcome :
        (self : ApplyPatch State) (arg : A)
        → let b = potential h f self.patch_reader self.chunk in
          StepOutcome (2 * b) b (process_dfpatch_size h cb self arg)
    unfolding process_dfpatch_size
    dfpatch_size-Outcome self arg =
        ground (arith, unpack_size-SizeOutcome h l f self.patch_reader self.chunk 0)

    -- `process_size` on its way to a data state.
    size-Outcome :
        (self : ApplyPatch State) (arg : A) (next : ApplyState)
        → (next ≡ diff_data) ⊎ (next ≡ extra_data)
        → let b = potential h f self.patch_reader self.chunk in
          (self.state ≡ diff_size) ⊎ (self.state ≡ extra_size)
          → StepOutcome (2 * b) b (process_size h cb self arg next)
    unfolding process_size
    size-Outcome self arg next e s = ground (
      arith,
      common_process_size-SizeOutcome h l f self.patch_reader self.chunk self.to_offset self.to_size
          0,
    )

    write-Outcome :
        (self : ApplyPatch State) (arg : A) (to : List ℕ) (n b : ℕ)
        → (self.state ≡ diff_data) ⊎ (self.state ≡ extra_data)
        → potential h f self.patch_reader self.chunk < b
        → StepOutcome (2 * b + 1) b (write_data h cb self arg to n)
    unfolding write_data
    write-Outcome self arg to n b s p = ground arith

    -- `process_data`: a byte at least is decompressed, or the state is left.
    data-Outcome :
        (self : ApplyPatch State) (arg : A) (next : ApplyState)
        → (self.state ≡ diff_data) ⊎ (self.state ≡ extra_data)
        → (next ≡ extra_size) ⊎ (next ≡ adjustment)
        → let b = potential h f self.patch_reader self.chunk in
          StepOutcome (2 * b + 1) b (process_data h cb self arg next)
    unfolding process_data
    data-Outcome self arg next s e =
        let n = min 128 self.chunk_size in
        let r = self.patch_reader in
        let d = decompress h r self.chunk n in
        let self' = record self { patch_reader = d.reader; chunk = d.chunk } in
        let read = record self' { from_offset = add32 self.from_offset d.size } in
        let (arg', res, from) = cb.from_read arg d.size in
        ground (
          arith,
          decompress-Outcome h l r self.chunk n,
          decompress-potential h f r self.chunk n,
          write-Outcome self' arg d.out d.size (potential h f r self.chunk),
          write-Outcome read arg' (add_bytes d.out from) d.size (potential h f r self.chunk),
        )

    adjustment-Outcome :
        (self : ApplyPatch State) (arg : A)
        → let b = potential h f self.patch_reader self.chunk in
          self.state ≡ adjustment → StepOutcome (2 * b) b (process_adjustment h cb self arg)
    unfolding process_adjustment
    adjustment-Outcome self arg e =
        ground (arith, unpack_size-SizeOutcome h l f self.patch_reader self.chunk 0)

    dispatch-Outcome :
        (s : ApplyState) (self : ApplyPatch State) (arg : A)
        → self.state ≡ s
        → StepOutcome (measure self) (budget self) (dispatch h cb s self arg)
    unfolding dispatch process_init
    dispatch-Outcome init self arg e =
        rw e (ground (arith, init_with-Outcome self arg self.chunk.left self.chunk.offset))
    dispatch-Outcome dfpatch_size self arg e = ground (arith, dfpatch_size-Outcome self arg)
    dispatch-Outcome diff_size self arg e =
        ground (arith, size-Outcome self arg diff_data (inl refl) (inl e))
    dispatch-Outcome diff_data self arg e =
        ground (arith, data-Outcome self arg extra_size (inl e) (inl refl))
    dispatch-Outcome extra_size self arg e =
        ground (arith, size-Outcome self arg extra_data (inr refl) (inr e))
    dispatch-Outcome extra_data self arg e =
        ground (arith, data-Outcome self arg adjustment (inr e) (inr refl))
    dispatch-Outcome adjustment self arg e = ground (arith, adjustment-Outcome self arg e)
    dispatch-Outcome done self arg e = inr (inr refl)
    dispatch-Outcome failed self arg e = inr (inr refl)

    -- For a decoder that keeps its promises and holds finitely many bytes of output: a step from
    -- any state gives 0 and its measure falls, which is twice the number of bytes that can still be
    -- read, and one more in a state of data, or it gives 1 with the chunk used up, or it fails; what
    -- can be read never grows.
    pub process_once-Outcome :
        (self : ApplyPatch State) (arg : A)
        → let t = process_once h cb self arg in
          StepOutcome (measure self) (budget self) t × (budget t.self ≤ budget self)
    unfolding process_once
    process_once-Outcome self arg = ground (arith, dispatch-Outcome self.state self arg refl)
