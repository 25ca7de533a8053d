-- ===== src/Detools/Reader/Sizes.antt =====
-- `patch_reader_unpack_size` and `common_process_size`: they end, they make progress, and what they
-- return is bounded.
use delta_updates_for_embedd.Common.{ℕ, zero, suc, ◌+◌, ◌*◌, ◌≤◌, ◌<◌, arith, ◌≡◌, ◌⊎◌}
use delta_updates_for_embedd.Common.{Option, none, some, get_or, List, [], ◌∷◌, ◌≢◌}
use delta_updates_for_embedd.Common.{add32, All, is_neg, true, refl}
use delta_updates_for_embedd.Common.{pos}
use delta_updates_for_embedd.Detools.Chunk.{Chunk}
use delta_updates_for_embedd.Detools.Decoder.{Decoder, PollLaws, FiniteOutput}
use delta_updates_for_embedd.Detools.Reader.{
  Reader, UsizeState, first, consecutive, Sized, next_byte, decompress, unpack_rounds, or_stuck,
  common_process_size, patch_reader_unpack_size, max_rounds,
}
use delta_updates_for_embedd.Detools.Reader.Decompress.{
  potential, decompress-KeepsSize, decompress-Outcome, decompress-potential,
}

module _ (h : Decoder) where
  open h use {State, reset, sink, poll, finish}

  -- From the state `consecutive` the overflow test ends the loop after `m + 1` rounds at most.
  consecutive-ne-none :
      (m : ℕ) (r : Reader State) (c : Chunk) (size old : ℕ)
      → r.size_state ≡ consecutive
      → 26 ≤ r.offset + 7 * m
      → unpack_rounds h (suc m) r c size old ≢ none
  unfolding unpack_rounds
  consecutive-ne-none zero r c size old e hm = ground (arith, decompress-KeepsSize h r c size)
  consecutive-ne-none (suc m) r c size old e hm =
      let d = decompress h r c size in
      let next = next_byte h consecutive d.reader (get_or d.out 0 0) in
      ground (arith, decompress-KeepsSize h r c size, consecutive-ne-none m next d.chunk d.size old)

  first-ne-none :
      (m : ℕ) (r : Reader State) (c : Chunk) (size old : ℕ)
      → r.size_state ≡ first
      → 20 ≤ 7 * m
      → unpack_rounds h (suc (suc m)) r c size old ≢ none
  unfolding unpack_rounds
  first-ne-none m r c size old e hm =
      let d = decompress h r c size in
      let next = next_byte h first d.reader (get_or d.out 0 0) in
      ground (arith, consecutive-ne-none m next d.chunk d.size old)

  rounds-ne-none :
      (st : UsizeState) (r : Reader State) (c : Chunk) (size old : ℕ)
      → r.size_state ≡ st
      → unpack_rounds h max_rounds r c size old ≢ none
  rounds-ne-none first r c size old e = first-ne-none 4 r c size old e (omega arith)
  rounds-ne-none consecutive r c size old e = consecutive-ne-none 5 r c size old e (omega arith)

  -- The loop of `patch_reader_unpack_size` ends within its rounds, whatever the decoder yields and
  -- from whatever state it is resumed: the value that stands for a loop without end is not reached.
  pub unpack_rounds-ne-none :
      (r : Reader State) (c : Chunk) (old : ℕ) → unpack_rounds h max_rounds r c 1 old ≢ none
  unpack_rounds-ne-none r c old = rounds-ne-none r.size_state r c 1 old refl

  -- The three ways in which the reading of a size ends: with a value, and at least one byte less to
  -- come; for want of input, with the chunk used up; with an error.
  abbrev pub SizeOutcome : FiniteOutput h → Reader State → Chunk → Sized State → Type 0
  SizeOutcome f r c u =
      ((u.res ≡ pos 0)
        × (u.reader.size_state ≡ first)
        × (potential h f u.reader u.chunk < potential h f r c))
      ⊎ (((u.res ≡ pos 1)
            × (u.chunk.left ≡ [])
            × (potential h f u.reader u.chunk ≤ potential h f r c))
          ⊎ (is_neg u.res ≡ true))

  rounds-SizeOutcome :
      (l : PollLaws h) (f : FiniteOutput h) (n : ℕ) (r : Reader State) (c : Chunk) (size old : ℕ)
      (u : Sized State)
      → size ≡ 1
      → unpack_rounds h n r c size old ≡ some u
      → SizeOutcome f r c u
  unfolding unpack_rounds
  rounds-SizeOutcome l f zero r c size old u e1 e = cc
  rounds-SizeOutcome l f (suc n) r c size old u e1 e =
      let d = decompress h r c size in
      let next = next_byte h r.size_state d.reader (get_or d.out 0 0) in
      ground (
        arith,
        decompress-Outcome h l r c size,
        decompress-potential h f r c size,
        rounds-SizeOutcome l f n next d.chunk d.size old u,
      )

  or_stuck-SizeOutcome :
      (f : FiniteOutput h) (r : Reader State) (c : Chunk) (old : ℕ) (o : Option (Sized State))
      → o ≢ none
      → ((u : Sized State) → o ≡ some u → SizeOutcome f r c u)
      → SizeOutcome f r c (or_stuck h r c old o)
  or_stuck-SizeOutcome f r c old none ne all = absurd (ne refl)
  or_stuck-SizeOutcome f r c old (some u) ne all = all u refl

  -- For a decoder that keeps its promises and holds finitely many bytes of output:
  -- `patch_reader_unpack_size` ends with result 0, in front of the next size and with at least one
  -- byte less to come; or with result 1, for want of input, with the chunk used up; or with a
  -- negative result.
  pub unpack_size-SizeOutcome :
      (l : PollLaws h) (f : FiniteOutput h) (r : Reader State) (c : Chunk) (old : ℕ)
      → SizeOutcome f r c (patch_reader_unpack_size h r c old)
  unfolding patch_reader_unpack_size
  unpack_size-SizeOutcome l f r c old =
      or_stuck-SizeOutcome f r c old (unpack_rounds h max_rounds r c 1 old)
        (unpack_rounds-ne-none r c old)
        (λ u e. rounds-SizeOutcome l f max_rounds r c 1 old u refl e)

  -- For a decoder that keeps its promises and holds finitely many bytes of output:
  -- `common_process_size` ends with result 0 and at least one byte less to come, with result 1 and
  -- the chunk used up, or with a negative result; and with result 0, the sum of `to_pos` and the
  -- size, as a `size_t`, is at most `to_size`.
  pub common_process_size-SizeOutcome :
      (l : PollLaws h) (f : FiniteOutput h) (r : Reader State) (c : Chunk) (to_pos to_size old : ℕ)
      → let u = common_process_size h r c to_pos to_size old in
        SizeOutcome f r c u
        × (((u.res ≡ pos 0) × (add32 to_pos u.size ≤ to_size)) ⊎ (u.res ≢ pos 0))
  unfolding common_process_size
  common_process_size-SizeOutcome l f r c to_pos to_size old =
      ground (arith, unpack_size-SizeOutcome l f r c old)

  pub first_elem-lt : (xs : List ℕ) → All (λ b. b < 256) xs → get_or xs 0 0 < 256
  first_elem-lt [] e = omega arith
  first_elem-lt (x ∷ xs) e = e.0
