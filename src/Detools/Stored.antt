-- ===== src/Detools/Stored.antt =====
-- A decoder for examples, which keeps every promise that the code relies on: it passes its input
-- on as it is, first in, first out.
pub mod Files
pub mod Inflating
pub mod Images
pub mod Saved
use delta_updates_for_embedd.Common.{ℕ, zero, suc, ◌+◌, ◌≤◌, ◌<◌, arith, ◌≡◌, List, [], ◌∷◌, ◌++◌}
use delta_updates_for_embedd.Common.{
  length, length-append, take, drop, length-take, length-drop, All,
}
use delta_updates_for_embedd.Common.{◌%◌}
use delta_updates_for_embedd.Detools.Decoder.{
  Decoder, PollLaws, FiniteOutput, SinkRes, PollRes, FinishRes,
}

abbrev all_sunk : List ℕ → FinishRes
all_sunk [] = FinishRes.done
all_sunk (b ∷ bytes) = FinishRes.more

-- The bytes that a poll puts in its buffer.
abbrev as_bytes : List ℕ → List ℕ
as_bytes [] = []
as_bytes (b ∷ bytes) = (b % 256) ∷ as_bytes bytes

abbrev pub stored : Decoder
stored = record {
  State = List ℕ;
  reset = λ s. [];
  sink = λ s b. (s ++ (b ∷ []), SinkRes.ok, 1);
  poll = λ s n. (drop n s, PollRes.empty, as_bytes (take n s));
  finish = all_sunk;
}

pub length-as_bytes : (xs : List ℕ) → length (as_bytes xs) ≡ length xs
length-as_bytes [] = omega arith
length-as_bytes (x ∷ xs) = omega (arith, length-as_bytes xs)

as_bytes-All : (xs : List ℕ) → All (λ b. b < 256) (as_bytes xs)
as_bytes-All [] = tt
as_bytes-All (x ∷ xs) = (omega arith, as_bytes-All xs)

pub stored-PollLaws : PollLaws stored
stored-PollLaws = record {
  poll_size = λ s n. omega (arith, length-as_bytes (take n s), length-take n s);
  poll_bytes = λ s n. as_bytes-All (take n s);
}

abbrev pub stored-FiniteOutput : FiniteOutput stored
stored-FiniteOutput = record {
  pending = length;
  gain = 1;
  gain_pos = omega arith;
  pending_reset = λ s. omega arith;
  pending_sink = λ s b. omega (arith, length-append s (b ∷ []));
  pending_poll = λ s n. omega (arith, length-as_bytes (take n s), length-take n s, length-drop n s);
}
