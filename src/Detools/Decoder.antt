-- ===== src/Detools/Decoder.antt =====
-- The heatshrink decoder as app/src/detools/detools.c calls it. The library under
-- app/src/heatshrink is a copy of another project, so it is a parameter: its operations are a
-- record, and what the code relies on is a second record of laws, from the comments of
-- heatshrink_decoder.h.
use delta_updates_for_embedd.Common.{ℕ, ◌+◌, ◌≤◌, ◌<◌, Bool, true, false, List, length, All}
use delta_updates_for_embedd.Common.{ℤ, pos}

-- `HSD_sink_res`, `HSD_poll_res` and `HSD_finish_res`.
pub data SinkRes : Type 0 where
  ok full null_arg : SinkRes

pub data PollRes : Type 0 where
  empty more null_arg unknown : PollRes

pub data FinishRes : Type 0 where
  done more null_arg : FinishRes

-- The tests `sres < 0`, `pres < 0` and `fres == HSDR_FINISH_DONE`.
abbrev pub sink_failed : SinkRes → Bool
sink_failed SinkRes.null_arg = true
sink_failed _ = false

abbrev pub poll_failed : PollRes → Bool
poll_failed PollRes.null_arg = true
poll_failed PollRes.unknown = true
poll_failed _ = false

abbrev pub finish_done : FinishRes → Bool
finish_done FinishRes.done = true
finish_done _ = false

-- `HEATSHRINK_STATIC_WINDOW_BITS` and `HEATSHRINK_STATIC_LOOKAHEAD_BITS`.
abbrev pub static_window_bits : ℤ
static_window_bits = pos 8

abbrev pub static_lookahead_bits : ℤ
static_lookahead_bits = pos 7

-- `sink` is given one byte, as in the code, and returns what it stores in `*input_size`. `poll` is
-- given `out_buf_size` and returns the bytes that it writes to `out_buf`; `*output_size` is their
-- number.
pub record Decoder : Type 1 where
  pub State : Type 0
  pub reset : State → State
  pub sink : State → ℕ → State × SinkRes × ℕ
  pub poll : State → ℕ → State × PollRes × List ℕ
  pub finish : State → FinishRes

-- What `heatshrink_decoder_poll` promises: at most `out_buf_size` bytes.
pub record PollLaws (h : Decoder) : Type 0 where
  pub poll_size : (s : h.State) (n : ℕ) → length (h.poll s n).2 ≤ n
  pub poll_bytes : (s : h.State) (n : ℕ) → All (λ b. b < 256) (h.poll s n).2

-- A decoder holds finitely many bytes of output: `pending` bounds what it can still yield before
-- more input is sunk, and one byte of input adds at most `gain`.
pub record FiniteOutput (h : Decoder) : Type 0 where
  pub pending : h.State → ℕ
  pub gain : ℕ
  pub gain_pos : 1 ≤ gain
  pub pending_reset : (s : h.State) → pending (h.reset s) ≤ 0
  pub pending_sink : (s : h.State) (b : ℕ) → pending (h.sink s b).0 ≤ pending s + gain
  pub pending_poll :
      (s : h.State) (n : ℕ) → pending (h.poll s n).0 + length (h.poll s n).2 ≤ pending s
