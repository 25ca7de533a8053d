-- ===== src/Detools/Reader.antt =====
-- The patch reader of app/src/detools/detools.c: bytes of the decompressed stream, and the sizes
-- that are written in it.
pub mod Decompress
pub mod Sizes
pub mod Values
pub mod Stream
pub mod RoundTrip
use delta_updates_for_embedd.Common.{ℕ, zero, suc, ◌+◌, ◌/◌, ◌==◌, Bool, false, not, ◌||◌}
use delta_updates_for_embedd.Common.{Option, none, some, List, [], ◌∷◌, ◌++◌, length, get_or}
use delta_updates_for_embedd.Common.{
  if◌then◌else◌, ltb, bit_and, bit_or, add32, sub32, neg32, shl32,
}
use delta_updates_for_embedd.Common.{ℤ, pos, negsuc, neg, is_zero, eq_ℤ}
use delta_updates_for_embedd.Detools.Codes.{
  heatshrink_header, heatshrink_poll, heatshrink_sink, corrupt_patch, corrupt_patch_overflow,
  internal_error,
}
use delta_updates_for_embedd.Detools.Chunk.{Chunk, chunk_at, is_overflow}
use delta_updates_for_embedd.Detools.Decoder.{
  Decoder, sink_failed, poll_failed, finish_done, static_window_bits, static_lookahead_bits,
}

-- `detools_unpack_usize_state_t`
pub data UsizeState : Type 0 where
  first consecutive : UsizeState

-- The pointer `destroy` of the reader.
pub data Destroy : Type 0 where
  null heatshrink_destroy : Destroy

-- `detools_apply_patch_patch_reader_t`, over the decoder's state. `value` is the 32-bit pattern of
-- the `int`. `patch_chunk_p` points to the chunk of the whole, which the functions below are given
-- and return. `decompress` has one value only, the function below.
pub record Reader (S : Type 0) : Type 0 where
  pub size_state : UsizeState
  pub value : ℕ
  pub offset : ℕ
  pub is_signed : Bool
  pub window_sz2 : ℤ
  pub lookahead_sz2 : ℤ
  pub decoder : S
  pub destroy : Destroy

-- What the loop of a call leaves: the decoder, the chunk, the result, `*size_p`, and the bytes put
-- in `buf_p`.
pub record Inflated (S : Type 0) : Type 0 where
  pub decoder : S
  pub chunk : Chunk
  pub res : ℤ
  pub size : ℕ
  pub out : List ℕ

-- What a call leaves: the reader, the chunk, the result, `*size_p`, and the bytes put in `buf_p`.
pub record Decompressed (S : Type 0) : Type 0 where
  pub reader : Reader S
  pub chunk : Chunk
  pub res : ℤ
  pub size : ℕ
  pub out : List ℕ

-- The window and lookahead sizes of a header byte.
abbrev pub unpack_heatshrink_header : ℕ → ℤ × ℤ
unpack_heatshrink_header byte = (pos (bit_and (byte / 16) 0xf + 4), pos (bit_and byte 0xf + 3))

-- The overflow test is made in the state `consecutive` only.
abbrev pub overflows : UsizeState → ℕ → Bool
overflows first offset = false
overflows consecutive offset = is_overflow offset

-- What a call of `patch_reader_unpack_size` leaves: the reader, the chunk, the result, `*size_p`.
pub record Sized (S : Type 0) : Type 0 where
  pub reader : Reader S
  pub chunk : Chunk
  pub res : ℤ
  pub size : ℕ

-- The rounds of `patch_reader_unpack_size`: six are enough from any state, since the offset grows by
-- seven in each, up to the overflow.
abbrev pub max_rounds : ℕ
max_rounds = 6

module _ (h : Decoder) where
  open h use {State, reset, sink, poll, finish}

  abbrev pub inflated : State → Chunk → ℤ → ℕ → List ℕ → Inflated State
  inflated s c res size out = record { decoder = s; chunk = c; res = res; size = size; out = out }

  abbrev pub decompressed : Reader State → Inflated State → Decompressed State
  decompressed r i = record {
    reader = record r { decoder = i.decoder };
    chunk = i.chunk;
    res = i.res;
    size = i.size;
    out = i.out;
  }

  -- The `while (1)` of `patch_reader_heatshrink_decompress`, on the bytes left of the chunk. A
  -- round polls, and sinks one byte, so the loop ends with the chunk.
  unfoldable pub decompress_loop : List ℕ → ℕ → State → ℕ → ℕ → List ℕ → Inflated State
  decompress_loop [] at s size left out =
      let (s', pres, got) = poll s left in
      let left' = sub32 left (length got) in
      let stop = inflated s' (chunk_at [] at) in
      if poll_failed pres
      then stop (neg heatshrink_poll) size (out ++ got)
      else if left' == 0
      then stop (pos 0) size (out ++ got)
      else if not (left' == size)
      then stop (pos 0) (sub32 size left') (out ++ got)
      else stop (pos 1) size (out ++ got)
  decompress_loop (b ∷ bytes) at s size left out =
      let (s', pres, got) = poll s left in
      let left' = sub32 left (length got) in
      let (s'', sres, sunk) = sink s' b in
      let stop = inflated s' (chunk_at (b ∷ bytes) at) in
      let next = chunk_at bytes (at + 1) in
      let more = decompress_loop bytes (at + 1) s'' size left' (out ++ got) in
      if poll_failed pres
      then stop (neg heatshrink_poll) size (out ++ got)
      else if left' == 0
      then stop (pos 0) size (out ++ got)
      else if sink_failed sres || not (sunk == 1)
      then inflated s'' next (neg heatshrink_sink) size (out ++ got)
      else more

  abbrev decompress_body : Reader State → Chunk → ℕ → Decompressed State
  decompress_body r c size = decompressed r (decompress_loop c.left c.offset r.decoder size size [])

  -- The part that reads the heatshrink header, on the bytes left of the chunk.
  unfoldable pub decompress_header : Reader State → List ℕ → ℕ → ℕ → Decompressed State
  decompress_header r [] at size =
      decompressed r (inflated r.decoder (chunk_at [] at) (pos 1) size [])
  decompress_header r (byte ∷ bytes) at size =
      let (window, lookahead) = unpack_heatshrink_header byte in
      let r' = record r { window_sz2 = window; lookahead_sz2 = lookahead } in
      let c = chunk_at bytes (at + 1) in
      if not (eq_ℤ window static_window_bits) || not (eq_ℤ lookahead static_lookahead_bits)
      then decompressed r' (inflated r.decoder c (neg heatshrink_header) size [])
      else decompress_body r' c size

  -- `patch_reader_heatshrink_decompress`, asked for `size` bytes.
  unfoldable pub decompress : Reader State → Chunk → ℕ → Decompressed State
  unfolding decompress_header
  decompress r c size =
      if eq_ℤ r.window_sz2 (negsuc 0)
      then decompress_header r c.left c.offset size
      else decompress_body r c size

  -- `patch_reader_heatshrink_destroy`
  unfoldable pub destroy_reader : Reader State → ℤ
  destroy_reader r = if finish_done (finish r.decoder) then pos 0 else neg corrupt_patch

  -- `patch_reader_init`, with `patch_reader_heatshrink_init`. Neither `patch_size` nor
  -- `compression` is used.
  unfoldable pub patch_reader_init : Reader State → Reader State
  patch_reader_init r = record r {
    size_state = first;
    window_sz2 = negsuc 0;
    lookahead_sz2 = negsuc 0;
    decoder = reset r.decoder;
    destroy = heatshrink_destroy;
  }

  -- One byte of a size, in the state `first` and in the state `consecutive`.
  abbrev first_byte : Reader State → ℕ → Reader State
  first_byte r byte = record r {
    is_signed = bit_and byte 0x40 == 0x40;
    value = bit_and byte 0x3f;
    offset = 6;
    size_state = consecutive;
  }

  abbrev consecutive_byte : Reader State → ℕ → Reader State
  consecutive_byte r byte = record r {
    value = bit_or r.value (shl32 (bit_and byte 0x7f) r.offset);
    offset = r.offset + 7;
  }

  -- The `switch` on the state.
  abbrev pub next_byte : UsizeState → Reader State → ℕ → Reader State
  next_byte first r byte = first_byte r byte
  next_byte consecutive r byte = consecutive_byte r byte

  -- "Done, fix sign."
  abbrev pub fix_sign : Reader State → Reader State
  fix_sign r = record r {
    size_state = first;
    value = if r.is_signed then neg32 r.value else r.value;
  }

  abbrev pub sized : Reader State → Chunk → ℤ → ℕ → Sized State
  sized r c res size = record { reader = r; chunk = c; res = res; size = size }

  -- The `do` loop of `patch_reader_unpack_size` on fuel; `none` means that the fuel ran out.
  -- `size` is the local variable of that name, and `old` what `*size_p` holds.
  unfoldable pub unpack_rounds : ℕ → Reader State → Chunk → ℕ → ℕ → Option (Sized State)
  unfolding decompress
  unpack_rounds zero r c size old = none
  unpack_rounds (suc n) r c size old =
      let d = decompress r c size in
      let byte = get_or d.out 0 0 in
      let r' = next_byte r.size_state d.reader byte in
      let over = overflows r.size_state d.reader.offset in
      let done = fix_sign r' in
      let more = unpack_rounds n r' d.chunk d.size old in
      if not (is_zero d.res)
      then some (sized d.reader d.chunk d.res old)
      else if over
      then some (sized d.reader d.chunk (neg corrupt_patch_overflow) old)
      else if bit_and byte 0x80 == 0
      then some (sized done d.chunk d.res done.value)
      else more

  abbrev pub or_stuck : Reader State → Chunk → ℕ → Option (Sized State) → Sized State
  or_stuck r c old none = sized r c (neg internal_error) old
  or_stuck r c old (some u) = u

  -- `patch_reader_unpack_size`, where `*size_p` holds `old`.
  unfoldable pub patch_reader_unpack_size : Reader State → Chunk → ℕ → Sized State
  unfolding unpack_rounds
  patch_reader_unpack_size r c old = or_stuck r c old (unpack_rounds max_rounds r c 1 old)

  -- `common_process_size`: the sum wraps as a `size_t` does.
  unfoldable pub common_process_size : Reader State → Chunk → ℕ → ℕ → ℕ → Sized State
  common_process_size r c to_pos to_size old =
      let u = patch_reader_unpack_size r c old in
      if not (is_zero u.res)
      then u
      else if ltb to_size (add32 to_pos u.size)
      then record u { res = neg corrupt_patch }
      else u
