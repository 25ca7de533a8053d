-- ===== src/Detools/Apply.antt =====
-- The state machine of app/src/detools/detools.c that applies a sequential patch: the state, the
-- callbacks, one function for each state, and the step that dispatches on it.
pub mod Data
pub mod Edges
pub mod Finished
pub mod Progress
pub mod Sizes
pub mod Written
use delta_updates_for_embedd.Common.{ℕ, ◌+◌, ◌-◌, ◌/◌, ◌%◌, ◌^◌, ◌==◌, Bool, true, false, not, ◌&&◌}
use delta_updates_for_embedd.Common.{Option, none, some, List, [], ◌∷◌, min}
use delta_updates_for_embedd.Common.{if◌then◌else◌, ltb, leb, bit_and, add32, sub32, word, signed32}
use delta_updates_for_embedd.Common.{ℤ, pos, negsuc, neg, is_zero, is_neg}
use delta_updates_for_embedd.Detools.Codes.{
  not_implemented, bad_patch_type, corrupt_patch, io_failed, already_done, short_header,
  already_failed,
}
use delta_updates_for_embedd.Detools.Chunk.{Chunk, chunk_get, chunk_unpack_header_size}
use delta_updates_for_embedd.Detools.Decoder.{Decoder}
use delta_updates_for_embedd.Detools.Reader.{
  Reader, Sized, decompress, patch_reader_init, patch_reader_unpack_size, common_process_size,
}

-- `detools_apply_patch_state_t`
pub data ApplyState : Type 0 where
  init dfpatch_size diff_size diff_data extra_size extra_data adjustment done failed : ApplyState

-- The callbacks `from_read`, `from_seek`, `patch_read` and `to_write` over what `arg_p` points to.
-- Each returns it anew with its result; a read also returns the bytes that it puts in `buf_p`, which
-- are as many as it is asked for where it succeeds.
pub record Callbacks (A : Type 0) : Type 0 where
  pub from_read : A → ℕ → A × ℤ × List ℕ
  pub from_seek : A → ℤ → A × ℤ
  pub patch_read : A → ℕ → A × ℤ × List ℕ
  pub to_write : A → List ℕ → A × ℤ

-- `detools_apply_patch_t`, over the decoder's state. The callbacks and what `arg_p` points to are
-- arguments of the functions. `from_offset` is the 32-bit pattern of the `int`.
pub record ApplyPatch (S : Type 0) : Type 0 where
  pub patch_size : ℕ
  pub state : ApplyState
  pub compression : ℕ
  pub patch_offset : ℕ
  pub to_offset : ℕ
  pub to_size : ℕ
  pub from_offset : ℕ
  pub chunk_size : ℕ
  pub patch_reader : Reader S
  pub chunk : Chunk

-- What a step leaves: the machine, what `arg_p` points to, and the result.
pub record Stepped (S A : Type 0) : Type 0 where
  pub self : ApplyPatch S
  pub arg : A
  pub res : ℤ

abbrev pub stepped : {S A : Type 0} → ApplyPatch S → A → ℤ → Stepped S A
stepped self arg res = record { self = self; arg = arg; res = res }

-- `for (i = 0; i < to_size; i++) to[i] = (uint8_t)(to[i] + from[i])`
unfoldable pub add_bytes : List ℕ → List ℕ → List ℕ
add_bytes [] from = []
add_bytes (t ∷ to) [] = t ∷ to
add_bytes (t ∷ to) (f ∷ from) = ((t + f) % 256) ∷ add_bytes to from

-- `next_state == detools_apply_patch_state_extra_size_t`, which marks the diff data.
abbrev pub is_diff : ApplyState → Bool
is_diff extra_size = true
is_diff _ = false

module _ (h : Decoder) {A : Type 0} (cb : Callbacks A) where
  open h use {State}
  open cb use {from_read, from_seek, to_write}

  -- `self_p->patch_reader` and `self_p->chunk` after a call of the reader.
  abbrev after : ApplyPatch State → Reader State → Chunk → ApplyPatch State
  after self r c = record self { patch_reader = r; chunk = c }

  -- The end of `process_init`, behind the reading of the header; `to_size` is the pattern of an
  -- `int`.
  abbrev start : ApplyPatch State → A → ℕ → Stepped State A
  start self arg to_size =
      let self' = record self { patch_reader = patch_reader_init h self.patch_reader } in
      if leb (2 ^ 31) to_size
      then stepped self' arg (neg corrupt_patch)
      else stepped
          (record self' {
            to_offset = 0;
            to_size = to_size;
            state = if ltb 0 to_size then dfpatch_size else done;
          })
          arg (pos 0)

  -- `process_init` on what `chunk_get` gives. The local `to_size` is unset before the call that sets
  -- it: 0 stands for it.
  unfoldable pub init_with : ApplyPatch State → A → Option (ℕ × Chunk) → Stepped State A
  init_with self arg none = stepped self arg (neg short_header)
  init_with self arg (some (byte, c)) =
      let patch_type = bit_and (byte / 16) 0x7 in
      let self' = record self { compression = bit_and byte 0xf; chunk = c } in
      let (c', res, to_size) = chunk_unpack_header_size c 0 in
      if not (patch_type == 0)
      then stepped self' arg (neg bad_patch_type)
      else if not (is_zero res)
      then stepped (record self' { chunk = c' }) arg res
      else start (record self' { chunk = c' }) arg to_size

  -- `process_init`
  unfoldable pub process_init : ApplyPatch State → A → Stepped State A
  unfolding init_with
  process_init self arg = init_with self arg (chunk_get self.chunk)

  -- `process_dfpatch_size`
  unfoldable pub process_dfpatch_size : ApplyPatch State → A → Stepped State A
  process_dfpatch_size self arg =
      let u = patch_reader_unpack_size h self.patch_reader self.chunk 0 in
      let self' = after self u.reader u.chunk in
      if not (is_zero u.res)
      then stepped self' arg u.res
      else if ltb 0 u.size && ltb u.size (2 ^ 31)
      then stepped self' arg (neg not_implemented)
      else stepped (record self' { state = diff_size }) arg (pos 0)

  -- `process_size`
  unfoldable pub process_size : ApplyPatch State → A → ApplyState → Stepped State A
  process_size self arg next_state =
      let u = common_process_size h self.patch_reader self.chunk self.to_offset self.to_size 0 in
      let self' = after self u.reader u.chunk in
      if not (is_zero u.res)
      then stepped self' arg u.res
      else stepped (record self' { state = next_state; chunk_size = u.size }) arg u.res

  -- The bytes of a data chunk are written: the end of `process_data`.
  unfoldable pub write_data : ApplyPatch State → A → List ℕ → ℕ → Stepped State A
  write_data self arg to to_size =
      let self' = record self {
        to_offset = add32 self.to_offset to_size;
        chunk_size = sub32 self.chunk_size to_size;
      } in
      let (arg', res) = to_write arg to in
      if not (is_zero res) then stepped self' arg' (neg io_failed) else stepped self' arg' res

  -- `process_data`. `to` and `from` hold 128 bytes.
  unfoldable pub process_data : ApplyPatch State → A → ApplyState → Stepped State A
  unfolding write_data
  process_data self arg next_state =
      let d = decompress h self.patch_reader self.chunk (min 128 self.chunk_size) in
      let self' = after self d.reader d.chunk in
      let (arg', res, from) = from_read arg d.size in
      let read = record self' { from_offset = add32 self.from_offset d.size } in
      if min 128 self.chunk_size == 0
      then stepped (record self { state = next_state }) arg (pos 0)
      else if not (is_zero d.res)
      then stepped self' arg d.res
      else if is_diff next_state
      then (if not (is_zero res)
          then stepped self' arg' (neg io_failed)
          else write_data read arg' (add_bytes d.out from) d.size)
      else write_data self' arg d.out d.size

  -- `process_adjustment`
  unfoldable pub process_adjustment : ApplyPatch State → A → Stepped State A
  process_adjustment self arg =
      let u = patch_reader_unpack_size h self.patch_reader self.chunk 0 in
      let self' = after self u.reader u.chunk in
      let (arg', res) = from_seek arg (signed32 u.size) in
      if not (is_zero u.res)
      then stepped self' arg u.res
      else if not (is_zero res)
      then stepped self' arg' (neg io_failed)
      else stepped
          (record self' {
            from_offset = add32 self.from_offset u.size;
            state = if self.to_offset == self.to_size then done else diff_size;
          })
          arg' res

  -- The `switch` of `apply_patch_process_once`, with `process_diff_size`, `process_diff_data`,
  -- `process_extra_size` and `process_extra_data`.
  unfoldable pub dispatch : ApplyState → ApplyPatch State → A → Stepped State A
  dispatch init self arg = process_init self arg
  dispatch dfpatch_size self arg = process_dfpatch_size self arg
  dispatch diff_size self arg = process_size self arg diff_data
  dispatch diff_data self arg = process_data self arg extra_size
  dispatch extra_size self arg = process_size self arg extra_data
  dispatch extra_data self arg = process_data self arg adjustment
  dispatch adjustment self arg = process_adjustment self arg
  dispatch done self arg = stepped self arg (neg already_done)
  dispatch failed self arg = stepped self arg (neg already_failed)

  abbrev pub mark_failed : Stepped State A → Stepped State A
  mark_failed t = if is_neg t.res then record t { self = record t.self { state = failed } } else t

  -- `apply_patch_process_once`
  unfoldable pub process_once : ApplyPatch State → A → Stepped State A
  process_once self arg = mark_failed (dispatch self.state self arg)
