-- ===== src/Detools/Run.antt =====
-- The loops of app/src/detools/detools.c that drive the state machine, and the entry points:
-- `detools_apply_patch_init`, `_process`, `_finalize`, `_dump`, `_restore` and `_callbacks`.
pub mod Rounds
pub mod Chain
pub mod Complete
pub mod Ends
pub mod Invariant
pub mod Kept
pub mod Restore
pub mod Written
use delta_updates_for_embedd.Common.{ℕ, zero, suc, ◌+◌, ◌-◌, Bool, true, false, not, ◌&&◌}
use delta_updates_for_embedd.Common.{Option, none, some, List, [], min, ltb, if◌then◌else◌}
use delta_updates_for_embedd.Common.{ℤ, pos, neg, eq_ℤ, is_zero, is_neg, is_one, add32, signed32}
use delta_updates_for_embedd.Detools.Codes.{io_failed, already_done, not_enough_patch_data}
use delta_updates_for_embedd.Detools.Chunk.{chunk_at, chunk_available}
use delta_updates_for_embedd.Detools.Decoder.{Decoder}
use delta_updates_for_embedd.Detools.Reader.{
  Reader, Destroy, null, heatshrink_destroy, destroy_reader,
}
use delta_updates_for_embedd.Detools.Apply.{
  ApplyPatch, ApplyState, init, Callbacks, Stepped, stepped, process_once,
}

-- `detools_apply_patch_init`, on whatever the structure holds before.
unfoldable pub apply_patch_init : {S : Type 0} → ApplyPatch S → ℕ → ApplyPatch S
apply_patch_init self patch_size = record self {
  patch_size = patch_size;
  patch_offset = 0;
  from_offset = 0;
  state = init;
  patch_reader = record self.patch_reader { destroy = null };
}

-- `detools_apply_patch_get_patch_offset` and `detools_apply_patch_get_to_offset`
abbrev pub get_patch_offset : {S : Type 0} → ApplyPatch S → ℕ
get_patch_offset self = self.patch_offset

abbrev pub get_to_offset : {S : Type 0} → ApplyPatch S → ℕ
get_to_offset self = self.to_offset

abbrev pub is_init : ApplyState → Bool
is_init init = true
is_init _ = false

-- `detools_apply_patch_dump`; `state_write` stores the structure. `patch_reader_dump` returns 0.
unfoldable pub apply_patch_dump :
    {S A : Type 0} → ApplyPatch S → (A → ApplyPatch S → A × ℤ) → A → A × ℤ
apply_patch_dump self state_write arg =
    let (arg', res) = state_write arg self in
    if not (is_zero res) then (arg', neg io_failed) else (arg', pos 0)

-- `patch_reader_restore`: the dumped reader, with its two functions set again.
abbrev patch_reader_restore : {S : Type 0} → Reader S → Reader S
patch_reader_restore dumped = record dumped { destroy = heatshrink_destroy }

-- `detools_apply_patch_restore`; `state_read` returns what was dumped.
unfoldable pub apply_patch_restore :
    {S A : Type 0} → Callbacks A → ApplyPatch S → (A → A × ℤ × ApplyPatch S) → A → Stepped S A
apply_patch_restore cb self state_read arg =
    let (arg1, res1, dumped) = state_read arg in
    let self1 = record self { state = dumped.state; patch_size = dumped.patch_size } in
    let self2 = record self1 {
      compression = dumped.compression;
      patch_offset = dumped.patch_offset;
      to_offset = dumped.to_offset;
      to_size = dumped.to_size;
      from_offset = dumped.from_offset;
      chunk_size = dumped.chunk_size;
    } in
    let (arg2, res2) = cb.from_seek arg1 (signed32 dumped.from_offset) in
    if not (is_zero res1)
    then stepped self arg1 (neg io_failed)
    else if is_init dumped.state
    then stepped self1 arg1 (pos 0)
    else if not (is_zero res2)
    then stepped self2 arg2 (neg io_failed)
    else stepped (record self2 { patch_reader = patch_reader_restore dumped.patch_reader }) arg2
        (pos 0)

module _ (h : Decoder) {A : Type 0} (cb : Callbacks A) where
  open h use {State}

  -- The `while` loop of `detools_apply_patch_process` on fuel; `none` means that the fuel ran out.
  unfoldable pub process_loop : ℕ → ApplyPatch State → A → ℤ → Option (Stepped State A)
  process_loop zero self arg res =
      if chunk_available self.chunk && not (is_neg res) then none else some (stepped self arg res)
  process_loop (suc n) self arg res =
      let t = process_once h cb self arg in
      let more = process_loop n t.self t.arg t.res in
      if chunk_available self.chunk && not (is_neg res) then more else some (stepped self arg res)

  -- `if (res == 1) res = 0`
  abbrev pub more_wanted : ℤ → ℤ
  more_wanted res = if is_one res then pos 0 else res

  abbrev pub with_result : (ℤ → ℤ) → Option (Stepped State A) → Option (Stepped State A)
  with_result f none = none
  with_result f (some t) = some (record t { res = f t.res })

  abbrev pub load_chunk : ApplyPatch State → List ℕ → ℕ → ApplyPatch State
  load_chunk self patch size = record self {
    patch_offset = add32 self.patch_offset size;
    chunk = chunk_at patch 0;
  }

  -- `detools_apply_patch_process`; `patch` holds the `size` bytes at `patch_p`.
  unfoldable pub process : ℕ → ApplyPatch State → A → List ℕ → ℕ → Option (Stepped State A)
  unfolding process_loop
  process fuel self arg patch size =
      with_result more_wanted (process_loop fuel (load_chunk self patch size) arg (pos 0))

  -- The `do` loop of `detools_apply_patch_finalize` on fuel.
  unfoldable pub finalize_loop : ℕ → ApplyPatch State → A → Option (Stepped State A)
  finalize_loop zero self arg = none
  finalize_loop (suc n) self arg =
      let t = process_once h cb self arg in
      let more = finalize_loop n t.self t.arg in if is_zero t.res then more else some t

  -- `apply_patch_common_finalize` on a result that is settled, with the pointer `destroy`.
  abbrev destroyed : ℤ → Destroy → Reader State → ℤ
  destroyed res null r = res
  destroyed res heatshrink_destroy r = if is_zero res then destroy_reader h r else res

  -- `apply_patch_common_finalize`; `destroy` leaves the reader as it is.
  unfoldable pub common_finalize : ℤ → Reader State → ℕ → ℤ
  common_finalize res r to_size =
      let res1 = if is_one res then neg not_enough_patch_data else res in
      let res2 = if eq_ℤ res1 (neg already_done) then pos 0 else res1 in
      let res3 = destroyed res2 r.destroy r in if is_zero res3 then signed32 to_size else res3

  abbrev pub settle : Option (Stepped State A) → Option (Stepped State A)
  settle none = none
  settle (some t) =
      some (record t { res = common_finalize t.res t.self.patch_reader t.self.to_size })

  -- `detools_apply_patch_finalize`
  unfoldable pub finalize : ℕ → ApplyPatch State → A → Option (Stepped State A)
  unfolding finalize_loop common_finalize
  finalize fuel self arg = settle (finalize_loop fuel (record self { chunk = chunk_at [] 0 }) arg)

  abbrev pub and_then :
      Option (Stepped State A)
      → (Stepped State A → Option (Stepped State A))
      → Option (Stepped State A)
  and_then none f = none
  and_then (some t) f = f t

  -- The `while` loop of `callbacks_process`: `rounds` are the chunks that can be left, and `fuel`
  -- that of each inner loop.
  unfoldable pub callbacks_loop :
      ℕ → ℕ → ApplyPatch State → A → ℕ → ℕ → ℤ → Option (Stepped State A)
  unfolding process
  callbacks_loop zero fuel self arg patch_offset patch_size res =
      if ltb patch_offset patch_size && is_zero res then none else some (stepped self arg res)
  callbacks_loop (suc n) fuel self arg patch_offset patch_size res =
      let chunk_size = min (patch_size - patch_offset) 512 in
      let (arg', read, patch) = cb.patch_read arg chunk_size in
      let next = process fuel self arg' patch chunk_size in
      let more =
        and_then next λ t.
          callbacks_loop n fuel t.self t.arg (add32 patch_offset chunk_size) patch_size t.res in
      if ltb patch_offset patch_size && is_zero res
      then if is_zero read then more else some (stepped self arg' (neg io_failed))
      else some (stepped self arg res)

  -- The end of `callbacks_process`: the result of `finalize` counts where the loop ended with 0.
  abbrev pub keep_result : ℤ → Stepped State A → Stepped State A
  keep_result res t = if is_zero res then t else record t { res = res }

  -- `callbacks_process`, with the rounds and the fuel that its loops are given.
  unfoldable pub callbacks_process : ℕ → ℕ → ApplyPatch State → A → ℕ → Option (Stepped State A)
  unfolding callbacks_loop finalize
  callbacks_process rounds fuel self arg patch_size =
      and_then (callbacks_loop rounds fuel self arg 0 patch_size (pos 0))
        λ t. and_then (finalize fuel t.self t.arg) λ u. some (keep_result t.res u)

  -- `detools_apply_patch_callbacks`; `memory` is what the local structure holds before it is set.
  -- `detools_apply_patch_init` returns 0.
  unfoldable pub apply_patch_callbacks : ℕ → ℕ → ApplyPatch State → ℕ → A → Option (Stepped State A)
  unfolding callbacks_process
  apply_patch_callbacks rounds fuel memory patch_size arg =
      callbacks_process rounds fuel (apply_patch_init memory patch_size) arg patch_size
