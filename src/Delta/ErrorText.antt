-- ===== src/Delta/ErrorText.antt =====
-- `delta_error_as_string` of app/src/delta/delta.c.
use Prim.Native.String.{String}
use delta_updates_for_embedd.Common.{ℕ, ◌≤◌, ◌≡◌, arith}
use delta_updates_for_embedd.Common.{if◌then◌else◌, ◌==◌, ltb_ℤ, ℤ, pos, neg}
use delta_updates_for_embedd.Detools.ErrorText.{magnitude, detools_error_as_string}
use delta_updates_for_embedd.Delta.Codes.{
  slot1_out_of_memory, reading_patch_error, reading_source_error, writing_error, seeking_error,
  casting_error, invalid_buf_size, clearing_error, no_flash_found, patch_header_error,
}

-- The `switch` on the magnitude of the error.
unfoldable pub delta_text_of : ℕ → String
delta_text_of e =
    if e == slot1_out_of_memory
    then "Slot 1 out of memory."
    else if e == reading_patch_error
    then "Error reading patch."
    else if e == reading_source_error
    then "Error reading source image."
    else if e == writing_error
    then "Error writing to slot 1."
    else if e == seeking_error
    then "Seek error."
    else if e == casting_error
    then "Error casting to flash_mem."
    else if e == invalid_buf_size
    then "Read/write buffer less or equal to 0."
    else if e == clearing_error
    then "Could not clear slot 1."
    else if e == no_flash_found
    then "No flash found."
    else if e == patch_header_error
    then "Error reading patch header."
    else "Unknown error."

-- The test `error < 28` comes first, and holds for every negative error.
unfoldable pub delta_error_as_string : ℤ → String
unfolding delta_text_of detools_error_as_string
delta_error_as_string error =
    if ltb_ℤ error (pos 28) then detools_error_as_string error else delta_text_of (magnitude error)

-- The text of an error that is returned negated, as all of them are, is that of detools: an error of
-- delta.h gets "Unknown error.", and its own text is the one of the error before it is negated.
pub delta_error_as_string_negated :
    (e : ℕ)
    → 28 ≤ e
    → (delta_error_as_string (neg e) ≡ "Unknown error.")
      × (delta_error_as_string (pos e) ≡ delta_text_of e)
unfolding delta_error_as_string
delta_error_as_string_negated e h = ground arith
