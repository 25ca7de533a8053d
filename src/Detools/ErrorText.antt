-- ===== src/Detools/ErrorText.antt =====
-- `detools_error_as_string` of app/src/detools/detools.c.
use Prim.Native.String.{String}
use delta_updates_for_embedd.Common.{ℕ, ◌+◌, ◌==◌, if◌then◌else◌, ℤ, pos_part, neg_part}
use delta_updates_for_embedd.Detools.Codes.{
  not_implemented, not_done, bad_patch_type, bad_compression, internal_error, out_of_memory,
  corrupt_patch, io_failed, already_done, short_header, not_enough_patch_data, heatshrink_sink,
  heatshrink_poll, step_set_failed, step_get_failed, already_failed, corrupt_patch_overflow,
  heatshrink_header,
}

-- `if (error < 0) error *= -1;`
abbrev pub magnitude : ℤ → ℕ
magnitude error = pos_part error + neg_part error

-- The `switch` on the magnitude of the error.
unfoldable pub text_of : ℕ → String
text_of e =
    if e == not_implemented
    then "Function not implemented."
    else if e == not_done
    then "Not done."
    else if e == bad_patch_type
    then "Bad patch type."
    else if e == bad_compression
    then "Bad compression."
    else if e == internal_error
    then "Internal error."
    else if e == out_of_memory
    then "Out of memory."
    else if e == corrupt_patch
    then "Corrupt patch."
    else if e == io_failed
    then "Input/output failed."
    else if e == already_done
    then "Already done."
    else if e == short_header
    then "Short header."
    else if e == not_enough_patch_data
    then "Not enough patch data."
    else if e == heatshrink_sink
    then "Heatshrink sink."
    else if e == heatshrink_poll
    then "Heatshrink poll."
    else if e == step_set_failed
    then "Step set failed."
    else if e == step_get_failed
    then "Step get failed."
    else if e == already_failed
    then "Already failed."
    else if e == corrupt_patch_overflow
    then "Corrupt patch, overflow."
    else if e == heatshrink_header
    then "Heatshrink header."
    else "Unknown error."

unfoldable pub detools_error_as_string : ℤ → String
unfolding text_of
detools_error_as_string error = text_of (magnitude error)
