-- ===== src/Detools/Codes.antt =====
-- The error codes of app/src/detools/detools.h. The code returns them negated.
use delta_updates_for_embedd.Common.{ℕ}

abbrev pub not_implemented : ℕ
not_implemented = 1

abbrev pub not_done : ℕ
not_done = 2

abbrev pub bad_patch_type : ℕ
bad_patch_type = 3

abbrev pub bad_compression : ℕ
bad_compression = 4

abbrev pub internal_error : ℕ
internal_error = 5

abbrev pub out_of_memory : ℕ
out_of_memory = 8

abbrev pub corrupt_patch : ℕ
corrupt_patch = 9

abbrev pub io_failed : ℕ
io_failed = 10

abbrev pub already_done : ℕ
already_done = 11

abbrev pub short_header : ℕ
short_header = 18

abbrev pub not_enough_patch_data : ℕ
not_enough_patch_data = 19

abbrev pub heatshrink_sink : ℕ
heatshrink_sink = 20

abbrev pub heatshrink_poll : ℕ
heatshrink_poll = 21

abbrev pub step_set_failed : ℕ
step_set_failed = 22

abbrev pub step_get_failed : ℕ
step_get_failed = 23

abbrev pub already_failed : ℕ
already_failed = 24

abbrev pub corrupt_patch_overflow : ℕ
corrupt_patch_overflow = 25

abbrev pub heatshrink_header : ℕ
heatshrink_header = 27
