-- ===== src/Delta/Codes.antt =====
-- The constants and error codes of app/src/delta/delta.h. The code returns the errors negated.
use delta_updates_for_embedd.Common.{ℕ}

abbrev pub header_size : ℕ
header_size = 0x8

abbrev pub page_size : ℕ
page_size = 0x1000

abbrev pub slot1_out_of_memory : ℕ
slot1_out_of_memory = 28

abbrev pub reading_patch_error : ℕ
reading_patch_error = 29

abbrev pub reading_source_error : ℕ
reading_source_error = 30

abbrev pub writing_error : ℕ
writing_error = 31

abbrev pub seeking_error : ℕ
seeking_error = 32

abbrev pub casting_error : ℕ
casting_error = 33

abbrev pub invalid_buf_size : ℕ
invalid_buf_size = 34

abbrev pub clearing_error : ℕ
clearing_error = 35

abbrev pub no_flash_found : ℕ
no_flash_found = 36

abbrev pub patch_header_error : ℕ
patch_header_error = 37
