-- ===== src/Lib.antt =====
-- The delta updates of app/src: a device holds a patch in its storage partition, applies it to the
-- running image in the primary slot, writes the new image to the secondary slot, and asks the
-- bootloader to swap them.
--
-- The parts, and how they call each other:
--
-- * app/src/main.c sets up the LED and the button, and calls `delta_check_and_apply` after a press.
--   App models it: `config_devices`, `main_round` for one round of the loop, `main_loop` and `main`.
--   What the GPIO calls return is an argument. The loop is without end, so that `main_loop` runs it
--   over a list of rounds, each with what it meets.
-- * app/src/delta/delta.c reads the patch header, sets up `struct flash_mem`, and runs the patch
--   applier with its four flash callbacks. Delta.Update models the header and
--   `delta_check_and_apply`, Delta.Flash the callbacks and the set-up, Delta.ErrorText and
--   Delta.Codes the errors. Delta.Platform is what is taken from Zephyr and MCUboot: the flash
--   driver, the request for the upgrade and the partitions are parameters, and what the driver
--   documents is stated as laws. The pointer to `struct flash_mem` is not null.
-- * app/src/detools applies a sequential patch. Detools.Chunk is the chunk of patch data and the size
--   of the patch header; Detools.Reader the decompressed stream and the sizes in it; Detools.Apply
--   the state machine, one function for each `process_...` function and `process_once` for
--   `apply_patch_process_once`; Detools.Run the loops around it and the entry points
--   `detools_apply_patch_...`; Detools.ErrorText and Detools.Codes the errors. `self_p` is a record,
--   given and returned; so is what `arg_p` points to.
-- * app/src/heatshrink is a copy of another project. Detools.Decoder has its operations as a
--   parameter, with records of laws: what a poll returns (PollLaws), that the decoder holds finitely
--   many bytes of output (FiniteOutput), and, in Detools.Inflate, that it is an inflating one, which
--   turns each byte of input into bytes of output, to be polled in any portions (InflateLaws).
--
-- What a patch is meant to do is in Detools.Format, apart from the code: the rounds of a patch, the
-- stream that holds them, the patch around it, and the target that they make of a source. Its
-- modules follow the state machine through a patch of the format: Format.Matches has how far it has
-- come, Format.Steps and Format.Seeks each step, Format.Loops, Format.Reads and Format.Ends the
-- loops, Format.First the chunk with the header, and Format.Processed and Format.Refines the whole,
-- for a patch that is there as a whole or is cut short. The input that is still to come is an
-- argument of these (`later`, `missing`), so that they do not depend on how it comes. Format.Feed
-- has the calls of `detools_apply_patch_process` on one chunk after another, with
-- `detools_apply_patch_finalize` behind them, as the comments of app/src/detools/detools.h
-- prescribe them to a client, and Format.Fed the patch that is given so, Format.Short a first chunk
-- that is too short for the header; Format.Resumes and Format.Resumed put a dump and a restore
-- between two chunks, with the client's storage as a parameter (StorageLaws). The callbacks are
-- there by what they promise (ImageLaws of Format.Images): a source that is read by offsets, a
-- target that is written behind what is there, a patch that is read from the front.
-- Delta.Update.Images has the flash callbacks as such images, for a target in the first two pages
-- of the secondary slot, Delta.Update.Whole is about the update from the header to the restart, and
-- Delta.Update.Cut about one on a patch that is cut short. App.Pressed and App.Updates join both to
-- the main loop, from the start of `main` on. App.Failures is about a driver that fails in front of
-- the patch. The bound of two pages comes from the code's count of the bytes of a page, which
-- Delta.Tests.Lost runs past it. Delta.Update.Primary is about patches of any form, and about what a
-- run can touch.
--
-- Below each of these stand the modules of its theorems. Common has the shared names: lists measured
-- by native numbers, signed integers, words of 32 bits. Detools.Stored and Delta.Ram are a decoder,
-- callbacks and a platform for examples, and the modules Tests have runs and examples.
--
-- Widths: `int`, `size_t` and `uint32_t` have 32 bits. An `int` of the reader and of the patch
-- applier is its 32-bit pattern (`neg32`, `signed32`); sums and differences of `size_t` wrap
-- (`add32`, `sub32`). The sums of `from_current`, which seeks move back and forth, are those
-- of an `off_t` of 32 bits and wrap (`add_off`); the other offsets of the flash stay near the
-- partitions and do not wrap.
--
-- Loops: the loop over a chunk's bytes is structural. The loop of `patch_reader_unpack_size` has six
-- rounds, which are enough from any state, since the overflow test ends it. The loops of the state
-- machine run on fuel and return `none` where it runs out; the theorems on their ends give the fuel
-- that is enough, from the bytes that the chunk and the decoder can still yield. For a whole patch,
-- a round for every 512 bytes and twice the bytes that it can yield, and two, are enough.
--
-- Not modelled: the heatshrink decoder's own code, the scripts on the host, the build files, and the
-- declarations of detools.h for in-place patches and crle, which nothing uses.
pub mod Common
pub mod Detools
pub mod Delta
pub mod App
