-- ===== src/Detools.antt =====
-- app/src/detools: the sequential patch applier. The chunk of patch data, the reader of the
-- decompressed stream, the state machine over it and the loops that drive it.
pub mod Stored
pub mod Tests
pub mod Codes
pub mod ErrorText
pub mod Chunk
pub mod Decoder
pub mod Reader
pub mod Apply
pub mod Inflate
pub mod Format
pub mod Run
