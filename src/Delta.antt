-- ===== src/Delta.antt =====
-- app/src/delta: the flash callbacks that the patch applier is given, the patch header, and the
-- update as a whole.
pub mod Ram
pub mod Tests
pub mod Codes
pub mod ErrorText
pub mod Platform
pub mod Flash
pub mod Update
