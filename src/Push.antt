-- ===== src/Push.antt =====
-- Server push, mod_http2/h2_push.c: Link headers, the diary of what was pushed, and its digest.
pub mod Diary
pub mod Order
pub mod Update
pub mod Forgotten
pub mod Link
pub mod Collect
pub mod Gset
pub mod Digest
pub mod Examples
