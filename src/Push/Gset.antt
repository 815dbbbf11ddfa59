-- ===== src/Push/Gset.antt =====
-- The Golomb coded set of the push diary's digest: mod_http2/h2_push.c.
pub mod Encode
pub mod Decode
pub mod Cells
pub mod Written
pub mod Step
pub mod Code
pub mod Read
pub mod Fuel
pub mod Value
