-- ===== src/Util.antt =====
-- The containers of mod_http2/h2_util.c.
pub mod IQueue
pub mod Fifo
pub mod IFifo
pub mod Log2
pub mod Camel
pub mod Base64
pub mod Examples
