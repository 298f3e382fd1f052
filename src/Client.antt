-- ===== src/Client.antt =====
-- The decoder of the C client: client/c/ima_decoder.c and client/c/rbp_decoder.c.
pub mod Ima
pub mod Decoder
mod Tests
