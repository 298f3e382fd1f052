-- ===== src/Wire.antt =====
-- The frame layer: protocol/src/rbp_frame.c and protocol/include/rbp/frame.h.
pub mod Cobs
pub mod Crc
pub mod Header
pub mod Frame
pub mod Receiver
mod Tests
