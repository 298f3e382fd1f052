-- ===== src/Tlv.antt =====
-- Tag-length-value payloads: protocol/src/rbp_tlv.c and protocol/include/rbp/tlv.h.
pub mod Writer
pub mod Reader
pub mod Utf8
pub mod Getters
pub mod RoundTrip
pub mod Values
mod Tests
