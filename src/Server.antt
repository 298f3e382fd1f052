-- ===== src/Server.antt =====
-- The product server: firmware/product/rbp_server.c and firmware/product/rbp_server.h.
pub mod Codes
mod Tests
pub mod Ring
pub mod State
pub mod Output
pub mod Slots
pub mod Put
pub mod Control
pub mod KeyQueue
pub mod Events
pub mod Media
pub mod Flush
pub mod Voice
pub mod Radio
pub mod Tick
pub mod Requests
pub mod Dispatch
pub mod Frames
pub mod Init
