-- ===== src/Relay.antt =====
-- The relay client of core: wire framing (core/src/relay_frames.rs) and the connection on top of it
-- (core/src/relay.rs).
pub mod Frames
pub mod Url
pub mod Conn
