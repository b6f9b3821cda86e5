-- ===== src/Endpoint.antt =====
-- The endpoint component (endpoint/src): addresses and errors, the shared state and its operations.
pub mod Types
pub mod Wires
pub mod Noq
pub mod State
pub mod Inbound
pub mod Waiting
pub mod Connection
pub mod Streams
pub mod Dial
pub mod Pump
pub mod Lasting
pub mod Udp
pub mod Webrtc
mod Toy
mod WireExamples
mod StateExamples
mod ResourceExamples
mod LastingExamples
