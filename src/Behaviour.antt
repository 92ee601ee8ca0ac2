-- ===== src/Behaviour.antt =====
-- src/transport.rs: `SessionBehaviour`, which keeps one handshake for each connection and one session for each
-- device. A `HashMap` is an association list, so that where the source iterates over one the order is the
-- list's. What a call draws at random or reads from the clock is an argument; `none` is a panic.
pub mod State
pub mod Send
pub mod Receive
pub mod Swarm
pub mod Acknowledge
pub mod Drop
