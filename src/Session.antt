-- ===== src/Session.antt =====
-- src/session.rs: one established session with a peer. `State` has its fields, `Plaintext` what is
-- sealed into a frame and how it is read, `Frames` the methods; the other modules hold the proofs.
pub mod State
pub mod Establish
pub mod Plaintext
pub mod Frames
pub mod Channel
pub mod Parse
pub mod Delivery
pub mod Replay
pub mod Nonces
