-- ===== src/Handshake.antt =====
-- src/handshake.rs: the authenticated key exchange. `Hello` has the hello payload, `Transcript` what
-- both sides hash and derive, `Machine` the state machine; the other modules hold the proofs.
pub mod Hello
pub mod Transcript
pub mod Machine
pub mod Stages
pub mod Steps
pub mod Authentic
pub mod Stalled
pub mod RoundTrip
pub mod Agreement
pub mod Exchange
pub mod Honest
pub mod Liveness
pub mod Completes
