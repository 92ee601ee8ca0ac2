-- ===== src/Tests.antt =====
-- Runs of the model at concrete inputs, and each property at one of them.
mod Toy
mod Wire
mod Sessions
mod Handshakes
mod Published
mod Streams
mod Behaviours
mod Connected
mod Nodes
mod Searches
mod Meetings
mod Stored
mod Swarms
