-- ===== src/Storage.antt =====
-- src/storage.rs: what the data directory holds.
pub mod History
pub mod Directory
pub mod RoundTrip
