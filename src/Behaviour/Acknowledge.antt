-- ===== src/Behaviour/Acknowledge.antt =====
-- src/transport.rs: a message that arrives is reported once and acknowledged, and its sender takes the
-- acknowledgement.
use jeangrey.Crates.{Crates}
use jeangrey.Session.State.{Session}
use jeangrey.Behaviour.State.{Behaviour}
