-- ===== src/Cli.antt =====
-- src/cli.rs: the commands that work on the data directory, the options of a node and the interactive lines.
pub mod Options
pub mod Init
pub mod Repl
pub mod Created
