-- ===== src/Storage/History.antt =====
-- src/storage.rs: the entries of the history file.
use jeangrey.Prelude.{ℕ, List}

pub data HistoryKind : Type 0 where
  sent : (peer : List ℕ) (msg_id : ℕ) (status : List ℕ) → HistoryKind
  received : (peer : List ℕ) (msg_id : ℕ) → HistoryKind
