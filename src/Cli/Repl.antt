-- ===== src/Cli/Repl.antt =====
-- src/cli.rs: the reading of an interactive line. The line comes trimmed.
use jeangrey.Prelude.{ℕ, Option, some, none, List, [], ◌∷◌, ◌||◌, bytes_eq, codes, if◌then◌else◌}
use jeangrey.Crates.{Crates}
use jeangrey.Node.State.{split_once}

pub data ReplCommand (c : Crates) : Type 0 where
  quit peers help nothing unknown : ReplCommand c
  lookup : c.PeerId → ReplCommand c
  send : c.PeerId → (text : List ℕ) → ReplCommand c
  invalid_peer : (text : List ℕ) → ReplCommand c

-- `splitn(3, ' ')`: the first part and, if there are any, the second and the third.
abbrev pub parts_of : List ℕ → List ℕ × (Option (List ℕ) × Option (List ℕ))
parts_of line = elim (split_once 32 line) [
  | none ↦ (line, (none, none))
  | some (first, rest) ↦ elim (split_once 32 rest) [
    | none ↦ (first, (some rest, none))
    | some (second, third) ↦ (first, (some second, some third))
  ]
]

module _ (c : Crates) where
  abbrev pub with_peer : List ℕ → (c.PeerId → ReplCommand c) → ReplCommand c
  with_peer text command = elim (c.peer_from_str text) [
    | none ↦ invalid_peer text
    | some peer ↦ command peer
  ]

  abbrev pub on_word : List ℕ → Option (List ℕ) → Option (List ℕ) → ReplCommand c
  on_word word second third =
      let looked : ReplCommand c = elim second [
        | none ↦ unknown
        | some text ↦ with_peer text lookup
      ] in
      let sent : ReplCommand c = elim second [
        | none ↦ unknown
        | some text ↦ elim third [
          | none ↦ unknown
          | some body ↦ with_peer text (λ peer. send peer body)
        ]
      ] in
      if bytes_eq word (codes "quit") || bytes_eq word (codes "exit")
      then quit
      else (if bytes_eq word (codes "peers")
          then peers
          else (if bytes_eq word (codes "lookup")
              then looked
              else (if bytes_eq word (codes "send")
                  then sent
                  else (if bytes_eq word (codes "help") then help else unknown))))

  unfoldable pub read_line : List ℕ → ReplCommand c
  read_line [] = nothing
  read_line (b ∷ line) = let parts = parts_of (b ∷ line) in on_word parts.0 parts.1.0 parts.1.1
