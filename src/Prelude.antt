-- ===== src/Prelude.antt =====
-- The names that every part of the development shares: those of the libraries, passed on, and
-- those of the children: Boolean tests, results with errors, lists, big-endian integers, maps.
mod Tests
mod Results
mod Lists
mod Bytes
mod Maps
mod Entries
mod Steps
pub use Tests.*
pub use Results.*
pub use Lists.*
pub use Maps.*
pub use Entries.*
pub use Steps.*
pub use Bytes.{IsByte, IsBytes, IsBytes-append, IsBytes-take, IsBytes-drop, codes}
unfoldable pub use Bytes.{to_be_bytes, from_be_bytes}
pub use Bytes.{length-to_be_bytes, from_be_bytes-to_be_bytes, to_be_bytes-from_be_bytes}
pub use Bytes.{IsBytes-to_be_bytes, from_be_bytes-lt}
unfoldable pub use Bytes.{bytes_eq}
pub use Bytes.{bytes_eq→eq, bytes_eq_refl, ne→bytes_eq, bytes_eq→ne}
pub use Prim.Native.Nat.{ℕ, zero, suc, ◌+◌, ◌-◌, ◌*◌, ◌/◌, ◌%◌, ◌^◌, ◌≤◌, ◌<◌}
pub use mathlib.Core.Path.{◌≡◌, refl, sym, ap, ap₂, subst, ◌∙◌}
pub use mathlib.Core.Logic.{◌≢◌, ◌↔◌, ◌⊎◌, inl, inr}
pub use mathlib.Core.Bool.{Bool, true, false, not, ◌&&◌, ◌||◌}
pub use mathlib.Core.Option.{Option, none, some}
pub use mathlib.Core.List.{List, [], ◌∷◌, ◌++◌, map, append-nil, append_assoc}
pub use native.Mathlib.Omega.{arith}
