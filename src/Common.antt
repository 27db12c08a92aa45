-- ===== src/Common.antt =====
-- The names that the other modules share: the libraries', passed on, and those of the children.
pub mod Tests
pub mod Lists
pub mod Outcome
pub mod Bytes
pub mod Sets
pub mod Words
pub mod Redb
pub use Tests.*
pub use Outcome.*
pub use Redb.{Table, keys}
unfoldable pub use Redb.{assoc_table}
unfoldable pub use Sets.{set_insert, to_set, keep, insert_sorted, sort, bytes_leb}
pub use Sets.{
  Nodup, contains-append, Nodup-snoc, contains-set_insert, set_insert-Nodup, contains-to_set,
  to_set-Nodup, contains-keep, keep-Nodup, IsSorted, sort-IsSorted, length-insert_sorted,
  length-sort, contains-insert_sorted, contains-sort, sort-Nodup, bytes_leb_total,
}
pub use Lists.*
unfoldable pub use Bytes.{le_bytes, from_le, is_utf8}
pub use Bytes.{
  IsByte, length-le_bytes, le_bytes-IsByte, from_le-le_bytes, from_le-lt, le_bytes-from_le,
}
pub use Prim.Native.Nat.{ℕ, zero, suc, ◌+◌, ◌-◌, ◌*◌, ◌/◌, ◌%◌, ◌^◌, ◌≤◌, ◌<◌, min}
pub use mathlib.Core.Path.{◌≡◌, refl, sym, ap, ◌∙◌, ◌≡⟨◌⟩◌, ◌∎}
pub use mathlib.Core.Logic.{◌≢◌, ◌↔◌, ◌⊎◌, inl, inr}
pub use mathlib.Core.Bool.{Bool, true, false, not, ◌&&◌, ◌||◌}
pub use mathlib.Core.Option.{Option, none, some}
pub use mathlib.Core.List.{List, [], ◌∷◌, ◌++◌, map, append-nil, append_assoc}
pub use native.Mathlib.Omega.{arith}
