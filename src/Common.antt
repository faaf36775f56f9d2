-- ===== src/Common.antt =====
-- The names that the modules of the program's parts share, passed on from the libraries and from
-- the modules of `Prelude`.
pub use Prim.Native.Nat.{ℕ, zero, suc, ◌+◌, ◌-◌, ◌*◌, ◌/◌, ◌%◌, ◌^◌, ◌≤◌, ◌<◌}
pub use mathlib.Core.Path.{◌≡◌, refl, sym, ap, ◌∙◌, subst}
pub use mathlib.Core.Logic.{◌≢◌, ◌↔◌, ◌⊎◌, inl, inr}
pub use mathlib.Core.Bool.{Bool, true, false, not, ◌&&◌, ◌||◌}
pub use mathlib.Core.Option.{Option, none, some}
pub use mathlib.Core.List.{List, [], ◌∷◌, ◌++◌, map}
pub use native.Mathlib.Omega.{arith}
pub use openiotrsp.Prelude.Tests.{
  ltb, leb, nat_eq, nat_eq_iff, if◌then◌else◌, if_keeps, and_true, Bool-cases, Option-cases,
}
pub use openiotrsp.Prelude.Lists.{length, take, drop, All, length-append, length-take, length-drop}
pub use openiotrsp.Prelude.Equality.{
  Comparable, ◌==◌, Bytes, ascii, eq_nat, eq_bytes, beq_refl, bytes_eq_iff,
}
unfoldable pub use openiotrsp.Prelude.Equality.{bytes_eq}
pub use openiotrsp.Prelude.Pairs.{AllPairs}
pub use openiotrsp.Prelude.Int64.{Int64}
unfoldable pub use openiotrsp.Prelude.Int64.{inc64, gt64}
pub use openiotrsp.Prelude.Dict.{
  Dict, lookup-insert, lookup-delete, HasDistinctKeys, insert-HasDistinctKeys,
  delete-HasDistinctKeys,
}
unfoldable pub use openiotrsp.Prelude.Dict.{lookup, insert, delete}
unfoldable pub use openiotrsp.Prelude.Dict.Entries.{values_where, first_where}
pub use openiotrsp.Prelude.Action.{
  Error, not_found, signature_invalid, transaction_mismatch, counter_mismatch, result_not_found,
  on_ok, on_ok_keeps, after_keeps, after, context_error, invalid_input, encoding_error, Result, ok,
  err, Context, Action, pure, fail, lift, unless, checked, checked_keeps, ◌>>=◌, ◌>>◌,
}
