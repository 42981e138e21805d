-- ===== src/SchemaCmp/Map.antt =====
-- `latticeMap` of pkg/schemacmp/lattice.go with the column and index maps of table.go. Go leaves the
-- order of a map's entries open; here it is that of the list.
use Prim.Native.Nat.{Ordering}
use mathlib.Core.Option
use tidb_tools.Prelude.{String, Bool, true, false, [], ◌∷◌, ◌++◌, Option, none, some, if◌then◌else◌}
use tidb_tools.Prelude.Dict.{Dict, lookup, insert}
use tidb_tools.SchemaCmp.Data.{
  Value, Lattice, Tuple, tuple, typ, maybe, singleton, at_map_key, column_without_default, panicked,
  Result, ok, err, ◌>>=◌, Mysql,
}
use tidb_tools.SchemaCmp.Leaf.{lt, eq, gt}
use tidb_tools.SchemaCmp.Order.{flip}
use tidb_tools.SchemaCmp.Lattice.{compare, join, combine, get}
use tidb_tools.SchemaCmp.Column.{
  has_default, set_entry, set_flag_for_missing_column, is_not_null, get_standard_default_value,
}

-- The methods of `LatticeMap` that differ between the two kinds of map.
pub record LatticeMap : Type 0 where
  pub compare_with_nil : Lattice → Result Ordering
  pub join_with_nil : Lattice → Result (Option Lattice)
  pub should_delete_incompatible_join : Bool

-- `wrapMapKeyError`
abbrev pub wrap_key {ℓ} : {A : Type ℓ} → String → Result A → Result A
wrap_key k (ok a) = ok a
wrap_key k (err e) = err (at_map_key k e)

-- What `iter` hands to its action: the two values, or the one that is there.
pub data Visit : Type 0 where
  both : Lattice → Lattice → Visit
  left right : Lattice → Visit

abbrev pub visit_left : Lattice → Option Lattice → Visit
visit_left av none = left av
visit_left av (some bv) = both av bv

unfoldable pub visits_left : Dict Lattice → Dict Lattice → Dict Visit
unfolding lookup
visits_left [] b = []
visits_left ((k, av) ∷ a) b = (k, visit_left av (lookup k b)) ∷ visits_left a b

abbrev pub visit_right : String → Lattice → Option Lattice → Dict Visit → Dict Visit
visit_right k bv none vs = (k, right bv) ∷ vs
visit_right k bv (some av) vs = vs

unfoldable pub visits_right : Dict Lattice → Dict Lattice → Dict Visit
unfolding lookup
visits_right a [] = []
visits_right a ((k, bv) ∷ b) = visit_right k bv (lookup k a) (visits_right a b)

unfoldable pub iter : Dict Lattice → Dict Lattice → Dict Visit
unfolding visits_left visits_right
iter a b = visits_left a b ++ visits_right a b

abbrev pub negated : Result Ordering → Result Ordering
negated (ok o) = ok (flip o)
negated (err e) = err e

module _ (m : Mysql) (lm : LatticeMap) where
  unfoldable pub compare_visit : Visit → Result Ordering
  compare_visit (both av bv) = compare m av bv
  compare_visit (left av) = lm.compare_with_nil av
  compare_visit (right bv) = negated (lm.compare_with_nil bv)

  unfoldable pub compare_visits : Ordering → Dict Visit → Result Ordering
  unfolding compare_visit combine
  compare_visits result [] = ok result
  compare_visits result ((k, v) ∷ vs) = do
    cmp_res ← wrap_key k (compare_visit v)
    result' ← wrap_key k (combine result cmp_res)
    compare_visits result' vs

  -- `latticeMap.Compare`
  unfoldable pub compare_map : Dict Lattice → Dict Lattice → Result Ordering
  unfolding compare_visits iter
  compare_map a b = compare_visits eq (iter a b)

  abbrev pub present : Result Lattice → Result (Option Lattice)
  present r = r >>= λ j. ok (some j)

  unfoldable pub join_visit : Visit → Result (Option Lattice)
  join_visit (both av bv) = present (join m av bv)
  join_visit (left av) = lm.join_with_nil av
  join_visit (right bv) = lm.join_with_nil bv

  -- what the action of `Join` does with the result for a key
  abbrev pub put_join : Dict Lattice → String → Result (Option Lattice) → Result (Dict Lattice)
  put_join result k (err e) =
      if lm.should_delete_incompatible_join then ok result else err (at_map_key k e)
  put_join result k (ok none) = ok result
  put_join result k (ok (some j)) = ok (insert k j result)

  unfoldable pub join_visits : Dict Lattice → Dict Visit → Result (Dict Lattice)
  unfolding join_visit insert
  join_visits result [] = ok result
  join_visits result ((k, v) ∷ vs) =
      put_join result k (join_visit v) >>= λ result'. join_visits result' vs

  -- `latticeMap.Join`
  unfoldable pub join_map : Dict Lattice → Dict Lattice → Result (Dict Lattice)
  unfolding join_visits iter
  join_map a b = join_visits [] (iter a b)

-- `value.(Tuple)[columnInfoTupleIndexFieldTypes].(typ)`
abbrev pub as_typ : Option Lattice → Option Tuple
as_typ (some (typ ty)) = some ty
as_typ _ = none

abbrev pub column_type : Lattice → Option Tuple
column_type (tuple col) = as_typ (get col 3)
column_type _ = none

abbrev pub by_default : Option Bool → Result Ordering
by_default none = err panicked
by_default (some true) = ok gt
by_default (some false) = err column_without_default

abbrev pub column_has_default : Lattice → Option Bool
column_has_default value = elim (column_type value) [ none ↦ none | some ty ↦ has_default ty ]

unfoldable pub column_compare_with_nil : Lattice → Result Ordering
unfolding has_default
column_compare_with_nil value = by_default (column_has_default value)

module _ (m : Mysql) where
  -- The column with its adjusted type, and with a default value where its type had none and is not
  -- null.
  abbrev pub joined_with : Tuple → Tuple → Bool → Option Bool → Option Tuple
  joined_with col ty true none = none
  joined_with col ty true (some true) =
      Option.map (λ s. set_entry (set_entry col 0 (maybe (singleton (Value.string s)))) 3 (typ ty))
        (get_standard_default_value m ty)
  joined_with col ty _ _ = some (set_entry col 3 (typ ty))

  abbrev pub joined_column : Tuple → Tuple × Bool → Option Tuple
  joined_column col (ty, had_no_default) = joined_with col ty had_no_default (is_not_null ty)

  abbrev pub or_panic : Option Tuple → Result (Option Lattice)
  or_panic none = err panicked
  or_panic (some col) = ok (some (tuple col))

  abbrev pub joined_flagged : Tuple → Option (Tuple × Bool) → Option Tuple
  joined_flagged col none = none
  joined_flagged col (some r) = joined_column col r

  abbrev pub joined_typ : Tuple → Option Tuple → Option Tuple
  joined_typ col none = none
  joined_typ col (some ty) = joined_flagged col (set_flag_for_missing_column m ty)

  unfoldable pub column_join_with_nil : Lattice → Result (Option Lattice)
  unfolding set_entry set_flag_for_missing_column is_not_null get_standard_default_value
  column_join_with_nil (tuple col) = or_panic (joined_typ col (as_typ (get col 3)))
  column_join_with_nil _ = err panicked

  -- `columnMap`
  unfoldable pub column_map : LatticeMap
  column_map = record {
    compare_with_nil = column_compare_with_nil;
    join_with_nil = column_join_with_nil;
    should_delete_incompatible_join = false;
  }

-- `indexMap`
unfoldable pub index_map : LatticeMap
index_map = record {
  compare_with_nil = λ value. ok lt;
  join_with_nil = λ value. ok none;
  should_delete_incompatible_join = true;
}
