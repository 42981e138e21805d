-- ===== src/SchemaCmp/MapTests.antt =====
-- Runs of the column and index maps, and the theorems at concrete inputs.
use tidb_tools.Prelude.{
  String, ◌≡◌, refl, ◌↔◌, true, false, [], ◌∷◌, some, ◌==◌, ◌||◌, All, if◌then◌else◌,
}
use tidb_tools.Prelude.Int.{pos}
use tidb_tools.SchemaCmp.Data.{
  Value, Lattice, Tuple, ok, err, at_map_key, column_without_default, Mysql, number, other,
}
use tidb_tools.SchemaCmp.Leaf.{gt}
use tidb_tools.SchemaCmp.Order.{Le}
use tidb_tools.SchemaCmp.Map.{
  compare_map, join_map, column_map, column_has_default, column_compare_with_nil,
  column_join_with_nil,
}
use tidb_tools.SchemaCmp.MapOrder.{ColumnIn, ColumnKnown, compare_map-columns}
use tidb_tools.SchemaCmp.Missing.{column_join_with_nil-default}

abbrev mysql : Mysql
mysql = record {
  is_integer_type = λ a. a == 1 || a == 2 || a == 3 || a == 8 || a == 9;
  is_type_blob = λ a. a == 249 || a == 250 || a == 251 || a == 252;
  auto_increment_flag = 512;
  no_default_value_flag = 4096;
  kind = λ a. if a == 3 then number else other;
  collation_bin = "binary";
}

infixr 5 ◌▸◌
abbrev ◌▸◌ : Lattice → Tuple → Tuple
a ▸ as_ = Tuple.cons a as_

abbrev text : String → Lattice
text s = Lattice.singleton (Value.string s)

-- An INT column that is not null, with the given entry for its default value's flags.
abbrev int_column : Lattice → Lattice → Lattice
int_column def_val default = Lattice.tuple (
    default
    ▸ text ""
    ▸ Lattice.singleton (Value.bool false)
    ▸ Lattice.typ (
        Lattice.field_tp 3
        ▸ Lattice.int (pos 11)
        ▸ Lattice.int (pos 0)
        ▸ Lattice.singleton (Value.uint 0)
        ▸ Lattice.bool false
        ▸ Lattice.byte 255
        ▸ def_val
        ▸ text "binary"
        ▸ text "binary"
        ▸ Lattice.string_list []
        ▸ Tuple.nil)
    ▸ Tuple.nil)

abbrev no_default : Lattice
no_default = int_column Lattice.maybe_nil Lattice.maybe_nil

abbrev zero_default : Lattice
zero_default =
    int_column (Lattice.maybe (Lattice.singleton (Value.uint 0))) (Lattice.maybe (text "0"))

-- The column that one table misses is joined to one with the default value 0.
join_map_runs :
    join_map mysql (column_map mysql) (("a", no_default) ∷ []) [] ≡ ok (("a", zero_default) ∷ [])
unfolding join_map column_map column_join_with_nil
join_map_runs = refl

-- A column with no default value may not be missing.
compare_map_runs :
    compare_map mysql (column_map mysql) (("a", no_default) ∷ []) []
    ≡ err (at_map_key "a" column_without_default)
unfolding compare_map column_map column_compare_with_nil
compare_map_runs = refl

compare_map-columns_example :
    Le (compare_map mysql (column_map mysql) [] (("a", zero_default) ∷ []))
    ↔ All (ColumnIn mysql (("a", zero_default) ∷ [])) []
      × All (ColumnKnown mysql []) (("a", zero_default) ∷ [])
compare_map-columns_example = compare_map-columns mysql [] (("a", zero_default) ∷ [])

abbrev an_index : Lattice
an_index = Lattice.tuple (
    Lattice.equality_singleton (record { col_name = "a"; length = pos 4 } ∷ [])
    ▸ Lattice.bool true
    ▸ Lattice.bool true
    ▸ Tuple.nil)

column_join_with_nil-default_example :
    (column_has_default zero_default ≡ some true) × (column_compare_with_nil zero_default ≡ ok gt)
unfolding column_join_with_nil
column_join_with_nil-default_example =
    column_join_with_nil-default mysql no_default zero_default refl
