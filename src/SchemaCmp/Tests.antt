-- ===== src/SchemaCmp/Tests.antt =====
-- Runs of the lattice operations, and the theorems at concrete inputs.
use tidb_tools.Prelude.{◌≡◌, refl, true, false, [], ◌||◌, ◌==◌, arith, ◌↔◌}
use tidb_tools.Prelude.Int.{pos}
use tidb_tools.SchemaCmp.Data.{
  Value, Lattice, Tuple, ok, err, at_tuple_index, auto_type_without_key, contradicting_orders,
  Mysql, number,
}
use tidb_tools.SchemaCmp.Leaf.{
  lt, eq, gt, compare_mysql_integer_type, compare_bool, compare_int, join_bool, join_uint, join_int,
  join_singleton, compare_string_list, join_string_list, compare_field_tp, join_field_tp, value_eq,
  elem_mismatch,
}
use tidb_tools.SchemaCmp.Lattice.{compare, join, auto_without_key}
use tidb_tools.SchemaCmp.Order.{Le}
use tidb_tools.SchemaCmp.FieldTp.{IsMysql}
use tidb_tools.SchemaCmp.AtMost.{AtMost}
use tidb_tools.SchemaCmp.Partial.{compare_iff-AtMost}
use tidb_tools.SchemaCmp.Bounds.{join_comm, join-IsLub}
use tidb_tools.SchemaCmp.Antisym.{compare-flip, compare-eq_iff, compare_trans}

-- The tests of the parser, by the types that they accept.
abbrev mysql : Mysql
mysql = record {
  is_integer_type = λ a. a == 1 || a == 2 || a == 3 || a == 8 || a == 9;
  is_type_blob = λ a. a == 249 || a == 250 || a == 251 || a == 252;
  auto_increment_flag = 512;
  no_default_value_flag = 4096;
  kind = λ a. number;
  collation_bin = "binary";
}

mysql-IsMysql : IsMysql mysql
mysql-IsMysql = record { integers = λ a h. ground arith; blobs = λ a h. ground arith }

infixr 5 ◌▸◌
abbrev ◌▸◌ : Lattice → Tuple → Tuple
a ▸ as_ = Tuple.cons a as_

-- An `INT` column that may be null, against a `BIGINT` column that may not.
abbrev int_column : Lattice
int_column =
    Lattice.tuple (Lattice.field_tp 3 ▸ Lattice.bool true ▸ Lattice.int (pos 11) ▸ Tuple.nil)

abbrev bigint_column : Lattice
bigint_column =
    Lattice.tuple (Lattice.field_tp 8 ▸ Lattice.bool false ▸ Lattice.int (pos 11) ▸ Tuple.nil)

abbrev wide_column : Lattice
wide_column =
    Lattice.tuple (Lattice.field_tp 8 ▸ Lattice.bool true ▸ Lattice.int (pos 20) ▸ Tuple.nil)

abbrev joined_column : Lattice
joined_column =
    Lattice.tuple (Lattice.field_tp 8 ▸ Lattice.bool true ▸ Lattice.int (pos 11) ▸ Tuple.nil)

-- They are not ordered.
compare_runs :
    compare mysql int_column bigint_column ≡ err (at_tuple_index 1 (contradicting_orders lt gt))
unfolding compare compare_field_tp compare_bool compare_mysql_integer_type
compare_runs = refl

join_runs : join mysql int_column bigint_column ≡ ok joined_column
unfolding join join_field_tp join_bool join_int compare_mysql_integer_type
join_runs = refl

at_most_wide : compare mysql bigint_column wide_column ≡ ok lt
unfolding compare compare_field_tp compare_bool compare_int compare_mysql_integer_type
at_most_wide = refl

int_at_most_wide : compare mysql int_column wide_column ≡ ok lt
unfolding compare compare_field_tp compare_bool compare_int compare_mysql_integer_type
int_at_most_wide = refl

at_most_joined : compare mysql int_column joined_column ≡ ok lt
unfolding compare compare_field_tp compare_bool compare_int compare_mysql_integer_type
at_most_joined = refl

-- A column with `AUTO_INCREMENT` that is no key is refused.
abbrev auto_column : Lattice
auto_column = Lattice.typ (
    Lattice.field_tp 3
    ▸ Lattice.int (pos 11)
    ▸ Lattice.int (pos 0)
    ▸ Lattice.singleton (Value.uint 0)
    ▸ Lattice.bool true
    ▸ Lattice.byte 255
    ▸ Lattice.maybe (Lattice.singleton (Value.uint 512))
    ▸ Lattice.singleton (Value.string "utf8mb4")
    ▸ Lattice.singleton (Value.string "utf8mb4_bin")
    ▸ Lattice.string_list []
    ▸ Tuple.nil)

join_refuses : join mysql auto_column auto_column ≡ err auto_type_without_key
unfolding join join_field_tp join_bool join_int join_uint join_singleton join_string_list
    compare_string_list elem_mismatch value_eq auto_without_key
join_refuses = refl

compare_iff-AtMost_example :
    Le (compare mysql int_column wide_column) ↔ AtMost mysql int_column wide_column
compare_iff-AtMost_example = compare_iff-AtMost mysql int_column wide_column

join_comm_example :
    (join mysql int_column bigint_column ≡ ok joined_column)
    ↔ (join mysql bigint_column int_column ≡ ok joined_column)
join_comm_example = join_comm mysql mysql-IsMysql int_column bigint_column joined_column

join-IsLub_example :
    Le (compare mysql int_column joined_column)
    × Le (compare mysql bigint_column joined_column)
    × ((c : Lattice)
        → Le (compare mysql int_column c)
        → Le (compare mysql bigint_column c)
        → Le (compare mysql joined_column c))
join-IsLub_example = join-IsLub mysql mysql-IsMysql int_column bigint_column joined_column join_runs

compare-flip_example : compare mysql wide_column int_column ≡ ok gt
compare-flip_example = compare-flip mysql mysql-IsMysql int_column wide_column lt int_at_most_wide

compare-eq_iff_example : (compare mysql int_column int_column ≡ ok eq) ↔ (int_column ≡ int_column)
compare-eq_iff_example = compare-eq_iff mysql mysql-IsMysql int_column int_column

joined_at_most_wide : compare mysql joined_column wide_column ≡ ok lt
unfolding compare compare_field_tp compare_bool compare_int compare_mysql_integer_type
joined_at_most_wide = refl

compare_trans_example : Le (compare mysql int_column wide_column)
compare_trans_example =
    compare_trans mysql mysql-IsMysql int_column joined_column wide_column (rw at_most_joined tt)
      (rw joined_at_most_wide tt)
