-- ===== src/RowDiff/Tests.antt =====
-- The comparison of rows on a table of two columns, and the theorems at its inputs.
use Prim.Native.Nat.{compare}
use tidb_tools.Prelude.{
  inr, ◌⊎◌, ℕ, ◌+◌, str_eq, ◌≡◌, refl, ◌↔◌, ◌==◌, ltb, true, false, String, List, [], ◌∷◌, map,
  Option, some, arith,
}
use tidb_tools.Prelude.Dict.{lookup}
use tidb_tools.Prelude.Text.{join, ◌+s◌}
use tidb_tools.ColumnMapping.Partition.{parse_digits}
use tidb_tools.RowDiff.Data.{
  Error, Column, ColumnData, Row, Table, Result, ok, err, long, varchar, select_unique_order_key,
  need_quotes, downstream_key, fetch_failed, is_blob_type, is_binary_column,
}
use tidb_tools.RowDiff.Compare.{
  Calls, compare_data, key_compare, float_compare, same_rows, same_column, column_compare,
}
use tidb_tools.RowDiff.Statements.{generate_fix_sql}
use tidb_tools.RowDiff.Merge.{
  Tally, compare_rows, run, step, fill, settle_rows, settle, recorded, delete_rest,
}
use tidb_tools.RowDiff.Order.{IsOrder, IsLawful, opposite}
use tidb_tools.RowDiff.Fetched.{Fetched, compare_rows-Fetched}
use tidb_tools.RowDiff.Literals.{read_literal, read_literal-literal}
use tidb_tools.RowDiff.Statements.{literal}
use tidb_tools.RowDiff.Returns.{Returned, compare_rows-Returned}
use tidb_tools.RowDiff.Readable.{IsReadable}
use tidb_tools.RowDiff.Script.{AllEqual}
use tidb_tools.RowDiff.Merged.{compare_rows-AllEqual}

abbrev letters : String → ℕ
letters String.[] = 0
letters (String.◌∷◌ c s) = letters s + 1

-- Numbers are read as digits, and the collation goes by the lengths of texts.
abbrev simple : Calls
simple = record {
  Float = ℕ;
  parse_float = λ s. parse_digits 0 s;
  near = λ a b. a == b;
  float_eq = λ a b. a == b;
  float_lt = ltb;
  Json = String;
  unmarshal = λ s. some s;
  deep_equal = str_eq;
  collate = λ collation s t. some (compare (letters s) (letters t));
}

abbrev id_column : Column
id_column = record { name = "id"; tp = long; binary = false; generated = false }

abbrev note_column : Column
note_column = record { name = "note"; tp = varchar; binary = false; generated = false }

abbrev notes : Table
notes = record {
  schema = "db";
  name = "notes";
  columns = id_column ∷ note_column ∷ [];
  indices = record { primary = true; unique = true; offsets = 0 ∷ [] } ∷ [];
}

abbrev keys : List Column
keys = id_column ∷ []

abbrev cell : String → ColumnData
cell s = record { bytes = s; is_null = false }

abbrev note : String → String → Row
note id text = ("id", cell id) ∷ ("note", cell text) ∷ []

abbrev first_values : List (String × String × String) → String
first_values rows = join (map (λ (r : String × String × String). r.0 +s " " +s r.2) rows) "; "

abbrev upstream_rows : List Row
upstream_rows = note "1" "a" ∷ note "2" "it's" ∷ note "10" "c" ∷ []

abbrev downstream_rows : List Row
downstream_rows = note "1" "a" ∷ note "7" "x" ∷ note "10" "y" ∷ note "11" "z" ∷ []

abbrev merged : Option (Result Tally)
merged =
    compare_rows (compare_data simple "" keys notes.columns) (generate_fix_sql first_values notes)
      true (map (λ r. ok r) upstream_rows) (map (λ r. ok r) downstream_rows)

abbrev merged_tally : Tally
merged_tally = record {
  rows_add = 2;
  rows_delete = 3;
  equal = false;
  sqls =
      "REPLACE INTO `db`.`notes`(`id`,`note`) VALUES (2,'it\\'s');"
      ∷ "DELETE FROM `db`.`notes` WHERE `id` = 7 AND `note` = 'x' LIMIT 1;"
      ∷ "/*\ndiff columns target data; `note` 'y'*/\nREPLACE INTO `db`.`notes`(`id`,`note`) VALUES (10,'c');"
      ∷ "DELETE FROM `db`.`notes` WHERE `id` = 11 AND `note` = 'z' LIMIT 1;" ∷ [];
}

merged_lem : merged ≡ some (ok merged_tally)
unfolding compare_rows run step fill settle_rows settle recorded delete_rest compare_data same_rows
    same_column key_compare column_compare float_compare parse_digits generate_fix_sql
merged_lem = refl

compare-IsOrder : IsOrder {A = ℕ} (λ a b. ok (compare a b))
unfolding opposite
compare-IsOrder = record {
  flip = λ a b o h. ground arith;
  trans = λ a b e o p m n h k. ground arith;
}

simple-IsLawful : IsLawful simple
unfolding float_compare opposite
simple-IsLawful = record {
  collations = λ collation. record {
    flip = λ a b o h. ground arith;
    trans = λ a b e o p m n h k. ground arith;
  };
  floats = record { flip = λ a b o h. ground arith; trans = λ a b e o p m n h k. ground arith };
}

note-IsReadable :
    (id text : String) (n : ℕ)
    → parse_digits 0 id ≡ some n
    → IsReadable simple notes.columns (note id text)
unfolding need_quotes lookup
note-IsReadable id text n h =
    ((cell id, refl, (tt, inr (n, h), tt)), ((cell text, refl, (tt, tt, tt)), tt))

compare_rows-Returned_example :
    Returned simple simple-IsLawful "" notes first_values keys upstream_rows downstream_rows
unfolding select_unique_order_key key_compare lookup column_compare parse_digits float_compare
compare_rows-Returned_example =
    compare_rows-Returned simple simple-IsLawful "" notes first_values keys upstream_rows
      downstream_rows (λ s t. (_, refl)) refl ((refl, refl), tt)
      (
        note-IsReadable "1" "a" 1 refl,
        (note-IsReadable "2" "it's" 2 refl, (note-IsReadable "10" "c" 10 refl, tt)),
      )
      (
        note-IsReadable "1" "a" 1 refl,
        (
          note-IsReadable "7" "x" 7 refl,
          (note-IsReadable "10" "y" 10 refl, (note-IsReadable "11" "z" 11 refl, tt)),
        ),
      )
      (refl, (refl, (refl, tt)), (refl, (refl, tt), (refl, tt, tt)))
      (
        refl,
        (refl, (refl, (refl, tt))),
        (refl, (refl, (refl, tt)), (refl, (refl, tt), (refl, tt, tt))),
      )

-- A note that is left out, and an iterator that fails.
missing_column :
    compare_data simple "" keys notes.columns (note "1" "a") (("id", cell "1") ∷ [])
    ≡ err (downstream_key "note")
unfolding compare_data same_rows same_column lookup
missing_column = refl

failed_fetch :
    compare_rows
      (compare_data simple "" keys notes.columns)
      (generate_fix_sql first_values notes)
      true
      (ok (note "1" "a") ∷ err fetch_failed ∷ [])
      (ok (note "1" "a") ∷ [])
    ≡ some (err fetch_failed)
unfolding compare_rows run step fill settle_rows settle compare_data same_rows same_column lookup
failed_fetch = refl

compare_rows-AllEqual_example :
    (merged_tally.equal ≡ true)
    ↔ AllEqual (compare_data simple "" keys notes.columns) upstream_rows downstream_rows
compare_rows-AllEqual_example =
    compare_rows-AllEqual (compare_data simple "" keys notes.columns)
      (generate_fix_sql first_values notes) true upstream_rows downstream_rows merged_tally
      merged_lem

read_literal-literal_example :
    read_literal (literal note_column "it's \\" +s " AND `id` = 1")
    ≡ some ("it's \\", " AND `id` = 1")
unfolding need_quotes is_blob_type is_binary_column
read_literal-literal_example =
    read_literal-literal note_column "it's \\" " AND `id` = 1" refl refl refl

compare_rows-Fetched_example :
    (r : Result Tally) × (compare_rows
        (compare_data simple "" keys notes.columns)
        (generate_fix_sql first_values notes)
        true
        (ok (note "1" "a") ∷ err fetch_failed ∷ [])
        (ok (note "1" "a") ∷ [])
      ≡ some r)
    × (((e : Error) × (r ≡ err e))
        ⊎ (Fetched (ok (note "1" "a") ∷ err fetch_failed ∷ []) × Fetched (ok (note "1" "a") ∷ [])))
compare_rows-Fetched_example =
    compare_rows-Fetched (compare_data simple "" keys notes.columns)
      (generate_fix_sql first_values notes) true (ok (note "1" "a") ∷ err fetch_failed ∷ [])
      (ok (note "1" "a") ∷ [])
