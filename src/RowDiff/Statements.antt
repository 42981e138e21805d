-- ===== src/RowDiff/Statements.antt =====
-- The statements that repair a row, `GenerateReplaceDML`, `GenerateReplaceDMLWithAnnotation` and
-- `GenerateDeleteDML` of sync_diff_inspector/utils/utils.go, and `GenerateFixSQL` of the sources.
use Prim.Native.Char.{code}
use Prim.Native.String.{char_at}
use tidb_tools.Prelude.{
  ◌/◌, ◌%◌, ◌==◌, String, str_eq, Bool, ◌&&◌, ◌||◌, not, List, [], ◌∷◌, map, if◌then◌else◌,
}
use tidb_tools.Prelude.Dict.{lookup}
use tidb_tools.Prelude.Text.{◌+s◌, join}
use tidb_tools.Chunk.Where.{column_name}
use tidb_tools.RowDiff.Data.{
  need_quotes, is_blob_type, is_binary_column, Column, ColumnData, Row, Table, panicked, Result, ok,
  ◌>>=◌, found,
}

-- `escapeString`: a backslash before a backslash and before a quote
unfoldable pub escape_string : String → String
escape_string String.[] = String.[]
escape_string (String.◌∷◌ c s) =
    if code c == 92 || code c == 39
    then "\\" +s String.◌∷◌ c (escape_string s)
    else String.◌∷◌ c (escape_string s)

-- `%x` of the bytes
unfoldable pub hex : String → String
hex String.[] = ""
hex (String.◌∷◌ b bs) =
    String.◌∷◌ (char_at "0123456789abcdef" (code b / 16))
      (String.◌∷◌ (char_at "0123456789abcdef" (code b % 16)) (hex bs))

-- a value that is not NULL
unfoldable pub literal : Column → String → String
unfolding need_quotes is_blob_type is_binary_column hex escape_string
literal c s =
    if need_quotes c.tp
    then (if is_blob_type c.tp || is_binary_column c
        then "x'" +s hex s +s "'"
        else "'" +s escape_string s +s "'")
    else s

unfoldable pub sql_value : Column → ColumnData → String
unfolding literal
sql_value c v = if v.is_null then "NULL" else literal c v.bytes

-- The columns that the loops do not pass over, with their values. A column that the row does not
-- have is a nil pointer, and reading it panics.
unfoldable pub stored : List Column → Row → Result (List (Column × ColumnData))
unfolding lookup
stored [] row = ok []
stored (c ∷ cs) row =
    let rest = stored cs row in
    if c.generated
    then rest
    else (found panicked (lookup c.name row) >>= λ v. rest >>= λ vs. ok ((c, v) ∷ vs))

-- `dbutil.TableName`
unfoldable pub table_name : String → String → String
unfolding column_name
table_name schema name = column_name schema +s "." +s column_name name

unfoldable pub replace_into : Table → List (Column × ColumnData) → String
unfolding table_name column_name sql_value join
replace_into t vs =
    "REPLACE INTO "
    +s table_name t.schema t.name
    +s "("
    +s join (map (λ (v : Column × ColumnData). column_name v.0.name) vs) ","
    +s ") VALUES ("
    +s join (map (λ (v : Column × ColumnData). sql_value v.0 v.1) vs) ","
    +s ");"

-- `GenerateReplaceDML`
unfoldable pub generate_replace_dml : Table → Row → Result String
unfolding replace_into stored
generate_replace_dml t row = stored t.columns row >>= λ vs. ok (replace_into t vs)

unfoldable pub delete_condition : Column × ColumnData → String
unfolding column_name literal
delete_condition (c, v) =
    if v.is_null
    then column_name c.name +s " is NULL"
    else column_name c.name +s " = " +s literal c v.bytes

-- `GenerateDeleteDML`
unfoldable pub generate_delete_dml : Table → Row → Result String
unfolding table_name delete_condition join stored
generate_delete_dml t row = do
  vs ← stored t.columns row
  ok (
      "DELETE FROM "
      +s table_name t.schema t.name
      +s " WHERE "
      +s join (map delete_condition vs) " AND "
      +s " LIMIT 1;")

-- Whether the annotation leaves a column out.
abbrev pub unchanged : ColumnData → ColumnData → Bool
unchanged a b = str_eq a.bytes b.bytes && (if a.is_null then b.is_null else not b.is_null)

-- The text that the annotation shows for the downstream: a blob is shown with the upstream's bytes.
unfoldable pub shown_target : Column → ColumnData → ColumnData → String
unfolding literal need_quotes is_blob_type is_binary_column
shown_target c a b =
    if b.is_null
    then "NULL"
    else if need_quotes c.tp && (is_blob_type c.tp || is_binary_column c)
    then literal c a.bytes
    else literal c b.bytes

-- The columns of the annotation: a name, the upstream's value and the downstream's.
unfoldable pub annotation :
    List (Column × ColumnData) → List (Column × ColumnData) → List (String × String × String)
unfolding column_name sql_value shown_target
annotation [] _ = []
annotation (x ∷ xs) [] = []
annotation ((c, a) ∷ xs) ((_, b) ∷ ys) =
    let rest = annotation xs ys in
    if unchanged a b then rest else ((column_name c.name, sql_value c a, shown_target c a b) ∷ rest)

-- What a row of the chunk needs downstream.
pub data Fix : Type 0 where
  insert : Row → Fix
  delete : Row → Fix
  replace : Row → Row → Fix

-- `tablewriter` draws the annotation.
module _ (draw : List (String × String × String) → String) where
  -- `GenerateReplaceDMLWithAnnotation`
  unfoldable pub generate_replace_dml_with_annotation : Table → Row → Row → Result String
  unfolding annotation replace_into stored
  generate_replace_dml_with_annotation t source target = do
    vs ← stored t.columns source
    ws ← stored t.columns target
    ok (
        "/*\n"
        +s draw (("diff columns", "source data", "target data") ∷ annotation vs ws)
        +s "*/\n"
        +s replace_into t vs)

  -- `GenerateFixSQL`, for each of the three values of `DMLType`
  unfoldable pub generate_fix_sql : Table → Fix → Result String
  unfolding generate_replace_dml generate_delete_dml generate_replace_dml_with_annotation
  generate_fix_sql t (insert row) = generate_replace_dml t row
  generate_fix_sql t (delete row) = generate_delete_dml t row
  generate_fix_sql t (replace source target) = generate_replace_dml_with_annotation t source target
