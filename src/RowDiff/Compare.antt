-- ===== src/RowDiff/Compare.antt =====
-- `CompareData` of sync_diff_inspector/utils/utils.go: whether two rows are equal, and which of
-- them has the smaller order key.
use Prim.Native.Nat.{Ordering, lt, eq, gt}
use tidb_tools.Prelude.{
  String, str_eq, Bool, true, false, ◌&&◌, ◌||◌, not, Option, none, some, List, [], ◌∷◌,
  if◌then◌else◌,
}
use tidb_tools.Prelude.Dict.{lookup}
use tidb_tools.RowDiff.Data.{
  FieldType, float, double, json, need_quotes, Column, ColumnData, Row, upstream_key,
  downstream_key, no_key, float_failed, json_failed, collate_failed, Result, ok, err, ◌>>=◌, found,
}

-- What the comparison calls: `strconv.ParseFloat` with the operations of float64, where `near a b`
-- is `math.Abs(a-b) <= 1e-6`, `json.Unmarshal` with `reflect.DeepEqual`, and the collators of the
-- database.
pub record Calls : Type 1 where
  pub Float : Type 0
  pub parse_float : String → Option Float
  pub near : Float → Float → Bool
  pub float_eq : Float → Float → Bool
  pub float_lt : Float → Float → Bool
  pub Json : Type 0
  pub unmarshal : String → Option Json
  pub deep_equal : Json → Json → Bool
  pub collate : String → String → String → Option Ordering

-- the collation that is used where none is given
unfoldable pub used_collation : String → String
used_collation collation = if str_eq collation "" then "utf8mb4_bin" else collation

abbrev pub is_approximate : FieldType → Bool
is_approximate float = true
is_approximate double = true
is_approximate _ = false

abbrev pub is_json : FieldType → Bool
is_json json = true
is_json _ = false

-- the order of the keys is looked at only where the rows differ
abbrev pub verdict : Bool → Result Ordering → Result (Bool × Ordering)
verdict true key_order = ok (true, eq)
verdict false key_order = key_order >>= λ o. ok (false, o)

module _ (calls : Calls) where
  open calls use {
    Float, parse_float, near, float_eq, float_lt, Json, unmarshal, deep_equal, collate,
  }

  abbrev pub parsed_near : String → String → Option Float → Option Float → Result Bool
  parsed_near s t (some a) (some b) = ok (near a b)
  parsed_near s t none _ = err (float_failed s t)
  parsed_near s t (some a) none = err (float_failed s t)

  -- a FLOAT or DOUBLE column: its null flags and its texts
  abbrev pub same_float : Bool → Bool → String → String → Result Bool
  same_float true true s t = ok true
  same_float false false s t = parsed_near s t (parse_float s) (parse_float t)
  same_float true false s t = ok false
  same_float false true s t = ok false

  abbrev pub same_documents : Bool → Bool → String → String → Result Bool
  same_documents false false s t = do
    v1 ← found (json_failed s) (unmarshal s)
    v2 ← found (json_failed t) (unmarshal t)
    ok (deep_equal v1 v2)
  same_documents true _ s t = ok false
  same_documents false true s t = ok false

  -- the body of the first loop of `CompareData`
  unfoldable pub same_column : Column → ColumnData → ColumnData → Result Bool
  same_column c a b =
      if is_approximate c.tp
      then same_float a.is_null b.is_null a.bytes b.bytes
      else if is_json c.tp
      then (if str_eq a.bytes b.bytes || (a.is_null && b.is_null)
          then ok true
          else same_documents a.is_null b.is_null a.bytes b.bytes)
      else ok (str_eq a.bytes b.bytes && (if a.is_null then b.is_null else not b.is_null))

  -- the first loop
  unfoldable pub same_rows : List Column → Row → Row → Result Bool
  same_rows [] m1 m2 = ok true
  same_rows (c ∷ cs) m1 m2 = do
    a ← found (upstream_key c.name) (lookup c.name m1)
    b ← found (downstream_key c.name) (lookup c.name m2)
    same ← same_column c a b
    if same then same_rows cs m1 m2 else ok false

  -- `num1 == num2`, and then `num1 < num2`
  unfoldable pub float_compare : Float → Float → Ordering
  float_compare a b = if float_eq a b then eq else if float_lt a b then lt else gt

  abbrev pub parsed_compare : String → String → Option Float → Option Float → Result Ordering
  parsed_compare s t (some a) (some b) = ok (float_compare a b)
  parsed_compare s t none _ = err (float_failed s t)
  parsed_compare s t (some a) none = err (float_failed s t)

  -- a numeric column of the key, where NULL is the smallest: its null flags and its texts
  abbrev pub number_compare : Bool → Bool → String → String → Result Ordering
  number_compare true true s t = ok eq
  number_compare true false s t = ok lt
  number_compare false true s t = ok gt
  number_compare false false s t = parsed_compare s t (parse_float s) (parse_float t)

  -- the body of the second loop of `CompareData`
  unfoldable pub column_compare : String → Column → ColumnData → ColumnData → Result Ordering
  unfolding need_quotes
  column_compare collation c a b =
      if need_quotes c.tp
      then found collate_failed (collate collation a.bytes b.bytes)
      else number_compare a.is_null b.is_null a.bytes b.bytes

  -- a column that is equal on both sides leaves the order to the rest of the key
  abbrev pub then_compare : Ordering → Result Ordering → Result Ordering
  then_compare lt rest = ok lt
  then_compare eq rest = rest
  then_compare gt rest = ok gt

  -- the second loop
  unfoldable pub key_compare : String → List Column → Row → Row → Result Ordering
  key_compare collation [] m1 m2 = ok eq
  key_compare collation (c ∷ cs) m1 m2 = do
    a ← found (no_key c.name) (lookup c.name m1)
    b ← found (no_key c.name) (lookup c.name m2)
    o ← column_compare collation c a b
    then_compare o (key_compare collation cs m1 m2)

  -- `CompareData`: equality, and the order of the keys of rows that differ
  unfoldable pub compare_data :
      String → List Column → List Column → Row → Row → Result (Bool × Ordering)
  compare_data collation keys columns m1 m2 = do
    same ← same_rows columns m1 m2
    verdict same (key_compare (used_collation collation) keys m1 m2)
