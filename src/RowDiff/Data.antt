-- ===== src/RowDiff/Data.antt =====
-- The columns and the values of a row, pkg/dbutil/query.go and pkg/dbutil/types.go, and the errors
-- of the comparison.
use tidb_tools.Prelude.{
  ◌≡◌, ℕ, List, [], ◌∷◌, get_elem?, if◌then◌else◌, refl, String, Bool, true, false, ◌&&◌, ◌||◌, not,
  Option, none, some,
}
use tidb_tools.Prelude.Dict.{Dict}

-- The codes of the column types that the comparison tells apart.
pub data FieldType : Type 0 where
  tiny short long longlong int24 year float double new_decimal json : FieldType
  tiny_blob medium_blob blob long_blob varchar char other_type : FieldType

-- `IsNumberType`
unfoldable pub is_number_type : FieldType → Bool
is_number_type tiny = true
is_number_type short = true
is_number_type long = true
is_number_type longlong = true
is_number_type int24 = true
is_number_type year = true
is_number_type _ = false

-- `IsFloatType`
unfoldable pub is_float_type : FieldType → Bool
is_float_type float = true
is_float_type double = true
is_float_type new_decimal = true
is_float_type _ = false

-- `IsBlobType`
unfoldable pub is_blob_type : FieldType → Bool
is_blob_type tiny_blob = true
is_blob_type medium_blob = true
is_blob_type blob = true
is_blob_type long_blob = true
is_blob_type _ = false

-- `NeedQuotes`
unfoldable pub need_quotes : FieldType → Bool
unfolding is_number_type is_float_type
need_quotes tp = not (is_number_type tp || is_float_type tp)

-- `model.ColumnInfo`, as far as it is used: `binary` is the flag that `mysql.HasBinaryFlag` reads.
pub record Column : Type 0 where
  pub name : String
  pub tp : FieldType
  pub binary : Bool
  pub generated : Bool

abbrev pub is_string_type : FieldType → Bool
is_string_type varchar = true
is_string_type char = true
is_string_type _ = false

-- `IsBinaryColumn`
unfoldable pub is_binary_column : Column → Bool
is_binary_column c = is_string_type c.tp && c.binary

-- `ColumnData`. Here, and in the statements, a text stands for a Go string with a character for each
-- byte, of the byte's number, so that any bytes can occur.
pub record ColumnData : Type 0 where
  pub bytes : String
  pub is_null : Bool

-- `map[string]*dbutil.ColumnData`
abbrev pub Row : Type 0
Row = Dict ColumnData

pub data Error : Type 0 where
  upstream_key downstream_key no_key : String → Error
  float_failed : String → String → Error
  json_failed : String → Error
  collate_failed fetch_failed panicked : Error

-- A value, or the error that is returned in its place.
pub data Result {ℓ} (V : Type ℓ) : Type ℓ where
  err : Error → Result V
  ok : V → Result V

-- `data, ok := row[name]`, with the error of a missing name
abbrev pub found {ℓ} : {V : Type ℓ} → Error → Option V → Result V
found missing (some v) = ok v
found missing none = err missing

-- `if err != nil { return err }` behind a call
infixl 5 ◌>>=◌
abbrev pub ◌>>=◌ {ℓ κ} : {V : Type ℓ} {W : Type κ} → Result V → (V → Result W) → Result W
err failure >>= rest = err failure
ok v >>= rest = rest v

pub >>=-eq-ok {ℓ κ} :
    {V : Type ℓ} {W : Type κ} (call : Result V) (rest : V → Result W) {w : W}
    → (call >>= rest) ≡ ok w
    → (v : V) × (call ≡ ok v) × (rest v ≡ ok w)
>>=-eq-ok (err failure) rest h = cc
>>=-eq-ok (ok v) rest h = (v, refl, h)

-- `model.IndexInfo`, with the offsets of its columns
pub record Index : Type 0 where
  pub primary : Bool
  pub unique : Bool
  pub offsets : List ℕ

-- `model.TableInfo`, as far as it is used, and the schema it stands in
pub record Table : Type 0 where
  pub schema : String
  pub name : String
  pub columns : List Column
  pub indices : List Index

-- `tbInfo.Columns[offset]` for each column of an index
unfoldable pub columns_at : List Column → List ℕ → Result (List Column)
columns_at columns [] = ok []
columns_at columns (i ∷ is) =
    found panicked (get_elem? columns i) >>= λ c. columns_at columns is >>= λ cs. ok (c ∷ cs)

-- The loop of `SelectUniqueOrderKey`: the first primary index ends it, and each unique one replaces
-- those before it.
unfoldable pub select_loop : List Column → List Index → List Column → Result (List Column)
unfolding columns_at
select_loop columns [] keys = ok keys
select_loop columns (i ∷ is) keys =
    let from_index = (columns_at columns i.offsets >>= select_loop columns is) in
    let from_rest = select_loop columns is keys in
    if i.primary then columns_at columns i.offsets else if i.unique then from_index else from_rest

abbrev pub or_all : List Column → List Column → List Column
or_all columns [] = columns
or_all columns (k ∷ keys) = k ∷ keys

-- `SelectUniqueOrderKey`
unfoldable pub select_unique_order_key : Table → Result (List Column)
unfolding select_loop
select_unique_order_key t =
    select_loop t.columns t.indices [] >>= λ keys. ok (or_all t.columns keys)
