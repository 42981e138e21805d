-- ===== src/SchemaCmp/Data.antt =====
-- The lattice types of pkg/schemacmp/lattice.go as one data type, the errors, and the results.
use Prim.Native.Nat.{Ordering}
use tidb_tools.Prelude.{ℕ, String, Bool, List}
use tidb_tools.Prelude.Int.{ℤ}

-- An `interface{}` value of the dynamic types that the package wraps. Go's `==` on interfaces
-- compares the dynamic type too.
pub data Value : Type 0 where
  uint : ℕ → Value
  int : ℤ → Value
  uint64 : ℕ → Value
  index_type : ℕ → Value
  string : String → Value
  bool : Bool → Value

-- `indexColumn` of pkg/schemacmp/table.go
pub record IndexColumn : Type 0 where
  pub col_name : String
  pub length : ℤ

-- `EqualitySingleton` wraps an `indexColumnSlice`, the only type with an `Equals`. `Maybe(nil)` is
-- `maybe_nil`. `typ` of pkg/schemacmp/type.go embeds a tuple.
mutual
  pub data Lattice : Type 0 where
    bool : Bool → Lattice
    singleton : Value → Lattice
    equality_singleton : List IndexColumn → Lattice
    bit_set : ℕ → Lattice
    byte : ℕ → Lattice
    field_tp : ℕ → Lattice
    int : ℤ → Lattice
    int64 : ℤ → Lattice
    uint : ℕ → Lattice
    string_list : List String → Lattice
    maybe_nil : Lattice
    maybe : Lattice → Lattice
    tuple : Tuple → Lattice
    typ : Tuple → Lattice

  pub data Tuple : Type 0 where
    nil : Tuple
    cons : Lattice → Tuple → Tuple

-- `IncompatibleError`, a constructor for each message, with its arguments. A panic on a failed type
-- assertion or an index out of range is `panicked`.
pub data Error : Type 0 where
  type_mismatch : Lattice → Lattice → Error
  tuple_length_mismatch : ℕ → ℕ → Error
  distinct_singletons : Value → Value → Error
  distinct_equalities : List IndexColumn → List IndexColumn → Error
  incompatible_type : ℕ → ℕ → Error
  at_tuple_index : ℕ → Error → Error
  non_inclusive_bit_sets : ℕ → ℕ → Error
  contradicting_orders : Ordering → Ordering → Error
  string_list_elem_mismatch : ℕ → String → String → Error
  auto_type_without_key : Error
  at_map_key : String → Error → Error
  column_without_default : Error
  panicked : Error

pub data Result {ℓ} (A : Type ℓ) : Type ℓ where
  ok : A → Result A
  err : Error → Result A

infixl 5 ◌>>=◌
abbrev pub ◌>>=◌ {ℓ κ} : {A : Type ℓ} {B : Type κ} → Result A → (A → Result B) → Result B
ok a >>= f = f a
err e >>= f = err e

-- `wrapTupleIndexError`
abbrev pub wrap {ℓ} : {A : Type ℓ} → ℕ → Result A → Result A
wrap i (ok a) = ok a
wrap i (err e) = err (at_tuple_index i e)

-- The cases of the switch over the parser's type constants in `getStandardDefaultValue`: numbers,
-- TypeTimestamp with TypeDatetime, and so on.
pub data TypeKind : Type 0 where
  number date_time date duration year json enum string other : TypeKind

-- What the package takes from the parser of TiDB: `mysql.IsIntegerType`, `types.IsTypeBlob`,
-- `mysql.AutoIncrementFlag`, `mysql.NoDefaultValueFlag`, the type constants by their case, and
-- `charset.CollationBin`. The comments of util.go give the types of the two kinds: the integers
-- are 1, 2, 9, 3 and 8, the blobs 249, 252, 250 and 251.
pub record Mysql : Type 0 where
  pub is_integer_type : ℕ → Bool
  pub is_type_blob : ℕ → Bool
  pub auto_increment_flag : ℕ
  pub no_default_value_flag : ℕ
  pub kind : ℕ → TypeKind
  pub collation_bin : String
