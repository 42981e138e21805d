-- ===== src/SchemaCmp/Column.antt =====
-- `typ` of pkg/schemacmp/type.go beside a missing column: `hasDefault`, `setFlagForMissingColumn`,
-- `isNotNull` and `getStandardDefaultValue`. A panic is `none`.
use Prim.Native.Nat.{bit_and}
use mathlib.Core.Option
use tidb_tools.Prelude.{
  ℕ, zero, suc, String, str_eq, Bool, true, false, not, ◌∷◌, Option, none, some, ◌==◌,
  if◌then◌else◌,
}
use tidb_tools.Prelude.Int.{ℤ, pos, negsuc}
use tidb_tools.Prelude.Text.{◌+s◌}
use tidb_tools.SchemaCmp.Data.{
  Value, Lattice, Tuple, nil, cons, maybe_nil, maybe, singleton, byte, string_list, bool, int,
  number, date_time, date, duration, year, json, enum, string, other, Mysql,
}
use tidb_tools.SchemaCmp.Leaf.{and_not}
use tidb_tools.SchemaCmp.Lattice.{
  get, unwrap_uint, unwrap_byte, field_type_tuple_index_flag_anti_keys,
  field_type_tuple_index_flag_def_val, not_part_of_keys,
}

infixl 5 ◌>>=◌
abbrev ◌>>=◌ {ℓ κ} : {A : Type ℓ} {B : Type κ} → Option A → (A → Option B) → Option B
none >>= f = none
some a >>= f = f a

-- `a[i] = v` on a tuple
unfoldable pub set_entry : Tuple → ℕ → Lattice → Tuple
set_entry nil i v = nil
set_entry (cons a as_) zero v = cons v as_
set_entry (cons a as_) (suc i) v = cons a (set_entry as_ i v)

-- `Unwrap() != nil`
abbrev pub not_nil : Lattice → Bool
not_nil maybe_nil = false
not_nil (maybe a) = not_nil a
not_nil _ = true

unfoldable pub has_default : Tuple → Option Bool
has_default a = Option.map not_nil (get a field_type_tuple_index_flag_def_val)

-- `Unwrap().(bool)`, `Unwrap().(int)` and `Unwrap().(string)`
abbrev pub unwrap_bool : Lattice → Option Bool
unwrap_bool (bool b) = some b
unwrap_bool (singleton (Value.bool b)) = some b
unwrap_bool _ = none

abbrev pub unwrap_int : Lattice → Option ℤ
unwrap_int (int n) = some n
unwrap_int (singleton (Value.int n)) = some n
unwrap_int _ = none

abbrev pub unwrap_string : Lattice → Option String
unwrap_string (singleton (Value.string s)) = some s
unwrap_string _ = none

-- `Maybe(Singleton(defVal &^ mysql.NoDefaultValueFlag))`
abbrev pub with_default : Mysql → ℕ → Lattice
with_default m def_val = maybe (singleton (Value.uint (and_not def_val m.no_default_value_flag)))

abbrev pub set_default : Mysql → Tuple → Option ℕ → Tuple × Bool
set_default m a none = (set_entry a field_type_tuple_index_flag_def_val (with_default m 0), true)
set_default m a (some def_val) =
    if not (bit_and def_val m.no_default_value_flag == 0)
    then (set_entry a field_type_tuple_index_flag_def_val (with_default m def_val), true)
    else (a, false)

-- `setFlagForMissingColumn`: the tuple that it leaves, and its result
unfoldable pub set_flag_for_missing_column : Mysql → Tuple → Option (Tuple × Bool)
unfolding set_entry unwrap_uint
set_flag_for_missing_column m a =
    let a' = set_entry a field_type_tuple_index_flag_anti_keys (byte not_part_of_keys) in
    Option.map (λ v. set_default m a' (unwrap_uint v)) (get a field_type_tuple_index_flag_def_val)

unfoldable pub is_not_null : Tuple → Option Bool
is_not_null a = Option.map not (get a 4 >>= unwrap_bool)

-- `strings.Repeat`
unfoldable pub repeat : String → ℕ → String
repeat s zero = ""
repeat s (suc n) = s +s repeat s n

-- the fractional digits
abbrev tail_of : ℤ → String
tail_of (pos zero) = ""
tail_of (pos (suc n)) = "." +s repeat "0" (suc n)
tail_of (negsuc n) = ""

abbrev first_elem : Lattice → Option String
first_elem (string_list (s ∷ ss)) = some s
first_elem _ = none

-- `make([]byte, flen)` panics on a negative length
abbrev zero_bytes : ℤ → Option String
zero_bytes (pos n) = some (repeat "\0" n)
zero_bytes (negsuc n) = none

unfoldable pub get_standard_default_value : Mysql → Tuple → Option String
unfolding unwrap_byte repeat
get_standard_default_value m a = do
  dec ← get a 2 >>= unwrap_int
  tp ← get a 0 >>= unwrap_byte
  elim (m.kind tp) [
    | number ↦ some "0"
    | date_time ↦ some ("0000-00-00 00:00:00" +s tail_of dec)
    | date ↦ some "0000-00-00"
    | duration ↦ some ("00:00:00" +s tail_of dec)
    | year ↦ some "0000"
    | json ↦ some "null"
    | enum ↦ get a 9 >>= first_elem
    | string ↦ do
      collate ← get a 8 >>= unwrap_string
      if str_eq collate m.collation_bin then get a 1 >>= unwrap_int >>= zero_bytes else some ""
    | other ↦ some ""
  ]
