-- ===== src/SchemaCmp/Lattice.antt =====
-- `Compare` and `Join` of every lattice type of pkg/schemacmp/lattice.go, and of `typ`. The method
-- of the receiver's type tests the type of the argument first.
use Prim.Native.Nat.{Ordering, bit_and}
use tidb_tools.Prelude.{
  ℕ, zero, suc, Bool, false, ◌&&◌, not, Option, none, some, ◌==◌, if◌then◌else◌,
}
use tidb_tools.SchemaCmp.Data.{
  Value, Lattice, Tuple, bool, singleton, equality_singleton, bit_set, byte, field_tp, int, int64,
  uint, string_list, maybe_nil, maybe, tuple, typ, nil, cons, type_mismatch, tuple_length_mismatch,
  contradicting_orders, auto_type_without_key, Result, ok, err, ◌>>=◌, wrap, Mysql,
}
use tidb_tools.SchemaCmp.Leaf.{
  lt, eq, gt, compare_bool, join_bool, compare_singleton, join_singleton,
  compare_equality_singleton, join_equality_singleton, compare_bit_set, join_bit_set, compare_uint,
  join_uint, compare_int, join_int, compare_field_tp, join_field_tp, compare_string_list,
  join_string_list,
}

-- `CombineCompareResult`
unfoldable pub combine : Ordering → Ordering → Result Ordering
combine x Ordering.eq = ok x
combine Ordering.lt Ordering.lt = ok lt
combine Ordering.gt Ordering.gt = ok gt
combine Ordering.eq y = ok y
combine x y = err (contradicting_orders x y)

-- `len` of a tuple
abbrev pub len : Tuple → ℕ
len nil = 0
len (cons a as_) = suc (len as_)

abbrev pub get : Tuple → ℕ → Option Lattice
get nil i = none
get (cons a as_) zero = some a
get (cons a as_) (suc i) = get as_ i

-- `Unwrap().(uint)` and `Unwrap().(byte)`
unfoldable pub unwrap_uint : Lattice → Option ℕ
unwrap_uint (bit_set n) = some n
unwrap_uint (uint n) = some n
unwrap_uint (singleton (Value.uint n)) = some n
unwrap_uint (maybe a) = unwrap_uint a
unwrap_uint _ = none

unfoldable pub unwrap_byte : Lattice → Option ℕ
unwrap_byte (byte n) = some n
unwrap_byte (field_tp n) = some n
unwrap_byte (maybe a) = unwrap_byte a
unwrap_byte _ = none

abbrev pub field_type_tuple_index_flag_anti_keys : ℕ
field_type_tuple_index_flag_anti_keys = 5

abbrev pub field_type_tuple_index_flag_def_val : ℕ
field_type_tuple_index_flag_def_val = 6

-- `^byte(0)`
abbrev pub not_part_of_keys : ℕ
not_part_of_keys = 255

abbrev has_flag : ℕ → Option Lattice → Bool
has_flag flag none = false
has_flag flag (some a) = elim (unwrap_uint a) [ none ↦ false | some x ↦ not (bit_and x flag == 0) ]

abbrev is_no_key : Option Lattice → Bool
is_no_key none = false
is_no_key (some a) = elim (unwrap_byte a) [ none ↦ false | some x ↦ x == not_part_of_keys ]

-- The special check of `typ.Join`. A `typ` has ten entries, so the two indices are in range.
unfoldable pub auto_without_key : Mysql → Tuple → Bool
unfolding unwrap_uint unwrap_byte
auto_without_key m join =
    has_flag m.auto_increment_flag (get join field_type_tuple_index_flag_def_val)
    && is_no_key (get join field_type_tuple_index_flag_anti_keys)

abbrev pub typ_of : Mysql → Tuple → Result Lattice
typ_of m join = if auto_without_key m join then err auto_type_without_key else ok (typ join)

abbrev pub map_result {ℓ κ} : {A : Type ℓ} {B : Type κ} → (A → B) → Result A → Result B
map_result f r = r >>= λ a. ok (f a)

-- `case len(a) != len(b)`
abbrev pub same_len {ℓ} : {A : Type ℓ} → Tuple → Tuple → Result A → Result A
same_len a b r = if not (len a == len b) then err (tuple_length_mismatch (len a) (len b)) else r

module _ (m : Mysql) where
  unfoldable mutual
    unfolding combine

    pub compare : Lattice → Lattice → Result Ordering
    compare (bool a) (bool b) = compare_bool a b
    compare (singleton a) (singleton b) = compare_singleton a b
    compare (equality_singleton a) (equality_singleton b) = compare_equality_singleton a b
    compare (bit_set a) (bit_set b) = compare_bit_set a b
    compare (byte a) (byte b) = compare_uint a b
    compare (field_tp a) (field_tp b) = compare_field_tp m a b
    compare (int a) (int b) = compare_int a b
    compare (int64 a) (int64 b) = compare_int a b
    compare (uint a) (uint b) = compare_uint a b
    compare (string_list a) (string_list b) = compare_string_list a b
    compare maybe_nil maybe_nil = ok eq
    compare maybe_nil (maybe b) = ok lt
    compare (maybe a) maybe_nil = ok gt
    compare (maybe a) (maybe b) = compare a b
    compare (tuple a) (tuple b) = same_len a b (compare_loop 0 eq a b)
    compare (typ a) (typ b) = same_len a b (compare_loop 0 eq a b)
    compare a b = err (type_mismatch a b)

    -- the loop of `Tuple.Compare` from index `i` on
    pub compare_loop : ℕ → Ordering → Tuple → Tuple → Result Ordering
    compare_loop i result (cons left as_) (cons right bs) = do
      res ← wrap i (compare left right)
      result' ← wrap i (combine result res)
      compare_loop (suc i) result' as_ bs
    compare_loop i result _ _ = ok result

  unfoldable mutual
    pub join : Lattice → Lattice → Result Lattice
    join (bool a) (bool b) = map_result bool (join_bool a b)
    join (singleton a) (singleton b) = map_result singleton (join_singleton a b)
    join (equality_singleton a) (equality_singleton b) =
        map_result equality_singleton (join_equality_singleton a b)
    join (bit_set a) (bit_set b) = map_result bit_set (join_bit_set a b)
    join (byte a) (byte b) = map_result byte (join_uint a b)
    join (field_tp a) (field_tp b) = map_result field_tp (join_field_tp m a b)
    join (int a) (int b) = map_result int (join_int a b)
    join (int64 a) (int64 b) = map_result int64 (join_int a b)
    join (uint a) (uint b) = map_result uint (join_uint a b)
    join (string_list a) (string_list b) = map_result string_list (join_string_list a b)
    join maybe_nil maybe_nil = ok maybe_nil
    join maybe_nil (maybe b) = ok (maybe b)
    join (maybe a) maybe_nil = ok (maybe a)
    join (maybe a) (maybe b) = map_result maybe (join a b)
    join (tuple a) (tuple b) = same_len a b (map_result tuple (join_loop 0 a b))
    join (typ a) (typ b) = same_len a b (join_loop 0 a b >>= typ_of m)
    join a b = err (type_mismatch a b)

    -- the loop of `Tuple.Join`, which appends each result
    pub join_loop : ℕ → Tuple → Tuple → Result Tuple
    join_loop i (cons left as_) (cons right bs) = do
      res ← wrap i (join left right)
      rest ← join_loop (suc i) as_ bs
      ok (cons res rest)
    join_loop i _ _ = ok nil
