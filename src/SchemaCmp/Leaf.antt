-- ===== src/SchemaCmp/Leaf.antt =====
-- `Compare` and `Join` of the lattice types that hold no other lattice. The results -1, 0 and 1 of
-- Go are `lt`, `eq` and `gt`.
use Prim.Native.Nat.{Ordering, bit_and, bit_or}
use tidb_tools.Prelude.{
  ℕ, suc, ◌-◌, String, str_eq, Bool, true, false, ◌&&◌, ◌||◌, not, List, ◌∷◌, length, ltb, leb,
  ◌==◌, if◌then◌else◌,
}
use tidb_tools.Prelude.Int.{ℤ, ltb_ℤ, leb_ℤ, eqb_ℤ}
use tidb_tools.SchemaCmp.Data.{
  Value, uint, int, uint64, index_type, string, bool, IndexColumn, distinct_singletons,
  distinct_equalities, incompatible_type, non_inclusive_bit_sets, string_list_elem_mismatch, Result,
  ok, err, ◌>>=◌, Mysql,
}

abbrev pub lt : Ordering
lt = Ordering.lt

abbrev pub eq : Ordering
eq = Ordering.eq

abbrev pub gt : Ordering
gt = Ordering.gt

abbrev pub eqb_bool : Bool → Bool → Bool
eqb_bool true b = b
eqb_bool false b = not b

unfoldable pub compare_bool : Bool → Bool → Result Ordering
compare_bool a b = if eqb_bool a b then ok eq else if a then ok gt else ok lt

unfoldable pub join_bool : Bool → Bool → Result Bool
join_bool a b = ok (a || b)

-- Go's `==` on two `interface{}` values
unfoldable pub value_eq : Value → Value → Bool
value_eq (uint a) (uint b) = a == b
value_eq (int a) (int b) = eqb_ℤ a b
value_eq (uint64 a) (uint64 b) = a == b
value_eq (index_type a) (index_type b) = a == b
value_eq (string a) (string b) = str_eq a b
value_eq (bool a) (bool b) = eqb_bool a b
value_eq _ _ = false

unfoldable pub compare_singleton : Value → Value → Result Ordering
compare_singleton a b = if not (value_eq a b) then err (distinct_singletons a b) else ok eq

unfoldable pub join_singleton : Value → Value → Result Value
join_singleton a b = if not (value_eq a b) then err (distinct_singletons a b) else ok a

-- `indexColumnSlice.Equals`: the test on the lengths, then the loop
unfoldable pub equals_loop : List IndexColumn → List IndexColumn → Bool
equals_loop (a ∷ xs) (b ∷ ys) =
    if not (str_eq a.col_name b.col_name) || not (eqb_ℤ a.length b.length)
    then false
    else equals_loop xs ys
equals_loop _ _ = true

unfoldable pub equals : List IndexColumn → List IndexColumn → Bool
unfolding equals_loop
equals a b = if not (length a == length b) then false else equals_loop a b

unfoldable pub compare_equality_singleton : List IndexColumn → List IndexColumn → Result Ordering
compare_equality_singleton a b = if not (equals a b) then err (distinct_equalities a b) else ok eq

unfoldable pub join_equality_singleton :
    List IndexColumn → List IndexColumn → Result (List IndexColumn)
join_equality_singleton a b = if not (equals a b) then err (distinct_equalities a b) else ok a

-- `a &^ b`, the bits of `a` that are not in `b`
abbrev pub and_not : ℕ → ℕ → ℕ
and_not a b = a - bit_and a b

unfoldable pub compare_bit_set : ℕ → ℕ → Result Ordering
compare_bit_set a b =
    if a == b
    then ok eq
    else if and_not a b == 0
    then ok lt
    else if and_not b a == 0
    then ok gt
    else err (non_inclusive_bit_sets a b)

unfoldable pub join_bit_set : ℕ → ℕ → Result ℕ
join_bit_set a b = ok (bit_or a b)

-- `Byte` and `Uint`
unfoldable pub compare_uint : ℕ → ℕ → Result Ordering
compare_uint a b = if a == b then ok eq else if ltb b a then ok gt else ok lt

unfoldable pub join_uint : ℕ → ℕ → Result ℕ
join_uint a b = if leb b a then ok a else ok b

-- `Int` and `Int64`
unfoldable pub compare_int : ℤ → ℤ → Result Ordering
compare_int a b = if eqb_ℤ a b then ok eq else if ltb_ℤ b a then ok gt else ok lt

unfoldable pub join_int : ℤ → ℤ → Result ℤ
join_int a b = if leb_ℤ b a then ok a else ok b

abbrev pub type_short : ℕ
type_short = 2

abbrev pub type_int24 : ℕ
type_int24 = 9

abbrev pub type_tiny_blob : ℕ
type_tiny_blob = 249

abbrev pub type_blob : ℕ
type_blob = 252

unfoldable pub compare_mysql_integer_type : ℕ → ℕ → Ordering
compare_mysql_integer_type a b =
    if a == b
    then eq
    else if a == type_int24
    then (if leb b type_short then gt else lt)
    else if b == type_int24
    then (if leb a type_short then lt else gt)
    else if ltb a b
    then lt
    else gt

unfoldable pub compare_mysql_blob_type : ℕ → ℕ → Ordering
compare_mysql_blob_type a b =
    if a == b
    then eq
    else if a == type_blob
    then (if b == type_tiny_blob then gt else lt)
    else if b == type_blob
    then (if a == type_tiny_blob then lt else gt)
    else if ltb a b
    then lt
    else gt

abbrev pub is_lt : Ordering → Bool
is_lt Ordering.lt = true
is_lt _ = false

module _ (m : Mysql) where
  unfoldable pub compare_field_tp : ℕ → ℕ → Result Ordering
  compare_field_tp a b =
      if a == b
      then ok eq
      else if m.is_integer_type a && m.is_integer_type b
      then ok (compare_mysql_integer_type a b)
      else if m.is_type_blob a && m.is_type_blob b
      then ok (compare_mysql_blob_type a b)
      else err (incompatible_type a b)

  unfoldable pub join_field_tp : ℕ → ℕ → Result ℕ
  join_field_tp a b =
      if a == b
      then ok a
      else if m.is_integer_type a && m.is_integer_type b
      then (if is_lt (compare_mysql_integer_type a b) then ok b else ok a)
      else if m.is_type_blob a && m.is_type_blob b
      then (if is_lt (compare_mysql_blob_type a b) then ok b else ok a)
      else err (incompatible_type a b)

-- the loop of `StringList.Compare` up to the shorter length, from index `i` on
unfoldable pub elem_mismatch : ℕ → List String → List String → Result (Unit {0})
elem_mismatch i (a ∷ xs) (b ∷ ys) =
    if not (str_eq a b) then err (string_list_elem_mismatch i a b) else elem_mismatch (suc i) xs ys
elem_mismatch i _ _ = ok tt

unfoldable pub compare_string_list : List String → List String → Result Ordering
unfolding elem_mismatch
compare_string_list a b = do
  _ ← elem_mismatch 0 a b
  if length a == length b then ok eq else if ltb (length a) (length b) then ok lt else ok gt

abbrev pub is_gt : Ordering → Bool
is_gt Ordering.gt = true
is_gt _ = false

-- `cmp <= 0` gives the other list
unfoldable pub join_string_list : List String → List String → Result (List String)
unfolding compare_string_list
join_string_list a b = do cmp ← compare_string_list a b; if not (is_gt cmp) then ok b else ok a
