-- ===== src/ColumnMapping/Rule.antt =====
-- The rules of pkg/column-mapping/column.go, `Valid` and `Adjust`, and the built-in expressions on
-- the values of a row.
use Prim.Native.String.{char_at}
use tidb_tools.Prelude.{
  ℕ, zero, suc, ◌+◌, ◌-◌, ◌/◌, ◌%◌, ◌^◌, ◌==◌, String, str_eq, Bool, true, false, ◌&&◌, ◌||◌, not,
  List, [], ◌∷◌, Option, none, some, length, get_elem?, set, ltb, leb, if◌then◌else◌,
}
use tidb_tools.Prelude.Int.{ℤ, pos, negsuc}
use tidb_tools.Prelude.Text.{◌+s◌, to_lower}
use tidb_tools.ColumnMapping.Partition.{PartitionRule, Arguments, Ids, parse_digits, partition_id}

-- `Expr` is a string: one of the three built-in expressions, or any other text
pub data Expr : Type 0 where
  add_prefix_expr add_suffix_expr partition_id_expr : Expr
  other_expr : String → Expr

pub record Rule : Type 0 where
  pub pattern_schema : String
  pub pattern_table : String
  pub source_column : String
  pub target_column : String
  pub expression : Expr
  pub arguments : List String
  pub create_table_query : String

unfoldable pub to_lower_rule : Rule → Rule
unfolding to_lower
to_lower_rule r = record r {
  pattern_schema = to_lower r.pattern_schema;
  pattern_table = to_lower r.pattern_table;
}

-- the tests of `Valid` on the number of arguments
abbrev pub arguments_fit : Expr → ℕ → Bool
arguments_fit add_prefix_expr n = n == 1
arguments_fit add_suffix_expr n = n == 1
arguments_fit partition_id_expr n = n == 3 || n == 4
arguments_fit (other_expr s) n = false

-- `Valid`, true where it returns no error
unfoldable pub valid : Rule → Bool
valid r = arguments_fit r.expression (length r.arguments) && not (str_eq r.target_column "")

abbrev pub adjusted : Expr → List String → List String
adjusted partition_id_expr (a ∷ b ∷ c ∷ []) = a ∷ b ∷ c ∷ "" ∷ []
adjusted _ arguments = arguments

unfoldable pub adjust : Rule → Rule
adjust r = record r { arguments = adjusted r.expression r.arguments }

-- The values of a row by their dynamic types: int, int8, int32 and int64; uint, uint16, uint32 and
-- uint64; string; and all others.
pub data Value : Type 0 where
  signed : ℤ → Value
  unsigned : ℕ → Value
  text : String → Value
  other_value : Value

-- The values, an error, or a panic on an index out of range.
pub data Outcome : Type 0 where
  values : List Value → Outcome
  failed panics : Outcome

abbrev pub concatenated : List Value → ℕ → (String → String) → Option Value → Outcome
concatenated vals target f none = panics
concatenated vals target f (some (text s)) = values (set vals target (text (f s)))
concatenated vals target f (some _) = failed

abbrev pub with_argument : Option String → (String → Outcome) → Outcome
with_argument none f = panics
with_argument (some a) f = f a

unfoldable pub add_prefix : List String → ℕ → List Value → Outcome
add_prefix arguments target vals =
    with_argument (get_elem? arguments 0)
      (λ prefix. concatenated vals target (λ s. prefix +s s) (get_elem? vals target))

unfoldable pub add_suffix : List String → ℕ → List Value → Outcome
add_suffix arguments target vals =
    with_argument (get_elem? arguments 0)
      (λ suffix. concatenated vals target (λ s. s +s suffix) (get_elem? vals target))

-- `int64(rawID)` of an unsigned number
abbrev pub to_int64 : ℕ → ℤ
to_int64 n = let w = n % 2 ^ 64 in if ltb w (2 ^ 63) then pos w else negsuc (2 ^ 64 - w - 1)

abbrev pub below_limit : ℕ → Option ℕ → (ℕ → ℤ) → Option ℤ
below_limit limit none f = none
below_limit limit (some n) f = if ltb n limit then some (f n) else none

abbrev pub negated : ℕ → ℤ
negated zero = pos 0
negated (suc n) = negsuc n

-- `strconv.ParseInt(s, 10, 64)`: a sign, if any, and digits
unfoldable pub parse_int : String → Option ℤ
unfolding parse_digits
parse_int String.[] = none
parse_int (String.◌∷◌ c s) =
    if not (str_eq s "") && str_eq (String.◌∷◌ c "") "-"
    then below_limit (2 ^ 63 + 1) (parse_digits 0 s) negated
    else if not (str_eq s "") && str_eq (String.◌∷◌ c "") "+"
    then below_limit (2 ^ 63) (parse_digits 0 s) pos
    else below_limit (2 ^ 63) (parse_digits 0 (String.◌∷◌ c s)) pos

-- `strconv.FormatInt(n, 10)` of a positive int64, which has at most 19 digits
unfoldable pub format_digits : ℕ → ℕ → String
format_digits zero n = ""
format_digits (suc fuel) n =
    let rest = format_digits fuel (n / 10) in
    let digit = String.◌∷◌ (char_at "0123456789" (n % 10)) "" in
    if leb 10 n then rest +s digit else digit

-- the type switch of `partitionID`: the number, and whether it was a text
abbrev pub origin_of : Value → Option (ℤ × Bool)
origin_of (signed n) = some (n, false)
origin_of (unsigned n) = some (to_int64 n, false)
origin_of (text s) = elim (parse_int s) [ none ↦ none | some n ↦ some (n, true) ]
origin_of other_value = none

abbrev pub id_value : Bool → ℕ → Value
id_value true n = text (format_digits 19 n)
id_value false n = signed (pos n)

abbrev pub stored : List Value → ℕ → Bool → Option ℕ → Outcome
stored vals target is_chars none = failed
stored vals target is_chars (some id) = values (set vals target (id_value is_chars id))

abbrev pub placed : PartitionRule → Ids → List Value → ℕ → Option (ℤ × Bool) → Outcome
placed p ids vals target none = failed
placed p ids vals target (some (origin, is_chars)) =
    stored vals target is_chars (partition_id p ids origin)

abbrev pub partitioned : PartitionRule → Ids → List Value → ℕ → Option Value → Outcome
partitioned p ids vals target none = panics
partitioned p ids vals target (some v) = placed p ids vals target (origin_of v)

-- `partitionID`
unfoldable pub partition_id_values : PartitionRule → Ids → ℕ → List Value → Outcome
unfolding partition_id parse_int format_digits
partition_id_values p ids target vals = partitioned p ids vals target (get_elem? vals target)

-- `rule.Arguments[0]` to `rule.Arguments[3]`, as `computePartitionID` reads them
abbrev pub four_arguments : List String → Option Arguments
four_arguments (a ∷ b ∷ c ∷ d ∷ _) =
    some (record { instance_id = a; schema_prefix = b; table_prefix = c; sep = d })
four_arguments _ = none
