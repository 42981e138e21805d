-- ===== src/Chunk/Where.antt =====
-- `Range.ToString` of sync_diff_inspector/chunk/chunk.go: the SQL condition of a chunk, with its
-- arguments. The slices of texts and of arguments that the loop fills side by side are one list of
-- parts here, each with its text and its arguments.
use tidb_tools.Prelude.{
  String, str_eq, Bool, ◌&&◌, List, [], ◌∷◌, ◌++◌, map, Option, none, some, if◌then◌else◌,
}
use mathlib.Core.List.{flat_map}
use tidb_tools.Prelude.Text.{◌+s◌, join, to_lower, replace_backquote}
use tidb_tools.Chunk.Data.{Bound, ColumnInfo, Range}

-- `dbutil.ColumnName` with its `escapeName`
unfoldable pub column_name : String → String
unfolding replace_backquote
column_name column = "`" +s replace_backquote column +s "`"

-- the loop over the columns, which ends at the first of that name
unfoldable pub add_collation : List ColumnInfo → String → String → String → String
unfolding to_lower
add_collation [] col_name collation name = name
add_collation (col ∷ columns) col_name collation name =
    if str_eq col.name_l (to_lower col_name)
    then (if str_eq col.charset "binary" then name else name +s " COLLATE '" +s collation +s "'")
    else add_collation columns col_name collation name

abbrev pub columns_of : Option (List ColumnInfo) → List ColumnInfo
columns_of none = []
columns_of (some columns) = columns

unfoldable pub build_column_name : Range → String → String → String
unfolding column_name add_collation
build_column_name r col_name collation =
    if str_eq collation ""
    then column_name col_name
    else add_collation (columns_of r.table_info) col_name collation (column_name col_name)

-- The symbols `<`, `<=` and `>`.
pub data Symbol : Type 0 where
  lt lte gt : Symbol

abbrev pub symbol_text : Symbol → String
symbol_text lt = "<"
symbol_text lte = "<="
symbol_text gt = ">"

-- `column = ?` with its argument
pub record Equation : Type 0 where
  pub column : String
  pub value : String

-- `(pre AND column symbol ?)` with its arguments
pub record Clause : Type 0 where
  pub pre : List Equation
  pub column : String
  pub symbol : Symbol
  pub value : String

-- What the second loop keeps from one bound to the next.
pub record Acc : Type 0 where
  pub lower_condition : List Clause
  pub upper_condition : List Clause
  pub pre_condition_for_lower : List Equation
  pub pre_condition_for_upper : List Equation

abbrev pub acc_init : Acc
acc_init = record {
  lower_condition = [];
  upper_condition = [];
  pre_condition_for_lower = [];
  pre_condition_for_upper = [];
}

unfoldable pub add_lower : Bound → Acc → Acc
add_lower bound acc =
    if bound.has_lower
    then record acc {
      lower_condition =
          acc.lower_condition
          ++ record {
            pre = acc.pre_condition_for_lower;
            column = bound.column;
            symbol = gt;
            value = bound.lower;
          }
            ∷ [];
      pre_condition_for_lower =
          acc.pre_condition_for_lower ++ record { column = bound.column; value = bound.lower } ∷ [];
    }
    else acc

unfoldable pub add_upper : Symbol → Bound → Acc → Acc
add_upper upper_symbol bound acc =
    if bound.has_upper
    then record acc {
      upper_condition =
          acc.upper_condition
          ++ record {
            pre = acc.pre_condition_for_upper;
            column = bound.column;
            symbol = upper_symbol;
            value = bound.upper;
          }
            ∷ [];
      pre_condition_for_upper =
          acc.pre_condition_for_upper ++ record { column = bound.column; value = bound.upper } ∷ [];
    }
    else acc

-- `if i == len(c.Bounds)-1 { upperSymbol = lte }`
abbrev pub symbol_before : List Bound → Symbol
symbol_before [] = lte
symbol_before (_ ∷ _) = lt

-- the second loop, over the bounds from `i` on
unfoldable pub range_loop : List Bound → Acc → Acc
unfolding add_lower add_upper
range_loop [] acc = acc
range_loop (bound ∷ bounds) acc =
    range_loop bounds (add_upper (symbol_before bounds) bound (add_lower bound acc))

-- the test of the first loop
unfoldable pub is_same : Bound → Bool
is_same b = b.has_lower && b.has_upper && str_eq b.lower b.upper

-- the first loop: `sameCondition`, and the bounds that are left
unfoldable pub same_loop : List Bound → List Equation × List Bound
unfolding is_same
same_loop [] = ([], [])
same_loop (b ∷ bs) =
    let (same, rest) = same_loop bs in
    if is_same b then (record { column = b.column; value = b.lower } ∷ same, rest) else ([], b ∷ bs)

-- The condition before it is written out.
pub data Condition : Type 0 where
  always never : Condition
  parts : List Equation → List Clause → List Clause → Condition

abbrev pub parts_or_always : List Equation → List Clause → List Clause → Condition
parts_or_always [] [] [] = always
parts_or_always same lowers uppers = parts same lowers uppers

-- `i == len(c.Bounds) && i > 0`
abbrev pub condition_from : List Equation × List Bound → Condition
condition_from (e ∷ same, []) = never
condition_from (same, bounds) =
    let acc = range_loop bounds acc_init in
    parts_or_always same acc.lower_condition acc.upper_condition

unfoldable pub condition : List Bound → Condition
unfolding same_loop range_loop
condition bounds = condition_from (same_loop bounds)

module _ (column_text : String → String) where
  equation_text : Equation → String
  equation_text e = column_text e.column +s " = ?"

  clause_text : Clause → String
  unfolding equation_text join
  clause_text c = elim c.pre [
    | [] ↦ "(" +s column_text c.column +s " " +s symbol_text c.symbol +s " ?)"
    | _ ↦
        "("
        +s join (map equation_text c.pre) " AND "
        +s " AND "
        +s column_text c.column
        +s " "
        +s symbol_text c.symbol
        +s " ?)"
  ]

abbrev equation_args : Equation → List String
equation_args e = e.value ∷ []

abbrev clause_args : Clause → List String
clause_args c = flat_map equation_args c.pre ++ c.value ∷ []

-- A list that is empty has no text, and is left out below.
abbrev present : List String → String → List String
present [] sep = []
present (t ∷ ts) sep = join (t ∷ ts) sep ∷ []

abbrev parenthesised : String → String
parenthesised t = "(" +s t +s ")"

-- `%s` for one text, `(%s) AND (%s)` and so on for more
abbrev conjoin : List String → String
conjoin (t ∷ []) = t
conjoin ts = join (map parenthesised ts) " AND "

unfoldable pub render : (String → String) → Condition → String × List String
unfolding equation_text clause_text join flat_map
render column_text always = ("TRUE", [])
render column_text never = ("FALSE", [])
render column_text (parts same lowers uppers) = (
  conjoin (
      present (map (equation_text column_text) same) " AND "
      ++ (present (map (clause_text column_text) lowers) " OR "
          ++ present (map (clause_text column_text) uppers) " OR ")),
  flat_map equation_args same ++ (flat_map clause_args lowers ++ flat_map clause_args uppers),
)

unfoldable pub to_string : Range → String → String × List String
unfolding render condition build_column_name
to_string c collation = render (λ column. build_column_name c column collation) (condition c.bounds)
