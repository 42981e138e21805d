-- ===== src/Chunk/Meaning.antt =====
-- What the SQL condition of `Range.ToString` selects. A row gives each column a value or NULL, and
-- `cmp` is the database's comparison of a value with a bound, under the collation. A comparison with
-- NULL is unknown: as the conditions have no NOT, an unknown part selects no more than a false one.
use Prim.Native.Nat.{Ordering}
use tidb_tools.Prelude.{
  String, ◌≡◌, Bool, true, false, ◌&&◌, ◌||◌, List, [], ◌∷◌, Option, none, some, if◌then◌else◌, All,
}
use tidb_tools.Chunk.Data.{Bound}
use tidb_tools.Chunk.Where.{
  Symbol, Equation, Clause, Acc, acc_init, Condition, always, never, parts, parts_or_always,
  symbol_before, add_lower, add_upper, range_loop, is_same, same_loop, condition_from, condition,
}
use tidb_tools.Chunk.Where

-- `none` is unknown.
abbrev is_eq : Option Ordering → Bool
is_eq (some Ordering.eq) = true
is_eq _ = false

abbrev is_gt : Option Ordering → Bool
is_gt (some Ordering.gt) = true
is_gt _ = false

abbrev is_lt : Option Ordering → Bool
is_lt (some Ordering.lt) = true
is_lt _ = false

abbrev is_lte : Option Ordering → Bool
is_lte (some Ordering.lt) = true
is_lte (some Ordering.eq) = true
is_lte _ = false

-- a value, or NULL, compared with a bound
abbrev pub against : (String → String → Ordering) → Option String → String → Option Ordering
against cmp none bound = none
against cmp (some value) bound = some (cmp value bound)

abbrev pub is_nil {ℓ} : {A : Type ℓ} → List A → Bool
is_nil [] = true
is_nil (_ ∷ _) = false

-- Every bound has a lower end when `l`, none when not, and likewise the upper ends and `u`.
abbrev pub Uniform : Bool → Bool → List Bound → Type 0
Uniform l u = All (λ b. (b.has_lower ≡ l) × (b.has_upper ≡ u))

module _ (cmp : String → String → Ordering) (row : String → Option String) where
  abbrev pub equal : Equation → Bool
  equal e = is_eq (against cmp (row e.column) e.value)

  abbrev pub satisfies : Symbol → Option Ordering → Bool
  satisfies Where.lt o = is_lt o
  satisfies Where.lte o = is_lte o
  satisfies Where.gt o = is_gt o

  abbrev pub all_equal : List Equation → Bool
  all_equal [] = true
  all_equal (e ∷ es) = equal e && all_equal es

  abbrev pub holds_clause : Clause → Bool
  holds_clause c = all_equal c.pre && satisfies c.symbol (against cmp (row c.column) c.value)

  abbrev pub some_holds : List Clause → Bool
  some_holds [] = false
  some_holds (c ∷ cs) = holds_clause c || some_holds cs

  -- An empty list of clauses stands for no condition.
  abbrev pub holds_clauses : List Clause → Bool
  holds_clauses cs = is_nil cs || some_holds cs

  -- The rows that a condition selects: its equations, and one clause of each list that is there.
  abbrev pub holds : Condition → Bool
  holds always = true
  holds never = false
  holds (parts same lowers uppers) = all_equal same && holds_clauses lowers && holds_clauses uppers

  -- The row lies after the lower ends, in the lexicographic order of the columns, where NULL
  -- lies nowhere.
  unfoldable pub above : List Bound → Bool
  above [] = false
  above (b ∷ bs) = elim (against cmp (row b.column) b.lower) [
    | some Ordering.gt ↦ true
    | some Ordering.eq ↦ above bs
    | some Ordering.lt ↦ false
    | none ↦ false
  ]

  -- The row lies before the upper ends or at them.
  unfoldable pub at_most : List Bound → Bool
  at_most [] = true
  at_most (b ∷ bs) = elim (against cmp (row b.column) b.upper) [
    | some Ordering.lt ↦ true
    | some Ordering.eq ↦ at_most bs
    | some Ordering.gt ↦ false
    | none ↦ false
  ]

  unfoldable pub inside : Bool → Bool → List Bound → Bool
  unfolding above at_most
  inside l u bounds = (if l then above bounds else true) && (if u then at_most bounds else true)
