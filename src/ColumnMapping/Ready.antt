-- ===== src/ColumnMapping/Ready.antt =====
-- What `Valid` and `Adjust` of pkg/column-mapping/column.go make sure of for the expressions, and
-- what an expression changes in a row.
use tidb_tools.Prelude.{
  ℕ, zero, suc, ◌<◌, ◌≡◌, ◌≢◌, ◌==◌, String, Bool, true, ◌&&◌, ◌||◌, List, [], ◌∷◌, none, length,
  get_elem?, arith,
}
use tidb_tools.ColumnMapping.Rule.{
  Rule, Expr, add_prefix_expr, add_suffix_expr, partition_id_expr, other_expr, arguments_fit, valid,
  adjusted, adjust, Value, text, signed, unsigned, other_value, panics, concatenated, add_prefix,
  add_suffix, four_arguments,
}

-- The expression finds the arguments that it reads: no index is out of range but for a target that
-- the row does not have.
abbrev pub Ready : Expr → List String → Type 0
Ready add_prefix_expr arguments =
    (target : ℕ) (vals : List Value)
    → target < length vals
    → add_prefix arguments target vals ≢ panics
Ready add_suffix_expr arguments =
    (target : ℕ) (vals : List Value)
    → target < length vals
    → add_suffix arguments target vals ≢ panics
Ready partition_id_expr arguments = four_arguments arguments ≢ none
Ready (other_expr s) arguments = ⊥

concatenated_in_range :
    (vals all : List Value) (target at : ℕ) (f : String → String)
    → at < length vals
    → concatenated all target f (get_elem? vals at) ≢ panics
concatenated_in_range [] all target at f h p = absurd (omega arith)
concatenated_in_range (text s ∷ vals) all target zero f h p = cc
concatenated_in_range (signed n ∷ vals) all target zero f h p = cc
concatenated_in_range (unsigned n ∷ vals) all target zero f h p = cc
concatenated_in_range (other_value ∷ vals) all target zero f h p = cc
concatenated_in_range (v ∷ vals) all target (suc at) f h p =
    concatenated_in_range vals all target at f (omega arith) p

prefix-Ready :
    (arguments : List String) → (length arguments == 1) ≡ true → Ready add_prefix_expr arguments
unfolding add_prefix
prefix-Ready [] h = cc
prefix-Ready (a ∷ b ∷ rest) h = absurd (ground arith)
prefix-Ready (a ∷ []) h =
    λ target vals inside. concatenated_in_range vals vals target target _ inside

suffix-Ready :
    (arguments : List String) → (length arguments == 1) ≡ true → Ready add_suffix_expr arguments
unfolding add_suffix
suffix-Ready [] h = cc
suffix-Ready (a ∷ b ∷ rest) h = absurd (ground arith)
suffix-Ready (a ∷ []) h =
    λ target vals inside. concatenated_in_range vals vals target target _ inside

four_arguments_there :
    (arguments : List String)
    → (length arguments == 3 || length arguments == 4) ≡ true
    → four_arguments (adjusted partition_id_expr arguments) ≢ none
four_arguments_there [] h e = cc
four_arguments_there (a ∷ []) h e = cc
four_arguments_there (a ∷ b ∷ []) h e = cc
four_arguments_there (a ∷ b ∷ c ∷ []) h e = cc
four_arguments_there (a ∷ b ∷ c ∷ d ∷ rest) h e = cc

expression-Ready :
    (x : Expr) (arguments : List String)
    → arguments_fit x (length arguments) ≡ true
    → Ready x (adjusted x arguments)
expression-Ready add_prefix_expr arguments h = prefix-Ready arguments h
expression-Ready add_suffix_expr arguments h = suffix-Ready arguments h
expression-Ready partition_id_expr arguments h = four_arguments_there arguments h
expression-Ready (other_expr s) arguments h = cc

fits_of : (a b : Bool) → (a && b) ≡ true → a ≡ true
fits_of a b h = ground arith

-- For every rule that `Valid` accepts, after `Adjust` its expression is one of the built-in ones and
-- finds its arguments: "add prefix" and "add suffix" do not panic on any row that has the target
-- column, and "partition id" finds all of its four arguments.
pub adjust-Ready : (r : Rule) → valid r ≡ true → Ready (adjust r).expression (adjust r).arguments
unfolding valid adjust
adjust-Ready r h = expression-Ready r.expression r.arguments (fits_of _ _ h)
