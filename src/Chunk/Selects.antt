-- ===== src/Chunk/Selects.antt =====
-- The condition of `Range.ToString` in sync_diff_inspector/chunk/chunk.go, and the rows between the bounds.
use Prim.Native.Nat.{Ordering}
use tidb_tools.Prelude.{
  Option, String, str_eq_iff, ◌≡◌, refl, ◌∙◌, Bool, true, false, ◌&&◌, List, [], ◌∷◌, arith,
  Bool-cases, inl, inr,
}
use tidb_tools.Chunk.Data.{Bound}
use tidb_tools.Chunk.Where.{
  Equation, Clause, acc_init, parts, parts_or_always, range_loop, is_same, same_loop,
  condition_from, condition,
}
use tidb_tools.Chunk.Meaning.{is_nil, Uniform, all_equal, holds_clauses, holds, above, inside}
use tidb_tools.Chunk.Clauses.{
  range_loop-lower, range_loop-upper, range_loop-no_lower, range_loop-no_upper,
  is_nil-range_loop_lower, is_nil-range_loop_upper,
}

module _ (cmp : String → String → Ordering) (row : String → Option String) where
  holds-parts_or_always :
      (same : List Equation) (lowers uppers : List Clause)
      → holds cmp row (parts_or_always same lowers uppers)
        ≡ holds cmp row (parts same lowers uppers)
  holds-parts_or_always [] [] [] = refl
  holds-parts_or_always [] [] (_ ∷ _) = refl
  holds-parts_or_always [] (_ ∷ _) uppers = refl
  holds-parts_or_always (_ ∷ _) lowers uppers = refl

  -- The two lists of clauses of a range with at least one bound.
  lowers-inside :
      (l u : Bool) (b : Bound) (bs : List Bound)
      → Uniform l u (b ∷ bs)
      → holds_clauses cmp row (range_loop (b ∷ bs) acc_init).lower_condition
        ≡ inside cmp row l false (b ∷ bs)
  unfolding inside
  lowers-inside true u b bs h = ground (
    arith,
    range_loop-lower cmp row u (b ∷ bs) acc_init,
    is_nil-range_loop_lower u (b ∷ bs) acc_init,
  )
  lowers-inside false u b bs h = ground (arith, range_loop-no_lower u (b ∷ bs) acc_init)

  uppers-inside :
      (l u : Bool) (b : Bound) (bs : List Bound)
      → Uniform l u (b ∷ bs)
      → holds_clauses cmp row (range_loop (b ∷ bs) acc_init).upper_condition
        ≡ inside cmp row false u (b ∷ bs)
  unfolding inside
  uppers-inside l true b bs h =
      ground (
        arith,
        range_loop-upper cmp row l b bs acc_init,
        is_nil-range_loop_upper l (b ∷ bs) acc_init,
      )
  uppers-inside l false b bs h = ground (arith, range_loop-no_upper l (b ∷ bs) acc_init)

  inside-split :
      (l u : Bool) (bs : List Bound)
      → (inside cmp row l false bs && inside cmp row false u bs) ≡ inside cmp row l u bs
  unfolding inside
  inside-split l u bs = ground arith

  -- The columns on which both ends agree only ask for equality.
  same_loop-inside :
      (l u : Bool) (bs : List Bound)
      → Uniform l u bs
      → (all_equal cmp row (same_loop bs).0 && inside cmp row l u (same_loop bs).1)
        ≡ inside cmp row l u bs
  unfolding same_loop inside
  same_loop-inside l u [] h = refl
  same_loop-inside l u (b ∷ bs) h =
      ground (arith, same_loop-inside l u bs h.1, str_eq_iff b.lower b.upper)

  same_loop-Uniform : (l u : Bool) (bs : List Bound) → Uniform l u bs → Uniform l u (same_loop bs).1
  unfolding same_loop
  same_loop-Uniform l u [] h = h
  same_loop-Uniform l u (b ∷ bs) h = elim (Bool-cases (is_same b)) [
    | inl e ↦ rw e (same_loop-Uniform l u bs h.1)
    | inr e ↦ rw e h
  ]

  -- The condition from what the first loop leaves, where that is no empty pair of lists.
  condition_from-inside :
      (l u : Bool) (same : List Equation) (rest : List Bound)
      → Uniform l u rest
      → (is_nil same && is_nil rest) ≡ false
      → (is_nil same ≡ false → l ≡ true)
      → holds cmp row (condition_from (same, rest))
        ≡ (all_equal cmp row same && inside cmp row l u rest)
  condition_from-inside l u [] [] h n both = cc
  condition_from-inside l u (e ∷ same) [] h n both =
      unfold inside above in ground (arith, both refl)
  condition_from-inside l u [] (b ∷ bs) h n both =
      let acc = range_loop (b ∷ bs) acc_init in
      holds-parts_or_always [] acc.lower_condition acc.upper_condition
      ∙ ground
          (arith, lowers-inside l u b bs h, uppers-inside l u b bs h, inside-split l u (b ∷ bs))
  condition_from-inside l u (e ∷ same) (b ∷ bs) h n both =
      ground (arith, lowers-inside l u b bs h, uppers-inside l u b bs h, inside-split l u (b ∷ bs))

  same_loop-nil :
      (l u : Bool) (b : Bound) (bs : List Bound)
      → Uniform l u (b ∷ bs)
      → ((is_nil (same_loop (b ∷ bs)).0 && is_nil (same_loop (b ∷ bs)).1) ≡ false)
        × (is_nil (same_loop (b ∷ bs)).0 ≡ false → l ≡ true)
  unfolding same_loop
  same_loop-nil l u b bs h = ground arith

-- Let every bound of a chunk with at least one bound have a lower end or none have one, and
-- likewise the upper ends. Then the condition that `ToString` writes selects exactly the rows that
-- lie after the lower ends and before or at the upper ends, in the lexicographic order of the
-- columns under the database's comparison, where a row whose first undecided column is NULL lies in no
-- range.
pub condition-inside :
    (cmp : String → String → Ordering) (row : String → Option String) (l u : Bool) (b : Bound)
    (bs : List Bound)
    → Uniform l u (b ∷ bs)
    → holds cmp row (condition (b ∷ bs)) ≡ inside cmp row l u (b ∷ bs)
unfolding condition
condition-inside cmp row l u b bs h =
    let (some_part, both) = same_loop-nil cmp row l u b bs h in
    let (same, rest) = same_loop (b ∷ bs) in
    condition_from-inside cmp row l u same rest (same_loop-Uniform cmp row l u (b ∷ bs) h) some_part
      both
    ∙ same_loop-inside cmp row l u (b ∷ bs) h
