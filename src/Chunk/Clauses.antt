-- ===== src/Chunk/Clauses.antt =====
-- The clauses that the second loop of `Range.ToString` collects, and what they say.
use Prim.Native.Nat.{Ordering}
use tidb_tools.Prelude.{
  Option, String, ◌≡◌, refl, ◌∙◌, Bool, true, false, ◌&&◌, ◌||◌, List, [], ◌∷◌, ◌++◌, arith,
}
use tidb_tools.Chunk.Data.{Bound}
use tidb_tools.Chunk.Where.{
  Symbol, Equation, Clause, Acc, symbol_before, add_lower, add_upper, range_loop,
}
use tidb_tools.Chunk.Where
use tidb_tools.Chunk.Meaning.{is_nil, Uniform, all_equal, some_holds, above, at_most}

module _ (cmp : String → String → Ordering) (row : String → Option String) where
  some_holds-append :
      (xs ys : List Clause)
      → some_holds cmp row (xs ++ ys) ≡ (some_holds cmp row xs || some_holds cmp row ys)
  some_holds-append [] ys = refl
  some_holds-append (x ∷ xs) ys = ground (arith, some_holds-append xs ys)

  all_equal-append :
      (xs ys : List Equation)
      → all_equal cmp row (xs ++ ys) ≡ (all_equal cmp row xs && all_equal cmp row ys)
  all_equal-append [] ys = refl
  all_equal-append (x ∷ xs) ys = ground (arith, all_equal-append xs ys)

  -- What the accumulated lower clauses say, with the bounds from `bounds` on still to come.
  abbrev pub lower_meaning : List Bound → Acc → Bool
  lower_meaning bounds acc =
      some_holds cmp row acc.lower_condition
      || all_equal cmp row acc.pre_condition_for_lower && above cmp row bounds

  abbrev pub upper_meaning : List Bound → Acc → Bool
  upper_meaning bounds acc =
      some_holds cmp row acc.upper_condition
      || all_equal cmp row acc.pre_condition_for_upper && at_most cmp row bounds

  add_lower-meaning :
      (b : Bound) (bs : List Bound) (acc : Acc)
      → b.has_lower ≡ true
      → lower_meaning bs (add_lower b acc) ≡ lower_meaning (b ∷ bs) acc
  unfolding add_lower above
  add_lower-meaning b bs acc h = ground (
    arith,
    some_holds-append acc.lower_condition (
        record {
          pre = acc.pre_condition_for_lower;
          column = b.column;
          symbol = Where.gt;
          value = b.lower;
        }
        ∷ []),
    all_equal-append acc.pre_condition_for_lower
        (record { column = b.column; value = b.lower } ∷ []),
  )

  add_upper-meaning :
      (b c : Bound) (bs : List Bound) (acc : Acc)
      → b.has_upper ≡ true
      → upper_meaning (c ∷ bs) (add_upper Where.lt b acc) ≡ upper_meaning (b ∷ c ∷ bs) acc
  unfolding add_upper at_most
  add_upper-meaning b c bs acc h = ground (
    arith,
    some_holds-append acc.upper_condition (
        record {
          pre = acc.pre_condition_for_upper;
          column = b.column;
          symbol = Where.lt;
          value = b.upper;
        }
        ∷ []),
    all_equal-append acc.pre_condition_for_upper
        (record { column = b.column; value = b.upper } ∷ []),
  )

  add_upper_last :
      (b : Bound) (acc : Acc)
      → b.has_upper ≡ true
      → some_holds cmp row (add_upper Where.lte b acc).upper_condition ≡ upper_meaning (b ∷ []) acc
  unfolding add_upper at_most
  add_upper_last b acc h = ground (
    arith,
    some_holds-append acc.upper_condition (
        record {
          pre = acc.pre_condition_for_upper;
          column = b.column;
          symbol = Where.lte;
          value = b.upper;
        }
        ∷ []),
  )

  -- Each of the two steps leaves the other's fields alone.
  lower_meaning-add_upper :
      (s : Symbol) (b : Bound) (bs : List Bound) (acc : Acc)
      → lower_meaning bs (add_upper s b acc) ≡ lower_meaning bs acc
  unfolding add_upper
  lower_meaning-add_upper s b bs acc = ground arith

  upper_meaning-add_lower :
      (b : Bound) (bs : List Bound) (acc : Acc)
      → upper_meaning bs (add_lower b acc) ≡ upper_meaning bs acc
  unfolding add_lower
  upper_meaning-add_lower b bs acc = ground arith

  pub range_loop-lower :
      (u : Bool) (bs : List Bound) (acc : Acc)
      → Uniform true u bs
      → some_holds cmp row (range_loop bs acc).lower_condition ≡ lower_meaning bs acc
  unfolding range_loop above
  range_loop-lower u [] acc h = ground arith
  range_loop-lower u (b ∷ bs) acc h =
      let s = symbol_before bs in
      range_loop-lower u bs (add_upper s b (add_lower b acc)) h.1
      ∙ lower_meaning-add_upper s b bs (add_lower b acc)
      ∙ add_lower-meaning b bs acc h.0.0

  pub range_loop-upper :
      (l : Bool) (b : Bound) (bs : List Bound) (acc : Acc)
      → Uniform l true (b ∷ bs)
      → some_holds cmp row (range_loop (b ∷ bs) acc).upper_condition ≡ upper_meaning (b ∷ bs) acc
  unfolding range_loop
  range_loop-upper l b [] acc h =
      add_upper_last b (add_lower b acc) h.0.1 ∙ upper_meaning-add_lower b (b ∷ []) acc
  range_loop-upper l b (c ∷ bs) acc h =
      range_loop-upper l c bs (add_upper Where.lt b (add_lower b acc)) h.1
      ∙ add_upper-meaning b c bs (add_lower b acc) h.0.1
      ∙ upper_meaning-add_lower b (b ∷ c ∷ bs) acc

-- A part that no bound feeds stays as it was.
pub range_loop-no_lower :
    (u : Bool) (bs : List Bound) (acc : Acc)
    → Uniform false u bs
    → (range_loop bs acc).lower_condition ≡ acc.lower_condition
unfolding range_loop add_lower add_upper
range_loop-no_lower u [] acc h = refl
range_loop-no_lower u (b ∷ bs) acc h =
    let acc' = add_upper (symbol_before bs) b (add_lower b acc) in
    ground (arith, range_loop-no_lower u bs acc')

pub range_loop-no_upper :
    (l : Bool) (bs : List Bound) (acc : Acc)
    → Uniform l false bs
    → (range_loop bs acc).upper_condition ≡ acc.upper_condition
unfolding range_loop add_lower add_upper
range_loop-no_upper l [] acc h = refl
range_loop-no_upper l (b ∷ bs) acc h =
    let acc' = add_upper (symbol_before bs) b (add_lower b acc) in
    ground (arith, range_loop-no_upper l bs acc')

is_nil-append {ℓ} : {A : Type ℓ} (xs : List A) (x : A) → is_nil (xs ++ x ∷ []) ≡ false
is_nil-append [] x = refl
is_nil-append (y ∷ xs) x = refl

pub is_nil-range_loop_lower :
    (u : Bool) (bs : List Bound) (acc : Acc)
    → Uniform true u bs
    → is_nil (range_loop bs acc).lower_condition ≡ (is_nil acc.lower_condition && is_nil bs)
unfolding range_loop add_lower add_upper
is_nil-range_loop_lower u [] acc h = ground arith
is_nil-range_loop_lower u (b ∷ bs) acc h =
    let acc' = add_upper (symbol_before bs) b (add_lower b acc) in
    ground (
      arith,
      is_nil-range_loop_lower u bs acc',
      is_nil-append acc.lower_condition (record {
        pre = acc.pre_condition_for_lower;
        column = b.column;
        symbol = Where.gt;
        value = b.lower;
      }),
    )

pub is_nil-range_loop_upper :
    (l : Bool) (bs : List Bound) (acc : Acc)
    → Uniform l true bs
    → is_nil (range_loop bs acc).upper_condition ≡ (is_nil acc.upper_condition && is_nil bs)
unfolding range_loop add_lower add_upper
is_nil-range_loop_upper l [] acc h = ground arith
is_nil-range_loop_upper l (b ∷ bs) acc h =
    let acc' = add_upper (symbol_before bs) b (add_lower b acc) in
    ground (
      arith,
      is_nil-range_loop_upper l bs acc',
      is_nil-append acc.upper_condition (record {
        pre = acc.pre_condition_for_upper;
        column = b.column;
        symbol = symbol_before bs;
        value = b.upper;
      }),
    )
