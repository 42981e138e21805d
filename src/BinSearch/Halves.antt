-- ===== src/BinSearch/Halves.antt =====
-- The two halves of a chunk at the values of a row.
use Prim.Native.Nat.{Ordering}
use tidb_tools.Prelude.{
  All, Option, ℕ, suc, ◌≡◌, refl, sym, ap, ◌∙◌, String, Bool, true, false, not, List, [], ◌∷◌, ◌++◌,
  map, some, length, length-append, get_elem?, set, arith,
}
use mathlib.Core.List.{append_assoc}
use tidb_tools.Prelude.Dict.{Dict, lookup}
use tidb_tools.Chunk.Data.{Bound, Range}
use tidb_tools.Chunk.Build
use tidb_tools.Chunk.Build.{update_at, update_bound}
use tidb_tools.Chunk.Where.{condition}
use tidb_tools.Chunk.Meaning.{Uniform, holds, above, at_most, inside}
use tidb_tools.Chunk.Offsets.{bounds-copy}
use tidb_tools.Chunk.Selects.{condition-inside}
use tidb_tools.BinSearch.{RangeInfo, done, update, with_condition, value_of, set_bounds, copy}

abbrev pub columns_of : List Bound → List String
columns_of = map (λ (b : Bound). b.column)

module _ (mid : Dict String) where
  -- The bounds with the row's values as upper ends, and as lower ends.
  abbrev pub uppers : List Bound → List Bound
  uppers =
      map (λ (b : Bound). record b { upper = value_of (lookup b.column mid); has_upper = true })

  abbrev pub lowers : List Bound → List Bound
  lowers =
      map (λ (b : Bound). record b { lower = value_of (lookup b.column mid); has_lower = true })

-- The row has a value, and not NULL, in the columns of the bounds.
abbrev pub Known : (String → Option String) → List Bound → Type 0
Known row = All (λ (b : Bound). (v : String) × (row b.column ≡ some v))

-- The columns have the offsets from `k` on.
abbrev pub Offsets : ℕ → List String → Dict ℕ → Type 0
Offsets k [] offsets = Unit {0}
Offsets k (c ∷ cs) offsets = (lookup c offsets ≡ some k) × Offsets (suc k) cs offsets

get_elem?-append {ℓ} :
    {A : Type ℓ} (xs : List A) (y : A) (ys : List A) → get_elem? (xs ++ y ∷ ys) (length xs) ≡ some y
get_elem?-append [] y ys = refl
get_elem?-append (x ∷ xs) y ys = get_elem?-append xs y ys

set-append {ℓ} :
    {A : Type ℓ} (xs : List A) (y : A) (ys : List A) (v : A)
    → set (xs ++ y ∷ ys) (length xs) v ≡ xs ++ v ∷ ys
set-append [] y ys v = refl
set-append (x ∷ xs) y ys v = ap (λ zs. x ∷ zs) (set-append xs y ys v)

-- `Update` of a chunk at the column of a bound that stands behind those in `before`.
update-some :
    (c : Range) (before : List Bound) (b : Bound) (rest : List Bound) (lower upper : String)
    (l u : Bool)
    → c.bounds ≡ before ++ b ∷ rest
    → lookup b.column c.column_offset ≡ some (length before)
    → Build.update c b.column lower upper l u
      ≡ some (record c { bounds = before ++ update_bound lower upper l u b ∷ rest })
unfolding Build.update update_at
update-some c before b rest lower upper l u at_bounds at_offset =
    rw (at_offset, Build.update)
      (rw (at_bounds, get_elem?-append before b rest)
        (ap (λ bs. some (record c { bounds = bs }))
          (set-append before b rest (update_bound lower upper l u b))))

update-done :
    (r : RangeInfo) (before : List Bound) (b : Bound) (rest : List Bound) (lower upper : String)
    (l u : Bool) (collation limits : String)
    → r.chunk_range.bounds ≡ before ++ b ∷ rest
    → lookup b.column r.chunk_range.column_offset ≡ some (length before)
    → (r' : RangeInfo) × (update r b.column lower upper l u collation limits ≡ done r')
      × (r'.chunk_range.bounds ≡ before ++ update_bound lower upper l u b ∷ rest)
      × (r'.chunk_range.column_offset ≡ r.chunk_range.column_offset)
unfolding update
update-done r before b rest lower upper l u collation limits at_bounds at_offset = (
  _,
  ap (with_condition r collation limits)
      (update-some r.chunk_range before b rest lower upper l u at_bounds at_offset),
  refl,
  refl,
)

regroup :
    (bs before : List Bound) (b : Bound) (rest : List Bound)
    → bs ≡ before ++ b ∷ rest
    → bs ≡ (before ++ b ∷ []) ++ rest
regroup bs before b rest e = e ∙ sym (append_assoc before (b ∷ []) rest)

length-snoc : (bs : List Bound) (b : Bound) (k : ℕ) → length bs ≡ k → length (bs ++ b ∷ []) ≡ suc k
length-snoc bs b k e = omega (arith, length-append bs (b ∷ []))

-- The loop gives the first half the row's values as upper ends, and the second as lower ends.
set_bounds-done :
    (collation limits : String) (mid : Dict String) (rest d1 d2 : List Bound) (k : ℕ)
    (r1 r2 : RangeInfo)
    → r1.chunk_range.bounds ≡ d1 ++ rest
    → r2.chunk_range.bounds ≡ d2 ++ rest
    → length d1 ≡ k
    → length d2 ≡ k
    → Offsets k (columns_of rest) r1.chunk_range.column_offset
    → Offsets k (columns_of rest) r2.chunk_range.column_offset
    → (h : RangeInfo × RangeInfo) × (set_bounds collation limits mid (columns_of rest) r1 r2
        ≡ done h)
      × (h.0.chunk_range.bounds ≡ d1 ++ uppers mid rest)
      × (h.1.chunk_range.bounds ≡ d2 ++ lowers mid rest)
unfolding set_bounds update_bound
set_bounds-done collation limits mid [] d1 d2 k r1 r2 p q m n i j = ((r1, r2), refl, p, q)
set_bounds-done collation limits mid (b ∷ rest) d1 d2 k r1 r2 p q m n i j =
    let v = value_of (lookup b.column mid) in
    let (r1', e1, p1, o1) =
      update-done r1 d1 b rest "" v false true collation limits p
        (i.0 ∙ ap (λ x. some x) (sym m)) in
    let (r2', e2, p2, o2) =
      update-done r2 d2 b rest v "" true false collation limits q
        (j.0 ∙ ap (λ x. some x) (sym n)) in
    let b1 : Bound = record b { upper = v; has_upper = true } in
    let b2 : Bound = record b { lower = v; has_lower = true } in
    let (h, e, p3, q3) =
      set_bounds-done collation limits mid rest (d1 ++ b1 ∷ []) (d2 ++ b2 ∷ []) (suc k) r1' r2'
        (regroup _ d1 b1 rest p1) (regroup _ d2 b2 rest p2) (length-snoc d1 b1 k m)
        (length-snoc d2 b2 k n) (rw o1 (i.1)) (rw o2 (j.1)) in
    (
      h,
      rw (e1, e2) e,
      p3 ∙ append_assoc d1 (b1 ∷ []) (uppers mid rest),
      q3 ∙ append_assoc d2 (b2 ∷ []) (lowers mid rest),
    )

module _ (cmp : String → String → Ordering) (row : String → Option String) (mid : Dict String) where
  above-uppers : (bs : List Bound) → above cmp row (uppers mid bs) ≡ above cmp row bs
  unfolding above
  above-uppers [] = refl
  above-uppers (b ∷ bs) = ground (arith, above-uppers bs)

  at_most-lowers : (bs : List Bound) → at_most cmp row (lowers mid bs) ≡ at_most cmp row bs
  unfolding at_most
  at_most-lowers [] = refl
  at_most-lowers (b ∷ bs) = ground (arith, at_most-lowers bs)

  -- A row without NULL lies after the values exactly where it does not lie before or at them.
  above-lowers :
      (bs : List Bound)
      → Known row bs
      → above cmp row (lowers mid bs) ≡ not (at_most cmp row (uppers mid bs))
  unfolding above at_most
  above-lowers [] k = refl
  above-lowers (b ∷ bs) k = let (v, e) = k.0 in ground (arith, above-lowers bs k.1)

  inside-halves :
      (l u : Bool) (bs : List Bound)
      → Known row bs
      → inside cmp row l u bs ≡ true
      → inside cmp row l true (uppers mid bs) ≡ not (inside cmp row true u (lowers mid bs))
  unfolding inside
  inside-halves l u bs k h = ground (arith, above-uppers bs, at_most-lowers bs, above-lowers bs k)

  uppers-Uniform : (l u : Bool) (bs : List Bound) → Uniform l u bs → Uniform l true (uppers mid bs)
  uppers-Uniform l u [] h = tt
  uppers-Uniform l u (b ∷ bs) h = ((h.0.0, refl), uppers-Uniform l u bs h.1)

  lowers-Uniform : (l u : Bool) (bs : List Bound) → Uniform l u bs → Uniform true u (lowers mid bs)
  lowers-Uniform l u [] h = tt
  lowers-Uniform l u (b ∷ bs) h = ((refl, h.0.1), lowers-Uniform l u bs h.1)

copied-bounds : (r : RangeInfo) → (copy r).chunk_range.bounds ≡ r.chunk_range.bounds
unfolding copy Build.clone
copied-bounds r = bounds-copy r.chunk_range

-- Let each bound of a chunk have a lower end or none, and likewise the upper ends, let its copy know
-- the places of its bounds, and let the columns of the bounds be those of the index. Then setting
-- the ends of the two halves at the values of a row does not panic, and a row that the condition of
-- the chunk selects is selected by the condition of exactly one of the halves, provided that it has
-- no NULL in these columns.
pub set_bounds-holds :
    (cmp : String → String → Ordering) (row : String → Option String) (collation limits : String)
    (mid : Dict String) (l u : Bool) (b : Bound) (bs : List Bound) (r : RangeInfo)
    → r.chunk_range.bounds ≡ b ∷ bs
    → Uniform l u (b ∷ bs)
    → Offsets 0 (columns_of (b ∷ bs)) (copy r).chunk_range.column_offset
    → Known row (b ∷ bs)
    → holds cmp row (condition r.chunk_range.bounds) ≡ true
    → (h : RangeInfo × RangeInfo) × (set_bounds collation limits mid
          (columns_of (b ∷ bs))
          (copy r)
          (copy r)
        ≡ done h)
      × (holds cmp row (condition h.0.chunk_range.bounds)
          ≡ not (holds cmp row (condition h.1.chunk_range.bounds)))
set_bounds-holds cmp row collation limits mid l u b bs r at_bounds uniform offsets known selected =
    let copied = copied-bounds r ∙ at_bounds in
    let (h, e, p, q) =
      set_bounds-done collation limits mid (b ∷ bs) [] [] 0 (copy r) (copy r) copied copied refl
        refl offsets offsets in
    let within : inside cmp row l u (b ∷ bs) ≡ true =
      sym (condition-inside cmp row l u b bs uniform)
      ∙ ap (λ xs. holds cmp row (condition xs)) (sym at_bounds)
      ∙ selected in
    (
      h,
      e,
      ap (λ xs. holds cmp row (condition xs)) p
          ∙ condition-inside cmp row l true _ _ (uppers-Uniform cmp row mid l u (b ∷ bs) uniform)
          ∙ inside-halves cmp row mid l u (b ∷ bs) known within
          ∙ ap not (
              sym (
                condition-inside cmp row true u _ _
                  (lowers-Uniform cmp row mid l u (b ∷ bs) uniform))
              ∙ ap (λ xs. holds cmp row (condition xs)) (sym q)),
    )
