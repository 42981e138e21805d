-- ===== src/Chunk/Offsets.antt =====
-- `columnOffset` of sync_diff_inspector/chunk/chunk.go: the bound of a column, and `Update`.

use tidb_tools.Prelude.{
  ℕ, ◌-◌, String, str_eq, str_eq_iff, ◌≡◌, refl, sym, ◌∙◌, inl, inr, Bool, false, List, [], ◌∷◌,
  ◌++◌, Option, none, some, length, length-append, get_elem?, set, get_elem?-append_some,
  get_elem?-append_end, get_elem?-set-some, get_elem?-set_ne, Option-cases, Bool-cases, ℕ_discrete,
  arith, if◌then◌else◌,
}
use tidb_tools.Prelude.Dict.{lookup, lookup-insert}
use tidb_tools.Chunk.Data.{Bound, ColumnInfo, Range}
use mathlib.Core.List.{append-nil, append_assoc}
use tidb_tools.Chunk.Build.{
  add_bounds, copy, copy_and_update, new_chunk_range, add_bound, update_bound, update_at, update,
}

-- Every offset that is recorded for a column is that of a bound of the column.
pub record IsIndexed (c : Range) : Type 0 where
  pub at_offset :
      (column : String) (i : ℕ)
      → lookup column c.column_offset ≡ some i
      → (b : Bound) × (get_elem? c.bounds i ≡ some b) × (b.column ≡ column)

pub new_chunk_range-IsIndexed : (t : Option (List ColumnInfo)) → IsIndexed (new_chunk_range t)
unfolding new_chunk_range lookup
new_chunk_range-IsIndexed t = record { at_offset = λ column i h. cc }

length-sub-one {ℓ} : {A : Type ℓ} (xs : List A) (x : A) → length (xs ++ x ∷ []) - 1 ≡ length xs
length-sub-one xs x = omega (arith, length-append xs (x ∷ []))

add_bound_offset :
    (c : Range) (b : Bound) (column : String)
    → lookup column (add_bound c b).column_offset
      ≡ (if str_eq b.column column then some (length c.bounds) else lookup column c.column_offset)
unfolding add_bound
add_bound_offset c b column = rw (
  lookup-insert b.column column (length (c.bounds ++ b ∷ []) - 1) c.column_offset,
  length-sub-one c.bounds b,
)

pub add_bound-IsIndexed : (c : Range) (b : Bound) → IsIndexed c → IsIndexed (add_bound c b)
add_bound-IsIndexed c b v = record { at_offset = λ column i h. split column i h }
  where
    split :
        (column : String) (i : ℕ)
        → lookup column (add_bound c b).column_offset ≡ some i
        → (x : Bound) × (get_elem? (add_bound c b).bounds i ≡ some x) × (x.column ≡ column)
    split column i h = elim (Bool-cases (str_eq b.column column)) [
      | inl e ↦
          let here : length c.bounds ≡ i = cc (add_bound_offset c b column, e) in
          (
            b,
            unfold add_bound in rw (← here) (get_elem?-append_end c.bounds b),
            (str_eq_iff b.column column).0 e,
          )
      | inr e ↦
          let (x, found, named) =
            v.at_offset column i (ground (arith, add_bound_offset c b column)) in
          (x, unfold add_bound in get_elem?-append_some c.bounds (b ∷ []) i found, named)
    ]

abbrev pub at_offset? : List Bound → Option ℕ → Option Bound
at_offset? bounds none = none
at_offset? bounds (some i) = get_elem? bounds i

-- The bound of a column, as `Update` looks it up.
abbrev pub find_bound : Range → String → Option Bound
find_bound c column = at_offset? c.bounds (lookup column c.column_offset)

-- What `Update` makes of the column's bound, or of its absence.
abbrev pub updated : String → String → String → Bool → Bool → Option Bound → Bound
updated column lower upper update_lower update_upper none = record {
  column = column;
  lower = lower;
  upper = upper;
  has_lower = update_lower;
  has_upper = update_upper;
}
updated column lower upper update_lower update_upper (some b) =
    update_bound lower upper update_lower update_upper b

column-update_bound :
    (lower upper : String) (l u : Bool) (b : Bound)
    → (update_bound lower upper l u b).column ≡ b.column
unfolding update_bound
column-update_bound lower upper l u b = ground arith

find_bound-add_bound :
    (c : Range) (b : Bound) (j : String)
    → IsIndexed c
    → find_bound (add_bound c b) j ≡ (if str_eq b.column j then some b else find_bound c j)
find_bound-add_bound c b j v = elim (Bool-cases (str_eq b.column j)) [
  | inl e ↦ rw (add_bound_offset c b j, e) (unfold add_bound in get_elem?-append_end c.bounds b)
  | inr e ↦ rw (add_bound_offset c b j, e) (kept (lookup j c.column_offset) refl)
]
  where
    kept :
        (o : Option ℕ)
        → lookup j c.column_offset ≡ o
        → at_offset? (add_bound c b).bounds o ≡ at_offset? c.bounds o
    kept none h = refl
    kept (some i) h =
        let (x, found, _) = v.at_offset j i h in
        rw found (unfold add_bound in get_elem?-append_some c.bounds (b ∷ []) i found)

same_column : {o : Option Bound} (x b : Bound) → o ≡ some x → o ≡ some b → b.column ≡ x.column
same_column x b p q = cc

-- Where a column is recorded, `Update` writes one bound in place.
module _ (c : Range) (lower upper : String) (l u : Bool) (i : ℕ) (b : Bound) where
  abbrev written : Range
  written = record c { bounds = set c.bounds i (update_bound lower upper l u b) }

  update_at-some :
      get_elem? c.bounds i ≡ some b → update_at c i (update_bound lower upper l u) ≡ some written
  unfolding update_at
  update_at-some h = rw h

  written-IsIndexed : get_elem? c.bounds i ≡ some b → IsIndexed c → IsIndexed written
  written-IsIndexed h v = record {
    at_offset = λ column j found. elim (ℕ_discrete i j) [
      | yes e ↦
          let (x, at_j, named) = v.at_offset column j found in
          let here : get_elem? c.bounds j ≡ some b = rw (← e) h in
          (
            update_bound lower upper l u b,
            rw (← e) (get_elem?-set-some c.bounds i (update_bound lower upper l u b) h),
            column-update_bound lower upper l u b ∙ same_column x b at_j here ∙ named,
          )
      | no n ↦
          let (x, at_j, named) = v.at_offset column j found in
          (x, get_elem?-set_ne c.bounds i j (update_bound lower upper l u b) n ∙ at_j, named)
    ];
  }

  find_bound-written :
      (column j : String)
      → lookup column c.column_offset ≡ some i
      → get_elem? c.bounds i ≡ some b
      → b.column ≡ column
      → IsIndexed c
      → find_bound written j
        ≡ (if str_eq column j then some (update_bound lower upper l u b) else find_bound c j)
  find_bound-written column j found h named v = elim (Bool-cases (str_eq column j)) [
    | inl e ↦
        let same : column ≡ j = (str_eq_iff column j).0 e in
        rw (e, ← same, found) (get_elem?-set-some c.bounds i (update_bound lower upper l u b) h)
    | inr e ↦ rw e (kept (lookup j c.column_offset) refl e)
  ]
    where
      kept :
          (o : Option ℕ)
          → lookup j c.column_offset ≡ o
          → str_eq column j ≡ false
          → at_offset? written.bounds o ≡ at_offset? c.bounds o
      kept none at_j other = refl
      kept (some k) at_j other = elim (ℕ_discrete i k) [
        | yes same ↦
            let (x, at_k, named') = v.at_offset j k at_j in
            let here : get_elem? c.bounds k ≡ some b = rw (← same) h in
            let column-j : column ≡ j = sym named ∙ same_column x b at_k here ∙ named' in
            cc ((str_eq_iff column j).1 column-j)
        | no n ↦ get_elem?-set_ne c.bounds i k (update_bound lower upper l u b) n
      ]

-- In a range whose offsets belong to their columns, `Update` does not panic, the offsets of the
-- result belong to their columns, and a lookup finds at the updated column the new or the rewritten
-- bound and at every other column the bound that was there.
pub update-find_bound :
    (c : Range) (column lower upper : String) (l u : Bool)
    → IsIndexed c
    → (c' : Range) × (update c column lower upper l u ≡ some c')
      × IsIndexed c'
      × ((j : String)
          → find_bound c' j ≡ (
              if str_eq column j
              then some (updated column lower upper l u (find_bound c column))
              else find_bound c j))
unfolding update
update-find_bound c column lower upper l u v = elim (Option-cases (lookup column c.column_offset)) [
  | inl missing ↦
      let b = updated column lower upper l u none in
      (
        add_bound c b,
        rw (missing, update) refl,
        add_bound-IsIndexed c b v,
        λ j. rw missing (find_bound-add_bound c b j v),
      )
  | inr (i, found) ↦
      let (b, at_i, named) = v.at_offset column i found in
      (
        written c lower upper l u i b,
        rw (found, update) (update_at-some c lower upper l u i b at_i),
        written-IsIndexed c lower upper l u i b at_i v,
        λ j.
            rw (found, at_i) (find_bound-written c lower upper l u i b column j found at_i named v),
      )
]

add_bounds-IsIndexed : (c : Range) (bs : List Bound) → IsIndexed c → IsIndexed (add_bounds c bs)
unfolding add_bounds
add_bounds-IsIndexed c [] v = v
add_bounds-IsIndexed c (b ∷ bs) v =
    add_bounds-IsIndexed (add_bound c b) bs (add_bound-IsIndexed c b v)

bounds-add_bounds : (c : Range) (bs : List Bound) → (add_bounds c bs).bounds ≡ c.bounds ++ bs
unfolding add_bounds
bounds-add_bounds c [] = sym (append-nil c.bounds)
bounds-add_bounds c (b ∷ bs) =
    bounds-add_bounds (add_bound c b) bs ∙ unfold add_bound in append_assoc c.bounds (b ∷ []) bs

pub bounds-copy : (c : Range) → (copy c).bounds ≡ c.bounds
unfolding copy
bounds-copy c = bounds-add_bounds _ c.bounds

copy-IsIndexed : (c : Range) → IsIndexed (copy c)
unfolding copy new_chunk_range lookup
copy-IsIndexed c = add_bounds-IsIndexed _ c.bounds (record { at_offset = λ column i h. cc })

-- For every range, `CopyAndUpdate` does not panic, also where the offsets of the range itself are
-- stale: the copy has the same bounds and offsets of its own, and the result differs from the copy
-- at the updated column only.
pub copy_and_update-find_bound :
    (c : Range) (column lower upper : String) (l u : Bool)
    → (c' : Range) × (copy_and_update c column lower upper l u ≡ some c')
      × ((copy c).bounds ≡ c.bounds)
      × ((j : String)
          → find_bound c' j ≡ (
              if str_eq column j
              then some (updated column lower upper l u (find_bound (copy c) column))
              else find_bound (copy c) j))
unfolding copy_and_update
copy_and_update-find_bound c column lower upper l u =
    let (c', done, _, found) =
      update-find_bound (copy c) column lower upper l u (copy-IsIndexed c) in
    (c', done, bounds-copy c, found)
