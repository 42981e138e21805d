-- ===== src/RowDiff/Fetched.antt =====
-- Errors of the iterators, of the comparison and of the statements end `compareRows` with an error.
use Prim.Native.Nat.{Ordering, lt, eq, gt}
use tidb_tools.Prelude.{◌≡◌, refl, ◌⊎◌, inl, inr, String, Bool, true, false, [], ◌∷◌, some, All}
use tidb_tools.RowDiff.Data.{Row, Error, Result, ok, err, >>=-eq-ok}
use tidb_tools.RowDiff.Statements.{Fix, insert, delete, replace}
use tidb_tools.RowDiff.Merge.{Iterator, Tally, start, compare_rows}
use tidb_tools.RowDiff.Walk.{at_end, inside, settled, Result-cases, walk, compare_rows-walk}

-- each call of `Next` has returned a row
abbrev pub Fetched : Iterator → Type 0
Fetched = All (λ r. (row : Row) × (r ≡ ok row))

module _ (compare : Row → Row → Result (Bool × Ordering)) (fix_sql : Fix → Result String)
    (export_fix_sql : Bool) where
  abbrev walks : Iterator → Iterator → Tally → Result Tally
  walks = walk compare fix_sql export_fix_sql

  abbrev Both : Iterator → Iterator → Type 0
  Both up down = Fetched up × Fetched down

  settled-Fetched :
      (same : Bool) (o : Ordering) (u d : Row) (up down : Iterator) (t t' : Tally)
      → ((t1 : Tally) → walks up down t1 ≡ ok t' → Both up down)
      → ((t1 : Tally) → walks up (ok d ∷ down) t1 ≡ ok t' → Both up (ok d ∷ down))
      → ((t1 : Tally) → walks (ok u ∷ up) down t1 ≡ ok t' → Both (ok u ∷ up) down)
      → settled fix_sql export_fix_sql same o u d t
          (walks up down)
          (walks up (ok d ∷ down))
          (walks (ok u ∷ up) down)
        ≡ ok t'
      → Both (ok u ∷ up) (ok d ∷ down)
  settled-Fetched true o u d up down t t' both up_only down_only h =
      let (f, g) = both t h in (((u, refl), f), ((d, refl), g))
  settled-Fetched false lt u d up down t t' both up_only down_only h =
      let (t1, _, h1) = >>=-eq-ok (inside fix_sql export_fix_sql (insert u) t) _ h in
      let (f, g) = up_only t1 h1 in (((u, refl), f), g)
  settled-Fetched false gt u d up down t t' both up_only down_only h =
      let (t1, _, h1) = >>=-eq-ok (inside fix_sql export_fix_sql (delete d) t) _ h in
      let (f, g) = down_only t1 h1 in (f, ((d, refl), g))
  settled-Fetched false eq u d up down t t' both up_only down_only h =
      let (t1, _, h1) = >>=-eq-ok (inside fix_sql export_fix_sql (replace u d) t) _ h in
      let (f, g) = both t1 h1 in (((u, refl), f), ((d, refl), g))

  walk-Fetched : (up down : Iterator) (t t' : Tally) → walks up down t ≡ ok t' → Both up down
  unfolding walk
  walk-Fetched (err e ∷ up) down t t' h = cc
  walk-Fetched [] [] t t' h = (tt, tt)
  walk-Fetched [] (err e ∷ down) t t' h = cc
  walk-Fetched [] (ok d ∷ down) t t' h =
      let (t1, _, h1) = >>=-eq-ok (at_end fix_sql export_fix_sql (delete d) t) _ h in
      let (f, g) = walk-Fetched [] down t1 t' h1 in (f, ((d, refl), g))
  walk-Fetched (ok u ∷ up) [] t t' h =
      let (t1, _, h1) = >>=-eq-ok (at_end fix_sql export_fix_sql (insert u) t) _ h in
      let (f, g) = walk-Fetched up [] t1 t' h1 in (((u, refl), f), g)
  walk-Fetched (ok u ∷ up) (err e ∷ down) t t' h = cc
  walk-Fetched (ok u ∷ up) (ok d ∷ down) t t' h =
      let (v, _, h1) = >>=-eq-ok (compare u d) _ h in
      settled-Fetched v.0 v.1 u d up down t t' (λ t1. walk-Fetched up down t1 t')
        (λ t1. walk-Fetched up (ok d ∷ down) t1 t') (λ t1. walk-Fetched (ok u ∷ up) down t1 t') h1

  -- `compareRows` returns, and where it returns no error, each call of `Next` has returned a row: no
  -- error of an iterator is passed over.
  pub compare_rows-Fetched :
      (up down : Iterator)
      → (r : Result Tally) × (compare_rows compare fix_sql export_fix_sql up down ≡ some r)
        × (((e : Error) × (r ≡ err e)) ⊎ Both up down)
  compare_rows-Fetched up down =
      let r = walks up down start in
      (
        r,
        compare_rows-walk compare fix_sql export_fix_sql up down,
        elim (Result-cases r) [
          | inl (t, e) ↦ inr (walk-Fetched up down start t e)
          | inr error ↦ inl error
        ],
      )
