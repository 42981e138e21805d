-- ===== src/RowDiff/Merge.antt =====
-- `compareRows` of sync_diff_inspector/diff.go: the merge of the rows of the two sides, which come
-- in the order of their keys, and the statements that it collects.
use Prim.Native.Nat.{Ordering, lt, eq, gt}
use tidb_tools.Prelude.{
  ℕ, zero, suc, ◌+◌, String, Bool, true, false, List, [], ◌∷◌, ◌++◌, Option, none, some, ◌⊎◌, inl,
  inr, length,
}
use tidb_tools.RowDiff.Data.{Row, Result, ok, err, ◌>>=◌}
use tidb_tools.RowDiff.Statements.{Fix, insert, delete, replace}

-- The results of an iterator's calls of `Next`; behind them the rows are at their end.
abbrev pub Iterator : Type 0
Iterator = List (Result Row)

-- `Next`, where `none` is the nil of the end
unfoldable pub next : Iterator → Result (Option Row × Iterator)
next [] = ok (none, [])
next (ok r ∷ it) = ok (some r, it)
next (err e ∷ it) = err e

-- a row is fetched only where the last one is used up
unfoldable pub fill : Option Row → Iterator → Result (Option Row × Iterator)
unfolding next
fill none it = next it
fill (some r) it = ok (some r, it)

-- The counts, the flag and the statements that the loop collects.
pub record Tally : Type 0 where
  pub rows_add : ℕ
  pub rows_delete : ℕ
  pub equal : Bool
  pub sqls : List String

-- the variables of the loop
pub record Loop : Type 0 where
  pub last_upstream : Option Row
  pub last_downstream : Option Row
  pub upstream : Iterator
  pub downstream : Iterator
  pub tally : Tally

abbrev pub start : Tally
start = record { rows_add = 0; rows_delete = 0; equal = true; sqls = [] }

abbrev pub counted : Fix → Tally → Tally
counted (insert u) t = record t { rows_add = t.rows_add + 1; equal = false }
counted (delete d) t = record t { rows_delete = t.rows_delete + 1; equal = false }
counted (replace u d) t = record t {
  rows_add = t.rows_add + 1;
  rows_delete = t.rows_delete + 1;
  equal = false;
}

-- A fix is counted, and its statement appended where the statements are exported. Where they are
-- not, `blank` is what is appended: nothing in the loops at the end, an empty text in the main loop.
unfoldable pub recorded : Bool → (Fix → Result String) → List String → Fix → Tally → Result Tally
recorded true fix_sql blank fix t =
    fix_sql fix >>= λ s. ok (record (counted fix t) { sqls = t.sqls ++ s ∷ [] })
recorded false fix_sql blank fix t = ok (record (counted fix t) { sqls = t.sqls ++ blank })

abbrev pub resume : (Loop → Option (Result Tally)) → Result (Loop ⊎ Tally) → Option (Result Tally)
resume again (err e) = some (err e)
resume again (ok (inl l)) = again l
resume again (ok (inr t)) = some (ok t)

module _ (fix_sql : Fix → Result String) (export_fix_sql : Bool) where
  unfoldable pub delete_rest : Option Row → Iterator → Tally → Result Tally
  delete_rest none it t = ok t
  delete_rest (some d) [] t = recorded export_fix_sql fix_sql [] (delete d) t
  delete_rest (some d) (ok d' ∷ it) t =
      recorded export_fix_sql fix_sql [] (delete d) t >>= delete_rest (some d') it
  delete_rest (some d) (err e ∷ it) t =
      recorded export_fix_sql fix_sql [] (delete d) t >>= λ _. err e

  unfoldable pub insert_rest : Option Row → Iterator → Tally → Result Tally
  insert_rest none it t = ok t
  insert_rest (some u) [] t = recorded export_fix_sql fix_sql [] (insert u) t
  insert_rest (some u) (ok u' ∷ it) t =
      recorded export_fix_sql fix_sql [] (insert u) t >>= insert_rest (some u') it
  insert_rest (some u) (err e ∷ it) t =
      recorded export_fix_sql fix_sql [] (insert u) t >>= λ _. err e

  -- the switch, and which of the two rows is used up
  unfoldable pub settle : Bool → Ordering → Row → Row → Iterator → Iterator → Tally → Result Loop
  settle true o u d up down t = ok (record {
    last_upstream = none;
    last_downstream = none;
    upstream = up;
    downstream = down;
    tally = t;
  })
  settle false gt u d up down t = recorded export_fix_sql fix_sql ("" ∷ []) (delete d) t >>= λ t'.
      ok (record {
        last_upstream = some u;
        last_downstream = none;
        upstream = up;
        downstream = down;
        tally = t';
      })
  settle false lt u d up down t = recorded export_fix_sql fix_sql ("" ∷ []) (insert u) t >>= λ t'.
      ok (record {
        last_upstream = none;
        last_downstream = some d;
        upstream = up;
        downstream = down;
        tally = t';
      })
  settle false eq u d up down t =
      recorded export_fix_sql fix_sql ("" ∷ []) (replace u d) t >>= λ t'. ok (record {
        last_upstream = none;
        last_downstream = none;
        upstream = up;
        downstream = down;
        tally = t';
      })

module _ (compare : Row → Row → Result (Bool × Ordering)) (fix_sql : Fix → Result String)
    (export_fix_sql : Bool) where
  -- the body of the loop behind the two fetches
  unfoldable pub settle_rows :
      Option Row → Option Row → Iterator → Iterator → Tally → Result (Loop ⊎ Tally)
  settle_rows none d up down t = delete_rest fix_sql export_fix_sql d down t >>= λ t'. ok (inr t')
  settle_rows (some u) none up down t =
      insert_rest fix_sql export_fix_sql (some u) up t >>= λ t'. ok (inr t')
  settle_rows (some u) (some d) up down t =
      compare u d >>= λ v. settle fix_sql export_fix_sql v.0 v.1 u d up down t >>= λ l. ok (inl l)

  -- One round of the loop: the next state, or the end of it.
  unfoldable pub step : Loop → Result (Loop ⊎ Tally)
  step l = fill l.last_upstream l.upstream >>= λ u.
      fill l.last_downstream l.downstream >>= λ d. settle_rows u.0 d.0 u.1 d.1 l.tally

  -- `none` where the fuel runs out
  unfoldable pub run : ℕ → Loop → Option (Result Tally)
  run zero l = none
  run (suc fuel) l = resume (run fuel) (step l)

  -- `compareRows`, with a round of fuel for each result of an iterator and one for the end. What it
  -- has collected before an error is left out.
  unfoldable pub compare_rows : Iterator → Iterator → Option (Result Tally)
  compare_rows up down = run (length up + length down + 1) (record {
    last_upstream = none;
    last_downstream = none;
    upstream = up;
    downstream = down;
    tally = start;
  })
