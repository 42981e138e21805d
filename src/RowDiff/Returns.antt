-- ===== src/RowDiff/Returns.antt =====
-- `compareRows` returns its result where the rows can be read, and asks for the right fixes.
use Prim.Native.Nat.{Ordering, lt, eq, gt}
use tidb_tools.Prelude.{
  ◌≡◌, refl, ap, ◌∙◌, Bool-cases, inl, inr, Bool, true, false, String, List, [], ◌∷◌, map, some,
  All, In-All,
}
use tidb_tools.RowDiff.Data.{Column, Row, Table, Result, ok, select_unique_order_key}
use tidb_tools.RowDiff.Statements.{Fix, insert, delete, replace, generate_fix_sql}
use tidb_tools.RowDiff.Merge.{Tally, start, recorded}
use tidb_tools.RowDiff.Compare.{Calls, used_collation}
use tidb_tools.RowDiff.Walk.{settled, walk, at_end, inside, compare_rows-walk}
use tidb_tools.RowDiff.Order.{IsLawful}
use tidb_tools.RowDiff.Classified.{IsSorted}
use tidb_tools.RowDiff.Keys.{Plain, InAll, select_unique_order_key-InAll}
use tidb_tools.RowDiff.Readable.{
  Ok, Ok-bind, IsReadable, IsTotal, compare_data-Ok, generate_fix_sql-Ok,
}
use tidb_tools.RowDiff.Classifies.{compared, keyed, fetched, Classifies, compare_rows-Classifies}

module _ (compare : Row → Row → Result (Bool × Ordering)) (fix_sql : Fix → Result String)
    (export_fix_sql : Bool) (Good : Row → Type 0)
    (comparable : (u d : Row) → Good u → Good d → Ok (compare u d))
    (stated : (u d : Row)
      → Good u
      → Good d
      → Ok (fix_sql (insert u)) × Ok (fix_sql (delete d)) × Ok (fix_sql (replace u d))) where
  recorded-Ok :
      (blank : List String) (f : Fix) (t : Tally)
      → Ok (fix_sql f)
      → Ok (recorded export_fix_sql fix_sql blank f t)
  unfolding recorded
  recorded-Ok blank f t h = elim (Bool-cases export_fix_sql) [
    | inl e ↦ rw e (Ok-bind (fix_sql f) _ h (λ s. (_, refl)))
    | inr e ↦ rw e (_, refl)
  ]

  abbrev walks : List Row → List Row → Tally → Result Tally
  walks us ds = walk compare fix_sql export_fix_sql (map (λ r. ok r) us) (map (λ r. ok r) ds)

  settled-Ok :
      (same : Bool) (o : Ordering) (u d : Row) (t : Tally)
      (both up_only down_only : Tally → Result Tally)
      → Good u
      → Good d
      → ((t1 : Tally) → Ok (both t1))
      → ((t1 : Tally) → Ok (up_only t1))
      → ((t1 : Tally) → Ok (down_only t1))
      → Ok (settled fix_sql export_fix_sql same o u d t both up_only down_only)
  settled-Ok true o u d t both up_only down_only g h b i j = b t
  settled-Ok false lt u d t both up_only down_only g h b i j =
      Ok-bind (inside fix_sql export_fix_sql (insert u) t) up_only
        (recorded-Ok _ (insert u) t (stated u d g h).0) i
  settled-Ok false gt u d t both up_only down_only g h b i j =
      Ok-bind (inside fix_sql export_fix_sql (delete d) t) down_only
        (recorded-Ok _ (delete d) t (stated u d g h).1) j
  settled-Ok false eq u d t both up_only down_only g h b i j =
      Ok-bind (inside fix_sql export_fix_sql (replace u d) t) both
        (recorded-Ok _ (replace u d) t (stated u d g h).2) b

  walk-Ok : (us ds : List Row) (t : Tally) → All Good us → All Good ds → Ok (walks us ds t)
  unfolding walk
  walk-Ok [] [] t g h = (t, refl)
  walk-Ok [] (d ∷ ds) t g h =
      Ok-bind (at_end fix_sql export_fix_sql (delete d) t) (walks [] ds)
        (recorded-Ok _ (delete d) t (stated d d h.0 h.0).1) (λ t1. walk-Ok [] ds t1 g h.1)
  walk-Ok (u ∷ us) [] t g h =
      Ok-bind (at_end fix_sql export_fix_sql (insert u) t) (walks us [])
        (recorded-Ok _ (insert u) t (stated u u g.0 g.0).0) (λ t1. walk-Ok us [] t1 g.1 h)
  walk-Ok (u ∷ us) (d ∷ ds) t g h = Ok-bind (compare u d) _ (comparable u d g.0 h.0) (λ v.
      settled-Ok v.0 v.1 u d t (walks us ds) (walks us (d ∷ ds)) (walks (u ∷ us) ds) g.0 h.0
        (λ t1. walk-Ok us ds t1 g.1 h.1) (λ t1. walk-Ok us (d ∷ ds) t1 g.1 h)
        (λ t1. walk-Ok (u ∷ us) ds t1 g h.1))

IsReadable-keys :
    (calls : Calls) (columns keys : List Column) (row : Row)
    → InAll columns keys
    → IsReadable calls columns row
    → IsReadable calls keys row
IsReadable-keys calls columns [] row i r = tt
IsReadable-keys calls columns (k ∷ keys) row i r =
    (In-All _ columns k r i.0, IsReadable-keys calls columns keys row i.1 r)

module _ (calls : Calls) (laws : IsLawful calls) (collation : String) (table : Table)
    (draw : List (String × String × String) → String) where
  -- What `compareRows` returns, with the fixes that it asks for.
  pub record Returned (keys : List Column) (us ds : List Row) : Type 0 where
    pub tally : Tally
    pub returned : fetched calls collation table keys draw us ds ≡ some (ok tally)
    pub classifies : Classifies calls collation table keys draw us ds tally

  -- Let the collations and the numbers be ordered and each two texts be comparable, let no column of
  -- the order key be FLOAT, DOUBLE or JSON, let all rows be fetched, in the strict order of their
  -- keys, let each have a value that can be read for each column, and let the statements be exported.
  -- Then `compareRows` returns no error, and the statements that it collects are those of a list of fixes: a REPLACE with an
  -- upstream row where no downstream row has its key, a DELETE of a downstream row where no upstream
  -- row has its key, and an annotated REPLACE for two rows that have one key and differ. Two rows have
  -- one key where `CompareData` orders neither before the other. No row is left out: each row of
  -- either side is found equal to one of the other, or has a fix. None is named twice: the upstream
  -- rows that the fixes bring come in the strict order of their keys, and so do the downstream rows
  -- that they remove. `rowAdd` and `rowDelete` count these rows.
  pub compare_rows-Returned :
      (keys : List Column) (us ds : List Row)
      → IsTotal calls (used_collation collation)
      → select_unique_order_key table ≡ ok keys
      → All Plain keys
      → All (IsReadable calls table.columns) us
      → All (IsReadable calls table.columns) ds
      → IsSorted (keyed calls collation table keys draw) us
      → IsSorted (keyed calls collation table keys draw) ds
      → Returned keys us ds
  compare_rows-Returned keys us ds total selected plain p q a b =
      let inside_table = select_unique_order_key-InAll table keys selected in
      let (t, w) =
        walk-Ok (compared calls collation table keys draw) (generate_fix_sql draw table) true
          (IsReadable calls table.columns)
          (λ u d g h.
            compare_data-Ok calls collation keys table.columns u d total
              (IsReadable-keys calls table.columns keys u inside_table g)
              (IsReadable-keys calls table.columns keys d inside_table h) g h)
          (generate_fix_sql-Ok calls draw table) us ds start p q in
      let returned =
        compare_rows-walk (compared calls collation table keys draw) (generate_fix_sql draw table)
          true (map (λ r. ok r) us) (map (λ r. ok r) ds)
        ∙ ap (λ r. some r) w in
      record {
        tally = t;
        returned = returned;
        classifies =
            compare_rows-Classifies calls laws collation table draw keys us ds t selected plain a b
              returned;
      }
