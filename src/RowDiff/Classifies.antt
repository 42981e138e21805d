-- ===== src/RowDiff/Classifies.antt =====
-- `compareRows` with the parts that it is put together from: `CompareData` on the columns and the
-- order key of the table, and the statements of `GenerateFixSQL`.
use Prim.Native.Nat.{Ordering}
use mathlib.Core.Path.{subst}
use tidb_tools.Prelude.{◌≡◌, Bool, true, String, List, [], ◌∷◌, map, Option, some, All}
use tidb_tools.RowDiff.Data.{Column, Row, Table, Result, ok, >>=-eq-ok, select_unique_order_key}
use tidb_tools.RowDiff.Compare.{Calls, used_collation, key_compare, compare_data}
use tidb_tools.RowDiff.Statements.{
  Fix, insert, delete, replace, generate_fix_sql, generate_replace_dml, generate_delete_dml,
  generate_replace_dml_with_annotation,
}
use tidb_tools.RowDiff.Merge.{Tally, compare_rows}
use tidb_tools.RowDiff.Order.{IsLawful}
use tidb_tools.RowDiff.KeyOrder.{key_compare-IsOrder}
use tidb_tools.RowDiff.Collected.{statements, adds, removes, ok-injective}
use tidb_tools.RowDiff.Merged.{compare_rows-Merged}
use tidb_tools.RowDiff.Classified.{
  IsSorted, IsJustified, IsBrought, IsSettled, Script-IsBrought, Script-IsSettled,
}
use tidb_tools.RowDiff.Justified.{Script-IsJustified}
use tidb_tools.RowDiff.Once.{
  brought_rows, removed_rows, brought_rows-IsSorted, removed_rows-IsSorted,
}
use tidb_tools.RowDiff.Keys.{
  Plain, KeyOf, InAll, select_unique_order_key-InAll, compare_data-differ, compare_data-alike,
}

KeyOf-Plain :
    (columns keys : List Column) → InAll columns keys → All Plain keys → KeyOf columns keys
KeyOf-Plain columns [] i p = tt
KeyOf-Plain columns (k ∷ keys) i p = ((i.0, p.0), KeyOf-Plain columns keys i.1 p.1)

module _ (calls : Calls) (collation : String) (table : Table) (keys : List Column)
    (draw : List (String × String × String) → String) where
  abbrev pub compared : Row → Row → Result (Bool × Ordering)
  compared = compare_data calls collation keys table.columns

  abbrev pub keyed : Row → Row → Result Ordering
  keyed = key_compare calls (used_collation collation) keys

  abbrev pub fetched : List Row → List Row → Option (Result Tally)
  fetched us ds =
      compare_rows compared (generate_fix_sql draw table) true (map (λ r. ok r) us)
        (map (λ r. ok r) ds)

  -- The statement of a fix: a REPLACE of the upstream's row where it is inserted, a DELETE of the
  -- downstream's row, and a REPLACE with its annotation where both sides have the row.
  abbrev States : Fix → String → Type 0
  States (insert u) s = generate_replace_dml table u ≡ ok s
  States (delete d) s = generate_delete_dml table d ≡ ok s
  States (replace u d) s = generate_replace_dml_with_annotation draw table u d ≡ ok s

  -- one statement for each fix, in their order
  abbrev pub Texts : List Fix → List String → Type 0
  Texts [] [] = Unit {0}
  Texts (f ∷ fs) (s ∷ ss) = States f s × Texts fs ss
  Texts [] (s ∷ ss) = ⊥
  Texts (f ∷ fs) [] = ⊥

  generate_fix_sql-States :
      (f : Fix) {s : String} → generate_fix_sql draw table f ≡ ok s → States f s
  unfolding generate_fix_sql
  generate_fix_sql-States (insert u) h = h
  generate_fix_sql-States (delete d) h = h
  generate_fix_sql-States (replace u d) h = h

  statements-Texts :
      (fs : List Fix) {ss : List String}
      → statements (generate_fix_sql draw table) fs ≡ ok ss
      → Texts fs ss
  unfolding statements
  statements-Texts [] h = subst (Texts []) (ok-injective h) tt
  statements-Texts (f ∷ fs) h =
      let (s, e, h1) = >>=-eq-ok (generate_fix_sql draw table f) _ h in
      let (ss, es, h2) = >>=-eq-ok (statements (generate_fix_sql draw table) fs) _ h1 in
      subst (Texts (f ∷ fs)) (ok-injective h2) (generate_fix_sql-States f e, statements-Texts fs es)

  -- The fixes of two sequences of rows, what justifies them, that they leave out no row and have none
  -- twice; their counts and their statements.
  pub record Classifies (us ds : List Row) (t : Tally) : Type 0 where
    pub fixes : List Fix
    pub justified : All (IsJustified compared keyed us ds) fixes
    pub brought : All (IsBrought compared fixes ds) us
    pub settled : All (IsSettled compared fixes us) ds
    pub brought_once : IsSorted keyed (brought_rows fixes)
    pub removed_once : IsSorted keyed (removed_rows fixes)
    pub rows_added : t.rows_add ≡ adds fixes
    pub rows_deleted : t.rows_delete ≡ removes fixes
    pub texts : Texts fixes t.sqls

module _ (calls : Calls) (laws : IsLawful calls) (collation : String) (table : Table)
    (draw : List (String × String × String) → String) where
  -- The fixes of a comparison that returns no error, where the rows come in the order of their keys.
  pub compare_rows-Classifies :
      (keys : List Column) (us ds : List Row) (t : Tally)
      → select_unique_order_key table ≡ ok keys
      → All Plain keys
      → IsSorted (keyed calls collation table keys draw) us
      → IsSorted (keyed calls collation table keys draw) ds
      → fetched calls collation table keys draw us ds ≡ some (ok t)
      → Classifies calls collation table keys draw us ds t
  compare_rows-Classifies keys us ds t selected plain a b h =
      let compare = compared calls collation table keys draw in
      let m = compare_rows-Merged compare (generate_fix_sql draw table) true us ds t h in
      let key =
        KeyOf-Plain table.columns keys (select_unique_order_key-InAll table keys selected) plain in
      record {
        fixes = m.fixes;
        justified =
            Script-IsJustified compare (keyed calls collation table keys draw)
              (key_compare-IsOrder calls laws (used_collation collation) keys)
              (compare_data-differ calls collation table.columns keys)
              (compare_data-alike calls collation table.columns keys key) m.script a b;
        brought = Script-IsBrought compare m.script;
        settled = Script-IsSettled compare m.script;
        brought_once = brought_rows-IsSorted (keyed calls collation table keys draw) m.script a;
        removed_once = removed_rows-IsSorted (keyed calls collation table keys draw) m.script b;
        rows_added = m.rows_added;
        rows_deleted = m.rows_deleted;
        texts = statements-Texts calls collation table keys draw m.fixes m.stated;
      }
