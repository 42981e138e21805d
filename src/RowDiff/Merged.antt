-- ===== src/RowDiff/Merged.antt =====
-- What `compareRows` finds and collects: an alignment of the rows of the two sides, and the fixes
-- that it asks for.
use Prim.Native.Nat.{Ordering, lt, eq, gt}
use mathlib.Core.Path.{subst}
use tidb_tools.Prelude.{
  ◌≡◌, sym, ◌∙◌, ◌↔◌, String, Bool, true, false, List, [], ◌∷◌, map, some, arith,
}
use tidb_tools.RowDiff.Data.{Row, Result, ok, ◌>>=◌, >>=-eq-ok}
use tidb_tools.RowDiff.Statements.{Fix, insert, delete, replace}
use tidb_tools.RowDiff.Merge.{Tally, start, recorded, compare_rows}
use tidb_tools.RowDiff.Walk.{settled, walk, compare_rows-walk}
use tidb_tools.RowDiff.Collected.{
  adds, removes, is_empty, Stated, Recorded, Recorded-Collected, ok-injective,
}
use tidb_tools.RowDiff.Script.{Script, AllEqual, Script-AllEqual}

module _ (compare : Row → Row → Result (Bool × Ordering)) (fix_sql : Fix → Result String)
    (export_fix_sql : Bool) where
  abbrev walk_rows : List Row → List Row → Tally → Result Tally
  walk_rows us ds = walk compare fix_sql export_fix_sql (map (λ r. ok r) us) (map (λ r. ok r) ds)

  abbrev Scripted : List Row → List Row → Tally → Tally → Type 0
  Scripted us ds t t' =
      (fs : List Fix) × Script compare us ds fs × (Recorded export_fix_sql fix_sql fs t t')

  -- A fix that is recorded before those of the rest.
  record_first :
      (blank : List String) (f : Fix) (t : Tally) {t' : Tally} (rest : Tally → Result Tally)
      (S : List Fix → Type 0)
      → ((t1 : Tally)
          → rest t1 ≡ ok t'
          → (fs : List Fix) × S fs × (Recorded export_fix_sql fix_sql fs t1 t'))
      → (recorded export_fix_sql fix_sql blank f t >>= rest) ≡ ok t'
      → (fs : List Fix) × S fs × (Recorded export_fix_sql fix_sql (f ∷ fs) t t')
  record_first blank f t rest S ih h =
      let (t1, e, h1) = >>=-eq-ok (recorded export_fix_sql fix_sql blank f t) rest h in
      let (fs, s, r) = ih t1 h1 in (fs, s, (blank, t1, e, r))

  settled-Scripted :
      (same : Bool) (o : Ordering) (u d : Row) (us ds : List Row) (t t' : Tally)
      → compare u d ≡ ok (same, o)
      → ((t1 : Tally) → walk_rows us ds t1 ≡ ok t' → Scripted us ds t1 t')
      → ((t1 : Tally) → walk_rows us (d ∷ ds) t1 ≡ ok t' → Scripted us (d ∷ ds) t1 t')
      → ((t1 : Tally) → walk_rows (u ∷ us) ds t1 ≡ ok t' → Scripted (u ∷ us) ds t1 t')
      → settled fix_sql export_fix_sql same o u d t
          (walk_rows us ds)
          (walk_rows us (d ∷ ds))
          (walk_rows (u ∷ us) ds)
        ≡ ok t'
      → Scripted (u ∷ us) (d ∷ ds) t t'
  settled-Scripted true o u d us ds t t' c both up_only down_only h =
      let (fs, s, r) = both t h in (fs, Script.kept c s, r)
  settled-Scripted false lt u d us ds t t' c both up_only down_only h =
      let (fs, s, r) = record_first ("" ∷ []) (insert u) t (walk_rows us (d ∷ ds)) _ up_only h in
      (insert u ∷ fs, Script.inserted c s, r)
  settled-Scripted false gt u d us ds t t' c both up_only down_only h =
      let (fs, s, r) = record_first ("" ∷ []) (delete d) t (walk_rows (u ∷ us) ds) _ down_only h in
      (delete d ∷ fs, Script.deleted c s, r)
  settled-Scripted false eq u d us ds t t' c both up_only down_only h =
      let (fs, s, r) = record_first ("" ∷ []) (replace u d) t (walk_rows us ds) _ both h in
      (replace u d ∷ fs, Script.replaced c s, r)

  walk-Scripted :
      (us ds : List Row) (t t' : Tally) → walk_rows us ds t ≡ ok t' → Scripted us ds t t'
  unfolding walk
  walk-Scripted [] [] t t' h = ([], Script.done, ok-injective h)
  walk-Scripted [] (d ∷ ds) t t' h =
      let (fs, s, r) =
        record_first [] (delete d) t (walk_rows [] ds) _ (λ t1. walk-Scripted [] ds t1 t') h in
      (delete d ∷ fs, Script.deleted_last s, r)
  walk-Scripted (u ∷ us) [] t t' h =
      let (fs, s, r) =
        record_first [] (insert u) t (walk_rows us []) _ (λ t1. walk-Scripted us [] t1 t') h in
      (insert u ∷ fs, Script.inserted_last s, r)
  walk-Scripted (u ∷ us) (d ∷ ds) t t' h =
      let (v, c, g) = >>=-eq-ok (compare u d) _ h in
      settled-Scripted v.0 v.1 u d us ds t t' c (λ t1. walk-Scripted us ds t1 t')
        (λ t1. walk-Scripted us (d ∷ ds) t1 t') (λ t1. walk-Scripted (u ∷ us) ds t1 t') g

  -- What `compareRows` returns where all rows are fetched: an alignment of the two sides, the number
  -- of rows that its fixes bring and remove, whether there is none, and their statements, where they
  -- are exported.
  pub record Merged (us ds : List Row) (t : Tally) : Type 0 where
    pub fixes : List Fix
    pub script : Script compare us ds fixes
    pub rows_added : t.rows_add ≡ adds fixes
    pub rows_deleted : t.rows_delete ≡ removes fixes
    pub is_equal : t.equal ≡ is_empty fixes
    pub stated : Stated export_fix_sql fix_sql fixes t.sqls

  pub compare_rows-Merged :
      (us ds : List Row) (t : Tally)
      → compare_rows compare fix_sql export_fix_sql (map (λ r. ok r) us) (map (λ r. ok r) ds)
        ≡ some (ok t)
      → Merged us ds t
  compare_rows-Merged us ds t h =
      let w : walk_rows us ds start ≡ ok t = cc (
        compare_rows-walk compare fix_sql export_fix_sql (map (λ r. ok r) us)
          (map (λ r. ok r) ds)) in
      let (fs, s, r) = walk-Scripted us ds start t w in
      let c = Recorded-Collected export_fix_sql fix_sql fs start t r in
      record {
        fixes = fs;
        script = s;
        rows_added = omega (arith, c.added);
        rows_deleted = omega (arith, c.removed);
        is_equal = c.flag;
        stated = subst (Stated export_fix_sql fix_sql fs) (sym c.appended) c.stated;
      }

  -- Let all rows be fetched, and `compareRows` return no error, whether it exports statements or not.
  -- It reports a chunk as equal exactly where the two sides have the same number of rows and
  -- `CompareData` finds them equal one by one.
  pub compare_rows-AllEqual :
      (us ds : List Row) (t : Tally)
      → compare_rows compare fix_sql export_fix_sql (map (λ r. ok r) us) (map (λ r. ok r) ds)
        ≡ some (ok t)
      → (t.equal ≡ true) ↔ AllEqual compare us ds
  compare_rows-AllEqual us ds t h =
      let m = compare_rows-Merged us ds t h in
      let (f, g) = Script-AllEqual compare m.script in
      (λ e. f (sym m.is_equal ∙ e), λ a. m.is_equal ∙ g a)
