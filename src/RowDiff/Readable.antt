-- ===== src/RowDiff/Readable.antt =====
-- `compareRows` returns no error where the rows have all columns of the table and their numbers and
-- documents can be parsed.
use Prim.Native.Nat.{Ordering, lt, eq, gt}
use tidb_tools.Prelude.{
  ◌≡◌, refl, ◌⊎◌, inl, inr, Bool, true, false, not, Bool-cases, String, List, [], ◌∷◌, some, All,
  if◌then◌else◌,
}
use tidb_tools.Prelude.Dict.{lookup}
use tidb_tools.RowDiff.Data.{need_quotes, Column, ColumnData, Row, Table, Result, ok, err, ◌>>=◌}
use tidb_tools.RowDiff.Statements.{insert, delete, replace, stored, generate_fix_sql}
use tidb_tools.RowDiff.Compare.{
  Calls, is_approximate, is_json, same_float, same_documents, same_column, same_rows,
  number_compare, column_compare, then_compare, key_compare, verdict, compare_data, used_collation,
}

abbrev pub Ok {ℓ} : {A : Type ℓ} → Result A → Type ℓ
Ok {A} m = (a : A) × (m ≡ ok a)

pub Ok-bind {ℓ κ} :
    {A : Type ℓ} {B : Type κ} (m : Result A) (f : A → Result B)
    → Ok m
    → ((a : A) → Ok (f a))
    → Ok (m >>= f)
Ok-bind (ok a) f o h = h a
Ok-bind (err e) f (a, o) h = cc

-- What is asked for where a test holds.
abbrev pub Where : Bool → Type 0 → Type 0
Where true P = P
Where false P = Unit {0}

module _ (calls : Calls) where
  abbrev pub Parses : Bool → String → Type 0
  Parses null s = (null ≡ true) ⊎ ((x : calls.Float) × (calls.parse_float s ≡ some x))

  abbrev pub IsDocument : Bool → String → Type 0
  IsDocument null s = (null ≡ true) ⊎ ((x : calls.Json) × (calls.unmarshal s ≡ some x))

  -- A number is NULL or can be parsed, and so can a document.
  abbrev pub Reads : Column → ColumnData → Type 0
  Reads c v =
      Where (is_approximate c.tp) (Parses v.is_null v.bytes)
      × Where (not (need_quotes c.tp)) (Parses v.is_null v.bytes)
      × Where (is_json c.tp) (IsDocument v.is_null v.bytes)

  -- The row has each of the columns, with a value that can be read.
  abbrev pub IsReadable : List Column → Row → Type 0
  IsReadable columns row =
      All (λ c. (v : ColumnData) × (lookup c.name row ≡ some v) × Reads c v) columns

  same_float-Ok :
      (i j : Bool) (s t : String) → Parses i s → Parses j t → Ok (same_float calls i j s t)
  same_float-Ok true true s t p q = (true, refl)
  same_float-Ok true false s t p q = (false, refl)
  same_float-Ok false true s t p q = (false, refl)
  same_float-Ok false false s t (inr (x, e)) (inr (y, f)) = rw (e, f) (calls.near x y, refl)
  same_float-Ok false false s t (inl p) q = cc
  same_float-Ok false false s t (inr p) (inl q) = cc

  same_documents-Ok :
      (i j : Bool) (s t : String)
      → IsDocument i s
      → IsDocument j t
      → Ok (same_documents calls i j s t)
  same_documents-Ok true j s t p q = (false, refl)
  same_documents-Ok false true s t p q = (false, refl)
  same_documents-Ok false false s t (inr (x, e)) (inr (y, f)) =
      rw (e, f) (calls.deep_equal x y, refl)
  same_documents-Ok false false s t (inl p) q = cc
  same_documents-Ok false false s t (inr p) (inl q) = cc

  if-Ok {ℓ} : {A : Type ℓ} (q : Bool) (m n : Result A) → Ok m → Ok n → Ok (if q then m else n)
  if-Ok true m n h k = h
  if-Ok false m n h k = k

  same_column-Ok :
      (c : Column) (a b : ColumnData) → Reads c a → Reads c b → Ok (same_column calls c a b)
  unfolding same_column
  same_column-Ok c a b p q = elim (Bool-cases (is_approximate c.tp)) [
    | inl e ↦
        rw e (same_float-Ok a.is_null b.is_null a.bytes b.bytes (rw e at (p.0)) (rw e at (q.0)))
    | inr e ↦ elim (Bool-cases (is_json c.tp)) [
      | inl f ↦
          rw (e, f)
            (if-Ok _ _ _ (true, refl)
              (same_documents-Ok a.is_null b.is_null a.bytes b.bytes (rw f at (p.2))
                (rw f at (q.2))))
      | inr f ↦ rw (e, f) (_, refl)
    ]
  ]

  same_rows-Ok :
      (cs : List Column) (m1 m2 : Row)
      → IsReadable cs m1
      → IsReadable cs m2
      → Ok (same_rows calls cs m1 m2)
  unfolding same_rows
  same_rows-Ok [] m1 m2 p q = (true, refl)
  same_rows-Ok (c ∷ cs) m1 m2 ((a, e, r), p) ((b, f, s), q) =
      rw (e, f)
        (Ok-bind (same_column calls c a b) _ (same_column-Ok c a b r s)
          (λ same. if-Ok same _ _ (same_rows-Ok cs m1 m2 p q) (false, refl)))

  number_compare-Ok :
      (i j : Bool) (s t : String) → Parses i s → Parses j t → Ok (number_compare calls i j s t)
  number_compare-Ok true true s t p q = (eq, refl)
  number_compare-Ok true false s t p q = (lt, refl)
  number_compare-Ok false true s t p q = (gt, refl)
  number_compare-Ok false false s t (inr (x, e)) (inr (y, f)) = rw (e, f) (_, refl)
  number_compare-Ok false false s t (inl p) q = cc
  number_compare-Ok false false s t (inr p) (inl q) = cc

  then_compare-Ok :
      (o : Ordering) (rest : Result Ordering) → Ok rest → Ok (then_compare calls o rest)
  then_compare-Ok lt rest h = (lt, refl)
  then_compare-Ok eq rest h = h
  then_compare-Ok gt rest h = (gt, refl)

  -- The collation orders each two texts.
  abbrev pub IsTotal : String → Type 0
  IsTotal collation = (s t : String) → (o : Ordering) × (calls.collate collation s t ≡ some o)

  column_compare-Ok :
      (collation : String) (c : Column) (a b : ColumnData)
      → IsTotal collation
      → Reads c a
      → Reads c b
      → Ok (column_compare calls collation c a b)
  unfolding column_compare
  column_compare-Ok collation c a b total p q = elim (Bool-cases (need_quotes c.tp)) [
    | inl e ↦ let (o, f) = total a.bytes b.bytes in rw (e, f) (o, refl)
    | inr e ↦
        rw e (number_compare-Ok a.is_null b.is_null a.bytes b.bytes (rw e at (p.1)) (rw e at (q.1)))
  ]

  key_compare-Ok :
      (collation : String) (cs : List Column) (m1 m2 : Row)
      → IsTotal collation
      → IsReadable cs m1
      → IsReadable cs m2
      → Ok (key_compare calls collation cs m1 m2)
  unfolding key_compare
  key_compare-Ok collation [] m1 m2 total p q = (eq, refl)
  key_compare-Ok collation (c ∷ cs) m1 m2 total ((a, e, r), p) ((b, f, s), q) =
      rw (e, f)
        (Ok-bind (column_compare calls collation c a b) _
          (column_compare-Ok collation c a b total r s)
          (λ o. then_compare-Ok o _ (key_compare-Ok collation cs m1 m2 total p q)))

  verdict-Ok : (same : Bool) (order : Result Ordering) → Ok order → Ok (verdict same order)
  verdict-Ok true order h = (_, refl)
  verdict-Ok false order h = Ok-bind order _ h (λ o. (_, refl))

  pub compare_data-Ok :
      (collation : String) (keys columns : List Column) (m1 m2 : Row)
      → IsTotal (used_collation collation)
      → IsReadable keys m1
      → IsReadable keys m2
      → IsReadable columns m1
      → IsReadable columns m2
      → Ok (compare_data calls collation keys columns m1 m2)
  unfolding compare_data
  compare_data-Ok collation keys columns m1 m2 total k1 k2 p q =
      Ok-bind (same_rows calls columns m1 m2) _ (same_rows-Ok columns m1 m2 p q) (λ same.
        verdict-Ok same _ (key_compare-Ok (used_collation collation) keys m1 m2 total k1 k2))

  stored-Ok : (cs : List Column) (row : Row) → IsReadable cs row → Ok (stored cs row)
  unfolding stored
  stored-Ok [] row p = ([], refl)
  stored-Ok (c ∷ cs) row ((v, e, r), p) =
      if-Ok c.generated _ _ (stored-Ok cs row p)
        (rw e (Ok-bind (stored cs row) _ (stored-Ok cs row p) (λ vs. (_, refl))))

  pub generate_fix_sql-Ok :
      (draw : List (String × String × String) → String) (table : Table) (u d : Row)
      → IsReadable table.columns u
      → IsReadable table.columns d
      → Ok (generate_fix_sql draw table (insert u))
        × Ok (generate_fix_sql draw table (delete d))
        × Ok (generate_fix_sql draw table (replace u d))
  unfolding generate_fix_sql
  generate_fix_sql-Ok draw table u d p q =
      let su = stored-Ok table.columns u p in
      let sd = stored-Ok table.columns d q in
      (
        Ok-bind (stored table.columns u) _ su (λ vs. (_, refl)),
        Ok-bind (stored table.columns d) _ sd (λ vs. (_, refl)),
        Ok-bind (stored table.columns u) _ su
            (λ vs. Ok-bind (stored table.columns d) _ sd (λ ws. (_, refl))),
      )
