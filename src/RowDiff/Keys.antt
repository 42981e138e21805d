-- ===== src/RowDiff/Keys.antt =====
-- `CompareData`: rows that it finds equal have the same key, where the key has no FLOAT, DOUBLE or
-- JSON column; so what `compareRows` replaces has one key.
use Prim.Native.Nat.{Ordering, eq}
use mathlib.Core.Path.{subst}
use tidb_tools.Prelude.{
  ◌≡◌, ℕ, zero, suc, get_elem?, refl, sym, ap, ◌∙◌, inl, inr, Bool, true, false, String, str_eq_iff,
  List, [], ◌∷◌, some, All, In, All-In, Bool-cases, if◌then◌else◌, arith,
}
use tidb_tools.Prelude.Dict.{lookup}
use tidb_tools.RowDiff.Data.{
  Column, ColumnData, Row, Result, ok, err, >>=-eq-ok, found, panicked, columns_at, select_loop,
  or_all, select_unique_order_key, Index, Table, upstream_key, downstream_key,
}
use tidb_tools.RowDiff.Compare.{
  Calls, used_collation, is_approximate, is_json, same_column, same_rows, verdict, key_compare,
  compare_data,
}
use tidb_tools.RowDiff.Order.{found-eq-ok}

-- a column that is compared byte by byte
abbrev pub Plain : Column → Type 0
Plain c = (is_approximate c.tp ≡ false) × (is_json c.tp ≡ false)

-- the columns of the key are columns of the table, and are compared byte by byte
abbrev pub KeyOf : List Column → List Column → Type 0
KeyOf columns = All (λ k. In k columns × Plain k)

abbrev pub InAll : List Column → List Column → Type 0
InAll columns = All (λ k. In k columns)

of_ok : (P : List Column → Type 0) {ks ls : List Column} → ok ks ≡ ok ls → P ks → P ls
of_ok P h p = subst P (cc) p

or_all-InAll : (cs ks : List Column) → InAll cs ks → InAll cs (or_all cs ks)
or_all-InAll cs [] a = All-In (λ k. In k cs) cs (λ k i. i)
or_all-InAll cs (k ∷ ks) a = a

get_elem?-In : (cs : List Column) (i : ℕ) {c : Column} → get_elem? cs i ≡ some c → In c cs
get_elem?-In [] i h = cc
get_elem?-In (c ∷ cs) zero h = inl (cc)
get_elem?-In (c ∷ cs) (suc i) h = inr (get_elem?-In cs i h)

columns_at-InAll :
    (columns : List Column) (is : List ℕ) {ks : List Column}
    → columns_at columns is ≡ ok ks
    → InAll columns ks
unfolding columns_at
columns_at-InAll columns [] h = of_ok (InAll columns) h tt
columns_at-InAll columns (i ∷ is) h =
    let (c, f, h1) = >>=-eq-ok (found panicked (get_elem? columns i)) _ h in
    let (cs, g, h2) = >>=-eq-ok (columns_at columns is) _ h1 in
    of_ok (InAll columns) h2
      (get_elem?-In columns i (found-eq-ok _ _ f), columns_at-InAll columns is g)

select_loop-InAll :
    (columns : List Column) (is : List Index) (keys : List Column) {ks : List Column}
    → select_loop columns is keys ≡ ok ks
    → InAll columns keys
    → InAll columns ks
unfolding select_loop
select_loop-InAll columns [] keys h a = of_ok (InAll columns) h a
select_loop-InAll columns (i ∷ is) keys h a = elim (Bool-cases i.primary) [
  | inl p ↦ columns_at-InAll columns i.offsets (rw p at h)
  | inr n ↦ elim (Bool-cases i.unique) [
    | inl u ↦
        let (cs, f, g) =
          >>=-eq-ok (columns_at columns i.offsets) (select_loop columns is) (rw (n, u) at h) in
        select_loop-InAll columns is cs g (columns_at-InAll columns i.offsets f)
    | inr m ↦ select_loop-InAll columns is keys (rw (n, m) at h) a
  ]
]

-- The columns of the order key are columns of the table.
pub select_unique_order_key-InAll :
    (t : Table) (keys : List Column) → select_unique_order_key t ≡ ok keys → InAll t.columns keys
unfolding select_unique_order_key
select_unique_order_key-InAll t keys h =
    let (ks, f, g) = >>=-eq-ok (select_loop t.columns t.indices []) _ h in
    of_ok (InAll t.columns) g
      (or_all-InAll t.columns ks (select_loop-InAll t.columns t.indices [] f tt))

module _ (calls : Calls) where
  same_column-Plain :
      (c : Column) (a b : ColumnData) → Plain c → same_column calls c a b ≡ ok true → a ≡ b
  unfolding same_column
  same_column-Plain c a b p h = ground (arith, str_eq_iff a.bytes b.bytes)

  same_rows-first :
      (same : Bool) (rest : Result Bool)
      → (if same then rest else ok false) ≡ ok true
      → (same ≡ true) × (rest ≡ ok true)
  same_rows-first true rest h = (refl, h)
  same_rows-first false rest h = ground arith

  same_rows-lookup :
      (cs : List Column) (m1 m2 : Row) (k : Column)
      → same_rows calls cs m1 m2 ≡ ok true
      → Plain k
      → In k cs
      → lookup k.name m1 ≡ lookup k.name m2
  unfolding same_rows
  same_rows-lookup [] m1 m2 k h p i = absurd i
  same_rows-lookup (c ∷ cs) m1 m2 k h p i =
      let (a, f, h1) = >>=-eq-ok (found (upstream_key c.name) (lookup c.name m1)) _ h in
      let (b, g, h2) = >>=-eq-ok (found (downstream_key c.name) (lookup c.name m2)) _ h1 in
      let (same, e, h3) = >>=-eq-ok (same_column calls c a b) _ h2 in
      let (s, r) = same_rows-first same _ h3 in
      elim i [
        | inl q ↦
            let plain : Plain c = rw (← q) p in
            let ab : a ≡ b = same_column-Plain c a b plain (e ∙ ap (λ x. ok x) s) in
            rw q (found-eq-ok _ _ f ∙ ap (λ x. some x) ab ∙ sym (found-eq-ok _ _ g))
        | inr j ↦ same_rows-lookup cs m1 m2 k r p j
      ]

  key_compare_self :
      (collation : String) (columns keys : List Column) (u d : Row)
      → same_rows calls columns u d ≡ ok true
      → KeyOf columns keys
      → key_compare calls collation keys u d ≡ key_compare calls collation keys u u
  unfolding key_compare
  key_compare_self collation columns [] u d h p = refl
  key_compare_self collation columns (k ∷ keys) u d h p =
      rw
        (
          same_rows-lookup columns u d k h p.0.1 p.0.0,
          key_compare_self collation columns keys u d h p.1,
        )
        refl

  verdict-differ :
      (same : Bool) (k : Result Ordering) (o : Ordering) → verdict same k ≡ ok (false, o) → k ≡ ok o
  verdict-differ true k o h = cc
  verdict-differ false (ok p) o h = cc
  verdict-differ false (err e) o h = cc

  verdict-alike :
      (same : Bool) (k : Result Ordering) (o : Ordering)
      → verdict same k ≡ ok (true, o)
      → same ≡ true
  verdict-alike true k o h = refl
  verdict-alike false (ok p) o h = cc
  verdict-alike false (err e) o h = cc

  module _ (collation : String) (columns keys : List Column) where
    pub compare_data-differ :
        (u d : Row) (o : Ordering)
        → compare_data calls collation keys columns u d ≡ ok (false, o)
        → key_compare calls (used_collation collation) keys u d ≡ ok o
    unfolding compare_data
    compare_data-differ u d o h =
        let (same, e, h1) = >>=-eq-ok (same_rows calls columns u d) _ h in
        verdict-differ same _ o h1

    pub compare_data-alike :
        KeyOf columns keys
        → (u d : Row) (o : Ordering) → compare_data calls collation keys columns u d ≡ ok (true, o)
        → key_compare calls (used_collation collation) keys u u ≡ ok eq
        → key_compare calls (used_collation collation) keys u d ≡ ok eq
    unfolding compare_data
    compare_data-alike key u d o h self =
        let (same, e, h1) = >>=-eq-ok (same_rows calls columns u d) _ h in
        key_compare_self (used_collation collation) columns keys u d
          (e ∙ ap (λ x. ok x) (verdict-alike same _ o h1)) key
        ∙ self
