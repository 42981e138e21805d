-- ===== src/RowDiff/Order.antt =====
-- Comparisons that order, and the order of the values of one column of the key, the body of the second
-- loop of `CompareData`.
use Prim.Native.Nat.{Ordering, lt, eq, gt}
use tidb_tools.Prelude.{◌≡◌, if◌then◌else◌, String, Bool, true, false, Option, none, some, arith}
use tidb_tools.RowDiff.Data.{
  need_quotes, Column, ColumnData, Error, collate_failed, Result, ok, found,
}
use tidb_tools.RowDiff.Compare.{
  Calls, float_compare, parsed_compare, number_compare, column_compare,
}

unfoldable pub opposite : Ordering → Ordering
opposite lt = gt
opposite eq = eq
opposite gt = lt

abbrev pub at_most : Ordering → Bool
at_most gt = false
at_most lt = true
at_most eq = true

-- the order of the ends of a chain of two that go up
abbrev pub chained : Ordering → Ordering → Ordering
chained lt _ = lt
chained eq o = o
chained gt o = gt

-- A comparison that may fail, and is a total order on what it compares.
pub record IsOrder {A : Type 0} (c : A → A → Result Ordering) : Type 0 where
  pub flip : (a b : A) (o : Ordering) → c a b ≡ ok o → c b a ≡ ok (opposite o)
  pub trans :
      (a b e : A) (o p : Ordering)
      → at_most o ≡ true
      → at_most p ≡ true
      → c a b ≡ ok o
      → c b e ≡ ok p
      → c a e ≡ ok (chained o p)

pulled-IsOrder :
    {A B : Type 0} {c : B → B → Result Ordering} (f : A → B)
    → IsOrder c
    → IsOrder (λ a b. c (f a) (f b))
pulled-IsOrder f order = record {
  flip = λ a b o. order.flip (f a) (f b) o;
  trans = λ a b e o p. order.trans (f a) (f b) (f e) o p;
}

if-IsOrder :
    {A : Type 0} (q : Bool) {c d : A → A → Result Ordering}
    → IsOrder c
    → IsOrder d
    → IsOrder (λ a b. if q then c a b else d a b)
if-IsOrder true oc od = oc
if-IsOrder false oc od = od

pub found-eq-ok {ℓ} :
    {A : Type ℓ} (e : Error) (m : Option A) {a : A} → found e m ≡ ok a → m ≡ some a
found-eq-ok e none h = cc
found-eq-ok e (some b) h = cc

-- What the database promises of its collations, and float64 of numbers, which the database's are.
pub record IsLawful (calls : Calls) : Type 0 where
  pub collations :
      (collation : String) → IsOrder (λ s t. found collate_failed (calls.collate collation s t))
  pub floats : IsOrder (λ a b. ok (float_compare calls a b))

module _ (calls : Calls) (laws : IsLawful calls) where
  parsed-flip :
      (s t : String) (a b : Option (calls.Float)) (o : Ordering)
      → parsed_compare calls s t a b ≡ ok o
      → parsed_compare calls t s b a ≡ ok (opposite o)
  parsed-flip s t (some a) (some b) o h = laws.floats.flip a b o h
  parsed-flip s t none b o h = cc
  parsed-flip s t (some a) none o h = cc

  parsed_trans :
      (s t r : String) (a b e : Option (calls.Float)) (o p : Ordering)
      → at_most o ≡ true
      → at_most p ≡ true
      → parsed_compare calls s t a b ≡ ok o
      → parsed_compare calls t r b e ≡ ok p
      → parsed_compare calls s r a e ≡ ok (chained o p)
  parsed_trans s t r (some a) (some b) (some e) o p m n h k = laws.floats.trans a b e o p m n h k
  parsed_trans s t r none b e o p m n h k = cc
  parsed_trans s t r (some a) none e o p m n h k = cc
  parsed_trans s t r (some a) (some b) none o p m n h k = cc

  number-flip :
      (i j : Bool) (s t : String) (o : Ordering)
      → number_compare calls i j s t ≡ ok o
      → number_compare calls j i t s ≡ ok (opposite o)
  unfolding opposite
  number-flip false false s t o h = parsed-flip s t _ _ o h
  number-flip true true s t o h = ground arith
  number-flip true false s t o h = ground arith
  number-flip false true s t o h = ground arith

  number_trans :
      (i j k : Bool) (s t r : String) (o p : Ordering)
      → at_most o ≡ true
      → at_most p ≡ true
      → number_compare calls i j s t ≡ ok o
      → number_compare calls j k t r ≡ ok p
      → number_compare calls i k s r ≡ ok (chained o p)
  number_trans false false false s t r o p m n g h = parsed_trans s t r _ _ _ o p m n g h
  number_trans true true true s t r o p m n g h = ground arith
  number_trans true true false s t r o p m n g h = ground arith
  number_trans true false true s t r o p m n g h = ground arith
  number_trans true false false s t r o p m n g h = ground arith
  number_trans false true k s t r o p m n g h = ground arith
  number_trans false false true s t r o p m n g h = ground arith

  number_compare-IsOrder :
      IsOrder (λ (a b : ColumnData). number_compare calls a.is_null b.is_null a.bytes b.bytes)
  number_compare-IsOrder = record {
    flip = λ a b o. number-flip a.is_null b.is_null a.bytes b.bytes o;
    trans = λ a b e o p. number_trans a.is_null b.is_null e.is_null a.bytes b.bytes e.bytes o p;
  }

  pub column_compare-IsOrder :
      (collation : String) (c : Column) → IsOrder (column_compare calls collation c)
  unfolding column_compare
  column_compare-IsOrder collation c =
      if-IsOrder (need_quotes c.tp) (pulled-IsOrder (λ a. a.bytes) (laws.collations collation))
        number_compare-IsOrder
