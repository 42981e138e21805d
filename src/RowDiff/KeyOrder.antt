-- ===== src/RowDiff/KeyOrder.antt =====
-- The order of the rows by the whole key, the second loop of `CompareData`.
use Prim.Native.Nat.{Ordering, lt, eq, gt}
use tidb_tools.Prelude.{◌≡◌, refl, ap, ◌∙◌, String, true, List, [], ◌∷◌, some, arith}
use tidb_tools.Prelude.Dict.{lookup}
use tidb_tools.RowDiff.Data.{Column, ColumnData, Row, no_key, Result, ok, ◌>>=◌, >>=-eq-ok, found}
use tidb_tools.RowDiff.Compare.{Calls, column_compare, then_compare, key_compare}
use tidb_tools.RowDiff.Order.{
  opposite, at_most, chained, IsOrder, IsLawful, found-eq-ok, column_compare-IsOrder,
}

module _ (calls : Calls) (laws : IsLawful calls) where
  -- The first column of the key decides, or is equal on both sides and leaves it to the rest.
  record First (collation : String) (c : Column) (cs : List Column) (m1 m2 : Row) (o : Ordering)
      : Type 0 where
    left : ColumnData
    right : ColumnData
    order : Ordering
    left_found : lookup c.name m1 ≡ some left
    right_found : lookup c.name m2 ≡ some right
    ordered : column_compare calls collation c left right ≡ ok order
    then_rest : then_compare calls order (key_compare calls collation cs m1 m2) ≡ ok o

  key_compare-First :
      (collation : String) (c : Column) (cs : List Column) (m1 m2 : Row) (o : Ordering)
      → key_compare calls collation (c ∷ cs) m1 m2 ≡ ok o
      → First collation c cs m1 m2 o
  unfolding key_compare
  key_compare-First collation c cs m1 m2 o h =
      let (a, f, h1) = >>=-eq-ok (found (no_key c.name) (lookup c.name m1)) _ h in
      let (b, g, h2) = >>=-eq-ok (found (no_key c.name) (lookup c.name m2)) _ h1 in
      let (r, e, h3) = >>=-eq-ok (column_compare calls collation c a b) _ h2 in
      record {
        left = a;
        right = b;
        order = r;
        left_found = found-eq-ok _ _ f;
        right_found = found-eq-ok _ _ g;
        ordered = e;
        then_rest = h3;
      }

  First-key_compare :
      (collation : String) (c : Column) (cs : List Column) (m1 m2 : Row) (o : Ordering)
      → First collation c cs m1 m2 o
      → key_compare calls collation (c ∷ cs) m1 m2 ≡ ok o
  unfolding key_compare
  First-key_compare collation c cs m1 m2 o f =
      rw (f.left_found, f.right_found)
        (ap (λ m. m >>= λ r. then_compare calls r (key_compare calls collation cs m1 m2)) f.ordered
          ∙ f.then_rest)

  then-flip :
      (r : Ordering) (rest back : Result Ordering) (o : Ordering)
      → ((p : Ordering) → rest ≡ ok p → back ≡ ok (opposite p))
      → then_compare calls r rest ≡ ok o
      → then_compare calls (opposite r) back ≡ ok (opposite o)
  unfolding opposite
  then-flip lt rest back o ih h = ground arith
  then-flip eq rest back o ih h = ih o h
  then-flip gt rest back o ih h = ground arith

  then-at_most :
      (r : Ordering) (rest : Result Ordering) (o : Ordering)
      → at_most o ≡ true
      → then_compare calls r rest ≡ ok o
      → at_most r ≡ true
  then-at_most lt rest o m h = refl
  then-at_most eq rest o m h = refl
  then-at_most gt rest o m h = ground arith

  then_trans :
      (r s : Ordering) (rest12 rest23 rest13 : Result Ordering) (o p : Ordering)
      → at_most o ≡ true
      → at_most p ≡ true
      → (rest12 ≡ ok o → rest23 ≡ ok p → rest13 ≡ ok (chained o p))
      → then_compare calls r rest12 ≡ ok o
      → then_compare calls s rest23 ≡ ok p
      → then_compare calls (chained r s) rest13 ≡ ok (chained o p)
  then_trans lt s rest12 rest23 rest13 o p m n ih h k = ground arith
  then_trans eq lt rest12 rest23 rest13 o p m n ih h k = ground arith
  then_trans eq eq rest12 rest23 rest13 o p m n ih h k = ih h k
  then_trans eq gt rest12 rest23 rest13 o p m n ih h k = ground arith
  then_trans gt s rest12 rest23 rest13 o p m n ih h k = ground arith

  key_compare-flip :
      (collation : String) (cs : List Column) (m1 m2 : Row) (o : Ordering)
      → key_compare calls collation cs m1 m2 ≡ ok o
      → key_compare calls collation cs m2 m1 ≡ ok (opposite o)
  unfolding key_compare opposite
  key_compare-flip collation [] m1 m2 o h = ground arith
  key_compare-flip collation (c ∷ cs) m1 m2 o h =
      let f = key_compare-First collation c cs m1 m2 o h in
      First-key_compare collation c cs m2 m1 _ (record {
        left = f.right;
        right = f.left;
        order = opposite f.order;
        left_found = f.right_found;
        right_found = f.left_found;
        ordered =
            (column_compare-IsOrder calls laws collation c).flip f.left f.right f.order f.ordered;
        then_rest = then-flip f.order _ _ o (key_compare-flip collation cs m1 m2) f.then_rest;
      })

  key_compare_trans :
      (collation : String) (cs : List Column) (m1 m2 m3 : Row) (o p : Ordering)
      → at_most o ≡ true
      → at_most p ≡ true
      → key_compare calls collation cs m1 m2 ≡ ok o
      → key_compare calls collation cs m2 m3 ≡ ok p
      → key_compare calls collation cs m1 m3 ≡ ok (chained o p)
  unfolding key_compare
  key_compare_trans collation [] m1 m2 m3 o p m n h k = ground arith
  key_compare_trans collation (c ∷ cs) m1 m2 m3 o p m n h k =
      let f = key_compare-First collation c cs m1 m2 o h in
      let g = key_compare-First collation c cs m2 m3 p k in
      let same : f.right ≡ g.left = cc (f.right_found, g.left_found) in
      First-key_compare collation c cs m1 m3 _ (record {
        left = f.left;
        right = g.right;
        order = chained f.order g.order;
        left_found = f.left_found;
        right_found = g.right_found;
        ordered =
            (column_compare-IsOrder calls laws collation c).trans f.left f.right g.right f.order
              g.order (then-at_most f.order _ o m f.then_rest)
              (then-at_most g.order _ p n g.then_rest) f.ordered (rw same g.ordered);
        then_rest =
            then_trans f.order g.order _ _ _ o p m n
              (key_compare_trans collation cs m1 m2 m3 o p m n) f.then_rest g.then_rest;
      })

  pub key_compare-IsOrder :
      (collation : String) (cs : List Column) → IsOrder (key_compare calls collation cs)
  key_compare-IsOrder collation cs = record {
    flip = λ a b o. key_compare-flip collation cs a b o;
    trans = λ a b e o p. key_compare_trans collation cs a b e o p;
  }
