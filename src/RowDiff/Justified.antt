-- ===== src/RowDiff/Justified.antt =====
-- The fixes of `compareRows` are justified by the keys of the rows, where the rows of both sides come
-- in the strict order of their keys.
use Prim.Native.Nat.{Ordering, lt, eq, gt}
use tidb_tools.Prelude.{◌≡◌, refl, ◌⊎◌, inl, inr, Bool, true, false, List, [], ◌∷◌, All, In-All}
use tidb_tools.RowDiff.Data.{Row, Result, ok}
use tidb_tools.RowDiff.Statements.{Fix, insert, delete, replace}
use tidb_tools.RowDiff.Order.{opposite, IsOrder}
use tidb_tools.RowDiff.Script.{Script}
use tidb_tools.RowDiff.Classified.{All-map, IsSorted, IsJustified}

module _ (compare : Row → Row → Result (Bool × Ordering)) (order : Row → Row → Result Ordering)
    (is_order : IsOrder order)
    (differ : (u d : Row) (o : Ordering) → compare u d ≡ ok (false, o) → order u d ≡ ok o)
    (alike : (u d : Row) (o : Ordering)
      → compare u d ≡ ok (true, o)
      → order u u ≡ ok eq
      → order u d ≡ ok eq) where
  abbrev Precedes : Row → Row → Type 0
  Precedes p r = order p r ≡ ok lt

  abbrev Apart : Row → Row → Type 0
  Apart p r = ¬ (order p r ≡ ok eq)

  All-Precedes :
      (p q : Row) (o : Ordering) (rs : List Row)
      → order p q ≡ ok o
      → (o ≡ lt) ⊎ (o ≡ eq)
      → All (Precedes q) rs
      → All (Precedes p) rs
  All-Precedes p q o rs h (inl e) b =
      All-map rs (λ r k. is_order.trans p q r lt lt refl refl (rw (← e) h) k) b
  All-Precedes p q o rs h (inr e) b =
      All-map rs (λ r k. is_order.trans p q r eq lt refl refl (rw (← e) h) k) b

  above-Apart : (p : Row) (rs : List Row) → All (Precedes p) rs → All (Apart p) rs
  above-Apart p rs b = All-map rs (λ r k e. cc (k, e)) b

  below-Apart : (p : Row) (rs : List Row) → All (Precedes p) rs → All (λ r. Apart r p) rs
  unfolding opposite
  below-Apart p rs b = All-map rs (λ r k e. cc (is_order.flip p r lt k, e)) b

  IsJustified-left :
      (u : Row) (us ds : List Row)
      → All (Apart u) ds
      → (f : Fix) → IsJustified compare order us ds f
      → IsJustified compare order (u ∷ us) ds f
  IsJustified-left u us ds a (insert x) (i, n) = (inr i, n)
  IsJustified-left u us ds a (delete x) (i, n) = (i, (In-All (Apart u) ds x a i, n))
  IsJustified-left u us ds a (replace x y) (i, j, e, c) = (inr i, j, e, c)

  IsJustified-right :
      (d : Row) (us ds : List Row)
      → All (λ x. Apart x d) us
      → (f : Fix) → IsJustified compare order us ds f
      → IsJustified compare order us (d ∷ ds) f
  IsJustified-right d us ds a (insert x) (i, n) = (i, (In-All (λ y. Apart y d) us x a i, n))
  IsJustified-right d us ds a (delete x) (i, n) = (inr i, n)
  IsJustified-right d us ds a (replace x y) (i, j, e, c) = (i, inr j, e, c)

  IsJustified-both :
      (u d : Row) (us ds : List Row)
      → All (Apart u) ds
      → All (λ x. Apart x d) us
      → (f : Fix) → IsJustified compare order us ds f
      → IsJustified compare order (u ∷ us) (d ∷ ds) f
  IsJustified-both u d us ds a b (insert x) (i, n) = (inr i, (In-All (λ y. Apart y d) us x b i, n))
  IsJustified-both u d us ds a b (delete x) (i, n) = (inr i, (In-All (Apart u) ds x a i, n))
  IsJustified-both u d us ds a b (replace x y) (i, j, e, c) = (inr i, inr j, e, c)

  -- What stands behind two rows of the same key.
  same_key_Apart :
      (u d : Row) (us ds : List Row)
      → order u d ≡ ok eq
      → All (Precedes u) us
      → All (Precedes d) ds
      → All (Apart u) ds × All (λ x. Apart x d) us
  unfolding opposite
  same_key_Apart u d us ds e a b = (
    above-Apart u ds (All-Precedes u d eq ds e (inr refl) b),
    below-Apart d us (All-Precedes d u eq us (is_order.flip u d eq e) (inr refl) a),
  )

  pub Script-IsJustified :
      {us ds : List Row} {fs : List Fix}
      → Script compare us ds fs
      → IsSorted order us
      → IsSorted order ds
      → All (IsJustified compare order us ds) fs
  unfolding opposite
  Script-IsJustified Script.done a b = tt
  Script-IsJustified (Script.kept {u} {d} {us} {ds} {fs} {o} c s) a b =
      let (p, q) = same_key_Apart u d us ds (alike u d o c a.0) a.1 b.1 in
      All-map fs (IsJustified-both u d us ds p q) (Script-IsJustified s a.2 b.2)
  Script-IsJustified (Script.inserted_last {u} {us} {fs} s) a b =
      ((inl refl, tt), All-map fs (IsJustified-left u us [] tt) (Script-IsJustified s a.2 b))
  Script-IsJustified (Script.deleted_last {d} {ds} {fs} s) a b =
      ((inl refl, tt), All-map fs (IsJustified-right d [] ds tt) (Script-IsJustified s a b.2))
  Script-IsJustified (Script.inserted {u} {d} {us} {ds} {fs} c s) a b =
      let e = differ u d lt c in
      let apart = above-Apart u (d ∷ ds) (e, All-Precedes u d lt ds e (inl refl) b.1) in
      (
        (inl refl, apart),
        All-map fs (IsJustified-left u us (d ∷ ds) apart) (Script-IsJustified s a.2 b),
      )
  Script-IsJustified (Script.deleted {u} {d} {us} {ds} {fs} c s) a b =
      let e = is_order.flip u d gt (differ u d gt c) in
      let apart = below-Apart d (u ∷ us) (e, All-Precedes d u lt us e (inl refl) a.1) in
      (
        (inl refl, apart),
        All-map fs (IsJustified-right d (u ∷ us) ds apart) (Script-IsJustified s a b.2),
      )
  Script-IsJustified (Script.replaced {u} {d} {us} {ds} {fs} c s) a b =
      let e = differ u d eq c in
      let (p, q) = same_key_Apart u d us ds e a.1 b.1 in
      (
        (inl refl, inl refl, e, c),
        All-map fs (IsJustified-both u d us ds p q) (Script-IsJustified s a.2 b.2),
      )
