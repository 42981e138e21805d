-- ===== src/SchemaCmp/Antisym.antt =====
-- `Compare` of pkg/schemacmp/lattice.go the other way round, and when it answers 0.
use Prim.Native.Nat.{Ordering}
use tidb_tools.Prelude.{◌≡◌, ◌↔◌, refl, ap, ap₂, ℕ, suc, arith}
use tidb_tools.SchemaCmp.Data.{Lattice, Tuple, Result, ok, err, ◌>>=◌, wrap, Mysql}
use tidb_tools.SchemaCmp.Leaf.{lt, eq, gt}
use tidb_tools.SchemaCmp.Lattice.{compare, compare_loop, combine, same_len}
use tidb_tools.SchemaCmp.Order.{Le, flip, antisym}
use tidb_tools.SchemaCmp.Scalars.{
  bool-IsSemilattice, uint-IsSemilattice, int-IsSemilattice, singleton-IsSemilattice,
}
use tidb_tools.SchemaCmp.StringLists.{string_list-IsSemilattice, equality_singleton-IsSemilattice}
use tidb_tools.SchemaCmp.BitSet.{bit_set-IsSemilattice}
use tidb_tools.SchemaCmp.FieldTp.{IsMysql, field_tp-IsSemilattice}
use tidb_tools.SchemaCmp.AtMost.{AtMost, AtMosts, compare→AtMost}
use tidb_tools.SchemaCmp.Partial.{AtMost→compare, AtMost-refl, AtMost-trans}

same_len-flip :
    (a b : Tuple) (r s : Result Ordering) (o : Ordering)
    → (r ≡ ok o → s ≡ ok (flip o))
    → same_len a b r ≡ ok o
    → same_len b a s ≡ ok (flip o)
same_len-flip a b r s o k h = ground arith

-- One round of the loop, both ways.
round_flip :
    (i : ℕ) (r o : Ordering) (x y : Result Ordering) (f g : Ordering → Result Ordering)
    → ((p : Ordering) → x ≡ ok p → y ≡ ok (flip p))
    → ((p : Ordering) → f p ≡ ok o → g (flip p) ≡ ok (flip o))
    → (do res ← wrap i x; r' ← wrap i (combine r res); f r') ≡ ok o
    → (do res ← wrap i y; r' ← wrap i (combine (flip r) res); g r') ≡ ok (flip o)
unfolding combine
round_flip i r o (err e) y f g hx hf h = cc
round_flip i r o (ok p) y f g hx hf h = rw (hx p refl) (go r p h)
  where
    go :
        (r p : Ordering)
        → (do r' ← wrap i (combine r p); f r') ≡ ok o
        → (do r' ← wrap i (combine (flip r) (flip p)); g r') ≡ ok (flip o)
    go Ordering.lt Ordering.lt h = hf lt h
    go Ordering.lt Ordering.eq h = hf lt h
    go Ordering.lt Ordering.gt h = cc
    go Ordering.eq Ordering.lt h = hf lt h
    go Ordering.eq Ordering.eq h = hf eq h
    go Ordering.eq Ordering.gt h = hf gt h
    go Ordering.gt Ordering.lt h = cc
    go Ordering.gt Ordering.eq h = hf gt h
    go Ordering.gt Ordering.gt h = hf gt h

module _ (m : Mysql) (v : IsMysql m) where
  mutual
    unfolding compare

    flip_lem : (a b : Lattice) (o : Ordering) → compare m a b ≡ ok o → compare m b a ≡ ok (flip o)
    flip_lem (Lattice.bool a) (Lattice.bool b) o h = bool-IsSemilattice.swap a b o h
    flip_lem (Lattice.singleton a) (Lattice.singleton b) o h = singleton-IsSemilattice.swap a b o h
    flip_lem (Lattice.equality_singleton a) (Lattice.equality_singleton b) o h =
        equality_singleton-IsSemilattice.swap a b o h
    flip_lem (Lattice.bit_set a) (Lattice.bit_set b) o h = bit_set-IsSemilattice.swap a b o h
    flip_lem (Lattice.byte a) (Lattice.byte b) o h = uint-IsSemilattice.swap a b o h
    flip_lem (Lattice.field_tp a) (Lattice.field_tp b) o h =
        (field_tp-IsSemilattice m v).swap a b o h
    flip_lem (Lattice.int a) (Lattice.int b) o h = int-IsSemilattice.swap a b o h
    flip_lem (Lattice.int64 a) (Lattice.int64 b) o h = int-IsSemilattice.swap a b o h
    flip_lem (Lattice.uint a) (Lattice.uint b) o h = uint-IsSemilattice.swap a b o h
    flip_lem (Lattice.string_list a) (Lattice.string_list b) o h =
        string_list-IsSemilattice.swap a b o h
    flip_lem Lattice.maybe_nil Lattice.maybe_nil o h = ground arith
    flip_lem Lattice.maybe_nil (Lattice.maybe b) o h = ground arith
    flip_lem (Lattice.maybe a) Lattice.maybe_nil o h = ground arith
    flip_lem (Lattice.maybe a) (Lattice.maybe b) o h = flip_lem a b o h
    flip_lem (Lattice.tuple a) (Lattice.tuple b) o h =
        same_len-flip a b _ _ o (loop_flip 0 eq a b o) h
    flip_lem (Lattice.typ a) (Lattice.typ b) o h = same_len-flip a b _ _ o (loop_flip 0 eq a b o) h
    flip_lem a b o h = cc

    loop_flip :
        (i : ℕ) (r : Ordering) (a b : Tuple) (o : Ordering)
        → compare_loop m i r a b ≡ ok o
        → compare_loop m i (flip r) b a ≡ ok (flip o)
    loop_flip i r Tuple.nil Tuple.nil o h = ground arith
    loop_flip i r Tuple.nil (Tuple.cons y b) o h = ground arith
    loop_flip i r (Tuple.cons x a) Tuple.nil o h = ground arith
    loop_flip i r (Tuple.cons x a) (Tuple.cons y b) o h =
        round_flip i r o (compare m x y) (compare m y x) (λ r'. compare_loop m (suc i) r' a b)
          (λ r'. compare_loop m (suc i) r' b a) (λ p k. flip_lem x y p k)
          (λ p k. loop_flip (suc i) p a b o k) h

  mutual
    AtMost-antisym : {a b : Lattice} → AtMost m a b → AtMost m b a → a ≡ b
    AtMost-antisym (AtMost.bool h) (AtMost.bool k) =
        ap Lattice.bool (antisym bool-IsSemilattice _ _ h k)
    AtMost-antisym (AtMost.singleton h) (AtMost.singleton k) =
        ap Lattice.singleton (antisym singleton-IsSemilattice _ _ h k)
    AtMost-antisym (AtMost.equality_singleton h) (AtMost.equality_singleton k) =
        ap Lattice.equality_singleton (antisym equality_singleton-IsSemilattice _ _ h k)
    AtMost-antisym (AtMost.bit_set h) (AtMost.bit_set k) =
        ap Lattice.bit_set (antisym bit_set-IsSemilattice _ _ h k)
    AtMost-antisym (AtMost.byte h) (AtMost.byte k) =
        ap Lattice.byte (antisym uint-IsSemilattice _ _ h k)
    AtMost-antisym (AtMost.field_tp h) (AtMost.field_tp k) =
        ap Lattice.field_tp (antisym (field_tp-IsSemilattice m v) _ _ h k)
    AtMost-antisym (AtMost.int h) (AtMost.int k) =
        ap Lattice.int (antisym int-IsSemilattice _ _ h k)
    AtMost-antisym (AtMost.int64 h) (AtMost.int64 k) =
        ap Lattice.int64 (antisym int-IsSemilattice _ _ h k)
    AtMost-antisym (AtMost.uint h) (AtMost.uint k) =
        ap Lattice.uint (antisym uint-IsSemilattice _ _ h k)
    AtMost-antisym (AtMost.string_list h) (AtMost.string_list k) =
        ap Lattice.string_list (antisym string_list-IsSemilattice _ _ h k)
    AtMost-antisym AtMost.nil_nil k = refl
    AtMost-antisym AtMost.nil_maybe k = elim k [ ]
    AtMost-antisym (AtMost.maybe h) (AtMost.maybe k) = ap Lattice.maybe (AtMost-antisym h k)
    AtMost-antisym (AtMost.tuple hs) (AtMost.tuple ks) = ap Lattice.tuple (AtMosts-antisym hs ks)
    AtMost-antisym (AtMost.typ hs) (AtMost.typ ks) = ap Lattice.typ (AtMosts-antisym hs ks)

    AtMosts-antisym : {a b : Tuple} → AtMosts m a b → AtMosts m b a → a ≡ b
    AtMosts-antisym AtMosts.nil AtMosts.nil = refl
    AtMosts-antisym (AtMosts.cons h hs) (AtMosts.cons k ks) =
        ap₂ Tuple.cons (AtMost-antisym h k) (AtMosts-antisym hs ks)

  -- Where the tests of the parser accept MySQL's integer and blob types only, `Compare` with its
  -- arguments exchanged gives the opposite answer, whenever it gives one.
  pub compare-flip :
      (a b : Lattice) (o : Ordering) → compare m a b ≡ ok o → compare m b a ≡ ok (flip o)
  compare-flip a b o h = flip_lem a b o h

  compare_self : (a : Lattice) → compare m a a ≡ ok eq
  compare_self a = go (compare m a a) refl (AtMost→compare m (AtMost-refl m v a))
    where
      go : (r : Result Ordering) → compare m a a ≡ r → Le r → compare m a a ≡ ok eq
      go (ok Ordering.lt) e h = cc (e, compare-flip a a lt e)
      go (ok Ordering.eq) e h = e
      go (ok Ordering.gt) e h = absurd h
      go (err _) e h = absurd h

  compare_same : (a b : Lattice) → compare m a b ≡ ok eq → a ≡ b
  compare_same a b h =
      AtMost-antisym (compare→AtMost m a b (rw h tt))
        (compare→AtMost m b a (rw (compare-flip a b eq h) tt))

  -- Where the tests of the parser accept MySQL's integer and blob types only, `Compare` answers 0
  -- exactly on equal elements.
  pub compare-eq_iff : (a b : Lattice) → (compare m a b ≡ ok eq) ↔ (a ≡ b)
  compare-eq_iff a b = (compare_same a b, λ e. rw (← e) (compare_self a))

  -- Where the tests of the parser accept MySQL's integer and blob types only, "at most" is transitive:
  -- where `Compare` answers -1 or 0 on a first and a second element and on the second and a third, it
  -- does so on the first and the third.
  pub compare_trans :
      (a b c : Lattice) → Le (compare m a b) → Le (compare m b c) → Le (compare m a c)
  compare_trans a b c h k =
      AtMost→compare m (AtMost-trans m v (compare→AtMost m a b h) (compare→AtMost m b c k))
