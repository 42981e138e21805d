-- ===== src/SchemaCmp/Partial.antt =====
-- `Compare` of pkg/schemacmp/lattice.go against the relation `AtMost`.
use Prim.Native.Nat.{Ordering}
use tidb_tools.Prelude.{ℕ, suc, ◌≡◌, refl, ap, ◌↔◌, arith}
use tidb_tools.SchemaCmp.Data.{Lattice, Tuple, Result, ok, err, ◌>>=◌, wrap, Mysql}
use tidb_tools.SchemaCmp.Leaf.{lt, eq}
use tidb_tools.SchemaCmp.Lattice.{compare, compare_loop, combine, len, same_len}
use tidb_tools.SchemaCmp.Order.{Le}
use tidb_tools.SchemaCmp.Scalars.{
  bool-IsSemilattice, uint-IsSemilattice, int-IsSemilattice, singleton-IsSemilattice,
}
use tidb_tools.SchemaCmp.StringLists.{string_list-IsSemilattice, equality_singleton-IsSemilattice}
use tidb_tools.SchemaCmp.BitSet.{bit_set-IsSemilattice}
use tidb_tools.SchemaCmp.FieldTp.{IsMysql, field_tp-IsSemilattice}
use tidb_tools.SchemaCmp.AtMost.{AtMost, AtMosts, NotGt, compare→AtMost}

same_len_same : (a b : Tuple) (r : Result Ordering) → len a ≡ len b → same_len a b r ≡ r
same_len_same a b r h = ground arith

module _ (m : Mysql) where
  -- The loop goes on, with "at most" so far, where its entry is at most.
  round_on :
      (i : ℕ) (r : Ordering) (first : Result Ordering) (rest : Ordering → Result Ordering)
      → NotGt m r
      → Le first
      → ((r' : Ordering) → NotGt m r' → Le (rest r'))
      → Le (do res ← wrap i first; r' ← wrap i (combine r res); rest r')
  unfolding combine
  round_on i r (err e) rest n h k = absurd h
  round_on i r (ok Ordering.gt) rest n h k = absurd h
  round_on i Ordering.lt (ok Ordering.lt) rest n h k = k lt tt
  round_on i Ordering.lt (ok Ordering.eq) rest n h k = k lt tt
  round_on i Ordering.eq (ok Ordering.lt) rest n h k = k lt tt
  round_on i Ordering.eq (ok Ordering.eq) rest n h k = k eq tt
  round_on i Ordering.gt (ok o) rest n h k = absurd n

  len-AtMosts : {a b : Tuple} → AtMosts m a b → len a ≡ len b
  len-AtMosts AtMosts.nil = refl
  len-AtMosts (AtMosts.cons h hs) = ap suc (len-AtMosts hs)

  mutual
    unfolding compare

    pub AtMost→compare : {a b : Lattice} → AtMost m a b → Le (compare m a b)
    AtMost→compare (AtMost.bool h) = h
    AtMost→compare (AtMost.singleton h) = h
    AtMost→compare (AtMost.equality_singleton h) = h
    AtMost→compare (AtMost.bit_set h) = h
    AtMost→compare (AtMost.byte h) = h
    AtMost→compare (AtMost.field_tp h) = h
    AtMost→compare (AtMost.int h) = h
    AtMost→compare (AtMost.int64 h) = h
    AtMost→compare (AtMost.uint h) = h
    AtMost→compare (AtMost.string_list h) = h
    AtMost→compare AtMost.nil_nil = tt
    AtMost→compare AtMost.nil_maybe = tt
    AtMost→compare (AtMost.maybe h) = AtMost→compare h
    AtMost→compare (AtMost.tuple {a = a} {b = b} hs) =
        rw (same_len_same a b _ (len-AtMosts hs)) (AtMosts→loop 0 eq tt hs)
    AtMost→compare (AtMost.typ {a = a} {b = b} hs) =
        rw (same_len_same a b _ (len-AtMosts hs)) (AtMosts→loop 0 eq tt hs)

    AtMosts→loop :
        (i : ℕ) (r : Ordering) {a b : Tuple}
        → NotGt m r
        → AtMosts m a b
        → Le (compare_loop m i r a b)
    AtMosts→loop i Ordering.lt n AtMosts.nil = tt
    AtMosts→loop i Ordering.eq n AtMosts.nil = tt
    AtMosts→loop i Ordering.gt n AtMosts.nil = absurd n
    AtMosts→loop i r n (AtMosts.cons {a = x} {b = y} {as_ = as_} {bs = bs} h hs) =
        round_on i r (compare m x y) (λ r'. compare_loop m (suc i) r' as_ bs) n (AtMost→compare h)
          (λ r' n'. AtMosts→loop (suc i) r' n' hs)

  -- For all elements of the lattice, `Compare` succeeds with -1 or 0 exactly when the first is at
  -- most the second in the order of their kind, entry by entry in tuples.
  pub compare_iff-AtMost : (a b : Lattice) → Le (compare m a b) ↔ AtMost m a b
  compare_iff-AtMost a b = (compare→AtMost m a b, AtMost→compare)

module _ (m : Mysql) (v : IsMysql m) where
  mutual
    pub AtMost-refl : (a : Lattice) → AtMost m a a
    AtMost-refl (Lattice.bool a) = AtMost.bool (rw (bool-IsSemilattice.self a) tt)
    AtMost-refl (Lattice.singleton a) = AtMost.singleton (rw (singleton-IsSemilattice.self a) tt)
    AtMost-refl (Lattice.equality_singleton a) =
        AtMost.equality_singleton (rw (equality_singleton-IsSemilattice.self a) tt)
    AtMost-refl (Lattice.bit_set a) = AtMost.bit_set (rw (bit_set-IsSemilattice.self a) tt)
    AtMost-refl (Lattice.byte a) = AtMost.byte (rw (uint-IsSemilattice.self a) tt)
    AtMost-refl (Lattice.field_tp a) = AtMost.field_tp (rw ((field_tp-IsSemilattice m v).self a) tt)
    AtMost-refl (Lattice.int a) = AtMost.int (rw (int-IsSemilattice.self a) tt)
    AtMost-refl (Lattice.int64 a) = AtMost.int64 (rw (int-IsSemilattice.self a) tt)
    AtMost-refl (Lattice.uint a) = AtMost.uint (rw (uint-IsSemilattice.self a) tt)
    AtMost-refl (Lattice.string_list a) =
        AtMost.string_list (rw (string_list-IsSemilattice.self a) tt)
    AtMost-refl Lattice.maybe_nil = AtMost.nil_nil
    AtMost-refl (Lattice.maybe a) = AtMost.maybe (AtMost-refl a)
    AtMost-refl (Lattice.tuple a) = AtMost.tuple (AtMosts-refl a)
    AtMost-refl (Lattice.typ a) = AtMost.typ (AtMosts-refl a)

    AtMosts-refl : (a : Tuple) → AtMosts m a a
    AtMosts-refl Tuple.nil = AtMosts.nil
    AtMosts-refl (Tuple.cons x a) = AtMosts.cons (AtMost-refl x) (AtMosts-refl a)

  mutual
    pub AtMost-trans : {a b c : Lattice} → AtMost m a b → AtMost m b c → AtMost m a c
    AtMost-trans (AtMost.bool h) (AtMost.bool k) = AtMost.bool (bool-IsSemilattice.trans _ _ _ h k)
    AtMost-trans (AtMost.singleton h) (AtMost.singleton k) =
        AtMost.singleton (singleton-IsSemilattice.trans _ _ _ h k)
    AtMost-trans (AtMost.equality_singleton h) (AtMost.equality_singleton k) =
        AtMost.equality_singleton (equality_singleton-IsSemilattice.trans _ _ _ h k)
    AtMost-trans (AtMost.bit_set h) (AtMost.bit_set k) =
        AtMost.bit_set (bit_set-IsSemilattice.trans _ _ _ h k)
    AtMost-trans (AtMost.byte h) (AtMost.byte k) = AtMost.byte (uint-IsSemilattice.trans _ _ _ h k)
    AtMost-trans (AtMost.field_tp h) (AtMost.field_tp k) =
        AtMost.field_tp ((field_tp-IsSemilattice m v).trans _ _ _ h k)
    AtMost-trans (AtMost.int h) (AtMost.int k) = AtMost.int (int-IsSemilattice.trans _ _ _ h k)
    AtMost-trans (AtMost.int64 h) (AtMost.int64 k) =
        AtMost.int64 (int-IsSemilattice.trans _ _ _ h k)
    AtMost-trans (AtMost.uint h) (AtMost.uint k) = AtMost.uint (uint-IsSemilattice.trans _ _ _ h k)
    AtMost-trans (AtMost.string_list h) (AtMost.string_list k) =
        AtMost.string_list (string_list-IsSemilattice.trans _ _ _ h k)
    AtMost-trans AtMost.nil_nil k = k
    AtMost-trans AtMost.nil_maybe (AtMost.maybe k) = AtMost.nil_maybe
    AtMost-trans (AtMost.maybe h) (AtMost.maybe k) = AtMost.maybe (AtMost-trans h k)
    AtMost-trans (AtMost.tuple hs) (AtMost.tuple ks) = AtMost.tuple (AtMosts-trans hs ks)
    AtMost-trans (AtMost.typ hs) (AtMost.typ ks) = AtMost.typ (AtMosts-trans hs ks)

    AtMosts-trans : {a b c : Tuple} → AtMosts m a b → AtMosts m b c → AtMosts m a c
    AtMosts-trans AtMosts.nil AtMosts.nil = AtMosts.nil
    AtMosts-trans (AtMosts.cons h hs) (AtMosts.cons k ks) =
        AtMosts.cons (AtMost-trans h k) (AtMosts-trans hs ks)
