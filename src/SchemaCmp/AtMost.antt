-- ===== src/SchemaCmp/AtMost.antt =====
-- The order of the lattice as a relation, kind by kind, and what `Compare` has to do with it.
use Prim.Native.Nat.{Ordering}
use tidb_tools.Prelude.{ℕ, suc, ◌≡◌, Bool, ◌==◌, arith, Bool-cases, inl, inr}
use tidb_tools.SchemaCmp.Data.{
  Value, Lattice, Tuple, IndexColumn, Result, ok, err, ◌>>=◌, wrap, Mysql,
}
use tidb_tools.Prelude.{String, List}
use tidb_tools.Prelude.Int.{ℤ}
use tidb_tools.SchemaCmp.Leaf.{
  lt, eq, gt, compare_bool, compare_singleton, compare_equality_singleton, compare_bit_set,
  compare_uint, compare_int, compare_field_tp, compare_string_list,
}
use tidb_tools.SchemaCmp.Lattice.{compare, compare_loop, combine, len, same_len}
use tidb_tools.SchemaCmp.Order.{Le}

same_len_le : (a b : Tuple) (r : Result Ordering) → Le (same_len a b r) → (len a ≡ len b) × Le r
same_len_le a b r h = elim (Bool-cases (len a == len b)) [
  | inl e ↦ (ground arith, rw e at h)
  | inr e ↦ absurd (rw e at h)
]

module _ (m : Mysql) where
  -- Elements of one kind, by the order of the kind; `maybe_nil` below all others of its kind; tuples
  -- of one length entry by entry.
  mutual
    pub data AtMost : Lattice → Lattice → Type 0 where
      bool : {a b : Bool} → Le (compare_bool a b) → AtMost (Lattice.bool a) (Lattice.bool b)
      singleton :
          {a b : Value}
          → Le (compare_singleton a b)
          → AtMost (Lattice.singleton a) (Lattice.singleton b)
      equality_singleton :
          {a b : List IndexColumn}
          → Le (compare_equality_singleton a b)
          → AtMost (Lattice.equality_singleton a) (Lattice.equality_singleton b)
      bit_set :
          {a b : ℕ} → Le (compare_bit_set a b) → AtMost (Lattice.bit_set a) (Lattice.bit_set b)
      byte : {a b : ℕ} → Le (compare_uint a b) → AtMost (Lattice.byte a) (Lattice.byte b)
      field_tp :
          {a b : ℕ} → Le (compare_field_tp m a b) → AtMost (Lattice.field_tp a) (Lattice.field_tp b)
      int : {a b : ℤ} → Le (compare_int a b) → AtMost (Lattice.int a) (Lattice.int b)
      int64 : {a b : ℤ} → Le (compare_int a b) → AtMost (Lattice.int64 a) (Lattice.int64 b)
      uint : {a b : ℕ} → Le (compare_uint a b) → AtMost (Lattice.uint a) (Lattice.uint b)
      string_list :
          {a b : List String}
          → Le (compare_string_list a b)
          → AtMost (Lattice.string_list a) (Lattice.string_list b)
      nil_nil : AtMost Lattice.maybe_nil Lattice.maybe_nil
      nil_maybe : {b : Lattice} → AtMost Lattice.maybe_nil (Lattice.maybe b)
      maybe : {a b : Lattice} → AtMost a b → AtMost (Lattice.maybe a) (Lattice.maybe b)
      tuple : {a b : Tuple} → AtMosts a b → AtMost (Lattice.tuple a) (Lattice.tuple b)
      typ : {a b : Tuple} → AtMosts a b → AtMost (Lattice.typ a) (Lattice.typ b)

    pub data AtMosts : Tuple → Tuple → Type 0 where
      nil : AtMosts Tuple.nil Tuple.nil
      cons :
          {a b : Lattice} {as_ bs : Tuple}
          → AtMost a b
          → AtMosts as_ bs
          → AtMosts (Tuple.cons a as_) (Tuple.cons b bs)

  abbrev pub NotGt : Ordering → Type 0
  NotGt Ordering.gt = ⊥
  NotGt _ = Unit

  -- One round of the loop that ends in "at most" had "at most" so far and for its entry.
  round_le :
      (i : ℕ) (r : Ordering) (first : Result Ordering) (rest : Ordering → Result Ordering)
      → ((r' : Ordering) → Le (rest r') → NotGt r')
      → Le (do res ← wrap i first; r' ← wrap i (combine r res); rest r')
      → NotGt r × Le first × ((r' : Ordering) × Le (rest r'))
  unfolding combine
  round_le i r (err e) rest keep h = absurd h
  round_le i Ordering.lt (ok Ordering.lt) rest keep h = (tt, tt, (lt, h))
  round_le i Ordering.lt (ok Ordering.eq) rest keep h = (tt, tt, (lt, h))
  round_le i Ordering.lt (ok Ordering.gt) rest keep h = absurd h
  round_le i Ordering.eq (ok Ordering.lt) rest keep h = (tt, tt, (lt, h))
  round_le i Ordering.eq (ok Ordering.eq) rest keep h = (tt, tt, (eq, h))
  round_le i Ordering.eq (ok Ordering.gt) rest keep h = absurd (keep gt h)
  round_le i Ordering.gt (ok Ordering.lt) rest keep h = absurd h
  round_le i Ordering.gt (ok Ordering.eq) rest keep h = absurd (keep gt h)
  round_le i Ordering.gt (ok Ordering.gt) rest keep h = absurd (keep gt h)

  loop-NotGt : (i : ℕ) (r : Ordering) (a b : Tuple) → Le (compare_loop m i r a b) → NotGt r
  unfolding compare
  loop-NotGt i Ordering.lt a b h = tt
  loop-NotGt i Ordering.eq a b h = tt
  loop-NotGt i Ordering.gt Tuple.nil b h = h
  loop-NotGt i Ordering.gt (Tuple.cons x a) Tuple.nil h = h
  loop-NotGt i Ordering.gt (Tuple.cons x a) (Tuple.cons y b) h =
      (round_le i gt (compare m x y) (λ r'. compare_loop m (suc i) r' a b)
        (λ r' k. loop-NotGt (suc i) r' a b k) h).0

  -- `Compare` answers -1 or 0 on related elements only.
  mutual
    unfolding compare

    pub compare→AtMost : (a b : Lattice) → Le (compare m a b) → AtMost a b
    compare→AtMost (Lattice.bool a) (Lattice.bool b) h = AtMost.bool h
    compare→AtMost (Lattice.singleton a) (Lattice.singleton b) h = AtMost.singleton h
    compare→AtMost (Lattice.equality_singleton a) (Lattice.equality_singleton b) h =
        AtMost.equality_singleton h
    compare→AtMost (Lattice.bit_set a) (Lattice.bit_set b) h = AtMost.bit_set h
    compare→AtMost (Lattice.byte a) (Lattice.byte b) h = AtMost.byte h
    compare→AtMost (Lattice.field_tp a) (Lattice.field_tp b) h = AtMost.field_tp h
    compare→AtMost (Lattice.int a) (Lattice.int b) h = AtMost.int h
    compare→AtMost (Lattice.int64 a) (Lattice.int64 b) h = AtMost.int64 h
    compare→AtMost (Lattice.uint a) (Lattice.uint b) h = AtMost.uint h
    compare→AtMost (Lattice.string_list a) (Lattice.string_list b) h = AtMost.string_list h
    compare→AtMost Lattice.maybe_nil Lattice.maybe_nil h = AtMost.nil_nil
    compare→AtMost Lattice.maybe_nil (Lattice.maybe b) h = AtMost.nil_maybe
    compare→AtMost (Lattice.maybe a) (Lattice.maybe b) h = AtMost.maybe (compare→AtMost a b h)
    compare→AtMost (Lattice.tuple a) (Lattice.tuple b) h =
        let (n, k) = same_len_le a b _ h in AtMost.tuple (loop→AtMosts 0 eq a b n k)
    compare→AtMost (Lattice.typ a) (Lattice.typ b) h =
        let (n, k) = same_len_le a b _ h in AtMost.typ (loop→AtMosts 0 eq a b n k)
    compare→AtMost a b h = absurd h

    loop→AtMosts :
        (i : ℕ) (r : Ordering) (a b : Tuple)
        → len a ≡ len b
        → Le (compare_loop m i r a b)
        → AtMosts a b
    loop→AtMosts i r Tuple.nil Tuple.nil n h = AtMosts.nil
    loop→AtMosts i r Tuple.nil (Tuple.cons y b) n h = absurd (omega arith)
    loop→AtMosts i r (Tuple.cons x a) Tuple.nil n h = absurd (omega arith)
    loop→AtMosts i r (Tuple.cons x a) (Tuple.cons y b) n h =
        let (_, first, (r', rest)) =
          round_le i r (compare m x y) (λ r'. compare_loop m (suc i) r' a b)
            (λ r' k. loop-NotGt (suc i) r' a b k) h in
        AtMosts.cons (compare→AtMost x y first) (loop→AtMosts (suc i) r' a b (omega arith) rest)
