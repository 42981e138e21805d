-- ===== src/SchemaCmp/Joins.antt =====
-- What `Join` returns, as a relation: kind by kind, entry by entry in tuples.
use tidb_tools.Prelude.{
  ℕ, suc, ◌≡◌, refl, ap, ◌∙◌, Bool, false, ◌==◌, arith, String, List, Bool-cases, inl, inr,
}
use tidb_tools.Prelude.Int.{ℤ}
use tidb_tools.SchemaCmp.Data.{
  Value, Lattice, Tuple, IndexColumn, Result, ok, err, ◌>>=◌, wrap, Mysql,
}
use tidb_tools.SchemaCmp.Leaf.{
  join_bool, join_singleton, join_equality_singleton, join_bit_set, join_uint, join_int,
  join_field_tp, join_string_list,
}
use tidb_tools.SchemaCmp.Lattice.{
  join, join_loop, len, same_len, map_result, typ_of, auto_without_key,
}

module _ (m : Mysql) where
  mutual
    pub data Joins : Lattice → Lattice → Lattice → Type 0 where
      bool :
          {a b j : Bool}
          → join_bool a b ≡ ok j
          → Joins (Lattice.bool a) (Lattice.bool b) (Lattice.bool j)
      singleton :
          {a b j : Value}
          → join_singleton a b ≡ ok j
          → Joins (Lattice.singleton a) (Lattice.singleton b) (Lattice.singleton j)
      equality_singleton :
          {a b j : List IndexColumn}
          → join_equality_singleton a b ≡ ok j
          → Joins
              (Lattice.equality_singleton a)
              (Lattice.equality_singleton b)
              (Lattice.equality_singleton j)
      bit_set :
          {a b j : ℕ}
          → join_bit_set a b ≡ ok j
          → Joins (Lattice.bit_set a) (Lattice.bit_set b) (Lattice.bit_set j)
      byte :
          {a b j : ℕ}
          → join_uint a b ≡ ok j
          → Joins (Lattice.byte a) (Lattice.byte b) (Lattice.byte j)
      field_tp :
          {a b j : ℕ}
          → join_field_tp m a b ≡ ok j
          → Joins (Lattice.field_tp a) (Lattice.field_tp b) (Lattice.field_tp j)
      int :
          {a b j : ℤ} → join_int a b ≡ ok j → Joins (Lattice.int a) (Lattice.int b) (Lattice.int j)
      int64 :
          {a b j : ℤ}
          → join_int a b ≡ ok j
          → Joins (Lattice.int64 a) (Lattice.int64 b) (Lattice.int64 j)
      uint :
          {a b j : ℕ}
          → join_uint a b ≡ ok j
          → Joins (Lattice.uint a) (Lattice.uint b) (Lattice.uint j)
      string_list :
          {a b j : List String}
          → join_string_list a b ≡ ok j
          → Joins (Lattice.string_list a) (Lattice.string_list b) (Lattice.string_list j)
      nil_nil : Joins Lattice.maybe_nil Lattice.maybe_nil Lattice.maybe_nil
      nil_maybe : {b : Lattice} → Joins Lattice.maybe_nil (Lattice.maybe b) (Lattice.maybe b)
      maybe_nil : {a : Lattice} → Joins (Lattice.maybe a) Lattice.maybe_nil (Lattice.maybe a)
      maybe :
          {a b j : Lattice}
          → Joins a b j
          → Joins (Lattice.maybe a) (Lattice.maybe b) (Lattice.maybe j)
      tuple :
          {a b j : Tuple}
          → AllJoin a b j
          → Joins (Lattice.tuple a) (Lattice.tuple b) (Lattice.tuple j)
      typ :
          {a b j : Tuple}
          → AllJoin a b j
          → auto_without_key m j ≡ false
          → Joins (Lattice.typ a) (Lattice.typ b) (Lattice.typ j)

    pub data AllJoin : Tuple → Tuple → Tuple → Type 0 where
      nil : AllJoin Tuple.nil Tuple.nil Tuple.nil
      cons :
          {a b j : Lattice} {as_ bs js : Tuple}
          → Joins a b j
          → AllJoin as_ bs js
          → AllJoin (Tuple.cons a as_) (Tuple.cons b bs) (Tuple.cons j js)

  -- What a call of `Join` and its result give: an element that is related to the two.
  abbrev pub Gives : Lattice → Lattice → Result Lattice → Type 0
  Gives a b (ok j) = Joins a b j
  Gives a b (err e) = Unit

  abbrev GivesAll : Tuple → Tuple → Result Tuple → Type 0
  GivesAll a b (ok j) = AllJoin a b j
  GivesAll a b (err e) = Unit

  leaf :
      {A : Type 0} (kind : A → Lattice) (a b : Lattice) (r : Result A)
      → ((j : A) → r ≡ ok j → Joins a b (kind j))
      → Gives a b (map_result kind r)
  leaf kind a b (ok j) h = h j refl
  leaf kind a b (err e) h = tt

  maybe-Gives :
      (a b : Lattice) (r : Result Lattice)
      → Gives a b r
      → Gives (Lattice.maybe a) (Lattice.maybe b) (map_result Lattice.maybe r)
  maybe-Gives a b (ok j) h = Joins.maybe h
  maybe-Gives a b (err e) h = tt

  tuple-Gives :
      (a b : Tuple) (r : Result Tuple)
      → (len a ≡ len b → GivesAll a b r)
      → Gives (Lattice.tuple a) (Lattice.tuple b) (same_len a b (map_result Lattice.tuple r))
  tuple-Gives a b r h = elim (Bool-cases (len a == len b)) [
    | inr e ↦ rw e tt
    | inl e ↦ rw e (go r (h (ground arith)))
  ]
    where
      go :
          (r : Result Tuple)
          → GivesAll a b r
          → Gives (Lattice.tuple a) (Lattice.tuple b) (map_result Lattice.tuple r)
      go (ok j) h = Joins.tuple h
      go (err e) h = tt

  typ-Gives :
      (a b : Tuple) (r : Result Tuple)
      → (len a ≡ len b → GivesAll a b r)
      → Gives (Lattice.typ a) (Lattice.typ b) (same_len a b (r >>= typ_of m))
  typ-Gives a b r h = elim (Bool-cases (len a == len b)) [
    | inr e ↦ rw e tt
    | inl e ↦ rw e (go r (h (ground arith)))
  ]
    where
      go :
          (r : Result Tuple)
          → GivesAll a b r
          → Gives (Lattice.typ a) (Lattice.typ b) (r >>= typ_of m)
      go (err e) h = tt
      go (ok j) h = elim (Bool-cases (auto_without_key m j)) [
        | inl e ↦ rw e tt
        | inr e ↦ rw e (Joins.typ h e)
      ]

  cons-Gives :
      (i : ℕ) (a b : Lattice) (as_ bs : Tuple) (r : Result Lattice) (rs : Result Tuple)
      → Gives a b r
      → GivesAll as_ bs rs
      → GivesAll
          (Tuple.cons a as_)
          (Tuple.cons b bs)
          (do res ← wrap i r; rest ← rs; ok (Tuple.cons res rest))
  cons-Gives i a b as_ bs (ok j) (ok js) h k = AllJoin.cons h k
  cons-Gives i a b as_ bs (ok j) (err e) h k = tt
  cons-Gives i a b as_ bs (err e) rs h k = tt

  mutual
    unfolding join

    join-Gives : (a b : Lattice) → Gives a b (join m a b)
    join-Gives (Lattice.bool a) (Lattice.bool b) = leaf Lattice.bool _ _ _ (λ j h. Joins.bool h)
    join-Gives (Lattice.singleton a) (Lattice.singleton b) =
        leaf Lattice.singleton _ _ _ (λ j h. Joins.singleton h)
    join-Gives (Lattice.equality_singleton a) (Lattice.equality_singleton b) =
        leaf Lattice.equality_singleton _ _ _ (λ j h. Joins.equality_singleton h)
    join-Gives (Lattice.bit_set a) (Lattice.bit_set b) =
        leaf Lattice.bit_set _ _ _ (λ j h. Joins.bit_set h)
    join-Gives (Lattice.byte a) (Lattice.byte b) = leaf Lattice.byte _ _ _ (λ j h. Joins.byte h)
    join-Gives (Lattice.field_tp a) (Lattice.field_tp b) =
        leaf Lattice.field_tp _ _ _ (λ j h. Joins.field_tp h)
    join-Gives (Lattice.int a) (Lattice.int b) = leaf Lattice.int _ _ _ (λ j h. Joins.int h)
    join-Gives (Lattice.int64 a) (Lattice.int64 b) = leaf Lattice.int64 _ _ _ (λ j h. Joins.int64 h)
    join-Gives (Lattice.uint a) (Lattice.uint b) = leaf Lattice.uint _ _ _ (λ j h. Joins.uint h)
    join-Gives (Lattice.string_list a) (Lattice.string_list b) =
        leaf Lattice.string_list _ _ _ (λ j h. Joins.string_list h)
    join-Gives Lattice.maybe_nil Lattice.maybe_nil = Joins.nil_nil
    join-Gives Lattice.maybe_nil (Lattice.maybe b) = Joins.nil_maybe
    join-Gives (Lattice.maybe a) Lattice.maybe_nil = Joins.maybe_nil
    join-Gives (Lattice.maybe a) (Lattice.maybe b) = maybe-Gives a b (join m a b) (join-Gives a b)
    join-Gives (Lattice.tuple a) (Lattice.tuple b) =
        tuple-Gives a b (join_loop m 0 a b) (loop-Gives 0 a b)
    join-Gives (Lattice.typ a) (Lattice.typ b) =
        typ-Gives a b (join_loop m 0 a b) (loop-Gives 0 a b)
    join-Gives a b = tt

    loop-Gives : (i : ℕ) (a b : Tuple) → len a ≡ len b → GivesAll a b (join_loop m i a b)
    loop-Gives i Tuple.nil Tuple.nil n = AllJoin.nil
    loop-Gives i Tuple.nil (Tuple.cons y b) n = absurd (omega arith)
    loop-Gives i (Tuple.cons x a) Tuple.nil n = absurd (omega arith)
    loop-Gives i (Tuple.cons x a) (Tuple.cons y b) n =
        cons-Gives i x y a b (join m x y) (join_loop m (suc i) a b) (join-Gives x y)
          (loop-Gives (suc i) a b (omega arith))

  pub join→Joins : (a b j : Lattice) → join m a b ≡ ok j → Joins a b j
  join→Joins a b j h = rw h at (join-Gives a b)

  len-AllJoin : {a b j : Tuple} → AllJoin a b j → len a ≡ len b
  len-AllJoin AllJoin.nil = refl
  len-AllJoin (AllJoin.cons h hs) = ap suc (len-AllJoin hs)

  same_len_ok : {A : Type 0} (a b : Tuple) (r : Result A) → len a ≡ len b → same_len a b r ≡ r
  same_len_ok a b r h = ground arith

  mutual
    unfolding join

    of_Joins : {a b j : Lattice} → Joins a b j → join m a b ≡ ok j
    of_Joins (Joins.bool h) = rw h
    of_Joins (Joins.singleton h) = rw h
    of_Joins (Joins.equality_singleton h) = rw h
    of_Joins (Joins.bit_set h) = rw h
    of_Joins (Joins.byte h) = rw h
    of_Joins (Joins.field_tp h) = rw h
    of_Joins (Joins.int h) = rw h
    of_Joins (Joins.int64 h) = rw h
    of_Joins (Joins.uint h) = rw h
    of_Joins (Joins.string_list h) = rw h
    of_Joins Joins.nil_nil = refl
    of_Joins Joins.nil_maybe = refl
    of_Joins Joins.maybe_nil = refl
    of_Joins (Joins.maybe h) = rw (of_Joins h)
    of_Joins (Joins.tuple {a = a} {b = b} hs) =
        same_len_ok a b _ (len-AllJoin hs) ∙ rw (of_AllJoin 0 hs)
    of_Joins (Joins.typ {a = a} {b = b} hs k) =
        same_len_ok a b _ (len-AllJoin hs) ∙ rw (of_AllJoin 0 hs, k)

    of_AllJoin : (i : ℕ) {a b j : Tuple} → AllJoin a b j → join_loop m i a b ≡ ok j
    of_AllJoin i AllJoin.nil = refl
    of_AllJoin i (AllJoin.cons h hs) = rw (of_Joins h, of_AllJoin (suc i) hs)

  pub Joins→join : (a b j : Lattice) → Joins a b j → join m a b ≡ ok j
  Joins→join a b j h = of_Joins h
