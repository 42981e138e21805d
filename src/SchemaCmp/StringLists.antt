-- ===== src/SchemaCmp/StringLists.antt =====
-- `StringList` and `EqualitySingleton` of pkg/schemacmp/lattice.go, and the laws of a semilattice.
use Prim.Native.Nat.{Ordering}
use tidb_tools.Prelude.{
  ℕ, suc, ◌≤◌, String, str_eq_iff, ◌≡◌, refl, sym, ◌∙◌, true, List, [], ◌∷◌, length, arith,
}
use tidb_tools.Prelude.Int.{eqb_ℤ_iff}
use tidb_tools.SchemaCmp.Data.{IndexColumn, ok}
use tidb_tools.SchemaCmp.Leaf.{
  equals_loop, equals, compare_equality_singleton, join_equality_singleton, elem_mismatch,
  compare_string_list, join_string_list,
}
use tidb_tools.SchemaCmp.Order.{Le, flip, IsSemilattice}

-- The two lists have the same elements up to the shorter length.
abbrev pub Agree : List String → List String → Type 0
Agree (a ∷ xs) (b ∷ ys) = (a ≡ b) × Agree xs ys
Agree _ _ = Unit

elem_mismatch→Agree : (i : ℕ) (xs ys : List String) → elem_mismatch i xs ys ≡ ok tt → Agree xs ys
unfolding elem_mismatch
elem_mismatch→Agree i [] ys h = tt
elem_mismatch→Agree i (a ∷ xs) [] h = tt
elem_mismatch→Agree i (a ∷ xs) (b ∷ ys) h =
    ground (arith, str_eq_iff a b, elem_mismatch→Agree (suc i) xs ys)

Agree→elem_mismatch : (i : ℕ) (xs ys : List String) → Agree xs ys → elem_mismatch i xs ys ≡ ok tt
unfolding elem_mismatch
Agree→elem_mismatch i [] ys h = refl
Agree→elem_mismatch i (a ∷ xs) [] h = refl
Agree→elem_mismatch i (a ∷ xs) (b ∷ ys) h =
    ground (arith, str_eq_iff a b, Agree→elem_mismatch (suc i) xs ys)

Agree-self : (xs : List String) → Agree xs xs
Agree-self [] = tt
Agree-self (a ∷ xs) = (refl, Agree-self xs)

Agree-sym : (xs ys : List String) → Agree xs ys → Agree ys xs
Agree-sym [] [] h = tt
Agree-sym [] (b ∷ ys) h = tt
Agree-sym (a ∷ xs) [] h = tt
Agree-sym (a ∷ xs) (b ∷ ys) h = (sym h.0, Agree-sym xs ys h.1)

Agree-same : (xs ys : List String) → Agree xs ys → length xs ≡ length ys → xs ≡ ys
Agree-same [] [] h n = refl
Agree-same [] (b ∷ ys) h n = absurd (omega arith)
Agree-same (a ∷ xs) [] h n = absurd (omega arith)
Agree-same (a ∷ xs) (b ∷ ys) h n = cc (h.0, Agree-same xs ys h.1 (omega arith))

Agree-trans :
    (xs ys zs : List String) → length xs ≤ length ys → Agree xs ys → Agree ys zs → Agree xs zs
Agree-trans [] ys zs n h k = tt
Agree-trans (a ∷ xs) [] zs n h k = absurd (omega arith)
Agree-trans (a ∷ xs) (b ∷ ys) [] n h k = tt
Agree-trans (a ∷ xs) (b ∷ ys) (c ∷ zs) n h k =
    (h.0 ∙ k.0, Agree-trans xs ys zs (omega arith) h.1 k.1)

-- "At most" is the order of prefixes.
abbrev pub IsPrefix : List String → List String → Type 0
IsPrefix xs ys = Agree xs ys × (length xs ≤ length ys)

IsPrefix→Le : (xs ys : List String) → IsPrefix xs ys → Le (compare_string_list xs ys)
unfolding compare_string_list
IsPrefix→Le xs ys h = ground (arith, Agree→elem_mismatch 0 xs ys h.0)

Le→IsPrefix : (xs ys : List String) → Le (compare_string_list xs ys) → IsPrefix xs ys
unfolding compare_string_list
Le→IsPrefix xs ys h = ground (arith, elem_mismatch→Agree 0 xs ys)

compare→Agree :
    (xs ys : List String) (o : Ordering) → compare_string_list xs ys ≡ ok o → Agree xs ys
unfolding compare_string_list
compare→Agree xs ys o h = ground (arith, elem_mismatch→Agree 0 xs ys)

compare_self : (a : List String) → compare_string_list a a ≡ ok Ordering.eq
unfolding compare_string_list
compare_self a = ground (arith, Agree→elem_mismatch 0 a a (Agree-self a))

compare-flip :
    (a b : List String) (o : Ordering)
    → compare_string_list a b ≡ ok o
    → compare_string_list b a ≡ ok (flip o)
unfolding compare_string_list
compare-flip a b o h =
    let back = Agree→elem_mismatch 0 b a (Agree-sym a b (compare→Agree a b o h)) in
    ground (arith, back)

compare-same : (a b : List String) → compare_string_list a b ≡ ok Ordering.eq → a ≡ b
unfolding compare_string_list
compare-same a b h =
    let agree = compare→Agree a b Ordering.eq h in ground (arith, Agree-same a b agree)

pub string_list-IsSemilattice : IsSemilattice compare_string_list join_string_list
unfolding join_string_list
string_list-IsSemilattice = record {
  self = compare_self;
  swap = compare-flip;
  same = compare-same;
  trans = λ a b c h k.
      let p = Le→IsPrefix a b h in
      let q = Le→IsPrefix b c k in IsPrefix→Le a c (Agree-trans a b c p.1 p.0 q.0, omega arith);
  upper = λ a b j h. ground (arith, compare_self a);
  comm = λ a b j h. ground (
    arith,
    compare-flip a b Ordering.lt,
    compare-flip a b Ordering.eq,
    compare-flip a b Ordering.gt,
    compare-same a b,
  );
  least = λ a b j c h k l. ground arith;
}

equals_loop_self : (a : List IndexColumn) → equals_loop a a ≡ true
unfolding equals_loop
equals_loop_self [] = refl
equals_loop_self (x ∷ a) =
    ground
      (arith, equals_loop_self a, str_eq_iff x.col_name x.col_name, eqb_ℤ_iff x.length x.length)

equals_loop-same : (a b : List IndexColumn) → length a ≡ length b → equals_loop a b ≡ true → a ≡ b
unfolding equals_loop
equals_loop-same [] [] n h = refl
equals_loop-same [] (y ∷ b) n h = absurd (omega arith)
equals_loop-same (x ∷ a) [] n h = absurd (omega arith)
equals_loop-same (x ∷ a) (y ∷ b) n h = ground (
  arith,
  equals_loop-same a b (omega arith),
  str_eq_iff x.col_name y.col_name,
  eqb_ℤ_iff x.length y.length,
)

equals_self : (a : List IndexColumn) → equals a a ≡ true
unfolding equals
equals_self a = ground (arith, equals_loop_self a)

equals-same : (a b : List IndexColumn) → equals a b ≡ true → a ≡ b
unfolding equals
equals-same a b h = ground (arith, equals_loop-same a b)

pub equality_singleton-IsSemilattice :
    IsSemilattice compare_equality_singleton join_equality_singleton
unfolding compare_equality_singleton join_equality_singleton
equality_singleton-IsSemilattice = record {
  self = λ a. ground (arith, equals_self a);
  swap = λ a b o h. ground (arith, equals-same a b, equals_self a);
  same = λ a b h. ground (arith, equals-same a b);
  trans = λ a b c h k. ground (arith, equals-same a b, equals-same b c, equals_self a);
  upper = λ a b j h. ground (arith, equals_self a);
  comm = λ a b j h. ground (arith, equals-same a b, equals_self a);
  least = λ a b j c h k l. ground arith;
}
