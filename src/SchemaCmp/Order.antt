-- ===== src/SchemaCmp/Order.antt =====
-- The laws of a join-semilattice, as an interface for the lattice types of pkg/schemacmp/lattice.go.
-- `Join` of two elements may fail, and `Compare` fails on two that are not ordered.
use Prim.Native.Nat.{Ordering}
use tidb_tools.Prelude.{◌≡◌, refl}
use tidb_tools.SchemaCmp.Data.{Result, ok, err}
use tidb_tools.SchemaCmp.Leaf.{lt, eq, gt}

abbrev pub flip : Ordering → Ordering
flip Ordering.lt = gt
flip Ordering.eq = eq
flip Ordering.gt = lt

-- The result of a comparison says "at most".
abbrev pub Le : Result Ordering → Type 0
Le (ok Ordering.lt) = Unit
Le (ok Ordering.eq) = Unit
Le (ok Ordering.gt) = ⊥
Le (err e) = ⊥

pub record IsSemilattice {A : Type 0} (cmp : A → A → Result Ordering) (jn : A → A → Result A)
    : Type 0 where
  pub self : (a : A) → cmp a a ≡ ok eq
  pub swap : (a b : A) (o : Ordering) → cmp a b ≡ ok o → cmp b a ≡ ok (flip o)
  pub same : (a b : A) → cmp a b ≡ ok eq → a ≡ b
  pub trans : (a b c : A) → Le (cmp a b) → Le (cmp b c) → Le (cmp a c)
  pub upper : (a b j : A) → jn a b ≡ ok j → Le (cmp a j)
  pub comm : (a b j : A) → jn a b ≡ ok j → jn b a ≡ ok j
  pub least : (a b j c : A) → jn a b ≡ ok j → Le (cmp a c) → Le (cmp b c) → Le (cmp j c)

abbrev by_result :
    {A : Type 0} {cmp : A → A → Result Ordering} {jn : A → A → Result A}
    → IsSemilattice cmp jn
    → (a b : A) (r : Result Ordering) → cmp a b ≡ r
    → Le r
    → Le (cmp b a)
    → a ≡ b
by_result s a b (ok Ordering.lt) e h k = absurd (rw (s.swap a b Ordering.lt e) at k)
by_result s a b (ok Ordering.eq) e h k = s.same a b e
by_result s a b (ok Ordering.gt) e h k = absurd h
by_result s a b (err _) e h k = absurd h

-- Two elements that are at most each other are the same.
pub antisym :
    {A : Type 0} {cmp : A → A → Result Ordering} {jn : A → A → Result A}
    → IsSemilattice cmp jn
    → (a b : A) → Le (cmp a b)
    → Le (cmp b a)
    → a ≡ b
antisym {cmp} s a b h k = by_result s a b (cmp a b) refl h k
