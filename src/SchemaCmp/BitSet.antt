-- ===== src/SchemaCmp/BitSet.antt =====
-- `BitSet` of pkg/schemacmp/lattice.go, and the laws of a semilattice.
use Prim.Native.Nat.{bit_and, bit_or}
use tidb_tools.Prelude.{ℕ, ◌+◌, ◌≤◌, ◌≡◌, arith}
use tidb_tools.SchemaCmp.Leaf.{compare_bit_set, join_bit_set}
use tidb_tools.SchemaCmp.Order.{Le, IsSemilattice}
use tidb_tools.Prelude.Bits.{
  bit_and-le, bit_and_self, bit_and_comm, bit_or_comm, bit_and-bit_or, included_trans,
  included_union,
}

-- Inclusion as `Compare` tests it.
abbrev pub Included : ℕ → ℕ → Type 0
Included a b = bit_and a b ≡ a

and_not-le : (a b : ℕ) → bit_and a b ≤ a
and_not-le a b = bit_and-le a a b (omega arith)

Included→Le : (a b : ℕ) → Included a b → Le (compare_bit_set a b)
unfolding compare_bit_set
Included→Le a b h = ground arith

Included-antisym : (a b : ℕ) → Included a b → Included b a → a ≡ b
Included-antisym a b h k = omega (arith, bit_and_comm (a + b) a b (omega arith) (omega arith))

Le→Included : (a b : ℕ) → Le (compare_bit_set a b) → Included a b
unfolding compare_bit_set
Le→Included a b h = ground (arith, and_not-le a b, bit_and_self a a (omega arith))

pub bit_set-IsSemilattice : IsSemilattice compare_bit_set join_bit_set
unfolding join_bit_set
bit_set-IsSemilattice = record {
  self = λ a. unfold compare_bit_set in ground arith;
  swap = λ a b o h.
      unfold compare_bit_set in
      ground (arith, and_not-le a b, and_not-le b a, Included-antisym a b);
  same = λ a b h. unfold compare_bit_set in ground arith;
  trans = λ a b c h k.
      Included→Le a c
        (included_trans a a b c (omega arith) (Le→Included a b h) (Le→Included b c k));
  upper = λ a b j h.
      Included→Le a j
        (let e : bit_or a b ≡ j = cc in rw (← e) (bit_and-bit_or a a b (omega arith)));
  comm = λ a b j h. ground (arith, bit_or_comm (a + b) a b (omega arith) (omega arith));
  least = λ a b j c h k l. Included→Le j c (
      let e : bit_or a b ≡ j = cc in
      rw (← e) (
        included_union (a + b) a b c (omega arith) (omega arith) (Le→Included a c k)
          (Le→Included b c l)));
}
