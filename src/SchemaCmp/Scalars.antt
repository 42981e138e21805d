-- ===== src/SchemaCmp/Scalars.antt =====
-- The lattice types of pkg/schemacmp/lattice.go that hold one plain value, and the semilattice laws.
use tidb_tools.Prelude.{str_eq_iff, ◌≡◌, refl, ap, true, arith}
use tidb_tools.Prelude.Int.{eqb_ℤ_iff, eq_of_parts}
use tidb_tools.SchemaCmp.Data.{Value, uint, int, uint64, index_type, string, bool}
use tidb_tools.SchemaCmp.Leaf.{
  compare_bool, join_bool, value_eq, compare_singleton, join_singleton, compare_uint, join_uint,
  compare_int, join_int,
}
use tidb_tools.SchemaCmp.Order.{IsSemilattice}

pub bool-IsSemilattice : IsSemilattice compare_bool join_bool
unfolding compare_bool join_bool
bool-IsSemilattice = record {
  self = λ a. ground arith;
  swap = λ a b o h. ground arith;
  same = λ a b h. ground arith;
  trans = λ a b c h k. ground arith;
  upper = λ a b j h. ground arith;
  comm = λ a b j h. ground arith;
  least = λ a b j c h k l. ground arith;
}

pub uint-IsSemilattice : IsSemilattice compare_uint join_uint
unfolding compare_uint join_uint
uint-IsSemilattice = record {
  self = λ a. ground arith;
  swap = λ a b o h. ground arith;
  same = λ a b h. ground arith;
  trans = λ a b c h k. ground arith;
  upper = λ a b j h. ground arith;
  comm = λ a b j h. ground arith;
  least = λ a b j c h k l. ground arith;
}

pub int-IsSemilattice : IsSemilattice compare_int join_int
unfolding compare_int join_int
int-IsSemilattice = record {
  self = λ a. ground arith;
  swap = λ a b o h. ground arith;
  same = λ a b h. ground (arith, eq_of_parts a b);
  trans = λ a b c h k. ground arith;
  upper = λ a b j h. ground arith;
  comm = λ a b j h. ground (arith, eq_of_parts a b);
  least = λ a b j c h k l. ground arith;
}

value_eq_self : (a : Value) → value_eq a a ≡ true
unfolding value_eq
value_eq_self (uint a) = ground arith
value_eq_self (int a) = ground arith
value_eq_self (uint64 a) = ground arith
value_eq_self (index_type a) = ground arith
value_eq_self (string a) = (str_eq_iff a a).1 refl
value_eq_self (bool a) = ground arith

value_eq-same : (a b : Value) → value_eq a b ≡ true → a ≡ b
unfolding value_eq
value_eq-same (uint a) (uint b) h = ground arith
value_eq-same (int a) (int b) h = ap int ((eqb_ℤ_iff a b).0 h)
value_eq-same (uint64 a) (uint64 b) h = ground arith
value_eq-same (index_type a) (index_type b) h = ground arith
value_eq-same (string a) (string b) h = ap string ((str_eq_iff a b).0 h)
value_eq-same (bool a) (bool b) h = ground arith
value_eq-same _ _ h = cc

pub singleton-IsSemilattice : IsSemilattice compare_singleton join_singleton
unfolding compare_singleton join_singleton
singleton-IsSemilattice = record {
  self = λ a. ground (arith, value_eq_self a);
  swap = λ a b o h. ground (arith, value_eq-same a b, value_eq_self a);
  same = λ a b h. ground (arith, value_eq-same a b);
  trans = λ a b c h k. ground (arith, value_eq-same a b, value_eq-same b c, value_eq_self a);
  upper = λ a b j h. ground (arith, value_eq_self a);
  comm = λ a b j h. ground (arith, value_eq-same a b, value_eq_self a);
  least = λ a b j c h k l. ground arith;
}
