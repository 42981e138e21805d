-- ===== src/SchemaCmp/FieldTp.antt =====
-- `fieldTp` of pkg/schemacmp/lattice.go, with the orders of util.go, and the laws of a semilattice.
use Prim.Native.Nat.{Ordering}
use tidb_tools.Prelude.{ℕ, ◌+◌, ◌*◌, ◌≡◌, ◌⊎◌, true, ◌&&◌, ltb, leb, ◌==◌, if◌then◌else◌, arith}
use tidb_tools.SchemaCmp.Data.{Mysql, ok, err, incompatible_type}
use tidb_tools.SchemaCmp.Leaf.{
  lt, eq, gt, compare_field_tp, join_field_tp, compare_mysql_integer_type, compare_mysql_blob_type,
}
use tidb_tools.SchemaCmp.Order.{IsSemilattice}

-- What TiDB's parser documents of its two tests: the types of MySQL that they accept.
pub record IsMysql (m : Mysql) : Type 0 where
  pub integers :
      (a : ℕ) → m.is_integer_type a ≡ true → (a ≡ 1) ⊎ (a ≡ 2) ⊎ (a ≡ 3) ⊎ (a ≡ 8) ⊎ (a ≡ 9)
  pub blobs : (a : ℕ) → m.is_type_blob a ≡ true → (a ≡ 249) ⊎ (a ≡ 250) ⊎ (a ≡ 251) ⊎ (a ≡ 252)

abbrev NotAbove : Ordering → Type 0
NotAbove Ordering.gt = ⊥
NotAbove _ = Unit

-- The order of the integer types: 1, 2, then 9, then the others.
integer_rank : ℕ → ℕ
integer_rank a = if a == 9 then 5 else if leb a 2 then 2 * a else 2 * a + 2

integer_type-rank :
    (a b : ℕ)
    → compare_mysql_integer_type a b
      ≡ (if a == b then eq else if ltb (integer_rank a) (integer_rank b) then lt else gt)
unfolding compare_mysql_integer_type integer_rank
integer_type-rank a b = ground arith

blob_rank : ℕ → ℕ
blob_rank a = if a == 252 then 499 else 2 * a

abbrev IsBlob : ℕ → Type 0
IsBlob a = (a ≡ 249) ⊎ (a ≡ 250) ⊎ (a ≡ 251) ⊎ (a ≡ 252)

blob_type-rank :
    (a b : ℕ)
    → IsBlob a
    → IsBlob b
    → compare_mysql_blob_type a b
      ≡ (if a == b then eq else if ltb (blob_rank a) (blob_rank b) then lt else gt)
unfolding compare_mysql_blob_type blob_rank
blob_type-rank a b h k = ground arith

integer_rank-injective : (a b : ℕ) → integer_rank a ≡ integer_rank b → a ≡ b
unfolding integer_rank
integer_rank-injective a b h = ground arith

blob_rank-injective : (a b : ℕ) → IsBlob a → IsBlob b → blob_rank a ≡ blob_rank b → a ≡ b
unfolding blob_rank
blob_rank-injective a b h k e = ground arith

-- A comparison by rank on the types of one kind, and its join.
abbrev by_rank : (ℕ → ℕ) → ℕ → ℕ → Ordering
by_rank rank a b = if a == b then eq else if ltb (rank a) (rank b) then lt else gt

module _ (m : Mysql) (v : IsMysql m) where
  -- The comparison and the join by ranks.
  compare_by_rank :
      (a b : ℕ)
      → compare_field_tp m a b ≡ (
          if a == b
          then ok eq
          else if m.is_integer_type a && m.is_integer_type b
          then ok (by_rank integer_rank a b)
          else if m.is_type_blob a && m.is_type_blob b
          then ok (by_rank blob_rank a b)
          else err (incompatible_type a b))
  unfolding compare_field_tp
  compare_by_rank a b =
      ground (arith, integer_type-rank a b, blob_type-rank a b, v.blobs a, v.blobs b)

  join_by_rank :
      (a b : ℕ)
      → join_field_tp m a b ≡ (
          if a == b
          then ok a
          else if m.is_integer_type a && m.is_integer_type b
          then (if ltb (integer_rank a) (integer_rank b) then ok b else ok a)
          else if m.is_type_blob a && m.is_type_blob b
          then (if ltb (blob_rank a) (blob_rank b) then ok b else ok a)
          else err (incompatible_type a b))
  unfolding join_field_tp
  join_by_rank a b = ground (arith, integer_type-rank a b, blob_type-rank a b, v.blobs a, v.blobs b)

  disjoint : (a : ℕ) → m.is_integer_type a ≡ true → m.is_type_blob a ≡ true → ⊥
  disjoint a h k = ground (arith, v.integers a, v.blobs a)

  pub field_tp-IsSemilattice : IsSemilattice (compare_field_tp m) (join_field_tp m)
  field_tp-IsSemilattice = record {
    self = λ a. ground (arith, compare_by_rank a a);
    swap = λ a b o h. ground (
      arith,
      compare_by_rank a b,
      compare_by_rank b a,
      integer_rank-injective a b,
      blob_rank-injective a b,
      v.blobs a,
      v.blobs b,
    );
    same = λ a b h. ground (arith, compare_by_rank a b);
    trans = λ a b c h k. ground (
      arith,
      compare_by_rank a b,
      compare_by_rank b c,
      compare_by_rank a c,
      disjoint a,
      disjoint b,
      disjoint c,
    );
    upper = λ a b j h. ground (arith, join_by_rank a b, compare_by_rank a j);
    comm = λ a b j h. ground (
      arith,
      join_by_rank a b,
      join_by_rank b a,
      integer_rank-injective a b,
      blob_rank-injective a b,
      v.blobs a,
      v.blobs b,
    );
    least = λ a b j c h k l. ground (arith, join_by_rank a b);
  }
