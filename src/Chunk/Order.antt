-- ===== src/Chunk/Order.antt =====
-- `ChunkID.Compare` of sync_diff_inspector/chunk/chunk.go as an order.
use tidb_tools.Prelude.{◌≡◌, ◌≢◌, ◌⊎◌, inl, inr, ◌↔◌, arith}
use tidb_tools.Prelude.Int.{pos, negsuc, ◌<ℤ◌, ◌-ℤ◌, eq_of_parts}
use tidb_tools.Chunk.Data.{ChunkId, compare}

-- `c` stands before `o` in the order of tables, then of buckets, then of chunks.
abbrev pub IsBefore : ChunkId → ChunkId → Type 0
IsBefore c o =
    (c.table_index <ℤ o.table_index)
    ⊎ (c.table_index ≡ o.table_index) × (c.bucket_index_left <ℤ o.bucket_index_left)
    ⊎ (c.table_index ≡ o.table_index)
      × (c.bucket_index_left ≡ o.bucket_index_left)
      × (c.chunk_index <ℤ o.chunk_index)

-- The two have the same place in the order.
pub record SamePlace (c o : ChunkId) : Type 0 where
  pub table : c.table_index ≡ o.table_index
  pub bucket : c.bucket_index_left ≡ o.bucket_index_left
  pub chunk : c.chunk_index ≡ o.chunk_index

pub before→compare : (c o : ChunkId) → IsBefore c o → compare c o ≡ negsuc 0
unfolding compare
before→compare c o h = ground arith

pub compare→before : (c o : ChunkId) → compare c o ≡ negsuc 0 → IsBefore c o
unfolding compare
compare→before c o h = ground (
  arith,
  eq_of_parts c.table_index o.table_index,
  eq_of_parts c.bucket_index_left o.bucket_index_left,
)

compare_antisym : (c o : ChunkId) → compare o c ≡ pos 0 -ℤ compare c o
unfolding compare ◌-ℤ◌
compare_antisym c o = ground arith

compare→same : (c o : ChunkId) → compare c o ≡ pos 0 → SamePlace c o
unfolding compare
compare→same c o h = ground (
  arith,
  eq_of_parts c.table_index o.table_index,
  eq_of_parts c.bucket_index_left o.bucket_index_left,
  eq_of_parts c.chunk_index o.chunk_index,
)

same→compare : (c o : ChunkId) → SamePlace c o → compare c o ≡ pos 0
unfolding compare
same→compare c o h = ground arith

pub after→compare : (c o : ChunkId) → IsBefore o c → compare c o ≡ pos 1
unfolding compare
after→compare c o h = ground arith

compare→after : (c o : ChunkId) → compare c o ≡ pos 1 → IsBefore o c
unfolding ◌-ℤ◌
compare→after c o h = compare→before o c (rw (compare_antisym c o, h))

-- For every two chunk identities, `compare` is -1 exactly when the first stands before the second
-- in the order of table index, left bucket index and chunk index, 0 exactly when the three indices
-- are the same, and 1 exactly when the second stands before the first.
pub compare_iff :
    (c o : ChunkId)
    → ((compare c o ≡ negsuc 0) ↔ IsBefore c o)
      × ((compare c o ≡ pos 0) ↔ SamePlace c o)
      × ((compare c o ≡ pos 1) ↔ IsBefore o c)
compare_iff c o = (
  (compare→before c o, before→compare c o),
  (compare→same c o, same→compare c o),
  (compare→after c o, after→compare c o),
)

pub IsBefore-cotrans : (a b c : ChunkId) → IsBefore c a → IsBefore c b ⊎ IsBefore b a
IsBefore-cotrans a b c h = ground arith

-- The order of `compare` is transitive: for three chunk identities, where the first does not
-- compare above the second, nor the second above the third, the first does not compare above the
-- third.
pub compare-not_above_trans :
    (a b c : ChunkId) → compare a b ≢ pos 1 → compare b c ≢ pos 1 → compare a c ≢ pos 1
compare-not_above_trans a b c p q r = elim (IsBefore-cotrans a b c (compare→after a c r)) [
  | inl h ↦ q (after→compare b c h)
  | inr h ↦ p (after→compare a b h)
]
