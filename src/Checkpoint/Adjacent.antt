-- ===== src/Checkpoint/Adjacent.antt =====
-- The orders on nodes of sync_diff_inspector/checkpoints/checkpoints.go: `IsLess` and `IsAdjacent`.
use tidb_tools.Prelude.{◌≡◌, ◌↔◌, ◌⊎◌, inl, inr, Bool, true, false, arith, if◌then◌else◌}
use tidb_tools.Prelude.Int.{pos, negsuc, ◌≤ℤ◌, ◌-ℤ◌, eqb_ℤ, eqb_ℤ_iff, le_pred-lt}
use tidb_tools.Chunk.Data.{compare}
use tidb_tools.Chunk.Order.{IsBefore, before→compare}
use tidb_tools.Checkpoint.{
  Node, get_table_index, get_chunk_index, get_id, get_bucket_index_left, get_bucket_index_right,
  is_adjacent, is_less,
}

-- A chunk's buckets run from the left one to the right one.
pub record IsRanged (n : Node) : Type 0 where
  pub ordered : get_bucket_index_left n ≤ℤ get_bucket_index_right n

-- For every two nodes, the heap's `IsLess` holds exactly when `ChunkID.Compare` answers -1 on the
-- identities of their chunks.
pub is_less_iff : (n m : Node) → (is_less n m ≡ true) ↔ (compare (get_id n) (get_id m) ≡ negsuc 0)
unfolding is_less compare ◌-ℤ◌
is_less_iff n m = ground arith

-- The three ways in which `is_adjacent` answers true.
adjacent_tests :
    (t s b l c x y : Bool)
    → (if t then x else if s then (if b then y else if l then c else false) else false) ≡ true
    → (t ≡ true) ⊎ (s ≡ true) × (b ≡ true) ⊎ (s ≡ true) × (l ≡ true) × (c ≡ true)
adjacent_tests t s b l c x y h = ground arith

-- `m` is in the next table, or in the next bucket of the same table, or is the next chunk of the
-- same bucket.
abbrev IsNext : Node → Node → Type 0
IsNext n m =
    (get_table_index n ≡ get_table_index m -ℤ pos 1)
    ⊎ (get_table_index n ≡ get_table_index m)
      × (get_bucket_index_right n ≡ get_bucket_index_left m -ℤ pos 1)
    ⊎ (get_table_index n ≡ get_table_index m)
      × (get_bucket_index_left n ≡ get_bucket_index_left m)
      × (get_chunk_index n ≡ get_chunk_index m -ℤ pos 1)

adjacent-IsNext : (n m : Node) → is_adjacent n m ≡ true → IsNext n m
unfolding is_adjacent
adjacent-IsNext n m h =
    elim (adjacent_tests (eqb_ℤ (get_table_index n) (get_table_index m -ℤ pos 1))
      (eqb_ℤ (get_table_index n) (get_table_index m))
      (eqb_ℤ (get_bucket_index_right n) (get_bucket_index_left m -ℤ pos 1))
      (eqb_ℤ (get_bucket_index_left n) (get_bucket_index_left m))
      (eqb_ℤ (get_chunk_index n) (get_chunk_index m -ℤ pos 1)) _ _ h) [
        | inl t ↦ inl ((eqb_ℤ_iff _ _).0 t)
        | inr (inl (s, b)) ↦ inr (inl ((eqb_ℤ_iff _ _).0 s, (eqb_ℤ_iff _ _).0 b))
        | inr (inr (s, l, c)) ↦
            inr (inr ((eqb_ℤ_iff _ _).0 s, (eqb_ℤ_iff _ _).0 l, (eqb_ℤ_iff _ _).0 c))
      ]

IsNext-IsBefore : (n m : Node) → IsRanged n → IsNext n m → IsBefore (get_id n) (get_id m)
IsNext-IsBefore n m v (inl t) = inl (le_pred-lt _ _ (get_table_index n) (omega arith) t)
IsNext-IsBefore n m v (inr (inl (s, b))) =
    inr (inl (s, le_pred-lt _ _ (get_bucket_index_right n) v.ordered b))
IsNext-IsBefore n m v (inr (inr (s, l, c))) =
    inr (inr (s, l, le_pred-lt _ _ (get_chunk_index n) (omega arith) c))

-- Where the buckets of a node run from left to right, every node that is adjacent to it is above it
-- in the heap's order.
pub adjacent-is_less : (n m : Node) → IsRanged n → is_adjacent n m ≡ true → is_less n m ≡ true
adjacent-is_less n m v h =
    (is_less_iff n m).1
      (before→compare (get_id n) (get_id m) (IsNext-IsBefore n m v (adjacent-IsNext n m h)))
