-- ===== src/Checkpoint/Numbering.antt =====
-- The identities that `InitChunks` of sync_diff_inspector/chunk/chunk.go gives, as nodes.
use tidb_tools.Prelude.{String, ◌≡◌, refl, true, false, List, [], ◌∷◌, map, arith}
use tidb_tools.Prelude.Int.{ℤ, pos, ◌+ℤ◌, ◌-ℤ◌, ◌≤ℤ◌, eqb_ℤ}
use tidb_tools.Chunk.Data.{ChunkType, Range, is_last_chunk_for_bucket, is_first_chunk_for_bucket}
use tidb_tools.Chunk.Build.{init_one, init_chunks}
use tidb_tools.Checkpoint.{Node, is_adjacent}

-- Each node of the list is adjacent to the one before it.
abbrev pub Adjacents : List Node → Type 0
Adjacents [] = Unit
Adjacents (n ∷ []) = Unit
Adjacents (n ∷ m ∷ ns) = (is_adjacent n m ≡ true) × Adjacents (m ∷ ns)

-- The node of a chunk that was checked with the given state.
abbrev pub node_of : String → ℤ → Range → Node
node_of state index_id r = record { state = state; chunk_range = r; index_id = index_id }

not_pred : (a b : ℤ) → a ≤ℤ b → eqb_ℤ b (a -ℤ pos 1) ≡ false
unfolding ◌-ℤ◌
not_pred a b h = ground arith

pred-suc : (i : ℤ) → eqb_ℤ i (i +ℤ pos 1 -ℤ pos 1) ≡ true
unfolding ◌-ℤ◌ ◌+ℤ◌
pred-suc i = ground arith

eqb_self : (i : ℤ) → eqb_ℤ i i ≡ true
eqb_self i = ground arith

module _ (t : ChunkType) (first last : ℤ) (collation limits : String) (cnt : ℤ) (state : String)
    (id : ℤ) where
  abbrev pub numbered : ℤ → Range → Node
  numbered i r = node_of state id (init_one r t first last i collation limits cnt)

  numbered-adjacent :
      (a b : Range) (i : ℤ)
      → first ≤ℤ last
      → is_adjacent (numbered i a) (numbered (i +ℤ pos 1) b) ≡ true
  unfolding is_adjacent init_one
  numbered-adjacent a b i h =
      rw (not_pred (pos 0) (pos 0) (omega arith), not_pred first last h, eqb_self first, pred-suc i)
        refl

  -- Let the buckets of a chunk run from left to right. Then `InitChunks` numbers the chunks of a
  -- bucket so that the node of each is adjacent to the node of the one before it.
  pub init_chunks-Adjacents :
      (chunks : List Range) (i : ℤ)
      → first ≤ℤ last
      → Adjacents (map (node_of state id) (init_chunks chunks t first last i collation limits cnt))
  unfolding init_chunks
  init_chunks-Adjacents [] i h = tt
  init_chunks-Adjacents (a ∷ []) i h = tt
  init_chunks-Adjacents (a ∷ b ∷ chunks) i h =
      (numbered-adjacent a b i h, init_chunks-Adjacents (b ∷ chunks) (i +ℤ pos 1) h)

-- The first chunk of a bucket, numbered 0, follows the last chunk of the bucket before it, which is
-- numbered one below the count of that bucket, for every two buckets of which the second begins
-- right behind the first.
pub next_bucket-adjacent :
    (t : ChunkType) (first last last' cnt cnt' : ℤ) (collation limits state : String) (id : ℤ)
    (a b : Range)
    → is_adjacent
        (node_of state id (init_one a t first last (cnt -ℤ pos 1) collation limits cnt))
        (node_of state id (init_one b t (last +ℤ pos 1) last' (pos 0) collation limits cnt'))
      ≡ true
unfolding is_adjacent init_one is_last_chunk_for_bucket is_first_chunk_for_bucket
next_bucket-adjacent t first last last' cnt cnt' collation limits state id a b =
    rw (not_pred (pos 0) (pos 0) (omega arith), pred-suc last, eqb_self (cnt -ℤ pos 1)) refl
