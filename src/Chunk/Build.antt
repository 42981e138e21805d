-- ===== src/Chunk/Build.antt =====
-- How sync_diff_inspector/chunk/chunk.go builds, updates, copies and numbers ranges.
use mathlib.Core.Option
use tidb_tools.Prelude.{
  ℕ, ◌-◌, String, Bool, true, false, List, [], ◌∷◌, ◌++◌, Option, none, some, length, get_elem?,
  set, if◌then◌else◌,
}
use tidb_tools.Prelude.Int.{ℤ, pos, ◌+ℤ◌}
use tidb_tools.Prelude.Dict.{Dict, lookup, insert}
use tidb_tools.Prelude.Text.{◌+s◌}
use tidb_tools.Chunk.Data.{ChunkType, untyped, Bound, ChunkId, ColumnInfo, Range}
use tidb_tools.Chunk.Where.{to_string}

abbrev pub zero_chunk_id : ChunkId
zero_chunk_id = record {
  table_index = pos 0;
  bucket_index_left = pos 0;
  bucket_index_right = pos 0;
  chunk_index = pos 0;
  chunk_cnt = pos 0;
}

unfoldable pub new_chunk_range : Option (List ColumnInfo) → Range
new_chunk_range table_info = record {
  index = zero_chunk_id;
  type_ = untyped;
  bounds = [];
  is_first = false;
  is_last = false;
  where_ = "";
  args = [];
  index_column_names = [];
  column_offset = [];
  table_info = table_info;
}

unfoldable pub add_bound : Range → Bound → Range
add_bound c bound =
    let bounds = c.bounds ++ bound ∷ [] in
    record c {
      bounds = bounds;
      column_offset = insert bound.column (length bounds - 1) c.column_offset;
    }

-- The two guarded writes of `Update` on the bound at an offset.
unfoldable pub update_bound : String → String → Bool → Bool → Bound → Bound
update_bound lower upper update_lower update_upper b =
    let b' : Bound = if update_lower then record b { lower = lower; has_lower = true } else b in
    if update_upper then record b' { upper = upper; has_upper = true } else b'

-- `none` is Go's panic on an offset outside of the bounds.
unfoldable pub update_at : Range → ℕ → (Bound → Bound) → Option Range
update_at c offset f =
    Option.map (λ b. record c { bounds = set c.bounds offset (f b) }) (get_elem? c.bounds offset)

unfoldable pub update : Range → String → String → String → Bool → Bool → Option Range
unfolding update_at add_bound update_bound
update c column lower upper update_lower update_upper = elim (lookup column c.column_offset) [
  | some offset ↦ update_at c offset (update_bound lower upper update_lower update_upper)
  | none ↦ some (
      add_bound c (record {
        column = column;
        lower = lower;
        upper = upper;
        has_lower = update_lower;
        has_upper = update_upper;
      }))
]

-- the loop of `Copy` and `Clone`, which copies each bound field by field
unfoldable pub add_bounds : Range → List Bound → Range
unfolding add_bound
add_bounds c [] = c
add_bounds c (b ∷ bs) = add_bounds (add_bound c b) bs

unfoldable pub copy : Range → Range
unfolding new_chunk_range add_bounds
copy c =
    add_bounds (record (new_chunk_range c.table_info) { index_column_names = c.index_column_names })
      c.bounds

-- `for i, v := range c.columnOffset { newChunk.columnOffset[i] = v }`
unfoldable pub insert_all : Dict ℕ → Dict ℕ → Dict ℕ
insert_all [] m = m
insert_all ((k, v) ∷ rest) m = insert_all rest (insert k v m)

unfoldable pub clone : Range → Range
unfolding copy insert_all
clone c =
    let new_chunk = copy c in
    record new_chunk {
      type_ = c.type_;
      where_ = c.where_;
      args = c.args;
      column_offset = insert_all c.column_offset new_chunk.column_offset;
      index = c.index;
      is_first = c.is_first;
      is_last = c.is_last;
    }

unfoldable pub copy_and_update : Range → String → String → String → Bool → Bool → Option Range
unfolding copy update
copy_and_update c column lower upper update_lower update_upper =
    update (copy c) column lower upper update_lower update_upper

-- What `InitChunks` writes into one chunk; `InitChunk` does so with index 0 of 1.
unfoldable pub init_one : Range → ChunkType → ℤ → ℤ → ℤ → String → String → ℤ → Range
unfolding to_string
init_one chunk t first_bucket_id last_bucket_id index collation limits chunk_cnt =
    let (conditions, args) = to_string chunk collation in
    record chunk {
      where_ = "((" +s conditions +s ") AND (" +s limits +s "))";
      args = args;
      index = record {
        table_index = pos 0;
        bucket_index_left = first_bucket_id;
        bucket_index_right = last_bucket_id;
        chunk_index = index;
        chunk_cnt = chunk_cnt;
      };
      type_ = t;
    }

unfoldable pub init_chunks : List Range → ChunkType → ℤ → ℤ → ℤ → String → String → ℤ → List Range
unfolding init_one
init_chunks [] t first_bucket_id last_bucket_id index collation limits chunk_cnt = []
init_chunks (chunk ∷ chunks) t first_bucket_id last_bucket_id index collation limits chunk_cnt =
    init_one chunk t first_bucket_id last_bucket_id index collation limits chunk_cnt
    ∷ init_chunks chunks t first_bucket_id last_bucket_id (index +ℤ pos 1) collation limits
        chunk_cnt

unfoldable pub init_chunk : Range → ChunkType → ℤ → ℤ → String → String → Range
unfolding init_one
init_chunk chunk t first_bucket_id last_bucket_id collation limits =
    init_one chunk t first_bucket_id last_bucket_id (pos 0) collation limits (pos 1)
