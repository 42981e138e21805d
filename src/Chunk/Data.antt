-- ===== src/Chunk/Data.antt =====
-- The types of sync_diff_inspector/chunk/chunk.go, and the methods that only read them.
-- Indices are Go's `int`, as integers: the code adds or subtracts 1 only. A chunk's `*ChunkID` is
-- present in every range that is checkpointed, so `index` holds the identity itself.
use tidb_tools.Prelude.{ℕ, String, Bool, true, false, List, [], ◌∷◌, Option, if◌then◌else◌}
use tidb_tools.Prelude.Int.{ℤ, pos, negsuc, ◌-ℤ◌, ltb_ℤ, eqb_ℤ}
use tidb_tools.Prelude.Dict.{Dict}

-- Bucket, Random, Limit, Others and Empty, from 1 on, and the 0 of a range that is not yet typed
pub data ChunkType : Type 0 where
  untyped bucket random limit others empty : ChunkType

pub record Bound : Type 0 where
  pub column : String
  pub lower : String
  pub upper : String
  pub has_lower : Bool
  pub has_upper : Bool

pub record ChunkId : Type 0 where
  pub table_index : ℤ
  pub bucket_index_left : ℤ
  pub bucket_index_right : ℤ
  pub chunk_index : ℤ
  pub chunk_cnt : ℤ

abbrev pub get_init_chunk_id : ChunkId
get_init_chunk_id = record {
  table_index = negsuc 0;
  bucket_index_left = negsuc 0;
  bucket_index_right = negsuc 0;
  chunk_index = negsuc 0;
  chunk_cnt = pos 0;
}

-- `Compare`: the result is -1, 0 or 1
unfoldable pub compare : ChunkId → ChunkId → ℤ
compare c o =
    if ltb_ℤ c.table_index o.table_index
    then negsuc 0
    else if ltb_ℤ o.table_index c.table_index
    then pos 1
    else if ltb_ℤ c.bucket_index_left o.bucket_index_left
    then negsuc 0
    else if ltb_ℤ o.bucket_index_left c.bucket_index_left
    then pos 1
    else if ltb_ℤ c.chunk_index o.chunk_index
    then negsuc 0
    else if eqb_ℤ c.chunk_index o.chunk_index
    then pos 0
    else pos 1

-- What the code reads of the parser's `model.ColumnInfo`: `Name.L` and the character set.
pub record ColumnInfo : Type 0 where
  pub name_l : String
  pub charset : String

pub record Range : Type 0 where
  pub index : ChunkId
  pub type_ : ChunkType
  pub bounds : List Bound
  pub is_first : Bool
  pub is_last : Bool
  pub where_ : String
  pub args : List String
  pub index_column_names : List String
  pub column_offset : Dict ℕ
  pub table_info : Option (List ColumnInfo)

unfoldable pub is_first_chunk_for_bucket : Range → Bool
is_first_chunk_for_bucket r = eqb_ℤ r.index.chunk_index (pos 0)

unfoldable pub is_last_chunk_for_bucket : Range → Bool
is_last_chunk_for_bucket r = eqb_ℤ r.index.chunk_index (r.index.chunk_cnt -ℤ pos 1)

-- the loops of `IsLastChunkForTable` and `IsFirstChunkForTable`
unfoldable pub no_upper : List Bound → Bool
no_upper [] = true
no_upper (b ∷ bs) = if b.has_upper then false else no_upper bs

unfoldable pub no_lower : List Bound → Bool
no_lower [] = true
no_lower (b ∷ bs) = if b.has_lower then false else no_lower bs

unfoldable pub is_last_chunk_for_table : Range → Bool
unfolding no_upper
is_last_chunk_for_table c = if c.is_last then true else no_upper c.bounds

unfoldable pub is_first_chunk_for_table : Range → Bool
unfolding no_lower
is_first_chunk_for_table c = if c.is_first then true else no_lower c.bounds
