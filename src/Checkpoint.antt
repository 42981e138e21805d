-- ===== src/Checkpoint.antt =====
-- sync_diff_inspector/checkpoints/checkpoints.go: which checked chunks may be saved as the point to
-- restart from. Checked chunks arrive in any order and wait in a heap; the saved chunk moves on only
-- to the chunk that comes next. The mutex makes each method one step, and the file and JSON parts of
-- `SaveChunk` and `LoadChunk` are left out.
pub mod Adjacent
pub mod Snapshot
pub mod Progress
pub mod Minimum
pub mod Numbering
mod Tests
use tidb_tools.Prelude.{
  ℕ, zero, suc, String, Bool, true, false, ◌&&◌, List, [], ◌∷◌, Option, none, some, length,
  if◌then◌else◌,
}
use tidb_tools.Prelude.Int.{ℤ, pos, ◌-ℤ◌, ltb_ℤ, leb_ℤ, eqb_ℤ}
use tidb_tools.Chunk.Data.{
  ChunkId, Range, get_init_chunk_id, is_first_chunk_for_bucket, is_last_chunk_for_bucket,
  is_first_chunk_for_table, is_last_chunk_for_table,
}
use tidb_tools.Chunk.Build.{new_chunk_range}
use tidb_tools.Heap

pub record Node : Type 0 where
  pub state : String
  pub chunk_range : Range
  pub index_id : ℤ

abbrev pub get_id : Node → ChunkId
get_id n = n.chunk_range.index

abbrev pub get_table_index : Node → ℤ
get_table_index n = n.chunk_range.index.table_index

abbrev pub get_bucket_index_left : Node → ℤ
get_bucket_index_left n = n.chunk_range.index.bucket_index_left

abbrev pub get_bucket_index_right : Node → ℤ
get_bucket_index_right n = n.chunk_range.index.bucket_index_right

abbrev pub get_chunk_index : Node → ℤ
get_chunk_index n = n.chunk_range.index.chunk_index

unfoldable pub is_adjacent : Node → Node → Bool
is_adjacent n next =
    if eqb_ℤ (get_table_index n) (get_table_index next -ℤ pos 1)
    then is_last_chunk_for_table n.chunk_range && is_first_chunk_for_table next.chunk_range
    else if eqb_ℤ (get_table_index n) (get_table_index next)
    then (if eqb_ℤ (get_bucket_index_right n) (get_bucket_index_left next -ℤ pos 1)
        then is_last_chunk_for_bucket n.chunk_range && is_first_chunk_for_bucket next.chunk_range
        else if eqb_ℤ (get_bucket_index_left n) (get_bucket_index_left next)
        then eqb_ℤ (get_chunk_index n) (get_chunk_index next -ℤ pos 1)
        else false)
    else false

unfoldable pub is_less : Node → Node → Bool
is_less n next =
    if ltb_ℤ (get_table_index n) (get_table_index next)
    then true
    else if eqb_ℤ (get_table_index n) (get_table_index next)
    then (if leb_ℤ (get_bucket_index_left n) (get_bucket_index_left next -ℤ pos 1)
        then true
        else if eqb_ℤ (get_bucket_index_left n) (get_bucket_index_left next)
        then ltb_ℤ (get_chunk_index n) (get_chunk_index next)
        else false)
    else false

pub record NodeHeap : Type 0 where
  pub nodes : List Node
  pub current_saved_node : Node

-- `Checkpoint.Init`
unfoldable pub init : NodeHeap
init = record {
  nodes = [];
  current_saved_node = record {
    state = "";
    chunk_range = record (new_chunk_range none) {
      index = get_init_chunk_id;
      is_first = true;
      is_last = true;
    };
    index_id = pos 0;
  };
}

unfoldable pub init_current_saved_id : NodeHeap → Node → NodeHeap
init_current_saved_id hp n = record hp { current_saved_node = n }

unfoldable pub insert : NodeHeap → Node → NodeHeap
insert hp node = record hp { nodes = Heap.push is_less hp.nodes node }

-- `cp.hp.Len() != 0 && cp.hp.CurrentSavedNode.IsAdjacent(cp.hp.Nodes[0])`
unfoldable pub next_is_adjacent : NodeHeap → Bool
next_is_adjacent hp = elim hp.nodes [ [] ↦ false | n ∷ _ ↦ is_adjacent hp.current_saved_node n ]

abbrev pub pop_into : NodeHeap → Option (Node × List Node) → NodeHeap
pop_into hp none = hp
pop_into hp (some (n, rest)) = record { nodes = rest; current_saved_node = n }

-- `cp.hp.CurrentSavedNode = heap.Pop(cp.hp).(*Node)`
unfoldable pub save_next : NodeHeap → NodeHeap
save_next hp = pop_into hp (Heap.pop is_less hp.nodes)

-- The loop of `GetChunkSnapshot`, each round of which takes a node off the heap. The result is the
-- last node that was saved, or `cur`, which is nil at first.
unfoldable pub snapshot_loop : ℕ → NodeHeap → Option Node → NodeHeap × Option Node
unfolding next_is_adjacent save_next
snapshot_loop zero hp cur = (hp, cur)
snapshot_loop (suc fuel) hp cur =
    let hp' = save_next hp in
    let rest = snapshot_loop fuel hp' (some hp'.current_saved_node) in
    if next_is_adjacent hp then rest else (hp, cur)

unfoldable pub get_chunk_snapshot : NodeHeap → NodeHeap × Option Node
unfolding snapshot_loop
get_chunk_snapshot hp = snapshot_loop (length hp.nodes) hp none
