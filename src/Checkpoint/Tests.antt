-- ===== src/Checkpoint/Tests.antt =====
-- Runs of the checkpoint, and the theorems at concrete inputs.
use tidb_tools.Prelude.{
  ◌≡◌, refl, true, List, [], ◌∷◌, none, some, arith, All, ap, sym, ◌∙◌, get_elem?, inl, false, ℕ,
  zero, suc,
}
use tidb_tools.Prelude.Int.{ℤ, pos, ◌-ℤ◌, ◌+ℤ◌}
use tidb_tools.Chunk.Data.{bucket, Range, is_last_chunk_for_table, is_first_chunk_for_table}
use tidb_tools.Chunk.Build.{new_chunk_range, init_one, init_chunks}
use tidb_tools.Heap
use tidb_tools.Checkpoint.{Node, init, is_adjacent, is_less, get_chunk_index, get_chunk_snapshot}
use tidb_tools.Checkpoint.Adjacent.{IsRanged}
use tidb_tools.Checkpoint.Snapshot.{
  Call, inserts, snapshots, run, Snapshots, get_chunk_snapshot-Snapshots,
}
use tidb_tools.Checkpoint.Snapshot.{Chain, run-Chain}
use tidb_tools.Checkpoint.Progress.{AllRanged, Inserts, NotBack, run-NotBack}
use tidb_tools.Checkpoint.Minimum.{IsNextWaiting, run-first, get_chunk_snapshot_complete}
use mathlib.Core.Option.{some_inj}
use tidb_tools.Checkpoint.Numbering.{
  Adjacents, node_of, init_chunks-Adjacents, next_bucket-adjacent,
}
use mathlib.Core.List.{map}

abbrev plain : Range
unfolding new_chunk_range
plain = new_chunk_range none

-- Chunk `i` of 4 in the one bucket of a table.
abbrev chunk_node : ℤ → Node
chunk_node i = record {
  state = "success";
  chunk_range = record plain {
    index = record {
      table_index = pos 0;
      bucket_index_left = pos 0;
      bucket_index_right = pos 0;
      chunk_index = i;
      chunk_cnt = pos 4;
    };
  };
  index_id = pos 1;
}

abbrev calls : List Call
calls =
    inserts (chunk_node (pos 2))
    ∷ inserts (chunk_node (pos 1))
    ∷ snapshots
    ∷ inserts (chunk_node (pos 0))
    ∷ snapshots
    ∷ []

-- Nothing is saved before the first chunk is there; then all three are.
run_saves : get_chunk_index (run init calls).current_saved_node ≡ pos 2
unfolding run init is_adjacent is_less Heap.push Heap.pop new_chunk_range ◌-ℤ◌
    is_last_chunk_for_table is_first_chunk_for_table
run_saves = refl

IsRanged-chunk_node : (i : ℤ) → IsRanged (chunk_node i)
IsRanged-chunk_node i = record { ordered = omega arith }

AllRanged-init : AllRanged init
unfolding init
AllRanged-init = record { saved = record { ordered = omega arith }; waiting = tt }

get_chunk_snapshot-Snapshots_example : Snapshots init none (get_chunk_snapshot init)
get_chunk_snapshot-Snapshots_example = get_chunk_snapshot-Snapshots init

run-Chain_example : Chain init.current_saved_node (run init calls).current_saved_node
run-Chain_example = run-Chain init calls

Inserts-calls : All (Inserts IsRanged) calls
Inserts-calls = (
  IsRanged-chunk_node (pos 2),
  (IsRanged-chunk_node (pos 1), (tt, (IsRanged-chunk_node (pos 0), (tt, tt)))),
)

run-NotBack_example : NotBack init.current_saved_node (run init calls).current_saved_node
run-NotBack_example = run-NotBack init calls AllRanged-init Inserts-calls

init_chunks-Adjacents_example : Adjacents (
    map
      (node_of "success" (pos 1))
      (init_chunks (plain ∷ plain ∷ []) bucket (pos 3) (pos 5) (pos 0) "" "TRUE" (pos 2)))
init_chunks-Adjacents_example =
    init_chunks-Adjacents bucket (pos 3) (pos 5) "" "TRUE" (pos 2) "success" (pos 1)
      (plain ∷ plain ∷ []) (pos 0) (omega arith)

next_bucket-adjacent_example :
    is_adjacent
      (node_of "success"
        (pos 1)
        (init_one plain bucket (pos 3) (pos 5) (pos 2 -ℤ pos 1) "" "TRUE" (pos 2)))
      (node_of "success"
        (pos 1)
        (init_one plain bucket (pos 5 +ℤ pos 1) (pos 6) (pos 0) "" "TRUE" (pos 1)))
    ≡ true
next_bucket-adjacent_example =
    next_bucket-adjacent bucket (pos 3) (pos 5) (pos 6) (pos 2) (pos 1) "" "TRUE" "success" (pos 1)
      plain plain

run_keeps_two :
    (run init (inserts (chunk_node (pos 2)) ∷ inserts (chunk_node (pos 1)) ∷ [])).nodes
    ≡ chunk_node (pos 1) ∷ chunk_node (pos 2) ∷ []
unfolding run init is_less Heap.push ◌-ℤ◌
run_keeps_two = refl

run-first_example : is_less (chunk_node (pos 2)) (chunk_node (pos 1)) ≡ false
run-first_example =
    run-first (inserts (chunk_node (pos 2)) ∷ inserts (chunk_node (pos 1)) ∷ [])
      (chunk_node (pos 1)) (chunk_node (pos 2) ∷ []) run_keeps_two 1 (chunk_node (pos 2)) refl

abbrev gap : List Call
gap = inserts (chunk_node (pos 0)) ∷ inserts (chunk_node (pos 2)) ∷ []

gap_waits : (get_chunk_snapshot (run init gap)).0.nodes ≡ chunk_node (pos 2) ∷ []
unfolding run init is_adjacent is_less get_chunk_snapshot Heap.push Heap.pop new_chunk_range ◌-ℤ◌
    is_last_chunk_for_table is_first_chunk_for_table
gap_waits = refl

gap_next : IsNextWaiting (get_chunk_snapshot (run init gap)).0 (chunk_node (pos 2))
gap_next = record {
  position = 0;
  waits = ap (λ l. get_elem? l 0) gap_waits;
  lowest = λ i m e. inl (only i m (ap (λ l. get_elem? l i) (sym gap_waits) ∙ e));
}
  where
    only :
        (i : ℕ) (m : Node) → get_elem? (chunk_node (pos 2) ∷ []) i ≡ some m → m ≡ chunk_node (pos 2)
    only zero m e = some_inj.0 (sym e)
    only (suc i) m e = cc

get_chunk_snapshot_complete_example :
    is_adjacent (get_chunk_snapshot (run init gap)).0.current_saved_node (chunk_node (pos 2))
    ≡ false
get_chunk_snapshot_complete_example = get_chunk_snapshot_complete gap (chunk_node (pos 2)) gap_next
