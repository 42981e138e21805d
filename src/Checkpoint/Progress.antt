-- ===== src/Checkpoint/Progress.antt =====
-- Where `GetChunkSnapshot` of sync_diff_inspector/checkpoints/checkpoints.go moves the saved node.
use tidb_tools.Prelude.{
  ℕ, zero, suc, ◌≡◌, ◌≢◌, refl, List, [], ◌∷◌, Option, none, some, length, All, arith, Bool-cases,
  inl, inr,
}
use tidb_tools.Prelude.Int.{pos}
use tidb_tools.Chunk.Data.{compare}
use tidb_tools.Chunk.Order.{compare-not_above_trans}
use tidb_tools.Heap
use tidb_tools.Heap.Kept.{All-pop, All-push}
use tidb_tools.Checkpoint.{
  Node, NodeHeap, get_id, is_less, next_is_adjacent, pop_into, save_next, snapshot_loop,
  get_chunk_snapshot, insert,
}
use tidb_tools.Checkpoint.Snapshot.{save_next-adjacent, Call, inserts, snapshots, step, run}
use tidb_tools.Checkpoint.Adjacent.{IsRanged, adjacent-is_less, is_less_iff}

-- The buckets of the saved node and of every node that waits run from left to right.
pub record AllRanged (hp : NodeHeap) : Type 0 where
  pub saved : IsRanged hp.current_saved_node
  pub waiting : All IsRanged hp.nodes

save_next-AllRanged : (hp : NodeHeap) → AllRanged hp → AllRanged (save_next hp)
unfolding save_next
save_next-AllRanged hp v = go (Heap.pop is_less hp.nodes) refl
  where
    go : (o : Option (Node × List Node)) → Heap.pop is_less hp.nodes ≡ o → AllRanged (pop_into hp o)
    go none e = v
    go (some (n, rest)) e =
        let (hn, hs) = All-pop IsRanged is_less hp.nodes v.waiting e in
        record { saved = hn; waiting = hs }

pub insert-AllRanged :
    (hp : NodeHeap) (n : Node) → AllRanged hp → IsRanged n → AllRanged (insert hp n)
unfolding insert
insert-AllRanged hp n v h = record {
  saved = v.saved;
  waiting = All-push IsRanged is_less hp.nodes n v.waiting h;
}

abbrev pub NotBack : Node → Node → Type 0
NotBack n m = compare (get_id n) (get_id m) ≢ pos 1

compare_self : (n : Node) → NotBack n n
unfolding compare
compare_self n h = ground arith

snapshot_loop-forward :
    (fuel : ℕ) (hp : NodeHeap) (cur : Option Node)
    → AllRanged hp
    → AllRanged (snapshot_loop fuel hp cur).0
      × NotBack hp.current_saved_node (snapshot_loop fuel hp cur).0.current_saved_node
unfolding snapshot_loop
snapshot_loop-forward zero hp cur v = (v, compare_self hp.current_saved_node)
snapshot_loop-forward (suc fuel) hp cur v = elim (Bool-cases (next_is_adjacent hp)) [
  | inr stop ↦ rw (stop, snapshot_loop) (v, compare_self hp.current_saved_node)
  | inl go ↦
      let hp' = save_next hp in
      let saved = hp.current_saved_node in
      let above =
        adjacent-is_less saved hp'.current_saved_node v.saved (save_next-adjacent hp go).0 in
      let step : NotBack saved hp'.current_saved_node =
        λ back. cc ((is_less_iff saved hp'.current_saved_node).0 above) in
      let (w, forward) =
        snapshot_loop-forward fuel hp' (some hp'.current_saved_node) (save_next-AllRanged hp v) in
      rw (go, snapshot_loop)
        (w, compare-not_above_trans _ (get_id hp'.current_saved_node) _ step forward)
]

abbrev pub Inserts : (Node → Type 0) → Call → Type 0
Inserts P (inserts n) = P n
Inserts P snapshots = Unit

step-forward :
    (hp : NodeHeap) (c : Call)
    → AllRanged hp
    → Inserts IsRanged c
    → AllRanged (step hp c) × NotBack hp.current_saved_node (step hp c).current_saved_node
unfolding step insert get_chunk_snapshot
step-forward hp (inserts n) v h = (insert-AllRanged hp n v h, compare_self hp.current_saved_node)
step-forward hp snapshots v h = snapshot_loop-forward (length hp.nodes) hp none v

-- Let the buckets of the saved node, of the waiting nodes and of every inserted node run from left
-- to right. Then after any sequence of insertions and snapshots the saved node is not below the one
-- at the start, in the order of `ChunkID.Compare`.
pub run-NotBack :
    (hp : NodeHeap) (cs : List Call)
    → AllRanged hp
    → All (Inserts IsRanged) cs
    → NotBack hp.current_saved_node (run hp cs).current_saved_node
unfolding run
run-NotBack hp [] v h = compare_self hp.current_saved_node
run-NotBack hp (c ∷ cs) v h =
    let (w, first) = step-forward hp c v h.0 in
    compare-not_above_trans _ (get_id (step hp c).current_saved_node) _ first
      (run-NotBack (step hp c) cs w h.1)
