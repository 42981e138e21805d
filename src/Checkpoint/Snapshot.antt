-- ===== src/Checkpoint/Snapshot.antt =====
-- The loop of `GetChunkSnapshot` in sync_diff_inspector/checkpoints/checkpoints.go, and runs.
use tidb_tools.Prelude.{
  ℕ, zero, suc, ◌≤◌, ◌≡◌, ◌⊎◌, refl, true, false, List, [], ◌∷◌, Option, none, some, length, arith,
  Bool-cases, inl, inr,
}
use tidb_tools.Heap.Root.{pop-first}
use tidb_tools.Checkpoint.{
  Node, NodeHeap, is_adjacent, is_less, next_is_adjacent, save_next, snapshot_loop,
  get_chunk_snapshot, insert,
}

-- `m` is reached from `n` by going from a node to an adjacent one, any number of times.
pub data Chain (n : Node) : Node → Type 0 where
  here : Chain n n
  next : {m k : Node} → Chain n m → is_adjacent m k ≡ true → Chain n k

Chain-trans : {n m k : Node} → Chain n m → Chain m k → Chain n k
Chain-trans c here = c
Chain-trans c (next d a) = next (Chain-trans c d) a

-- A round of the loop: the saved node becomes the first one of the heap, which is adjacent.
pub save_next-adjacent :
    (hp : NodeHeap)
    → next_is_adjacent hp ≡ true
    → (is_adjacent hp.current_saved_node (save_next hp).current_saved_node ≡ true)
      × (suc (length (save_next hp).nodes) ≡ length hp.nodes)
unfolding next_is_adjacent save_next
save_next-adjacent hp h = go hp.nodes hp.current_saved_node h
  where
    go :
        (nodes : List Node) (saved : Node)
        → next_is_adjacent (record { nodes = nodes; current_saved_node = saved }) ≡ true
        → (is_adjacent saved
              (save_next (record { nodes = nodes; current_saved_node = saved })).current_saved_node
            ≡ true)
          × (suc (length (save_next (record { nodes = nodes; current_saved_node = saved })).nodes)
              ≡ length nodes)
    go [] saved h = cc
    go (n ∷ nodes) saved h =
        let (rest, popped, len) = pop-first is_less n nodes in rw popped (h, omega (arith))

-- What a run of the loop gives: adjacent steps only, an end where the next node is not adjacent,
-- and the last node that was saved as the result, or the old result where none was.
pub record Snapshots (hp : NodeHeap) (cur : Option Node) (r : NodeHeap × Option Node) : Type 0 where
  pub chain : Chain hp.current_saved_node r.0.current_saved_node
  pub stopped : next_is_adjacent r.0 ≡ false
  pub result : (r.1 ≡ cur) × (r.0 ≡ hp) ⊎ (r.1 ≡ some r.0.current_saved_node)

empty_stops : (hp : NodeHeap) → length hp.nodes ≤ 0 → next_is_adjacent hp ≡ false
unfolding next_is_adjacent
empty_stops hp h = go hp.nodes h
  where
    go :
        (nodes : List Node)
        → length nodes ≤ 0
        → next_is_adjacent (record hp { nodes = nodes }) ≡ false
    go [] h = refl
    go (n ∷ nodes) h = absurd (omega arith)

snapshot_loop-Snapshots :
    (fuel : ℕ) (hp : NodeHeap) (cur : Option Node)
    → length hp.nodes ≤ fuel
    → Snapshots hp cur (snapshot_loop fuel hp cur)
unfolding snapshot_loop
snapshot_loop-Snapshots zero hp cur h = record {
  chain = here;
  stopped = empty_stops hp h;
  result = inl (refl, refl);
}
snapshot_loop-Snapshots (suc fuel) hp cur h = elim (Bool-cases (next_is_adjacent hp)) [
  | inr stop ↦
      rw (stop, snapshot_loop) (record { chain = here; stopped = stop; result = inl (refl, refl) })
  | inl go ↦
      let (adjacent, shorter) = save_next-adjacent hp go in
      let saved : Option Node = some (save_next hp).current_saved_node in
      let rest = snapshot_loop-Snapshots fuel (save_next hp) saved (omega arith) in
      rw (go, snapshot_loop)
        (record {
          chain = Chain-trans (next here adjacent) rest.chain;
          stopped = rest.stopped;
          result = inr (last saved _ rest.result);
        })
]
  where
    last :
        (saved : Option Node) (r : NodeHeap × Option Node)
        → (r.1 ≡ some (save_next hp).current_saved_node) × (r.0 ≡ save_next hp)
          ⊎ (r.1 ≡ some r.0.current_saved_node)
        → r.1 ≡ some r.0.current_saved_node
    last saved r (inl (a, b)) = rw (a, b)
    last saved r (inr a) = a

-- For every heap and saved node, `GetChunkSnapshot` moves the saved node along adjacent nodes only,
-- goes on until the heap is empty or its first node is not adjacent to the saved one, and returns
-- the node that it saved last, or nil with the state unchanged.
pub get_chunk_snapshot-Snapshots : (hp : NodeHeap) → Snapshots hp none (get_chunk_snapshot hp)
unfolding get_chunk_snapshot
get_chunk_snapshot-Snapshots hp = snapshot_loop-Snapshots (length hp.nodes) hp none (omega arith)

-- The methods that the checkers and the saver call, in the order of the mutex.
pub data Call : Type 0 where
  inserts : Node → Call
  snapshots : Call

unfoldable pub step : NodeHeap → Call → NodeHeap
unfolding insert get_chunk_snapshot
step hp (inserts n) = insert hp n
step hp snapshots = (get_chunk_snapshot hp).0

unfoldable pub run : NodeHeap → List Call → NodeHeap
unfolding step
run hp [] = hp
run hp (c ∷ cs) = run (step hp c) cs

step-Chain : (hp : NodeHeap) (c : Call) → Chain hp.current_saved_node (step hp c).current_saved_node
unfolding step insert
step-Chain hp (inserts n) = here
step-Chain hp snapshots = (get_chunk_snapshot-Snapshots hp).chain

-- After any sequence of insertions and snapshots, the saved node is reached from the one at the
-- start by steps from a node to an adjacent one.
pub run-Chain :
    (hp : NodeHeap) (cs : List Call) → Chain hp.current_saved_node (run hp cs).current_saved_node
unfolding run
run-Chain hp [] = here
run-Chain hp (c ∷ cs) = Chain-trans (step-Chain hp c) (run-Chain (step hp c) cs)
