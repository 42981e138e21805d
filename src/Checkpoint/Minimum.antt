-- ===== src/Checkpoint/Minimum.antt =====
-- The heap of waiting nodes of sync_diff_inspector/checkpoints/checkpoints.go: which node stands
-- first, where `GetChunkSnapshot` looks.
use mathlib.Core.Path.{subst}
use tidb_tools.Prelude.{
  ℕ, zero, suc, ◌<◌, ◌≡◌, refl, sym, ap, ◌∙◌, List, [], ◌∷◌, Option, none, some, length, arith,
  Bool-cases, inl, inr, ◌⊎◌, Bool, if◌then◌else◌, get_elem?, true, false,
}
use tidb_tools.Heap
use tidb_tools.Heap.{less_values}
use tidb_tools.Heap.Ordered.{IsOrder, IsHeap}
use tidb_tools.Heap.Down.{root-Keeps}
use tidb_tools.Heap.Least.{push-IsHeap, pop-IsHeap}
use tidb_tools.Chunk.Order.{
  IsBefore, IsBefore-cotrans, compare→before, before→compare, after→compare,
}
use tidb_tools.Checkpoint.Adjacent.{is_less_iff}
use tidb_tools.Checkpoint.{
  Node, get_id, is_adjacent, NodeHeap, init, is_less, next_is_adjacent, pop_into, save_next,
  snapshot_loop, get_chunk_snapshot, insert,
}
use tidb_tools.Checkpoint.Snapshot.{
  Call, inserts, snapshots, step, run, get_chunk_snapshot-Snapshots,
}

IsBefore-of : (x y : Node) → is_less x y ≡ true → IsBefore (get_id x) (get_id y)
IsBefore-of x y h = compare→before (get_id x) (get_id y) ((is_less_iff x y).0 h)

less_asym : (x y : Node) → is_less x y ≡ true → is_less y x ≡ true → ⊥
less_asym x y h g =
    let one = (is_less_iff x y).0 h in
    let other = after→compare (get_id x) (get_id y) (IsBefore-of y x g) in cc

not_less : (x y : Node) → (is_less x y ≡ true → ⊥) → is_less x y ≡ false
not_less x y h = elim (Bool-cases (is_less x y)) [ inl t ↦ absurd (h t) | inr f ↦ f ]

less_of : (x y : Node) → IsBefore (get_id x) (get_id y) → is_less x y ≡ true
less_of x y h = (is_less_iff x y).1 (before→compare (get_id x) (get_id y) h)

differ : {b : Bool} → b ≡ true → b ≡ false → ⊥
differ h g = cc

is_less-IsOrder : IsOrder is_less
is_less-IsOrder = record {
  asym = λ x y h. not_less y x (less_asym x y h);
  trans = λ x y z h g. not_less z x (λ t.
      elim (IsBefore-cotrans (get_id x) (get_id y) (get_id z) (IsBefore-of z x t)) [
        | inl zy ↦ differ (less_of z y zy) g
        | inr yx ↦ differ (less_of y x yx) h
      ]);
}

abbrev Waits : NodeHeap → Type 0
Waits hp = IsHeap is_less hp.nodes (length hp.nodes)

save_next-Waits : (hp : NodeHeap) → Waits hp → Waits (save_next hp)
unfolding save_next
save_next-Waits hp h = go (Heap.pop is_less hp.nodes) refl
  where
    go : (o : Option (Node × List Node)) → Heap.pop is_less hp.nodes ≡ o → Waits (pop_into hp o)
    go none e = h
    go (some (n, rest)) e = pop-IsHeap is_less is_less-IsOrder hp.nodes h e

if_Waits :
    (b : Bool) (p q : NodeHeap × Option Node) → Waits p.0 → Waits q.0 → Waits (if b then p else q).0
if_Waits true p q h g = h
if_Waits false p q h g = g

snapshot_loop-Waits :
    (fuel : ℕ) (hp : NodeHeap) (cur : Option Node) → Waits hp → Waits (snapshot_loop fuel hp cur).0
unfolding snapshot_loop
snapshot_loop-Waits zero hp cur h = h
snapshot_loop-Waits (suc fuel) hp cur h =
    if_Waits (next_is_adjacent hp) _ (hp, cur)
      (snapshot_loop-Waits fuel (save_next hp) (some (save_next hp).current_saved_node)
        (save_next-Waits hp h))
      h

step-Waits : (hp : NodeHeap) (c : Call) → Waits hp → Waits (step hp c)
unfolding step insert get_chunk_snapshot
step-Waits hp (inserts n) h = push-IsHeap is_less is_less-IsOrder hp.nodes n h
step-Waits hp snapshots h = snapshot_loop-Waits (length hp.nodes) hp none h

run-Waits : (hp : NodeHeap) (cs : List Call) → Waits hp → Waits (run hp cs)
unfolding run
run-Waits hp [] h = h
run-Waits hp (c ∷ cs) h = run-Waits (step hp c) cs (step-Waits hp c h)

init-Waits : Waits init
unfolding init
init-Waits c pos_c below = absurd (omega arith)

read_inside : (xs : List Node) (k : ℕ) {m : Node} → get_elem? xs k ≡ some m → k < length xs
read_inside [] k e = cc
read_inside (x ∷ xs) zero e = omega arith
read_inside (x ∷ xs) (suc k) e = omega (arith, read_inside xs k e)

heap-first :
    (n : Node) (rest : List Node)
    → IsHeap is_less (n ∷ rest) (length (n ∷ rest))
    → (k : ℕ) (m : Node) → get_elem? (n ∷ rest) k ≡ some m
    → is_less m n ≡ false
heap-first n rest h k m e =
    ap (λ o. less_values is_less o (some n)) (sym e)
    ∙ root-Keeps is_less is_less-IsOrder k (n ∷ rest) k (omega arith) (read_inside (n ∷ rest) k e) h

-- After any sequence of insertions and snapshots, from `Init` on, the first node of the heap, which
-- is the only one that `GetChunkSnapshot` looks at, is one that no waiting node is less than.
pub run-first :
    (cs : List Call) (n : Node) (rest : List Node)
    → (run init cs).nodes ≡ n ∷ rest
    → (k : ℕ) (m : Node) → get_elem? (n ∷ rest) k ≡ some m
    → is_less m n ≡ false
run-first cs n rest e k m at_k =
    heap-first n rest (subst (λ l. IsHeap is_less l (length l)) e (run-Waits init cs init-Waits)) k
      m at_k

-- The node waits, and every other node that waits is above it.
pub record IsNextWaiting (hp : NodeHeap) (k : Node) : Type 0 where
  pub position : ℕ
  pub waits : get_elem? hp.nodes position ≡ some k
  pub lowest : (i : ℕ) (m : Node) → get_elem? hp.nodes i ≡ some m → (m ≡ k) ⊎ (is_less k m ≡ true)

next_first :
    (hp : NodeHeap) (k : Node)
    → Waits hp
    → next_is_adjacent hp ≡ false
    → IsNextWaiting hp k
    → is_adjacent hp.current_saved_node k ≡ false
unfolding next_is_adjacent
next_first hp k h stopped w = go hp.nodes h stopped w.waits w.lowest
  where
    go :
        (nodes : List Node)
        → IsHeap is_less nodes (length nodes)
        → next_is_adjacent (record hp { nodes = nodes }) ≡ false
        → get_elem? nodes w.position ≡ some k
        → ((i : ℕ) (m : Node) → get_elem? nodes i ≡ some m → (m ≡ k) ⊎ (is_less k m ≡ true))
        → is_adjacent hp.current_saved_node k ≡ false
    go [] h stopped at_k lowest = cc
    go (n ∷ rest) h stopped at_k lowest = elim (lowest 0 n refl) [
      | inl same ↦ ap (is_adjacent hp.current_saved_node) (sym same) ∙ stopped
      | inr above ↦ absurd (differ above (heap-first n rest h w.position k at_k))
    ]

-- After any sequence of insertions and snapshots from `Init` on, and one more `GetChunkSnapshot`: a
-- node that still waits, and that every other waiting node is above, is not adjacent to the saved
-- node.
pub get_chunk_snapshot_complete :
    (cs : List Call) (k : Node)
    → IsNextWaiting (get_chunk_snapshot (run init cs)).0 k
    → is_adjacent (get_chunk_snapshot (run init cs)).0.current_saved_node k ≡ false
unfolding get_chunk_snapshot
get_chunk_snapshot_complete cs k w =
    next_first (get_chunk_snapshot (run init cs)).0 k
      (snapshot_loop-Waits (length (run init cs).nodes) (run init cs) none
        (run-Waits init cs init-Waits))
      (get_chunk_snapshot-Snapshots (run init cs)).stopped w
