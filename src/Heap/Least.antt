-- ===== src/Heap/Least.antt =====
-- `heap.Push` and `heap.Pop` of Go's package `container/heap`, and the heap order.
use mathlib.Core.Path.{subst}
use tidb_tools.Prelude.{
  ℕ, zero, suc, ◌+◌, ◌-◌, ◌/◌, ◌<◌, ◌≡◌, refl, sym, ap, ◌∙◌, List, [], ◌∷◌, ◌++◌, some, length,
  get_elem?, length-append, arith, Bool,
}
use tidb_tools.Heap.{swap, down, push, pop}
use tidb_tools.Heap.Kept.{length-push, length-swap, length-down, pop_last-append}
use tidb_tools.Heap.Ordered.{IsOrder, swap-Swapped, IsHeap, less_at-cong}
use tidb_tools.Heap.Up.{up-IsHeap}
use tidb_tools.Heap.Down.{down-IsHeap}

module _ {A : Type 0} (less : A → A → Bool) (order : IsOrder less) where
  get_elem?-append :
      (xs ys : List A) (i : ℕ) → i < length xs → get_elem? (xs ++ ys) i ≡ get_elem? xs i
  get_elem?-append [] ys i h = absurd (omega arith)
  get_elem?-append (x ∷ xs) ys zero h = refl
  get_elem?-append (x ∷ xs) ys (suc i) h = get_elem?-append xs ys i (omega arith)

  pub push-IsHeap :
      (xs : List A) (x : A)
      → IsHeap less xs (length xs)
      → IsHeap less (push less xs x) (length (push less xs x))
  unfolding push
  push-IsHeap xs x h =
      let n = length xs in
      let len : length (xs ++ x ∷ []) ≡ n + 1 = length-append xs (x ∷ []) in
      let kept = length-push less xs x in
      subst (IsHeap less (push less xs x)) (len ∙ sym kept) (
        up-IsHeap less order n (xs ++ x ∷ []) n (omega arith) (omega (arith, len)) (record {
          edges = λ c pos_c below not_n.
              less_at-cong less xs (xs ++ x ∷ []) c ((c - 1) / 2) c ((c - 1) / 2)
                (get_elem?-append xs (x ∷ []) c (omega (arith, len)))
                (get_elem?-append xs (x ∷ []) ((c - 1) / 2) (omega (arith, len)))
                (h c pos_c (omega (arith, len)));
          around = λ c pos_c below pos_n under. absurd (omega (arith, len));
        }))

  pub pop-IsHeap :
      (xs : List A) {y : A} {ys : List A}
      → IsHeap less xs (length xs)
      → pop less xs ≡ some (y, ys)
      → IsHeap less ys (length ys)
  unfolding pop
  pop-IsHeap xs {y = y} {ys = ys} h e c pos_c below =
      let n = length xs - 1 in
      let start = swap xs 0 n in
      let zs = down less (length xs) start 0 n in
      let split : zs ≡ ys ++ y ∷ [] = pop_last-append zs e in
      let len_zs : length zs ≡ length xs =
        length-down less (length xs) start 0 n ∙ length-swap xs 0 n in
      let len : length xs ≡ length ys + 1 =
        sym len_zs ∙ ap length split ∙ length-append ys (y ∷ []) in
      let s = swap-Swapped xs 0 n (omega (arith, len)) (omega (arith, len)) in
      let whole =
        down-IsHeap less order (length xs) start 0 n (omega arith)
          (omega (arith, length-swap xs 0 n))
          (record {
            edges = λ k pos_k in_n not_root.
                less_at-cong less xs start k ((k - 1) / 2) k ((k - 1) / 2)
                  (s.elsewhere k (omega arith) (omega arith))
                  (s.elsewhere ((k - 1) / 2) (λ q. not_root (sym q)) (omega arith))
                  (h k pos_k (omega arith));
            around = λ k pos_k in_n pos_0 under. absurd (omega arith);
          }) in
      less_at-cong less zs ys c ((c - 1) / 2) c ((c - 1) / 2)
        (sym (get_elem?-append ys (y ∷ []) c below) ∙ ap (λ l. get_elem? l c) (sym split))
        (sym (get_elem?-append ys (y ∷ []) ((c - 1) / 2) (omega arith))
          ∙ ap (λ l. get_elem? l ((c - 1) / 2)) (sym split))
        (whole c pos_c (omega (arith, len)))
