-- ===== src/Heap/Up.antt =====
-- How `up` of Go's package `container/heap` restores the heap order.
use tidb_tools.Prelude.{
  ℕ, zero, suc, ◌-◌, ◌/◌, ◌<◌, ◌≤◌, ◌≡◌, refl, sym, ap, ◌∙◌, Bool, true, false, not, ◌||◌, List,
  length, get_elem?, ◌==◌, if◌then◌else◌, arith, ℕ_discrete, ==_iff, ◌≢◌,
}
use mathlib.Core.Path.{subst}
use tidb_tools.Heap.Kept.{length-swap}
use tidb_tools.Heap.{swap, less_at, up}
use tidb_tools.Heap.Ordered.{
  differ, IsOrder, Swapped, swap-Swapped, Keeps, IsHeap, less_at-cong, Keeps-trans, Keeps-asym,
}

module _ {A : Type 0} (less : A → A → Bool) (order : IsOrder less) where
  -- Every edge but the one to the parent of `j`, and from the children of `j` to that parent.
  pub record HeapAbove (xs : List A) (n j : ℕ) : Type 0 where
    pub edges : (c : ℕ) → 0 < c → c < n → ¬ (c ≡ j) → Keeps less xs ((c - 1) / 2) c
    pub around : (c : ℕ) → 0 < c → c < n → 0 < j → (c - 1) / 2 ≡ j → Keeps less xs ((j - 1) / 2) c

  -- A round of `up`.
  up_round :
      (xs ys : List A) (i j : ℕ)
      → i ≡ (j - 1) / 2
      → i < j
      → j < length xs
      → Swapped xs ys i j
      → less_at less xs j i ≡ true
      → HeapAbove xs (length xs) j
      → HeapAbove ys (length xs) i
  up_round xs ys i j parent lower inside s above h = record {
    edges = λ c pos_c below n. elim (ℕ_discrete c j) [
      | yes at_j ↦
          less_at-cong less xs ys c ((c - 1) / 2) i j (ap (get_elem? ys) at_j ∙ s.at_right)
            (ap (get_elem? ys) (omega arith) ∙ s.at_left) (Keeps-asym less order xs i j above)
      | no not_j ↦
          let same = s.elsewhere c (λ e. n (sym e)) (λ e. not_j (sym e)) in
          elim (ℕ_discrete ((c - 1) / 2) j) [
            | yes under_j ↦
                less_at-cong less xs ys c ((c - 1) / 2) c i same
                  (ap (get_elem? ys) under_j ∙ s.at_right)
                  (ap (less_at less xs c) parent ∙ h.around c pos_c below (omega arith) under_j)
            | no not_under_j ↦ elim (ℕ_discrete ((c - 1) / 2) i) [
              | yes under_i ↦
                  less_at-cong less xs ys c ((c - 1) / 2) c j same
                    (ap (get_elem? ys) under_i ∙ s.at_left)
                    (Keeps-trans less order xs j i c (omega arith)
                      (Keeps-asym less order xs i j above)
                      (ap (less_at less xs c) (sym under_i) ∙ h.edges c pos_c below not_j))
              | no not_under_i ↦
                  less_at-cong less xs ys c ((c - 1) / 2) c ((c - 1) / 2) same
                    (s.elsewhere ((c - 1) / 2) (λ e. not_under_i (sym e))
                      (λ e. not_under_j (sym e)))
                    (h.edges c pos_c below not_j)
            ]
          ]
    ];
    around = λ c pos_c below pos_i under_i.
        let q = (i - 1) / 2 in
        let same_q = s.elsewhere q (omega arith) (omega arith) in
        let i_q = h.edges i pos_i (omega arith) (omega arith) in
        elim (ℕ_discrete c j) [
          | yes at_j ↦
              less_at-cong less xs ys c q i q (ap (get_elem? ys) at_j ∙ s.at_right) same_q i_q
          | no not_j ↦
              less_at-cong less xs ys c q c q (s.elsewhere c (omega arith) (λ e. not_j (sym e)))
                same_q
                (Keeps-trans less order xs q i c (omega arith) i_q
                  (ap (less_at less xs c) (sym under_i) ∙ h.edges c pos_c below not_j))
        ];
  }

  -- Where the element at `j` is not less than its parent, or has none, the order is whole.
  HeapAbove-IsHeap :
      (xs : List A) (n j : ℕ)
      → (0 < j → Keeps less xs ((j - 1) / 2) j)
      → HeapAbove xs n j
      → IsHeap less xs n
  HeapAbove-IsHeap xs n j e h c pos_c below = elim (ℕ_discrete c j) [
    | yes same ↦ subst (λ k. 0 < k → Keeps less xs ((k - 1) / 2) k) (sym same) e pos_c
    | no not_j ↦ h.edges c pos_c below not_j
  ]

  pub up-IsHeap :
      (fuel : ℕ) (xs : List A) (j : ℕ)
      → j ≤ fuel
      → j < length xs
      → HeapAbove xs (length xs) j
      → IsHeap less (up less fuel xs j) (length xs)
  unfolding up
  up-IsHeap zero xs j le inside h = HeapAbove-IsHeap xs (length xs) j (λ p. absurd (omega arith)) h
  up-IsHeap (suc fuel) xs j le inside h =
      go (λ ys. up-IsHeap fuel ys ((j - 1) / 2)) ((j - 1) / 2 == j)
        (less_at less xs j ((j - 1) / 2)) refl refl
    where
      i : ℕ
      i = (j - 1) / 2

      rest : List A
      rest = up less fuel (swap xs i j) i

      go :
          ((ys : List A)
            → i ≤ fuel
            → i < length ys
            → HeapAbove ys (length ys) i
            → IsHeap less (up less fuel ys i) (length ys))
          → (a b : Bool) → (i == j) ≡ a
          → less_at less xs j i ≡ b
          → IsHeap less (if a || not b then xs else rest) (length xs)
      go rec true b ea eb =
          let top : i ≡ j = (==_iff i j).0 ea in
          HeapAbove-IsHeap xs (length xs) j (λ p. absurd (omega (arith, top))) h
      go rec false false ea eb = HeapAbove-IsHeap xs (length xs) j (λ p. eb) h
      go rec false true ea eb =
          let apart : i ≢ j = λ e. absurd (differ ea ((==_iff i j).1 e)) in
          let below : i < j = omega (arith, apart) in
          let len = length-swap xs i j in
          let s = swap-Swapped xs i j (omega (arith, below)) inside in
          let deeper = rec (swap xs i j) (omega (arith, below)) (omega (arith, below, len)) (
            subst (λ n. HeapAbove (swap xs i j) n i) (sym len)
              (up_round xs (swap xs i j) i j refl below inside s eb h)) in
          subst (IsHeap less rest) len deeper
