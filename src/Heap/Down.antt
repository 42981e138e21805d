-- ===== src/Heap/Down.antt =====
-- How `down` of Go's package `container/heap` restores the heap order, and what `heap.Push` and
-- `heap.Pop` leave.
use tidb_tools.Prelude.{
  ℕ, zero, suc, ◌+◌, ◌-◌, ◌*◌, ◌/◌, ◌<◌, ◌≤◌, ◌≡◌, refl, sym, ap, ◌∙◌, ◌⊎◌, inl, inr, Bool, true,
  false, not, ◌&&◌, List, length, get_elem?, ltb, leb, if◌then◌else◌, Bool-cases, arith, ℕ_discrete,
  ltb→lt, lt→ltb, leb→le,
}
use tidb_tools.Heap.{swap, less_at, down, smaller_child}
use tidb_tools.Heap.Kept.{length-swap}
use tidb_tools.Heap.Ordered.{
  IsOrder, Swapped, swap-Swapped, Keeps, IsHeap, less_at-cong, Keeps-trans, Keeps-asym, differ,
}

not_leb : (a b : ℕ) → leb a b ≡ false → b < a
not_leb a b h = ground arith

module _ {A : Type 0} (less : A → A → Bool) (order : IsOrder less) where
  Keeps-self : (xs : List A) (i : ℕ) → Keeps less xs i i
  Keeps-self xs i = elim (Bool-cases (less_at less xs i i)) [
    | inl h ↦ Keeps-asym less order xs i i h
    | inr h ↦ h
  ]

  -- Every edge but those from the children of `i`, and from these to the parent of `i`.
  pub record HeapBelow (xs : List A) (n i : ℕ) : Type 0 where
    pub edges : (c : ℕ) → 0 < c → c < n → ¬ ((c - 1) / 2 ≡ i) → Keeps less xs ((c - 1) / 2) c
    pub around : (c : ℕ) → 0 < c → c < n → 0 < i → (c - 1) / 2 ≡ i → Keeps less xs ((i - 1) / 2) c

  -- The child of `i` that no child of `i` is less than.
  record IsLeastChild (xs : List A) (n i j : ℕ) : Type 0 where
    pub child : (j - 1) / 2 ≡ i
    pub positive : 0 < j
    pub below : j < n
    pub least : (c : ℕ) → 0 < c → c < n → (c - 1) / 2 ≡ i → Keeps less xs j c

  child_is : (c i : ℕ) → 0 < c → (c - 1) / 2 ≡ i → (c ≡ 2 * i + 1) ⊎ (c ≡ 2 * i + 1 + 1)
  child_is c i pos h = elim (ℕ_discrete c (2 * i + 1)) [ yes e ↦ inl e | no n ↦ inr (omega arith) ]

  smaller_child-IsLeastChild :
      (xs : List A) (i n : ℕ)
      → 2 * i + 1 < n
      → IsLeastChild xs n i (smaller_child less xs (2 * i + 1) n)
  smaller_child-IsLeastChild xs i n h =
      go (ltb (2 * i + 1 + 1) n) (less_at less xs (2 * i + 1 + 1) (2 * i + 1)) refl refl
    where
      at : (j : ℕ) {c d : ℕ} → c ≡ d → Keeps less xs j d → Keeps less xs j c
      at j e k = ap (λ x. less_at less xs x j) e ∙ k

      go :
          (t l : Bool)
          → ltb (2 * i + 1 + 1) n ≡ t
          → less_at less xs (2 * i + 1 + 1) (2 * i + 1) ≡ l
          → IsLeastChild xs n i (if t && l then 2 * i + 1 + 1 else 2 * i + 1)
      go true true et el = record {
        child = omega arith;
        positive = omega arith;
        below = ltb→lt _ _ et;
        least = λ c pos b e. elim (child_is c i pos e) [
          | inl first ↦ at _ first (Keeps-asym less order xs (2 * i + 1) (2 * i + 1 + 1) el)
          | inr second ↦ at _ second (Keeps-self xs (2 * i + 1 + 1))
        ];
      }
      go true false et el = record {
        child = omega arith;
        positive = omega arith;
        below = h;
        least = λ c pos b e. elim (child_is c i pos e) [
          | inl first ↦ at _ first (Keeps-self xs (2 * i + 1))
          | inr second ↦ at _ second el
        ];
      }
      go false l et el = record {
        child = omega arith;
        positive = omega arith;
        below = h;
        least = λ c pos b e. elim (child_is c i pos e) [
          | inl first ↦ at _ first (Keeps-self xs (2 * i + 1))
          | inr second ↦ absurd (differ et (lt→ltb _ _ (omega (arith, second))))
        ];
      }

  -- A round of `down`.
  down_round :
      (xs ys : List A) (n i j : ℕ)
      → n ≤ length xs
      → Swapped xs ys i j
      → IsLeastChild xs n i j
      → less_at less xs j i ≡ true
      → HeapBelow xs n i
      → HeapBelow ys n j
  down_round xs ys n i j len s least above h = record {
    edges = λ c pos_c below not_under_j. elim (ℕ_discrete ((c - 1) / 2) i) [
      | yes under_i ↦ elim (ℕ_discrete c j) [
        | yes at_j ↦
            less_at-cong less xs ys c ((c - 1) / 2) i j (ap (get_elem? ys) at_j ∙ s.at_right)
              (ap (get_elem? ys) under_i ∙ s.at_left) (Keeps-asym less order xs i j above)
        | no not_j ↦
            less_at-cong less xs ys c ((c - 1) / 2) c j
              (s.elsewhere c (omega arith) (λ e. not_j (sym e)))
              (ap (get_elem? ys) under_i ∙ s.at_left) (least.least c pos_c below under_i)
      ]
      | no not_under_i ↦
          let same_p =
            s.elsewhere ((c - 1) / 2) (λ e. not_under_i (sym e)) (λ e. not_under_j (sym e)) in
          elim (ℕ_discrete c i) [
            | yes at_i ↦
                less_at-cong less xs ys c ((c - 1) / 2) j ((c - 1) / 2)
                  (ap (get_elem? ys) at_i ∙ s.at_left) same_p
                  (ap (λ k. less_at less xs j ((k - 1) / 2)) at_i
                    ∙ h.around j least.positive least.below (omega arith) least.child)
            | no not_i ↦
                less_at-cong less xs ys c ((c - 1) / 2) c ((c - 1) / 2)
                  (s.elsewhere c (λ e. not_i (sym e))
                    (λ e. not_under_i (ap (λ k. (k - 1) / 2) (sym e) ∙ least.child)))
                  same_p (h.edges c pos_c below not_under_i)
          ]
    ];
    around = λ c pos_c below pos_j under_j.
        less_at-cong less xs ys c ((j - 1) / 2) c j
          (s.elsewhere c (omega (arith, least.child)) (omega arith))
          (ap (get_elem? ys) least.child ∙ s.at_left)
          (ap (less_at less xs c) (sym under_j)
            ∙ h.edges c pos_c below (omega (arith, least.child, least.positive)));
  }

  HeapBelow-IsHeap :
      (xs : List A) (n i : ℕ)
      → ((c : ℕ) → 0 < c → c < n → (c - 1) / 2 ≡ i → Keeps less xs i c)
      → HeapBelow xs n i
      → IsHeap less xs n
  HeapBelow-IsHeap xs n i k h c pos_c below = elim (ℕ_discrete ((c - 1) / 2) i) [
    | yes under ↦ ap (less_at less xs c) under ∙ k c pos_c below under
    | no n ↦ h.edges c pos_c below n
  ]

  pub down-IsHeap :
      (fuel : ℕ) (xs : List A) (i n : ℕ)
      → n - i ≤ fuel
      → n ≤ length xs
      → HeapBelow xs n i
      → IsHeap less (down less fuel xs i n) n
  unfolding down
  down-IsHeap zero xs i n le len h =
      HeapBelow-IsHeap xs n i (λ c pos_c below under. absurd (omega arith)) h
  down-IsHeap (suc fuel) xs i n le len h =
      go (λ ys. down-IsHeap fuel ys (smaller_child less xs (2 * i + 1) n) n) (leb n (2 * i + 1))
        (less_at less xs (smaller_child less xs (2 * i + 1) n) i) refl refl
    where
      j : ℕ
      j = smaller_child less xs (2 * i + 1) n

      rest : List A
      rest = down less fuel (swap xs i j) j n

      go :
          ((ys : List A)
            → n - j ≤ fuel
            → n ≤ length ys
            → HeapBelow ys n j
            → IsHeap less (down less fuel ys j n) n)
          → (a b : Bool) → leb n (2 * i + 1) ≡ a
          → less_at less xs j i ≡ b
          → IsHeap less (if a then xs else if not b then xs else rest) n
      go rec true b ea eb =
          let past = leb→le n (2 * i + 1) ea in
          HeapBelow-IsHeap xs n i (λ c pos_c below under. absurd (omega (arith, past))) h
      go rec false b ea eb =
          let inside : 2 * i + 1 < n = not_leb n (2 * i + 1) ea in
          let least = smaller_child-IsLeastChild xs i n inside in after rec least b eb
        where
          after :
              ((ys : List A)
                → n - j ≤ fuel
                → n ≤ length ys
                → HeapBelow ys n j
                → IsHeap less (down less fuel ys j n) n)
              → IsLeastChild xs n i j
              → (b : Bool) → less_at less xs j i ≡ b
              → IsHeap less (if not b then xs else rest) n
          after rec least false eb =
              HeapBelow-IsHeap xs n i
                (λ c pos_c below under.
                  Keeps-trans less order xs i j c (omega (arith, least.below)) eb
                    (least.least c pos_c below under))
                h
          after rec least true eb =
              let s =
                swap-Swapped xs i j (omega (arith, least.below, least.child, least.positive))
                  (omega (arith, least.below)) in
              rec (swap xs i j) (omega (arith, least.below, least.child, least.positive))
                (omega (arith, length-swap xs i j))
                (down_round xs (swap xs i j) n i j len s least eb h)

  -- In a heap no element is less than the first one.
  pub root-Keeps :
      (fuel : ℕ) (xs : List A) (k : ℕ)
      → k ≤ fuel
      → k < length xs
      → IsHeap less xs (length xs)
      → Keeps less xs 0 k
  root-Keeps fuel xs zero le inside h = Keeps-self xs 0
  root-Keeps zero xs (suc k) le inside h = absurd (omega arith)
  root-Keeps (suc fuel) xs (suc k) le inside h =
      let p = (suc k - 1) / 2 in
      Keeps-trans less order xs 0 p (suc k) (omega arith)
        (root-Keeps fuel xs p (omega arith) (omega arith) h) (h (suc k) (omega arith) inside)
