-- ===== src/Heap/Root.antt =====
-- The element that `heap.Pop` of Go's package `container/heap` returns.
use tidb_tools.Prelude.{
  ℕ, zero, suc, ◌+◌, ◌-◌, ◌*◌, ◌<◌, ◌≤◌, ◌≡◌, ◌≢◌, refl, ◌∙◌, Bool, not, leb, List, [], ◌∷◌, Option,
  none, some, length, get_elem?, get_elem?-set_ne, get_elem?-set-some, get_elem?-append_end, set,
  arith, Bool-cases, inl, inr, Bool-cases, inl, inr,
}
use tidb_tools.Heap.{swap, swap_values, pop_last, less_at, smaller_child, down, pop}
use tidb_tools.Heap.Kept.{length-swap, pop_last-append, pop_last-cons, length-down}

module _ {ℓ} {A : Type ℓ} where
  get_elem?-swap_values :
      (xs : List A) (i j k : ℕ) (o p : Option A)
      → i ≢ k
      → j ≢ k
      → get_elem? (swap_values xs i j o p) k ≡ get_elem? xs k
  get_elem?-swap_values xs i j k none p m n = refl
  get_elem?-swap_values xs i j k (some x) none m n = refl
  get_elem?-swap_values xs i j k (some x) (some y) m n =
      get_elem?-set_ne (set xs i y) j k x n ∙ get_elem?-set_ne xs i k y m

  -- A swap moves nothing at a third index.
  pub get_elem?-swap_ne :
      (xs : List A) (i j k : ℕ) → i ≢ k → j ≢ k → get_elem? (swap xs i j) k ≡ get_elem? xs k
  unfolding swap
  get_elem?-swap_ne xs i j k m n =
      get_elem?-swap_values xs i j k (get_elem? xs i) (get_elem? xs j) m n

  get_elem?-length : (x : A) (xs : List A) → (y : A) × (get_elem? (x ∷ xs) (length xs) ≡ some y)
  get_elem?-length x [] = (x, refl)
  get_elem?-length x (z ∷ xs) = get_elem?-length z xs

  get_elem?-set_defined :
      (xs : List A) (i j : ℕ) (v : A) {y : A}
      → get_elem? xs j ≡ some y
      → (z : A) × (get_elem? (set xs i v) j ≡ some z)
  get_elem?-set_defined [] i j v h = cc
  get_elem?-set_defined (x ∷ xs) zero zero v h = (v, refl)
  get_elem?-set_defined (x ∷ xs) zero (suc j) v h = (_, h)
  get_elem?-set_defined (x ∷ xs) (suc i) zero v h = (x, refl)
  get_elem?-set_defined (x ∷ xs) (suc i) (suc j) v h = get_elem?-set_defined xs i j v h

  -- The first element goes to the last index.
  get_elem?-swap_first :
      (x : A) (xs : List A) → get_elem? (swap (x ∷ xs) 0 (length xs)) (length xs) ≡ some x
  unfolding swap
  get_elem?-swap_first x xs =
      let (y, last) = get_elem?-length x xs in
      let (z, there) = get_elem?-set_defined (x ∷ xs) 0 (length xs) y last in
      rw (last, swap_values) (get_elem?-set-some (set (x ∷ xs) 0 y) (length xs) x there)

module _ {ℓ} {A : Type ℓ} (less : A → A → Bool) where
  smaller_child_bounds :
      (xs : List A) (i n : ℕ) → 2 * i + 1 < n → (smaller_child less xs (2 * i + 1) n < n) × (i < n)
  smaller_child_bounds xs i n h = ground arith

  -- `down` below a length leaves what stands at the length and above.
  get_elem?-down :
      (fuel : ℕ) (xs : List A) (i n k : ℕ)
      → n ≤ k
      → get_elem? (down less fuel xs i n) k ≡ get_elem? xs k
  unfolding down
  get_elem?-down zero xs i n k h = refl
  get_elem?-down (suc fuel) xs i n k h =
      let j = smaller_child less xs (2 * i + 1) n in
      elim (Bool-cases (leb n (2 * i + 1))) [
        | inl e ↦ rw (e, down) refl
        | inr e ↦
            let (below, above) = smaller_child_bounds xs i n (ground arith) in
            elim (Bool-cases (not (less_at less xs j i))) [
              | inl stop ↦ rw (e, stop, down) refl
              | inr sink ↦
                  rw (e, sink, down)
                    (get_elem?-down fuel (swap xs i j) j n k h
                      ∙ get_elem?-swap_ne xs i j k (omega arith) (omega arith))
            ]
      ]

  last_of :
      (x : A) (n : ℕ) (zs : List A)
      → length zs ≡ suc n
      → get_elem? zs n ≡ some x
      → (ys : List A) × (pop_last zs ≡ some (x, ys)) × (length ys ≡ n)
  last_of x n [] e h = absurd (omega arith)
  last_of x n (z ∷ zs) e h =
      let (y, ys, popped, m) = pop_last-cons z zs in
      let same : length ys ≡ n = omega arith in
      let at_n : get_elem? (z ∷ zs) n ≡ some y =
        rw (pop_last-append (z ∷ zs) popped, ← same) (get_elem?-append_end ys y) in
      (ys, cc, same)

  -- `heap.Pop` of a slice that is not empty returns its first element.
  pub pop-first :
      (x : A) (xs : List A)
      → (ys : List A) × (pop less (x ∷ xs) ≡ some (x, ys)) × (length ys ≡ length xs)
  unfolding pop
  pop-first x xs =
      let e : suc (length xs) - 1 ≡ length xs = omega arith in
      let swapped = swap (x ∷ xs) 0 (length xs) in
      let n = length xs in
      rw e (
        last_of x n (down less (suc n) swapped 0 n)
          (length-down less (suc n) swapped 0 n ∙ length-swap (x ∷ xs) 0 n)
          (get_elem?-down (suc n) swapped 0 n n (omega arith) ∙ get_elem?-swap_first x xs))
