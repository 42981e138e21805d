-- ===== src/Heap/Kept.antt =====
-- The heap functions of Go's package `container/heap`: lengths, and what holds of all elements.
use tidb_tools.Prelude.{
  ℕ, zero, suc, ◌+◌, ◌-◌, ◌*◌, ◌/◌, ◌≡◌, refl, ap, ◌∙◌, Bool, true, false, ◌||◌, not, List, [], ◌∷◌,
  ◌++◌, Option, none, some, length, length-append, length-set, Option-cases, Bool-cases, inl, inr,
  get_elem?, set, All, leb, ◌==◌, arith, if◌then◌else◌,
}
use mathlib.Core.Path.{subst}
use tidb_tools.Heap.{swap, swap_values, pop_last, less_at, smaller_child, up, down, push, pop}

module _ {ℓ} {A : Type ℓ} where
  length-swap_values :
      (xs : List A) (i j : ℕ) (o p : Option A) → length (swap_values xs i j o p) ≡ length xs
  length-swap_values xs i j none p = refl
  length-swap_values xs i j (some x) none = refl
  length-swap_values xs i j (some x) (some y) = length-set (set xs i y) j x ∙ length-set xs i y

  pub length-swap : (xs : List A) (i j : ℕ) → length (swap xs i j) ≡ length xs
  unfolding swap
  length-swap xs i j = length-swap_values xs i j (get_elem? xs i) (get_elem? xs j)

  -- The last element is there where the list is not empty.
  pub pop_last-cons :
      (x : A) (xs : List A)
      → (y : A) × (ys : List A) × (pop_last (x ∷ xs) ≡ some (y, ys)) × (length ys ≡ length xs)
  unfolding pop_last
  pop_last-cons x [] = (x, [], refl, refl)
  pop_last-cons x (z ∷ xs) =
      let (y, ys, e, n) = pop_last-cons z xs in (y, x ∷ ys, rw (e, pop_last) refl, ap suc n)

  pop_last-none : (xs : List A) → pop_last xs ≡ none → xs ≡ []
  pop_last-none [] e = refl
  pop_last-none (x ∷ xs) e = let (y, ys, f, n) = pop_last-cons x xs in cc

  -- The other way round: what `pop_last` returns, put together, is the list.
  pub pop_last-append :
      (xs : List A) {y : A} {ys : List A} → pop_last xs ≡ some (y, ys) → xs ≡ ys ++ y ∷ []
  unfolding pop_last
  pop_last-append [] e = cc
  pop_last-append (x ∷ xs) {y} {ys} e = elim (Option-cases (pop_last xs)) [
    | inl n ↦ ground (arith, pop_last-none xs n)
    | inr ((z, zs), m) ↦ ground (arith, pop_last-append xs m)
  ]

module _ {ℓ κ} {A : Type ℓ} (P : A → Type κ) where
  All-set : (xs : List A) (i : ℕ) (v : A) → All P xs → P v → All P (set xs i v)
  All-set [] i v h hv = h
  All-set (x ∷ xs) zero v h hv = (hv, h.1)
  All-set (x ∷ xs) (suc i) v h hv = (h.0, All-set xs i v h.1 hv)

  pub All-get_elem? : (xs : List A) (i : ℕ) {v : A} → All P xs → get_elem? xs i ≡ some v → P v
  All-get_elem? [] i h e = cc
  All-get_elem? (x ∷ xs) zero {v} h e = let same : x ≡ v = cc in subst P same h.0
  All-get_elem? (x ∷ xs) (suc i) h e = All-get_elem? xs i h.1 e

  All-append : (xs ys : List A) → All P xs → All P ys → All P (xs ++ ys)
  All-append [] ys hx hy = hy
  All-append (x ∷ xs) ys hx hy = (hx.0, All-append xs ys hx.1 hy)

  All-swap : (xs : List A) (i j : ℕ) → All P xs → All P (swap xs i j)
  unfolding swap
  All-swap xs i j h = go (get_elem? xs i) (get_elem? xs j) refl refl
    where
      go :
          (o p : Option A)
          → get_elem? xs i ≡ o
          → get_elem? xs j ≡ p
          → All P (swap_values xs i j o p)
      go none p e f = h
      go (some x) none e f = h
      go (some x) (some y) e f =
          All-set (set xs i y) j x (All-set xs i y h (All-get_elem? xs j h f))
            (All-get_elem? xs i h e)

  pub All-pop_last :
      (xs : List A) {y : A} {ys : List A} → All P xs → pop_last xs ≡ some (y, ys) → P y × All P ys
  All-pop_last xs {y} {ys} h e = All-end ys (rw (pop_last-append xs e) at h)
    where
      All-end : (zs : List A) → All P (zs ++ y ∷ []) → P y × All P zs
      All-end [] (hy, _) = (hy, tt)
      All-end (z ∷ zs) (hz, rest) = let (hy, hs) = All-end zs rest in (hy, (hz, hs))

module _ {ℓ} {A : Type ℓ} (less : A → A → Bool) where
  length-up : (fuel : ℕ) (xs : List A) (j : ℕ) → length (up less fuel xs j) ≡ length xs
  unfolding up
  length-up zero xs j = refl
  length-up (suc fuel) xs j =
      let i = (j - 1) / 2 in ground (arith, length-up fuel (swap xs i j) i, length-swap xs i j)

  pub length-down : (fuel : ℕ) (xs : List A) (i n : ℕ) → length (down less fuel xs i n) ≡ length xs
  unfolding down
  length-down zero xs i n = refl
  length-down (suc fuel) xs i n =
      let j = smaller_child less xs (2 * i + 1) n in
      ground (arith, length-down fuel (swap xs i j) j n, length-swap xs i j)

  -- `heap.Push` adds one element.
  pub length-push : (xs : List A) (x : A) → length (push less xs x) ≡ length xs + 1
  unfolding push
  length-push xs x = length-up (length xs) (xs ++ x ∷ []) (length xs) ∙ length-append xs (x ∷ [])

  -- `heap.Pop` of a slice that is not empty returns an element and leaves one less.
  pub pop-some :
      (x : A) (xs : List A)
      → (y : A) × (ys : List A) × (pop less (x ∷ xs) ≡ some (y, ys)) × (length ys ≡ length xs)
  unfolding pop
  pop-some x xs = some_of (down less (length (x ∷ xs)) (swap (x ∷ xs) 0 n) 0 n) kept
    where
      n : ℕ
      n = length (x ∷ xs) - 1

      kept : length (down less (length (x ∷ xs)) (swap (x ∷ xs) 0 n) 0 n) ≡ length (x ∷ xs)
      kept = length-down (length (x ∷ xs)) (swap (x ∷ xs) 0 n) 0 n ∙ length-swap (x ∷ xs) 0 n

      some_of :
          (zs : List A)
          → length zs ≡ length (x ∷ xs)
          → (y : A) × (ys : List A) × (pop_last zs ≡ some (y, ys)) × (length ys ≡ length xs)
      some_of [] e = absurd (omega arith)
      some_of (z ∷ zs) e = let (y, ys, f, m) = pop_last-cons z zs in (y, ys, f, omega arith)

module _ {ℓ κ} {A : Type ℓ} (P : A → Type κ) (less : A → A → Bool) where
  All-up : (fuel : ℕ) (xs : List A) (j : ℕ) → All P xs → All P (up less fuel xs j)
  unfolding up
  All-up zero xs j h = h
  All-up (suc fuel) xs j h =
      let i = (j - 1) / 2 in
      elim (Bool-cases (i == j || not (less_at less xs j i))) [
        | inl e ↦ rw (e, up) h
        | inr e ↦ rw (e, up) (All-up fuel (swap xs i j) i (All-swap P xs i j h))
      ]

  All-down : (fuel : ℕ) (xs : List A) (i n : ℕ) → All P xs → All P (down less fuel xs i n)
  unfolding down
  All-down zero xs i n h = h
  All-down (suc fuel) xs i n h =
      let j = smaller_child less xs (2 * i + 1) n in
      let rest = All-down fuel (swap xs i j) j n (All-swap P xs i j h) in
      if_All (leb n (2 * i + 1)) _ _ h (if_All (not (less_at less xs j i)) _ _ h rest)
    where
      if_All : (b : Bool) (ys zs : List A) → All P ys → All P zs → All P (if b then ys else zs)
      if_All true ys zs hy hz = hy
      if_All false ys zs hy hz = hz

  pub All-push : (xs : List A) (x : A) → All P xs → P x → All P (push less xs x)
  unfolding push
  All-push xs x h hx =
      All-up (length xs) (xs ++ x ∷ []) (length xs) (All-append P xs (x ∷ []) h (hx, tt))

  pub All-pop :
      (xs : List A) {y : A} {ys : List A} → All P xs → pop less xs ≡ some (y, ys) → P y × All P ys
  unfolding pop
  All-pop xs h e =
      let n = length xs - 1 in
      All-pop_last P _ (All-down (length xs) (swap xs 0 n) 0 n (All-swap P xs 0 n h)) e
