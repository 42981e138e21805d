-- ===== src/Heap.antt =====
-- What sync_diff_inspector/checkpoints/checkpoints.go uses of Go's package `container/heap`, over a
-- slice of any element type and the `Less` of the caller. The heap functions take indices below the
-- length only; a read outside of the slice counts as not less, and a swap outside changes nothing.
pub mod Kept
pub mod Root
pub mod Ordered
pub mod Up
pub mod Down
pub mod Least
use tidb_tools.Prelude.{
  ℕ, zero, suc, ◌+◌, ◌-◌, ◌*◌, ◌/◌, Bool, true, false, ◌&&◌, ◌||◌, not, List, [], ◌∷◌, ◌++◌, Option,
  none, some, length, get_elem?, set, ltb, leb, ◌==◌, if◌then◌else◌,
}

module _ {ℓ} {A : Type ℓ} where
  abbrev pub swap_values : List A → ℕ → ℕ → Option A → Option A → List A
  swap_values xs i j (some x) (some y) = set (set xs i y) j x
  swap_values xs i j _ _ = xs

  -- `h.Swap(i, j)`
  unfoldable pub swap : List A → ℕ → ℕ → List A
  swap xs i j = swap_values xs i j (get_elem? xs i) (get_elem? xs j)

  -- `h.Pop()` of the interface: the last element, and the slice without it
  unfoldable pub pop_last : List A → Option (A × List A)
  pop_last [] = none
  pop_last (x ∷ xs) = elim (pop_last xs) [ none ↦ some (x, []) | some (y, ys) ↦ some (y, x ∷ ys) ]

module _ {ℓ} {A : Type ℓ} (less : A → A → Bool) where
  abbrev pub less_values : Option A → Option A → Bool
  less_values (some x) (some y) = less x y
  less_values _ _ = false

  -- `h.Less(i, j)`
  abbrev pub less_at : List A → ℕ → ℕ → Bool
  less_at xs i j = less_values (get_elem? xs i) (get_elem? xs j)

  -- `up`, whose loop halves the index: as many rounds as the index are enough
  unfoldable pub up : ℕ → List A → ℕ → List A
  unfolding swap
  up zero xs j = xs
  up (suc fuel) xs j =
      let i = (j - 1) / 2 in
      let rest = up fuel (swap xs i j) i in if i == j || not (less_at xs j i) then xs else rest

  abbrev pub smaller_child : List A → ℕ → ℕ → ℕ
  smaller_child xs j1 n = if ltb (j1 + 1) n && less_at xs (j1 + 1) j1 then j1 + 1 else j1

  -- `down` below the length `n`, whose loop moves to a child: `n` rounds are enough
  unfoldable pub down : ℕ → List A → ℕ → ℕ → List A
  unfolding swap
  down zero xs i n = xs
  down (suc fuel) xs i n =
      let j = smaller_child xs (2 * i + 1) n in
      let rest = down fuel (swap xs i j) j n in
      if leb n (2 * i + 1) then xs else if not (less_at xs j i) then xs else rest

  -- `heap.Push`
  unfoldable pub push : List A → A → List A
  unfolding up
  push xs x = up (length xs) (xs ++ x ∷ []) (length xs)

  -- `heap.Pop`
  unfoldable pub pop : List A → Option (A × List A)
  unfolding down pop_last
  pop xs = let n = length xs - 1 in pop_last (down (length xs) (swap xs 0 n) 0 n)
