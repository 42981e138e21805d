-- ===== src/Heap/Ordered.antt =====
-- The heap order of Go's package `container/heap`, and reads after a swap.
use tidb_tools.Prelude.{
  ℕ, zero, suc, ◌-◌, ◌/◌, ◌<◌, ◌≡◌, refl, sym, ap, ap₂, ◌∙◌, Bool, true, false, List, [], ◌∷◌,
  Option, none, some, length, get_elem?, set, arith, length-set, get_elem?-set-some,
  get_elem?-set_ne, ℕ_discrete,
}
use tidb_tools.Heap.{swap, less_values, less_at}

-- "Not less" is a total preorder.
pub record IsOrder {A : Type 0} (less : A → A → Bool) : Type 0 where
  pub asym : (x y : A) → less x y ≡ true → less y x ≡ false
  pub trans : (x y z : A) → less y x ≡ false → less z y ≡ false → less z x ≡ false

pub differ : {b : Bool} → b ≡ false → b ≡ true → ⊥
differ h g = cc

module _ {A : Type 0} where
  pub get_elem?-some : (xs : List A) (i : ℕ) → i < length xs → (x : A) × (get_elem? xs i ≡ some x)
  get_elem?-some [] i h = absurd (omega arith)
  get_elem?-some (x ∷ xs) zero h = (x, refl)
  get_elem?-some (x ∷ xs) (suc i) h = get_elem?-some xs i (omega arith)

  -- What a swap of two indices below the length does to a read.
  pub record Swapped (xs ys : List A) (i j : ℕ) : Type 0 where
    pub at_left : get_elem? ys i ≡ get_elem? xs j
    pub at_right : get_elem? ys j ≡ get_elem? xs i
    pub elsewhere : (k : ℕ) → ¬ (i ≡ k) → ¬ (j ≡ k) → get_elem? ys k ≡ get_elem? xs k

  pub swap-Swapped :
      (xs : List A) (i j : ℕ) → i < length xs → j < length xs → Swapped xs (swap xs i j) i j
  unfolding swap
  swap-Swapped xs i j hi hj =
      let (x, ex) = get_elem?-some xs i hi in
      let (y, ey) = get_elem?-some xs j hj in
      let (z, ez) = get_elem?-some (set xs i y) j (omega (arith, length-set xs i y)) in
      let shape : swap xs i j ≡ set (set xs i y) j x = rw (ex, ey) refl in
      record {
        at_left = ap (λ l. get_elem? l i) shape ∙ left x y ex ey ez ∙ sym ey;
        at_right = ap (λ l. get_elem? l j) shape ∙ get_elem?-set-some (set xs i y) j x ez ∙ sym ex;
        elsewhere = λ k ni nj.
            ap (λ l. get_elem? l k) shape
            ∙ get_elem?-set_ne (set xs i y) j k x nj
            ∙ get_elem?-set_ne xs i k y ni;
      }
    where
      left :
          (x y : A) {z : A}
          → get_elem? xs i ≡ some x
          → get_elem? xs j ≡ some y
          → get_elem? (set xs i y) j ≡ some z
          → get_elem? (set (set xs i y) j x) i ≡ some y
      left x y ex ey ez = elim (ℕ_discrete i j) [
        | yes same ↦
            ap (get_elem? (set (set xs i y) j x)) same
            ∙ get_elem?-set-some (set xs i y) j x ez
            ∙ sym ex
            ∙ ap (get_elem? xs) same
            ∙ ey
        | no n ↦ get_elem?-set_ne (set xs i y) j i x (λ e. n (sym e)) ∙ get_elem?-set-some xs i y ex
      ]

module _ {A : Type 0} (less : A → A → Bool) where
  -- The element at `c` is not less than the one at `i`.
  abbrev pub Keeps : List A → ℕ → ℕ → Type 0
  Keeps xs i c = less_at less xs c i ≡ false

  -- Below `n`, no element is less than the one at its parent index.
  abbrev pub IsHeap : List A → ℕ → Type 0
  IsHeap xs n = (c : ℕ) → 0 < c → c < n → Keeps xs ((c - 1) / 2) c

  pub less_at-cong :
      (xs ys : List A) (a b c d : ℕ)
      → get_elem? ys a ≡ get_elem? xs c
      → get_elem? ys b ≡ get_elem? xs d
      → less_at less xs c d ≡ false
      → less_at less ys a b ≡ false
  less_at-cong xs ys a b c d e f h = ap₂ (less_values less) e f ∙ h

  module _ (order : IsOrder less) where
    pub Keeps-trans :
        (xs : List A) (i j k : ℕ) → j < length xs → Keeps xs i j → Keeps xs j k → Keeps xs i k
    Keeps-trans xs i j k hj h g =
        let (y, ey) = get_elem?-some xs j hj in
        go (get_elem? xs i) y (get_elem? xs k)
          (ap (λ o. less_values less o (get_elem? xs i)) (sym ey) ∙ h)
          (ap (less_values less (get_elem? xs k)) (sym ey) ∙ g)
      where
        go :
            (ox : Option A) (y : A) (oz : Option A)
            → less_values less (some y) ox ≡ false
            → less_values less oz (some y) ≡ false
            → less_values less oz ox ≡ false
        go none y none h g = refl
        go none y (some z) h g = refl
        go (some x) y none h g = refl
        go (some x) y (some z) h g = order.trans x y z h g

    pub Keeps-asym : (xs : List A) (i j : ℕ) → less_at less xs j i ≡ true → Keeps xs j i
    Keeps-asym xs i j h = go (get_elem? xs i) (get_elem? xs j) h
      where
        go : (ox oy : Option A) → less_values less oy ox ≡ true → less_values less ox oy ≡ false
        go none none h = refl
        go none (some y) h = refl
        go (some x) none h = refl
        go (some x) (some y) h = order.asym y x h
