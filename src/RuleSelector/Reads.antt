-- ===== src/RuleSelector/Reads.antt =====
-- When a pattern reads a text, as `matchNode` of pkg/table-rule-selector/trie_selector.go goes
-- through them both.
use mathlib.Core.Path.{subst}
use tidb_tools.Prelude.{
  ℕ, zero, suc, ◌==◌, ◌≡◌, ◌⊎◌, refl, ◌∙◌, sym, ap, Bool, true, false, ◌&&◌, List, [], ◌∷◌, ◌++◌,
  arith, Bool-cases, inl, inr, if◌then◌else◌, In, In-append_left, In-append_right, In-append,
}
use tidb_tools.RuleSelector.Pattern.{
  Bytes, RangeItem, equal, match_char, Token, star, any, range, char, rune_rest,
}
use tidb_tools.RuleSelector.Trie.{
  Node, node, Slot, absent, present, Item, Ranges, no_ranges, range_item, child, get_range,
  get_item, items, if_last, match_slot, match_ranges, ranges_of, match_node,
}
use tidb_tools.RuleSelector.Equal.{equal_self, equal_sym, match_char-equal, equal_trans}
use tidb_tools.RuleSelector.Paths.{item_from, below, item_from-cons}
use tidb_tools.RuleSelector.Distinct.{
  IsDistinct, RangesDistinct, apart, child-IsDistinct, present_at-ItemDistinct,
  ranges_of-RangesDistinct,
}

-- When a pattern may end, where the text does.
abbrev pub ends : List Token → Bool
ends [] = true
ends (star ∷ []) = true
ends _ = false

-- When a pattern reads a text, byte by byte. The number counts the bytes to be passed over: those
-- that follow a literal first byte of a character.
unfoldable pub reads : List Token → ℕ → Bytes → Bool
reads ts k [] = ends ts
reads ts (suc k) (c ∷ cs) = reads ts k cs
reads [] zero (c ∷ cs) = false
reads (star ∷ ts) zero (c ∷ cs) = ends (star ∷ ts)
reads (any ∷ ts) zero (c ∷ cs) = reads ts zero cs
reads (range r ∷ ts) zero (c ∷ cs) = match_char r c && reads ts zero cs
reads (char d ∷ ts) zero (c ∷ cs) = d == c && reads ts (rune_rest c cs) cs

self : (c : ℕ) → (c == c) ≡ true
self c = ground arith

module _ {A : Type 0} where
  items-In : (x : Item A) (s : Slot A) → In x (items s) → s ≡ present x
  items-In x absent h = absurd h
  items-In x (present i) (inl e) = ap present (sym e)
  items-In x (present i) (inr h) = absurd h

  pub In-items : (x : Item A) (s : Slot A) → s ≡ present x → In x (items s)
  In-items x s e = subst (λ s. In x (items s)) (sym e) (inl refl)

  present-inj : (i j : Item A) → present i ≡ present j → i ≡ j
  present-inj i j e = cc

  below_nil : (x : Item A) (s : Slot A) → s ≡ present x → below s [] ≡ present x
  unfolding item_from
  below_nil x s e = rw e

  below_nil-eq : (x : Item A) (s : Slot A) → below s [] ≡ present x → s ≡ present x
  unfolding item_from
  below_nil-eq x absent e = e
  below_nil-eq x (present i) e = e

  -- A match that ends here or goes on below is a match from the item on.
  pub if_last-match_node :
      (i : Item A) (cs : Bytes)
      → if_last cs i ++ match_node (child i) absent zero cs
        ≡ match_node (child i) (present i) zero cs
  unfolding match_node
  if_last-match_node i [] = refl
  if_last-match_node i (c ∷ cs) = refl

  match_slot-found :
      (x : Item A) (f : Item A → List (Item A)) (s : Slot A)
      → In x (match_slot f s)
      → (i : Item A) × (s ≡ present i) × In x (f i)
  unfolding match_slot
  match_slot-found x f absent h = absurd h
  match_slot-found x f (present i) h = (i, refl, h)

  pub match_slot-finds :
      (x : Item A) (f : Item A → List (Item A)) (s : Slot A) (i : Item A)
      → s ≡ present i
      → In x (f i)
      → In x (match_slot f s)
  unfolding match_slot
  match_slot-finds x f s i e h = subst (λ s. In x (match_slot f s)) (sym e) h

  apart-get_range :
      (q r : RangeItem) (i : Item A) (rs : Ranges A)
      → apart q rs ≡ true
      → get_range r rs ≡ present i
      → equal r q ≡ false
  unfolding apart get_range
  apart-get_range q r i no_ranges a e = cc
  apart-get_range q r i (range_item s j rs) a e =
      ground (arith, apart-get_range q r i rs, equal_sym r q, equal_trans q r s)

  match_ranges-found :
      (x : Item A) (f : Item A → List (Item A)) (c : ℕ) (rs : Ranges A)
      → RangesDistinct rs
      → In x (match_ranges f c rs)
      → (r : RangeItem) × (i : Item A) × (get_range r rs ≡ present i)
        × (match_char r c ≡ true)
        × In x (f i)
  unfolding match_ranges get_range IsDistinct
  match_ranges-found x f c no_ranges d h = absurd h
  match_ranges-found x f c (range_item q i rs) (a, _, d) h =
      elim (In-append x (if match_char q c then f i else []) (match_ranges f c rs) h) [
        | inl g ↦ elim (Bool-cases (match_char q c)) [
          | inl m ↦ (q, i, rw (equal_self q), m, rw m at g)
          | inr m ↦ absurd (rw m at g)
        ]
        | inr g ↦
            let (r, j, e, m, k) = match_ranges-found x f c rs d g in
            (r, j, rw (apart-get_range q r j rs a e) e, m, k)
      ]

  pub match_ranges-finds :
      (x : Item A) (f : Item A → List (Item A)) (c : ℕ) (rs : Ranges A) (r : RangeItem) (i : Item A)
      → get_range r rs ≡ present i
      → match_char r c ≡ true
      → In x (f i)
      → In x (match_ranges f c rs)
  unfolding match_ranges get_range
  match_ranges-finds x f c no_ranges r i e m h = cc
  match_ranges-finds x f c (range_item q j rs) r i e m h = elim (Bool-cases (equal r q)) [
    | inl s ↦ In-append_left x (if match_char q c then f j else []) (match_ranges f c rs) (
        rw (sym (match_char-equal r q c s) ∙ m)
          (subst (λ i. In x (f i)) (sym (present-inj j i (rw s at e))) h))
    | inr s ↦
        In-append_right x (if match_char q c then f j else []) (match_ranges f c rs)
          (match_ranges-finds x f c rs r i (rw s at e) m h)
  ]

  pub get_item-range :
      (r : RangeItem) (n : Node A) → get_item (range r) n ≡ get_range r (ranges_of n)
  unfolding get_item
  get_item-range r (node cs a q rs) = refl

  item_from_next :
      (e : Slot A) (n : Node A) (t : Token) (ts : List Token) (i : Item A) (s : Slot A)
      → get_item t n ≡ present i
      → item_from (present i) (child i) ts ≡ s
      → item_from e n (t ∷ ts) ≡ s
  item_from_next e n t ts i s p q = item_from-cons e n t ts ∙ ap (λ s. below s ts) p ∙ q

  -- One round: the asterisk, or a place that takes the byte and an item that goes on behind it.
  round-found :
      (n : Node A) (c : ℕ) (cs : Bytes) (x : Item A)
      → IsDistinct n
      → In x (match_node n absent zero (c ∷ cs))
      → (get_item star n ≡ present x)
        ⊎ ((t : Token) × (i : Item A) × (k : ℕ) × (get_item t n ≡ present i)
            × In x (match_node (child i) (present i) k cs)
            × ((w : List Token) → reads (t ∷ w) zero (c ∷ cs) ≡ reads w k cs))
  unfolding match_node reads
  round-found n c cs x d h =
      let rest = λ (i : Item A). if_last cs i ++ match_node (child i) absent zero cs in
      let along = λ (i : Item A). match_node (child i) (present i) (rune_rest c cs) cs in
      let slot = match_slot rest (get_item any n) in
      let ranges = match_ranges rest c (ranges_of n) in
      elim (In-append x (items (get_item star n))
        (slot ++ (ranges ++ match_slot along (get_item (char c) n))) h) [
          | inl g ↦ inl (items-In x _ g)
          | inr g ↦ elim (In-append x slot (ranges ++ match_slot along (get_item (char c) n)) g) [
            | inl g ↦
                let (i, p, q) = match_slot-found x rest (get_item any n) g in
                inr (any, i, zero, p, subst (In x) (if_last-match_node i cs) q, λ w. refl)
            | inr g ↦ elim (In-append x ranges (match_slot along (get_item (char c) n)) g) [
              | inl g ↦
                  let (r, i, p, m, q) =
                    match_ranges-found x rest c (ranges_of n) (ranges_of-RangesDistinct n d) g in
                  inr (
                    range r,
                    i,
                    zero,
                    get_item-range r n ∙ p,
                    subst (In x) (if_last-match_node i cs) q,
                    λ w. rw m,
                  )
              | inr g ↦
                  let (i, p, q) = match_slot-found x along (get_item (char c) n) g in
                  inr (char c, i, rune_rest c cs, p, q, λ w. rw (self c))
            ]
          ]
        ]

  -- Whatever `matchNode` finds is the item of a pattern that reads the text.
  pub match_node-found :
      (s : Bytes) (k : ℕ) (n : Node A) (e : Slot A) (x : Item A)
      → IsDistinct n
      → In x (match_node n e k s)
      → (w : List Token) × (item_from e n w ≡ present x) × (reads w k s ≡ true)
  unfolding match_node reads item_from
  match_node-found [] k n e x d h = elim (In-append x (items e) (items (get_item star n)) h) [
    | inl g ↦ ([], items-In x e g, refl)
    | inr g ↦ (star ∷ [], item_from-cons e n star [] ∙ below_nil x _ (items-In x _ g), refl)
  ]
  match_node-found (c ∷ cs) (suc k) n e x d h = match_node-found cs k n e x d h
  match_node-found (c ∷ cs) zero n e x d h = elim (round-found n c cs x d h) [
    | inl g ↦ (star ∷ [], item_from-cons e n star [] ∙ below_nil x _ g, refl)
    | inr (t, i, k, p, q, m) ↦
        let (w, u, v) =
          match_node-found cs k (child i) (present i) x
            (child-IsDistinct i (present_at-ItemDistinct t n i p d)) q in
        (t ∷ w, item_from_next e n t w i _ p u, m w ∙ v)
  ]
