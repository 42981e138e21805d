-- ===== src/RuleSelector/Finds.antt =====
-- `matchNode` of pkg/table-rule-selector/trie_selector.go finds the items of the patterns that read
-- a text.
use mathlib.Core.Path.{subst}
use tidb_tools.Prelude.{
  ℕ, zero, suc, ◌≡◌, refl, ◌∙◌, sym, Bool, true, ◌&&◌, List, [], ◌∷◌, arith, ==_iff, In,
  In-append_left, In-append_right,
}
use tidb_tools.RuleSelector.Pattern.{
  Bytes, RangeItem, match_char, Token, star, any, range, char, rune_rest,
}
use tidb_tools.RuleSelector.Trie.{
  Node, Slot, absent, present, Item, child, get_item, items, match_slot, match_ranges, ranges_of,
  match_node,
}
use tidb_tools.RuleSelector.Paths.{item_from, below, item_from-cons}
use tidb_tools.RuleSelector.Reads.{
  reads, In-items, if_last-match_node, match_slot-finds, match_ranges-finds, get_item-range,
}

and_left : (a b : Bool) → (a && b) ≡ true → a ≡ true
and_left a b h = ground arith

and_right : (a b : Bool) → (a && b) ≡ true → b ≡ true
and_right a b h = ground arith

module _ {A : Type 0} where
  item_from_first :
      (e : Slot A) (n : Node A) (t : Token) (ts : List Token) (x : Item A)
      → item_from e n (t ∷ ts) ≡ present x
      → (i : Item A) × (get_item t n ≡ present i) × (item_from (present i) (child i) ts ≡ present x)
  item_from_first e n t ts x h = go (get_item t n) refl (sym (item_from-cons e n t ts) ∙ h)
    where
      go :
          (s : Slot A)
          → get_item t n ≡ s
          → below s ts ≡ present x
          → (i : Item A) × (get_item t n ≡ present i)
            × (item_from (present i) (child i) ts ≡ present x)
      go absent p q = cc
      go (present i) p q = (i, p, q)

  module _ (n : Node A) (e : Slot A) (c : ℕ) (cs : Bytes) (x : Item A) where
    round-finds_star : get_item star n ≡ present x → In x (match_node n e zero (c ∷ cs))
    unfolding match_node
    round-finds_star p = In-append_left x (items (get_item star n)) _ (In-items x _ p)

    module _ (i : Item A) where
      round-finds_any :
          get_item any n ≡ present i
          → In x (match_node (child i) (present i) zero cs)
          → In x (match_node n e zero (c ∷ cs))
      unfolding match_node
      round-finds_any p h = In-append_right x (items (get_item star n)) _ (
          In-append_left x (match_slot _ (get_item any n)) _ (
            match_slot-finds x _ (get_item any n) i p
              (subst (In x) (sym (if_last-match_node i cs)) h)))

      round-finds_range :
          (r : RangeItem)
          → get_item (range r) n ≡ present i
          → match_char r c ≡ true
          → In x (match_node (child i) (present i) zero cs)
          → In x (match_node n e zero (c ∷ cs))
      unfolding match_node
      round-finds_range r p m h = In-append_right x (items (get_item star n)) _ (
          In-append_right x (match_slot _ (get_item any n)) _ (
            In-append_left x (match_ranges _ c (ranges_of n)) _ (
              match_ranges-finds x _ c (ranges_of n) r i (sym (get_item-range r n) ∙ p) m
                (subst (In x) (sym (if_last-match_node i cs)) h))))

      round-finds_char :
          get_item (char c) n ≡ present i
          → In x (match_node (child i) (present i) (rune_rest c cs) cs)
          → In x (match_node n e zero (c ∷ cs))
      unfolding match_node
      round-finds_char p h = In-append_right x (items (get_item star n)) _ (
          In-append_right x (match_slot _ (get_item any n)) _ (
            In-append_right x (match_ranges _ c (ranges_of n)) _
              (match_slot-finds x _ (get_item (char c) n) i p h)))

  -- `matchNode` finds the item of every pattern that reads the text.
  pub match_node-finds :
      (s : Bytes) (k : ℕ) (n : Node A) (e : Slot A) (x : Item A) (w : List Token)
      → item_from e n w ≡ present x
      → reads w k s ≡ true
      → In x (match_node n e k s)
  unfolding reads item_from match_node
  match_node-finds [] k n e x [] p q = In-append_left x (items e) _ (In-items x e p)
  match_node-finds [] k n e x (star ∷ []) p q =
      let (i, g, h) = item_from_first e n star [] x p in
      In-append_right x (items e) _ (In-items x (get_item star n) (g ∙ h))
  match_node-finds [] k n e x (_ ∷ _) p q = cc
  match_node-finds (c ∷ cs) (suc k) n e x w p q = match_node-finds cs k n e x w p q
  match_node-finds (c ∷ cs) zero n e x [] p q = cc
  match_node-finds (c ∷ cs) zero n e x (star ∷ []) p q =
      let (i, g, h) = item_from_first e n star [] x p in round-finds_star n e c cs x (g ∙ h)
  match_node-finds (c ∷ cs) zero n e x (star ∷ _ ∷ _) p q = cc
  match_node-finds (c ∷ cs) zero n e x (any ∷ ts) p q =
      let (i, g, h) = item_from_first e n any ts x p in
      round-finds_any n e c cs x i g (match_node-finds cs zero (child i) (present i) x ts h q)
  match_node-finds (c ∷ cs) zero n e x (range r ∷ ts) p q =
      let (i, g, h) = item_from_first e n (range r) ts x p in
      round-finds_range n e c cs x i r g (and_left _ _ q)
        (match_node-finds cs zero (child i) (present i) x ts h (and_right _ _ q))
  match_node-finds (c ∷ cs) zero n e x (char d ∷ ts) p q =
      let (i, g, h) = item_from_first e n (char d) ts x p in
      round-finds_char n e c cs x i
        (subst (λ d. get_item (char d) n ≡ present i) ((==_iff d c).0 (and_left _ _ q)) g)
        (match_node-finds cs (rune_rest c cs) (child i) (present i) x ts h (and_right _ _ q))
