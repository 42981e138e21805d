-- ===== src/RuleSelector/Walks.antt =====
-- What `insert` of pkg/table-rule-selector/trie_selector.go changes in the trie.
use tidb_tools.Prelude.{
  ◌≡◌, refl, ◌∙◌, sym, ap, Bool, true, false, not, ◌&&◌, List, [], ◌∷◌, Option, none, some, arith,
  Bool-cases, inl, inr, if◌then◌else◌,
}
use tidb_tools.RuleSelector.Pattern.{Bytes, Token}
use tidb_tools.RuleSelector.Trie.{
  Node, Slot, present, Item, item, absent, child, Payload, get_payload, set_payload, get_item,
  set_item, open_item, Error, not_valid, is_star, walk,
}
use tidb_tools.RuleSelector.Paths.{
  valid_word, same_word, item_from, item_at, item_from-cons, payload_of, payload_of-open_item,
  below-open_item, item_from-same_word,
}
use tidb_tools.RuleSelector.Changes.{changed_at, item_from_single, set_last, set_next}

pub not_star : (t : Token) (b : Bool) → (not (is_star t) && b) ≡ true → is_star t ≡ false
not_star t b h = ground arith

pub rest_valid : (t : Token) (b : Bool) → (not (is_star t) && b) ≡ true → b ≡ true
rest_valid t b h = ground arith

module _ {A : Type 0} (change : Payload A → Payload A × Option Error) where
  -- `insert` of a valid pattern makes its change at that pattern and nowhere else.
  pub walk-payload :
      (pattern : Bytes) (n : Node A) (t : Token) (ts : List Token)
      → valid_word (t ∷ ts) ≡ true
      → (e : Slot A) (w : List Token)
      → payload_of (item_from e (walk change pattern n (t ∷ ts)).0 w)
        ≡ changed_at change (t ∷ ts) n e w
  unfolding walk
  walk-payload pattern n t [] v e w =
      set_last change e n t (open_item (get_item t n)) w (payload_of-open_item (get_item t n))
        (below-open_item (get_item t n))
  walk-payload pattern n t (u ∷ us) v e w =
      let i = open_item (get_item t n) in
      rw (not_star t _ v) (
        set_next change e n t i (walk change pattern (child i) (u ∷ us)).0 u us w
          (payload_of-open_item (get_item t n)) (below-open_item (get_item t n))
          (walk-payload pattern (child i) u us (rest_valid t _ v)))

  item_at-open_item :
      (n : Node A) (t u : Token) (us : List Token)
      → payload_of (item_at (child (open_item (get_item t n))) (u ∷ us))
        ≡ payload_of (item_at n (t ∷ u ∷ us))
  item_at-open_item n t u us =
      let i = open_item (get_item t n) in
      ap payload_of
        (item_from-cons absent (child i) u us ∙ sym (item_from-cons (present i) (child i) u us))
      ∙ below-open_item (get_item t n) (u ∷ us)
      ∙ sym (ap payload_of (item_from-cons absent n t (u ∷ us)))

  pub walk-error :
      (pattern : Bytes) (n : Node A) (t : Token) (ts : List Token)
      → (walk change pattern n (t ∷ ts)).1 ≡ (
          if valid_word (t ∷ ts)
          then (change (payload_of (item_at n (t ∷ ts)))).1
          else some (not_valid pattern))
  unfolding walk
  walk-error pattern n t [] =
      ap (λ (p : Payload A). (change p).1)
        (payload_of-open_item (get_item t n) ∙ sym (item_from_single absent n t))
  walk-error pattern n t (u ∷ us) = elim (Bool-cases (is_star t)) [
    | inl s ↦ rw s
    | inr s ↦ rw s (
        rw (walk-error pattern (child (open_item (get_item t n))) u us, item_at-open_item n t u us))
  ]

-- A change that changes nothing.
abbrev pub same_payload : {A : Type 0} → Payload A → Payload A × Option Error
same_payload p = (p, none)

module _ {A : Type 0} where
  pub changed_at-same_payload :
      (n : Node A) (t : Token) (ts : List Token) (e : Slot A) (w : List Token)
      → changed_at same_payload (t ∷ ts) n e w ≡ payload_of (item_from e n w)
  unfolding same_word
  changed_at-same_payload n t ts e [] = refl
  changed_at-same_payload n t ts e (v ∷ vs) = elim (Bool-cases (same_word (t ∷ ts) (v ∷ vs))) [
    | inl s ↦ rw s (
        ap payload_of (
          item_from-same_word absent n (t ∷ ts) (v ∷ vs) s
          ∙ item_from-cons absent n v vs
          ∙ sym (item_from-cons e n v vs)))
    | inr d ↦ rw d
  ]

  set_payload_self : (i : Item A) → set_payload i (get_payload i) ≡ i
  set_payload_self (item c r n) = refl

  -- An item that is only opened is as it was.
  set_open_item :
      (e : Slot A) (n : Node A) (t : Token) (w : List Token)
      → payload_of (item_from e (set_item t (open_item (get_item t n)) n) w)
        ≡ payload_of (item_from e n w)
  set_open_item e n t w =
      ap (λ i. payload_of (item_from e (set_item t i n) w))
        (sym (set_payload_self (open_item (get_item t n))))
      ∙ set_last same_payload e n t (open_item (get_item t n)) w
          (payload_of-open_item (get_item t n)) (below-open_item (get_item t n))
      ∙ changed_at-same_payload n t [] e w

  pub walk_invalid :
      (change : Payload A → Payload A × Option Error) (pattern : Bytes) (n : Node A) (t : Token)
      (ts : List Token)
      → valid_word (t ∷ ts) ≡ false
      → (e : Slot A) (w : List Token)
      → payload_of (item_from e (walk change pattern n (t ∷ ts)).0 w) ≡ payload_of (item_from e n w)
  unfolding walk
  walk_invalid change pattern n t [] v e w = cc
  walk_invalid change pattern n t (u ∷ us) v e w = elim (Bool-cases (is_star t)) [
    | inl s ↦ rw s (set_open_item e n t w)
    | inr s ↦
        let i = open_item (get_item t n) in
        rw s (
          set_next same_payload e n t i (walk change pattern (child i) (u ∷ us)).0 u us w
            (payload_of-open_item (get_item t n)) (below-open_item (get_item t n))
            (λ f vs.
              walk_invalid change pattern (child i) u us (ground (arith, v, s)) f vs
              ∙ sym (changed_at-same_payload (child i) u us f vs))
          ∙ changed_at-same_payload n t (u ∷ us) e w)
  ]
