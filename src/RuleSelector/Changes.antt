-- ===== src/RuleSelector/Changes.antt =====
-- One change of an item in the trie of pkg/table-rule-selector/trie_selector.go, as it is seen at
-- every pattern.
use tidb_tools.Prelude.{
  ◌≡◌, refl, ◌∙◌, sym, ap, true, List, [], ◌∷◌, Option, Bool-cases, inl, inr, if◌then◌else◌,
}
use tidb_tools.RuleSelector.Pattern.{Token}
use tidb_tools.RuleSelector.Trie.{
  Node, Slot, absent, present, Item, item, child, Payload, get_payload, set_payload, set_child,
  get_item, set_item, Error, change_item,
}
use tidb_tools.RuleSelector.Equal.{same_token}
use tidb_tools.RuleSelector.Paths.{
  same_word, get_item-set_item, get_item-same, item_from, item_at, below, item_from-cons,
  payload_of, item_from-payload,
}

module _ {A : Type 0} where
  pub item_from_single :
      (e : Slot A) (n : Node A) (t : Token)
      → payload_of (item_from e n (t ∷ [])) ≡ payload_of (get_item t n)
  unfolding item_from
  item_from_single e n t = ap payload_of (item_from-cons e n t []) ∙ go (get_item t n)
    where
      go : (s : Slot A) → payload_of (below s []) ≡ payload_of s
      go absent = refl
      go (present i) = refl

module _ {A : Type 0} (change : Payload A → Payload A × Option Error) where
  -- What the change of the item at one pattern leaves at another one.
  abbrev pub changed_at : List Token → Node A → Slot A → List Token → Payload A
  changed_at ts n e w =
      if same_word ts w
      then (change (payload_of (item_at n ts))).0
      else payload_of (item_from e n w)

  set_item-below :
      (t v : Token) (i : Item A) (e : Slot A) (n : Node A) (vs : List Token)
      → item_from e (set_item t i n) (v ∷ vs)
        ≡ (if same_token t v then below (present i) vs else item_from e n (v ∷ vs))
  set_item-below t v i e n vs = elim (Bool-cases (same_token t v)) [
    | inl s ↦ item_from-cons e _ v vs ∙ rw (get_item-set_item t v i n, s)
    | inr d ↦
        item_from-cons e _ v vs ∙ rw (get_item-set_item t v i n, d) (sym (item_from-cons e n v vs))
  ]

  payload-set_payload : (i : Item A) (p : Payload A) → get_payload (set_payload i p) ≡ p
  payload-set_payload (item c r n) p = refl

  payload-set_child : (i : Item A) (m : Node A) → get_payload (set_child i m) ≡ get_payload i
  payload-set_child (item c r n) m = refl

  below-set_payload :
      (i : Item A) (p : Payload A) (v : Token) (vs : List Token)
      → below (present (set_payload i p)) (v ∷ vs) ≡ below (present i) (v ∷ vs)
  below-set_payload (item c r n) p v vs = item_from-cons _ _ v vs ∙ sym (item_from-cons _ _ v vs)

  module _ (e : Slot A) (n : Node A) (t : Token) (i : Item A) where
    -- the change of the last item
    pub set_last :
        (w : List Token)
        → get_payload i ≡ payload_of (get_item t n)
        → ((us : List Token)
            → payload_of (below (present i) us) ≡ payload_of (below (get_item t n) us))
        → payload_of (item_from e (set_item t (change_item change i).0 n) w)
          ≡ changed_at (t ∷ []) n e w
    unfolding same_word item_from
    set_last [] p h = refl
    set_last (v ∷ []) p h =
        ap payload_of (set_item-below t v _ e n []) ∙ elim (Bool-cases (same_token t v)) [
          | inl s ↦ rw s (
              payload-set_payload i _
              ∙ ap (λ (p : Payload A). (change p).0) (p ∙ sym (item_from_single absent n t)))
          | inr d ↦ rw d
        ]
    set_last (v ∷ u ∷ us) p h =
        ap payload_of (set_item-below t v _ e n (u ∷ us)) ∙ elim (Bool-cases (same_token t v)) [
          | inl s ↦ rw s (
              ap payload_of (below-set_payload i _ u us)
              ∙ h (u ∷ us)
              ∙ ap (λ s. payload_of (below s (u ∷ us))) (get_item-same t v n s)
              ∙ sym (ap payload_of (item_from-cons e n v (u ∷ us))))
          | inr d ↦ rw d
        ]

    -- the change of a node on the way
    pub set_next :
        (m : Node A) (u : Token) (us w : List Token)
        → get_payload i ≡ payload_of (get_item t n)
        → ((vs : List Token)
            → payload_of (below (present i) vs) ≡ payload_of (below (get_item t n) vs))
        → ((f : Slot A) (vs : List Token)
            → payload_of (item_from f m vs) ≡ changed_at (u ∷ us) (child i) f vs)
        → payload_of (item_from e (set_item t (set_child i m) n) w) ≡ changed_at (t ∷ u ∷ us) n e w
    unfolding same_word item_from
    set_next m u us [] p h ih = refl
    set_next m u us (v ∷ vs) p h ih =
        ap payload_of (set_item-below t v _ e n vs) ∙ elim (Bool-cases (same_token t v)) [
          | inl s ↦ rw s (below-set_child m vs ∙ ih _ vs ∙ along s)
          | inr d ↦ rw d
        ]
      where
        below-set_child :
            (m : Node A) (vs : List Token)
            → payload_of (below (present (set_child i m)) vs)
              ≡ payload_of (item_from (present (set_child i m)) m vs)
        below-set_child m vs = go i
          where
            go :
                (i : Item A)
                → payload_of (below (present (set_child i m)) vs)
                  ≡ payload_of (item_from (present (set_child i m)) m vs)
            go (item c r k) = refl

        along :
            same_token t v ≡ true
            → changed_at (u ∷ us) (child i) (present (set_child i m)) vs ≡ (
                if same_word (u ∷ us) vs
                then (change (payload_of (item_at n (t ∷ u ∷ us)))).0
                else payload_of (item_from e n (v ∷ vs)))
        along s = elim (Bool-cases (same_word (u ∷ us) vs)) [
          | inl q ↦ rw q (
              ap (λ (p : Payload A). (change p).0)
                (ap payload_of (
                    item_from-cons absent (child i) u us
                    ∙ sym (item_from-cons (present i) (child i) u us))
                  ∙ h (u ∷ us)
                  ∙ sym (ap payload_of (item_from-cons absent n t (u ∷ us)))))
          | inr r ↦ rw r (
              item_from-payload _ (present i) (child i) vs (payload-set_child i m)
              ∙ h vs
              ∙ ap (λ s. payload_of (below s vs)) (get_item-same t v n s)
              ∙ sym (ap payload_of (item_from-cons e n v vs)))
        ]
