-- ===== src/RuleSelector/Tracks.antt =====
-- What `track` of pkg/table-rule-selector/trie_selector.go finds, and what `Remove` changes there.
use tidb_tools.Prelude.{
  ◌≡◌, ◌⊎◌, refl, ◌∙◌, sym, ap, Bool, true, false, List, [], ◌∷◌, Option, none, some, arith,
  Bool-cases, inl, inr, if◌then◌else◌,
}
use tidb_tools.RuleSelector.Pattern.{Bytes, Token}
use tidb_tools.RuleSelector.Trie.{
  Node, Slot, present, Item, nil, absent, child, Payload, set_child, get_item, set_item, Error,
  not_found, not_valid, is_star, change_item, track,
}
use tidb_tools.RuleSelector.Paths.{
  valid_word, same_word, item_from, item_at, below, item_from-cons, payload_of, item_from-same_word,
}
use tidb_tools.RuleSelector.Changes.{changed_at, item_from_single, set_last, set_next}
use tidb_tools.RuleSelector.Walks.{not_star, rest_valid, same_payload, changed_at-same_payload}

pub Slot-cases : {A : Type 0} (s : Slot A) → (s ≡ absent) ⊎ ((i : Item A) × (s ≡ present i))
Slot-cases absent = inl refl
Slot-cases (present i) = inr (i, refl)

if_true : (b c : Bool) → c ≡ true → (if b then c else true) ≡ true
if_true true c h = h
if_true false c h = refl

-- An error was returned.
abbrev pub failed : Option Error → Bool
failed none = false
failed (some e) = true

-- One round of the loop of `track`.
module _ {A : Type 0} (change : Payload A → Payload A × Option Error) (pattern : Bytes) (n : Node A)
    (t : Token) where
  pub track-absent :
      (ts : List Token)
      → get_item t n ≡ absent
      → track change pattern n (t ∷ ts) ≡ (n, some (not_found pattern))
  unfolding track
  track-absent [] h = rw (h, track)
  track-absent (u ∷ us) h = rw (h, track)

  pub track-present :
      (i : Item A)
      → get_item t n ≡ present i
      → track change pattern n (t ∷ [])
        ≡ (set_item t (change_item change i).0 n, (change_item change i).1)
  unfolding track
  track-present i h = rw (h, track)

  pub track-next :
      (i : Item A) (u : Token) (us : List Token)
      → get_item t n ≡ present i
      → track change pattern n (t ∷ u ∷ us) ≡ (
          if is_star t then (n, some (not_valid pattern)) else (
            set_item t (set_child i (track change pattern (child i) (u ∷ us)).0) n,
            (track change pattern (child i) (u ∷ us)).1,
          ))
  unfolding track
  track-next i u us h = rw (h, track)

module _ {A : Type 0} (change : Payload A → Payload A × Option Error) where
  module _ (keeps : (change ([], nil)).0 ≡ ([], nil)) where
    -- Where nothing is found, there is nothing to change.
    changed_at-absent :
        (n : Node A) (t : Token) (ts : List Token)
        → get_item t n ≡ absent
        → (e : Slot A) (w : List Token)
        → changed_at change (t ∷ ts) n e w ≡ payload_of (item_from e n w)
    unfolding same_word
    changed_at-absent n t ts h e [] = refl
    changed_at-absent n t ts h e (v ∷ vs) = elim (Bool-cases (same_word (t ∷ ts) (v ∷ vs))) [
      | inl s ↦
          let nothing = ap payload_of (item_from-cons absent n t ts ∙ ap (λ s. below s ts) h) in
          rw s (
            ap (λ (p : Payload A). (change p).0) nothing
            ∙ keeps
            ∙ sym nothing
            ∙ ap payload_of (
                item_from-same_word absent n (t ∷ ts) (v ∷ vs) s
                ∙ item_from-cons absent n v vs
                ∙ sym (item_from-cons e n v vs)))
      | inr d ↦ rw d
    ]

    -- `Remove` of a valid pattern makes its change at that pattern and nowhere else.
    pub track-payload :
        (pattern : Bytes) (n : Node A) (t : Token) (ts : List Token)
        → valid_word (t ∷ ts) ≡ true
        → (e : Slot A) (w : List Token)
        → payload_of (item_from e (track change pattern n (t ∷ ts)).0 w)
          ≡ changed_at change (t ∷ ts) n e w
    track-payload pattern n t [] v e w = elim (Slot-cases (get_item t n)) [
      | inl h ↦ rw (track-absent change pattern n t [] h) (sym (changed_at-absent n t [] h e w))
      | inr (i, h) ↦ rw (track-present change pattern n t i h) (
          set_last change e n t i w (ap payload_of (sym h))
            (λ us. ap (λ s. payload_of (below s us)) (sym h)))
    ]
    track-payload pattern n t (u ∷ us) v e w = elim (Slot-cases (get_item t n)) [
      | inl h ↦
          rw (track-absent change pattern n t (u ∷ us) h)
            (sym (changed_at-absent n t (u ∷ us) h e w))
      | inr (i, h) ↦
          rw (track-next change pattern n t i u us h, not_star t _ v)
            (set_next change e n t i (track change pattern (child i) (u ∷ us)).0 u us w
              (ap payload_of (sym h)) (λ us. ap (λ s. payload_of (below s us)) (sym h))
              (track-payload pattern (child i) u us (rest_valid t _ v)))
    ]

  pub track-failed :
      failed (change ([], nil)).1 ≡ true
      → (pattern : Bytes) (n : Node A) (t : Token) (ts : List Token)
      → failed (track change pattern n (t ∷ ts)).1 ≡ (
          if valid_word (t ∷ ts) then failed (change (payload_of (item_at n (t ∷ ts)))).1 else true)
  track-failed fails pattern n t [] = elim (Slot-cases (get_item t n)) [
    | inl h ↦ rw (track-absent change pattern n t [] h) (
        sym (
          ap (λ (p : Payload A). failed (change p).1)
            (item_from_single absent n t ∙ ap payload_of h)
          ∙ fails))
    | inr (i, h) ↦ rw (track-present change pattern n t i h) (
        ap (λ (p : Payload A). failed (change p).1)
          (sym (item_from_single absent n t ∙ ap payload_of h)))
  ]
  track-failed fails pattern n t (u ∷ us) = elim (Slot-cases (get_item t n)) [
    | inl h ↦ rw (track-absent change pattern n t (u ∷ us) h) (
        sym (
          if_true (valid_word (t ∷ u ∷ us)) _ (
            ap (λ (p : Payload A). failed (change p).1)
              (ap payload_of (item_from-cons absent n t (u ∷ us) ∙ ap (λ s. below s (u ∷ us)) h))
            ∙ fails)))
    | inr (i, h) ↦ elim (Bool-cases (is_star t)) [
      | inl s ↦ rw (track-next change pattern n t i u us h, s)
      | inr s ↦
          rw (track-next change pattern n t i u us h, s)
            (track-failed fails pattern (child i) u us
              ∙ ap (λ (p : Payload A). if valid_word (u ∷ us) then failed (change p).1 else true)
                  (ap payload_of (
                    item_from-cons absent (child i) u us
                    ∙ sym (item_from-cons (present i) (child i) u us)
                    ∙ ap (λ s. below s (u ∷ us)) (sym h)
                    ∙ sym (item_from-cons absent n t (u ∷ us)))))
    ]
  ]

module _ {A : Type 0} where
  pub track_invalid :
      (change : Payload A → Payload A × Option Error) (pattern : Bytes) (n : Node A) (t : Token)
      (ts : List Token)
      → valid_word (t ∷ ts) ≡ false
      → (e : Slot A) (w : List Token)
      → payload_of (item_from e (track change pattern n (t ∷ ts)).0 w)
        ≡ payload_of (item_from e n w)
  track_invalid change pattern n t [] v e w = cc
  track_invalid change pattern n t (u ∷ us) v e w = elim (Slot-cases (get_item t n)) [
    | inl h ↦ rw (track-absent change pattern n t (u ∷ us) h)
    | inr (i, h) ↦ elim (Bool-cases (is_star t)) [
      | inl s ↦ rw (track-next change pattern n t i u us h, s)
      | inr s ↦
          rw (track-next change pattern n t i u us h, s)
            (set_next same_payload e n t i (track change pattern (child i) (u ∷ us)).0 u us w
                (ap payload_of (sym h)) (λ vs. ap (λ s. payload_of (below s vs)) (sym h))
                (λ f vs.
                  track_invalid change pattern (child i) u us (ground (arith, v, s)) f vs
                  ∙ sym (changed_at-same_payload (child i) u us f vs))
              ∙ changed_at-same_payload n t (u ∷ us) e w)
    ]
  ]
