-- ===== src/RuleSelector/Edits.antt =====
-- Changes of the trie of pkg/table-rule-selector/trie_selector.go, and what they do to the rules
-- that it holds.
use mathlib.Core.Path.{fun_ext}
use tidb_tools.Prelude.{
  ◌≡◌, refl, ◌∙◌, ap, Bool, true, false, List, [], ◌∷◌, Option, some, Bool-cases, inl, inr,
  if◌then◌else◌,
}
use tidb_tools.RuleSelector.Pattern.{Bytes, Token}
use tidb_tools.RuleSelector.Trie.{Node, Slot, nil, absent, Payload, Error, walk, track}
use tidb_tools.RuleSelector.Paths.{valid_word, same_word, item_at, payload_of, item_from-same_word}
use tidb_tools.RuleSelector.Changes.{changed_at}
use tidb_tools.RuleSelector.Walks.{walk-payload, walk-error, walk_invalid}
use tidb_tools.RuleSelector.Tracks.{failed, track-payload, track-failed, track_invalid}
use tidb_tools.RuleSelector.Store.{rules_of, rules_at, valid_table, same_table, change_at}

-- An operation that makes a change at the item of a valid pattern, and at no other.
pub record Edits {A : Type 0} (change : Payload A → Payload A × Option Error)
    (op : Node A → List Token → Node A × Option Error) : Type 0 where
  pub edits :
      (n : Node A) (t : Token) (ts : List Token)
      → valid_word (t ∷ ts) ≡ true
      → (w : List Token)
      → payload_of (item_at (op n (t ∷ ts)).0 w) ≡ changed_at change (t ∷ ts) n absent w
  pub keeps :
      (n : Node A) (t : Token) (ts : List Token)
      → valid_word (t ∷ ts) ≡ false
      → (w : List Token) → payload_of (item_at (op n (t ∷ ts)).0 w) ≡ payload_of (item_at n w)
  pub fails :
      (n : Node A) (t : Token) (ts : List Token)
      → failed (op n (t ∷ ts)).1 ≡ (
          if valid_word (t ∷ ts) then failed (change (payload_of (item_at n (t ∷ ts)))).1 else true)

module _ {A : Type 0} (change : Payload A → Payload A × Option Error) (pattern : Bytes) where
  pub walk-Edits : Edits change (walk change pattern)
  walk-Edits = record {
    edits = λ n t ts v w. walk-payload change pattern n t ts v absent w;
    keeps = λ n t ts v w. walk_invalid change pattern n t ts v absent w;
    fails = λ n t ts.
        ap failed (walk-error change pattern n t ts) ∙ if_failed (valid_word (t ∷ ts)) _ _;
  }
    where
      if_failed :
          (b : Bool) (o : Option Error) (e : Error)
          → failed (if b then o else some e) ≡ (if b then failed o else true)
      if_failed true o e = refl
      if_failed false o e = refl

  pub track-Edits :
      (change ([], nil)).0 ≡ ([], nil)
      → failed (change ([], nil)).1 ≡ true
      → Edits change (track change pattern)
  track-Edits same fails = record {
    edits = λ n t ts v w. track-payload change same pattern n t ts v absent w;
    keeps = λ n t ts v w. track_invalid change pattern n t ts v absent w;
    fails = λ n t ts. track-failed change fails pattern n t ts;
  }

module _ {A : Type 0} where
  -- What a change at a schema's item does to the rules there and below.
  pub record ChangesBelow (change : Payload A → Payload A × Option Error)
      (f : List A → List A × Bool) (us : Option (List Token)) : Type 0 where
    pub rules :
        (p : Payload A) (ws : Option (List Token))
        → rules_of (change p).0 ws ≡ (
            if valid_table us
            then (if same_table us ws then (f (rules_of p us)).0 else rules_of p ws)
            else rules_of p ws)
    pub error :
        (p : Payload A)
        → failed (change p).1 ≡ (if valid_table us then (f (rules_of p us)).1 else true)

  module _ (change : Payload A → Payload A × Option Error) (n : Node A) (ts vs : List Token) where
    changed_at-same :
        same_word ts vs ≡ true
        → changed_at change ts n absent vs ≡ (change (payload_of (item_at n ts))).0
    changed_at-same s = rw s

    changed_at-other :
        same_word ts vs ≡ false → changed_at change ts n absent vs ≡ payload_of (item_at n vs)
    changed_at-other s = rw s

  pub rules_at-same :
      (n : Node A) (ts vs : List Token) (ws : Option (List Token))
      → same_word ts vs ≡ true
      → rules_at n ts ws ≡ rules_at n vs ws
  rules_at-same n ts vs ws s =
      ap (λ (e : Slot A). rules_of (payload_of e) ws) (item_from-same_word absent n ts vs s)

  module _ {change : Payload A → Payload A × Option Error}
      {op : Node A → List Token → Node A × Option Error} (law : Edits change op)
      (f : List A → List A × Bool) (us : Option (List Token)) (inner : ChangesBelow change f us)
      (n : Node A) (t : Token) (ts : List Token) where
    pub op-rules_at :
        (vs : List Token) (ws : Option (List Token))
        → rules_at (op n (t ∷ ts)).0 vs ws ≡ (change_at f (rules_at n) (t ∷ ts) us).0 vs ws
    unfolding change_at
    op-rules_at vs ws =
        let read = λ (p : Payload A). rules_of p ws in
        elim (Bool-cases (valid_word (t ∷ ts))) [
          | inr v ↦ rw v (ap read (law.keeps n t ts v vs))
          | inl v ↦ elim (Bool-cases (same_word (t ∷ ts) vs)) [
            | inl s ↦
                ap read (law.edits n t ts v vs ∙ changed_at-same change n (t ∷ ts) vs s)
                ∙ inner.rules (payload_of (item_at n (t ∷ ts))) ws
                ∙ elim (Bool-cases (valid_table us)) [
                  | inl y ↦
                      rw (v, y, s)
                        (ap
                          (λ (r : List A).
                            if same_table us ws then (f (rules_at n (t ∷ ts) us)).0 else r)
                          (rules_at-same n (t ∷ ts) vs ws s))
                  | inr y ↦ rw (v, y) (rules_at-same n (t ∷ ts) vs ws s)
                ]
            | inr s ↦
                ap read (law.edits n t ts v vs ∙ changed_at-other change n (t ∷ ts) vs s)
                ∙ elim (Bool-cases (valid_table us)) [ inl y ↦ rw (v, y, s) | inr y ↦ rw (v, y) ]
          ]
        ]

    pub op-failed : failed (op n (t ∷ ts)).1 ≡ (change_at f (rules_at n) (t ∷ ts) us).1
    unfolding change_at
    op-failed = law.fails n t ts ∙ elim (Bool-cases (valid_word (t ∷ ts))) [
      | inl v ↦ rw v (
          inner.error (payload_of (item_at n (t ∷ ts)))
          ∙ elim (Bool-cases (valid_table us)) [ inl y ↦ rw y | inr y ↦ rw y ])
      | inr v ↦ rw v
    ]

    pub op-store :
        (rules_at (op n (t ∷ ts)).0 ≡ (change_at f (rules_at n) (t ∷ ts) us).0)
        × (failed (op n (t ∷ ts)).1 ≡ (change_at f (rules_at n) (t ∷ ts) us).1)
    op-store = (fun_ext (λ vs. fun_ext (λ ws. op-rules_at vs ws)), op-failed)
