-- ===== src/RuleSelector/Inserts.antt =====
-- `Insert` and `Remove` of pkg/table-rule-selector/trie_selector.go change what the trie holds as
-- the store says.
use tidb_tools.Prelude.{
  ◌≡◌, refl, ◌∙◌, ap, Bool, true, false, ◌&&◌, List, [], ◌∷◌, Option, none, some, zero, Bool-cases,
  inl, inr, if◌then◌else◌,
}
use tidb_tools.RuleSelector.Pattern.{Bytes, Token, tokens}
use tidb_tools.RuleSelector.Trie.{Node, Level, nil, level, absent, node_of, Payload, Error, track}
use tidb_tools.RuleSelector.Paths.{valid_word, same_word, item_from-new_node}
use tidb_tools.RuleSelector.Tracks.{failed}
use tidb_tools.RuleSelector.Edits.{
  Edits, walk-Edits, track-Edits, ChangesBelow, op-rules_at, op-failed,
}
use tidb_tools.RuleSelector.Selector.{
  InsertType, inserts, replaces, appends, put_rule, put_table, reset_rule, reset_table,
}
use tidb_tools.RuleSelector.Store.{rules_of, same_table, inserted, removed, change_at}

if_same {ℓ} : {B : Type ℓ} {x : B} (b : Bool) → x ≡ (if b then x else x)
if_same true = refl
if_same false = refl

module _ {A : Type 0} where
  put_rule-inserted :
      (pattern : Bytes) (rule : A) (type : InsertType) (p : Payload A)
      → ((put_rule pattern rule type p).0 ≡ ((inserted rule type p.0).0, p.1))
        × (failed (put_rule pattern rule type p).1 ≡ (inserted rule type p.0).1)
  unfolding put_rule
  put_rule-inserted pattern rule inserts ([], n) = (refl, refl)
  put_rule-inserted pattern rule inserts (r ∷ rs, n) = (refl, refl)
  put_rule-inserted pattern rule replaces (rs, n) = (refl, refl)
  put_rule-inserted pattern rule appends (rs, n) = (refl, refl)

  reset_rule-removed :
      (pattern : Bytes) (p : Payload A)
      → ((reset_rule pattern p).0 ≡ ((removed p.0).0, p.1))
        × (failed (reset_rule pattern p).1 ≡ (removed p.0).1)
  unfolding reset_rule
  reset_rule-removed pattern ([], n) = (refl, refl)
  reset_rule-removed pattern (r ∷ rs, n) = (refl, refl)

  -- a change of the rules at the schema's item itself
  own-ChangesBelow :
      (change : Payload A → Payload A × Option Error) (f : List A → List A × Bool)
      → ((p : Payload A) → ((change p).0 ≡ ((f p.0).0, p.1)) × (failed (change p).1 ≡ (f p.0).1))
      → ChangesBelow change f none
  own-ChangesBelow change f h = record {
    rules = λ p ws. ap (λ (q : Payload A). rules_of q ws) (h p).0 ∙ go p ws;
    error = λ p. (h p).1;
  }
    where
      go :
          (p : Payload A) (ws : Option (List Token))
          → rules_of ((f p.0).0, p.1) ws
            ≡ (if same_table none ws then (f (rules_of p none)).0 else rules_of p ws)
      go p none = refl
      go p (some ws) = refl

  module _ {change : Payload A → Payload A × Option Error}
      {op : Node A → List Token → Node A × Option Error} (law : Edits change op)
      (f : List A → List A × Bool) (own : ChangesBelow change f none) (rs : List A) (l : Level A)
      (u : Token) (us : List Token) where
    -- a change of the rules at a table's item, as it is seen from the schema's
    table-rules :
        (ws : Option (List Token))
        → rules_of (rs, level (op (node_of l) (u ∷ us)).0) ws ≡ (
            if valid_word (u ∷ us)
            then (if same_table (some (u ∷ us)) ws
                then (f (rules_of (rs, l) (some (u ∷ us)))).0
                else rules_of (rs, l) ws)
            else rules_of (rs, l) ws)
    table-rules none = elim (Bool-cases (valid_word (u ∷ us))) [ inl v ↦ rw v | inr v ↦ rw v ]
    table-rules (some w) =
        op-rules_at law f none own (node_of l) u us w none
        ∙ unfold change_at in
          elim (Bool-cases (valid_word (u ∷ us))) [
            | inl v ↦ rw v (and_true _ _ (same_word (u ∷ us) w))
            | inr v ↦ rw v
          ]
      where
        and_true : (x y : List A) (b : Bool) → (if b && true then x else y) ≡ (if b then x else y)
        and_true x y true = refl
        and_true x y false = refl

    table-failed :
        failed (op (node_of l) (u ∷ us)).1
        ≡ (if valid_word (u ∷ us) then (f (rules_of (rs, l) (some (u ∷ us)))).1 else true)
    table-failed =
        op-failed law f none own (node_of l) u us
        ∙ unfold change_at in
          elim (Bool-cases (valid_word (u ∷ us))) [ inl v ↦ rw v | inr v ↦ rw v ]

  pub put_schema-ChangesBelow :
      (pattern : Bytes) (rule : A) (type : InsertType)
      → ChangesBelow (put_rule pattern rule type) (inserted rule type) none
  put_schema-ChangesBelow pattern rule type =
      own-ChangesBelow _ (inserted rule type) (put_rule-inserted pattern rule type)

  pub reset_schema-ChangesBelow :
      (pattern : Bytes) → ChangesBelow (reset_rule {A = A} pattern) removed none
  reset_schema-ChangesBelow pattern = own-ChangesBelow _ removed (reset_rule-removed pattern)

  pub put_table-ChangesBelow :
      (table : Bytes) (rule : A) (type : InsertType) (u : Token) (us : List Token)
      → tokens zero table ≡ u ∷ us
      → ChangesBelow (put_table table rule type) (inserted rule type) (some (u ∷ us))
  unfolding put_table
  put_table-ChangesBelow table rule type u us e = record {
    rules = λ p ws. rw e (
        table-rules (walk-Edits (put_rule table rule type) table) (inserted rule type)
          (put_schema-ChangesBelow table rule type) p.0 p.1 u us ws);
    error = λ p. rw e (
        table-failed (walk-Edits (put_rule table rule type) table) (inserted rule type)
          (put_schema-ChangesBelow table rule type) p.0 p.1 u us);
  }

  pub reset_rule-Edits :
      (pattern : Bytes) → Edits (reset_rule {A = A} pattern) (track (reset_rule pattern) pattern)
  unfolding reset_rule
  reset_rule-Edits pattern = track-Edits (reset_rule pattern) pattern refl refl

  no_table : (rs : List A) (w : List Token) → rules_of (rs, nil) (some w) ≡ []
  no_table rs w = ap (λ (p : Payload A). p.0) (item_from-new_node absent w refl)

  pub reset_table-ChangesBelow :
      (table : Bytes) (u : Token) (us : List Token)
      → tokens zero table ≡ u ∷ us
      → ChangesBelow (reset_table {A = A} table) removed (some (u ∷ us))
  unfolding reset_table
  reset_table-ChangesBelow table u us e = record { rules = rules; error = error }
    where
      unchanged :
          (rs : List A) (ws : Option (List Token))
          → rules_of (rs, nil) ws ≡ (
              if same_table (some (u ∷ us)) ws
              then (removed (rules_of (rs, nil) (some (u ∷ us)))).0
              else rules_of (rs, nil) ws)
      unchanged rs none = refl
      unchanged rs (some w) =
          rw (no_table rs w, no_table rs (u ∷ us)) (if_same (same_word (u ∷ us) w))

      rules :
          (p : Payload A) (ws : Option (List Token))
          → rules_of (reset_table table p).0 ws ≡ (
              if valid_word (u ∷ us)
              then (if same_table (some (u ∷ us)) ws
                  then (removed (rules_of p (some (u ∷ us)))).0
                  else rules_of p ws)
              else rules_of p ws)
      rules (rs, nil) ws = elim (Bool-cases (valid_word (u ∷ us))) [
        | inl v ↦ rw v (unchanged rs ws)
        | inr v ↦ rw v
      ]
      rules (rs, level m) ws = rw e (
          table-rules (reset_rule-Edits table) removed (reset_schema-ChangesBelow table) rs
            (level m) u us ws)

      error :
          (p : Payload A)
          → failed (reset_table table p).1
            ≡ (if valid_word (u ∷ us) then (removed (rules_of p (some (u ∷ us)))).1 else true)
      error (rs, nil) = rw (no_table rs (u ∷ us)) (if_same (valid_word (u ∷ us)))
      error (rs, level m) = rw e (
          table-failed (reset_rule-Edits table) removed (reset_schema-ChangesBelow table) rs
            (level m) u us)
