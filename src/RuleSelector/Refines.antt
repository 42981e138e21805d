-- ===== src/RuleSelector/Refines.antt =====
-- `Insert` and `Remove` of pkg/table-rule-selector/trie_selector.go against the store.
use mathlib.Core.Path.{subst}
use tidb_tools.Prelude.{
  ℕ, ◌==◌, ◌≡◌, refl, ◌∙◌, sym, ap, Bool, true, false, List, [], ◌∷◌, Option, none, some, zero,
  Bool-cases, inl, inr,
}
use tidb_tools.RuleSelector.Pattern.{
  Bytes, RangeItem, Token, star, any, char, range, tokens, get_range_item,
}
use tidb_tools.RuleSelector.Trie.{Node, Payload, Error}
use tidb_tools.RuleSelector.Tracks.{failed}
use tidb_tools.RuleSelector.Selector.{
  InsertType, TrieSelector, put_rule, put_table, reset_table, after, insert, remove,
}
use tidb_tools.RuleSelector.Store.{
  rules_at, inserted, removed, change_at, table_word, store_insert, store_remove,
}
use tidb_tools.RuleSelector.Edits.{Edits, walk-Edits, track-Edits, ChangesBelow, op-store}
use tidb_tools.RuleSelector.Inserts.{
  put_schema-ChangesBelow, put_table-ChangesBelow, reset_schema-ChangesBelow,
  reset_table-ChangesBelow, reset_rule-Edits,
}

-- A pattern that is not empty has a first place.
pub tokens-cons :
    (c : ℕ) (cs : Bytes) → (t : Token) × (ts : List Token) × (tokens zero (c ∷ cs) ≡ t ∷ ts)
unfolding tokens
tokens-cons c cs = elim (Bool-cases (c == b'*')) [
  | inl e ↦ (star, tokens zero cs, rw e)
  | inr e ↦ elim (Bool-cases (c == b'?')) [
    | inl f ↦ (any, tokens zero cs, rw (e, f))
    | inr f ↦ elim (Bool-cases (c == b'[')) [
      | inl g ↦ go e f g (get_range_item cs) refl
      | inr g ↦ (char c, tokens zero cs, rw (e, f, g))
    ]
  ]
]
  where
    go :
        (c == b'*') ≡ false
        → (c == b'?') ≡ false
        → (c == b'[') ≡ true
        → (o : Option (RangeItem × ℕ)) → get_range_item cs ≡ o
        → (t : Token) × (ts : List Token) × (tokens zero (c ∷ cs) ≡ t ∷ ts)
    go e f g none h = (char c, tokens zero cs, rw (e, f, g, h))
    go e f g (some (r, k)) h = (range r, tokens k cs, rw (e, f, g, h))

module _ {A : Type 0} where
  -- What is asked of an operation that changes the trie at a schema's pattern.
  abbrev Refined :
      (List A → List A × Bool)
      → Node A
      → List Token
      → Option (List Token)
      → Node A × Option Error
      → Type 0
  Refined f n ts us r =
      (rules_at r.0 ≡ (change_at f (rules_at n) ts us).0)
      × (failed r.1 ≡ (change_at f (rules_at n) ts us).1)

  module _ {change : Payload A → Payload A × Option Error}
      {op : Node A → List Token → Node A × Option Error} (law : Edits change op)
      (f : List A → List A × Bool) (n : Node A) (c : ℕ) (cs : Bytes) where
    op-Refined :
        (us : Option (List Token))
        → ChangesBelow change f us
        → Refined f n (tokens zero (c ∷ cs)) us (op n (tokens zero (c ∷ cs)))
    op-Refined us inner =
        let (t, ts, e) = tokens-cons c cs in
        subst (λ ts. Refined f n ts us (op n ts)) (sym e) (op-store law f us inner n t ts)

    op-Refined_table :
        (d : ℕ) (ds : Bytes)
        → ((u : Token) (us : List Token)
            → tokens zero (d ∷ ds) ≡ u ∷ us
            → ChangesBelow change f (some (u ∷ us)))
        → Refined f n (tokens zero (c ∷ cs)) (table_word (d ∷ ds)) (op n (tokens zero (c ∷ cs)))
    op-Refined_table d ds inner =
        let (u, us, e) = tokens-cons d ds in
        subst (λ us. Refined f n (tokens zero (c ∷ cs)) (some us) (op n (tokens zero (c ∷ cs))))
          (sym e) (op-Refined (some (u ∷ us)) (inner u us e))

  pub after-root :
      (t : TrieSelector A) (r : Node A × Option Error)
      → ((after t r).0.root ≡ r.0) × ((after t r).1 ≡ r.1)
  unfolding after
  after-root t (n, none) = (refl, refl)
  after-root t (n, some e) = (refl, refl)

  after-Refined :
      (t : TrieSelector A) (f : List A → List A × Bool) (ts : List Token) (us : Option (List Token))
      (r : Node A × Option Error)
      → Refined f t.root ts us r
      → (rules_at (after t r).0.root ≡ (change_at f (rules_at t.root) ts us).0)
        × (failed (after t r).1 ≡ (change_at f (rules_at t.root) ts us).1)
  after-Refined t f ts us r (p, q) =
      (ap rules_at (after-root t r).0 ∙ p, ap failed (after-root t r).1 ∙ q)

  -- For every selector, schema, table, rule and kind of insertion: `Insert` leaves under each key
  -- the rules that the store has after the insertion, and fails exactly where the store does.
  pub insert-store_insert :
      (t : TrieSelector A) (schema table : Bytes) (rule : Option A) (type : InsertType)
      → (rules_at (insert t schema table rule type).0.root
          ≡ (store_insert (rules_at t.root) schema table rule type).0)
        × (failed (insert t schema table rule type).1
            ≡ (store_insert (rules_at t.root) schema table rule type).1)
  unfolding insert store_insert
  insert-store_insert t [] table rule type = (refl, refl)
  insert-store_insert t (s ∷ ss) table none type = (refl, refl)
  insert-store_insert t (s ∷ ss) [] (some rule) type =
      after-Refined t (inserted rule type) (tokens zero (s ∷ ss)) none _ (
        op-Refined (walk-Edits (put_rule (s ∷ ss) rule type) (s ∷ ss)) (inserted rule type) t.root s
          ss none (put_schema-ChangesBelow (s ∷ ss) rule type))
  insert-store_insert t (s ∷ ss) (d ∷ ds) (some rule) type =
      after-Refined t (inserted rule type) (tokens zero (s ∷ ss)) (table_word (d ∷ ds)) _ (
        op-Refined_table (walk-Edits (put_table (d ∷ ds) rule type) (s ∷ ss)) (inserted rule type)
          t.root s ss d ds (put_table-ChangesBelow (d ∷ ds) rule type))

  -- For every selector, schema and table: `Remove` leaves under each key the rules that the store
  -- has after the removal, and fails exactly where the store does.
  pub remove-store_remove :
      (t : TrieSelector A) (schema table : Bytes)
      → (rules_at (remove t schema table).0.root ≡ (store_remove (rules_at t.root) schema table).0)
        × (failed (remove t schema table).1 ≡ (store_remove (rules_at t.root) schema table).1)
  unfolding remove store_remove reset_table
  remove-store_remove t [] table = (refl, refl)
  remove-store_remove t (s ∷ ss) [] = after-Refined t removed (tokens zero (s ∷ ss)) none _ (
      op-Refined (reset_rule-Edits (s ∷ ss)) removed t.root s ss none
        (reset_schema-ChangesBelow (s ∷ ss)))
  remove-store_remove t (s ∷ ss) (d ∷ ds) =
      after-Refined t removed (tokens zero (s ∷ ss)) (table_word (d ∷ ds)) _ (
        op-Refined_table (track-Edits (reset_table (d ∷ ds)) (s ∷ ss) refl refl) removed t.root s ss
          d ds (reset_table-ChangesBelow (d ∷ ds)))
