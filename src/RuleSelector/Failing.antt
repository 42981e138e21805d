-- ===== src/RuleSelector/Failing.antt =====
-- What a failing call leaves of the store, for pkg/table-rule-selector/trie_selector.go.
use mathlib.Core.Path.{fun_ext}
use tidb_tools.Prelude.{
  zero, ◌≡◌, refl, ◌∙◌, ap, Bool, true, List, [], ◌∷◌, Option, none, some, inl, inr, arith,
  Bool-cases,
}
use tidb_tools.RuleSelector.Pattern.{Bytes, Token, tokens}
use tidb_tools.RuleSelector.Trie.{Node, absent, Payload, node_of}
use tidb_tools.RuleSelector.Paths.{item_at, item_from-same_word, payload_of}
use tidb_tools.RuleSelector.Selector.{InsertType, inserts, replaces, appends}
use tidb_tools.RuleSelector.Store.{
  Store, rules_of, rules_at, put, same_key, valid_key, same_table, inserted, removed, change_at,
  store_insert, store_remove, table_word,
}
use tidb_tools.RuleSelector.Edits.{rules_at-same}

module _ {A : Type 0} where
  -- A store that takes patterns of the same places for one.
  abbrev pub Respects : Store A → Type 0
  Respects st =
      (ts : List Token) (us : Option (List Token)) (vs : List Token) (ws : Option (List Token))
      → same_key ts us vs ws ≡ true
      → st ts us ≡ st vs ws

  rules_of-same :
      (p : Payload A) (us ws : Option (List Token))
      → same_table us ws ≡ true
      → rules_of p us ≡ rules_of p ws
  rules_of-same p none none h = refl
  rules_of-same p (some us) (some ws) h =
      ap (λ e. (payload_of e).0) (item_from-same_word absent (node_of p.1) us ws h)
  rules_of-same p none (some ws) h = cc
  rules_of-same p (some us) none h = cc

  pub rules_at-Respects : (n : Node A) → Respects (rules_at n)
  rules_at-Respects n ts us vs ws h =
      rules_of-same (payload_of (item_at n ts)) us ws (ground (arith, h))
      ∙ rules_at-same n ts vs ws (ground (arith, h))

  -- A change that fails leaves the store as it was.
  change_at-failed :
      (f : List A → List A × Bool)
      → ((rs : List A) → (f rs).1 ≡ true → (f rs).0 ≡ rs)
      → (st : Store A) (ts : List Token) (us : Option (List Token)) → Respects st
      → (change_at f st ts us).1 ≡ true
      → (change_at f st ts us).0 ≡ st
  unfolding change_at
  change_at-failed f same st ts us r h = elim (Bool-cases (valid_key ts us)) [
    | inl v ↦ rw v (fun_ext (λ vs. fun_ext (λ ws. go vs ws (same (st ts us) (rw v at h)))))
    | inr v ↦ rw v
  ]
    where
      go :
          (vs : List Token) (ws : Option (List Token))
          → (f (st ts us)).0 ≡ st ts us
          → put st ts us (f (st ts us)).0 vs ws ≡ st vs ws
      go vs ws e = elim (Bool-cases (same_key ts us vs ws)) [
        | inl k ↦ rw k (e ∙ r ts us vs ws k)
        | inr k ↦ rw k
      ]

  inserted-failed :
      (rule : A) (type : InsertType) (rs : List A)
      → (inserted rule type rs).1 ≡ true
      → (inserted rule type rs).0 ≡ rs
  inserted-failed rule inserts [] h = cc
  inserted-failed rule inserts (r ∷ rs) h = refl
  inserted-failed rule replaces rs h = cc
  inserted-failed rule appends rs h = cc

  removed-failed : (rs : List A) → (removed rs).1 ≡ true → (removed rs).0 ≡ rs
  removed-failed [] h = refl
  removed-failed (r ∷ rs) h = cc

  pub store_insert-failed :
      (st : Store A) (schema table : Bytes) (rule : Option A) (type : InsertType)
      → Respects st
      → (store_insert st schema table rule type).1 ≡ true
      → (store_insert st schema table rule type).0 ≡ st
  unfolding store_insert
  store_insert-failed st [] table rule type r h = refl
  store_insert-failed st (s ∷ ss) table none type r h = refl
  store_insert-failed st (s ∷ ss) table (some rule) type r h =
      change_at-failed (inserted rule type) (inserted-failed rule type) st (tokens zero (s ∷ ss))
        (table_word table) r h

  pub store_remove-failed :
      (st : Store A) (schema table : Bytes)
      → Respects st
      → (store_remove st schema table).1 ≡ true
      → (store_remove st schema table).0 ≡ st
  unfolding store_remove
  store_remove-failed st [] table r h = refl
  store_remove-failed st (s ∷ ss) table r h =
      change_at-failed removed removed-failed st (tokens zero (s ∷ ss)) (table_word table) r h
