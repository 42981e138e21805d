-- ===== src/RuleSelector/Cached.antt =====
-- `Match` of pkg/table-rule-selector/trie_selector.go with its cache, after any calls.
use mathlib.Core.Path.{subst, fun_ext}
use tidb_tools.Prelude.{
  ℕ, zero, suc, ◌≡◌, ◌≢◌, ◌↔◌, refl, ◌∙◌, sym, ap, true, List, [], ◌∷◌, Option, none, some, inl,
  inr, In, All, Bool-cases,
}
use tidb_tools.RuleSelector.Pattern.{Bytes, Token}
use tidb_tools.RuleSelector.Trie.{absent, nil, Payload, new_node, Error}
use tidb_tools.RuleSelector.Paths.{item_at, item_from-new_node, payload_of}
use tidb_tools.RuleSelector.Distinct.{IsDistinct, new_node-IsDistinct}
use tidb_tools.RuleSelector.Tracks.{failed}
use tidb_tools.RuleSelector.Selector.{
  InsertType, Cache, TrieSelector, new_trie_selector, bytes_eq, lookup, assign, delete_at,
  quote_schema_table, insert, remove,
}
use tidb_tools.RuleSelector.Store.{Store, rules_of, rules_at, store_insert, store_remove}
use tidb_tools.RuleSelector.Fresh.{Holds}
use tidb_tools.RuleSelector.Keys.{bytes_eq-eq, IsPlain}
use tidb_tools.RuleSelector.Refines.{insert-store_insert, remove-store_remove}
use tidb_tools.RuleSelector.Failing.{
  Respects, rules_at-Respects, store_insert-failed, store_remove-failed,
}
use tidb_tools.RuleSelector.Kept.{
  insert-IsDistinct, remove-IsDistinct, ClearsOrFails, insert-cache, remove-cache,
}

-- The names that a call of `Match` may be given here.
pub record IsName (schema table : Bytes) : Type 0 where
  pub schema_given : schema ≢ []
  pub schema_plain : IsPlain schema
  pub table_plain : IsPlain table

module _ {A : Type 0} where
  -- An entry of the cache, and what it stands for.
  abbrev pub FreshFor : Store A → Bytes × List A → Type 0
  FreshFor st e =
      (schema : Bytes) × (table : Bytes) × IsName schema table
      × (e.0 ≡ quote_schema_table schema table)
      × ((r : A) → In r e.1 ↔ Holds st schema table r)

  -- The selector holds what the store does, and so does its cache.
  pub record Implements (t : TrieSelector A) (st : Store A) : Type 0 where
    pub distinct : IsDistinct t.root
    pub rules : rules_at t.root ≡ st
    pub cached : All (FreshFor st) t.cache

  pub new_trie_selector-Implements : Implements new_trie_selector (λ vs ws. [])
  new_trie_selector-Implements = record {
    distinct = new_node-IsDistinct A;
    rules = fun_ext (λ vs. fun_ext (λ ws. go vs ws));
    cached = tt;
  }
    where
      nothing : (ws : List Token) → payload_of (item_at (new_node {A = A}) ws) ≡ ([], nil)
      nothing ws = item_from-new_node absent ws refl

      go : (vs : List Token) (ws : Option (List Token)) → rules_at (new_node {A = A}) vs ws ≡ []
      go vs none = ap (λ (p : Payload A). p.0) (nothing vs)
      go vs (some ws) =
          ap (λ (p : Payload A). rules_of p (some ws)) (nothing vs)
          ∙ ap (λ (p : Payload A). p.0) (nothing ws)

  -- One call of `Insert` or `Remove`.
  change-Implements :
      (t : TrieSelector A) (st st' : Store A) (r : TrieSelector A × Option Error)
      → IsDistinct r.0.root
      → rules_at r.0.root ≡ st'
      → ClearsOrFails t r
      → (failed r.1 ≡ true → st' ≡ st)
      → Implements t st
      → Implements r.0 st'
  change-Implements t st st' r d e c f h = record { distinct = d; rules = e; cached = go c }
    where
      go : ClearsOrFails t r → All (FreshFor st') r.0.cache
      go (inl p) = subst (All (FreshFor st')) (sym p) tt
      go (inr (p, q)) =
          subst (λ c. All (FreshFor st') c) (sym p)
            (subst (λ st. All (FreshFor st) t.cache) (sym (f q)) h.cached)

  pub insert-Implements :
      (t : TrieSelector A) (st : Store A) (schema table : Bytes) (rule : Option A)
      (type : InsertType)
      → Implements t st
      → Implements (insert t schema table rule type).0 (store_insert st schema table rule type).0
  insert-Implements t st schema table rule type h =
      let (p, q) = insert-store_insert t schema table rule type in
      change-Implements t st (store_insert st schema table rule type).0
        (insert t schema table rule type) (insert-IsDistinct t schema table rule type h.distinct)
        (subst
          (λ s.
            rules_at (insert t schema table rule type).0.root
            ≡ (store_insert s schema table rule type).0)
          h.rules p)
        (insert-cache t schema table rule type)
        (λ f.
          store_insert-failed st schema table rule type
            (subst Respects h.rules (rules_at-Respects t.root))
            (subst (λ s. (store_insert s schema table rule type).1 ≡ true) h.rules (sym q ∙ f)))
        h

  pub remove-Implements :
      (t : TrieSelector A) (st : Store A) (schema table : Bytes)
      → Implements t st
      → Implements (remove t schema table).0 (store_remove st schema table).0
  remove-Implements t st schema table h =
      let (p, q) = remove-store_remove t schema table in
      change-Implements t st (store_remove st schema table).0 (remove t schema table)
        (remove-IsDistinct t schema table h.distinct)
        (subst (λ s. rules_at (remove t schema table).0.root ≡ (store_remove s schema table).0)
          h.rules p)
        (remove-cache t schema table)
        (λ f.
          store_remove-failed st schema table (subst Respects h.rules (rules_at-Respects t.root))
            (subst (λ s. (store_remove s schema table).1 ≡ true) h.rules (sym q ∙ f)))
        h

  -- The parts of the cache.
  pub lookup-found :
      (P : Bytes × List A → Type 0) (k : Bytes) (rs : List A) (c : Cache A)
      → lookup k c ≡ some rs
      → All P c
      → P (k, rs)
  unfolding lookup
  lookup-found P k rs [] e h = cc
  lookup-found P k rs ((j, qs) ∷ c) e (h, g) = elim (Bool-cases (bytes_eq j k)) [
    | inl b ↦
        let same = some_inj qs rs (rw b at e) in
        subst (λ rs. P (k, rs)) same (subst (λ k. P (k, qs)) (bytes_eq-eq j k b) h)
    | inr b ↦ lookup-found P k rs c (rw b at e) g
  ]
    where
      some_inj : (x y : List A) → some x ≡ some y → x ≡ y
      some_inj x y e = cc

  pub assign-All :
      (P : Bytes × List A → Type 0) (k : Bytes) (rs : List A) (c : Cache A)
      → P (k, rs)
      → All P c
      → All P (assign k rs c)
  unfolding assign
  assign-All P k rs [] p h = (p, tt)
  assign-All P k rs ((j, qs) ∷ c) p (h, g) = elim (Bool-cases (bytes_eq j k)) [
    | inl b ↦ rw b (subst (λ k. P (k, rs)) (sym (bytes_eq-eq j k b)) p, g)
    | inr b ↦ rw b (h, assign-All P k rs c p g)
  ]

  pub delete_at-All :
      (P : Bytes × List A → Type 0) (i : ℕ) (c : Cache A) → All P c → All P (delete_at i c)
  unfolding delete_at
  delete_at-All P i [] h = h
  delete_at-All P zero (e ∷ c) (h, g) = g
  delete_at-All P (suc i) (e ∷ c) (h, g) = (h, delete_at-All P i c g)
