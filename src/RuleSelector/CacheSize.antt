-- ===== src/RuleSelector/CacheSize.antt =====
-- How large the cache of pkg/table-rule-selector/trie_selector.go grows.
use mathlib.Core.Path.{subst}
use tidb_tools.Prelude.{
  ℕ, zero, suc, ◌+◌, ◌<◌, ◌≤◌, ◌≡◌, sym, List, [], ◌∷◌, Option, inl, inr, length, arith, Bool-cases,
  ltb, Option-cases,
}
use tidb_tools.RuleSelector.Pattern.{Bytes}
use tidb_tools.RuleSelector.Trie.{Error}
use tidb_tools.RuleSelector.Selector.{
  Cache, TrieSelector, lookup, assign, delete_at, quote_schema_table, insert, remove, add_to_cache,
  max_cache_num,
}
use tidb_tools.RuleSelector.Kept.{ClearsOrFails, insert-cache, remove-cache}
use tidb_tools.RuleSelector.Answers.{
  Call, inserts_rule, removes_rule, matches, step, run, match_rules_cached, match_rules_missed,
}

module _ {A : Type 0} (first : Cache A → ℕ) where
  -- the size of the cache
  length-assign : (k : Bytes) (rs : List A) (c : Cache A) → length (assign k rs c) ≤ length c + 1
  unfolding assign
  length-assign k rs [] = omega arith
  length-assign k rs ((j, qs) ∷ c) = ground (arith, length-assign k rs c)

  length-delete_at : (i : ℕ) (c : Cache A) → i < length c → length (delete_at i c) + 1 ≡ length c
  unfolding delete_at
  length-delete_at i [] h = absurd (omega arith)
  length-delete_at zero (e ∷ c) h = omega arith
  length-delete_at (suc i) (e ∷ c) h = omega (arith, length-delete_at i c (omega arith))

  abbrev Bounded : TrieSelector A → Type 0
  Bounded t = length t.cache ≤ max_cache_num

  cleared-Bounded :
      (t : TrieSelector A) (r : TrieSelector A × Option Error)
      → ClearsOrFails t r
      → Bounded t
      → Bounded r.0
  cleared-Bounded t r (inl e) h = subst (λ c. length c ≤ max_cache_num) (sym e) (omega arith)
  cleared-Bounded t r (inr (e, f)) h = subst (λ c. length c ≤ max_cache_num) (sym e) h

  module _ (in_range : (c : Cache A) → 0 < length c → first c < length c) where
    add_to_cache-Bounded :
        (t : TrieSelector A) (k : Bytes) (rs : List A)
        → Bounded t
        → Bounded (add_to_cache first t k rs)
    unfolding add_to_cache
    add_to_cache-Bounded t k rs h =
        let c = assign k rs t.cache in
        let grown = length-assign k rs t.cache in
        elim (Bool-cases (ltb max_cache_num (length c))) [
          | inl b ↦
              rw b (omega (arith, length-delete_at (first c) c (in_range c (ground (arith, b)))))
          | inr b ↦ rw b (ground (arith, b))
        ]

    step-Bounded : (t : TrieSelector A) (c : Call A) → Bounded t → Bounded (step first t c)
    unfolding step
    step-Bounded t (inserts_rule schema table rule type) h =
        cleared-Bounded t (insert t schema table rule type) (insert-cache t schema table rule type)
          h
    step-Bounded t (removes_rule schema table) h =
        cleared-Bounded t (remove t schema table) (remove-cache t schema table) h
    step-Bounded t (matches schema table) h =
        elim (Option-cases (lookup (quote_schema_table schema table) t.cache)) [
          | inr (rs, e) ↦
              subst (λ r. Bounded r.0) (sym (match_rules_cached first t schema table rs e)) h
          | inl e ↦
              subst (λ r. Bounded r.0) (sym (match_rules_missed first t schema table e))
                (add_to_cache-Bounded t _ _ h)
        ]

    -- Let the key that Go's `range` gives first be one of the map. Then after any sequence of
    -- insertions, removals and matches on a selector with at most 1024 cached results, such as a
    -- new one, it has at most 1024 of them again, with no condition on the names.
    pub run-cache_bounds :
        (cs : List (Call A)) (t : TrieSelector A)
        → length t.cache ≤ max_cache_num
        → length (run first t cs).cache ≤ max_cache_num
    unfolding run
    run-cache_bounds [] t h = h
    run-cache_bounds (c ∷ cs) t h = run-cache_bounds cs (step first t c) (step-Bounded t c h)
