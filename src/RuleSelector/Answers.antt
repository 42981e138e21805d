-- ===== src/RuleSelector/Answers.antt =====
-- Runs of a selector of pkg/table-rule-selector/trie_selector.go: what `Match` answers, and how
-- large its cache grows.
use mathlib.Core.Path.{subst}
use tidb_tools.Prelude.{
  ℕ, ◌≡◌, ◌↔◌, refl, sym, Bool, true, false, List, [], ◌∷◌, Option, none, some, inl, inr, In, All,
  length, if◌then◌else◌, ltb, Option-cases,
}
use tidb_tools.RuleSelector.Pattern.{Bytes}
use tidb_tools.RuleSelector.Selector.{
  InsertType, Cache, TrieSelector, new_trie_selector, lookup, assign, delete_at, quote_schema_table,
  insert, remove, match_fresh, add_to_cache, match_rules, max_cache_num,
}
use tidb_tools.RuleSelector.Store.{Store, store_insert, store_remove}
use tidb_tools.RuleSelector.Fresh.{Holds, match_fresh-found, match_fresh-finds}
use tidb_tools.RuleSelector.Keys.{quote_schema_table-inj}
use tidb_tools.RuleSelector.Cached.{
  IsName, FreshFor, Implements, new_trie_selector-Implements, insert-Implements, remove-Implements,
  lookup-found, assign-All, delete_at-All,
}

pub data Call (A : Type 0) : Type 0 where
  inserts_rule : Bytes → Bytes → Option A → InsertType → Call A
  removes_rule : Bytes → Bytes → Call A
  matches : Bytes → Bytes → Call A

-- The calls of `Match` name a schema, and no name has a backquote.
abbrev pub Named : {A : Type 0} → Call A → Type 0
Named (inserts_rule schema table rule type) = Unit
Named (removes_rule schema table) = Unit
Named (matches schema table) = IsName schema table

module _ {A : Type 0} where
  -- the same calls, on the store
  unfoldable pub replay : Store A → List (Call A) → Store A
  unfolding store_insert store_remove
  replay st [] = st
  replay st (inserts_rule schema table rule type ∷ cs) =
      replay (store_insert st schema table rule type).0 cs
  replay st (removes_rule schema table ∷ cs) = replay (store_remove st schema table).0 cs
  replay st (matches schema table ∷ cs) = replay st cs

  module _ (first : Cache A → ℕ) where
    unfoldable pub step : TrieSelector A → Call A → TrieSelector A
    unfolding insert remove match_rules
    step t (inserts_rule schema table rule type) = (insert t schema table rule type).0
    step t (removes_rule schema table) = (remove t schema table).0
    step t (matches schema table) = (match_rules first t schema table).0

    unfoldable pub run : TrieSelector A → List (Call A) → TrieSelector A
    unfolding step
    run t [] = t
    run t (c ∷ cs) = run (step t c) cs

    add_to_cache-Implements :
        (t : TrieSelector A) (st : Store A) (k : Bytes) (rs : List A)
        → FreshFor st (k, rs)
        → Implements t st
        → Implements (add_to_cache first t k rs) st
    unfolding add_to_cache
    add_to_cache-Implements t st k rs p h = record {
      distinct = h.distinct;
      rules = h.rules;
      cached = go (ltb max_cache_num (length (assign k rs t.cache)));
    }
      where
        all : All (FreshFor st) (assign k rs t.cache)
        all = assign-All (FreshFor st) k rs t.cache p h.cached

        go :
            (b : Bool)
            → All (FreshFor st) (
                if b
                then delete_at (first (assign k rs t.cache)) (assign k rs t.cache)
                else assign k rs t.cache)
        go true =
            delete_at-All (FreshFor st) (first (assign k rs t.cache)) (assign k rs t.cache) all
        go false = all

    pub match_rules_cached :
        (t : TrieSelector A) (schema table : Bytes) (rs : List A)
        → lookup (quote_schema_table schema table) t.cache ≡ some rs
        → match_rules first t schema table ≡ (t, rs)
    unfolding match_rules
    match_rules_cached t schema table rs e = rw (e, match_rules)

    pub match_rules_missed :
        (t : TrieSelector A) (schema table : Bytes)
        → lookup (quote_schema_table schema table) t.cache ≡ none
        → match_rules first t schema table ≡ (
          add_to_cache first t (quote_schema_table schema table) (match_fresh t.root schema table),
          match_fresh t.root schema table,
        )
    unfolding match_rules
    match_rules_missed t schema table e = rw (e, match_rules)

    -- What is asked of an answer and of the selector that gives it.
    abbrev Answered : Store A → Bytes → Bytes → TrieSelector A × List A → Type 0
    Answered st schema table r = ((a : A) → In a r.1 ↔ Holds st schema table a) × Implements r.0 st

    match_fresh-Holds :
        (t : TrieSelector A) (st : Store A) (schema table : Bytes)
        → Implements t st
        → (a : A) → In a (match_fresh t.root schema table) ↔ Holds st schema table a
    match_fresh-Holds t st schema table h a =
        subst (λ s. In a (match_fresh t.root schema table) ↔ Holds s schema table a) h.rules
          (
            match_fresh-found t.root schema table a h.distinct,
            match_fresh-finds t.root schema table a,
          )

    match_rules-Answered :
        (t : TrieSelector A) (st : Store A) (schema table : Bytes)
        → IsName schema table
        → Implements t st
        → Answered st schema table (match_rules first t schema table)
    match_rules-Answered t st schema table n h =
        elim (Option-cases (lookup (quote_schema_table schema table) t.cache)) [
          | inr (rs, e) ↦
              let (u, v, m, k, same) =
                lookup-found (FreshFor st) (quote_schema_table schema table) rs t.cache e
                  h.cached in
              let (p, q) =
                quote_schema_table-inj schema table u v n.schema_given m.schema_given n.schema_plain
                  n.table_plain m.schema_plain m.table_plain k in
              subst (Answered st schema table) (sym (match_rules_cached t schema table rs e)) (
                subst (λ x. (a : A) → In a rs ↔ Holds st x table a) (sym p)
                    (subst (λ y. (a : A) → In a rs ↔ Holds st u y a) (sym q) same),
                h,
              )
          | inl e ↦
              let same = match_fresh-Holds t st schema table h in
              subst (Answered st schema table) (sym (match_rules_missed t schema table e))
                (same, add_to_cache-Implements t st _ _ (schema, table, n, refl, same) h)
        ]

    step-Implements :
        (t : TrieSelector A) (st : Store A) (c : Call A)
        → Named c
        → Implements t st
        → Implements (step t c) (replay st (c ∷ []))
    unfolding step replay
    step-Implements t st (inserts_rule schema table rule type) n h =
        insert-Implements t st schema table rule type h
    step-Implements t st (removes_rule schema table) n h = remove-Implements t st schema table h
    step-Implements t st (matches schema table) n h = (match_rules-Answered t st schema table n h).1

    run-Implements :
        (t : TrieSelector A) (st : Store A) (cs : List (Call A))
        → All Named cs
        → Implements t st
        → Implements (run t cs) (replay st cs)
    unfolding run replay
    run-Implements t st [] n h = h
    run-Implements t st (inserts_rule schema table rule type ∷ cs) n h =
        run-Implements (step t (inserts_rule schema table rule type))
          (replay st (inserts_rule schema table rule type ∷ [])) cs n.1
          (step-Implements t st (inserts_rule schema table rule type) tt h)
    run-Implements t st (removes_rule schema table ∷ cs) n h =
        run-Implements (step t (removes_rule schema table))
          (replay st (removes_rule schema table ∷ [])) cs n.1
          (step-Implements t st (removes_rule schema table) tt h)
    run-Implements t st (matches schema table ∷ cs) n h =
        run-Implements (step t (matches schema table)) st cs n.1
          (step-Implements t st (matches schema table) n.0 h)

    -- Let the calls of `Match` name a schema, and let no name in them have a backquote. Then after
    -- any sequence of insertions, removals and matches on a new selector, whichever entries the
    -- cache drops, `Match` returns exactly the rules that the store, after the same calls, holds
    -- under keys that read the schema and the table.
    pub run-match_rules :
        (cs : List (Call A)) (schema table : Bytes)
        → All Named cs
        → IsName schema table
        → (a : A)
        → In a (match_rules first (run new_trie_selector cs) schema table).1
          ↔ Holds (replay (λ vs ws. []) cs) schema table a
    run-match_rules cs schema table n m =
        (match_rules-Answered (run new_trie_selector cs) _ schema table m
          (run-Implements new_trie_selector _ cs n new_trie_selector-Implements)).0
