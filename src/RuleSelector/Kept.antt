-- ===== src/RuleSelector/Kept.antt =====
-- `Insert` and `Remove` of pkg/table-rule-selector/trie_selector.go keep the ranges of each node
-- apart, and the cache or clear it.
use mathlib.Core.Path.{subst}
use tidb_tools.Prelude.{zero, ◌≡◌, ◌⊎◌, refl, sym, true, [], ◌∷◌, Option, none, some, inl, inr}
use tidb_tools.RuleSelector.Pattern.{Bytes, tokens}
use tidb_tools.RuleSelector.Trie.{Node, nil, level, node_of, Payload, Error, walk, track}
use tidb_tools.RuleSelector.Distinct.{
  IsDistinct, LevelDistinct, node_of-IsDistinct, walk-IsDistinct, track-IsDistinct,
}
use tidb_tools.RuleSelector.Tracks.{failed}
use tidb_tools.RuleSelector.Selector.{
  InsertType, inserts, replaces, appends, TrieSelector, put_rule, put_table, reset_rule,
  reset_table, clear_cache, after, insert, remove,
}
use tidb_tools.RuleSelector.Refines.{after-root}

module _ {A : Type 0} where
  put_rule-LevelDistinct :
      (pattern : Bytes) (rule : A) (type : InsertType) (p : Payload A)
      → LevelDistinct p.1
      → LevelDistinct (put_rule pattern rule type p).0.1
  unfolding put_rule
  put_rule-LevelDistinct pattern rule inserts ([], n) h = h
  put_rule-LevelDistinct pattern rule inserts (r ∷ rs, n) h = h
  put_rule-LevelDistinct pattern rule replaces (rs, n) h = h
  put_rule-LevelDistinct pattern rule appends (rs, n) h = h

  reset_rule-LevelDistinct :
      (pattern : Bytes) (p : Payload A)
      → LevelDistinct p.1
      → LevelDistinct (reset_rule pattern p).0.1
  unfolding reset_rule
  reset_rule-LevelDistinct pattern ([], n) h = h
  reset_rule-LevelDistinct pattern (r ∷ rs, n) h = h

  put_table-LevelDistinct :
      (table : Bytes) (rule : A) (type : InsertType) (p : Payload A)
      → LevelDistinct p.1
      → LevelDistinct (put_table table rule type p).0.1
  unfolding put_table IsDistinct
  put_table-LevelDistinct table rule type (rs, n) h =
      walk-IsDistinct (put_rule table rule type) (put_rule-LevelDistinct table rule type) table
        (node_of n) (tokens zero table) (node_of-IsDistinct n h)

  reset_table-LevelDistinct :
      (table : Bytes) (p : Payload A) → LevelDistinct p.1 → LevelDistinct (reset_table table p).0.1
  unfolding reset_table IsDistinct
  reset_table-LevelDistinct table (rs, nil) h = h
  reset_table-LevelDistinct table (rs, level m) h =
      track-IsDistinct (reset_rule table) (reset_rule-LevelDistinct table) table m
        (tokens zero table) h

  after-IsDistinct :
      (t : TrieSelector A) (r : Node A × Option Error)
      → IsDistinct r.0
      → IsDistinct (after t r).0.root
  after-IsDistinct t r h = subst IsDistinct (sym (after-root t r).0) h

  pub insert-IsDistinct :
      (t : TrieSelector A) (schema table : Bytes) (rule : Option A) (type : InsertType)
      → IsDistinct t.root
      → IsDistinct (insert t schema table rule type).0.root
  unfolding insert
  insert-IsDistinct t [] table rule type h = h
  insert-IsDistinct t (s ∷ ss) table none type h = h
  insert-IsDistinct t (s ∷ ss) [] (some rule) type h = after-IsDistinct t _ (
      walk-IsDistinct (put_rule (s ∷ ss) rule type) (put_rule-LevelDistinct (s ∷ ss) rule type)
        (s ∷ ss) t.root (tokens zero (s ∷ ss)) h)
  insert-IsDistinct t (s ∷ ss) (c ∷ cs) (some rule) type h = after-IsDistinct t _ (
      walk-IsDistinct (put_table (c ∷ cs) rule type) (put_table-LevelDistinct (c ∷ cs) rule type)
        (s ∷ ss) t.root (tokens zero (s ∷ ss)) h)

  pub remove-IsDistinct :
      (t : TrieSelector A) (schema table : Bytes)
      → IsDistinct t.root
      → IsDistinct (remove t schema table).0.root
  unfolding remove
  remove-IsDistinct t [] table h = h
  remove-IsDistinct t (s ∷ ss) [] h = after-IsDistinct t _ (
      track-IsDistinct (reset_rule (s ∷ ss)) (reset_rule-LevelDistinct (s ∷ ss)) (s ∷ ss) t.root
        (tokens zero (s ∷ ss)) h)
  remove-IsDistinct t (s ∷ ss) (c ∷ cs) h = after-IsDistinct t _ (
      track-IsDistinct (reset_table (c ∷ cs)) (reset_table-LevelDistinct (c ∷ cs)) (s ∷ ss) t.root
        (tokens zero (s ∷ ss)) h)

  -- The cache is cleared, or the call has failed.
  abbrev pub ClearsOrFails : TrieSelector A → TrieSelector A × Option Error → Type 0
  ClearsOrFails t r = (r.0.cache ≡ []) ⊎ ((r.0.cache ≡ t.cache) × (failed r.1 ≡ true))

  after-cache : (t : TrieSelector A) (r : Node A × Option Error) → ClearsOrFails t (after t r)
  unfolding after clear_cache
  after-cache t (n, none) = inl refl
  after-cache t (n, some e) = inr (refl, refl)

  pub insert-cache :
      (t : TrieSelector A) (schema table : Bytes) (rule : Option A) (type : InsertType)
      → ClearsOrFails t (insert t schema table rule type)
  unfolding insert
  insert-cache t [] table rule type = inr (refl, refl)
  insert-cache t (s ∷ ss) table none type = inr (refl, refl)
  insert-cache t (s ∷ ss) [] (some rule) type =
      after-cache t (walk (put_rule (s ∷ ss) rule type) (s ∷ ss) t.root (tokens zero (s ∷ ss)))
  insert-cache t (s ∷ ss) (c ∷ cs) (some rule) type =
      after-cache t (walk (put_table (c ∷ cs) rule type) (s ∷ ss) t.root (tokens zero (s ∷ ss)))

  pub remove-cache :
      (t : TrieSelector A) (schema table : Bytes) → ClearsOrFails t (remove t schema table)
  unfolding remove
  remove-cache t [] table = inr (refl, refl)
  remove-cache t (s ∷ ss) [] =
      after-cache t (track (reset_rule (s ∷ ss)) (s ∷ ss) t.root (tokens zero (s ∷ ss)))
  remove-cache t (s ∷ ss) (c ∷ cs) =
      after-cache t (track (reset_table (c ∷ cs)) (s ∷ ss) t.root (tokens zero (s ∷ ss)))
