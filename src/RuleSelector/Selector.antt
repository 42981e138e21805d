-- ===== src/RuleSelector/Selector.antt =====
-- `trieSelector` of pkg/table-rule-selector/trie_selector.go: `Insert`, `Remove` and `Match` with
-- its cache. Each takes the lock, so that a run is a list of calls.
use tidb_tools.Prelude.{
  ℕ, zero, suc, Bool, true, false, ◌&&◌, List, [], ◌∷◌, ◌++◌, Option, none, some, length, ltb, ◌==◌,
  if◌then◌else◌,
}
use tidb_tools.RuleSelector.Pattern.{Bytes, tokens}
use tidb_tools.RuleSelector.Trie.{
  Node, absent, Item, item, Level, nil, level, new_node, node_of, Payload, Error, empty_rule,
  not_valid, already_exists, not_found, walk, track, match_node,
}

abbrev pub bytes_eq : Bytes → Bytes → Bool
bytes_eq [] [] = true
bytes_eq (a ∷ xs) (b ∷ ys) = a == b && bytes_eq xs ys
bytes_eq _ _ = false

pub data InsertType : Type 0 where
  inserts replaces appends : InsertType

abbrev pub Cache : Type 0 → Type 0
Cache A = List (Bytes × List A)

-- `delete` of the key at a place of the map
unfoldable pub delete_at {ℓ} : {A : Type ℓ} → ℕ → List A → List A
delete_at i [] = []
delete_at zero (e ∷ es) = es
delete_at (suc i) (e ∷ es) = e ∷ delete_at i es

unfoldable pub lookup : {A : Type 0} → Bytes → Cache A → Option (List A)
lookup k [] = none
lookup k ((j, rs) ∷ c) = if bytes_eq j k then some rs else lookup k c

unfoldable pub assign : {A : Type 0} → Bytes → List A → Cache A → Cache A
assign k rs [] = (k, rs) ∷ []
assign k rs ((j, qs) ∷ c) = if bytes_eq j k then (j, rs) ∷ c else (j, qs) ∷ assign k rs c

pub record TrieSelector (A : Type 0) : Type 0 where
  pub cache : Cache A
  pub root : Node A

abbrev pub max_cache_num : ℕ
max_cache_num = 1024

unfoldable pub quote_schema_table : Bytes → Bytes → Bytes
quote_schema_table [] table = []
quote_schema_table (s ∷ ss) [] = b'`' ∷ (s ∷ ss) ++ b'`' ∷ []
quote_schema_table (s ∷ ss) (t ∷ ts) =
    b'`' ∷ ((s ∷ ss) ++ b'`' ∷ b'.' ∷ b'`' ∷ ((t ∷ ts) ++ b'`' ∷ []))

pub record MatchedResult (A : Type 0) : Type 0 where
  pub nodes : List (Node A)
  pub rules : List A

module _ {A : Type 0} where
  abbrev pub new_trie_selector : TrieSelector A
  new_trie_selector = record { cache = []; root = new_node }

  unfoldable pub clear_cache : TrieSelector A → TrieSelector A
  clear_cache t = record t { cache = [] }

  -- What `insert` does at the end, where there is a rule.
  unfoldable pub put_rule : Bytes → A → InsertType → Payload A → Payload A × Option Error
  put_rule pattern rule inserts (r ∷ rs, n) = ((r ∷ rs, n), some (already_exists pattern))
  put_rule pattern rule inserts ([], n) = ((rule ∷ [], n), none)
  put_rule pattern rule replaces (rs, n) = ((rule ∷ [], n), none)
  put_rule pattern rule appends (rs, n) = ((rs ++ rule ∷ [], n), none)

  -- What `insertTable` does at the schema's item: its next level is made where there is none, and
  -- the table's pattern is inserted there.
  unfoldable pub put_table : Bytes → A → InsertType → Payload A → Payload A × Option Error
  unfolding walk put_rule tokens
  put_table table rule type (rs, n) =
      let (m, e) = walk (put_rule table rule type) table (node_of n) (tokens zero table) in
      ((rs, level m), e)

  -- the cache is cleared where a rule was put
  unfoldable pub after : TrieSelector A → Node A × Option Error → TrieSelector A × Option Error
  unfolding clear_cache
  after t (n, none) = (clear_cache (record t { root = n }), none)
  after t (n, some e) = (record t { root = n }, some e)

  unfoldable pub insert_schema :
      TrieSelector A → Bytes → A → InsertType → TrieSelector A × Option Error
  unfolding walk put_rule after tokens
  insert_schema t schema rule type =
      after t (walk (put_rule schema rule type) schema t.root (tokens zero schema))

  unfoldable pub insert_table :
      TrieSelector A → Bytes → Bytes → A → InsertType → TrieSelector A × Option Error
  unfolding walk put_table after tokens
  insert_table t schema table rule type =
      after t (walk (put_table table rule type) schema t.root (tokens zero schema))

  -- `Insert`; a nil rule is `none`
  unfoldable pub insert :
      TrieSelector A → Bytes → Bytes → Option A → InsertType → TrieSelector A × Option Error
  unfolding insert_schema insert_table
  insert t [] table rule type = (t, some empty_rule)
  insert t (s ∷ ss) table none type = (t, some empty_rule)
  insert t (s ∷ ss) [] (some rule) type = insert_schema t (s ∷ ss) rule type
  insert t (s ∷ ss) (c ∷ cs) (some rule) type = insert_table t (s ∷ ss) (c ∷ cs) rule type

  -- What `Remove` does at the item of the last pattern, and at the schema's item for a table.
  unfoldable pub reset_rule : Bytes → Payload A → Payload A × Option Error
  reset_rule pattern ([], n) = (([], n), some (not_found pattern))
  reset_rule pattern (r ∷ rs, n) = (([], n), none)

  unfoldable pub reset_table : Bytes → Payload A → Payload A × Option Error
  unfolding track reset_rule tokens
  reset_table table (rs, nil) = ((rs, nil), some (not_found table))
  reset_table table (rs, level m) =
      let (m', e) = track (reset_rule table) table m (tokens zero table) in ((rs, level m'), e)

  unfoldable pub remove : TrieSelector A → Bytes → Bytes → TrieSelector A × Option Error
  unfolding track reset_rule reset_table after tokens
  remove t [] table = (t, some (not_valid []))
  remove t (s ∷ ss) [] =
      after t (track (reset_rule (s ∷ ss)) (s ∷ ss) t.root (tokens zero (s ∷ ss)))
  remove t (s ∷ ss) (c ∷ cs) =
      after t (track (reset_table (c ∷ cs)) (s ∷ ss) t.root (tokens zero (s ∷ ss)))

  abbrev pub next_nodes : Level A → List (Node A)
  next_nodes nil = []
  next_nodes (level n) = n ∷ []

  unfoldable pub append_matched_item : Item A → MatchedResult A → MatchedResult A
  append_matched_item (item c rs n) mr = record {
    nodes = mr.nodes ++ next_nodes n;
    rules = mr.rules ++ rs;
  }

  -- the items in the order in which `matchNode` appends them
  unfoldable pub append_all : List (Item A) → MatchedResult A → MatchedResult A
  unfolding append_matched_item
  append_all [] mr = mr
  append_all (i ∷ is) mr = append_all is (append_matched_item i mr)

  unfoldable pub matched : Node A → Bytes → MatchedResult A
  unfolding match_node append_all
  matched n s = append_all (match_node n absent zero s) (record { nodes = []; rules = [] })

  -- the loop of `Match` over the matched nodes
  unfoldable pub table_rules : List (Node A) → Bytes → List A
  unfolding matched
  table_rules [] table = []
  table_rules (n ∷ ns) table = (matched n table).rules ++ table_rules ns table

  -- `Match` without its cache; nil is the empty list
  unfoldable pub match_fresh : Node A → Bytes → Bytes → List A
  unfolding matched table_rules
  match_fresh root schema table =
      let mr = matched root schema in mr.rules ++ table_rules mr.nodes table

-- Which key `range` over the map gives first, where one is deleted: Go leaves it open.
module _ {A : Type 0} (first : Cache A → ℕ) where
  unfoldable pub add_to_cache : TrieSelector A → Bytes → List A → TrieSelector A
  unfolding assign delete_at
  add_to_cache t key rules =
      let c = assign key rules t.cache in
      record t { cache = if ltb max_cache_num (length c) then delete_at (first c) c else c }

  unfoldable pub match_rules : TrieSelector A → Bytes → Bytes → TrieSelector A × List A
  unfolding quote_schema_table lookup match_fresh add_to_cache
  match_rules t schema table =
      let key = quote_schema_table schema table in
      elim (lookup key t.cache) [
        | some rules ↦ (t, rules)
        | none ↦ let rules = match_fresh t.root schema table in (add_to_cache t key rules, rules)
      ]
