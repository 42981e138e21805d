-- ===== src/RuleSelector/Store.antt =====
-- What a selector of pkg/table-rule-selector/trie_selector.go promises: rules kept under a pattern
-- for the schema and, for a rule of a table, one for the table.
use tidb_tools.Prelude.{
  Bool, true, false, ◌&&◌, List, [], ◌∷◌, ◌++◌, Option, none, some, zero, if◌then◌else◌,
}
use tidb_tools.RuleSelector.Pattern.{Bytes, Token, tokens}
use tidb_tools.RuleSelector.Trie.{Node, node_of, Payload}
use tidb_tools.RuleSelector.Paths.{valid_word, same_word, item_at, payload_of}
use tidb_tools.RuleSelector.Selector.{InsertType, inserts, replaces, appends}

abbrev pub Store : Type 0 → Type 0
Store A = List Token → Option (List Token) → List A

-- the second pattern of a key
abbrev pub same_table : Option (List Token) → Option (List Token) → Bool
same_table none none = true
same_table (some us) (some ws) = same_word us ws
same_table _ _ = false

abbrev pub valid_table : Option (List Token) → Bool
valid_table none = true
valid_table (some us) = valid_word us

abbrev pub same_key : List Token → Option (List Token) → List Token → Option (List Token) → Bool
same_key ts us vs ws = same_word ts vs && same_table us ws

abbrev pub valid_key : List Token → Option (List Token) → Bool
valid_key ts us = valid_word ts && valid_table us

-- the pattern of a table, where there is one
abbrev pub table_word : Bytes → Option (List Token)
table_word [] = none
table_word (c ∷ cs) = some (tokens zero (c ∷ cs))

module _ {A : Type 0} where
  -- The rules at a schema's item, and those of a table below it.
  abbrev pub rules_of : Payload A → Option (List Token) → List A
  rules_of p none = p.0
  rules_of p (some ws) = (payload_of (item_at (node_of p.1) ws)).0

  -- The rules that a trie holds under two patterns.
  abbrev pub rules_at : Node A → Store A
  rules_at n vs ws = rules_of (payload_of (item_at n vs)) ws

  abbrev pub put : Store A → List Token → Option (List Token) → List A → Store A
  put st ts us rules vs ws = if same_key ts us vs ws then rules else st vs ws

  -- The rules at a key after an insertion, and whether it fails.
  abbrev pub inserted : A → InsertType → List A → List A × Bool
  inserted rule inserts [] = (rule ∷ [], false)
  inserted rule inserts (r ∷ rs) = (r ∷ rs, true)
  inserted rule replaces rs = (rule ∷ [], false)
  inserted rule appends rs = (rs ++ rule ∷ [], false)

  -- the rules at a key after a removal
  abbrev pub removed : List A → List A × Bool
  removed [] = ([], true)
  removed (r ∷ rs) = ([], false)

  -- A change at one valid key; an invalid key fails.
  unfoldable pub change_at :
      (List A → List A × Bool) → Store A → List Token → Option (List Token) → Store A × Bool
  change_at f st ts us =
      if valid_key ts us then (put st ts us (f (st ts us)).0, (f (st ts us)).1) else (st, true)

  -- `Insert` as it is documented.
  unfoldable pub store_insert : Store A → Bytes → Bytes → Option A → InsertType → Store A × Bool
  unfolding change_at tokens
  store_insert st [] table rule type = (st, true)
  store_insert st (s ∷ ss) table none type = (st, true)
  store_insert st (s ∷ ss) table (some rule) type =
      change_at (inserted rule type) st (tokens zero (s ∷ ss)) (table_word table)

  unfoldable pub store_remove : Store A → Bytes → Bytes → Store A × Bool
  unfolding change_at tokens
  store_remove st [] table = (st, true)
  store_remove st (s ∷ ss) table = change_at removed st (tokens zero (s ∷ ss)) (table_word table)
