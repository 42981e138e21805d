-- ===== src/RuleSelector/Fresh.antt =====
-- What `Match` of pkg/table-rule-selector/trie_selector.go computes without its cache.
use mathlib.Core.Path.{subst}
use mathlib.Core.List.{append-nil, append_assoc}
use tidb_tools.Prelude.{
  zero, ◌≡◌, refl, ◌∙◌, sym, ap, Bool, true, List, [], ◌∷◌, ◌++◌, Option, none, some, inl, inr, In,
  In-append_left, In-append_right, In-append,
}
use tidb_tools.RuleSelector.Pattern.{Bytes, Token}
use tidb_tools.RuleSelector.Trie.{
  Node, Slot, absent, present, Item, item, Level, nil, level, node_of, child, Payload, get_item,
  get_payload, match_node,
}
use tidb_tools.RuleSelector.Paths.{item_from, item_at, payload_of, item_from-new_node}
use tidb_tools.RuleSelector.Distinct.{
  IsDistinct, SlotDistinct, LevelDistinct, get_item-SlotDistinct, child-IsDistinct,
  present-ItemDistinct, next-LevelDistinct,
}
use tidb_tools.RuleSelector.Reads.{reads, match_node-found}
use tidb_tools.RuleSelector.Finds.{match_node-finds}
use tidb_tools.RuleSelector.Selector.{
  MatchedResult, next_nodes, append_matched_item, append_all, matched, table_rules, match_fresh,
}
use tidb_tools.RuleSelector.Store.{Store, rules_at}

-- A table's pattern reads the table; a rule of a schema is for every table.
abbrev pub reads_table : Option (List Token) → Bytes → Bool
reads_table none table = true
reads_table (some ws) table = reads ws zero table

-- A rule that a store holds under a key that reads a schema and a table.
abbrev pub Holds : {A : Type 0} → Store A → Bytes → Bytes → A → Type 0
Holds st schema table r =
    (vs : List Token) × (ws : Option (List Token)) × In r (st vs ws)
    × (reads vs zero schema ≡ true)
    × (reads_table ws table ≡ true)

-- What a list of lists holds.
module _ {A B : Type 0} (f : A → List B) where
  flat : List A → List B
  flat [] = []
  flat (x ∷ xs) = f x ++ flat xs

  In-flat : (b : B) (xs : List A) → In b (flat xs) → (x : A) × In x xs × In b (f x)
  unfolding flat
  In-flat b [] h = absurd h
  In-flat b (x ∷ xs) h = elim (In-append b (f x) (flat xs) h) [
    | inl g ↦ (x, inl refl, g)
    | inr g ↦ let (y, k, l) = In-flat b xs g in (y, inr k, l)
  ]

  flat-In : (b : B) (xs : List A) (x : A) → In x xs → In b (f x) → In b (flat xs)
  unfolding flat
  flat-In b [] x g h = absurd g
  flat-In b (y ∷ xs) x (inl e) h = In-append_left b (f y) (flat xs) (subst (λ x. In b (f x)) e h)
  flat-In b (y ∷ xs) x (inr g) h = In-append_right b (f y) (flat xs) (flat-In b xs x g h)

module _ {A : Type 0} where
  abbrev rule : Item A → List A
  rule i = (get_payload i).0

  abbrev next : Item A → List (Node A)
  next i = next_nodes (get_payload i).1

  append_all-rules :
      (is : List (Item A)) (mr : MatchedResult A)
      → (append_all is mr).rules ≡ mr.rules ++ flat rule is
  unfolding append_all flat
  append_all-rules [] mr = sym (append-nil mr.rules)
  append_all-rules (item c rs n ∷ is) mr =
      append_all-rules is (append_matched_item (item c rs n) mr)
      ∙ append_assoc mr.rules rs (flat rule is)

  append_all-nodes :
      (is : List (Item A)) (mr : MatchedResult A)
      → (append_all is mr).nodes ≡ mr.nodes ++ flat next is
  unfolding append_all flat
  append_all-nodes [] mr = sym (append-nil mr.nodes)
  append_all-nodes (item c rs n ∷ is) mr =
      append_all-nodes is (append_matched_item (item c rs n) mr)
      ∙ append_assoc mr.nodes (next_nodes n) (flat next is)

  table_rules-flat :
      (ns : List (Node A)) (table : Bytes)
      → table_rules ns table ≡ flat (λ (n : Node A). (matched n table).rules) ns
  unfolding table_rules flat
  table_rules-flat [] table = refl
  table_rules-flat (n ∷ ns) table =
      ap (λ rs. (matched n table).rules ++ rs) (table_rules-flat ns table)

  item_from-SlotDistinct :
      (e : Slot A) (n : Node A) (ts : List Token)
      → SlotDistinct e
      → IsDistinct n
      → SlotDistinct (item_from e n ts)
  unfolding item_from
  item_from-SlotDistinct e n [] d h = d
  item_from-SlotDistinct e n (t ∷ ts) d h = go (get_item t n) (get_item-SlotDistinct t n h) (λ i g.
      item_from-SlotDistinct (present i) (child i) ts g
        (child-IsDistinct i (present-ItemDistinct i g)))
    where
      go :
          (s : Slot A)
          → SlotDistinct s
          → ((i : Item A)
              → SlotDistinct (present i)
              → SlotDistinct (item_from (present i) (child i) ts))
          → SlotDistinct (elim s as (λ s. Slot A) [
            | absent ↦ absent
            | present i ↦ item_from (present i) (child i) ts
          ])
      go absent g k = g
      go (present i) g k = k i g

  module _ (n : Node A) (s : Bytes) where
    -- what is read off the matched items
    module _ {B : Type 0} (f : Payload A → List B) where
      matched-found :
          (b : B)
          → IsDistinct n
          → In b (flat (λ (i : Item A). f (get_payload i)) (match_node n absent zero s))
          → (w : List Token) × In b (f (payload_of (item_at n w))) × (reads w zero s ≡ true)
      matched-found b d h =
          let (i, g, k) = In-flat _ b (match_node n absent zero s) h in
          let (w, p, q) = match_node-found s zero n absent i d g in
          (w, subst (λ e. In b (f (payload_of e))) (sym p) k, q)

      matched-finds :
          (b : B) (w : List Token)
          → (f ([], nil) ≡ [])
          → In b (f (payload_of (item_at n w)))
          → reads w zero s ≡ true
          → In b (flat (λ (i : Item A). f (get_payload i)) (match_node n absent zero s))
      matched-finds b w nothing h q = go (item_at n w) refl h
        where
          go :
              (e : Slot A)
              → item_at n w ≡ e
              → In b (f (payload_of e))
              → In b (flat (λ (i : Item A). f (get_payload i)) (match_node n absent zero s))
          go absent p h = absurd (subst (In b) nothing h)
          go (present i) p h = flat-In _ b _ i (match_node-finds s zero n absent i w p q) h

  module _ (n : Node A) (s : Bytes) where
    abbrev matched_items : List (Item A)
    matched_items = match_node n absent zero s

    matched-rules : (matched n s).rules ≡ flat rule matched_items
    unfolding matched
    matched-rules = append_all-rules matched_items (record { nodes = []; rules = [] })

    matched-nodes : (matched n s).nodes ≡ flat next matched_items
    unfolding matched
    matched-nodes = append_all-nodes matched_items (record { nodes = []; rules = [] })

  In-next_nodes : (m : Node A) (l : Level A) → In m (next_nodes l) → l ≡ level m
  In-next_nodes m nil h = absurd h
  In-next_nodes m (level k) (inl e) = ap level (sym e)
  In-next_nodes m (level k) (inr h) = absurd h

  payload-LevelDistinct : (e : Slot A) → SlotDistinct e → LevelDistinct (payload_of e).1
  payload-LevelDistinct absent h = unfold IsDistinct in tt
  payload-LevelDistinct (present i) h = next-LevelDistinct i (present-ItemDistinct i h)

  next-IsDistinct :
      (n m : Node A) (w : List Token)
      → IsDistinct n
      → (payload_of (item_at n w)).1 ≡ level m
      → IsDistinct m
  unfolding IsDistinct
  next-IsDistinct n m w d e =
      subst LevelDistinct e (payload-LevelDistinct _ (item_from-SlotDistinct absent n w tt d))

  -- `Match` without its cache finds what the trie holds under keys that read the names.
  pub match_fresh-found :
      (root : Node A) (schema table : Bytes) (r : A)
      → IsDistinct root
      → In r (match_fresh root schema table)
      → Holds (rules_at root) schema table r
  unfolding match_fresh
  match_fresh-found root schema table r d h = elim (In-append r (matched root schema).rules _ h) [
    | inl g ↦
        let (w, k, q) =
          matched-found root schema (λ (p : Payload A). p.0) r d
            (subst (In r) (matched-rules root schema) g) in
        (w, none, k, q, refl)
    | inr g ↦
        let (m, k, l) =
          In-flat (λ (n : Node A). (matched n table).rules) r _
            (subst (In r) (table_rules-flat (matched root schema).nodes table) g) in
        let (w, e, q) =
          matched-found root schema (λ (p : Payload A). next_nodes p.1) m d
            (subst (In m) (matched-nodes root schema) k) in
        let at = In-next_nodes m _ e in
        let (v, o, u) =
          matched-found m table (λ (p : Payload A). p.0) r (next-IsDistinct root m w d at)
            (subst (In r) (matched-rules m table) l) in
        (w, some v, subst (λ l. In r (payload_of (item_at (node_of l) v)).0) (sym at) o, q, u)
  ]

  In-level : (m : Node A) (l : Level A) → l ≡ level m → In m (next_nodes l)
  In-level m l e = subst (λ l. In m (next_nodes l)) (sym e) (inl refl)

  pub match_fresh-finds :
      (root : Node A) (schema table : Bytes) (r : A)
      → Holds (rules_at root) schema table r
      → In r (match_fresh root schema table)
  unfolding match_fresh
  match_fresh-finds root schema table r (vs, none, h, p, q) =
      In-append_left r (matched root schema).rules _ (
        subst (In r) (sym (matched-rules root schema))
          (matched-finds root schema (λ (p : Payload A). p.0) r vs refl h p))
  match_fresh-finds root schema table r (vs, some ws, h, p, q) =
      In-append_right r (matched root schema).rules _ (go (payload_of (item_at root vs)).1 refl h)
    where
      go :
          (l : Level A)
          → (payload_of (item_at root vs)).1 ≡ l
          → In r (payload_of (item_at (node_of l) ws)).0
          → In r (table_rules (matched root schema).nodes table)
      go nil e h =
          absurd (subst (λ (p : Payload A). In r p.0) (item_from-new_node absent ws refl) h)
      go (level m) e h = subst (In r) (sym (table_rules-flat (matched root schema).nodes table)) (
          flat-In (λ (n : Node A). (matched n table).rules) r (matched root schema).nodes m
            (subst (In m) (sym (matched-nodes root schema)) (
              matched-finds root schema (λ (p : Payload A). next_nodes p.1) m vs refl
                (In-level m _ e) p))
            (subst (In r) (sym (matched-rules m table))
              (matched-finds m table (λ (p : Payload A). p.0) r ws refl h q)))
