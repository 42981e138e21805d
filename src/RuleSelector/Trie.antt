-- ===== src/RuleSelector/Trie.antt =====
-- The trie of pkg/table-rule-selector/trie_selector.go: nodes and items, the loops of `insert` and
-- `track`, and `matchNode`. No node is shared, so that a change makes a new trie.
use tidb_tools.Prelude.{
  ℕ, zero, suc, Bool, true, false, List, [], ◌∷◌, ◌++◌, Option, none, some, ◌==◌, if◌then◌else◌,
}
use tidb_tools.RuleSelector.Pattern.{
  Bytes, RangeItem, equal, match_char, Token, star, any, range, char, rune_rest,
}

-- `Slot` is an `item` that may be nil, `Level` a `*node` that may be nil. A child and a next level
-- are both nodes of their own.
mutual
  pub data Node (A : Type 0) : Type 0 where
    node : Chars A → Slot A → Slot A → Ranges A → Node A

  pub data Slot (A : Type 0) : Type 0 where
    absent : Slot A
    present : Item A → Slot A

  -- child, rule and next level; a nil rule is the empty list
  pub data Item (A : Type 0) : Type 0 where
    item : Level A → List A → Level A → Item A

  pub data Level (A : Type 0) : Type 0 where
    nil : Level A
    level : Node A → Level A

  pub data Chars (A : Type 0) : Type 0 where
    no_chars : Chars A
    char_item : ℕ → Item A → Chars A → Chars A

  pub data Ranges (A : Type 0) : Type 0 where
    no_ranges : Ranges A
    range_item : RangeItem → Item A → Ranges A → Ranges A

-- the rule and the next level of an item: what the operations read of it
abbrev pub Payload : Type 0 → Type 0
Payload A = List A × Level A

module _ {A : Type 0} where
  abbrev pub new_node : Node A
  new_node = node no_chars absent absent no_ranges

  -- `nil` reads as a node with no items: nothing is found in either.
  abbrev pub node_of : Level A → Node A
  node_of nil = new_node
  node_of (level n) = n

  abbrev pub child : Item A → Node A
  child (item c r n) = node_of c

  abbrev pub get_payload : Item A → Payload A
  get_payload (item c r n) = (r, n)

  abbrev pub set_payload : Item A → Payload A → Item A
  set_payload (item c r n) (r', n') = item c r' n'

  abbrev pub set_child : Item A → Node A → Item A
  set_child (item c r n) m = item (level m) r n

  -- `n.characters[c]`
  unfoldable pub get_char : ℕ → Chars A → Slot A
  get_char c no_chars = absent
  get_char c (char_item d i cs) = if d == c then present i else get_char c cs

  unfoldable pub set_char : ℕ → Item A → Chars A → Chars A
  set_char c i no_chars = char_item c i no_chars
  set_char c i (char_item d j cs) =
      if d == c then char_item d i cs else char_item d j (set_char c i cs)

  -- the search of `n.rItems` for an equal range, and the change of what it finds, or of the end
  unfoldable pub get_range : RangeItem → Ranges A → Slot A
  unfolding equal
  get_range r no_ranges = absent
  get_range r (range_item q i rs) = if equal r q then present i else get_range r rs

  unfoldable pub set_range : RangeItem → Item A → Ranges A → Ranges A
  unfolding equal
  set_range r i no_ranges = range_item r i no_ranges
  set_range r i (range_item q j rs) =
      if equal r q then range_item q i rs else range_item q j (set_range r i rs)

  unfoldable pub get_item : Token → Node A → Slot A
  unfolding get_char get_range
  get_item star (node cs a q rs) = a
  get_item any (node cs a q rs) = q
  get_item (range r) (node cs a q rs) = get_range r rs
  get_item (char c) (node cs a q rs) = get_char c cs

  unfoldable pub set_item : Token → Item A → Node A → Node A
  unfolding set_char set_range
  set_item star i (node cs a q rs) = node cs (present i) q rs
  set_item any i (node cs a q rs) = node cs a (present i) rs
  set_item (range r) i (node cs a q rs) = node cs a q (set_range r i rs)
  set_item (char c) i (node cs a q rs) = node (set_char c i cs) a q rs

  -- an item is made where there is none, and gets a child where it has none
  abbrev pub open_item : Slot A → Item A
  open_item absent = item (level new_node) [] nil
  open_item (present (item nil r n)) = item (level new_node) r n
  open_item (present (item (level m) r n)) = item (level m) r n

-- The kinds of the errors. The texts that `Annotate` adds are left out.
pub data Error : Type 0 where
  empty_rule : Error
  not_valid already_exists not_found : Bytes → Error

abbrev pub is_star : Token → Bool
is_star star = true
is_star _ = false

module _ {A : Type 0} (change : Payload A → Payload A × Option Error) where
  abbrev pub change_item : Item A → Item A × Option Error
  change_item i = let (p, e) = change (get_payload i) in (set_payload i p, e)

  -- The loop of `insert`: the last item is changed, and the nodes on the way stay also where the
  -- pattern is found to be invalid. An empty pattern does not come up.
  unfoldable pub walk : Bytes → Node A → List Token → Node A × Option Error
  unfolding get_item set_item
  walk pattern n [] = (n, none)
  walk pattern n (t ∷ []) =
      let (i, e) = change_item (open_item (get_item t n)) in (set_item t i n, e)
  walk pattern n (t ∷ u ∷ ts) =
      let i = open_item (get_item t n) in
      let below = walk pattern (child i) (u ∷ ts) in
      if is_star t
      then (set_item t i n, some (not_valid pattern))
      else (set_item t (set_child i below.0) n, below.1)

  -- The loop of `track`, with the change that `Remove` makes to the last item of the track.
  unfoldable pub track : Bytes → Node A → List Token → Node A × Option Error
  unfolding get_item set_item
  track pattern n [] = (n, none)
  track pattern n (t ∷ []) = elim (get_item t n) [
    | absent ↦ (n, some (not_found pattern))
    | present i ↦ let (j, e) = change_item i in (set_item t j n, e)
  ]
  track pattern n (t ∷ u ∷ ts) = elim (get_item t n) [
    | absent ↦ (n, some (not_found pattern))
    | present i ↦
        let below = track pattern (child i) (u ∷ ts) in
        if is_star t
        then (n, some (not_valid pattern))
        else (set_item t (set_child i below.0) n, below.1)
  ]

module _ {A : Type 0} where
  abbrev pub items : Slot A → List (Item A)
  items absent = []
  items (present i) = i ∷ []

  -- an item behind which the text may end, at the last byte of the text
  abbrev pub if_last : Bytes → Item A → List (Item A)
  if_last [] i = i ∷ []
  if_last (c ∷ cs) i = []

  unfoldable pub match_slot : (Item A → List (Item A)) → Slot A → List (Item A)
  match_slot f absent = []
  match_slot f (present i) = f i

  unfoldable pub match_ranges : (Item A → List (Item A)) → ℕ → Ranges A → List (Item A)
  unfolding match_char
  match_ranges f c no_ranges = []
  match_ranges f c (range_item r i rs) = (if match_char r c then f i else []) ++ match_ranges f c rs

  abbrev pub ranges_of : Node A → Ranges A
  ranges_of (node cs a q rs) = rs

  -- `matchNode`: the items that it appends, in order. The slot is `entity`, and the number counts
  -- the bytes that `range` still passes over.
  unfoldable pub match_node : Node A → Slot A → ℕ → Bytes → List (Item A)
  unfolding get_item match_slot match_ranges rune_rest
  match_node n e k [] = items e ++ items (get_item star n)
  match_node n e (suc k) (c ∷ cs) = match_node n e k cs
  match_node n e zero (c ∷ cs) =
      let rest = λ (i : Item A). if_last cs i ++ match_node (child i) absent zero cs in
      let along = λ (i : Item A). match_node (child i) (present i) (rune_rest c cs) cs in
      items (get_item star n)
      ++ (match_slot rest (get_item any n)
          ++ (match_ranges rest c (ranges_of n) ++ match_slot along (get_item (char c) n)))
