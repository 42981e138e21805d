-- ===== src/RuleSelector/Paths.antt =====
-- Where a pattern leads in the trie of pkg/table-rule-selector/trie_selector.go.
use tidb_tools.Prelude.{
  ℕ, ◌≡◌, refl, ◌∙◌, sym, ap, Bool, true, false, not, ◌&&◌, List, [], ◌∷◌, ◌==◌, arith, ==_iff,
  if◌then◌else◌,
}
use tidb_tools.RuleSelector.Pattern.{RangeItem, equal, Token, star, any, range, char}
use tidb_tools.RuleSelector.Trie.{
  Node, node, Slot, absent, present, Item, item, nil, level, Chars, no_chars, char_item, Ranges,
  no_ranges, range_item, new_node, child, Payload, get_payload, get_char, set_char, get_range,
  set_range, get_item, set_item, open_item, is_star,
}
use tidb_tools.RuleSelector.Equal.{
  equal_sym, equal_trans, same_token, same_token_self, same_token_sym, same_token_trans,
}

-- A pattern whose asterisk, if any, is its last place.
abbrev pub valid_word : List Token → Bool
valid_word [] = true
valid_word (t ∷ []) = true
valid_word (t ∷ u ∷ ts) = not (is_star t) && valid_word (u ∷ ts)

unfoldable pub same_word : List Token → List Token → Bool
unfolding same_token
same_word [] [] = true
same_word (t ∷ ts) (u ∷ us) = same_token t u && same_word ts us
same_word _ _ = false

pub same_word_self : (ts : List Token) → same_word ts ts ≡ true
unfolding same_word
same_word_self [] = refl
same_word_self (t ∷ ts) = rw (same_token_self t, same_word_self ts)

pub same_word_trans :
    (ts us vs : List Token)
    → same_word ts us ≡ true
    → same_word us vs ≡ true
    → same_word ts vs ≡ true
unfolding same_word
same_word_trans [] [] [] h k = refl
same_word_trans (t ∷ ts) (u ∷ us) (v ∷ vs) h k =
    ground (arith, same_token_trans t u v, same_word_trans ts us vs)
same_word_trans _ _ _ h k = cc

pub same_word_sym : (ts us : List Token) → same_word ts us ≡ true → same_word us ts ≡ true
unfolding same_word
same_word_sym [] [] h = refl
same_word_sym (t ∷ ts) (u ∷ us) h = ground (arith, same_token_sym t u, same_word_sym ts us)
same_word_sym _ _ h = cc

module _ {A : Type 0} where
  get_char-set_char :
      (c d : ℕ) (i : Item A) (cs : Chars A)
      → get_char d (set_char c i cs) ≡ (if c == d then present i else get_char d cs)
  unfolding get_char set_char
  get_char-set_char c d i no_chars = refl
  get_char-set_char c d i (char_item e j cs) = ground (arith, get_char-set_char c d i cs)

  get_range-set_range :
      (q r : RangeItem) (i : Item A) (rs : Ranges A)
      → get_range r (set_range q i rs) ≡ (if equal q r then present i else get_range r rs)
  unfolding get_range set_range
  get_range-set_range q r i no_ranges = rw (equal_sym q r)
  get_range-set_range q r i (range_item s j rs) = ground (
    arith,
    get_range-set_range q r i rs,
    equal_sym q r,
    equal_sym q s,
    equal_sym r s,
    equal_trans q s r,
    equal_trans q r s,
    equal_trans r q s,
  )

  pub get_item-set_item :
      (t u : Token) (i : Item A) (n : Node A)
      → get_item u (set_item t i n) ≡ (if same_token t u then present i else get_item u n)
  unfolding get_item set_item same_token
  get_item-set_item star star i (node cs a q rs) = refl
  get_item-set_item any any i (node cs a q rs) = refl
  get_item-set_item (range r) (range s) i (node cs a q rs) = get_range-set_range r s i rs
  get_item-set_item (char c) (char d) i (node cs a q rs) = get_char-set_char c d i cs
  get_item-set_item star any i (node cs a q rs) = refl
  get_item-set_item star (range s) i (node cs a q rs) = refl
  get_item-set_item star (char d) i (node cs a q rs) = refl
  get_item-set_item any star i (node cs a q rs) = refl
  get_item-set_item any (range s) i (node cs a q rs) = refl
  get_item-set_item any (char d) i (node cs a q rs) = refl
  get_item-set_item (range r) star i (node cs a q rs) = refl
  get_item-set_item (range r) any i (node cs a q rs) = refl
  get_item-set_item (range r) (char d) i (node cs a q rs) = refl
  get_item-set_item (char c) star i (node cs a q rs) = refl
  get_item-set_item (char c) any i (node cs a q rs) = refl
  get_item-set_item (char c) (range s) i (node cs a q rs) = refl

  get_range-same :
      (q r : RangeItem) (rs : Ranges A) → equal q r ≡ true → get_range q rs ≡ get_range r rs
  unfolding get_range
  get_range-same q r no_ranges h = refl
  get_range-same q r (range_item s j rs) h =
      ground (arith, get_range-same q r rs, equal_sym q r, equal_trans q r s, equal_trans r q s)

  pub get_item-same :
      (t u : Token) (n : Node A) → same_token t u ≡ true → get_item t n ≡ get_item u n
  unfolding get_item same_token
  get_item-same star star n h = refl
  get_item-same any any n h = refl
  get_item-same (range r) (range s) (node cs a q rs) h = get_range-same r s rs h
  get_item-same (char c) (char d) n h = ap (λ e. get_item (char e) n) ((==_iff c d).0 h)
  get_item-same _ _ n h = cc

  pub get_item-new_node : (t : Token) → get_item t (new_node {A = A}) ≡ absent
  unfolding get_item get_char get_range
  get_item-new_node star = refl
  get_item-new_node any = refl
  get_item-new_node (range r) = refl
  get_item-new_node (char c) = refl

  -- The item at the end of a pattern, from an item and the node below it on.
  unfoldable pub item_from : Slot A → Node A → List Token → Slot A
  unfolding get_item
  item_from e n [] = e
  item_from e n (t ∷ ts) = elim (get_item t n) [
    | absent ↦ absent
    | present i ↦ item_from (present i) (child i) ts
  ]

  abbrev pub item_at : Node A → List Token → Slot A
  item_at n ts = item_from absent n ts

  abbrev pub below : Slot A → List Token → Slot A
  below absent ts = absent
  below (present i) ts = item_from (present i) (child i) ts

  pub item_from-cons :
      (e : Slot A) (n : Node A) (t : Token) (ts : List Token)
      → item_from e n (t ∷ ts) ≡ below (get_item t n) ts
  unfolding item_from
  item_from-cons e n t ts = go (get_item t n)
    where
      go :
          (s : Slot A)
          → elim s as (λ s. Slot A) [
            | absent ↦ absent
            | present i ↦ item_from (present i) (child i) ts
          ]
            ≡ below s ts
      go absent = refl
      go (present i) = refl

  abbrev pub payload_of : Slot A → Payload A
  payload_of absent = ([], nil)
  payload_of (present i) = get_payload i

  pub item_from-payload :
      (e f : Slot A) (n : Node A) (ts : List Token)
      → payload_of e ≡ payload_of f
      → payload_of (item_from e n ts) ≡ payload_of (item_from f n ts)
  unfolding item_from
  item_from-payload e f n [] h = h
  item_from-payload e f n (t ∷ ts) h =
      ap payload_of (item_from-cons e n t ts ∙ sym (item_from-cons f n t ts))

  pub item_from-new_node :
      (e : Slot A) (ts : List Token)
      → payload_of e ≡ ([], nil)
      → payload_of (item_from e new_node ts) ≡ ([], nil)
  unfolding item_from
  item_from-new_node e [] h = h
  item_from-new_node e (t ∷ ts) h =
      ap payload_of (item_from-cons e new_node t ts ∙ ap (λ s. below s ts) (get_item-new_node t))

  below-same :
      (ts us : List Token) (s : Slot A)
      → ((i : Item A) → item_from (present i) (child i) ts ≡ item_from (present i) (child i) us)
      → below s ts ≡ below s us
  below-same ts us absent f = refl
  below-same ts us (present i) f = f i

  -- Patterns that stand for the same places lead to the same item.
  pub item_from-same_word :
      (e : Slot A) (n : Node A) (ts us : List Token)
      → same_word ts us ≡ true
      → item_from e n ts ≡ item_from e n us
  unfolding same_word item_from
  item_from-same_word e n [] [] h = refl
  item_from-same_word e n (t ∷ ts) (u ∷ us) h =
      item_from-cons e n t ts
      ∙ below-same ts us (get_item t n)
          (λ i. item_from-same_word (present i) (child i) ts us (ground (arith, h)))
      ∙ ap (λ s. below s us) (get_item-same t u n (ground (arith, h)))
      ∙ sym (item_from-cons e n u us)
  item_from-same_word e n [] (u ∷ us) h = cc
  item_from-same_word e n (t ∷ ts) [] h = cc

  -- Opening an item changes nothing that is found.
  pub payload_of-open_item : (s : Slot A) → get_payload (open_item s) ≡ payload_of s
  payload_of-open_item absent = refl
  payload_of-open_item (present (item nil r n)) = refl
  payload_of-open_item (present (item (level m) r n)) = refl

  pub below-open_item :
      (s : Slot A) (ts : List Token)
      → payload_of (below (present (open_item s)) ts) ≡ payload_of (below s ts)
  unfolding item_from
  below-open_item absent ts = item_from-new_node _ ts refl
  below-open_item (present (item nil r n)) ts = item_from-payload _ _ new_node ts refl
  below-open_item (present (item (level m) r n)) ts = refl
