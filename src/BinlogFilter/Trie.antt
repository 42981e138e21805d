-- ===== src/BinlogFilter/Trie.antt =====
-- The selector that `NewBinlogEvent` of pkg/binlog-filter/filter.go makes, by `NewTrieSelector` of
-- pkg/table-rule-selector/trie_selector.go. Its cache is left out: RuleSelector/Answers is about it.
use mathlib.Core.Path.{subst}
use tidb_tools.Prelude.{
  String, zero, ◌≡◌, ◌⊎◌, refl, sym, Bool, not, List, [], ◌∷◌, Option, some, inl, inr, In,
  In-append, All-In, In-All, Bool-cases,
}
use tidb_tools.Prelude.Text.{bytes}
use tidb_tools.RuleSelector.Pattern.{Bytes, Token, tokens}
use tidb_tools.RuleSelector.Trie.{Node, new_node, Error}
use tidb_tools.RuleSelector.Distinct.{IsDistinct, new_node-IsDistinct}
use tidb_tools.RuleSelector.Tracks.{failed}
use tidb_tools.RuleSelector.Selector as Trie
use tidb_tools.RuleSelector.Selector.{TrieSelector, new_trie_selector, match_fresh}
use tidb_tools.RuleSelector.Store.{
  Store, rules_at, put, same_key, valid_key, inserted, removed, change_at, store_insert,
  store_remove, table_word,
}
use tidb_tools.RuleSelector.Refines.{insert-store_insert, remove-store_remove}
use tidb_tools.RuleSelector.Kept.{insert-IsDistinct, remove-IsDistinct}
use tidb_tools.RuleSelector.Failing.{Respects, rules_at-Respects}
use tidb_tools.RuleSelector.Fresh.{Holds, match_fresh-found, match_fresh-finds}
use tidb_tools.RuleSelector.Cached.{new_trie_selector-Implements}
use tidb_tools.BinlogFilter.Filter.{InsertType, inserts, replaces, Selector}
use tidb_tools.BinlogFilter.Sound.{IsSelector}

abbrev pub insert_type : InsertType → Trie.InsertType
insert_type inserts = Trie.inserts
insert_type replaces = Trie.replaces

-- a trie whose nodes hold no range twice
abbrev pub TrieState : Type 0 → Type 0
TrieState A = (n : Node A) × IsDistinct n

module _ {A : Type 0} where
  abbrev pub selector_of : TrieState A → TrieSelector A
  selector_of s = record { cache = []; root = s.0 }

  abbrev pub trie_insert :
      TrieState A → String → String → A → InsertType → TrieSelector A × Option Error
  trie_insert s schema table a type =
      Trie.insert (selector_of s) (bytes schema) (bytes table) (some a) (insert_type type)

  abbrev pub trie_remove : TrieState A → String → String → TrieSelector A × Option Error
  trie_remove s schema table = Trie.remove (selector_of s) (bytes schema) (bytes table)

abbrev pub trie_selector : (A : Type 0) → Selector A
trie_selector A = record {
  State = TrieState A;
  new_trie_selector = (new_node, new_node-IsDistinct A);
  insert = λ s schema table a type. (
    (
      (trie_insert s schema table a type).0.root,
      insert-IsDistinct (selector_of s) (bytes schema) (bytes table) (some a) (insert_type type)
          s.1,
    ),
    not (failed (trie_insert s schema table a type).1),
  );
  match_rules = λ s schema table. match_fresh s.0 (bytes schema) (bytes table);
  remove = λ s schema table. (
    (
      (trie_remove s schema table).0.root,
      remove-IsDistinct (selector_of s) (bytes schema) (bytes table) s.1,
    ),
    not (failed (trie_remove s schema table).1),
  );
}

module _ {A : Type 0} (Q : A → Type 0) where
  -- What a change adds to the rules of a key is all that it adds to what is found.
  change_at-Holds :
      (f : List A → List A × Bool)
      → ((rs : List A) (a : A) → In a (f rs).0 → In a rs ⊎ Q a)
      → (st : Store A) (ts : List Token) (us : Option (List Token)) (x y : Bytes) (a : A)
      → Respects st
      → Holds (change_at f st ts us).0 x y a
      → Holds st x y a ⊎ Q a
  unfolding change_at
  change_at-Holds f adds st ts us x y a r h = elim (Bool-cases (valid_key ts us)) [
    | inl v ↦ go (rw v at h)
    | inr v ↦ inl (rw v at h)
  ]
    where
      go : Holds (put st ts us (f (st ts us)).0) x y a → Holds st x y a ⊎ Q a
      go (vs, ws, i, p, q) = elim (Bool-cases (same_key ts us vs ws)) [
        | inl k ↦ elim (adds (st ts us) a (rw k at i)) [
          | inl j ↦ inl (vs, ws, subst (In a) (r ts us vs ws k) j, p, q)
          | inr j ↦ inr j
        ]
        | inr k ↦ inl (vs, ws, rw k at i, p, q)
      ]

module _ {A : Type 0} where
  inserted-In :
      (b : A) (type : Trie.InsertType) (rs : List A) (a : A)
      → In a (inserted b type rs).0
      → In a rs ⊎ (a ≡ b)
  inserted-In b Trie.inserts [] a (inl e) = inr e
  inserted-In b Trie.inserts [] a (inr h) = absurd h
  inserted-In b Trie.inserts (r ∷ rs) a h = inl h
  inserted-In b Trie.replaces rs a (inl e) = inr e
  inserted-In b Trie.replaces rs a (inr h) = absurd h
  inserted-In b Trie.appends rs a h = elim (In-append a rs (b ∷ []) h) [
    | inl g ↦ inl g
    | inr g ↦ inr (last g)
  ]
    where
      last : In a (b ∷ []) → a ≡ b
      last (inl e) = e
      last (inr g) = absurd g

  removed-In : (rs : List A) (a : A) → In a (removed rs).0 → In a rs ⊎ ⊥
  removed-In [] a h = absurd h
  removed-In (r ∷ rs) a h = absurd h

  store_insert-Holds :
      (st : Store A) (schema table : Bytes) (b : A) (type : Trie.InsertType) (x y : Bytes) (a : A)
      → Respects st
      → Holds (store_insert st schema table (some b) type).0 x y a
      → Holds st x y a ⊎ (a ≡ b)
  unfolding store_insert
  store_insert-Holds st [] table b type x y a r h = inl h
  store_insert-Holds st (s ∷ ss) table b type x y a r h =
      change_at-Holds (λ (a : A). a ≡ b) (inserted b type) (inserted-In b type) st
        (tokens zero (s ∷ ss)) (table_word table) x y a r h

  store_remove-Holds :
      (st : Store A) (schema table : Bytes) (x y : Bytes) (a : A)
      → Respects st
      → Holds (store_remove st schema table).0 x y a
      → Holds st x y a
  unfolding store_remove
  store_remove-Holds st [] table x y a r h = h
  store_remove-Holds st (s ∷ ss) table x y a r h =
      elim (change_at-Holds (λ (a : A). ⊥) removed removed-In st (tokens zero (s ∷ ss))
        (table_word table) x y a r h) [ inl g ↦ g | inr g ↦ absurd g ]

  match_fresh-insert :
      (s : TrieState A) (schema table : String) (b : A) (type : InsertType) (x y : Bytes) (a : A)
      → In a (match_fresh (trie_insert s schema table b type).0.root x y)
      → In a (match_fresh s.0 x y) ⊎ (a ≡ b)
  match_fresh-insert s schema table b type x y a h =
      let t = selector_of s in
      let d = insert-IsDistinct t (bytes schema) (bytes table) (some b) (insert_type type) s.1 in
      let e = (insert-store_insert t (bytes schema) (bytes table) (some b) (insert_type type)).0 in
      elim (store_insert-Holds (rules_at s.0) (bytes schema) (bytes table) b (insert_type type) x y
        a (rules_at-Respects s.0)
        (subst (λ st. Holds st x y a) e (match_fresh-found _ x y a d h))) [
          | inl g ↦ inl (match_fresh-finds s.0 x y a g)
          | inr g ↦ inr g
        ]

  match_fresh-remove :
      (s : TrieState A) (schema table : String) (x y : Bytes) (a : A)
      → In a (match_fresh (trie_remove s schema table).0.root x y)
      → In a (match_fresh s.0 x y)
  match_fresh-remove s schema table x y a h =
      let t = selector_of s in
      let d = remove-IsDistinct t (bytes schema) (bytes table) s.1 in
      let e = (remove-store_remove t (bytes schema) (bytes table)).0 in
      match_fresh-finds s.0 x y a (
        store_remove-Holds (rules_at s.0) (bytes schema) (bytes table) x y a (rules_at-Respects s.0)
          (subst (λ st. Holds st x y a) e (match_fresh-found _ x y a d h)))

  no_members : (xs : List A) → ((a : A) → In a xs → ⊥) → xs ≡ []
  no_members [] h = refl
  no_members (x ∷ xs) h = absurd (h x (inl refl))

  match_fresh-new : (x y : Bytes) → match_fresh (new_node {A = A}) x y ≡ []
  match_fresh-new x y = no_members _ (λ a h. none_held a (
      subst (λ st. Holds st x y a) new_trie_selector-Implements.rules
        (match_fresh-found new_node x y a (new_node-IsDistinct A) h)))
    where
      none_held : (a : A) → Holds (λ vs ws. []) x y a → ⊥
      none_held a (vs, ws, i, p, q) = i

-- The trie finds nothing when it is new, and a change of it, whether it succeeds or fails, brings
-- in no rule but the inserted one, for names and patterns in UTF-8: it is a selector as
-- `BinlogEvent` needs one.
pub trie_selector-IsSelector : (A : Type 0) → IsSelector (trie_selector A)
trie_selector-IsSelector A = record {
  match_new = λ x y. match_fresh-new (bytes x) (bytes y);
  match_insert = λ P s schema table b type h p x y. All-In P _ (λ a g.
      elim (match_fresh-insert s schema table b type (bytes x) (bytes y) a g) [
        | inl k ↦ In-All P _ a (h x y) k
        | inr e ↦ subst P (sym e) p
      ]);
  match_remove = λ P s schema table h x y.
      All-In P _
        (λ a g. In-All P _ a (h x y) (match_fresh-remove s schema table (bytes x) (bytes y) a g));
}
