-- ===== src/RuleSelector/Literal.antt =====
-- Patterns without wildcards of pkg/table-rule-selector/trie_selector.go, and the names that they
-- match. `insert` goes byte by byte and `matchNode` character by character.
use mathlib.Core.Path.{subst}
use tidb_tools.Prelude.{
  ℕ, zero, suc, ◌+◌, ◌≤◌, ◌≡◌, ◌≢◌, ◌↔◌, refl, ◌∙◌, sym, ap, ap₂, Bool, true, false, ◌&&◌, List, [],
  ◌∷◌, none, some, inl, inr, length, arith, ◌==◌, ==_iff, Bool-cases, if◌then◌else◌, map, All, In,
}
use tidb_tools.RuleSelector.Pattern.{
  Bytes, Token, star, any, range, char, tokens, rune_rest, follow,
}
use tidb_tools.RuleSelector.Equal.{same_token}
use tidb_tools.RuleSelector.Paths.{same_word, same_word_self, valid_word}
use tidb_tools.RuleSelector.Reads.{reads}
use tidb_tools.RuleSelector.Trie.{Node}
use tidb_tools.RuleSelector.Distinct.{IsDistinct, new_node-IsDistinct}
use tidb_tools.RuleSelector.Selector.{inserts, new_trie_selector, insert, match_fresh}
use tidb_tools.RuleSelector.Store.{
  Store, rules_at, put, same_key, same_table, store_insert, change_at,
}
use tidb_tools.RuleSelector.Refines.{insert-store_insert}
use tidb_tools.RuleSelector.Kept.{insert-IsDistinct}
use tidb_tools.RuleSelector.Fresh.{Holds, match_fresh-found, match_fresh-finds}
use tidb_tools.RuleSelector.Cached.{new_trie_selector-Implements}

and_left : (a b : Bool) → (a && b) ≡ true → a ≡ true
and_left a b h = ground arith

and_right : (a b : Bool) → (a && b) ≡ true → b ≡ true
and_right a b h = ground arith

self : (c : ℕ) → (c == c) ≡ true
self c = ground arith

-- A byte that is no wildcard and opens no range.
abbrev pub IsLiteral : Bytes → Type 0
IsLiteral = All (λ (c : ℕ). (c ≢ b'*') × (c ≢ b'?') × (c ≢ b'['))

-- Every byte is a character by itself.
abbrev pub IsSingle : Bytes → Type 0
IsSingle [] = Unit
IsSingle (c ∷ cs) = (rune_rest c cs ≡ 0) × IsSingle cs

tokens-literal : (s : Bytes) → IsLiteral s → tokens zero s ≡ map char s
unfolding tokens
tokens-literal [] h = refl
tokens-literal (c ∷ s) ((p, q, r), h) =
    rw (other c b'*' p, other c b'?' q, other c b'[' r)
      (ap (λ ts. char c ∷ ts) (tokens-literal s h))
  where
    other : (a b : ℕ) → a ≢ b → (a == b) ≡ false
    other a b n = elim (Bool-cases (a == b)) [ inl e ↦ absurd (n ((==_iff a b).0 e)) | inr e ↦ e ]

follow-le : (k low high : ℕ) (cs : Bytes) → follow k low high cs ≡ true → k ≤ length cs
unfolding follow
follow-le zero low high cs h = omega arith
follow-le (suc k) low high [] h = cc
follow-le (suc k) low high (c ∷ cs) h = ground (arith, follow-le k 0x80 0xBF cs)

rune_rest-le : (c : ℕ) (cs : Bytes) → rune_rest c cs ≤ length cs
unfolding rune_rest
rune_rest-le c cs = ground (
  arith,
  follow-le 1 0x80 0xBF cs,
  follow-le 2 (if c == 0xE0 then 0xA0 else 0x80) (if c == 0xED then 0x9F else 0xBF) cs,
  follow-le 3 (if c == 0xF0 then 0x90 else 0x80) (if c == 0xF4 then 0x8F else 0xBF) cs,
)

-- A text that is read holds a byte for each byte of the pattern, and those passed over.
reads-length :
    (ds cs : Bytes) (k : ℕ)
    → reads (map char ds) k cs ≡ true
    → k ≤ length cs
    → length ds + k ≤ length cs
unfolding reads
reads-length [] [] k h l = omega arith
reads-length (d ∷ ds) [] k h l = cc
reads-length ds (c ∷ cs) (suc k) h l = omega (arith, reads-length ds cs k h (omega arith))
reads-length [] (c ∷ cs) zero h l = cc
reads-length (d ∷ ds) (c ∷ cs) zero h l =
    omega (arith, reads-length ds cs (rune_rest c cs) (ground (arith, h)) (rune_rest-le c cs))

-- A literal pattern reads its own text exactly if that has no character of several bytes.
read-IsSingle : (s : Bytes) → reads (map char s) zero s ≡ true → IsSingle s
unfolding reads
read-IsSingle [] h = tt
read-IsSingle (c ∷ cs) h =
    let rest = and_right (c == c) (reads (map char cs) (rune_rest c cs) cs) h in
    let e : rune_rest c cs ≡ 0 =
      omega (arith, reads-length cs cs (rune_rest c cs) rest (rune_rest-le c cs)) in
    (e, read-IsSingle cs (rw e at rest))

IsSingle-reads : (s : Bytes) → IsSingle s → reads (map char s) zero s ≡ true
unfolding reads
IsSingle-reads [] h = refl
IsSingle-reads (c ∷ cs) (e, h) = rw (e, self c) (IsSingle-reads cs h)

valid-map_char : (s : Bytes) → valid_word (map char s) ≡ true
valid-map_char [] = refl
valid-map_char (c ∷ []) = refl
valid-map_char (c ∷ d ∷ s) = valid-map_char (d ∷ s)

same_word-map_char :
    (s : Bytes) (vs : List Token) → same_word (map char s) vs ≡ true → map char s ≡ vs
unfolding same_word same_token
same_word-map_char [] [] h = refl
same_word-map_char [] (v ∷ vs) h = cc
same_word-map_char (c ∷ s) [] h = cc
same_word-map_char (c ∷ s) (char d ∷ vs) h =
    ap₂ (λ x xs. char x ∷ xs) ((==_iff c d).0 (and_left (c == d) (same_word (map char s) vs) h))
      (same_word-map_char s vs (and_right (c == d) (same_word (map char s) vs) h))
same_word-map_char (c ∷ s) (star ∷ vs) h = cc
same_word-map_char (c ∷ s) (any ∷ vs) h = cc
same_word-map_char (c ∷ s) (range r ∷ vs) h = cc

store_insert_literal :
    {A : Type 0} (rule : A) (c : ℕ) (cs : Bytes)
    → IsLiteral (c ∷ cs)
    → (store_insert (λ vs ws. []) (c ∷ cs) [] (some rule) inserts).0
      ≡ put (λ vs ws. []) (map char (c ∷ cs)) none (rule ∷ [])
unfolding store_insert change_at
store_insert_literal rule c cs l = rw (tokens-literal (c ∷ cs) l, valid-map_char (c ∷ cs))

module _ {A : Type 0} (s : Bytes) (rule : A) (given : s ≢ []) (literal : IsLiteral s) where
  one_rule : Node A
  one_rule = (insert new_trie_selector s [] (some rule) inserts).0.root

  one_rule-IsDistinct : IsDistinct one_rule
  unfolding one_rule
  one_rule-IsDistinct =
      insert-IsDistinct new_trie_selector s [] (some rule) inserts (new_node-IsDistinct A)

  only : Store A
  only = put (λ vs ws. []) (map char s) none (rule ∷ [])

  one_rule-only : rules_at one_rule ≡ only
  unfolding one_rule only
  one_rule-only = go s given literal
    where
      go :
          (s : Bytes)
          → s ≢ []
          → IsLiteral s
          → rules_at (insert new_trie_selector s [] (some rule) inserts).0.root
            ≡ put (λ vs ws. []) (map char s) none (rule ∷ [])
      go [] n l = absurd (n refl)
      go (c ∷ cs) n l =
          (insert-store_insert new_trie_selector (c ∷ cs) [] (some rule) inserts).0
          ∙ rw (new_trie_selector-Implements.rules) (store_insert_literal rule c cs l)

  Holds-IsSingle : (table : Bytes) → Holds only s table rule → IsSingle s
  unfolding only
  Holds-IsSingle table (vs, ws, i, p, q) = elim (Bool-cases (same_key (map char s) none vs ws)) [
    | inl k ↦ read-IsSingle s (
        subst (λ vs. reads vs zero s ≡ true)
          (sym
            (same_word-map_char s vs (and_left (same_word (map char s) vs) (same_table none ws) k)))
          p)
    | inr k ↦ absurd (rw k at i)
  ]

  IsSingle-Holds : (table : Bytes) → IsSingle s → Holds only s table rule
  unfolding only
  IsSingle-Holds table h =
      (map char s, none, rw (same_word_self (map char s)) (inl refl), IsSingle-reads s h, refl)

  -- Let a rule for a schema's name without wildcards be all that is inserted in a new selector.
  -- Then `Match` finds it for that very name exactly if every byte of the name is a character of
  -- its own: for a name with a character of several bytes in UTF-8 it finds nothing.
  pub match_literal :
      (table : Bytes)
      → In rule (match_fresh (insert new_trie_selector s [] (some rule) inserts).0.root s table)
        ↔ IsSingle s
  unfolding one_rule
  match_literal table = (
    λ h. Holds-IsSingle table (
        subst (λ st. Holds st s table rule) one_rule-only
          (match_fresh-found one_rule s table rule one_rule-IsDistinct h)),
    λ h.
        match_fresh-finds one_rule s table rule
          (subst (λ st. Holds st s table rule) (sym one_rule-only) (IsSingle-Holds table h)),
  )
