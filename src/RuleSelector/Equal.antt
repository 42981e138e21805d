-- ===== src/RuleSelector/Equal.antt =====
-- `equal` on the ranges of pkg/table-rule-selector/trie_selector.go, and on the places of patterns.
use tidb_tools.Prelude.{ℕ, ◌≡◌, refl, ◌∙◌, ◌≤◌, Bool, true, false, List, [], ◌∷◌, ◌==◌, arith}
use tidb_tools.RuleSelector.Pattern.{
  Ran, RangeItem, is_covered, all_covered, equal, in_ranges, match_char, Token, star, any, range,
  char,
}

-- What follows is stated for sets of ranges first.
is_covered_inner :
    (r s : Ran) (ts : List Ran)
    → s.start ≤ r.start
    → r.end ≤ s.end
    → is_covered s ts ≡ true
    → is_covered r ts ≡ true
unfolding is_covered
is_covered_inner r s [] p q h = h
is_covered_inner r s (t ∷ ts) p q h = ground (arith, is_covered_inner r s ts)

is_covered_trans :
    (r : Ran) (rs ts : List Ran)
    → is_covered r rs ≡ true
    → all_covered rs ts ≡ true
    → is_covered r ts ≡ true
unfolding is_covered all_covered
is_covered_trans r [] ts h k = cc
is_covered_trans r (s ∷ rs) ts h k =
    ground (arith, is_covered_inner r s ts, is_covered_trans r rs ts)

all_covered_trans :
    (qs rs ts : List Ran)
    → all_covered qs rs ≡ true
    → all_covered rs ts ≡ true
    → all_covered qs ts ≡ true
unfolding all_covered
all_covered_trans [] rs ts h k = refl
all_covered_trans (q ∷ qs) rs ts h k =
    ground (arith, is_covered_trans q rs ts, all_covered_trans qs rs ts)

all_covered_more :
    (rs : List Ran) (r : Ran) (ts : List Ran)
    → all_covered rs ts ≡ true
    → all_covered rs (r ∷ ts) ≡ true
unfolding all_covered is_covered
all_covered_more [] r ts h = refl
all_covered_more (s ∷ rs) r ts h = ground (arith, all_covered_more rs r ts)

all_covered_self : (rs : List Ran) → all_covered rs rs ≡ true
unfolding all_covered is_covered
all_covered_self [] = refl
all_covered_self (r ∷ rs) = ground (arith, all_covered_more rs r rs, all_covered_self rs)

in_ranges_covered :
    (r : Ran) (ts : List Ran) (c : ℕ)
    → is_covered r ts ≡ true
    → r.start ≤ c
    → c ≤ r.end
    → in_ranges ts c ≡ true
unfolding is_covered in_ranges
in_ranges_covered r [] c h p q = h
in_ranges_covered r (t ∷ ts) c h p q = ground (arith, in_ranges_covered r ts c)

in_ranges-all_covered :
    (rs ts : List Ran) (c : ℕ)
    → all_covered rs ts ≡ true
    → in_ranges rs c ≡ true
    → in_ranges ts c ≡ true
unfolding all_covered in_ranges
in_ranges-all_covered [] ts c h k = cc
in_ranges-all_covered (r ∷ rs) ts c h k =
    ground (arith, in_ranges_covered r ts c, in_ranges-all_covered rs ts c)

-- `equal` is an equivalence.
pub equal_self : (r : RangeItem) → equal r r ≡ true
unfolding equal
equal_self r = ground (arith, all_covered_self r.ranges)

pub equal_sym : (q r : RangeItem) → equal q r ≡ equal r q
unfolding equal
equal_sym q r = ground arith

pub equal_trans : (q r s : RangeItem) → equal q r ≡ true → equal r s ≡ true → equal q s ≡ true
unfolding equal
equal_trans q r s h k = ground (
  arith,
  all_covered_trans q.ranges r.ranges s.ranges,
  all_covered_trans s.ranges r.ranges q.ranges,
)

-- Equal ranges match the same bytes.
pub match_char-equal :
    (q r : RangeItem) (c : ℕ) → equal q r ≡ true → match_char q c ≡ match_char r c
unfolding equal match_char
match_char-equal q r c h =
    ground
      (arith, in_ranges-all_covered q.ranges r.ranges c, in_ranges-all_covered r.ranges q.ranges c)

-- A place stands for the same item as another one.
unfoldable pub same_token : Token → Token → Bool
same_token star star = true
same_token any any = true
same_token (range q) (range r) = equal q r
same_token (char c) (char d) = c == d
same_token _ _ = false

pub same_token_self : (t : Token) → same_token t t ≡ true
unfolding same_token
same_token_self star = refl
same_token_self any = refl
same_token_self (range r) = equal_self r
same_token_self (char c) = ground arith

pub same_token_sym : (t u : Token) → same_token t u ≡ true → same_token u t ≡ true
unfolding same_token
same_token_sym star star h = refl
same_token_sym any any h = refl
same_token_sym (range q) (range r) h = equal_sym r q ∙ h
same_token_sym (char c) (char d) h = ground arith
same_token_sym _ _ h = cc

pub same_token_trans :
    (t u v : Token) → same_token t u ≡ true → same_token u v ≡ true → same_token t v ≡ true
unfolding same_token
same_token_trans star star star h k = refl
same_token_trans any any any h k = refl
same_token_trans (range q) (range r) (range s) h k = equal_trans q r s h k
same_token_trans (char c) (char d) (char e) h k = ground arith
same_token_trans _ _ _ h k = cc
