-- ===== src/RuleSelector/Pattern.antt =====
-- Patterns of pkg/table-rule-selector/trie_selector.go: `ran`, `rangeItem` with its methods, and
-- `getRangeItem`. A text is its list of bytes here.
use tidb_tools.Prelude.{
  ℕ, zero, suc, Bool, true, false, not, ◌&&◌, ◌||◌, List, [], ◌∷◌, ◌++◌, Option, none, some, ltb,
  leb, ◌==◌, if◌then◌else◌, length,
}

abbrev pub Bytes : Type 0
Bytes = List ℕ

pub record Ran : Type 0 where
  pub start : ℕ
  pub end : ℕ
  pub has_between : Bool

-- `rangeItem` without its `baseItem`, which the trie keeps beside it
pub record RangeItem : Type 0 where
  pub has_not : Bool
  pub ranges : List Ran

-- the inner loop of `rangeItem.match`
unfoldable pub is_covered : Ran → List Ran → Bool
is_covered r [] = false
is_covered r (r₂ ∷ rs) = (leb r₂.start r.start && leb r.end r₂.end) || is_covered r rs

unfoldable pub all_covered : List Ran → List Ran → Bool
unfolding is_covered
all_covered [] rs = true
all_covered (r ∷ rs) rs₂ = is_covered r rs₂ && all_covered rs rs₂

unfoldable pub range_match : RangeItem → RangeItem → Bool
unfolding all_covered
range_match i i₂ =
    (if i.has_not then i₂.has_not else not i₂.has_not) && all_covered i.ranges i₂.ranges

unfoldable pub equal : RangeItem → RangeItem → Bool
unfolding range_match
equal i i₂ = range_match i i₂ && range_match i₂ i

unfoldable pub in_ranges : List Ran → ℕ → Bool
in_ranges [] c = false
in_ranges (r ∷ rs) c = (leb r.start c && leb c r.end) || in_ranges rs c

unfoldable pub match_char : RangeItem → ℕ → Bool
unfolding in_ranges
match_char i c = if in_ranges i.ranges c then not i.has_not else i.has_not

unfoldable pub range_texts : List Ran → Bytes
range_texts [] = []
range_texts (r ∷ rs) =
    (if r.has_between then r.start ∷ b'-' ∷ r.end ∷ [] else r.start ∷ []) ++ range_texts rs

unfoldable pub str : RangeItem → Bytes
unfolding range_texts
str i = b'[' ∷ (if i.has_not then b'!' ∷ [] else []) ++ range_texts i.ranges ++ b']' ∷ []

-- The bytes before the first `]`, and none if there is none.
unfoldable pub before_close : Bytes → Option Bytes
before_close [] = none
before_close (c ∷ cs) =
    if c == b']' then some [] else elim (before_close cs) [ none ↦ none | some b ↦ some (c ∷ b) ]

-- The loop of `getRangeItem`, over the bytes up to the closing `]`.
unfoldable pub read_ranges : Bytes → List Ran
read_ranges [] = []
read_ranges (a ∷ []) = record { start = a; end = a; has_between = false } ∷ []
read_ranges (a ∷ b ∷ []) =
    record { start = a; end = a; has_between = false }
    ∷ record { start = b; end = b; has_between = false }
    ∷ []
read_ranges (a ∷ b ∷ c ∷ cs) =
    let between = record { start = a; end = c; has_between = true } ∷ read_ranges cs in
    let single = record { start = a; end = a; has_between = false } ∷ read_ranges (b ∷ c ∷ cs) in
    if b == b'-' then between else single

-- `[!]` becomes the range of the one byte `!`.
unfoldable pub close_item : RangeItem → RangeItem
close_item i = elim i.ranges [
  | [] ↦
      if i.has_not
      then record {
        has_not = false;
        ranges = record { start = b'!'; end = b'!'; has_between = false } ∷ [];
      }
      else i
  | _ ∷ _ ↦ i
]

unfoldable pub range_item_of : Bytes → RangeItem
unfolding read_ranges close_item
range_item_of [] = record { has_not = false; ranges = [] }
range_item_of (c ∷ cs) = close_item (
    if c == b'!'
    then record { has_not = true; ranges = read_ranges cs }
    else record { has_not = false; ranges = read_ranges (c ∷ cs) })

-- `getRangeItem` of a pattern, without its `[` at the head: the item, and how many bytes behind the
-- `[` it takes.
unfoldable pub get_range_item : Bytes → Option (RangeItem × ℕ)
unfolding before_close range_item_of
get_range_item cs = elim (before_close cs) [
  | none ↦ none
  | some body ↦ some (range_item_of body, suc (length body))
]

-- The places of a pattern: what one round of the loops of `insert` and `track` takes off it.
pub data Token : Type 0 where
  star any : Token
  range : RangeItem → Token
  char : ℕ → Token

-- `i++` and `i += nextI` of these loops: bytes that a range takes are passed over.
unfoldable pub tokens : ℕ → Bytes → List Token
unfolding get_range_item
tokens k [] = []
tokens (suc k) (c ∷ cs) = tokens k cs
tokens zero (c ∷ cs) =
    let rest = tokens zero cs in
    let ranged : List Token = elim (get_range_item cs) [
      | none ↦ char c ∷ rest
      | some (r, k) ↦ range r ∷ tokens k cs
    ] in
    if c == b'*'
    then star ∷ rest
    else if c == b'?'
    then any ∷ rest
    else if c == b'['
    then ranged
    else char c ∷ rest

-- How many bytes of a character's UTF-8 form follow its first byte, as `range` over a string finds
-- them: none at a byte that begins no character.
unfoldable pub follow : ℕ → ℕ → ℕ → Bytes → Bool
follow zero low high cs = true
follow (suc k) low high [] = false
follow (suc k) low high (c ∷ cs) = (leb low c && leb c high) && follow k 0x80 0xBF cs

unfoldable pub rune_rest : ℕ → Bytes → ℕ
unfolding follow
rune_rest c cs =
    if ltb c 0xC2
    then 0
    else if ltb c 0xE0
    then (if follow 1 0x80 0xBF cs then 1 else 0)
    else if ltb c 0xF0
    then (if follow 2 (if c == 0xE0 then 0xA0 else 0x80) (if c == 0xED then 0x9F else 0xBF) cs
        then 2
        else 0)
    else if ltb c 0xF5
    then (if follow 3 (if c == 0xF0 then 0x90 else 0x80) (if c == 0xF4 then 0x8F else 0xBF) cs
        then 3
        else 0)
    else 0
