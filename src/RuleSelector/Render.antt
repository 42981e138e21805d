-- ===== src/RuleSelector/Render.antt =====
-- The text of a pattern of pkg/table-rule-selector/trie_selector.go, as `travel` puts it together.
use mathlib.Core.Path.{subst}
use tidb_tools.Prelude.{
  ℕ, zero, suc, ◌≡◌, refl, ◌∙◌, sym, ap, ap₂, Bool, true, false, List, [], ◌∷◌, ◌++◌, some, inl,
  inr, length, ◌==◌, ==_iff, Bool-cases, Option-cases, if◌then◌else◌,
}
use mathlib.Core.List.{append_assoc}
use tidb_tools.RuleSelector.Pattern.{
  Bytes, Ran, RangeItem, range_texts, str, before_close, read_ranges, close_item, range_item_of,
  Token, star, any, range, char, tokens,
}

-- what `travel` appends to the word for one place
abbrev pub render_token : Token → Bytes
render_token star = b'*' ∷ []
render_token any = b'?' ∷ []
render_token (range r) = str r
render_token (char c) = c ∷ []

unfoldable pub render : List Token → Bytes
unfolding str
render [] = []
render (t ∷ ts) = render_token t ++ render ts

drop : ℕ → Bytes → Bytes
drop zero s = s
drop (suc k) [] = []
drop (suc k) (c ∷ s) = drop k s

range_texts-read_ranges : (s : Bytes) → range_texts (read_ranges s) ≡ s
unfolding range_texts read_ranges
range_texts-read_ranges [] = refl
range_texts-read_ranges (a ∷ []) = refl
range_texts-read_ranges (a ∷ b ∷ []) = refl
range_texts-read_ranges (a ∷ b ∷ c ∷ s) = elim (Bool-cases (b == b'-')) [
  | inl e ↦
      rw (e, read_ranges)
        (ap₂ (λ x xs. a ∷ x ∷ c ∷ xs) (sym ((==_iff b b'-').0 e)) (range_texts-read_ranges s))
  | inr e ↦ rw (e, read_ranges) (ap (λ xs. a ∷ xs) (range_texts-read_ranges (b ∷ c ∷ s)))
]

inner : RangeItem → Bytes
inner i = (if i.has_not then b'!' ∷ [] else []) ++ range_texts i.ranges

-- Closing an item changes no byte of its text.
inner-close_item :
    (b : Bool) (rs : List Ran)
    → inner (close_item (record { has_not = b; ranges = rs }))
      ≡ inner (record { has_not = b; ranges = rs })
unfolding inner close_item range_texts
inner-close_item true [] = refl
inner-close_item false [] = refl
inner-close_item b (r ∷ rs) = refl

inner-range_item_of : (s : Bytes) → inner (range_item_of s) ≡ s
unfolding range_item_of
inner-range_item_of [] = unfold inner range_texts in refl
inner-range_item_of (c ∷ s) = elim (Bool-cases (c == b'!')) [
  | inl e ↦ rw e (
      inner-close_item true (read_ranges s)
      ∙ unfold inner in
        ap₂ (λ x xs. x ∷ xs) (sym ((==_iff c b'!').0 e)) (range_texts-read_ranges s))
  | inr e ↦ rw e (
      inner-close_item false (read_ranges (c ∷ s))
      ∙ unfold inner in range_texts-read_ranges (c ∷ s))
]

str-inner : (i : RangeItem) → str i ≡ b'[' ∷ (inner i ++ b']' ∷ [])
unfolding str inner
str-inner i = refl

some_inj : (a b : Bytes) → some a ≡ some b → a ≡ b
some_inj a b h = cc

before_close-drop :
    (s body : Bytes) → before_close s ≡ some body → s ≡ body ++ b']' ∷ drop (suc (length body)) s
unfolding before_close drop
before_close-drop [] body h = cc
before_close-drop (c ∷ s) body h = elim (Bool-cases (c == b']')) [
  | inl e ↦
      subst (λ body. c ∷ s ≡ body ++ b']' ∷ drop (suc (length body)) (c ∷ s))
        (some_inj [] body (rw e at h)) (ap (λ x. x ∷ s) ((==_iff c b']').0 e))
  | inr e ↦ elim (Option-cases (before_close s)) [
    | inl g ↦ cc (rw (e, g) at h)
    | inr (b, g) ↦
        subst (λ body. c ∷ s ≡ body ++ b']' ∷ drop (suc (length body)) (c ∷ s))
          (some_inj (c ∷ b) body (rw (e, g) at h)) (ap (λ xs. c ∷ xs) (before_close-drop s b g))
  ]
]

-- The text of a pattern is put together again from its places.
render-tokens_from : (k : ℕ) (s : Bytes) → render (tokens k s) ≡ drop k s
unfolding render tokens drop inner
render-tokens_from zero [] = refl
render-tokens_from (suc k) [] = refl
render-tokens_from (suc k) (c ∷ s) = render-tokens_from k s
render-tokens_from zero (c ∷ s) = elim (Bool-cases (c == b'*')) [
  | inl e ↦ rw e (ap₂ (λ x xs. x ∷ xs) (sym ((==_iff c b'*').0 e)) (render-tokens_from zero s))
  | inr e ↦ elim (Bool-cases (c == b'?')) [
    | inl f ↦
        rw (e, f) (ap₂ (λ x xs. x ∷ xs) (sym ((==_iff c b'?').0 f)) (render-tokens_from zero s))
    | inr f ↦ elim (Bool-cases (c == b'[')) [
      | inl g ↦ elim (Option-cases (before_close s)) [
        | inl h ↦ rw (e, f, g, h) (ap (λ xs. c ∷ xs) (render-tokens_from zero s))
        | inr (b, h) ↦
            rw (e, f, g, h)
              (ap₂ (λ x xs. x ∷ xs) (sym ((==_iff c b'[').0 g))
                (append_assoc (inner (range_item_of b)) (b']' ∷ [])
                    (render (tokens (suc (length b)) s))
                  ∙ ap₂ (λ x y. x ++ b']' ∷ y) (inner-range_item_of b)
                      (render-tokens_from (suc (length b)) s)
                  ∙ sym (before_close-drop s b h)))
      ]
      | inr g ↦ rw (e, f, g) (ap (λ xs. c ∷ xs) (render-tokens_from zero s))
    ]
  ]
]

-- For every pattern: the places that `insert` takes it apart into are put together by `travel` to
-- the same text, ranges and brackets that are not closed included.
pub render-tokens : (s : Bytes) → render (tokens zero s) ≡ s
render-tokens s = unfold drop in render-tokens_from zero s
