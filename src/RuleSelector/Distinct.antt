-- ===== src/RuleSelector/Distinct.antt =====
-- The ranges of a node of pkg/table-rule-selector/trie_selector.go, its `rItems`, differ.
use tidb_tools.Prelude.{
  ℕ, ◌==◌, ◌≡◌, refl, ◌∙◌, Bool, true, false, not, ◌&&◌, List, [], ◌∷◌, Option, arith, Bool-cases,
  inl, inr, if◌then◌else◌,
}
use mathlib.Core.Path.{subst}
use tidb_tools.RuleSelector.Pattern.{Bytes, RangeItem, equal, Token, star, any, range, char}
use tidb_tools.RuleSelector.Trie.{
  Node, node, Slot, absent, present, Item, item, Level, nil, level, Chars, no_chars, char_item,
  Ranges, no_ranges, range_item, new_node, node_of, child, Payload, get_payload, set_payload,
  set_child, get_char, set_char, get_range, set_range, get_item, set_item, open_item, ranges_of,
  Error, is_star, change_item, walk, track,
}
use tidb_tools.RuleSelector.Equal.{equal_sym}
use tidb_tools.RuleSelector.Tracks.{Slot-cases, track-absent, track-present, track-next}

-- No range of a list equals this one.
unfoldable pub apart : {A : Type 0} → RangeItem → Ranges A → Bool
apart r no_ranges = true
apart r (range_item q i rs) = not (equal r q) && apart r rs

unfoldable mutual
  pub IsDistinct : {A : Type 0} → Node A → Type 0
  IsDistinct (node cs a q rs) =
      CharsDistinct cs × SlotDistinct a × SlotDistinct q × RangesDistinct rs

  pub SlotDistinct : {A : Type 0} → Slot A → Type 0
  SlotDistinct absent = Unit
  SlotDistinct (present i) = ItemDistinct i

  pub ItemDistinct : {A : Type 0} → Item A → Type 0
  ItemDistinct (item c r n) = LevelDistinct c × LevelDistinct n

  pub LevelDistinct : {A : Type 0} → Level A → Type 0
  LevelDistinct nil = Unit
  LevelDistinct (level n) = IsDistinct n

  pub CharsDistinct : {A : Type 0} → Chars A → Type 0
  CharsDistinct no_chars = Unit
  CharsDistinct (char_item c i cs) = ItemDistinct i × CharsDistinct cs

  pub RangesDistinct : {A : Type 0} → Ranges A → Type 0
  RangesDistinct no_ranges = Unit
  RangesDistinct (range_item r i rs) = (apart r rs ≡ true) × ItemDistinct i × RangesDistinct rs

pub new_node-IsDistinct : (A : Type 0) → IsDistinct (new_node {A = A})
unfolding IsDistinct
new_node-IsDistinct A = (tt, tt, tt, tt)

module _ {A : Type 0} where
  if-SlotDistinct :
      (b : Bool) (s s' : Slot A)
      → SlotDistinct s
      → SlotDistinct s'
      → SlotDistinct (if b then s else s')
  if-SlotDistinct true s s' h k = h
  if-SlotDistinct false s s' h k = k

  get_char-SlotDistinct : (c : ℕ) (cs : Chars A) → CharsDistinct cs → SlotDistinct (get_char c cs)
  unfolding get_char IsDistinct
  get_char-SlotDistinct c no_chars h = tt
  get_char-SlotDistinct c (char_item d i cs) (h, k) =
      if-SlotDistinct (d == c) (present i) _ h (get_char-SlotDistinct c cs k)

  get_range-SlotDistinct :
      (r : RangeItem) (rs : Ranges A) → RangesDistinct rs → SlotDistinct (get_range r rs)
  unfolding get_range IsDistinct
  get_range-SlotDistinct r no_ranges h = tt
  get_range-SlotDistinct r (range_item q i rs) (a, h, k) =
      if-SlotDistinct (equal r q) (present i) _ h (get_range-SlotDistinct r rs k)

  pub get_item-SlotDistinct : (t : Token) (n : Node A) → IsDistinct n → SlotDistinct (get_item t n)
  unfolding get_item IsDistinct
  get_item-SlotDistinct star (node cs a q rs) h = h.1
  get_item-SlotDistinct any (node cs a q rs) h = h.2
  get_item-SlotDistinct (range r) (node cs a q rs) h = get_range-SlotDistinct r rs h.3
  get_item-SlotDistinct (char c) (node cs a q rs) h = get_char-SlotDistinct c cs h.0

  set_char-CharsDistinct :
      (c : ℕ) (i : Item A) (cs : Chars A)
      → ItemDistinct i
      → CharsDistinct cs
      → CharsDistinct (set_char c i cs)
  unfolding set_char IsDistinct
  set_char-CharsDistinct c i no_chars h k = (h, tt)
  set_char-CharsDistinct c i (char_item d j cs) h k = elim (Bool-cases (d == c)) [
    | inl s ↦ rw s (h, k.1)
    | inr s ↦ rw s (k.0, set_char-CharsDistinct c i cs h k.1)
  ]

  apart-set_range :
      (q r : RangeItem) (i : Item A) (rs : Ranges A)
      → equal q r ≡ false
      → apart q rs ≡ true
      → apart q (set_range r i rs) ≡ true
  unfolding apart set_range
  apart-set_range q r i no_ranges d a = rw d
  apart-set_range q r i (range_item s j rs) d a = ground (arith, apart-set_range q r i rs)

  set_range-RangesDistinct :
      (r : RangeItem) (i : Item A) (rs : Ranges A)
      → ItemDistinct i
      → RangesDistinct rs
      → RangesDistinct (set_range r i rs)
  unfolding set_range IsDistinct apart
  set_range-RangesDistinct r i no_ranges h k = (refl, h, tt)
  set_range-RangesDistinct r i (range_item q j rs) h (a, g, k) = elim (Bool-cases (equal r q)) [
    | inl s ↦ rw s (a, h, k)
    | inr s ↦
        rw s
          (apart-set_range q r i rs (equal_sym q r ∙ s) a, g, set_range-RangesDistinct r i rs h k)
  ]

  pub set_item-IsDistinct :
      (t : Token) (i : Item A) (n : Node A)
      → ItemDistinct i
      → IsDistinct n
      → IsDistinct (set_item t i n)
  unfolding set_item IsDistinct
  set_item-IsDistinct star i (node cs a q rs) h k = (k.0, h, k.2, k.3)
  set_item-IsDistinct any i (node cs a q rs) h k = (k.0, k.1, h, k.3)
  set_item-IsDistinct (range r) i (node cs a q rs) h k =
      (k.0, k.1, k.2, set_range-RangesDistinct r i rs h k.3)
  set_item-IsDistinct (char c) i (node cs a q rs) h k =
      (set_char-CharsDistinct c i cs h k.0, k.1, k.2, k.3)

  pub node_of-IsDistinct : (l : Level A) → LevelDistinct l → IsDistinct (node_of l)
  unfolding IsDistinct
  node_of-IsDistinct nil h = (tt, tt, tt, tt)
  node_of-IsDistinct (level n) h = h

  pub child-IsDistinct : (i : Item A) → ItemDistinct i → IsDistinct (child i)
  unfolding IsDistinct
  child-IsDistinct (item c r n) h = node_of-IsDistinct c h.0

  pub present-ItemDistinct : (i : Item A) → SlotDistinct (present i) → ItemDistinct i
  unfolding IsDistinct
  present-ItemDistinct i h = h

  pub next-LevelDistinct : (i : Item A) → ItemDistinct i → LevelDistinct (get_payload i).1
  unfolding IsDistinct
  next-LevelDistinct (item c r n) h = h.1

  open_item-ItemDistinct : (s : Slot A) → SlotDistinct s → ItemDistinct (open_item s)
  unfolding IsDistinct
  open_item-ItemDistinct absent h = ((tt, tt, tt, tt), tt)
  open_item-ItemDistinct (present (item nil r n)) h = ((tt, tt, tt, tt), h.1)
  open_item-ItemDistinct (present (item (level m) r n)) h = h

  pub ranges_of-RangesDistinct : (n : Node A) → IsDistinct n → RangesDistinct (ranges_of n)
  unfolding IsDistinct
  ranges_of-RangesDistinct (node cs a q rs) h = h.3

  set_payload-ItemDistinct :
      (i : Item A) (p : Payload A)
      → ItemDistinct i
      → LevelDistinct p.1
      → ItemDistinct (set_payload i p)
  unfolding IsDistinct
  set_payload-ItemDistinct (item c r n) p h k = (h.0, k)

  set_child-ItemDistinct :
      (i : Item A) (m : Node A) → ItemDistinct i → IsDistinct m → ItemDistinct (set_child i m)
  unfolding IsDistinct
  set_child-ItemDistinct (item c r n) m h k = (k, h.1)

  pub present_at-ItemDistinct :
      (t : Token) (n : Node A) (i : Item A)
      → get_item t n ≡ present i
      → IsDistinct n
      → ItemDistinct i
  present_at-ItemDistinct t n i e h =
      present-ItemDistinct i (subst SlotDistinct e (get_item-SlotDistinct t n h))

module _ {A : Type 0} (change : Payload A → Payload A × Option Error)
    (keeps : (p : Payload A) → LevelDistinct p.1 → LevelDistinct (change p).0.1) where
  change_item-ItemDistinct : (i : Item A) → ItemDistinct i → ItemDistinct (change_item change i).0
  change_item-ItemDistinct i h =
      set_payload-ItemDistinct i _ h (keeps (get_payload i) (next-LevelDistinct i h))

  pub walk-IsDistinct :
      (pattern : Bytes) (n : Node A) (ts : List Token)
      → IsDistinct n
      → IsDistinct (walk change pattern n ts).0
  unfolding walk
  walk-IsDistinct pattern n [] h = h
  walk-IsDistinct pattern n (t ∷ []) h =
      set_item-IsDistinct t _ n
        (change_item-ItemDistinct _ (open_item-ItemDistinct _ (get_item-SlotDistinct t n h))) h
  walk-IsDistinct pattern n (t ∷ u ∷ ts) h =
      let i = open_item (get_item t n) in
      let g = open_item-ItemDistinct (get_item t n) (get_item-SlotDistinct t n h) in
      elim (Bool-cases (is_star t)) [
        | inl s ↦ rw s (set_item-IsDistinct t i n g h)
        | inr s ↦ rw s (
            set_item-IsDistinct t _ n
              (set_child-ItemDistinct i _ g
                (walk-IsDistinct pattern (child i) (u ∷ ts) (child-IsDistinct i g)))
              h)
      ]

  pub track-IsDistinct :
      (pattern : Bytes) (n : Node A) (ts : List Token)
      → IsDistinct n
      → IsDistinct (track change pattern n ts).0
  track-IsDistinct pattern n [] h = unfold track in h
  track-IsDistinct pattern n (t ∷ []) h = elim (Slot-cases (get_item t n)) [
    | inl e ↦ rw (track-absent change pattern n t [] e) h
    | inr (i, e) ↦ rw (track-present change pattern n t i e) (
        set_item-IsDistinct t _ n (change_item-ItemDistinct i (present_at-ItemDistinct t n i e h))
          h)
  ]
  track-IsDistinct pattern n (t ∷ u ∷ us) h = elim (Slot-cases (get_item t n)) [
    | inl e ↦ rw (track-absent change pattern n t (u ∷ us) e) h
    | inr (i, e) ↦ elim (Bool-cases (is_star t)) [
      | inl s ↦ rw (track-next change pattern n t i u us e, s) h
      | inr s ↦
          let g = present_at-ItemDistinct t n i e h in
          rw (track-next change pattern n t i u us e, s)
            (set_item-IsDistinct t _ n
              (set_child-ItemDistinct i _ g
                (track-IsDistinct pattern (child i) (u ∷ us) (child-IsDistinct i g)))
              h)
    ]
  ]
