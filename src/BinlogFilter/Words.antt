-- ===== src/BinlogFilter/Words.antt =====
-- What `toEventType` and `Valid` of pkg/binlog-filter leave in a rule, and how `ClassifyEvent` of
-- filter.go takes it.
use tidb_tools.Prelude.{
  String, ◌≡◌, ◌≢◌, refl, sym, ◌∙◌, ◌⊎◌, inl, inr, Bool, true, false, str_eq, str_eq_iff, ◌&&◌,
  ◌||◌, List, [], ◌∷◌, Option, none, some, All, arith, Bool-cases, if◌then◌else◌, ap,
}
use tidb_tools.Prelude.Text.{to_lower}
use tidb_tools.BinlogFilter.Events.{
  EventType, one_of, all_event, all_ddl, all_dml, none_event, none_ddl, none_dml,
  incompatible_ddl_changes, event_types, event_type_of, to_event_type, classify_event,
}
use tidb_tools.BinlogFilter.Rule.{Error, rewritten, rewrite_events}

-- A Boolean test holds of every entry of a list.
abbrev pub all : (String → Bool) → List String → Bool
all f [] = true
all f (e ∷ es) = f e && all f es

pub all-one_of :
    (f : String → Bool) (es : List String) (e : String)
    → all f es ≡ true
    → one_of e es ≡ true
    → f e ≡ true
all-one_of f [] e h m = cc
all-one_of f (x ∷ es) e h m = elim (Bool-cases (str_eq e x)) [
  | inl same ↦ let s : e ≡ x = (str_eq_iff e x).0 same in ap f s ∙ ground arith
  | inr other ↦ all-one_of f es e (ground arith) (ground arith)
]

abbrev is_none : Option EventType → Bool
is_none none = true
is_none (some e) = false

abbrev pub gives : EventType → Option EventType → Bool
gives e none = false
gives e (some x) = str_eq x e

abbrev reads_itself : EventType → Bool
reads_itself e = gives e (to_event_type e)

-- The words for more than one event, which stand in rules only.
abbrev pub general_words : List EventType
general_words =
    all_event ∷ all_ddl ∷ all_dml ∷ none_event ∷ none_ddl ∷ none_dml ∷ incompatible_ddl_changes ∷ []

event_types-read : all reads_itself event_types ≡ true
unfolding to_event_type
event_types-read = refl

abbrev classified : EventType → Bool
classified e = one_of e general_words || (if is_none (classify_event e) then false else true)

event_types-classify : all classified event_types ≡ true
unfolding classify_event
event_types-classify = refl

-- The four ways in which the switch gives a result.
switch-cases :
    (k a b c : Bool) (e x y z et : EventType)
    → (if k then some e else if a then some x else if b then some y else if c then some z else none)
      ≡ some et
    → (k ≡ true) × (e ≡ et) ⊎ (x ≡ et) ⊎ (y ≡ et) ⊎ (z ≡ et)
switch-cases k a b c e x y z et h = ground arith

known_of : (e et : EventType) → e ≡ et → one_of e event_types ≡ true → one_of et event_types ≡ true
known_of e et same h = ap (λ x. one_of x event_types) (sym same) ∙ h

event_type_of-one_of : (e et : EventType) → event_type_of e ≡ some et → one_of et event_types ≡ true
unfolding event_type_of
event_type_of-one_of e et h =
    elim (switch-cases (one_of e event_types) (str_eq e "create schema") (str_eq e "drop schema")
      (str_eq e "alter schema") e "create database" "drop database" "alter database" et h) [
        | inl (known, same) ↦ known_of e et same known
        | inr (inl same) ↦ known_of "create database" et same refl
        | inr (inr (inl same)) ↦ known_of "drop database" et same refl
        | inr (inr (inr same)) ↦ known_of "alter database" et same refl
      ]

gives-some : (e : EventType) (o : Option EventType) → gives e o ≡ true → o ≡ some e
gives-some e none h = cc
gives-some e (some x) h = ap some ((str_eq_iff x e).0 h)

classified-taken :
    (e : EventType)
    → classified e ≡ true
    → (one_of e general_words ≡ true) ⊎ (classify_event e ≢ none)
classified-taken e h = go (one_of e general_words) (classify_event e) h
  where
    go :
        (g : Bool) (c : Option EventType)
        → (g || (if is_none c then false else true)) ≡ true
        → (g ≡ true) ⊎ (c ≢ none)
    go true c h = inl refl
    go false none h = cc
    go false (some x) h = inr (λ n. cc)

-- Every event type that `toEventType` reads from a text is read as itself, so that reading a rule
-- again changes nothing, and it is a word for several events or one that `ClassifyEvent` takes
-- without error.
pub to_event_type-read :
    (es : String) (et : EventType)
    → to_event_type es ≡ some et
    → (to_event_type et ≡ some et) × ((one_of et general_words ≡ true) ⊎ (classify_event et ≢ none))
unfolding to_event_type
to_event_type-read es et h =
    let known = event_type_of-one_of (to_lower es) et h in
    (
      gives-some et (to_event_type et)
          (all-one_of reads_itself event_types et event_types-read known),
      classified-taken et (all-one_of classified event_types et event_types-classify known),
    )

-- The entries that `toEventType` gave.
abbrev pub AllRead : List EventType → Type 0
AllRead = All (λ e. to_event_type e ≡ some e)

rewritten-AllRead :
    (o : Option EventType) (e : EventType) (es : List EventType)
    (rest : List EventType × Option Error)
    → ((x : EventType) → o ≡ some x → to_event_type x ≡ some x)
    → (rest.1 ≡ none → AllRead rest.0)
    → (rewritten o e es rest).1 ≡ none
    → AllRead (rewritten o e es rest).0
rewritten-AllRead none e es rest hx hr h = cc
rewritten-AllRead (some x) e es rest hx hr h = (hx x refl, hr h)

pub rewrite_events-AllRead :
    (es : List EventType) → (rewrite_events es).1 ≡ none → AllRead (rewrite_events es).0
unfolding rewrite_events
rewrite_events-AllRead [] h = tt
rewrite_events-AllRead (e ∷ es) h =
    rewritten-AllRead (to_event_type e) e es (rewrite_events es)
      (λ x read. (to_event_type-read e x read).0) (rewrite_events-AllRead es) h

pub AllRead-rewrite_events : (es : List EventType) → AllRead es → rewrite_events es ≡ (es, none)
unfolding rewrite_events
AllRead-rewrite_events [] h = refl
AllRead-rewrite_events (e ∷ es) (he, h) =
    ap (λ o. rewritten o e es (rewrite_events es)) he
    ∙ ap (rewritten (some e) e es) (AllRead-rewrite_events es h)
