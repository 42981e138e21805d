-- ===== src/BinlogFilter/Matching.antt =====
-- `matchEvent` of pkg/binlog-filter/filter.go against the entries that speak about an event.
use tidb_tools.Prelude.{
  String, ◌≡◌, refl, sym, ap, ◌∙◌, ◌↔◌, inl, inr, Bool, true, false, str_eq, str_eq_iff, ◌&&◌, ◌||◌,
  List, [], ◌∷◌, ◌++◌, All, arith, if◌then◌else◌, Bool-cases,
}
use tidb_tools.BinlogFilter.Events.{
  EventType, dml, ddl, incompatible_ddl, all_event, all_ddl, all_dml, none_event, none_ddl,
  none_dml, incompatible_ddl_changes,
}
use tidb_tools.BinlogFilter.Filter.{match_event}

abbrev pub is_ddl : EventType → Bool
is_ddl tp = str_eq tp ddl || str_eq tp incompatible_ddl

-- The entry is a word for no event of the class.
abbrev pub excludes : EventType → EventType → Bool
excludes tp e =
    str_eq e none_event || is_ddl tp && str_eq e none_ddl || str_eq tp dml && str_eq e none_dml

-- The entry is a word for all events of the class, or the event itself.
abbrev pub includes : EventType → EventType → EventType → Bool
includes tp event e =
    str_eq e all_event
    || is_ddl tp && str_eq e all_ddl
    || str_eq tp dml && str_eq e all_dml
    || str_eq tp incompatible_ddl && str_eq e incompatible_ddl_changes
    || str_eq e event

-- An entry that includes the event, with no entry before it that speaks against it.
pub record FirstIncludes (tp event : EventType) (events : List EventType) : Type 0 where
  pub before : List EventType
  pub entry : EventType
  pub after : List EventType
  pub split : events ≡ before ++ entry ∷ after
  pub silent : All (λ e. excludes tp e ≡ false) before
  pub not_excluded : excludes tp entry ≡ false
  pub included : includes tp event entry ≡ true

-- One round of the loop, with the tests in the other order.
abbrev pub round : Bool → Bool → Bool → Bool
round x i rest = if x then false else if i then true else rest

round-tests :
    (a n d1 d2 m1 m2 c v d m i rest : Bool)
    → (a ≡ true → (n ≡ false) × (d2 ≡ false) × (m2 ≡ false))
    → (d1 ≡ true → (d2 ≡ false) × (m2 ≡ false))
    → (m1 ≡ true → m2 ≡ false)
    → (if a
        then true
        else if n
        then false
        else if d && d1
        then true
        else if d && d2
        then false
        else if m && m1
        then true
        else if m && m2
        then false
        else if i && c
        then true
        else if v
        then true
        else rest)
      ≡ round (n || d && d2 || m && m2) (a || d && d1 || m && m1 || i && c || v) rest
round-tests a n d1 d2 m1 m2 c v d m i rest h1 h2 h3 = ground arith

round_kept : (x i rest : Bool) → round x i rest ≡ true → x ≡ false
round_kept x i rest h = ground arith

round_on : (x i rest : Bool) → round x i rest ≡ true → i ≡ false → rest ≡ true
round_on x i rest h n = ground arith

round_hit : (x i rest : Bool) → x ≡ false → i ≡ true → round x i rest ≡ true
round_hit x i rest h n = ground arith

round_keeps : (x i rest : Bool) → x ≡ false → rest ≡ true → round x i rest ≡ true
round_keeps x i rest h n = ground arith

distinct : (e a b : String) → str_eq a b ≡ false → str_eq e a ≡ true → str_eq e b ≡ false
distinct e a b n h = let same : e ≡ a = (str_eq_iff e a).0 h in rw same n

pub match_event-round :
    (tp event e : EventType) (es : List EventType)
    → match_event tp event (e ∷ es)
      ≡ round (excludes tp e) (includes tp event e) (match_event tp event es)
unfolding match_event
match_event-round tp event e es =
    round-tests (str_eq e all_event) (str_eq e none_event) (str_eq e all_ddl) (str_eq e none_ddl)
      (str_eq e all_dml) (str_eq e none_dml) (str_eq e incompatible_ddl_changes) (str_eq e event)
      (is_ddl tp) (str_eq tp dml) (str_eq tp incompatible_ddl) (match_event tp event es)
      (λ h. (
        distinct e all_event none_event refl h,
        distinct e all_event none_ddl refl h,
        distinct e all_event none_dml refl h,
      ))
      (λ h. (distinct e all_ddl none_ddl refl h, distinct e all_ddl none_dml refl h))
      (distinct e all_dml none_dml refl)

no_match : (tp event : EventType) → match_event tp event [] ≡ true → FirstIncludes tp event []
unfolding match_event
no_match tp event h = cc

FirstIncludes-later :
    {tp event e : EventType} {es : List EventType}
    → excludes tp e ≡ false
    → FirstIncludes tp event es
    → FirstIncludes tp event (e ∷ es)
FirstIncludes-later {e = e} x f = record {
  before = e ∷ f.before;
  entry = f.entry;
  after = f.after;
  split = ap (◌∷◌ e) f.split;
  silent = (x, f.silent);
  not_excluded = f.not_excluded;
  included = f.included;
}

match→FirstIncludes :
    (tp event : EventType) (es : List EventType)
    → match_event tp event es ≡ true
    → FirstIncludes tp event es
match→FirstIncludes tp event [] h = no_match tp event h
match→FirstIncludes tp event (e ∷ es) h =
    let r : round (excludes tp e) (includes tp event e) (match_event tp event es) ≡ true =
      sym (match_event-round tp event e es) ∙ h in
    let x = round_kept _ (includes tp event e) (match_event tp event es) r in
    elim (Bool-cases (includes tp event e)) [
      | inl i ↦ record {
        before = [];
        entry = e;
        after = es;
        split = refl;
        silent = tt;
        not_excluded = x;
        included = i;
      }
      | inr i ↦ FirstIncludes-later x (
          match→FirstIncludes tp event es
            (round_on (excludes tp e) _ (match_event tp event es) r i))
    ]

included→match :
    (tp event e : EventType) (before after : List EventType)
    → All (λ b. excludes tp b ≡ false) before
    → excludes tp e ≡ false
    → includes tp event e ≡ true
    → match_event tp event (before ++ e ∷ after) ≡ true
included→match tp event e [] after h x i =
    match_event-round tp event e after
    ∙ round_hit (excludes tp e) (includes tp event e) (match_event tp event after) x i
included→match tp event e (b ∷ before) after (hb, h) x i =
    match_event-round tp event b (before ++ e ∷ after)
    ∙ round_keeps (excludes tp b) (includes tp event b) (match_event tp event (before ++ e ∷ after))
        hb (included→match tp event e before after h x i)

-- For every class and event, `matchEvent` answers true exactly when some entry of the rule includes
-- the event, as itself or as a word for all events of its class, and no entry up to there is a word
-- for no event of the class.
pub match_event_iff :
    (tp event : EventType) (es : List EventType)
    → (match_event tp event es ≡ true) ↔ FirstIncludes tp event es
match_event_iff tp event es = (
  match→FirstIncludes tp event es,
  λ f.
      ap (match_event tp event) f.split
      ∙ included→match tp event f.entry f.before f.after f.silent f.not_excluded f.included,
)
