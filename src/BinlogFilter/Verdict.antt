-- ===== src/BinlogFilter/Verdict.antt =====
-- What `Filter` of pkg/binlog-filter/filter.go answers, from the rules that let the event and the
-- query through.
use tidb_tools.Prelude.{
  String, ◌≡◌, ◌≢◌, refl, sym, ap, ◌∙◌, ◌↔◌, Bool, true, false, str_eq, not, ◌&&◌, ◌||◌, List, [],
  ◌∷◌, ◌++◌, Option, none, some, All, arith, if◌then◌else◌,
}
use tidb_tools.BinlogFilter.Events.{EventType, null_event, classify_event}
use tidb_tools.BinlogFilter.Rule.{
  Regexps, ActionType, ignore, do_, error_, other, BinlogEventRule, event_not_valid,
}
use tidb_tools.BinlogFilter.Filter.{
  Entry, rule, foreign, Outcome, returns, panics, Selector, BinlogEvent, match_event, decide,
  decide_event, decide_query, filter_loop, matched_rules, filter,
}

-- A rule that does lets through what it matches, and one that ignores or reports what it does not.
abbrev pub lets : ActionType → Bool → Bool
lets do_ matched = matched
lets ignore matched = not matched
lets error_ matched = not matched
lets (other s) matched = true

-- The answer for what a rule does not let through.
abbrev pub verdict : ActionType → ActionType
verdict do_ = ignore
verdict a = a

abbrev stops : ActionType → Bool → Option ActionType
stops a matched = if lets a matched then none else some (verdict a)

decide-lets : (m : Bool) (a : ActionType) → decide m a ≡ stops a m
unfolding decide
decide-lets true do_ = refl
decide-lets true ignore = refl
decide-lets true error_ = refl
decide-lets true (other s) = refl
decide-lets false do_ = refl
decide-lets false ignore = refl
decide-lets false error_ = refl
decide-lets false (other s) = refl

abbrev pub lets_found : (re : Regexps) → String → ActionType → List String → Option re.Regexp → Bool
lets_found re raw_query a [] reg = true
lets_found re raw_query a (_ ∷ _) none = false
lets_found re raw_query a (_ ∷ _) (some reg) = lets a (re.finds reg raw_query)

module _ {re : Regexps} (tp event : EventType) (raw_query : String) where
  abbrev pub lets_event : BinlogEventRule re → Bool
  lets_event r = str_eq tp null_event || lets r.action (match_event tp event r.events)

  abbrev pub lets_query : BinlogEventRule re → Bool
  lets_query r =
      str_eq raw_query "" || lets_found re raw_query r.action r.sql_pattern r.sql_regular_exp

  -- The rule lets through the event, unless it has no type, and the query, unless it is empty or
  -- the rule has no patterns.
  abbrev pub Passes : Entry re → Type 0
  Passes foreign = ⊥
  Passes (rule r) = (lets_event r && lets_query r) ≡ true

-- Patterns, if there are any, are compiled.
abbrev pub has_regexp {ℓ} : {A : Type ℓ} → List String → Option A → Bool
has_regexp (_ ∷ _) none = false
has_regexp _ _ = true

abbrev pub Usable : {re : Regexps} → Entry re → Type 0
Usable foreign = ⊥
Usable (rule r) = has_regexp r.sql_pattern r.sql_regular_exp ≡ true

both_tested :
    (e q : Bool) (a : ActionType) (d : Option ActionType) (o rest : Outcome)
    → d ≡ (if e then none else some (verdict a))
    → o ≡ (if q then rest else returns (verdict a) none)
    → (elim d [ some action ↦ returns action none | none ↦ o ])
      ≡ (if e && q then rest else returns (verdict a) none)
both_tested e q a d o rest h k = ground arith

verdict_not_do : (a : ActionType) → verdict a ≢ do_
verdict_not_do do_ h = cc
verdict_not_do ignore h = cc
verdict_not_do error_ h = cc
verdict_not_do (other s) h = cc

-- One round of the loop, as to whether it answers Do.
round_iff :
    {P : Type 0} (e : Bool) (a : ActionType) (o rest : Outcome)
    → o ≡ (if e then rest else returns (verdict a) none)
    → (rest ≡ returns do_ none) ↔ P
    → (o ≡ returns do_ none) ↔ (e ≡ true) × P
round_iff true a o rest h i = (λ d. (refl, i.0 (sym h ∙ d)), λ p. h ∙ i.1 p.1)
round_iff false a o rest h i =
    (λ d. absurd (verdict_not_do a (action_of (sym h ∙ d))), λ p. absurd (no p.0))
  where
    action_of : {x y : ActionType} → returns x none ≡ returns y none → x ≡ y
    action_of e = cc

    no : false ≡ true → ⊥
    no e = cc

no_panic :
    (e : Bool) (a : ActionType) (o rest : Outcome)
    → o ≡ (if e then rest else returns a none)
    → rest ≢ panics
    → o ≢ panics
no_panic true a o rest h n p = n (sym h ∙ p)
no_panic false a o rest h n p = cc

round_stop : (e : Bool) (o rest v : Outcome) → o ≡ (if e then rest else v) → ¬ (e ≡ true) → o ≡ v
round_stop true o rest v h n = absurd (n refl)
round_stop false o rest v h n = h

round_pass : (e : Bool) (o rest v : Outcome) → o ≡ (if e then rest else v) → e ≡ true → o ≡ rest
round_pass e o rest v h n = ground arith

module _ {re : Regexps} (tp event : EventType) (raw_query : String) where
  event_tested :
      (r : BinlogEventRule re)
      → decide_event tp event r.events r.action
        ≡ (if lets_event tp event raw_query r then none else some (verdict r.action))
  unfolding decide_event
  event_tested r = ground (arith, decide-lets (match_event tp event r.events) r.action)

  query_tested :
      (r : BinlogEventRule re) (rest : Outcome)
      → Usable (rule r)
      → decide_query raw_query r rest
        ≡ (if lets_query tp event raw_query r then rest else returns (verdict r.action) none)
  unfolding decide_query
  query_tested r rest h = go r.sql_pattern r.sql_regular_exp h
    where
      go :
          (ps : List String) (reg : Option re.Regexp)
          → has_regexp ps reg ≡ true
          → decide_query raw_query (record r { sql_pattern = ps; sql_regular_exp = reg }) rest ≡ (
              if str_eq raw_query "" || lets_found re raw_query r.action ps reg
              then rest
              else returns (verdict r.action) none)
      go [] reg h = ground arith
      go (p ∷ ps) none h = cc
      go (p ∷ ps) (some reg) h = ground (arith, decide-lets (re.finds reg raw_query) r.action)

  filter_loop-round :
      (r : BinlogEventRule re) (rs : List (Entry re))
      → Usable (rule r)
      → filter_loop tp event raw_query (rule r ∷ rs) ≡ (
          if lets_event tp event raw_query r && lets_query tp event raw_query r
          then filter_loop tp event raw_query rs
          else returns (verdict r.action) none)
  unfolding filter_loop
  filter_loop-round r rs h =
      both_tested _ _ r.action _ _ (filter_loop tp event raw_query rs) (event_tested r)
        (query_tested r (filter_loop tp event raw_query rs) h)

  filter_loop-Passes :
      (rs : List (Entry re))
      → All Usable rs
      → (filter_loop tp event raw_query rs ≡ returns do_ none) ↔ All (Passes tp event raw_query) rs
  unfolding filter_loop
  filter_loop-Passes [] h = (λ _. tt, λ _. refl)
  filter_loop-Passes (foreign ∷ rs) h = absurd h.0
  filter_loop-Passes (rule r ∷ rs) (hr, h) =
      round_iff (lets_event tp event raw_query r && lets_query tp event raw_query r) r.action _ _
        (filter_loop-round r rs hr) (filter_loop-Passes rs h)

  filter_loop_no_panic :
      (rs : List (Entry re)) → All Usable rs → filter_loop tp event raw_query rs ≢ panics
  unfolding filter_loop
  filter_loop_no_panic [] h p = cc
  filter_loop_no_panic (foreign ∷ rs) h p = absurd h.0
  filter_loop_no_panic (rule r ∷ rs) (hr, h) p =
      no_panic (lets_event tp event raw_query r && lets_query tp event raw_query r)
        (verdict r.action) _ _ (filter_loop-round r rs hr) (filter_loop_no_panic rs h) p

  filter_loop-first :
      (before after : List (Entry re)) (r : BinlogEventRule re)
      → All Usable (before ++ rule r ∷ after)
      → All (Passes tp event raw_query) before
      → ¬ Passes tp event raw_query (rule r)
      → filter_loop tp event raw_query (before ++ rule r ∷ after) ≡ returns (verdict r.action) none
  filter_loop-first [] after r u p n =
      round_stop _ _ _ (returns (verdict r.action) none) (filter_loop-round r after u.0) n
  filter_loop-first (foreign ∷ before) after r u p n = absurd p.0
  filter_loop-first (rule b ∷ before) after r u p n =
      round_pass _ _ _ (returns (verdict b.action) none)
        (filter_loop-round b (before ++ rule r ∷ after) u.0) p.0
      ∙ filter_loop-first before after r u.1 p.1 n

module _ {re : Regexps} {sel : Selector (Entry re)} (b : BinlogEvent sel) (schema table : String)
    (event tp : EventType) (raw_query : String) where
  filter-loop :
      classify_event event ≡ some tp
      → filter (some b) schema table event raw_query
        ≡ filter_loop tp event raw_query (matched_rules b schema table)
  unfolding filter
  filter-loop h = rw (h, filter) refl

  -- Let the event have a class, and let the patterns of every rule that the selector finds be
  -- compiled. Then `Filter` answers Do, without error, exactly when all of these rules let both the
  -- event and the query through.
  pub filter-Passes :
      classify_event event ≡ some tp
      → All Usable (matched_rules b schema table)
      → (filter (some b) schema table event raw_query ≡ returns do_ none)
        ↔ All (Passes tp event raw_query) (matched_rules b schema table)
  filter-Passes h u =
      let (to, from) = filter_loop-Passes tp event raw_query (matched_rules b schema table) u in
      (λ d. to (sym (filter-loop h) ∙ d), λ p. filter-loop h ∙ from p)

  -- Let the event have a class, and let the patterns of every rule that the selector finds be
  -- compiled. Then the first of these rules that does not let the event and the query through
  -- decides the answer of `Filter`, without error: Error for a rule with that action, Ignore for a
  -- rule that does or ignores.
  pub filter-first :
      (before after : List (Entry re)) (r : BinlogEventRule re)
      → classify_event event ≡ some tp
      → matched_rules b schema table ≡ before ++ rule r ∷ after
      → All Usable (before ++ rule r ∷ after)
      → All (Passes tp event raw_query) before
      → ¬ Passes tp event raw_query (rule r)
      → filter (some b) schema table event raw_query ≡ returns (verdict r.action) none
  filter-first before after r h found u p n =
      filter-loop h
      ∙ ap (filter_loop tp event raw_query) found
      ∙ filter_loop-first tp event raw_query before after r u p n

-- Whatever the event's class is, compiled patterns are enough for `Filter` not to panic.
pub filter_no_panic :
    {re : Regexps} {sel : Selector (Entry re)} (b : BinlogEvent sel) (schema table : String)
    (event : EventType) (raw_query : String)
    → All Usable (matched_rules b schema table)
    → filter (some b) schema table event raw_query ≢ panics
unfolding filter
filter_no_panic b schema table event raw_query u = go (classify_event event)
  where
    go :
        (c : Option EventType)
        → (elim c [
          | none ↦ returns ignore (some (event_not_valid event))
          | some tp ↦ filter_loop tp event raw_query (matched_rules b schema table)
        ])
          ≢ panics
    go none p = cc
    go (some tp) p = filter_loop_no_panic tp event raw_query (matched_rules b schema table) u p
