-- ===== src/BinlogFilter/Sound.antt =====
-- The rules that a filter of pkg/binlog-filter/filter.go holds, from `NewBinlogEvent` on.
use mathlib.Core.Option
use mathlib.Core.Path.{subst}
use tidb_tools.Prelude.Text.{to_lower}
use tidb_tools.Prelude.{
  String, ◌≡◌, ◌≢◌, refl, sym, Bool, true, false, List, [], ◌∷◌, Option, none, some, All,
  if◌then◌else◌,
}
use tidb_tools.BinlogFilter.Events.{EventType}
use tidb_tools.BinlogFilter.Rule.{
  Regexps, BinlogEventRule, Error, to_lower_rule, compile_patterns, valid,
}
use tidb_tools.BinlogFilter.Filter.{
  InsertType, inserts, replaces, put_valid, Entry, rule, foreign, panics, Selector, BinlogEvent,
  in_case, put_rule, add_rule, update_rule, remove_rule, add_rules, new_binlog_event, matched_rules,
  filter,
}
use tidb_tools.BinlogFilter.Valid.{IsValid, valid-again}
use tidb_tools.BinlogFilter.Verdict.{has_regexp, Usable, filter_no_panic}

-- What the filter relies on: a new selector finds nothing, and a change, successful or not, brings
-- in no rule but the one inserted.
pub record IsSelector {A : Type 0} (sel : Selector A) : Type 1 where
  pub match_new : (schema table : String) → sel.match_rules sel.new_trie_selector schema table ≡ []
  pub match_insert :
      (P : A → Type 0) (s : sel.State) (schema table : String) (a : A) (t : InsertType)
      → ((x y : String) → All P (sel.match_rules s x y))
      → P a
      → (x y : String) → All P (sel.match_rules (sel.insert s schema table a t).0 x y)
  pub match_remove :
      (P : A → Type 0) (s : sel.State) (schema table : String)
      → ((x y : String) → All P (sel.match_rules s x y))
      → (x y : String) → All P (sel.match_rules (sel.remove s schema table).0 x y)

abbrev pub ValidEntry : {re : Regexps} → Entry re → Type 0
ValidEntry foreign = ⊥
ValidEntry (rule r) = IsValid r

no_map : {A : Type 0} (o : Option A) → Option.map some o ≡ some none → ⊥
no_map none h = cc
no_map (some a) h = cc

compiled-has_regexp :
    (re : Regexps) (ps : List String) (reg : Option re.Regexp)
    → compile_patterns re ps reg ≡ some reg
    → has_regexp ps reg ≡ true
compiled-has_regexp re [] none h = refl
compiled-has_regexp re [] (some reg) h = refl
compiled-has_regexp re (p ∷ ps) (some reg) h = refl
compiled-has_regexp re (p ∷ ps) none h = absurd (no_map (re.compile _) h)

ValidEntry-Usable : {re : Regexps} (x : Entry re) → ValidEntry x → Usable x
ValidEntry-Usable foreign v = v
ValidEntry-Usable {re = re} (rule r) v =
    compiled-has_regexp re r.sql_pattern r.sql_regular_exp v.compiled

AllValid-Usable : {re : Regexps} (xs : List (Entry re)) → All ValidEntry xs → All Usable xs
AllValid-Usable [] v = tt
AllValid-Usable (x ∷ xs) (v, vs) = (ValidEntry-Usable x v, AllValid-Usable xs vs)

module _ {re : Regexps} {sel : Selector (Entry re)} (laws : IsSelector sel) where
  -- Whatever the selector finds is a rule that passed `Valid`.
  abbrev pub AllFound : BinlogEvent sel → Type 0
  AllFound b = (x y : String) → All ValidEntry (sel.match_rules b.selector x y)

  in_case-IsValid :
      (b : BinlogEvent sel) (r : BinlogEventRule re) → IsValid r → IsValid (in_case b r)
  unfolding to_lower_rule
  in_case-IsValid b r v = go b.case_sensitive
    where
      go : (c : Bool) → IsValid (if c then r else to_lower_rule r)
      go true = v
      go false = record { read = v.read; known = v.known; compiled = v.compiled }

  put_valid-AllFound :
      (t : InsertType) (b : BinlogEvent sel) (p : BinlogEventRule re × Option Error)
      → AllFound b
      → (p.1 ≡ none → IsValid p.0)
      → AllFound (put_valid t b p).0
  put_valid-AllFound t b (r, some e) h v = h
  put_valid-AllFound t b (r, none) h v =
      laws.match_insert ValidEntry b.selector _ _ (rule (in_case b r)) t h
        (in_case-IsValid b r (v refl))

  put_rule-AllFound :
      (t : InsertType) (b : BinlogEvent sel) (r : BinlogEventRule re)
      → AllFound b
      → AllFound (put_rule t b r).0
  unfolding put_rule
  put_rule-AllFound t b r h = put_valid-AllFound t b (valid r) h (λ ok. (valid-again r ok).0)

  add_rule-AllFound :
      (b : BinlogEvent sel) (r : Option (BinlogEventRule re))
      → AllFound b
      → AllFound (add_rule b r).0
  unfolding add_rule
  add_rule-AllFound b none h = h
  add_rule-AllFound b (some r) h = put_rule-AllFound inserts b r h

  add_rules-AllFound :
      (b : BinlogEvent sel) (rs : List (Option (BinlogEventRule re)))
      → AllFound b
      → AllFound (add_rules b rs)
  unfolding add_rules
  add_rules-AllFound b [] h = h
  add_rules-AllFound b (r ∷ rs) h = add_rules-AllFound (add_rule b r).0 rs (add_rule-AllFound b r h)

  new_binlog_event-AllFound :
      (c : Bool) (rs : List (Option (BinlogEventRule re)))
      → AllFound (new_binlog_event {sel = sel} c rs)
  unfolding new_binlog_event
  new_binlog_event-AllFound c rs =
      add_rules-AllFound _ rs (λ x y. subst (All ValidEntry) (sym (laws.match_new x y)) tt)

-- The calls that change a filter.
pub data Call (re : Regexps) : Type 0 where
  adds updates removes : Option (BinlogEventRule re) → Call re

module _ {re : Regexps} {sel : Selector (Entry re)} where
  unfoldable pub step : BinlogEvent sel → Call re → BinlogEvent sel
  unfolding add_rule update_rule remove_rule
  step b (adds r) = (add_rule b r).0
  step b (updates r) = (update_rule b r).0
  step b (removes r) = (remove_rule b r).0

  unfoldable pub run : BinlogEvent sel → List (Call re) → BinlogEvent sel
  unfolding step
  run b [] = b
  run b (c ∷ cs) = run (step b c) cs

module _ {re : Regexps} {sel : Selector (Entry re)} (laws : IsSelector sel) where
  step-AllFound : (b : BinlogEvent sel) (c : Call re) → AllFound laws b → AllFound laws (step b c)
  unfolding step update_rule remove_rule
  step-AllFound b (adds r) h = add_rule-AllFound laws b r h
  step-AllFound b (updates none) h = h
  step-AllFound b (updates (some r)) h = put_rule-AllFound laws replaces b r h
  step-AllFound b (removes none) h = h
  step-AllFound b (removes (some r)) h = laws.match_remove ValidEntry b.selector _ _ h

  run-AllFound :
      (b : BinlogEvent sel) (cs : List (Call re)) → AllFound laws b → AllFound laws (run b cs)
  unfolding run
  run-AllFound b [] h = h
  run-AllFound b (c ∷ cs) h = run-AllFound (step b c) cs (step-AllFound b c h)

  matched_rules-AllFound :
      (b : BinlogEvent sel) (schema table : String)
      → AllFound laws b
      → All ValidEntry (matched_rules b schema table)
  matched_rules-AllFound b schema table h = go b.case_sensitive
    where
      go :
          (c : Bool)
          → All ValidEntry (
              if c
              then sel.match_rules b.selector schema table
              else sel.match_rules b.selector (to_lower schema) (to_lower table))
      go true = h schema table
      go false = h (to_lower schema) (to_lower table)

  -- Let a selector find nothing at first and let a change of it bring in no rule but the inserted
  -- one. Then in a filter made by `NewBinlogEvent` of any rules, after any additions, updates and
  -- removals, the rules found for a schema and a table have all passed `Valid`, and `Filter` does
  -- not run into a regular expression that is nil.
  pub run-ValidEntry :
      (c : Bool) (rules : List (Option (BinlogEventRule re))) (calls : List (Call re))
      (schema table : String)
      → All ValidEntry
          (matched_rules (run (new_binlog_event {sel = sel} c rules) calls) schema table)
        × ((event : EventType) (raw_query : String)
            → filter
                (some (run (new_binlog_event {sel = sel} c rules) calls))
                schema
                table
                event
                raw_query
              ≢ panics)
  run-ValidEntry c rules calls schema table =
      let b = run (new_binlog_event {sel = sel} c rules) calls in
      let v =
        matched_rules-AllFound b schema table
          (run-AllFound _ calls (new_binlog_event-AllFound laws c rules)) in
      (v, λ event q. filter_no_panic b schema table event q (AllValid-Usable _ v))
