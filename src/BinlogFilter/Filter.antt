-- ===== src/BinlogFilter/Filter.antt =====
-- `BinlogEvent` of pkg/binlog-filter/filter.go: its rules, `Filter` and `matchEvent`. The selector
-- of pkg/table-rule-selector, which keeps the rules, is an interface here.
use tidb_tools.Prelude.{
  String, str_eq, Bool, true, false, ◌&&◌, ◌||◌, List, [], ◌∷◌, Option, none, some, if◌then◌else◌,
}
use tidb_tools.Prelude.Text.{to_lower}
use tidb_tools.BinlogFilter.Events.{
  EventType, dml, ddl, incompatible_ddl, all_event, all_ddl, all_dml, none_event, none_ddl,
  none_dml, incompatible_ddl_changes, null_event, classify_event,
}
use tidb_tools.BinlogFilter.Rule.{
  Regexps, ActionType, ignore, do_, error_, other, BinlogEventRule, Error, event_not_valid,
  rule_not_valid, insert_failed, remove_failed, to_lower_rule, valid,
}

unfoldable pub match_event : EventType → EventType → List EventType → Bool
match_event tp event [] = false
match_event tp event (rule ∷ rules) =
    let rest = match_event tp event rules in
    let is_ddl = str_eq tp ddl || str_eq tp incompatible_ddl in
    if str_eq rule all_event
    then true
    else if str_eq rule none_event
    then false
    else if is_ddl && str_eq rule all_ddl
    then true
    else if is_ddl && str_eq rule none_ddl
    then false
    else if str_eq tp dml && str_eq rule all_dml
    then true
    else if str_eq tp dml && str_eq rule none_dml
    then false
    else if str_eq tp incompatible_ddl && str_eq rule incompatible_ddl_changes
    then true
    else if str_eq rule event
    then true
    else rest

-- What `Insert` does where a rule is there already.
pub data InsertType : Type 0 where
  inserts replaces : InsertType

-- The methods of `Selector` that the filter calls, over the state of the selector. A change returns
-- the new state and whether it succeeded.
pub record Selector (A : Type 0) : Type 1 where
  pub State : Type 0
  pub new_trie_selector : State
  pub insert : State → String → String → A → InsertType → State × Bool
  pub match_rules : State → String → String → List A
  pub remove : State → String → String → State × Bool

-- The selector takes any value, so that what it returns may be no rule.
pub data Entry (re : Regexps) : Type 0 where
  rule : BinlogEventRule re → Entry re
  foreign : Entry re

-- The pair that `Filter` returns, or Go's panic on a nil regular expression.
pub data Outcome : Type 0 where
  returns : ActionType → Option Error → Outcome
  panics : Outcome

-- The decision on one test: `none` goes on.
unfoldable pub decide : Bool → ActionType → Option ActionType
decide true ignore = some ignore
decide true error_ = some error_
decide false do_ = some ignore
decide _ _ = none

-- the first test of the loop, `if tp != NullEvent`
unfoldable pub decide_event :
    EventType → EventType → List EventType → ActionType → Option ActionType
unfolding match_event decide
decide_event tp event events action =
    if str_eq tp null_event then none else decide (match_event tp event events) action

module _ {re : Regexps} where
  -- the second test, `if len(rawQuery) > 0`, before the rest of the loop
  unfoldable pub decide_query : String → BinlogEventRule re → Outcome → Outcome
  unfolding decide
  decide_query raw_query r rest = if str_eq raw_query "" then rest else elim r.sql_pattern [
    | [] ↦ rest
    | _ ∷ _ ↦ elim r.sql_regular_exp [
      | none ↦ panics
      | some reg ↦ elim (decide (re.finds reg raw_query) r.action) [
        | some action ↦ returns action none
        | none ↦ rest
      ]
    ]
  ]

  unfoldable pub filter_loop : EventType → EventType → String → List (Entry re) → Outcome
  unfolding decide_event decide_query
  filter_loop tp event raw_query [] = returns do_ none
  filter_loop tp event raw_query (foreign ∷ rules) = returns (other "") (some rule_not_valid)
  filter_loop tp event raw_query (rule r ∷ rules) =
      let rest = filter_loop tp event raw_query rules in
      elim (decide_event tp event r.events r.action) [
        | some action ↦ returns action none
        | none ↦ decide_query raw_query r rest
      ]

module _ {re : Regexps} (sel : Selector (Entry re)) where
  pub record BinlogEvent : Type 0 where
    pub selector : sel.State
    pub case_sensitive : Bool

module _ {re : Regexps} {sel : Selector (Entry re)} where
  -- `if !b.caseSensitive` before a rule is inserted or removed
  abbrev pub in_case : BinlogEvent sel → BinlogEventRule re → BinlogEventRule re
  in_case b r = if b.case_sensitive then r else to_lower_rule r

  -- the call of `Insert`, and its error
  abbrev pub insert_rule :
      BinlogEvent sel → BinlogEventRule re → InsertType → BinlogEvent sel × Option Error
  insert_rule b r t =
      let (s, done) = sel.insert b.selector r.schema_pattern r.table_pattern (rule r) t in
      (record b { selector = s }, if done then none else some insert_failed)

  -- what is done with the rule that `Valid` leaves and its error
  abbrev pub put_valid :
      InsertType
      → BinlogEvent sel
      → BinlogEventRule re × Option Error
      → BinlogEvent sel × Option Error
  put_valid t b (r, some e) = (b, some e)
  put_valid t b (r, none) = insert_rule b (in_case b r) t

  -- the body of `AddRule` and of `UpdateRule`, for a rule that is there
  unfoldable pub put_rule :
      InsertType → BinlogEvent sel → BinlogEventRule re → BinlogEvent sel × Option Error
  unfolding valid to_lower_rule
  put_rule t b r = put_valid t b (valid r)

  -- A nil rule changes nothing; nor does any rule on a nil filter, which is left out.
  unfoldable pub add_rule :
      BinlogEvent sel → Option (BinlogEventRule re) → BinlogEvent sel × Option Error
  unfolding put_rule
  add_rule b none = (b, none)
  add_rule b (some r) = put_rule inserts b r

  unfoldable pub update_rule :
      BinlogEvent sel → Option (BinlogEventRule re) → BinlogEvent sel × Option Error
  unfolding put_rule
  update_rule b none = (b, none)
  update_rule b (some r) = put_rule replaces b r

  unfoldable pub remove_rule :
      BinlogEvent sel → Option (BinlogEventRule re) → BinlogEvent sel × Option Error
  unfolding to_lower_rule
  remove_rule b none = (b, none)
  remove_rule b (some r) =
      let r' = in_case b r in
      let (s, done) = sel.remove b.selector r'.schema_pattern r'.table_pattern in
      (record b { selector = s }, if done then none else some remove_failed)

  -- the loop of `NewBinlogEvent`, which logs the errors and goes on
  unfoldable pub add_rules : BinlogEvent sel → List (Option (BinlogEventRule re)) → BinlogEvent sel
  unfolding add_rule
  add_rules b [] = b
  add_rules b (r ∷ rs) = add_rules (add_rule b r).0 rs

  unfoldable pub new_binlog_event : Bool → List (Option (BinlogEventRule re)) → BinlogEvent sel
  unfolding add_rules
  new_binlog_event case_sensitive rules =
      add_rules (record { selector = sel.new_trie_selector; case_sensitive = case_sensitive }) rules

  abbrev pub matched_rules : BinlogEvent sel → String → String → List (Entry re)
  matched_rules b schema table =
      if b.case_sensitive
      then sel.match_rules b.selector schema table
      else sel.match_rules b.selector (to_lower schema) (to_lower table)

  -- `Filter`; a nil filter answers Do
  unfoldable pub filter : Option (BinlogEvent sel) → String → String → EventType → String → Outcome
  unfolding classify_event filter_loop to_lower
  filter none schema table event raw_query = returns do_ none
  filter (some b) schema table event raw_query = elim (classify_event event) [
    | none ↦ returns ignore (some (event_not_valid event))
    | some tp ↦ filter_loop tp event raw_query (matched_rules b schema table)
  ]
