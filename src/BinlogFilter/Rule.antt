-- ===== src/BinlogFilter/Rule.antt =====
-- `BinlogEventRule` of pkg/binlog-filter/filter.go: `ToLower` and `Valid`. `Valid` changes the rule
-- in place, so it returns the rule beside its error. Go's regular expressions are a parameter.
use tidb_tools.Prelude.{String, List, [], ◌∷◌, Option, none, some, if◌then◌else◌}
use tidb_tools.Prelude.Text.{◌+s◌, join, to_lower}
use tidb_tools.BinlogFilter.Events.{EventType, to_event_type}
use mathlib.Core.Bool.{Bool}
use mathlib.Core.Option

-- What the package uses of `regexp`: `Compile`, whose error is `none`, and whether
-- `FindStringIndex` finds a match.
pub record Regexps : Type 1 where
  pub Regexp : Type 0
  pub compile : String → Option Regexp
  pub finds : Regexp → String → Bool

-- `ActionType` is a string: one of the three that the rules may have, or any other text
pub data ActionType : Type 0 where
  ignore do_ error_ : ActionType
  other : String → ActionType

module _ (re : Regexps) where
  pub record BinlogEventRule : Type 0 where
    pub schema_pattern : String
    pub table_pattern : String
    pub events : List EventType
    pub sql_pattern : List String
    pub sql_regular_exp : Option re.Regexp
    pub action : ActionType

  -- `if len(b.SQLPattern) > 0`: the new regular expression, or the error
  abbrev pub compile_patterns : List String → Option re.Regexp → Option (Option re.Regexp)
  compile_patterns [] old = some old
  compile_patterns (p ∷ ps) old = Option.map some (re.compile ("(?i)" +s join (p ∷ ps) "|"))

pub data Error : Type 0 where
  compile_regular_expression : List String → Error
  action_not_valid : Error
  event_not_valid : EventType → Error
  rule_not_valid : Error
  insert_failed remove_failed : Error

abbrev pub is_known : ActionType → Bool
is_known (other s) = Bool.false
is_known _ = Bool.true

-- One round of `for i := range b.Events`, before the result of the rounds behind it.
abbrev pub rewritten :
    Option EventType
    → EventType
    → List EventType
    → List EventType × Option Error
    → List EventType × Option Error
rewritten none e es rest = (e ∷ es, some (event_not_valid e))
rewritten (some et) e es rest = (et ∷ rest.0, rest.1)

-- The entries up to the first that is no event type are rewritten.
unfoldable pub rewrite_events : List EventType → List EventType × Option Error
unfolding to_event_type
rewrite_events [] = ([], none)
rewrite_events (e ∷ es) = rewritten (to_event_type e) e es (rewrite_events es)

module _ {re : Regexps} where
  unfoldable pub to_lower_rule : BinlogEventRule re → BinlogEventRule re
  unfolding to_lower
  to_lower_rule b = record b {
    schema_pattern = to_lower b.schema_pattern;
    table_pattern = to_lower b.table_pattern;
  }

  -- `Valid` from the test on the action on
  unfoldable pub valid_action : BinlogEventRule re → BinlogEventRule re × Option Error
  unfolding rewrite_events
  valid_action b =
      if is_known b.action
      then (record b { events = (rewrite_events b.events).0 }, (rewrite_events b.events).1)
      else (b, some action_not_valid)

  abbrev pub valid_compiled :
      BinlogEventRule re → Option (Option re.Regexp) → BinlogEventRule re × Option Error
  valid_compiled b none = (b, some (compile_regular_expression b.sql_pattern))
  valid_compiled b (some reg) = valid_action (record b { sql_regular_exp = reg })

  unfoldable pub valid : BinlogEventRule re → BinlogEventRule re × Option Error
  unfolding valid_action join
  valid b = valid_compiled b (compile_patterns re b.sql_pattern b.sql_regular_exp)
