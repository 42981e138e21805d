-- ===== src/BinlogFilter/Tests.antt =====
-- Runs of the binlog filter, and the theorems at concrete inputs.
use tidb_tools.Prelude.{
  String, ◌≡◌, ◌≢◌, refl, ◌↔◌, ◌⊎◌, true, false, str_eq, List, [], ◌∷◌, none, some, All,
}
use tidb_tools.BinlogFilter.Events.{
  EventType, ddl, incompatible_ddl, one_of, to_event_type, classify_event,
}
use tidb_tools.BinlogFilter.Rule.{Regexps, BinlogEventRule, do_, ignore, valid}
use tidb_tools.BinlogFilter.Filter.{
  Entry, rule, returns, panics, Selector, BinlogEvent, match_event, matched_rules, filter,
  new_binlog_event,
}
use tidb_tools.BinlogFilter.Words.{general_words, to_event_type-read}
use tidb_tools.BinlogFilter.Valid.{IsValid, valid-again}
use tidb_tools.BinlogFilter.Matching.{FirstIncludes, match_event_iff}
use tidb_tools.BinlogFilter.Alias.{alias-unmatched}
use tidb_tools.BinlogFilter.Verdict.{Passes, filter-Passes, filter-first}
use tidb_tools.BinlogFilter.Trie.{trie_selector, trie_selector-IsSelector}
use tidb_tools.BinlogFilter.Sound.{ValidEntry, adds, updates, removes, run, run-ValidEntry}

-- A regular expression is a text here, found in the equal text only.
abbrev whole_text : Regexps
whole_text = record { Regexp = String; compile = λ s. some s; finds = λ reg s. str_eq reg s }

-- A selector that finds every rule for every table, and removes all of them.
abbrev keep_all : Selector (Entry whole_text)
keep_all = record {
  State = List (Entry whole_text);
  new_trie_selector = [];
  insert = λ s schema table r t. (r ∷ s, true);
  match_rules = λ s schema table. s;
  remove = λ s schema table. ([], true);
}

abbrev no_drops : BinlogEventRule whole_text
no_drops = record {
  schema_pattern = "Shop";
  table_pattern = "*";
  events = "Drop Table" ∷ "create schema" ∷ [];
  sql_pattern = "truncate" ∷ [];
  sql_regular_exp = none;
  action = ignore;
}

abbrev only_inserts : BinlogEventRule whole_text
only_inserts = record no_drops { events = "insert" ∷ []; sql_pattern = []; action = do_ }

to_event_type-read_example :
    (to_event_type "create database" ≡ some "create database")
    × ((one_of "create database" general_words ≡ true) ⊎ (classify_event "create database" ≢ none))
unfolding to_event_type
to_event_type-read_example = to_event_type-read "CREATE Schema" "create database" refl

valid-again_example :
    IsValid (valid no_drops).0 × (valid (valid no_drops).0 ≡ ((valid no_drops).0, none))
unfolding valid
valid-again_example = valid-again no_drops refl

match_event_iff_example :
    (match_event incompatible_ddl "drop table" ("none dml" ∷ "all ddl" ∷ "none" ∷ []) ≡ true)
    ↔ FirstIncludes incompatible_ddl "drop table" ("none dml" ∷ "all ddl" ∷ "none" ∷ [])
match_event_iff_example =
    match_event_iff incompatible_ddl "drop table" ("none dml" ∷ "all ddl" ∷ "none" ∷ [])

alias-unmatched_example : match_event ddl "create schema" (valid no_drops).0.events ≡ false
unfolding valid
alias-unmatched_example = alias-unmatched no_drops ddl "create schema" refl refl (refl, (refl, tt))

abbrev compiled_drops : BinlogEventRule whole_text
compiled_drops = record no_drops {
  events = "drop table" ∷ "create database" ∷ [];
  sql_regular_exp = some "(?i)truncate";
}

abbrev shop : BinlogEvent keep_all
shop = record { selector = rule only_inserts ∷ rule compiled_drops ∷ []; case_sensitive = true }

filter-Passes_example :
    (filter (some shop) "shop" "t" "insert" "" ≡ returns do_ none)
    ↔ All (Passes "dml" "insert" "") (matched_rules shop "shop" "t")
unfolding classify_event
filter-Passes_example = filter-Passes shop "shop" "t" "insert" "dml" "" refl (refl, (refl, tt))

inserts_pass : All (Passes "dml" "insert" "") (matched_rules shop "shop" "t")
unfolding match_event
inserts_pass = (refl, (refl, tt))

filter-first_example : filter (some shop) "shop" "t" "update" "" ≡ returns ignore none
unfolding classify_event match_event
filter-first_example =
    filter-first shop "shop" "t" "update" "dml" "" [] (rule compiled_drops ∷ []) only_inserts refl
      refl (refl, (refl, tt)) tt (λ h. cc)

run-ValidEntry_example :
    All ValidEntry (
      matched_rules
        (run
          (new_binlog_event {sel = trie_selector (Entry whole_text)} true
            (some no_drops ∷ none ∷ []))
          (adds (some only_inserts) ∷ removes (some no_drops) ∷ updates (some no_drops) ∷ []))
        "shop"
        "t")
    × ((event : EventType) (raw_query : String)
        → filter
            (some (
              run
                (new_binlog_event {sel = trie_selector (Entry whole_text)} true
                  (some no_drops ∷ none ∷ []))
                (adds (some only_inserts)
                  ∷ removes (some no_drops)
                  ∷ updates (some no_drops)
                  ∷ [])))
            "shop"
            "t"
            event
            raw_query
          ≢ panics)
run-ValidEntry_example =
    run-ValidEntry (trie_selector-IsSelector (Entry whole_text)) true (some no_drops ∷ none ∷ [])
      (adds (some only_inserts) ∷ removes (some no_drops) ∷ updates (some no_drops) ∷ []) "shop" "t"
