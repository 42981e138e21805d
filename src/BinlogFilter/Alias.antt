-- ===== src/BinlogFilter/Alias.antt =====
-- The aliases CreateSchema, DropSchema and AlterSchema of pkg/binlog-filter/filter.go, which
-- `toEventType` of util.go replaces in the rules.
use tidb_tools.Prelude.{
  ◌≡◌, refl, sym, ap, ◌∙◌, Bool, true, false, str_eq, str_eq_iff, not, ◌&&◌, ◌||◌, List, [], ◌∷◌,
  none, some, All, arith, Bool-cases, inl, inr,
}
use tidb_tools.BinlogFilter.Events.{
  EventType, one_of, to_event_type, all_event, all_ddl, all_dml, none_event, none_ddl, none_dml,
  incompatible_ddl_changes, dml, incompatible_ddl,
}
use tidb_tools.BinlogFilter.Rule.{Regexps, BinlogEventRule, valid}
use tidb_tools.BinlogFilter.Filter.{match_event}
use tidb_tools.BinlogFilter.Words.{all, all-one_of, gives, general_words, AllRead}
use tidb_tools.BinlogFilter.Matching.{is_ddl, excludes, includes, round, match_event-round}
use tidb_tools.BinlogFilter.Valid.{valid-again}

abbrev pub aliases : List EventType
aliases = "create schema" ∷ "drop schema" ∷ "alter schema" ∷ []

aliases_replaced : all (λ a. not (gives a (to_event_type a))) aliases ≡ true
unfolding to_event_type
aliases_replaced = refl

read-gives : (e : EventType) → to_event_type e ≡ some e → gives e (to_event_type e) ≡ true
read-gives e h = ap (gives e) h ∙ (str_eq_iff e e).1 refl

no_alias :
    (alias e : EventType)
    → one_of alias aliases ≡ true
    → to_event_type e ≡ some e
    → str_eq e alias ≡ false
no_alias alias e h read = elim (Bool-cases (str_eq e alias)) [
  | inr n ↦ n
  | inl same ↦
      let s : e ≡ alias = (str_eq_iff e alias).0 same in
      let replaced =
        all-one_of (λ a. not (gives a (to_event_type a))) aliases alias aliases_replaced h in
      let itself = ap (λ a. gives a (to_event_type a)) (sym s) ∙ read-gives e read in
      absurd (contradicts _ replaced itself)
]
  where
    contradicts : (g : Bool) → not g ≡ true → g ≡ true → ⊥
    contradicts g n h = cc

not_included :
    (a d1 m1 n d2 m2 c v d m i : Bool)
    → (a || (d1 || (m1 || (n || (d2 || (m2 || (c || false))))))) ≡ false
    → v ≡ false
    → (a || d && d1 || m && m1 || i && c || v) ≡ false
not_included a d1 m1 n d2 m2 c v d m i h k = ground arith

round_none : (x i rest : Bool) → i ≡ false → rest ≡ false → round x i rest ≡ false
round_none x i rest h k = ground arith

alias_passes :
    (tp alias : EventType) (es : List EventType)
    → one_of alias aliases ≡ true
    → AllRead es
    → All (λ e. one_of e general_words ≡ false) es
    → match_event tp alias es ≡ false
unfolding match_event
alias_passes tp alias [] h read g = refl
alias_passes tp alias (e ∷ es) h (hr, read) (hg, g) =
    match_event-round tp alias e es
    ∙ round_none (excludes tp e) (includes tp alias e) (match_event tp alias es)
        (not_included (str_eq e all_event) (str_eq e all_ddl) (str_eq e all_dml)
          (str_eq e none_event) (str_eq e none_ddl) (str_eq e none_dml)
          (str_eq e incompatible_ddl_changes) (str_eq e alias) (is_ddl tp) (str_eq tp dml)
          (str_eq tp incompatible_ddl) hg (no_alias alias e h hr))
        (alias_passes tp alias es h read g)

-- For every rule that `Valid` accepts, if its events have no word for several events, then none of
-- them matches an event given by the alias "create schema", "drop schema" or "alter schema", not
-- even where the rule names that alias.
pub alias-unmatched :
    {re : Regexps} (b : BinlogEventRule re) (tp alias : EventType)
    → (valid b).1 ≡ none
    → one_of alias aliases ≡ true
    → All (λ e. one_of e general_words ≡ false) (valid b).0.events
    → match_event tp alias (valid b).0.events ≡ false
alias-unmatched b tp alias h k g =
    alias_passes tp alias (valid b).0.events k (valid-again b h).0.read g
