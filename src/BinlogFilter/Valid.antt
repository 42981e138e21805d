-- ===== src/BinlogFilter/Valid.antt =====
-- `BinlogEventRule.Valid` of pkg/binlog-filter/filter.go: what it checks and what it changes.
use mathlib.Core.Path.{subst}
use tidb_tools.Prelude.{
  String, ◌≡◌, refl, sym, ap, inl, inr, ◌∙◌, Bool, true, false, List, [], ◌∷◌, Option, none, some,
  Bool-cases, if◌then◌else◌,
}
use tidb_tools.BinlogFilter.Rule.{
  Regexps, BinlogEventRule, Error, action_not_valid, is_known, rewrite_events, valid_action,
  compile_patterns, valid_compiled, valid,
}
use tidb_tools.BinlogFilter.Words.{AllRead, rewrite_events-AllRead, AllRead-rewrite_events}

recompiled :
    (re : Regexps) (ps : List String) (old reg : Option re.Regexp)
    → compile_patterns re ps old ≡ some reg
    → compile_patterns re ps reg ≡ some reg
recompiled re [] old reg h = refl
recompiled re (p ∷ ps) old reg h = h

unknown_done :
    {A : Type 0} (k : Bool) (x y : A × Option Error)
    → k ≡ false
    → y.1 ≡ some action_not_valid
    → (if k then x else y).1 ≡ none
    → ⊥
unknown_done k x y n e h = cc

module _ {re : Regexps} where
  -- What a rule that passed `Valid` satisfies: its events are read, its action is one of the three,
  -- and its patterns, if there are any, are compiled.
  pub record IsValid (b : BinlogEventRule re) : Type 0 where
    pub read : AllRead b.events
    pub known : is_known b.action ≡ true
    pub compiled : compile_patterns re b.sql_pattern b.sql_regular_exp ≡ some b.sql_regular_exp

  known-valid_action :
      (b : BinlogEventRule re)
      → is_known b.action ≡ true
      → valid_action b
        ≡ (record b { events = (rewrite_events b.events).0 }, (rewrite_events b.events).1)
  unfolding valid_action
  known-valid_action b h = rw h refl

  unknown-valid_action :
      (b : BinlogEventRule re) → is_known b.action ≡ false → (valid_action b).1 ≡ none → ⊥
  unfolding valid_action
  unknown-valid_action b n h = unknown_done (is_known b.action) _ _ n refl h

  IsValid→valid : (b : BinlogEventRule re) → IsValid b → valid b ≡ (b, none)
  unfolding valid
  IsValid→valid b v =
      ap (valid_compiled b) v.compiled
      ∙ known-valid_action b v.known
      ∙ ap (λ p. (record b { events = p.0 }, p.1)) (AllRead-rewrite_events b.events v.read)

  valid_action-IsValid :
      (b : BinlogEventRule re)
      → compile_patterns re b.sql_pattern b.sql_regular_exp ≡ some b.sql_regular_exp
      → (valid_action b).1 ≡ none
      → IsValid (valid_action b).0
  valid_action-IsValid b hc h = elim (Bool-cases (is_known b.action)) [
    | inl k ↦
        let e = known-valid_action b k in
        subst (λ p. IsValid p.0) (sym e)
          (record {
            read = rewrite_events-AllRead b.events (sym (ap (λ p. p.1) e) ∙ h);
            known = k;
            compiled = hc;
          })
    | inr n ↦ absurd (unknown-valid_action b n h)
  ]

  valid_compiled-IsValid :
      (b : BinlogEventRule re) (o : Option (Option re.Regexp))
      → compile_patterns re b.sql_pattern b.sql_regular_exp ≡ o
      → (valid_compiled b o).1 ≡ none
      → IsValid (valid_compiled b o).0
  valid_compiled-IsValid b none e h = cc
  valid_compiled-IsValid b (some reg) e h =
      valid_action-IsValid (record b { sql_regular_exp = reg })
        (recompiled re b.sql_pattern b.sql_regular_exp reg e) h

  valid→IsValid : (b : BinlogEventRule re) → (valid b).1 ≡ none → IsValid (valid b).0
  unfolding valid
  valid→IsValid b h =
      valid_compiled-IsValid b (compile_patterns re b.sql_pattern b.sql_regular_exp) refl h

  -- For every rule that `Valid` accepts, the rule that it leaves has only event types that
  -- `toEventType` reads as themselves, one of the three actions, and its patterns, if any, compiled;
  -- and a second call of `Valid` accepts that rule and leaves it as it is.
  pub valid-again :
      (b : BinlogEventRule re)
      → (valid b).1 ≡ none
      → IsValid (valid b).0 × (valid (valid b).0 ≡ ((valid b).0, none))
  valid-again b h = (valid→IsValid b h, IsValid→valid (valid b).0 (valid→IsValid b h))
