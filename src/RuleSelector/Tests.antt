-- ===== src/RuleSelector/Tests.antt =====
-- Runs of the selector, and the theorems at concrete inputs.
use tidb_tools.Prelude.{ℕ, zero, ◌≤◌, ◌≡◌, ◌↔◌, refl, true, List, [], ◌∷◌, some, arith, In, length}
use tidb_tools.Prelude.Text.{bytes}
use tidb_tools.RuleSelector.Pattern.{RangeItem, star, any, range, char, tokens}
use tidb_tools.RuleSelector.Tracks.{failed}
use tidb_tools.RuleSelector.Render.{render, render-tokens}
use tidb_tools.RuleSelector.Selector.{
  inserts, replaces, appends, TrieSelector, new_trie_selector, insert, remove, match_fresh,
  match_rules, max_cache_num,
}
use tidb_tools.RuleSelector.Store.{rules_at, store_insert, store_remove}
use tidb_tools.RuleSelector.Refines.{insert-store_insert, remove-store_remove}
use tidb_tools.RuleSelector.Fresh.{Holds}
use tidb_tools.RuleSelector.Cached.{IsName}
use tidb_tools.RuleSelector.Answers.{Call, inserts_rule, matches, replay, run, run-match_rules}
use tidb_tools.RuleSelector.CacheSize.{run-cache_bounds}
use tidb_tools.RuleSelector.Literal.{IsSingle, match_literal}

abbrev not_x_to_z : RangeItem
not_x_to_z = record {
  has_not = true;
  ranges = record { start = b'x'; end = b'z'; has_between = true } ∷ [];
}

tokens_mixed :
    tokens zero (bytes "a?[!x-z]b*") ≡ char b'a' ∷ any ∷ range not_x_to_z ∷ char b'b' ∷ star ∷ []
unfolding tokens bytes
tokens_mixed = refl

tokens_open : tokens zero (bytes "a[b") ≡ char b'a' ∷ char b'[' ∷ char b'b' ∷ []
unfolding tokens bytes
tokens_open = refl

abbrev calls : List (Call ℕ)
calls =
    inserts_rule (bytes "shard_?") (bytes "t*") (some 1) inserts
    ∷ inserts_rule (bytes "shard_[0-4]") [] (some 2) inserts
    ∷ inserts_rule (bytes "shard_[0-4]") [] (some 3) inserts
    ∷ inserts_rule (bytes "a*b") [] (some 4) inserts
    ∷ matches (bytes "shard_1") (bytes "t1")
    ∷ inserts_rule (bytes "shard_[0-4]") [] (some 5) appends
    ∷ []

abbrev after_calls : TrieSelector ℕ
unfolding run insert
after_calls = run (λ c. 0) new_trie_selector calls

matched_both : (match_rules (λ c. 0) after_calls (bytes "shard_1") (bytes "t1")).1 ≡ 2 ∷ 5 ∷ 1 ∷ []
unfolding run match_rules insert bytes
matched_both = refl

matched_one : (match_rules (λ c. 0) after_calls (bytes "shard_7") (bytes "t1")).1 ≡ 1 ∷ []
unfolding run match_rules insert bytes
matched_one = refl

inserted_twice : failed (insert after_calls (bytes "shard_[0-4]") [] (some 3) inserts).1 ≡ true
unfolding run match_rules insert bytes
inserted_twice = refl

removed_once :
    (match_rules
      (λ c. 0)
      (remove after_calls (bytes "shard_?") (bytes "t*")).0
      (bytes "shard_1")
      (bytes "t1")).1
    ≡ 2 ∷ 5 ∷ []
unfolding run match_rules insert remove bytes
removed_once = refl

abbrev accented : TrieSelector ℕ
unfolding insert bytes
accented = (insert new_trie_selector (bytes "é") [] (some 1) inserts).0

-- "é" is two bytes, and its own pattern does not match it.
not_matched : (match_rules (λ c. 0) accented (bytes "é") []).1 ≡ []
unfolding match_rules insert bytes
not_matched = refl

insert-store_insert_example :
    (rules_at (insert after_calls (bytes "a*b") [] (some 6) replaces).0.root
      ≡ (store_insert (rules_at after_calls.root) (bytes "a*b") [] (some 6) replaces).0)
    × (failed (insert after_calls (bytes "a*b") [] (some 6) replaces).1
        ≡ (store_insert (rules_at after_calls.root) (bytes "a*b") [] (some 6) replaces).1)
insert-store_insert_example = insert-store_insert after_calls (bytes "a*b") [] (some 6) replaces

remove-store_remove_example :
    (rules_at (remove after_calls (bytes "shard_?") (bytes "t*")).0.root
      ≡ (store_remove (rules_at after_calls.root) (bytes "shard_?") (bytes "t*")).0)
    × (failed (remove after_calls (bytes "shard_?") (bytes "t*")).1
        ≡ (store_remove (rules_at after_calls.root) (bytes "shard_?") (bytes "t*")).1)
remove-store_remove_example = remove-store_remove after_calls (bytes "shard_?") (bytes "t*")

shard-IsName : IsName (bytes "shard_1") (bytes "t1")
unfolding bytes
shard-IsName = record {
  schema_given = λ h. cc;
  schema_plain = omega arith;
  table_plain = omega arith;
}

run-match_rules_example :
    In 5
      (match_rules (λ c. 0) (run (λ c. 0) new_trie_selector calls) (bytes "shard_1") (bytes "t1")).1
    ↔ Holds (replay (λ vs ws. []) calls) (bytes "shard_1") (bytes "t1") 5
run-match_rules_example =
    run-match_rules (λ c. 0) calls (bytes "shard_1") (bytes "t1")
      (tt, (tt, (tt, (tt, (shard-IsName, (tt, tt)))))) shard-IsName 5

run-cache_bounds_example : length (run (λ c. 0) new_trie_selector calls).cache ≤ max_cache_num
run-cache_bounds_example =
    run-cache_bounds (λ c. 0) (λ c h. h) calls new_trie_selector (omega arith)

render-tokens_example : render (tokens zero (bytes "a?[!x-z]b[")) ≡ bytes "a?[!x-z]b["
render-tokens_example = render-tokens (bytes "a?[!x-z]b[")

match_literal_example :
    In {A = ℕ} 7 (
      match_fresh
        (insert new_trie_selector (bytes "né") [] (some 7) inserts).0.root
        (bytes "né")
        (bytes "t"))
    ↔ IsSingle (bytes "né")
unfolding bytes
match_literal_example = match_literal (bytes "né") 7 (λ h. cc) (ground arith) (bytes "t")
