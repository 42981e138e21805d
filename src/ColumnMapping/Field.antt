-- ===== src/ColumnMapping/Field.antt =====
-- One field of an id of pkg/column-mapping/column.go, as `computeID` gives it.
use mathlib.Core.Option
use mathlib.Core.Option.{some_inj}
use native.Mathlib.Nat.{one-le-pow}
use tidb_tools.Prelude.{
  ℕ, ◌+◌, ◌*◌, ◌^◌, ◌<◌, ◌≤◌, ◌≡◌, refl, sym, ap, ◌∙◌, arith, String, str_eq, ◌||◌, Bool, true,
  false, ltb, Option, none, some, if◌then◌else◌,
}
use tidb_tools.Prelude.Text.{◌+s◌}
use tidb_tools.ColumnMapping.Partition.{
  Ids, shift_left, both_ids, in_range, parse_uint, id_of, strip_prefix, parse_digits, compute_id,
}
use tidb_tools.ColumnMapping.Packing.{shift_left_mul}

-- A number of at most `size` bits, at its place in the word.
pub record Field (size shift n : ℕ) : Type 0 where
  pub value : ℕ
  pub bounded : value < 2 ^ size
  pub placed : n ≡ value * 2 ^ shift

shifted-Field :
    (size shift x n : ℕ)
    → x < 2 ^ size
    → size + shift ≤ 63
    → shift_left x shift ≡ n
    → Field size shift n
shifted-Field size shift x n h le e = record {
  value = x;
  bounded = h;
  placed = sym e ∙ shift_left_mul x size shift h le;
}

if_none : (c : Bool) (o : Option ℕ) (n : ℕ) → (if c then none else o) ≡ some n → o ≡ some n
if_none c o n h = ground arith

in_range-lt : (size : ℕ) (o : Option ℕ) (n : ℕ) → in_range size o ≡ some n → n < 2 ^ size
in_range-lt size none n h = cc
in_range-lt size (some m) n h = ground arith

parse_uint-lt : (s : String) (size n : ℕ) → parse_uint s size ≡ some n → n < 2 ^ size
unfolding parse_uint
parse_uint-lt s size n h =
    in_range-lt size (parse_digits 0 s) n
      (if_none (str_eq s "" || ltb 64 size) (in_range size (parse_digits 0 s)) n h)

pub mapped-Field :
    (s : String) (size shift n : ℕ)
    → size + shift ≤ 63
    → Option.map (λ id. shift_left id shift) (parse_uint s size) ≡ some n
    → Field size shift n
mapped-Field s size shift n le h = go (parse_uint s size) (parse_uint-lt s size) h
  where
    go :
        (o : Option ℕ)
        → ((x : ℕ) → o ≡ some x → x < 2 ^ size)
        → Option.map (λ id. shift_left id shift) o ≡ some n
        → Field size shift n
    go none b h = cc
    go (some x) b h = shifted-Field size shift x n (b x refl) le (some_inj.0 h)

pub compute_id-Field :
    (name prefix sep : String) (size shift n : ℕ)
    → size + shift ≤ 63
    → compute_id name prefix sep size shift ≡ some n
    → Field size shift n
unfolding compute_id
compute_id-Field name prefix sep size shift n le h =
    go (str_eq name prefix) (strip_prefix (prefix +s sep) name) h
  where
    go :
        (c : Bool) (o : Option String)
        → (if c then some 0 else id_of size shift o) ≡ some n
        → Field size shift n
    go true o h = record {
      value = 0;
      bounded = one-le-pow size 2 (omega arith);
      placed = let zero_n : 0 ≡ n = some_inj.0 h in sym zero_n ∙ omega arith;
    }
    go false none h = cc
    go false (some s) h = mapped-Field s size shift n le h

pub both_ids-some :
    (oi os ot : Option ℕ) (ids : Ids)
    → both_ids oi os ot ≡ some ids
    → (oi ≡ some ids.instance) × (os ≡ some ids.schema) × (ot ≡ some ids.table)
both_ids-some none os ot ids h = cc
both_ids-some (some i) none ot ids h = cc
both_ids-some (some i) (some s) none ids h = cc
both_ids-some (some i) (some s) (some t) ids h =
    let e = some_inj.0 h in
    (ap (λ p. some p.instance) e, ap (λ p. some p.schema) e, ap (λ p. some p.table) e)
