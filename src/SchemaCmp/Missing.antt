-- ===== src/SchemaCmp/Missing.antt =====
-- `JoinWithNil` of the columns of pkg/schemacmp/table.go, with `setFlagForMissingColumn` of type.go:
-- the column that is joined with a missing one.
use mathlib.Core.Option
use mathlib.Core.Path.{subst}
use tidb_tools.Prelude.{
  ℕ, zero, suc, String, ◌≡◌, refl, sym, ap, ◌∙◌, Bool, true, false, not, Option, none, some, arith,
  ◌==◌, if◌then◌else◌,
}
use Prim.Native.Nat.{bit_and}
use tidb_tools.SchemaCmp.Data.{
  Value, Lattice, Tuple, nil, cons, tuple, typ, maybe, singleton, ok, Mysql,
}
use tidb_tools.SchemaCmp.Leaf.{gt}
use tidb_tools.SchemaCmp.Lattice.{get, unwrap_uint}
use tidb_tools.SchemaCmp.Column.{
  set_entry, not_nil, has_default, set_default, set_flag_for_missing_column, with_default,
  is_not_null, get_standard_default_value,
}
use tidb_tools.SchemaCmp.Map.{
  as_typ, column_has_default, by_default, joined_with, joined_flagged, joined_typ, or_panic,
  column_join_with_nil, column_compare_with_nil,
}

some_inj {ℓ} : {A : Type ℓ} {x y : A} → some x ≡ some y → x ≡ y
some_inj h = cc

ok_some_inj : {x y : Lattice} → ok (some x) ≡ ok (some y) → x ≡ y
ok_some_inj h = cc

get-set_entry :
    (t : Tuple) (i : ℕ) (v w : Lattice) → get t i ≡ some w → get (set_entry t i v) i ≡ some v
unfolding set_entry
get-set_entry nil i v w h = cc
get-set_entry (cons a as_) zero v w h = refl
get-set_entry (cons a as_) (suc i) v w h = get-set_entry as_ i v w h

get-set_entry_ne :
    (t : Tuple) (i j : ℕ) (v : Lattice) → ¬ (i ≡ j) → get (set_entry t i v) j ≡ get t j
unfolding set_entry
get-set_entry_ne nil i j v n = refl
get-set_entry_ne (cons a as_) zero zero v n = absurd (n refl)
get-set_entry_ne (cons a as_) zero (suc j) v n = refl
get-set_entry_ne (cons a as_) (suc i) zero v n = refl
get-set_entry_ne (cons a as_) (suc i) (suc j) v n = get-set_entry_ne as_ i j v (λ e. n (ap suc e))

unwrap_uint-not_nil : (v : Lattice) (d : ℕ) → unwrap_uint v ≡ some d → not_nil v ≡ true
unfolding unwrap_uint
unwrap_uint-not_nil (Lattice.bool b) d h = refl
unwrap_uint-not_nil (Lattice.singleton b) d h = refl
unwrap_uint-not_nil (Lattice.equality_singleton b) d h = refl
unwrap_uint-not_nil (Lattice.bit_set b) d h = refl
unwrap_uint-not_nil (Lattice.byte b) d h = refl
unwrap_uint-not_nil (Lattice.field_tp b) d h = refl
unwrap_uint-not_nil (Lattice.int b) d h = refl
unwrap_uint-not_nil (Lattice.int64 b) d h = refl
unwrap_uint-not_nil (Lattice.uint b) d h = refl
unwrap_uint-not_nil (Lattice.string_list b) d h = refl
unwrap_uint-not_nil Lattice.maybe_nil d h = cc
unwrap_uint-not_nil (Lattice.maybe a) d h = unwrap_uint-not_nil a d h
unwrap_uint-not_nil (Lattice.tuple b) d h = refl
unwrap_uint-not_nil (Lattice.typ b) d h = refl

module _ (m : Mysql) where
  set_default-has_default :
      (a : Tuple) (v : Lattice) (o : Option ℕ)
      → get a 6 ≡ some v
      → unwrap_uint v ≡ o
      → has_default (set_default m a o).0 ≡ some true
  unfolding has_default
  set_default-has_default a v none h u =
      ap (Option.map not_nil) (get-set_entry a 6 (with_default m 0) v h)
  set_default-has_default a v (some d) h u = go (not (bit_and d m.no_default_value_flag == 0))
    where
      go :
          (c : Bool)
          → let p : Tuple × Bool =
              if c then (set_entry a 6 (with_default m d), true) else (a, false) in
            Option.map not_nil (get p.0 6) ≡ some true
      go true = ap (Option.map not_nil) (get-set_entry a 6 (with_default m d) v h)
      go false = ap (Option.map not_nil) h ∙ ap some (unwrap_uint-not_nil v d u)

  set_flag-has_default :
      (a : Tuple) (r : Tuple × Bool)
      → set_flag_for_missing_column m a ≡ some r
      → has_default r.0 ≡ some true
  unfolding set_flag_for_missing_column
  set_flag-has_default a r h = go (get a 6) refl h
    where
      a' : Tuple
      a' = set_entry a 5 (Lattice.byte 255)

      go :
          (o : Option Lattice)
          → get a 6 ≡ o
          → Option.map (λ v. set_default m a' (unwrap_uint v)) o ≡ some r
          → has_default r.0 ≡ some true
      go none e h = cc
      go (some v) e h =
          subst (λ p. has_default p.0 ≡ some true) (some_inj h)
            (set_default-has_default a' v (unwrap_uint v)
              (get-set_entry_ne a 5 6 (Lattice.byte 255) (omega arith) ∙ e) refl)

  typed-default :
      (c ty : Tuple)
      → get c 3 ≡ some (typ ty)
      → has_default ty ≡ some true
      → column_has_default (tuple c) ≡ some true
  typed-default c ty e h = ap (λ o. default_of (as_typ o)) e ∙ h
    where
      default_of : Option Tuple → Option Bool
      default_of none = none
      default_of (some ty) = has_default ty

  get-joined_with :
      (col ty : Tuple) (w : Lattice) (had : Bool) (o : Option Bool) (c : Tuple)
      → get col 3 ≡ some w
      → joined_with m col ty had o ≡ some c
      → get c 3 ≡ some (typ ty)
  get-joined_with col ty w true none c g h = cc
  get-joined_with col ty w true (some false) c g h =
      ap (λ t. get t 3) (sym (some_inj h)) ∙ get-set_entry col 3 (typ ty) w g
  get-joined_with col ty w false o c g h =
      ap (λ t. get t 3) (sym (some_inj h)) ∙ get-set_entry col 3 (typ ty) w g
  get-joined_with col ty w true (some true) c g h = go (get_standard_default_value m ty) h
    where
      go :
          (s : Option String)
          → Option.map
              (λ s. set_entry (set_entry col 0 (maybe (singleton (Value.string s)))) 3 (typ ty))
              s
            ≡ some c
          → get c 3 ≡ some (typ ty)
      go none h = cc
      go (some s) h =
          let d = maybe (singleton (Value.string s)) in
          ap (λ t. get t 3) (sym (some_inj h))
          ∙ get-set_entry (set_entry col 0 d) 3 (typ ty) w
              (get-set_entry_ne col 0 3 d (omega arith) ∙ g)

  joined_flagged-default :
      (col : Tuple) (w : Lattice) (o : Option (Tuple × Bool)) (c : Tuple)
      → get col 3 ≡ some w
      → ((r : Tuple × Bool) → o ≡ some r → has_default r.0 ≡ some true)
      → joined_flagged m col o ≡ some c
      → column_has_default (tuple c) ≡ some true
  joined_flagged-default col w none c g d h = cc
  joined_flagged-default col w (some (ty, had)) c g d h =
      typed-default c ty (get-joined_with col ty w had (is_not_null ty) c g h) (d (ty, had) refl)

  joined_typ-default :
      (col : Tuple) (o : Option Lattice) (c : Tuple)
      → get col 3 ≡ o
      → joined_typ m col (as_typ o) ≡ some c
      → column_has_default (tuple c) ≡ some true
  joined_typ-default col none c g h = cc
  joined_typ-default col (some w) c g h = go (as_typ (some w)) h
    where
      go :
          (o : Option Tuple)
          → joined_typ m col o ≡ some c
          → column_has_default (tuple c) ≡ some true
      go none h = cc
      go (some ty) h =
          joined_flagged-default col w (set_flag_for_missing_column m ty) c g
            (set_flag-has_default ty) h

  or_panic_tuple :
      (o : Option Tuple) (j : Lattice)
      → or_panic m o ≡ ok (some j)
      → (c : Tuple) × (o ≡ some c) × (j ≡ tuple c)
  or_panic_tuple none j h = cc
  or_panic_tuple (some c) j h = (c, refl, ok_some_inj (sym h))

-- For every column that is joined with a missing one without error, the result has a default value,
-- so that `Compare` takes it for a column that the other table may miss: `CompareWithNil` of the
-- result answers 1.
pub column_join_with_nil-default :
    (m : Mysql) (value j : Lattice)
    → column_join_with_nil m value ≡ ok (some j)
    → (column_has_default j ≡ some true) × (column_compare_with_nil j ≡ ok gt)
unfolding column_join_with_nil column_compare_with_nil
column_join_with_nil-default m (tuple col) j h =
    let (c, joined, shape) = or_panic_tuple m (joined_typ m col (as_typ (get col 3))) j h in
    let d = ap column_has_default shape ∙ joined_typ-default m col (get col 3) c refl joined in
    (d, ap by_default d)
column_join_with_nil-default m (Lattice.bool a) j h = cc
column_join_with_nil-default m (Lattice.singleton a) j h = cc
column_join_with_nil-default m (Lattice.equality_singleton a) j h = cc
column_join_with_nil-default m (Lattice.bit_set a) j h = cc
column_join_with_nil-default m (Lattice.byte a) j h = cc
column_join_with_nil-default m (Lattice.field_tp a) j h = cc
column_join_with_nil-default m (Lattice.int a) j h = cc
column_join_with_nil-default m (Lattice.int64 a) j h = cc
column_join_with_nil-default m (Lattice.uint a) j h = cc
column_join_with_nil-default m (Lattice.string_list a) j h = cc
column_join_with_nil-default m (Lattice.maybe a) j h = cc
column_join_with_nil-default m (Lattice.typ a) j h = cc
column_join_with_nil-default m Lattice.maybe_nil j h = cc
