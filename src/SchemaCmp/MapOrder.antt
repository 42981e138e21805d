-- ===== src/SchemaCmp/MapOrder.antt =====
-- `latticeMap.Compare` of pkg/schemacmp/lattice.go on the columns and the indices of table.go: when
-- it answers that a map is at most another.
use Prim.Native.Nat.{Ordering}
use mathlib.Core.Path.{subst}
use tidb_tools.Prelude.{
  String, ◌≡◌, ◌≢◌, refl, sym, ◌↔◌, ◌⊎◌, inl, inr, Bool, true, false, List, [], ◌∷◌, ◌++◌, Option,
  none, some, All,
}
use tidb_tools.Prelude.Dict.{Dict, lookup}
use tidb_tools.SchemaCmp.Data.{Lattice, Result, ok, err, ◌>>=◌, Mysql}
use tidb_tools.SchemaCmp.Leaf.{lt, eq, gt}
use tidb_tools.SchemaCmp.Order.{Le}
use tidb_tools.SchemaCmp.Lattice.{compare, combine}
use tidb_tools.SchemaCmp.Map.{
  LatticeMap, wrap_key, Visit, visit_left, visits_left, visit_right, visits_right, iter, negated,
  compare_visit, compare_visits, compare_map, by_default, column_has_default,
  column_compare_with_nil, column_map, index_map,
}

abbrev NotGt : Ordering → Type 0
NotGt Ordering.gt = ⊥
NotGt _ = Unit

-- A round of the loop.
round_iff :
    {P : Type 0} (k : String) (r : Ordering) (c : Result Ordering)
    (rest : Ordering → Result Ordering)
    → ((r' : Ordering) → Le (rest r') ↔ NotGt r' × P)
    → Le (do cmp ← wrap_key k c; r' ← wrap_key k (combine r cmp); rest r') ↔ NotGt r × (Le c × P)
unfolding combine
round_iff k r (err e) rest h = (λ d. absurd d, λ p. absurd p.1.0)
round_iff k Ordering.lt (ok Ordering.lt) rest h =
    (λ d. (tt, (tt, ((h lt).0 d).1)), λ p. (h lt).1 (tt, p.1.1))
round_iff k Ordering.eq (ok Ordering.lt) rest h =
    (λ d. (tt, (tt, ((h lt).0 d).1)), λ p. (h lt).1 (tt, p.1.1))
round_iff k Ordering.gt (ok Ordering.lt) rest h = (λ d. absurd d, λ p. absurd p.0)
round_iff k Ordering.lt (ok Ordering.eq) rest h =
    (λ d. (tt, (tt, ((h lt).0 d).1)), λ p. (h lt).1 (tt, p.1.1))
round_iff k Ordering.eq (ok Ordering.eq) rest h =
    (λ d. (tt, (tt, ((h eq).0 d).1)), λ p. (h eq).1 (tt, p.1.1))
round_iff k Ordering.gt (ok Ordering.eq) rest h = (λ d. absurd ((h gt).0 d).0, λ p. absurd p.0)
round_iff k Ordering.lt (ok Ordering.gt) rest h = (λ d. absurd d, λ p. absurd p.1.0)
round_iff k Ordering.eq (ok Ordering.gt) rest h = (λ d. absurd ((h gt).0 d).0, λ p. absurd p.1.0)
round_iff k Ordering.gt (ok Ordering.gt) rest h = (λ d. absurd ((h gt).0 d).0, λ p. absurd p.0)

module _ (m : Mysql) (lm : LatticeMap) where
  abbrev LeVisits : Dict Visit → Type 0
  LeVisits = All (λ e. Le (compare_visit m lm e.1))

  compare_visits-Le :
      (r : Ordering) (vs : Dict Visit) → Le (compare_visits m lm r vs) ↔ NotGt r × LeVisits vs
  unfolding compare_visits
  compare_visits-Le Ordering.lt [] = (λ d. (tt, tt), λ p. tt)
  compare_visits-Le Ordering.eq [] = (λ d. (tt, tt), λ p. tt)
  compare_visits-Le Ordering.gt [] = (λ d. absurd d, λ p. absurd p.0)
  compare_visits-Le r ((k, v) ∷ vs) =
      round_iff k r (compare_visit m lm v) (λ r'. compare_visits m lm r' vs)
        (λ r'. compare_visits-Le r' vs)

  LeVisits-append : (vs ws : Dict Visit) → LeVisits (vs ++ ws) ↔ LeVisits vs × LeVisits ws
  LeVisits-append [] ws = (λ h. (tt, h), λ h. h.1)
  LeVisits-append (v ∷ vs) ws =
      let (to, from) = LeVisits-append vs ws in
      (λ h. ((h.0, (to h.1).0), (to h.1).1), λ h. (h.0.0, from (h.0.1, h.1)))

  -- The visit of an entry of the first map.
  abbrev LeftLe : Dict Lattice → Lattice → Option Lattice → Type 0
  LeftLe b av none = Le (lm.compare_with_nil av)
  LeftLe b av (some bv) = Le (compare m av bv)

  abbrev RightLe : Lattice → Option Lattice → Type 0
  RightLe bv none = Le (negated (lm.compare_with_nil bv))
  RightLe bv (some av) = Unit

  visits_left-Le :
      (a b : Dict Lattice) → LeVisits (visits_left a b) ↔ All (λ e. LeftLe b e.1 (lookup e.0 b)) a
  unfolding visits_left compare_visit
  visits_left-Le [] b = (λ h. h, λ h. h)
  visits_left-Le ((k, av) ∷ a) b =
      let (to, from) = visits_left-Le a b in
      let (there, back) = one (lookup k b) in (λ h. (there h.0, to h.1), λ h. (back h.0, from h.1))
    where
      one : (o : Option Lattice) → Le (compare_visit m lm (visit_left av o)) ↔ LeftLe b av o
      one none = (λ h. h, λ h. h)
      one (some bv) = (λ h. h, λ h. h)

  visits_right-Le :
      (a b : Dict Lattice) → LeVisits (visits_right a b) ↔ All (λ e. RightLe e.1 (lookup e.0 a)) b
  unfolding visits_right compare_visit
  visits_right-Le a [] = (λ h. h, λ h. h)
  visits_right-Le a ((k, bv) ∷ b) = one (visits_right a b) (lookup k a) (visits_right-Le a b)
    where
      one :
          {P : Type 0} (vs : Dict Visit) (o : Option Lattice)
          → LeVisits vs ↔ P
          → LeVisits (visit_right k bv o vs) ↔ RightLe bv o × P
      one vs none i = (λ h. (h.0, i.0 h.1), λ h. (h.0, i.1 h.1))
      one vs (some av) i = (λ h. (tt, i.0 h), λ h. i.1 h.1)

  compare_map-Le :
      (a b : Dict Lattice)
      → Le (compare_map m lm a b)
        ↔ All (λ e. LeftLe b e.1 (lookup e.0 b)) a × All (λ e. RightLe e.1 (lookup e.0 a)) b
  unfolding compare_map iter
  compare_map-Le a b =
      let (to, from) = compare_visits-Le eq (iter a b) in
      let (split, whole) = LeVisits-append (visits_left a b) (visits_right a b) in
      let (l_to, l_from) = visits_left-Le a b in
      let (r_to, r_from) = visits_right-Le a b in
      (
        λ h. let v = split (to h).1 in (l_to v.0, r_to v.1),
        λ h. from (tt, whole (l_from h.0, r_from h.1)),
      )

All-iff :
    {A : Type 0} {P Q : A → Type 0} → ((e : A) → P e ↔ Q e) → (xs : List A) → All P xs ↔ All Q xs
All-iff h [] = (λ p. p, λ p. p)
All-iff h (x ∷ xs) =
    let (to, from) = All-iff h xs in
    let (there, back) = h x in (λ p. (there p.0, to p.1), λ p. (back p.0, from p.1))

some_inj : {x y : Lattice} → some x ≡ some y → x ≡ y
some_inj h = cc

no_some : {x : Lattice} → none ≡ some x → ⊥
no_some h = cc

module _ (m : Mysql) where
  -- The column is in the other table too, and at most the one there.
  abbrev pub ColumnIn : Dict Lattice → String × Lattice → Type 0
  ColumnIn b (k, av) = (bv : Lattice) × (lookup k b ≡ some bv) × Le (compare m av bv)

  -- The column is in the other table too, or its type has a default value.
  abbrev pub ColumnKnown : Dict Lattice → String × Lattice → Type 0
  ColumnKnown a (k, bv) = (lookup k a ≢ none) ⊎ (column_has_default bv ≡ some true)

  no_default_Le : (o : Option Bool) → Le (by_default o) → ⊥
  no_default_Le none h = h
  no_default_Le (some true) h = h
  no_default_Le (some false) h = h

  default_iff : (o : Option Bool) → Le (negated (by_default o)) ↔ (o ≡ some true)
  default_iff none = (λ h. absurd h, λ h. cc)
  default_iff (some true) = (λ h. refl, λ h. tt)
  default_iff (some false) = (λ h. absurd h, λ h. cc)

  column_left :
      (b : Dict Lattice) (e : String × Lattice)
      → LeftLe m (column_map m) b e.1 (lookup e.0 b) ↔ ColumnIn b e
  unfolding column_map column_compare_with_nil
  column_left b (k, av) = one (lookup k b)
    where
      one :
          (o : Option Lattice)
          → LeftLe m (column_map m) b av o ↔ ((bv : Lattice) × (o ≡ some bv) × Le (compare m av bv))
      one none = (λ h. absurd (no_default_Le (column_has_default av) h), λ h. cc)
      one (some bv) = (
        λ h. (bv, refl, h),
        λ (x, same, h). subst (λ y. Le (compare m av y)) (sym (some_inj same)) h,
      )

  column_right :
      (a : Dict Lattice) (e : String × Lattice)
      → RightLe m (column_map m) e.1 (lookup e.0 a) ↔ ColumnKnown a e
  unfolding column_map column_compare_with_nil
  column_right a (k, bv) = one (lookup k a)
    where
      one :
          (o : Option Lattice)
          → RightLe m (column_map m) bv o ↔ ((o ≢ none) ⊎ (column_has_default bv ≡ some true))
      one none =
          let (to, from) = default_iff (column_has_default bv) in
          (λ h. inr (to h), λ h. elim h [ inl n ↦ absurd (n refl) | inr d ↦ from d ])
      one (some av) = (λ h. inl (λ e. cc), λ h. tt)

  -- For the columns of two tables, `Compare` answers that the first are at most the second exactly
  -- when each column of the first is in the second and at most the column there, and each column of
  -- the second that is not in the first has a default value.
  pub compare_map-columns :
      (a b : Dict Lattice)
      → Le (compare_map m (column_map m) a b) ↔ All (ColumnIn b) a × All (ColumnKnown a) b
  compare_map-columns a b =
      let (to, from) = compare_map-Le m (column_map m) a b in
      let (l_to, l_from) = All-iff (column_left b) a in
      let (r_to, r_from) = All-iff (column_right a) b in
      (λ h. let v = to h in (l_to v.0, r_to v.1), λ h. from (l_from h.0, r_from h.1))

  -- An index of both tables is at most the one in the other table.
  abbrev pub IndexBelow : Dict Lattice → String × Lattice → Type 0
  IndexBelow b (k, av) = (bv : Lattice) → lookup k b ≡ some bv → Le (compare m av bv)

  abbrev pub IndexThere : Dict Lattice → String × Lattice → Type 0
  IndexThere a (k, bv) = lookup k a ≢ none

  index_left :
      (b : Dict Lattice) (e : String × Lattice)
      → LeftLe m index_map b e.1 (lookup e.0 b) ↔ IndexBelow b e
  unfolding index_map
  index_left b (k, av) = one (lookup k b)
    where
      one :
          (o : Option Lattice)
          → LeftLe m index_map b av o ↔ ((bv : Lattice) → o ≡ some bv → Le (compare m av bv))
      one none = (λ h. λ x e. absurd (no_some e), λ h. tt)
      one (some bv) =
          (λ h. λ x same. subst (λ y. Le (compare m av y)) (some_inj same) h, λ h. h bv refl)

  index_right :
      (a : Dict Lattice) (e : String × Lattice)
      → RightLe m index_map e.1 (lookup e.0 a) ↔ (lookup e.0 a ≢ none)
  unfolding index_map
  index_right a (k, bv) = one (lookup k a)
    where
      one : (o : Option Lattice) → RightLe m index_map bv o ↔ (o ≢ none)
      one none = (λ h. absurd h, λ h. h refl)
      one (some av) = (λ h e. cc, λ h. tt)

  -- For the indices of two tables, `Compare` answers that the first are at most the second exactly
  -- when each index of the first that is in both is at most the one in the second, and each index of
  -- the second is in the first: dropping an index goes up.
  pub compare_map-indices :
      (a b : Dict Lattice)
      → Le (compare_map m index_map a b) ↔ All (IndexBelow b) a × All (IndexThere a) b
  compare_map-indices a b =
      let (to, from) = compare_map-Le m index_map a b in
      let (l_to, l_from) = All-iff (index_left b) a in
      let (r_to, r_from) = All-iff (index_right a) b in
      (λ h. let v = to h in (l_to v.0, r_to v.1), λ h. from (l_from h.0, r_from h.1))
