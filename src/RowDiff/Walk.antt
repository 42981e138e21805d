-- ===== src/RowDiff/Walk.antt =====
-- `compareRows` as a recursion on the two sequences of rows, without the variables that hold the
-- last row of each side and without fuel.
use Prim.Native.Nat.{Ordering, lt, eq, gt}
use tidb_tools.Prelude.{
  ℕ, zero, suc, ◌+◌, ◌<◌, ◌≤◌, ◌≡◌, refl, sym, ap, ◌∙◌, String, Bool, true, false, [], ◌∷◌, Option,
  none, some, ◌⊎◌, inl, inr, length, arith,
}
use tidb_tools.RowDiff.Data.{Row, Error, Result, ok, err, ◌>>=◌}
use tidb_tools.RowDiff.Statements.{Fix, insert, delete, replace}
use tidb_tools.RowDiff.Merge.{
  Iterator, next, fill, Tally, Loop, start, recorded, delete_rest, insert_rest, settle, settle_rows,
  step, resume, run, compare_rows,
}

bind-ext {ℓ κ} :
    {A : Type ℓ} {B : Type κ} (m : Result A) (f g : A → Result B)
    → ((a : A) → f a ≡ g a)
    → (m >>= f) ≡ (m >>= g)
bind-ext (ok a) f g h = h a
bind-ext (err e) f g h = refl

pub Result-cases {ℓ} :
    {A : Type ℓ} (r : Result A) → ((a : A) × (r ≡ ok a)) ⊎ ((e : Error) × (r ≡ err e))
Result-cases (ok a) = inl (a, refl)
Result-cases (err e) = inr (e, refl)

bind-ok {ℓ} : {A : Type ℓ} (m : Result A) → (m >>= λ a. ok a) ≡ m
bind-ok (ok a) = refl
bind-ok (err e) = refl

resume-again :
    (again : Loop → Option (Result Tally)) (m : Result Tally) (f : Tally → Loop)
    (g : Tally → Result Tally)
    → ((t : Tally) → again (f t) ≡ some (g t))
    → resume again ((m >>= λ t. ok (f t)) >>= λ l. ok (inl l)) ≡ some (m >>= g)
resume-again again (ok t) f g h = h t
resume-again again (err e) f g h = refl

resume-ends :
    (again : Loop → Option (Result Tally)) (m : Result Tally)
    → resume again (m >>= λ t. ok (inr t)) ≡ some m
resume-ends again (ok t) = refl
resume-ends again (err e) = refl

-- the rows that are still to come, with the one that is held
abbrev pub ahead : Option Row → Iterator → Iterator
ahead none it = it
ahead (some r) it = ok r ∷ it

fill_lem : (o : Option Row) (it : Iterator) → fill o it ≡ next (ahead o it)
unfolding fill next
fill_lem none it = refl
fill_lem (some r) it = refl

module _ (fix_sql : Fix → Result String) (export_fix_sql : Bool) where
  abbrev pub at_end : Fix → Tally → Result Tally
  at_end fix t = recorded export_fix_sql fix_sql [] fix t

  abbrev pub inside : Fix → Tally → Result Tally
  inside fix t = recorded export_fix_sql fix_sql ("" ∷ []) fix t

  abbrev pub settled :
      Bool
      → Ordering
      → Row
      → Row
      → Tally
      → (both up_only down_only : Tally → Result Tally) → Result Tally
  settled true o u d t both up_only down_only = both t
  settled false gt u d t both up_only down_only = inside (delete d) t >>= down_only
  settled false lt u d t both up_only down_only = inside (insert u) t >>= up_only
  settled false eq u d t both up_only down_only = inside (replace u d) t >>= both

module _ (compare : Row → Row → Result (Bool × Ordering)) (fix_sql : Fix → Result String)
    (export_fix_sql : Bool) where
  unfoldable pub walk : Iterator → Iterator → Tally → Result Tally
  walk (err e ∷ up) down t = err e
  walk [] [] t = ok t
  walk [] (err e ∷ down) t = err e
  walk [] (ok d ∷ down) t = at_end fix_sql export_fix_sql (delete d) t >>= walk [] down
  walk (ok u ∷ up) [] t = at_end fix_sql export_fix_sql (insert u) t >>= walk up []
  walk (ok u ∷ up) (err e ∷ down) t = err e
  walk (ok u ∷ up) (ok d ∷ down) t = compare u d >>= λ v.
      settled fix_sql export_fix_sql v.0 v.1 u d t (walk up down) (walk up (ok d ∷ down))
        (walk (ok u ∷ up) down)

  delete_rest-walk :
      (d : Row) (down : Iterator) (t : Tally)
      → delete_rest fix_sql export_fix_sql (some d) down t ≡ walk [] (ok d ∷ down) t
  unfolding delete_rest walk
  delete_rest-walk d [] t = sym (bind-ok _)
  delete_rest-walk d (err e ∷ down) t = refl
  delete_rest-walk d (ok d' ∷ down) t =
      bind-ext (at_end fix_sql export_fix_sql (delete d) t) _ _ (delete_rest-walk d' down)

  insert_rest-walk :
      (u : Row) (up : Iterator) (t : Tally)
      → insert_rest fix_sql export_fix_sql (some u) up t ≡ walk (ok u ∷ up) [] t
  unfolding insert_rest walk
  insert_rest-walk u [] t = sym (bind-ok _)
  insert_rest-walk u (err e ∷ up) t = refl
  insert_rest-walk u (ok u' ∷ up) t =
      bind-ext (at_end fix_sql export_fix_sql (insert u) t) _ _ (insert_rest-walk u' up)

  abbrev walk_from : Loop → Result Tally
  walk_from l =
      walk (ahead l.last_upstream l.upstream) (ahead l.last_downstream l.downstream) l.tally

  abbrev size : Loop → ℕ
  size l = length (ahead l.last_upstream l.upstream) + length (ahead l.last_downstream l.downstream)

  module _ (again : Loop → Option (Result Tally)) (n : ℕ)
      (again_walks : (l : Loop) → size l < n → again l ≡ some (walk_from l)) where
    settle-walk :
        (same : Bool) (o : Ordering) (u d : Row) (up down : Iterator) (t : Tally)
        → suc (length up + length down) < n
        → resume again (settle fix_sql export_fix_sql same o u d up down t >>= λ l. ok (inl l))
          ≡ some (
              settled fix_sql export_fix_sql same o u d t
                (walk up down)
                (walk up (ok d ∷ down))
                (walk (ok u ∷ up) down))
    unfolding settle
    settle-walk true o u d up down t h = again_walks _ (omega arith)
    settle-walk false gt u d up down t h =
        resume-again again _ _ _ (λ t'. again_walks _ (omega arith))
    settle-walk false lt u d up down t h =
        resume-again again _ _ _ (λ t'. again_walks _ (omega arith))
    settle-walk false eq u d up down t h =
        resume-again again _ _ _ (λ t'. again_walks _ (omega arith))

    -- One round of the loop, on the rows that are still to come.
    round-walk :
        (up down : Iterator) (t : Tally)
        → length up + length down ≤ n
        → resume again (
            next up >>= λ u.
            next down >>= λ d. settle_rows compare fix_sql export_fix_sql u.0 d.0 u.1 d.1 t)
          ≡ some (walk up down t)
    unfolding next settle_rows delete_rest walk
    round-walk (err e ∷ up) down t h = refl
    round-walk [] [] t h = refl
    round-walk [] (err e ∷ down) t h = refl
    round-walk [] (ok d ∷ down) t h = resume-ends again _ ∙ ap some (delete_rest-walk d down t)
    round-walk (ok u ∷ up) [] t h = resume-ends again _ ∙ ap some (insert_rest-walk u up t)
    round-walk (ok u ∷ up) (err e ∷ down) t h = refl
    round-walk (ok u ∷ up) (ok d ∷ down) t h = elim (Result-cases (compare u d)) [
      | inl (v, e) ↦ rw e (settle-walk v.0 v.1 u d up down t (omega arith))
      | inr (e, c) ↦ rw c refl
    ]

  run-walk :
      (fuel : ℕ) (l : Loop)
      → size l < fuel
      → run compare fix_sql export_fix_sql fuel l ≡ some (walk_from l)
  unfolding run step
  run-walk zero l h = elim h [ ]
  run-walk (suc fuel) l h =
      rw (fill_lem l.last_upstream l.upstream, fill_lem l.last_downstream l.downstream)
        (round-walk (run compare fix_sql export_fix_sql fuel) fuel (run-walk fuel)
          (ahead l.last_upstream l.upstream) (ahead l.last_downstream l.downstream) l.tally
          (omega arith))

  -- The merge ends with the fuel it is given, whatever the iterators return, and its result is that
  -- of the recursion on the two sequences.
  pub compare_rows-walk :
      (up down : Iterator)
      → compare_rows compare fix_sql export_fix_sql up down ≡ some (walk up down start)
  unfolding compare_rows
  compare_rows-walk up down = run-walk _ _ (omega arith)
