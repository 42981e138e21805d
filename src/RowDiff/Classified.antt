-- ===== src/RowDiff/Classified.antt =====
-- Which rows `compareRows` inserts, deletes and replaces, where the rows of both sides come in the
-- strict order of their keys.
use Prim.Native.Nat.{Ordering, lt, eq}
use tidb_tools.Prelude.{◌≡◌, refl, ◌⊎◌, inl, inr, Bool, true, false, List, [], ◌∷◌, All, In}
use tidb_tools.RowDiff.Data.{Row, Result, ok}
use tidb_tools.RowDiff.Statements.{Fix, insert, delete, replace}
use tidb_tools.RowDiff.Script.{Script}

pub All-map :
    {A : Type 0} {P Q : A → Type 0} (xs : List A) → ((x : A) → P x → Q x) → All P xs → All Q xs
All-map [] f h = tt
All-map (x ∷ xs) f h = (f x h.0, All-map xs f h.1)

module _ (order : Row → Row → Result Ordering) where
  -- The rows stand in the strict order of their keys, and the keys can be read.
  abbrev pub IsSorted : List Row → Type 0
  IsSorted [] = Unit {0}
  IsSorted (r ∷ rs) = (order r r ≡ ok eq) × All (λ s. order r s ≡ ok lt) rs × IsSorted rs

module _ (compare : Row → Row → Result (Bool × Ordering)) (order : Row → Row → Result Ordering)
    (us ds : List Row) where
  -- What a fix says of the rows: a row is inserted where no downstream row has its key, deleted where
  -- no upstream row has its key, and replaced by an upstream row that has its key and differs.
  abbrev pub IsJustified : Fix → Type 0
  IsJustified (insert u) = In u us × All (λ d. ¬ (order u d ≡ ok eq)) ds
  IsJustified (delete d) = In d ds × All (λ u. ¬ (order u d ≡ ok eq)) us
  IsJustified (replace u d) =
      In u us × In d ds × (order u d ≡ ok eq) × (compare u d ≡ ok (false, eq))

module _ (compare : Row → Row → Result (Bool × Ordering)) (fs : List Fix) where
  -- A row of the upstream is equal to one of the downstream, or brought by a fix.
  abbrev pub IsBrought : List Row → Row → Type 0
  IsBrought ds u =
      ((d : Row) × In d ds × (o : Ordering) × (compare u d ≡ ok (true, o)))
      ⊎ (In (insert u) fs ⊎ ((d : Row) × In (replace u d) fs))

  -- A row of the downstream is equal to one of the upstream, or removed by a fix.
  abbrev pub IsSettled : List Row → Row → Type 0
  IsSettled us d =
      ((u : Row) × In u us × (o : Ordering) × (compare u d ≡ ok (true, o)))
      ⊎ (In (delete d) fs ⊎ ((u : Row) × In (replace u d) fs))

module _ (compare : Row → Row → Result (Bool × Ordering)) where
  IsBrought-more :
      (f : Fix) (fs : List Fix) (ds : List Row) (u : Row)
      → IsBrought compare fs ds u
      → IsBrought compare (f ∷ fs) ds u
  IsBrought-more f fs ds u (inl h) = inl h
  IsBrought-more f fs ds u (inr (inl h)) = inr (inl (inr h))
  IsBrought-more f fs ds u (inr (inr (d, h))) = inr (inr (d, inr h))

  IsBrought-wider :
      (fs : List Fix) (d : Row) (ds : List Row) (u : Row)
      → IsBrought compare fs ds u
      → IsBrought compare fs (d ∷ ds) u
  IsBrought-wider fs d ds u (inl (e, i, o, c)) = inl (e, inr i, o, c)
  IsBrought-wider fs d ds u (inr h) = inr h

  settled_more :
      (f : Fix) (fs : List Fix) (us : List Row) (d : Row)
      → IsSettled compare fs us d
      → IsSettled compare (f ∷ fs) us d
  settled_more f fs us d (inl h) = inl h
  settled_more f fs us d (inr (inl h)) = inr (inl (inr h))
  settled_more f fs us d (inr (inr (u, h))) = inr (inr (u, inr h))

  settled_wider :
      (fs : List Fix) (u : Row) (us : List Row) (d : Row)
      → IsSettled compare fs us d
      → IsSettled compare fs (u ∷ us) d
  settled_wider fs u us d (inl (e, i, o, c)) = inl (e, inr i, o, c)
  settled_wider fs u us d (inr h) = inr h

  pub Script-IsBrought :
      {us ds : List Row} {fs : List Fix}
      → Script compare us ds fs
      → All (IsBrought compare fs ds) us
  Script-IsBrought Script.done = tt
  Script-IsBrought (Script.kept {u} {d} {us} {ds} {fs} {o} c s) =
      (inl (d, inl refl, o, c), All-map us (IsBrought-wider fs d ds) (Script-IsBrought s))
  Script-IsBrought (Script.inserted_last {u} {us} {fs} s) =
      (inr (inl (inl refl)), All-map us (IsBrought-more (insert u) fs []) (Script-IsBrought s))
  Script-IsBrought (Script.deleted_last s) = tt
  Script-IsBrought (Script.inserted {u} {d} {us} {ds} {fs} c s) = (
    inr (inl (inl refl)),
    All-map us (IsBrought-more (insert u) fs (d ∷ ds)) (Script-IsBrought s),
  )
  Script-IsBrought (Script.deleted {u} {d} {us} {ds} {fs} c s) =
      All-map (u ∷ us)
        (λ x h. IsBrought-more (delete d) fs (d ∷ ds) x (IsBrought-wider fs d ds x h))
        (Script-IsBrought s)
  Script-IsBrought (Script.replaced {u} {d} {us} {ds} {fs} c s) = (
    inr (inr (d, inl refl)),
    All-map us (λ x h. IsBrought-more (replace u d) fs (d ∷ ds) x (IsBrought-wider fs d ds x h))
        (Script-IsBrought s),
  )

  pub Script-IsSettled :
      {us ds : List Row} {fs : List Fix}
      → Script compare us ds fs
      → All (IsSettled compare fs us) ds
  Script-IsSettled Script.done = tt
  Script-IsSettled (Script.kept {u} {d} {us} {ds} {fs} {o} c s) =
      (inl (u, inl refl, o, c), All-map ds (settled_wider fs u us) (Script-IsSettled s))
  Script-IsSettled (Script.inserted_last s) = tt
  Script-IsSettled (Script.deleted_last {d} {ds} {fs} s) =
      (inr (inl (inl refl)), All-map ds (settled_more (delete d) fs []) (Script-IsSettled s))
  Script-IsSettled (Script.inserted {u} {d} {us} {ds} {fs} c s) =
      All-map (d ∷ ds) (λ x h. settled_more (insert u) fs (u ∷ us) x (settled_wider fs u us x h))
        (Script-IsSettled s)
  Script-IsSettled (Script.deleted {u} {d} {us} {ds} {fs} c s) =
      (inr (inl (inl refl)), All-map ds (settled_more (delete d) fs (u ∷ us)) (Script-IsSettled s))
  Script-IsSettled (Script.replaced {u} {d} {us} {ds} {fs} c s) = (
    inr (inr (u, inl refl)),
    All-map ds (λ x h. settled_more (replace u d) fs (u ∷ us) x (settled_wider fs u us x h))
        (Script-IsSettled s),
  )
