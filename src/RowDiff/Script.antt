-- ===== src/RowDiff/Script.antt =====
-- An alignment of the rows of the two sides, and the fixes that it asks for.
use Prim.Native.Nat.{Ordering, lt, eq, gt}
use tidb_tools.Prelude.{◌≡◌, refl, ◌↔◌, Bool, true, false, List, [], ◌∷◌}
use tidb_tools.RowDiff.Data.{Row, Result, ok}
use tidb_tools.RowDiff.Statements.{Fix, insert, delete, replace}
use tidb_tools.RowDiff.Collected.{is_empty}

module _ (compare : Row → Row → Result (Bool × Ordering)) where
  -- The rows of the two sides, in their order, and what is asked for: rows that are equal are left
  -- alone, and of two rows that differ the one with the smaller key has no partner.
  pub data Script : List Row → List Row → List Fix → Type 0 where
    done : Script [] [] []
    kept :
        {u d : Row} {us ds : List Row} {fs : List Fix} {o : Ordering}
        → compare u d ≡ ok (true, o)
        → Script us ds fs
        → Script (u ∷ us) (d ∷ ds) fs
    inserted_last :
        {u : Row} {us : List Row} {fs : List Fix}
        → Script us [] fs
        → Script (u ∷ us) [] (insert u ∷ fs)
    deleted_last :
        {d : Row} {ds : List Row} {fs : List Fix}
        → Script [] ds fs
        → Script [] (d ∷ ds) (delete d ∷ fs)
    inserted :
        {u d : Row} {us ds : List Row} {fs : List Fix}
        → compare u d ≡ ok (false, lt)
        → Script us (d ∷ ds) fs
        → Script (u ∷ us) (d ∷ ds) (insert u ∷ fs)
    deleted :
        {u d : Row} {us ds : List Row} {fs : List Fix}
        → compare u d ≡ ok (false, gt)
        → Script (u ∷ us) ds fs
        → Script (u ∷ us) (d ∷ ds) (delete d ∷ fs)
    replaced :
        {u d : Row} {us ds : List Row} {fs : List Fix}
        → compare u d ≡ ok (false, eq)
        → Script us ds fs
        → Script (u ∷ us) (d ∷ ds) (replace u d ∷ fs)

  -- The two sides have the same number of rows, and the comparison finds each pair equal.
  abbrev pub AllEqual : List Row → List Row → Type 0
  AllEqual [] [] = Unit {0}
  AllEqual (u ∷ us) (d ∷ ds) = ((o : Ordering) × (compare u d ≡ ok (true, o))) × AllEqual us ds
  AllEqual [] (d ∷ ds) = ⊥
  AllEqual (u ∷ us) [] = ⊥

  pub Script-AllEqual :
      {us ds : List Row} {fs : List Fix} → Script us ds fs → (is_empty fs ≡ true) ↔ AllEqual us ds
  Script-AllEqual Script.done = (λ h. tt, λ a. refl)
  Script-AllEqual (Script.kept {o} c s) =
      let (f, g) = Script-AllEqual s in (λ h. ((o, c), f h), λ a. g a.1)
  Script-AllEqual (Script.inserted_last s) = (λ h. cc, λ a. absurd a)
  Script-AllEqual (Script.deleted_last s) = (λ h. cc, λ a. absurd a)
  Script-AllEqual (Script.inserted c s) = (λ h. cc, λ a. cc (c, a.0.1))
  Script-AllEqual (Script.deleted c s) = (λ h. cc, λ a. cc (c, a.0.1))
  Script-AllEqual (Script.replaced c s) = (λ h. cc, λ a. cc (c, a.0.1))
