-- ===== src/RowDiff/Once.antt =====
-- No row is brought or removed twice by the fixes of `compareRows`: the rows that they name come in
-- the order of the rows that are compared.
use Prim.Native.Nat.{Ordering}
use tidb_tools.Prelude.{Bool, List, [], ◌∷◌, All}
use tidb_tools.RowDiff.Data.{Row, Result}
use tidb_tools.RowDiff.Statements.{Fix, insert, delete, replace}
use tidb_tools.RowDiff.Script.{Script}
use tidb_tools.RowDiff.Classified.{IsSorted}

-- the upstream rows that the fixes put into the downstream table
abbrev pub brought_rows : List Fix → List Row
brought_rows [] = []
brought_rows (insert u ∷ fs) = u ∷ brought_rows fs
brought_rows (delete d ∷ fs) = brought_rows fs
brought_rows (replace u d ∷ fs) = u ∷ brought_rows fs

-- the downstream rows that the fixes take away or overwrite
abbrev pub removed_rows : List Fix → List Row
removed_rows [] = []
removed_rows (insert u ∷ fs) = removed_rows fs
removed_rows (delete d ∷ fs) = d ∷ removed_rows fs
removed_rows (replace u d ∷ fs) = d ∷ removed_rows fs

module _ {compare : Row → Row → Result (Bool × Ordering)} where
  brought_rows-All :
      (P : Row → Type 0) {us ds : List Row} {fs : List Fix}
      → Script compare us ds fs
      → All P us
      → All P (brought_rows fs)
  brought_rows-All P Script.done h = tt
  brought_rows-All P (Script.kept c s) h = brought_rows-All P s h.1
  brought_rows-All P (Script.inserted_last s) h = (h.0, brought_rows-All P s h.1)
  brought_rows-All P (Script.deleted_last s) h = brought_rows-All P s h
  brought_rows-All P (Script.inserted c s) h = (h.0, brought_rows-All P s h.1)
  brought_rows-All P (Script.deleted c s) h = brought_rows-All P s h
  brought_rows-All P (Script.replaced c s) h = (h.0, brought_rows-All P s h.1)

  removed_rows-All :
      (P : Row → Type 0) {us ds : List Row} {fs : List Fix}
      → Script compare us ds fs
      → All P ds
      → All P (removed_rows fs)
  removed_rows-All P Script.done h = tt
  removed_rows-All P (Script.kept c s) h = removed_rows-All P s h.1
  removed_rows-All P (Script.inserted_last s) h = removed_rows-All P s h
  removed_rows-All P (Script.deleted_last s) h = (h.0, removed_rows-All P s h.1)
  removed_rows-All P (Script.inserted c s) h = removed_rows-All P s h
  removed_rows-All P (Script.deleted c s) h = (h.0, removed_rows-All P s h.1)
  removed_rows-All P (Script.replaced c s) h = (h.0, removed_rows-All P s h.1)

  module _ (order : Row → Row → Result Ordering) where
    pub brought_rows-IsSorted :
        {us ds : List Row} {fs : List Fix}
        → Script compare us ds fs
        → IsSorted order us
        → IsSorted order (brought_rows fs)
    brought_rows-IsSorted Script.done h = tt
    brought_rows-IsSorted (Script.kept c s) h = brought_rows-IsSorted s h.2
    brought_rows-IsSorted (Script.inserted_last s) h =
        (h.0, brought_rows-All _ s h.1, brought_rows-IsSorted s h.2)
    brought_rows-IsSorted (Script.deleted_last s) h = brought_rows-IsSorted s h
    brought_rows-IsSorted (Script.inserted c s) h =
        (h.0, brought_rows-All _ s h.1, brought_rows-IsSorted s h.2)
    brought_rows-IsSorted (Script.deleted c s) h = brought_rows-IsSorted s h
    brought_rows-IsSorted (Script.replaced c s) h =
        (h.0, brought_rows-All _ s h.1, brought_rows-IsSorted s h.2)

    pub removed_rows-IsSorted :
        {us ds : List Row} {fs : List Fix}
        → Script compare us ds fs
        → IsSorted order ds
        → IsSorted order (removed_rows fs)
    removed_rows-IsSorted Script.done h = tt
    removed_rows-IsSorted (Script.kept c s) h = removed_rows-IsSorted s h.2
    removed_rows-IsSorted (Script.inserted_last s) h = removed_rows-IsSorted s h
    removed_rows-IsSorted (Script.deleted_last s) h =
        (h.0, removed_rows-All _ s h.1, removed_rows-IsSorted s h.2)
    removed_rows-IsSorted (Script.inserted c s) h = removed_rows-IsSorted s h
    removed_rows-IsSorted (Script.deleted c s) h =
        (h.0, removed_rows-All _ s h.1, removed_rows-IsSorted s h.2)
    removed_rows-IsSorted (Script.replaced c s) h =
        (h.0, removed_rows-All _ s h.1, removed_rows-IsSorted s h.2)
