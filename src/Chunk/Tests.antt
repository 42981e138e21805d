-- ===== src/Chunk/Tests.antt =====
-- Runs of the chunk functions, and the theorems at concrete inputs.
use Prim.Native.Nat.{Ordering}
use tidb_tools.Prelude.{
  Option, some, ◌≡◌, refl, String, str_eq, true, false, List, [], ◌∷◌, none, some, if◌then◌else◌,
}
use tidb_tools.Chunk.Data.{Bound, Range}
use tidb_tools.Chunk.Where.{to_string, condition}
use tidb_tools.Chunk.Build.{new_chunk_range, update}
use tidb_tools.Chunk.Meaning.{holds, inside}
use tidb_tools.Chunk.Selects.{condition-inside}
use tidb_tools.Chunk.Offsets.{
  IsIndexed, new_chunk_range-IsIndexed, find_bound, updated, update-find_bound,
}

abbrev row_bounds : List Bound
row_bounds =
    record { column = "a"; lower = "1"; upper = "1"; has_lower = true; has_upper = true }
    ∷ record { column = "b"; lower = "2"; upper = "5"; has_lower = true; has_upper = true }
    ∷ record { column = "c"; lower = "3"; upper = "4"; has_lower = true; has_upper = true }
    ∷ []

to_string_runs : to_string (record (new_chunk_range none) { bounds = row_bounds }) "" ≡ (
  "(`a` = ?) AND ((`b` > ?) OR (`b` = ? AND `c` > ?)) AND ((`b` < ?) OR (`b` = ? AND `c` <= ?))",
  "1" ∷ "2" ∷ "2" ∷ "3" ∷ "5" ∷ "5" ∷ "4" ∷ [],
)
unfolding to_string new_chunk_range
to_string_runs = refl

-- Texts compared as a database compares one-digit numbers.
abbrev by_text : String → String → Ordering
by_text a b = Prim.Native.String.compare a b

-- The row a = 1, b = 2, c = 4 lies in the range.
abbrev row : String → Option String
row c = some (if str_eq c "a" then "1" else if str_eq c "b" then "2" else "4")

condition-inside_example :
    holds by_text row (condition row_bounds) ≡ inside by_text row true true row_bounds
condition-inside_example =
    condition-inside by_text row true true
      (record { column = "a"; lower = "1"; upper = "1"; has_lower = true; has_upper = true }) _
      ((refl, refl), ((refl, refl), ((refl, refl), tt)))

row_is_inside : inside by_text row true true row_bounds ≡ true
unfolding inside
row_is_inside = refl

update-find_bound_example :
    (c' : Range) × (update (new_chunk_range none) "a" "1" "9" true false ≡ some c')
    × IsIndexed c'
    × ((j : String)
        → find_bound c' j ≡ (
            if str_eq "a" j
            then some (updated "a" "1" "9" true false (find_bound (new_chunk_range none) "a"))
            else find_bound (new_chunk_range none) j))
update-find_bound_example =
    update-find_bound (new_chunk_range none) "a" "1" "9" true false (new_chunk_range-IsIndexed none)
