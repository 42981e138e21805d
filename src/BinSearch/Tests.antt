-- ===== src/BinSearch/Tests.antt =====
-- The search on four rows of a table whose halves differ in the second, and its theorem there.
use Prim.Native.String
use tidb_tools.Prelude.{
  str_eq, String, Bool, not, ℕ, ◌≡◌, refl, true, false, List, [], ◌∷◌, Option, none, some, arith,
  if◌then◌else◌,
}
use tidb_tools.Chunk.Data.{Bound}
use tidb_tools.Prelude.Dict.{Dict, lookup, insert}
use tidb_tools.Chunk.Build
use tidb_tools.Chunk.Build.{new_chunk_range}
use tidb_tools.BinSearch.{
  RangeInfo, Outcome, done, ChecksumInfo, counted, Databases, Index, bin_generate, bin_search,
  halve, set_bounds, compare_checksum_and_get_count, choose, columns_to_split, copy, update,
}
use tidb_tools.BinSearch.Halves.{uppers, lowers, set_bounds-holds}
use tidb_tools.Chunk.Where.{condition}
use tidb_tools.Chunk.Meaning.{holds}
use tidb_tools.BinSearch.Narrows.{Ended, bin_generate-Ended}

abbrev lower_side : List Bound → ℕ → ChecksumInfo
lower_side [] n = counted 4 10
lower_side (b ∷ bs) n = if b.has_upper then counted 2 7 else counted 2 n

-- Every condition has the value 5 in its middle, and the sides differ above it.
abbrev four_rows : Databases
four_rows = record {
  upstream_checksum = λ r. lower_side r.chunk_range.bounds 3;
  downstream_checksum = λ r. lower_side r.chunk_range.bounds 4;
  approximate_mid = λ condition args count. done (some (("a", "5") ∷ []));
}

abbrev whole : RangeInfo
whole = record { chunk_range = new_chunk_range none; index_id = 1; progress_id = "t" }

abbrev primary_key : List Index
primary_key = record { id = 1; primary = true; unique = true; columns = "a" ∷ [] } ∷ []

abbrev second_half : Option (Outcome RangeInfo)
second_half = some (update (copy whole) "a" "5" "" true false "" "TRUE")

-- The search takes the second half, since the first is equal on both sides.
takes_second_half : bin_generate four_rows 3 "" "TRUE" primary_key 5 whole 4 ≡ second_half
unfolding bin_generate columns_to_split bin_search halve set_bounds update copy
    compare_checksum_and_get_count choose Build.update Build.clone lookup
takes_second_half = refl

bin_generate-Ended_example :
    Ended four_rows 3 "" "TRUE"
      (columns_to_split 1 primary_key)
      whole
      4
      (bin_generate four_rows 3 "" "TRUE" primary_key 5 whole 4)
bin_generate-Ended_example =
    bin_generate-Ended four_rows 3 "" "TRUE" primary_key 5 whole 4 (omega arith)

abbrev one_bound : List Bound
one_bound =
    record { column = "a"; lower = "1"; upper = "9"; has_lower = true; has_upper = true } ∷ []

abbrev from_1_to_9 : RangeInfo
from_1_to_9 = record whole {
  chunk_range = record (new_chunk_range none) { bounds = one_bound; column_offset = ("a", 0) ∷ [] };
}

-- The row with the value 7 lies in one of the halves at 5.
set_bounds-holds_example :
    (h : RangeInfo × RangeInfo) × (set_bounds "" "TRUE"
        (("a", "5") ∷ [])
        ("a" ∷ [])
        (copy from_1_to_9)
        (copy from_1_to_9)
      ≡ done h)
    × (holds Prim.Native.String.compare (λ c. some "7") (condition h.0.chunk_range.bounds)
        ≡ not (holds Prim.Native.String.compare (λ c. some "7") (condition h.1.chunk_range.bounds)))
unfolding copy Build.clone condition lookup insert
set_bounds-holds_example =
    set_bounds-holds Prim.Native.String.compare (λ c. some "7") "" "TRUE" (("a", "5") ∷ []) true
      true (record { column = "a"; lower = "1"; upper = "9"; has_lower = true; has_upper = true })
      [] from_1_to_9 refl ((refl, refl), tt) (refl, tt) (("7", refl), tt) refl

-- A row of a nullable unique index, with 5 and NULL, lies in the chunk from (1, 2) to (9, 3) and in
-- neither of its halves at (5, 6).
abbrev five_null : String → Option String
five_null c = if str_eq c "a" then some "5" else none

abbrev bound : String → String → String → Bound
bound column lower upper = record {
  column = column;
  lower = lower;
  upper = upper;
  has_lower = true;
  has_upper = true;
}

abbrev selected : List Bound → Bool
selected bounds = holds Prim.Native.String.compare five_null (condition bounds)

abbrev at_five_six : Dict String
at_five_six = ("a", "5") ∷ ("b", "6") ∷ []

five_null_in_chunk : selected (bound "a" "1" "9" ∷ bound "b" "2" "3" ∷ []) ≡ true
unfolding condition
five_null_in_chunk = refl

five_null_not_in_first :
    selected (uppers at_five_six (bound "a" "1" "9" ∷ bound "b" "2" "3" ∷ [])) ≡ false
unfolding condition lookup
five_null_not_in_first = refl

five_null_not_in_second :
    selected (lowers at_five_six (bound "a" "1" "9" ∷ bound "b" "2" "3" ∷ [])) ≡ false
unfolding condition lookup
five_null_not_in_second = refl
