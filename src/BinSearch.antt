-- ===== src/BinSearch.antt =====
-- `BinGenerate` and `binSearch` of sync_diff_inspector/diff.go, which narrow a chunk whose checksums
-- differ down before its rows are compared, with `RangeInfo` of
-- sync_diff_inspector/splitter/splitter.go.
use tidb_tools.Prelude.{
  ℕ, zero, suc, ◌+◌, ◌==◌, String, Bool, true, false, ◌&&◌, ◌||◌, not, List, [], ◌∷◌, Option, none,
  some, leb, if◌then◌else◌,
}
use tidb_tools.Prelude.Dict.{Dict, lookup}
use tidb_tools.Prelude.Text.{◌+s◌}
use tidb_tools.Chunk.Data.{Range}
use tidb_tools.Chunk.Build
use tidb_tools.Chunk.Where.{to_string}
pub mod Narrows
mod Halves
mod Tests

pub record RangeInfo : Type 0 where
  pub chunk_range : Range
  pub index_id : ℕ
  pub progress_id : String

-- A result, an error, `log.Fatal`, which ends the program, or a panic.
pub data Outcome (A : Type 0) : Type 0 where
  done : A → Outcome A
  failed fatal panics : Outcome A

infixl 5 ◌>>=◌
abbrev pub ◌>>=◌ : {A B : Type 0} → Outcome A → (A → Outcome B) → Outcome B
done a >>= f = f a
failed >>= f = failed
fatal >>= f = fatal
panics >>= f = panics

-- `RangeInfo.Copy`
unfoldable pub copy : RangeInfo → RangeInfo
copy r = record r { chunk_range = Build.clone r.chunk_range }

abbrev pub with_condition : RangeInfo → String → String → Option Range → Outcome RangeInfo
with_condition r collation limits none = panics
with_condition r collation limits (some c) =
    let (conditions, args) = to_string c collation in
    done (record r {
      chunk_range = record c {
        where_ = "((" +s conditions +s ") AND (" +s limits +s "))";
        args = args;
      };
    })

-- `RangeInfo.Update`
unfoldable pub update :
    RangeInfo → String → String → String → Bool → Bool → String → String → Outcome RangeInfo
update r column lower upper update_lower update_upper collation limits =
    with_condition r collation limits
      (Build.update r.chunk_range column lower upper update_lower update_upper)

-- the count and the checksum of a range on one side
pub data ChecksumInfo : Type 0 where
  counted : (count checksum : ℕ) → ChecksumInfo
  no_answer : ChecksumInfo

-- What the search asks the databases: the checksums of a range on both sides, and the row in the
-- middle of a condition with its arguments, where the count of its rows is given.
pub record Databases : Type 0 where
  pub upstream_checksum : RangeInfo → ChecksumInfo
  pub downstream_checksum : RangeInfo → ChecksumInfo
  pub approximate_mid : String → List String → ℕ → Outcome (Option (Dict String))

abbrev pub same_checksums : ChecksumInfo → ChecksumInfo → Outcome (Bool × ℕ × ℕ)
same_checksums no_answer _ = failed
same_checksums (counted c s) no_answer = failed
same_checksums (counted c s) (counted d t) = done (c == d && s == t, c, d)

-- the value of a Go map, which is empty for a missing key
abbrev pub value_of : Option String → String
value_of none = ""
value_of (some v) = v

module _ (db : Databases) where
  -- `compareChecksumAndGetCount`
  unfoldable pub compare_checksum_and_get_count : RangeInfo → Outcome (Bool × ℕ × ℕ)
  compare_checksum_and_get_count r =
      same_checksums (db.upstream_checksum r) (db.downstream_checksum r)

module _ (collation limits : String) where
  -- the loop over the index columns, which sets the upper bounds of the first half and the lower
  -- bounds of the second
  unfoldable pub set_bounds :
      Dict String → List String → RangeInfo → RangeInfo → Outcome (RangeInfo × RangeInfo)
  set_bounds mid_values [] r1 r2 = done (r1, r2)
  set_bounds mid_values (c ∷ columns) r1 r2 = do
    let value = value_of (lookup c mid_values)
    r1' ← update r1 c "" value false true collation limits
    r2' ← update r2 c value "" true false collation limits
    set_bounds mid_values columns r1' r2'

-- where the search goes on: it returns a range, or goes on in a half with its count
pub data Halved : Type 0 where
  returns : RangeInfo → Halved
  goes_on : RangeInfo → ℕ → Halved

-- the tests on the two halves
unfoldable pub choose :
    RangeInfo → RangeInfo → RangeInfo → ℕ → Bool × ℕ × ℕ → Bool × ℕ × ℕ → Outcome Halved
choose r r1 r2 count (equal1, count1, _) (equal2, count2, _) =
    if not (count1 + count2 == count)
    then fatal
    else if (not equal1 && not equal2) || (count1 == 0 || count2 == 0)
    then done (returns r)
    else if not equal1
    then done (goes_on r1 count1)
    else if not equal2
    then done (goes_on r2 count2)
    else fatal

module _ (db : Databases) (threshold : ℕ) (collation limits : String)
    (index_columns : List String) where
  abbrev pub halve_at : RangeInfo → ℕ → Option (Dict String) → Outcome Halved
  halve_at r count none = done (returns r)
  halve_at r count (some mid_values) =
      set_bounds collation limits mid_values index_columns (copy r) (copy r) >>= λ halves.
      compare_checksum_and_get_count db halves.0 >>= λ first.
      compare_checksum_and_get_count db halves.1 >>= λ second.
      choose r halves.0 halves.1 count first second

  -- the body of `binSearch` up to its own call
  unfoldable pub halve : RangeInfo → ℕ → Outcome Halved
  halve r count =
      let (conditions, args) = to_string r.chunk_range collation in
      db.approximate_mid ("(" +s conditions +s ") AND (" +s limits +s ")") args count
      >>= halve_at r count

  abbrev pub searched :
      (RangeInfo → ℕ → Option (Outcome RangeInfo)) → Outcome Halved → Option (Outcome RangeInfo)
  searched again (done (returns r)) = some (done r)
  searched again (done (goes_on r count)) = again r count
  searched again failed = some failed
  searched again fatal = some fatal
  searched again panics = some panics

  -- `binSearch`; `none` where the fuel runs out
  unfoldable pub bin_search : ℕ → RangeInfo → ℕ → Option (Outcome RangeInfo)
  bin_search zero r count = none
  bin_search (suc fuel) r count =
      if leb count threshold then some (done r) else searched (bin_search fuel) (halve r count)

-- `model.IndexInfo`, with the names of its columns
pub record Index : Type 0 where
  pub id : ℕ
  pub primary : Bool
  pub unique : Bool
  pub columns : List String

-- The columns of the index that a range is split by, if it has one of its own that is unique. The
-- ids of a table's indices differ, so that the order in which they are looked through does not
-- matter.
unfoldable pub columns_to_split : ℕ → List Index → List String
columns_to_split id [] = []
columns_to_split id (i ∷ indices) =
    let rest = columns_to_split id indices in
    if id == i.id then (if i.primary || i.unique then i.columns else []) else rest

module _ (db : Databases) (threshold : ℕ) (collation limits : String) where
  abbrev pub search_by : List String → ℕ → RangeInfo → ℕ → Option (Outcome RangeInfo)
  search_by [] fuel r count = some (done r)
  search_by (c ∷ columns) fuel r count =
      bin_search db threshold collation limits (c ∷ columns) fuel r count

  -- `BinGenerate`
  unfoldable pub bin_generate : List Index → ℕ → RangeInfo → ℕ → Option (Outcome RangeInfo)
  bin_generate indices fuel r count =
      if leb count threshold
      then some (done r)
      else search_by (columns_to_split r.index_id indices) fuel r count
