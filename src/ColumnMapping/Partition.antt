-- ===== src/ColumnMapping/Partition.antt =====
-- The expression "partition id" of pkg/column-mapping/column.go: the bit fields of an id. A uint64
-- is a number with its wrap-around written out.
use Prim.Native.Char.{code}
use Prim.Native.Nat.{bit_or}
use mathlib.Core.Option
use tidb_tools.Prelude.{
  ℕ, ◌+◌, ◌-◌, ◌*◌, ◌%◌, ◌^◌, String, str_eq, Bool, true, false, ◌&&◌, ◌||◌, Option, none, some,
  ltb, leb, ◌==◌, if◌then◌else◌,
}
use tidb_tools.Prelude.Int.{ℤ, pos, negsuc, leb_ℤ}
use tidb_tools.Prelude.Text.{◌+s◌}

-- `instanceIDBitSize`, `schemaIDBitSize`, `tableIDBitSize` and `maxOriginID`
pub record PartitionRule : Type 0 where
  pub instance_id_bit_size : ℕ
  pub schema_id_bit_size : ℕ
  pub table_id_bit_size : ℕ
  pub max_origin_id : ℤ

abbrev pub default_rule : PartitionRule
default_rule = record {
  instance_id_bit_size = 4;
  schema_id_bit_size = 7;
  table_id_bit_size = 8;
  max_origin_id = pos 17592186044416;
}

-- `1 << uint(64-instanceIDSize-schemaIDSize-tableIDSize-1)` as an int64: a shift by 63 gives the
-- least number, and a negative difference is a shift out of the word.
abbrev pub shifted_one : ℕ → ℤ
shifted_one sizes =
    if sizes == 0
    then negsuc (2 ^ 63 - 1)
    else if leb sizes 63
    then pos (2 ^ (63 - sizes))
    else pos 0

-- `SetPartitionRule`
unfoldable pub set_partition_rule : ℕ → ℕ → ℕ → PartitionRule
set_partition_rule instance_id_size schema_id_size table_id_size = record {
  instance_id_bit_size = instance_id_size;
  schema_id_bit_size = schema_id_size;
  table_id_bit_size = table_id_size;
  max_origin_id = shifted_one (instance_id_size + schema_id_size + table_id_size);
}

-- `shiftCnt - uint(size)`
abbrev pub sub_uint : ℕ → ℕ → ℕ
sub_uint s n = if leb n s then s - n else 2 ^ 64 + s - n

-- `id << shiftCount` on uint64
abbrev pub shift_left : ℕ → ℕ → ℕ
shift_left id shift = if leb 64 shift then 0 else id * 2 ^ shift % 2 ^ 64

-- the digits of `strconv.ParseUint` in base 10
unfoldable pub parse_digits : ℕ → String → Option ℕ
parse_digits acc String.[] = some acc
parse_digits acc (String.◌∷◌ c s) =
    let rest = parse_digits (acc * 10 + (code c - 48)) s in
    if leb 48 (code c) && leb (code c) 57 then rest else none

abbrev pub in_range : ℕ → Option ℕ → Option ℕ
in_range bit_size none = none
in_range bit_size (some n) = if ltb n (2 ^ bit_size) then some n else none

-- `strconv.ParseUint(s, 10, bitSize)` for a size from 1 to 64
unfoldable pub parse_uint : String → ℕ → Option ℕ
unfolding parse_digits
parse_uint s bit_size =
    if str_eq s "" || ltb 64 bit_size then none else in_range bit_size (parse_digits 0 s)

-- The rest of a name behind a prefix.
unfoldable pub strip_prefix : String → String → Option String
strip_prefix String.[] name = some name
strip_prefix (String.◌∷◌ c p) String.[] = none
strip_prefix (String.◌∷◌ c p) (String.◌∷◌ d name) =
    let rest = strip_prefix p name in if code c == code d then rest else none

abbrev pub id_of : ℕ → ℕ → Option String → Option ℕ
id_of bit_size shift none = none
id_of bit_size shift (some id_str) =
    Option.map (λ id. shift_left id shift) (parse_uint id_str bit_size)

-- `computeID`; an empty rest is no number, which is the case `len(prefix) == len(name)`
unfoldable pub compute_id : String → String → String → ℕ → ℕ → Option ℕ
unfolding strip_prefix parse_uint
compute_id name prefix sep bit_size shift =
    if str_eq name prefix then some 0 else id_of bit_size shift (strip_prefix (prefix +s sep) name)

-- The four arguments of a rule, the last of which `Adjust` fills in.
pub record Arguments : Type 0 where
  pub instance_id : String
  pub schema_prefix : String
  pub table_prefix : String
  pub sep : String

pub record Ids : Type 0 where
  pub instance : ℕ
  pub schema : ℕ
  pub table : ℕ

-- the test on one field: its size is not 0 and its argument is not empty
abbrev pub used : ℕ → String → Bool
used size argument = ltb 0 size && (if str_eq argument "" then false else true)

abbrev pub shift_after : ℕ → String → ℕ → ℕ
shift_after size argument shift = if used size argument then sub_uint shift size else shift

abbrev pub both_ids : Option ℕ → Option ℕ → Option ℕ → Option Ids
both_ids (some i) (some s) (some t) = some (record { instance = i; schema = s; table = t })
both_ids _ _ _ = none

module _ (r : PartitionRule) where
  -- `computePartitionID`
  unfoldable pub compute_partition_id : String → String → Arguments → Option Ids
  unfolding compute_id parse_uint
  compute_partition_id schema table a =
      let i = shift_after r.instance_id_bit_size a.instance_id 63 in
      let s = shift_after r.schema_id_bit_size a.schema_prefix i in
      let t = shift_after r.table_id_bit_size a.table_prefix s in
      both_ids
        (if used r.instance_id_bit_size a.instance_id
          then Option.map (λ id. shift_left id i) (parse_uint a.instance_id r.instance_id_bit_size)
          else some 0)
        (if used r.schema_id_bit_size a.schema_prefix
          then compute_id schema a.schema_prefix a.sep r.schema_id_bit_size s
          else some 0)
        (if used r.table_id_bit_size a.table_prefix
          then compute_id table a.table_prefix a.sep r.table_id_bit_size t
          else some 0)

  -- `partitionID` on an id that is read as an int64: the test, and the fields put together
  unfoldable pub partition_id : Ids → ℤ → Option ℕ
  partition_id ids (pos origin) =
      if leb_ℤ r.max_origin_id (pos origin)
      then none
      else some (bit_or (bit_or (bit_or ids.instance ids.schema) ids.table) origin)
  partition_id ids (negsuc n) = none
