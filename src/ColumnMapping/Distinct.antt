-- ===== src/ColumnMapping/Distinct.antt =====
-- The ids of "partition id" in pkg/column-mapping/column.go, from the fields of `computePartitionID`.
use tidb_tools.Prelude.{ℕ, ◌+◌, ◌*◌, ◌^◌, ◌<◌, ◌≡◌, true, Option}
use tidb_tools.Prelude.Int.{pos}
use tidb_tools.ColumnMapping.Partition.{PartitionRule, Arguments, Ids, used}

-- The sizes of the three fields and of the origin id fill the 63 bits of a positive int64.
pub record Fits (r : PartitionRule) (origin_size : ℕ) : Type 0 where
  pub fills : r.instance_id_bit_size + r.schema_id_bit_size + r.table_id_bit_size + origin_size ≡ 63
  pub limit : r.max_origin_id ≡ pos (2 ^ origin_size)

-- The rule uses all of the three fields.
pub record UsesAll (r : PartitionRule) (a : Arguments) : Type 0 where
  pub instance_used : used r.instance_id_bit_size a.instance_id ≡ true
  pub schema_used : used r.schema_id_bit_size a.schema_prefix ≡ true
  pub table_used : used r.table_id_bit_size a.table_prefix ≡ true

pub record Fields (b c d : ℕ) (ids : Ids) : Type 0 where
  pub x : ℕ
  pub y : ℕ
  pub z : ℕ
  pub y_bounded : y < 2 ^ b
  pub z_bounded : z < 2 ^ c
  pub instance_at : ids.instance ≡ x * 2 ^ (b + (c + d))
  pub schema_at : ids.schema ≡ y * 2 ^ (c + d)
  pub table_at : ids.table ≡ z * 2 ^ d
