-- ===== src/ColumnMapping.antt =====
-- pkg/column-mapping/column.go: rules that rewrite a column's value, so that rows of sharded tables
-- keep distinct keys in the merged table.
pub mod Partition
pub mod Rule
pub mod Packing
pub mod Field
pub mod Distinct
pub mod Ready
mod Tests
