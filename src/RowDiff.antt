-- ===== src/RowDiff.antt =====
-- The comparison of the rows of a chunk, sync_diff_inspector/diff.go and
-- sync_diff_inspector/utils/utils.go, and the statements that repair the downstream table.
pub mod Data
pub mod Compare
pub mod Statements
pub mod Merge
mod Walk
mod Collected
pub mod Script
mod Merged
mod Fetched
pub mod Order
mod KeyOrder
pub mod Classified
mod Once
mod Justified
mod Keys
mod Readable
mod Classifies
mod Returns
mod Literals
mod Tests
