-- ===== src/Chunk.antt =====
-- sync_diff_inspector/chunk/chunk.go: chunks, which are ranges of a table's rows.
pub mod Data
pub mod Where
pub mod Build
pub mod Order
pub mod Meaning
pub mod Clauses
pub mod Selects
pub mod Offsets
mod Tests
