-- ===== src/RuleSelector.antt =====
-- Follows pkg/table-rule-selector/trie_selector.go.
pub mod Pattern
pub mod Trie
pub mod Equal
pub mod Paths
pub mod Changes
pub mod Walks
pub mod Tracks
pub mod Distinct
pub mod Reads
pub mod Finds
pub mod Selector
pub mod Store
pub mod Edits
pub mod Inserts
pub mod Refines
pub mod Fresh
pub mod Keys
pub mod Kept
pub mod Failing
pub mod Cached
pub mod Answers
pub mod CacheSize
pub mod Render
pub mod Literal
mod Tests
