-- ===== src/BinlogFilter.antt =====
-- pkg/binlog-filter: which binlog events, by the kind of event or by the text of the query, are
-- passed on and which are left out, under rules for schemas and tables.
pub mod Events
pub mod Rule
pub mod Filter
pub mod Words
pub mod Valid
pub mod Matching
pub mod Alias
pub mod Verdict
pub mod Sound
mod Tests
pub mod Trie
