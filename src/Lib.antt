-- ===== src/Lib.antt =====
-- tidb-tools: tools around TiDB and MySQL. This library models the parts that decide something,
-- and leaves out what only queries a database or reads and writes files.
--
-- Chunk follows sync_diff_inspector/chunk/chunk.go: sync-diff-inspector splits a table into chunks,
-- which are ranges of rows, and compares them one by one. Chunk/Data has the types (`ChunkID` is
-- `ChunkId`, `Range`, `Bound`) and `Compare`, Chunk/Where the SQL condition of `Range.ToString`, and
-- Chunk/Build `NewChunkRange`, `Update`, `Copy`, `Clone`, `CopyAndUpdate`, `InitChunks` and
-- `InitChunk`. Chunk/Order, Chunk/Selects and Chunk/Offsets have the proofs, and Chunk/Meaning and
-- Chunk/Clauses what they rest on: when a row satisfies a condition. A bound's value is a text,
-- as in the source; a row has a text or NULL in each column, and the comparison of a text with a
-- bound's value is a parameter. A comparison with NULL selects no row. A write outside of a slice, a
-- panic in Go, is `none`.
--
-- Checkpoint follows sync_diff_inspector/checkpoints/checkpoints.go, which finds the chunk up to
-- which everything is checked, to restart there. Checked chunks come in any order, wait in a heap
-- ordered by `IsLess`, and `GetChunkSnapshot` takes them off while the next one is adjacent to the
-- saved one. Heap has the functions of Go's container/heap that it calls, over a list; Heap/Ordered,
-- Heap/Up, Heap/Down and Heap/Least are about the heap order. Loops run on fuel: the length of the heap
-- for `GetChunkSnapshot`, since each round takes off a node, the index for `up`, which is halved, and
-- the length for `down`, whose index grows. `SaveChunk` and
-- `LoadChunk`, which write and read JSON files, are not modelled. Every method holds the mutex, so
-- that a run is a list of calls.
--
-- SchemaCmp follows pkg/schemacmp: schemas of shards are elements of a join-semilattice, and their
-- join is the schema that all shards migrate to. SchemaCmp/Data has the lattice types of lattice.go
-- as one data type, the errors and the results; SchemaCmp/Leaf has the operations of the types that
-- hold no other lattice and the orders of util.go; SchemaCmp/Lattice has `Compare` and `Join` of all
-- types, with the loops of `Tuple` and the check of `typ.Join` in type.go. `Byte` and `Uint` share
-- their operations, and so do `Int` and `Int64`: no operation here computes a number that could
-- overflow. SchemaCmp/Map has `latticeMap` with the column and index maps of table.go, over
-- association lists; it is not an entry of a tuple here. SchemaCmp/Column has what type.go does for a
-- column that the other table misses. What the package takes of the parser (tests on types, flags,
-- type constants) is a record of parameters, `Mysql`. The joining and printing of whole tables is
-- not modelled.
--
-- RuleSelector follows pkg/table-rule-selector/trie_selector.go, which keeps rules under patterns for
-- schemas and tables. RuleSelector/Pattern has the ranges of bytes and the places of a pattern,
-- RuleSelector/Trie the nodes with the loops of `insert`, `track` and `matchNode`, and
-- RuleSelector/Selector `Insert`, `Remove` and `Match` with the cache. A text is its list of bytes.
-- The loops go over the places that `RuleSelector.Pattern.tokens` reads off a pattern first, which the
-- source does as it goes; the two agree, since what is read does not depend on the trie. Nodes are not
-- shared, so that the trie is a value. A child that is nil reads as a node without items. `range` over
-- a Go string steps from character to character, with the bytes of Go's decoding in `rune_rest`.
-- Which key Go's map gives first, where the cache drops one, is a parameter. RuleSelector/Store says
-- what a selector promises, and RuleSelector/Reads when a pattern reads a name; RuleSelector/Equal to
-- RuleSelector/Refines relate the trie to the store, RuleSelector/Fresh to RuleSelector/CacheSize are
-- about `Match`, RuleSelector/Literal about names and RuleSelector/Render about the texts of patterns.
-- Each method holds the lock, so that a run is a list of calls. `AllRules` is left out.
--
-- BinSearch follows `BinGenerate` and `binSearch` of sync_diff_inspector/diff.go, which halve a chunk
-- whose checksums differ before its rows are compared, with `RangeInfo` of
-- sync_diff_inspector/splitter/splitter.go and the chunks of Chunk. The queries for a checksum and for
-- the row in the middle are the parameter `Databases`; counts are natural numbers. `log.Fatal` and a
-- panic are results of their own. The fuel is more than the count of the rows, which gets smaller in
-- each round. BinSearch/Narrows and BinSearch/Halves have the proofs. The schema and table of the query
-- are left out, as they do not change.
--
-- RowDiff follows the comparison of a chunk's rows, `compareRows` of sync_diff_inspector/diff.go, with
-- `CompareData` and the statements of sync_diff_inspector/utils/utils.go. RowDiff/Data has columns, rows
-- and `SelectUniqueOrderKey` of pkg/dbutil/index.go, RowDiff/Compare the two loops of `CompareData`,
-- RowDiff/Statements the statements and `GenerateFixSQL`, and RowDiff/Merge the loop. A row iterator is
-- the list of the results of `Next`. Parsing of floats, JSON and the collations are the parameter
-- `Calls`, with the laws `IsLawful` in RowDiff/Order, and the drawing of the annotation is another. The
-- fuel of the loop is a round for each result and one for the end. RowDiff/Walk and RowDiff/Merged say
-- what the loop finds, RowDiff/Classified, RowDiff/Justified, RowDiff/Once and RowDiff/Classifies which
-- rows are inserted, deleted and replaced, with the texts of their statements, RowDiff/Readable and
-- RowDiff/Returns when it returns no error, and RowDiff/Literals how a database reads the text literals.
-- Two rows have one key where `CompareData` orders neither before the other. What a database does with
-- the statements is not modelled. A text has a character for each byte of the text in the source.
-- Logging is left out, and so is what has been collected before an error. A nil iterator, which a
-- source gives where a table is missing, is not modelled.
--
-- BinlogFilter follows pkg/binlog-filter. BinlogFilter/Events has the event types, as texts, with
-- `ClassifyEvent`, `toEventType` and `AstToDDLEvent`; BinlogFilter/Rule the rules with `ToLower` and
-- `Valid`; BinlogFilter/Filter the filter with `AddRule`, `UpdateRule`, `RemoveRule`, `Filter` and
-- `matchEvent`. Go's regular expressions are the parameter `Regexps`. The selector that keeps the
-- rules is the interface `Selector`, with the laws `IsSelector` in BinlogFilter/Sound; BinlogFilter/Trie
-- fills it with the trie of RuleSelector, on texts in UTF-8 and without the cache. A rule is not changed
-- by its owner after it is added. `strings.ToLower` is modelled on ASCII letters.
--
-- ColumnMapping follows pkg/column-mapping/column.go. ColumnMapping/Partition has the expression
-- "partition id", which puts an instance id, a schema id, a table id and a row's id in one int64:
-- `SetPartitionRule`, `computePartitionID` and `computeID`, where an error is `none`. ColumnMapping/Rule
-- has the rules with `ToLower`, `Valid` and `Adjust`, and the three expressions on a row's values, with
-- a panic as a result of its own. ColumnMapping/Packing has the arithmetic of the fields. The mapping
-- with its cache is not modelled. A number is formatted on fuel 19, the digits of an int64.
--
-- Prelude has the shared names, lists, integers over the native numbers, dictionaries and texts.
pub mod Prelude
pub mod Chunk
pub mod Heap
pub mod Checkpoint
pub mod SchemaCmp
pub mod RuleSelector
pub mod BinSearch
pub mod RowDiff
pub mod BinlogFilter
pub mod ColumnMapping
