-- ===== src/BinlogFilter/Events.antt =====
-- The event types of pkg/binlog-filter/filter.go and util.go, their classes, and the reading of an
-- event type from a rule.
use tidb_tools.Prelude.{
  String, str_eq, Bool, false, ◌||◌, List, [], ◌∷◌, ◌++◌, Option, none, some, if◌then◌else◌,
}
use tidb_tools.Prelude.Text.{to_lower}

-- `type EventType string`
abbrev pub EventType : Type 0
EventType = String

abbrev pub dml : EventType
dml = "dml"

abbrev pub ddl : EventType
ddl = "ddl"

abbrev pub incompatible_ddl : EventType
incompatible_ddl = "incompatible DDL"

abbrev pub all_event : EventType
all_event = "all"

abbrev pub all_ddl : EventType
all_ddl = "all ddl"

abbrev pub all_dml : EventType
all_dml = "all dml"

abbrev pub none_event : EventType
none_event = "none"

abbrev pub none_ddl : EventType
none_ddl = "none ddl"

abbrev pub none_dml : EventType
none_dml = "none dml"

abbrev pub incompatible_ddl_changes : EventType
incompatible_ddl_changes = "incompatible ddl changes"

abbrev pub null_event : EventType
null_event = ""

-- `switch` over strings: whether the value is one of a case's labels
abbrev pub one_of : String → List String → Bool
one_of s [] = false
one_of s (t ∷ ts) = str_eq s t || one_of s ts

-- From `ValueRangeDecrease` to `ExchangePartition`, the labels that stand in both switches.
abbrev pub incompatible_changes : List EventType
incompatible_changes =
    "value range decrease" ∷ "precision decrease" ∷ "modify column" ∷ "rename column"
    ∷ "rename index" ∷ "drop column" ∷ "drop primary key" ∷ "drop unique key"
    ∷ "modify default value" ∷ "modify constraint" ∷ "modify columns order" ∷ "modify charset"
    ∷ "modify collation" ∷ "remove auto increment" ∷ "modify storage engine"
    ∷ "reorganize table partition" ∷ "rebuild table partition" ∷ "coalesce table partition"
    ∷ "split table partition" ∷ "exchange table partition" ∷ []

-- From `ModifySchemaCharsetAndCollate` to `MultiSchemaChange`, likewise.
abbrev pub other_changes : List EventType
other_changes =
    "modify schema charset and collate" ∷ "modify table charset and collate"
    ∷ "modify table comment" ∷ "recover table" ∷ "alter table partitioning"
    ∷ "remove table partitioning" ∷ "add column" ∷ "set default value" ∷ "rebase auto id"
    ∷ "add primary key" ∷ "alter index visibility" ∷ "alter ttl info" ∷ "alter ttl remove"
    ∷ "multi schema change" ∷ []

abbrev pub dml_events : List EventType
dml_events = "insert" ∷ "update" ∷ "delete" ∷ []

abbrev pub ddl_events : List EventType
ddl_events =
    "create database" ∷ "alter database" ∷ "alter schema" ∷ "create table" ∷ "create index"
    ∷ "create view" ∷ "drop view" ∷ "alter table" ∷ "create schema" ∷ "add table partition" ∷ []

abbrev pub incompatible_events : List EventType
incompatible_events =
    incompatible_changes
    ++ ("drop database" ∷ "drop table" ∷ "drop index" ∷ "rename table" ∷ "truncate table"
        ∷ "drop schema" ∷ "drop table partition" ∷ "truncate table partition" ∷ [])
    ++ other_changes

-- `ClassifyEvent`; `none` is its error on any other text
unfoldable pub classify_event : EventType → Option EventType
classify_event event =
    if one_of event dml_events
    then some dml
    else if one_of event ddl_events
    then some ddl
    else if str_eq event null_event
    then some null_event
    else if one_of event incompatible_events
    then some incompatible_ddl
    else none

-- The labels of the first case of `toEventType`.
abbrev pub event_types : List EventType
event_types =
    (all_event ∷ all_ddl ∷ all_dml ∷ null_event ∷ none_event ∷ none_ddl ∷ none_dml ∷ "insert"
      ∷ "update" ∷ "delete" ∷ "create database" ∷ "drop database" ∷ "alter database"
      ∷ "create table" ∷ "drop table" ∷ "truncate table" ∷ "rename table" ∷ "create index"
      ∷ "drop index" ∷ "create view" ∷ "drop view" ∷ "alter table" ∷ "add table partition"
      ∷ "drop table partition" ∷ "truncate table partition" ∷ incompatible_ddl_changes ∷ [])
    ++ incompatible_changes
    ++ other_changes

-- the switch of `toEventType` on the text in lower case
unfoldable pub event_type_of : EventType → Option EventType
event_type_of event =
    if one_of event event_types
    then some event
    else if str_eq event "create schema"
    then some "create database"
    else if str_eq event "drop schema"
    then some "drop database"
    else if str_eq event "alter schema"
    then some "alter database"
    else none

-- `toEventType`; `none` is its error
unfoldable pub to_event_type : String → Option EventType
unfolding event_type_of to_lower
to_event_type es = event_type_of (to_lower es)

-- What `AstToDDLEvent` looks at: the statement's type, and `IsView` of a DROP TABLE statement. All
-- other statements of the parser are `other_stmt`.
pub data StmtNode : Type 0 where
  create_database_stmt drop_database_stmt create_table_stmt truncate_table_stmt rename_table_stmt
        create_index_stmt drop_index_stmt alter_table_stmt create_view_stmt alter_database_stmt
        other_stmt :
      StmtNode
  drop_table_stmt : Bool → StmtNode

unfoldable pub ast_to_ddl_event : StmtNode → EventType
ast_to_ddl_event create_database_stmt = "create database"
ast_to_ddl_event drop_database_stmt = "drop database"
ast_to_ddl_event create_table_stmt = "create table"
ast_to_ddl_event (drop_table_stmt is_view) = if is_view then "drop view" else "drop table"
ast_to_ddl_event truncate_table_stmt = "truncate table"
ast_to_ddl_event rename_table_stmt = "rename table"
ast_to_ddl_event create_index_stmt = "create index"
ast_to_ddl_event drop_index_stmt = "drop index"
ast_to_ddl_event alter_table_stmt = "alter table"
ast_to_ddl_event create_view_stmt = "create view"
ast_to_ddl_event alter_database_stmt = "alter database"
ast_to_ddl_event other_stmt = null_event
