-- ===== src/SchemaCmp.antt =====
-- pkg/schemacmp: schemas as elements of a join-semilattice. lattice.go has the lattice types and
-- util.go the orders of MySQL's integer and blob types; the check on columns is that of type.go.
pub mod Data
pub mod Leaf
pub mod Order
pub mod Scalars
pub mod AtMost
pub mod Partial
pub mod Joins
pub mod Bounds
pub mod Antisym
mod Tests
mod MapTests
pub mod FieldTp
pub mod StringLists
pub mod Lattice
pub mod BitSet
pub mod Column
pub mod Map
pub mod MapOrder
pub mod Missing
