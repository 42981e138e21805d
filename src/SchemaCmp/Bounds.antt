-- ===== src/SchemaCmp/Bounds.antt =====
-- `Join` of pkg/schemacmp/lattice.go: its bounds, and its arguments exchanged.
use tidb_tools.Prelude.{◌≡◌, ◌↔◌}
use tidb_tools.SchemaCmp.Data.{Lattice, Tuple, ok, Mysql}
use tidb_tools.SchemaCmp.Lattice.{compare, join}
use tidb_tools.SchemaCmp.Order.{Le}
use tidb_tools.SchemaCmp.Scalars.{
  bool-IsSemilattice, uint-IsSemilattice, int-IsSemilattice, singleton-IsSemilattice,
}
use tidb_tools.SchemaCmp.StringLists.{string_list-IsSemilattice, equality_singleton-IsSemilattice}
use tidb_tools.SchemaCmp.BitSet.{bit_set-IsSemilattice}
use tidb_tools.SchemaCmp.FieldTp.{IsMysql, field_tp-IsSemilattice}
use tidb_tools.SchemaCmp.AtMost.{AtMost, AtMosts, compare→AtMost}
use tidb_tools.SchemaCmp.Partial.{AtMost→compare, AtMost-refl}
use tidb_tools.SchemaCmp.Joins.{Joins, AllJoin, join→Joins, Joins→join}

module _ (m : Mysql) (v : IsMysql m) where
  mutual
    Joins-comm : {a b j : Lattice} → Joins m a b j → Joins m b a j
    Joins-comm (Joins.bool h) = Joins.bool (bool-IsSemilattice.comm _ _ _ h)
    Joins-comm (Joins.singleton h) = Joins.singleton (singleton-IsSemilattice.comm _ _ _ h)
    Joins-comm (Joins.equality_singleton h) =
        Joins.equality_singleton (equality_singleton-IsSemilattice.comm _ _ _ h)
    Joins-comm (Joins.bit_set h) = Joins.bit_set (bit_set-IsSemilattice.comm _ _ _ h)
    Joins-comm (Joins.byte h) = Joins.byte (uint-IsSemilattice.comm _ _ _ h)
    Joins-comm (Joins.field_tp h) = Joins.field_tp ((field_tp-IsSemilattice m v).comm _ _ _ h)
    Joins-comm (Joins.int h) = Joins.int (int-IsSemilattice.comm _ _ _ h)
    Joins-comm (Joins.int64 h) = Joins.int64 (int-IsSemilattice.comm _ _ _ h)
    Joins-comm (Joins.uint h) = Joins.uint (uint-IsSemilattice.comm _ _ _ h)
    Joins-comm (Joins.string_list h) = Joins.string_list (string_list-IsSemilattice.comm _ _ _ h)
    Joins-comm Joins.nil_nil = Joins.nil_nil
    Joins-comm Joins.nil_maybe = Joins.maybe_nil
    Joins-comm Joins.maybe_nil = Joins.nil_maybe
    Joins-comm (Joins.maybe h) = Joins.maybe (Joins-comm h)
    Joins-comm (Joins.tuple hs) = Joins.tuple (AllJoin-comm hs)
    Joins-comm (Joins.typ hs k) = Joins.typ (AllJoin-comm hs) k

    AllJoin-comm : {a b j : Tuple} → AllJoin m a b j → AllJoin m b a j
    AllJoin-comm AllJoin.nil = AllJoin.nil
    AllJoin-comm (AllJoin.cons h hs) = AllJoin.cons (Joins-comm h) (AllJoin-comm hs)

  mutual
    Joins-upper : {a b j : Lattice} → Joins m a b j → AtMost m a j
    Joins-upper (Joins.bool h) = AtMost.bool (bool-IsSemilattice.upper _ _ _ h)
    Joins-upper (Joins.singleton h) = AtMost.singleton (singleton-IsSemilattice.upper _ _ _ h)
    Joins-upper (Joins.equality_singleton h) =
        AtMost.equality_singleton (equality_singleton-IsSemilattice.upper _ _ _ h)
    Joins-upper (Joins.bit_set h) = AtMost.bit_set (bit_set-IsSemilattice.upper _ _ _ h)
    Joins-upper (Joins.byte h) = AtMost.byte (uint-IsSemilattice.upper _ _ _ h)
    Joins-upper (Joins.field_tp h) = AtMost.field_tp ((field_tp-IsSemilattice m v).upper _ _ _ h)
    Joins-upper (Joins.int h) = AtMost.int (int-IsSemilattice.upper _ _ _ h)
    Joins-upper (Joins.int64 h) = AtMost.int64 (int-IsSemilattice.upper _ _ _ h)
    Joins-upper (Joins.uint h) = AtMost.uint (uint-IsSemilattice.upper _ _ _ h)
    Joins-upper (Joins.string_list h) = AtMost.string_list (string_list-IsSemilattice.upper _ _ _ h)
    Joins-upper Joins.nil_nil = AtMost.nil_nil
    Joins-upper Joins.nil_maybe = AtMost.nil_maybe
    Joins-upper (Joins.maybe_nil {a = a}) = AtMost-refl m v (Lattice.maybe a)
    Joins-upper (Joins.maybe h) = AtMost.maybe (Joins-upper h)
    Joins-upper (Joins.tuple hs) = AtMost.tuple (AllJoin-upper hs)
    Joins-upper (Joins.typ hs k) = AtMost.typ (AllJoin-upper hs)

    AllJoin-upper : {a b j : Tuple} → AllJoin m a b j → AtMosts m a j
    AllJoin-upper AllJoin.nil = AtMosts.nil
    AllJoin-upper (AllJoin.cons h hs) = AtMosts.cons (Joins-upper h) (AllJoin-upper hs)

  mutual
    Joins-least : {a b j c : Lattice} → Joins m a b j → AtMost m a c → AtMost m b c → AtMost m j c
    Joins-least (Joins.bool h) (AtMost.bool p) (AtMost.bool q) =
        AtMost.bool (bool-IsSemilattice.least _ _ _ _ h p q)
    Joins-least (Joins.singleton h) (AtMost.singleton p) (AtMost.singleton q) =
        AtMost.singleton (singleton-IsSemilattice.least _ _ _ _ h p q)
    Joins-least (Joins.equality_singleton h) (AtMost.equality_singleton p)
          (AtMost.equality_singleton q) =
        AtMost.equality_singleton (equality_singleton-IsSemilattice.least _ _ _ _ h p q)
    Joins-least (Joins.bit_set h) (AtMost.bit_set p) (AtMost.bit_set q) =
        AtMost.bit_set (bit_set-IsSemilattice.least _ _ _ _ h p q)
    Joins-least (Joins.byte h) (AtMost.byte p) (AtMost.byte q) =
        AtMost.byte (uint-IsSemilattice.least _ _ _ _ h p q)
    Joins-least (Joins.field_tp h) (AtMost.field_tp p) (AtMost.field_tp q) =
        AtMost.field_tp ((field_tp-IsSemilattice m v).least _ _ _ _ h p q)
    Joins-least (Joins.int h) (AtMost.int p) (AtMost.int q) =
        AtMost.int (int-IsSemilattice.least _ _ _ _ h p q)
    Joins-least (Joins.int64 h) (AtMost.int64 p) (AtMost.int64 q) =
        AtMost.int64 (int-IsSemilattice.least _ _ _ _ h p q)
    Joins-least (Joins.uint h) (AtMost.uint p) (AtMost.uint q) =
        AtMost.uint (uint-IsSemilattice.least _ _ _ _ h p q)
    Joins-least (Joins.string_list h) (AtMost.string_list p) (AtMost.string_list q) =
        AtMost.string_list (string_list-IsSemilattice.least _ _ _ _ h p q)
    Joins-least Joins.nil_nil p q = p
    Joins-least Joins.nil_maybe p q = q
    Joins-least Joins.maybe_nil p q = p
    Joins-least (Joins.maybe h) (AtMost.maybe p) (AtMost.maybe q) = AtMost.maybe (Joins-least h p q)
    Joins-least (Joins.tuple hs) (AtMost.tuple ps) (AtMost.tuple qs) =
        AtMost.tuple (AllJoin-least hs ps qs)
    Joins-least (Joins.typ hs k) (AtMost.typ ps) (AtMost.typ qs) =
        AtMost.typ (AllJoin-least hs ps qs)

    AllJoin-least :
        {a b j c : Tuple} → AllJoin m a b j → AtMosts m a c → AtMosts m b c → AtMosts m j c
    AllJoin-least AllJoin.nil p q = p
    AllJoin-least (AllJoin.cons h hs) (AtMosts.cons p ps) (AtMosts.cons q qs) =
        AtMosts.cons (Joins-least h p q) (AllJoin-least hs ps qs)

  -- Where the tests of the parser accept MySQL's integer and blob types only, `Join` of two elements
  -- does not depend on their order, the errors aside: it succeeds in one order exactly when it
  -- succeeds in the other, with the same result.
  pub join_comm : (a b j : Lattice) → (join m a b ≡ ok j) ↔ (join m b a ≡ ok j)
  join_comm a b j = (
    λ h. Joins→join m b a j (Joins-comm (join→Joins m a b j h)),
    λ h. Joins→join m a b j (Joins-comm (join→Joins m b a j h)),
  )

  -- Where the tests of the parser accept MySQL's integer and blob types only and `Join` succeeds, its
  -- result is the least upper bound: both arguments compare at most to it, and it compares at most
  -- to every element that both compare at most to.
  pub join-IsLub :
      (a b j : Lattice)
      → join m a b ≡ ok j
      → Le (compare m a j)
        × Le (compare m b j)
        × ((c : Lattice) → Le (compare m a c) → Le (compare m b c) → Le (compare m j c))
  join-IsLub a b j h =
      let d = join→Joins m a b j h in
      (
        AtMost→compare m (Joins-upper d),
        AtMost→compare m (Joins-upper (Joins-comm d)),
        λ c p q. AtMost→compare m (Joins-least d (compare→AtMost m a c p) (compare→AtMost m b c q)),
      )
