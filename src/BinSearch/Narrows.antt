-- ===== src/BinSearch/Narrows.antt =====
-- `binSearch` ends, and leaves out only halves whose checksums are equal.
use tidb_tools.Prelude.{
  ◌∙◌, ap, ℕ, zero, suc, ◌+◌, ◌<◌, ◌≡◌, refl, ◌⊎◌, inl, inr, String, Bool, true, false, List, [],
  ◌∷◌, Option, none, some, leb, Bool-cases, arith,
}
use tidb_tools.Prelude.Dict.{Dict}
use tidb_tools.BinSearch.{
  ◌>>=◌, RangeInfo, Outcome, done, failed, fatal, panics, Databases, copy, Halved, returns, goes_on,
  ChecksumInfo, counted, no_answer, same_checksums, choose, compare_checksum_and_get_count,
  set_bounds, halve, halve_at, searched, bin_search, Index, columns_to_split, search_by,
  bin_generate,
}

-- A search goes from a range with its count to one of its halves.
record Chosen (r1 r2 : RangeInfo) (count : ℕ) (a b : Bool × ℕ × ℕ) (r' : RangeInfo) (n' : ℕ)
    : Type 0 where
  total : a.1 + b.1 ≡ count
  smaller : n' < count
  half :
      ((r' ≡ r1) × (n' ≡ a.1) × (a.0 ≡ false) × (b.0 ≡ true))
      ⊎ ((r' ≡ r2) × (n' ≡ b.1) × (b.0 ≡ false) × (a.0 ≡ true))

choose-Chosen :
    (r r1 r2 r' : RangeInfo) (count n' : ℕ) (a b : Bool × ℕ × ℕ)
    → choose r r1 r2 count a b ≡ done (goes_on r' n')
    → Chosen r1 r2 count a b r' n'
unfolding choose
choose-Chosen r r1 r2 r' count n' (true, c1, d1) (true, c2, d2) h = ground arith
choose-Chosen r r1 r2 r' count n' (true, c1, d1) (false, c2, d2) h = record {
  total = ground arith;
  smaller = ground arith;
  half = inr (ground arith, ground arith, refl, refl);
}
choose-Chosen r r1 r2 r' count n' (false, c1, d1) (true, c2, d2) h = record {
  total = ground arith;
  smaller = ground arith;
  half = inl (ground arith, ground arith, refl, refl);
}
choose-Chosen r r1 r2 r' count n' (false, c1, d1) (false, c2, d2) h = ground arith

choose-returns :
    (r r1 r2 r' : RangeInfo) (count : ℕ) (a b : Bool × ℕ × ℕ)
    → choose r r1 r2 count a b ≡ done (returns r')
    → r' ≡ r
unfolding choose
choose-returns r r1 r2 r' count (e1, c1, d1) (e2, c2, d2) h = ground arith

bind-done :
    {A B : Type 0} (call : Outcome A) (rest : A → Outcome B) {b : B}
    → (call >>= rest) ≡ done b
    → (a : A) × (call ≡ done a) × (rest a ≡ done b)
bind-done (done a) rest h = (a, refl, h)
bind-done failed rest h = cc
bind-done fatal rest h = cc
bind-done panics rest h = cc

-- Both sides have answered with this count and one checksum.
abbrev Agree : ChecksumInfo → ChecksumInfo → ℕ → Type 0
Agree upstream downstream count =
    (checksum : ℕ) × (upstream ≡ counted count checksum) × (downstream ≡ counted count checksum)

-- Both sides have answered, the upstream with this count, and the counts or the checksums differ.
abbrev Differ : ChecksumInfo → ChecksumInfo → ℕ → Type 0
Differ upstream downstream count =
    (checksum downstream_count downstream_checksum : ℕ) × (upstream ≡ counted count checksum)
    × (downstream ≡ counted downstream_count downstream_checksum)
    × ¬ ((count ≡ downstream_count) × (checksum ≡ downstream_checksum))

same_checksums-Agree :
    (i j : ChecksumInfo) (n m : ℕ) → same_checksums i j ≡ done (true, n, m) → Agree i j n
same_checksums-Agree (counted c s) (counted d t) n m h = (s, ground arith, ground arith)
same_checksums-Agree (counted c s) no_answer n m h = cc
same_checksums-Agree no_answer j n m h = cc

same_checksums-Differ :
    (i j : ChecksumInfo) (n m : ℕ) → same_checksums i j ≡ done (false, n, m) → Differ i j n
same_checksums-Differ (counted c s) (counted d t) n m h =
    (s, d, t, ground arith, refl, λ e. ground arith)
same_checksums-Differ (counted c s) no_answer n m h = cc
same_checksums-Differ no_answer j n m h = cc

module _ (db : Databases) (threshold : ℕ) (collation limits : String)
    (index_columns : List String) where
  -- The two halves of a range at the values of a row.
  abbrev Halves : RangeInfo → RangeInfo → RangeInfo → Type 0
  Halves r r1 r2 =
      (mid_values : Dict String) × (set_bounds collation limits mid_values index_columns (copy r)
          (copy r)
        ≡ done (r1, r2))

  abbrev Equal : RangeInfo → ℕ → Type 0
  Equal r count = Agree (db.upstream_checksum r) (db.downstream_checksum r) count

  abbrev Unequal : RangeInfo → ℕ → Type 0
  Unequal r count = Differ (db.upstream_checksum r) (db.downstream_checksum r) count

  equal_lem :
      (r : RangeInfo) (n m : ℕ)
      → compare_checksum_and_get_count db r ≡ done (true, n, m)
      → Equal r n
  unfolding compare_checksum_and_get_count
  equal_lem r n m h = same_checksums-Agree (db.upstream_checksum r) (db.downstream_checksum r) n m h

  unequal_lem :
      (r : RangeInfo) (n m : ℕ)
      → compare_checksum_and_get_count db r ≡ done (false, n, m)
      → Unequal r n
  unfolding compare_checksum_and_get_count
  unequal_lem r n m h =
      same_checksums-Differ (db.upstream_checksum r) (db.downstream_checksum r) n m h

  -- A range comes from another by halving: the half that is left out has equal checksums, and that
  -- of the one that is kept differ. The counts of the two make that of the whole.
  pub data Narrowed : RangeInfo → ℕ → RangeInfo → Type 0 where
    stays : {r : RangeInfo} {n : ℕ} → Narrowed r n r
    first_half :
        {r r1 r2 r' : RangeInfo} {n n1 n2 : ℕ}
        → Halves r r1 r2
        → Unequal r1 n1
        → Equal r2 n2
        → n1 + n2 ≡ n
        → Narrowed r1 n1 r'
        → Narrowed r n r'
    second_half :
        {r r1 r2 r' : RangeInfo} {n n1 n2 : ℕ}
        → Halves r r1 r2
        → Equal r1 n1
        → Unequal r2 n2
        → n1 + n2 ≡ n
        → Narrowed r2 n2 r'
        → Narrowed r n r'

  abbrev pub Ends : RangeInfo → ℕ → Outcome RangeInfo → Type 0
  Ends r n (done r') = Narrowed r n r'
  Ends r n failed = Unit {0}
  Ends r n fatal = Unit {0}
  Ends r n panics = Unit {0}

  abbrev pub Ended : RangeInfo → ℕ → Option (Outcome RangeInfo) → Type 0
  Ended r n none = ⊥
  Ended r n (some o) = Ends r n o

  abbrev Goes : RangeInfo → ℕ → Halved → Type 0
  Goes r n (returns r') = r' ≡ r
  Goes r n (goes_on r' n') =
      (n' < n) × ((o : Option (Outcome RangeInfo)) → Ended r' n' o → Ended r n o)

  Ended-first :
      (r r1 r2 : RangeInfo) (n n1 n2 : ℕ)
      → Halves r r1 r2
      → Unequal r1 n1
      → Equal r2 n2
      → n1 + n2 ≡ n
      → (o : Option (Outcome RangeInfo)) → Ended r1 n1 o
      → Ended r n o
  Ended-first r r1 r2 n n1 n2 h a b e (some (done r')) w = Narrowed.first_half h a b e w
  Ended-first r r1 r2 n n1 n2 h a b e (some failed) w = tt
  Ended-first r r1 r2 n n1 n2 h a b e (some fatal) w = tt
  Ended-first r r1 r2 n n1 n2 h a b e (some panics) w = tt
  Ended-first r r1 r2 n n1 n2 h a b e none w = absurd w

  Ended-second :
      (r r1 r2 : RangeInfo) (n n1 n2 : ℕ)
      → Halves r r1 r2
      → Equal r1 n1
      → Unequal r2 n2
      → n1 + n2 ≡ n
      → (o : Option (Outcome RangeInfo)) → Ended r2 n2 o
      → Ended r n o
  Ended-second r r1 r2 n n1 n2 h a b e (some (done r')) w = Narrowed.second_half h a b e w
  Ended-second r r1 r2 n n1 n2 h a b e (some failed) w = tt
  Ended-second r r1 r2 n n1 n2 h a b e (some fatal) w = tt
  Ended-second r r1 r2 n n1 n2 h a b e (some panics) w = tt
  Ended-second r r1 r2 n n1 n2 h a b e none w = absurd w

  Chosen-Goes :
      (r r1 r2 r' : RangeInfo) (n n' : ℕ) (a b : Bool × ℕ × ℕ)
      → Halves r r1 r2
      → compare_checksum_and_get_count db r1 ≡ done a
      → compare_checksum_and_get_count db r2 ≡ done b
      → Chosen r1 r2 n a b r' n'
      → Goes r n (goes_on r' n')
  Chosen-Goes r r1 r2 r' n n' (e1, c1, d1) (e2, c2, d2) h p q c = (
    c.smaller,
    elim (c.half) [
      | inl (er, en, f, t) ↦ λ o w.
          Ended-first r r1 r2 n c1 c2 h (unequal_lem r1 c1 d1 (p ∙ ap (λ e. done (e, c1, d1)) f))
            (equal_lem r2 c2 d2 (q ∙ ap (λ e. done (e, c2, d2)) t)) c.total o (rw (← er, ← en) w)
      | inr (er, en, f, t) ↦ λ o w.
          Ended-second r r1 r2 n c1 c2 h (equal_lem r1 c1 d1 (p ∙ ap (λ e. done (e, c1, d1)) t))
            (unequal_lem r2 c2 d2 (q ∙ ap (λ e. done (e, c2, d2)) f)) c.total o (rw (← er, ← en) w)
    ],
  )

  chosen-Goes :
      (r r1 r2 : RangeInfo) (n : ℕ) (a b : Bool × ℕ × ℕ) (next : Halved)
      → Halves r r1 r2
      → compare_checksum_and_get_count db r1 ≡ done a
      → compare_checksum_and_get_count db r2 ≡ done b
      → choose r r1 r2 n a b ≡ done next
      → Goes r n next
  chosen-Goes r r1 r2 n a b (returns r') h p q e = choose-returns r r1 r2 r' n a b e
  chosen-Goes r r1 r2 n a b (goes_on r' n') h p q e =
      Chosen-Goes r r1 r2 r' n n' a b h p q (choose-Chosen r r1 r2 r' n n' a b e)

  halve_at-Goes :
      (r : RangeInfo) (n : ℕ) (mid : Option (Dict String)) (next : Halved)
      → halve_at db threshold collation limits index_columns r n mid ≡ done next
      → Goes r n next
  halve_at-Goes r n none (returns r') h = ground arith
  halve_at-Goes r n none (goes_on r' n') h = ground arith
  halve_at-Goes r n (some mid_values) next h =
      let (halves, s, h1) =
        bind-done (set_bounds collation limits mid_values index_columns (copy r) (copy r)) _ h in
      let (a, p, h2) = bind-done (compare_checksum_and_get_count db halves.0) _ h1 in
      let (b, q, h3) = bind-done (compare_checksum_and_get_count db halves.1) _ h2 in
      chosen-Goes r halves.0 halves.1 n a b next (mid_values, s) p q h3

  halve-Goes :
      (r : RangeInfo) (n : ℕ) (next : Halved)
      → halve db threshold collation limits index_columns r n ≡ done next
      → Goes r n next
  unfolding halve
  halve-Goes r n next h =
      let (mid, m, h1) =
        bind-done (db.approximate_mid _ _ n)
          (halve_at db threshold collation limits index_columns r n) h in
      halve_at-Goes r n mid next h1

  searched-Ended :
      (fuel : ℕ) (r : RangeInfo) (n : ℕ) (next : Outcome Halved)
      → n < suc fuel
      → ((r' : RangeInfo) (n' : ℕ)
          → n' < fuel
          → Ended r' n' (bin_search db threshold collation limits index_columns fuel r' n'))
      → ((h : Halved) → next ≡ done h → Goes r n h)
      → Ended r n (
          searched db threshold collation limits index_columns
            (bin_search db threshold collation limits index_columns fuel)
            next)
  searched-Ended fuel r n (done (returns r')) lt again goes =
      rw (goes (returns r') refl) Narrowed.stays
  searched-Ended fuel r n (done (goes_on r' n')) lt again goes =
      let (less, carry) = goes (goes_on r' n') refl in carry _ (again r' n' (omega arith))
  searched-Ended fuel r n failed lt again goes = tt
  searched-Ended fuel r n fatal lt again goes = tt
  searched-Ended fuel r n panics lt again goes = tt

  -- The search ends with more fuel than the count of the rows, and narrows the range.
  bin_search-Ended :
      (fuel : ℕ) (r : RangeInfo) (count : ℕ)
      → count < fuel
      → Ended r count (bin_search db threshold collation limits index_columns fuel r count)
  unfolding bin_search
  bin_search-Ended zero r count lt = elim lt [ ]
  bin_search-Ended (suc fuel) r count lt = elim (Bool-cases (leb count threshold)) [
    | inl few ↦ rw few Narrowed.stays
    | inr many ↦ rw many (
        searched-Ended fuel r count (halve db threshold collation limits index_columns r count) lt
          (bin_search-Ended fuel) (halve-Goes r count))
  ]

module _ (db : Databases) (threshold : ℕ) (collation limits : String) where
  search_by-Ended :
      (columns : List String) (fuel : ℕ) (r : RangeInfo) (count : ℕ)
      → count < fuel
      → Ended db threshold collation limits columns r count
          (search_by db threshold collation limits columns fuel r count)
  search_by-Ended [] fuel r count lt = Narrowed.stays
  search_by-Ended (c ∷ columns) fuel r count lt =
      bin_search-Ended db threshold collation limits (c ∷ columns) fuel r count lt

  -- `BinGenerate` ends with more fuel than the count of the rows. Where it returns a range, this is
  -- the given one, or comes from it by halving at the columns of its index, again and again: for each
  -- half that is left out the databases have answered with the same count and the same checksum on
  -- both sides, for the half that is kept with counts or checksums that differ, and the upstream counts
  -- of the two make that of the whole.
  pub bin_generate-Ended :
      (indices : List Index) (fuel : ℕ) (r : RangeInfo) (count : ℕ)
      → count < fuel
      → Ended db threshold collation limits
          (columns_to_split r.index_id indices)
          r
          count
          (bin_generate db threshold collation limits indices fuel r count)
  unfolding bin_generate
  bin_generate-Ended indices fuel r count lt = elim (Bool-cases (leb count threshold)) [
    | inl few ↦ rw few Narrowed.stays
    | inr many ↦ rw many (search_by-Ended (columns_to_split r.index_id indices) fuel r count lt)
  ]
