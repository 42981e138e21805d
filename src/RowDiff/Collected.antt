-- ===== src/RowDiff/Collected.antt =====
-- How the fixes of `compareRows` are counted, and their statements collected.
use mathlib.Core.Path.{subst}
use mathlib.Core.List.{append-nil, append_assoc}
use tidb_tools.Prelude.{
  ℕ, ◌+◌, ◌≡◌, refl, sym, ◌∙◌, String, Bool, true, false, ◌&&◌, List, [], ◌∷◌, ◌++◌, arith,
}
use tidb_tools.RowDiff.Data.{Result, ok, ◌>>=◌, >>=-eq-ok}
use tidb_tools.RowDiff.Statements.{Fix, insert, delete, replace}
use tidb_tools.RowDiff.Merge.{Tally, recorded, counted}

pub ok-injective {ℓ} : {A : Type ℓ} {a b : A} → ok a ≡ ok b → a ≡ b
ok-injective h = cc

-- How many of the fixes bring a row of the upstream, and how many remove one of the downstream.
unfoldable pub adds : List Fix → ℕ
adds [] = 0
adds (insert u ∷ fs) = 1 + adds fs
adds (delete d ∷ fs) = adds fs
adds (replace u d ∷ fs) = 1 + adds fs

unfoldable pub removes : List Fix → ℕ
removes [] = 0
removes (insert u ∷ fs) = removes fs
removes (delete d ∷ fs) = 1 + removes fs
removes (replace u d ∷ fs) = 1 + removes fs

abbrev pub is_empty : List Fix → Bool
is_empty [] = true
is_empty (f ∷ fs) = false

counted_lem :
    (f : Fix) (fs : List Fix) (t : Tally)
    → ((counted f t).rows_add + adds fs ≡ t.rows_add + adds (f ∷ fs))
      × ((counted f t).rows_delete + removes fs ≡ t.rows_delete + removes (f ∷ fs))
      × (((counted f t).equal && is_empty fs) ≡ (t.equal && false))
unfolding adds removes
counted_lem (insert u) fs t = ground arith
counted_lem (delete d) fs t = ground arith
counted_lem (replace u d) fs t = ground arith

module _ (fix_sql : Fix → Result String) where
  -- the statements of the fixes, in their order
  unfoldable pub statements : List Fix → Result (List String)
  statements [] = ok []
  statements (f ∷ fs) = fix_sql f >>= λ s. statements fs >>= λ ss. ok (s ∷ ss)

  statements_cons :
      (f : Fix) (fs : List Fix) {s : String} {ss : List String}
      → fix_sql f ≡ ok s
      → statements fs ≡ ok ss
      → statements (f ∷ fs) ≡ ok (s ∷ ss)
  unfolding statements
  statements_cons f fs e h = ground arith

module _ (export_fix_sql : Bool) (fix_sql : Fix → Result String) where
  -- The fixes are recorded one after the other.
  abbrev pub Recorded : List Fix → Tally → Tally → Type 0
  Recorded [] t t' = t ≡ t'
  Recorded (f ∷ fs) t t' =
      (blank : List String) × (t1 : Tally) × (recorded export_fix_sql fix_sql blank f t ≡ ok t1)
      × Recorded fs t1 t'

-- Where they are exported, the texts are the statements of the fixes.
abbrev pub Stated : Bool → (Fix → Result String) → List Fix → List String → Type 0
Stated true fix_sql fs texts = statements fix_sql fs ≡ ok texts
Stated false fix_sql fs texts = Unit {0}

-- What the fixes make of the counts, the flag and the statements.
pub record Collected (export_fix_sql : Bool) (fix_sql : Fix → Result String) (fs : List Fix)
    (t t' : Tally) : Type 0 where
  pub added : t'.rows_add ≡ t.rows_add + adds fs
  pub removed : t'.rows_delete ≡ t.rows_delete + removes fs
  pub flag : t'.equal ≡ (t.equal && is_empty fs)
  pub texts : List String
  pub stated : Stated export_fix_sql fix_sql fs texts
  pub appended : t'.sqls ≡ t.sqls ++ texts

Collected-cons :
    (e : Bool) (fix_sql : Fix → Result String) (f : Fix) (fs : List Fix) (t t' : Tally)
    (new : List String)
    → (c : Collected e fix_sql fs (record (counted f t) { sqls = t.sqls ++ new }) t')
    → Stated e fix_sql (f ∷ fs) (new ++ c.texts)
    → Collected e fix_sql (f ∷ fs) t t'
Collected-cons e fix_sql f fs t t' new c stated =
    let (a, r, q) = counted_lem f fs t in
    record {
      added = c.added ∙ a;
      removed = c.removed ∙ r;
      flag = c.flag ∙ q;
      texts = new ++ c.texts;
      stated = stated;
      appended = c.appended ∙ append_assoc t.sqls new c.texts;
    }

recorded-Collected :
    (e : Bool) (fix_sql : Fix → Result String) (f : Fix) (fs : List Fix) (t t1 t' : Tally)
    (blank : List String)
    → recorded e fix_sql blank f t ≡ ok t1
    → Collected e fix_sql fs t1 t'
    → Collected e fix_sql (f ∷ fs) t t'
unfolding recorded
recorded-Collected true fix_sql f fs t t1 t' blank h c =
    let (s, e, g) = >>=-eq-ok (fix_sql f) _ h in
    let c' = subst (λ t2. Collected true fix_sql fs t2 t') (sym (ok-injective g)) c in
    Collected-cons true fix_sql f fs t t' (s ∷ []) c' (statements_cons fix_sql f fs e c'.stated)
recorded-Collected false fix_sql f fs t t1 t' blank h c =
    Collected-cons false fix_sql f fs t t' blank
      (subst (λ t2. Collected false fix_sql fs t2 t') (sym (ok-injective h)) c) tt

no_fixes-Stated : (e : Bool) (fix_sql : Fix → Result String) → Stated e fix_sql [] []
unfolding statements
no_fixes-Stated true fix_sql = refl
no_fixes-Stated false fix_sql = tt

pub Recorded-Collected :
    (e : Bool) (fix_sql : Fix → Result String) (fs : List Fix) (t t' : Tally)
    → Recorded e fix_sql fs t t'
    → Collected e fix_sql fs t t'
unfolding adds removes
Recorded-Collected e fix_sql [] t t' h = subst (Collected e fix_sql [] t) h (record {
  added = omega arith;
  removed = omega arith;
  flag = ground arith;
  texts = [];
  stated = no_fixes-Stated e fix_sql;
  appended = sym (append-nil t.sqls);
})
Recorded-Collected e fix_sql (f ∷ fs) t t' (blank, t1, h, r) =
    recorded-Collected e fix_sql f fs t t1 t' blank h (Recorded-Collected e fix_sql fs t1 t' r)
