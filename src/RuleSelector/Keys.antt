-- ===== src/RuleSelector/Keys.antt =====
-- The keys of the cache of pkg/table-rule-selector/trie_selector.go.
use tidb_tools.Prelude.{ℕ, ◌≡◌, ◌≢◌, refl, ◌∙◌, sym, ap₂, true, [], ◌∷◌, ◌++◌, ==_iff, arith, All}
use tidb_tools.RuleSelector.Pattern.{Bytes}
use tidb_tools.RuleSelector.Selector.{bytes_eq, quote_schema_table}

pub bytes_eq-eq : (a b : Bytes) → bytes_eq a b ≡ true → a ≡ b
bytes_eq-eq [] [] h = refl
bytes_eq-eq (x ∷ a) (y ∷ b) h =
    ap₂ (λ x xs. x ∷ xs) ((==_iff x y).0 (ground (arith, h))) (bytes_eq-eq a b (ground (arith, h)))
bytes_eq-eq [] (y ∷ b) h = cc
bytes_eq-eq (x ∷ a) [] h = cc

-- A name without a backquote.
abbrev pub IsPlain : Bytes → Type 0
IsPlain s = All (λ (c : ℕ). c ≢ b'`') s

before_backquote :
    (a b r s : Bytes) → IsPlain a → IsPlain b → a ++ b'`' ∷ r ≡ b ++ b'`' ∷ s → (a ≡ b) × (r ≡ s)
before_backquote [] [] r s p q h = (refl, cc)
before_backquote [] (y ∷ b) r s p q h = absurd (q.0 (cc))
before_backquote (x ∷ a) [] r s p q h = absurd (p.0 (cc))
before_backquote (x ∷ a) (y ∷ b) r s p q h =
    let (e, f) = before_backquote a b r s p.1 q.1 (cc) in (ap₂ (λ x xs. x ∷ xs) (cc) e, f)

-- What stands behind the schema and its backquote.
behind : Bytes → Bytes
behind [] = []
behind (c ∷ t) = b'.' ∷ b'`' ∷ ((c ∷ t) ++ b'`' ∷ [])

quote-behind : (s t : Bytes) → s ≢ [] → quote_schema_table s t ≡ b'`' ∷ (s ++ b'`' ∷ behind t)
unfolding quote_schema_table behind
quote-behind [] t n = absurd (n refl)
quote-behind (a ∷ s) [] n = refl
quote-behind (a ∷ s) (c ∷ t) n = refl

behind-inj : (t v : Bytes) → IsPlain t → IsPlain v → behind t ≡ behind v → t ≡ v
unfolding behind
behind-inj [] [] p q h = refl
behind-inj [] (d ∷ v) p q h = cc
behind-inj (c ∷ t) [] p q h = cc
behind-inj (c ∷ t) (d ∷ v) p q h = (before_backquote (c ∷ t) (d ∷ v) [] [] p q (cc)).0

-- Different pairs of names without backquotes have different keys, where both name a schema.
pub quote_schema_table-inj :
    (s t u v : Bytes)
    → s ≢ []
    → u ≢ []
    → IsPlain s
    → IsPlain t
    → IsPlain u
    → IsPlain v
    → quote_schema_table s t ≡ quote_schema_table u v
    → (s ≡ u) × (t ≡ v)
quote_schema_table-inj s t u v n m p q k l h =
    let e : b'`' ∷ (s ++ b'`' ∷ behind t) ≡ b'`' ∷ (u ++ b'`' ∷ behind v) =
      sym (quote-behind s t n) ∙ h ∙ quote-behind u v m in
    let (f, g) = before_backquote s u (behind t) (behind v) p k (cc) in (f, behind-inj t v q l g)
