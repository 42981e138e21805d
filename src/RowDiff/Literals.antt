-- ===== src/RowDiff/Literals.antt =====
-- How a database reads the text literals of the statements, with the backslash as its escape character
-- (not under NO_BACKSLASH_ESCAPES), against `escapeString`.
use Prim.Native.Char.{Char, code}
use text.Mathlib.TextLemmas.{nil-append, cons-append, append_assoc}
use tidb_tools.Prelude.{
  ap, ◌∙◌, ◌≡◌, refl, ◌==◌, ◌||◌, String, Bool, true, false, Option, none, some, if◌then◌else◌,
  arith, Bool-cases, inl, inr,
}
use tidb_tools.Prelude.Text.{◌+s◌}
use tidb_tools.RowDiff.Data.{Column, need_quotes, is_blob_type, is_binary_column}
use tidb_tools.RowDiff.Statements.{escape_string, literal}

abbrev before : Char → Option (String × String) → Option (String × String)
before c none = none
before c (some (s, rest)) = some (String.◌∷◌ c s, rest)

-- Where a reader stands in a literal: among its characters, behind a backslash, or behind a quote,
-- which ends the literal unless another quote follows.
pub data Place : Type 0 where
  within escaped quoted : Place

-- The text of a literal whose opening quote is read, and what stands behind its closing quote: `\\` and
-- `\'` stand for a backslash and a quote, and two quotes for a quote. `none` is an open literal, or
-- an escape of another character, which the statements do not have.
unfoldable pub read_text : Place → String → Option (String × String)
read_text quoted String.[] = some ("", "")
read_text within String.[] = none
read_text escaped String.[] = none
read_text within (String.◌∷◌ c s) =
    let after_quote = read_text quoted s in
    let after_backslash = read_text escaped s in
    let plain = before c (read_text within s) in
    if code c == 39 then after_quote else if code c == 92 then after_backslash else plain
read_text escaped (String.◌∷◌ c s) =
    let plain = before c (read_text within s) in
    if code c == 92 || code c == 39 then plain else none
read_text quoted (String.◌∷◌ c s) =
    let doubled = before c (read_text within s) in
    if code c == 39 then doubled else some ("", String.◌∷◌ c s)

unfoldable pub read_literal : String → Option (String × String)
read_literal String.[] = none
read_literal (String.◌∷◌ c s) = let text = read_text within s in if code c == 39 then text else none

abbrev pub starts_with_quote : String → Bool
starts_with_quote String.[] = false
starts_with_quote (String.◌∷◌ c s) = code c == 39

single-append : (c : Char) (s : String) → String.◌∷◌ c String.[] +s s ≡ String.◌∷◌ c s
single-append c s = rw (cons-append, nil-append) refl

quote_cons : (s : String) → "'" +s s ≡ String.◌∷◌ "'" s
quote_cons s = single-append "'" s

backslash_cons : (s : String) → "\\" +s s ≡ String.◌∷◌ "\\" s
backslash_cons s = single-append "\\" s

read_text-quoted :
    (rest : String) → starts_with_quote rest ≡ false → read_text quoted rest ≡ some ("", rest)
unfolding read_text
read_text-quoted String.[] h = refl
read_text-quoted (String.◌∷◌ c s) h = rw h refl

read_text-escape_string :
    (s rest : String)
    → starts_with_quote rest ≡ false
    → read_text within (escape_string s +s "'" +s rest) ≡ some (s, rest)
unfolding read_text escape_string
read_text-escape_string String.[] rest h =
    rw (nil-append, quote_cons rest) (read_text-quoted rest h)
read_text-escape_string (String.◌∷◌ c s) rest h = elim (Bool-cases (code c == 92 || code c == 39)) [
  | inl special ↦
      rw (special, backslash_cons, cons-append, cons-append)
        (rw (special, read_text-escape_string s rest h) refl)
  | inr other ↦ rw (other, cons-append) (ground (arith, read_text-escape_string s rest h))
]

-- The literal that a statement has for a text of a column that is neither a number nor binary reads
-- back as this text, and ends at its own closing quote, whatever stands behind it but another quote.
pub read_literal-literal :
    (c : Column) (s rest : String)
    → need_quotes c.tp ≡ true
    → (is_blob_type c.tp || is_binary_column c) ≡ false
    → starts_with_quote rest ≡ false
    → read_literal (literal c s +s rest) ≡ some (s, rest)
unfolding literal read_literal
read_literal-literal c s rest q n h =
    rw (q, n, ◌+s◌)
      (rw (quote_cons, cons-append)
        (ap (read_text within) (append_assoc (escape_string s) "'" rest)
          ∙ read_text-escape_string s rest h))
