-- ===== src/Prelude/Text.antt =====
-- What the program uses of Go's package `strings`, on texts of the native type.
use Prim.Native.Char.{Char, code}
use Prim.Native.String
use Prim.Native.String.{char_at}
use tidb_tools.Prelude.{
  ℕ, ◌+◌, ◌-◌, ◌/◌, ◌%◌, String, List, [], ◌∷◌, ◌++◌, ◌&&◌, leb, ltb, ◌==◌, if◌then◌else◌,
}

infixr 65 ◌+s◌
-- Go's `+` on strings.
abbrev pub ◌+s◌ : String → String → String
a +s b = String.◌++◌ a b

-- `strings.Join`
unfoldable pub join : List String → String → String
join [] sep = ""
join (s ∷ []) sep = s
join (s ∷ t ∷ rest) sep = s +s sep +s join (t ∷ rest) sep

-- The letters A to Z; other capital letters are left as they are.
unfoldable pub to_lower_char : Char → Char
to_lower_char c =
    if leb 65 (code c) && leb (code c) 90
    then char_at "abcdefghijklmnopqrstuvwxyz" (code c - 65)
    else c

-- `strings.ToLower` on ASCII text
unfoldable pub to_lower : String → String
unfolding to_lower_char
to_lower String.[] = String.[]
to_lower (String.◌∷◌ c s) = String.◌∷◌ (to_lower_char c) (to_lower s)

-- `strings.Replace(s, "`", "``", -1)`
unfoldable pub replace_backquote : String → String
replace_backquote String.[] = String.[]
replace_backquote (String.◌∷◌ c s) =
    if code c == 96
    then String.◌∷◌ c (String.◌∷◌ c (replace_backquote s))
    else String.◌∷◌ c (replace_backquote s)

-- The bytes of a text: Go's strings hold UTF-8.
unfoldable pub utf8 : ℕ → List ℕ
utf8 c =
    if ltb c 0x80
    then c ∷ []
    else if ltb c 0x800
    then (0xC0 + c / 64) ∷ (0x80 + c % 64) ∷ []
    else if ltb c 0x10000
    then (0xE0 + c / 4096) ∷ (0x80 + c / 64 % 64) ∷ (0x80 + c % 64) ∷ []
    else (0xF0 + c / 262144) ∷ (0x80 + c / 4096 % 64) ∷ (0x80 + c / 64 % 64) ∷ (0x80 + c % 64) ∷ []

unfoldable pub bytes : String → List ℕ
unfolding utf8
bytes String.[] = []
bytes (String.◌∷◌ c s) = utf8 (code c) ++ bytes s
