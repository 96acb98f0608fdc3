-- ===== src/Texts.antt =====
-- The functions of Go's strings and html packages that the handlers apply to bodies, names and
-- descriptions, on code points: strings.TrimSpace and html.EscapeString.
use woongkie_talkie.Base.{
  ℕ, ◌*◌, ◌≤◌, ◌≢◌, Bool, ◌&&◌, ◌||◌, [], ◌∷◌, ◌++◌, eqb, leb, if◌then◌else◌, length, length-append,
  All, All-append, arith,
}
use woongkie_talkie.Chat.{Text, codes}

-- unicode.IsSpace
unfoldable pub is_space : ℕ → Bool
is_space c =
    (leb 9 c && leb c 13)
    || eqb c 32
    || eqb c 0x85
    || eqb c 0xa0
    || eqb c 0x1680
    || (leb 0x2000 c && leb c 0x200a)
    || eqb c 0x2028
    || eqb c 0x2029
    || eqb c 0x202f
    || eqb c 0x205f
    || eqb c 0x3000

unfoldable pub trim_left : Text → Text
trim_left [] = []
trim_left (c ∷ s) = let rest = trim_left s in if is_space c then rest else c ∷ s

-- A code point in front of a trimmed text.
abbrev cut : ℕ → Text → Text
cut c [] = if is_space c then [] else c ∷ []
cut c (d ∷ r) = c ∷ d ∷ r

-- The text up to its last code point that is no space.
unfoldable pub trim_right : Text → Text
trim_right [] = []
trim_right (c ∷ s) = cut c (trim_right s)

unfoldable pub trim_space : Text → Text
unfolding trim_left trim_right
trim_space s = trim_right (trim_left s)

-- One code point of html.EscapeString.
unfoldable pub escape_char : ℕ → Text
escape_char c =
    if eqb c b'&'
    then codes "&amp;"
    else if eqb c 39
    then codes "&#39;"
    else if eqb c b'<'
    then codes "&lt;"
    else if eqb c b'>'
    then codes "&gt;"
    else if eqb c b'"'
    then codes "&#34;"
    else c ∷ []

unfoldable pub escape_string : Text → Text
unfolding escape_char
escape_string [] = []
escape_string (c ∷ s) = escape_char c ++ escape_string s

-- A code point that opens no tag and ends no attribute.
abbrev pub IsInert : ℕ → Type 0
IsInert c = (c ≢ b'<') × (c ≢ b'>') × (c ≢ b'"') × (c ≢ 39)

escape_char-IsInert : (c : ℕ) → All IsInert (escape_char c)
unfolding escape_char
escape_char-IsInert c = ground arith

-- An escaped text holds no <, >, " and '.
pub escape_string-IsInert : (s : Text) → All IsInert (escape_string s)
unfolding escape_string
escape_string-IsInert [] = tt
escape_string-IsInert (c ∷ s) =
    All-append IsInert (escape_char c) (escape_string s) (escape_char-IsInert c)
      (escape_string-IsInert s)

length-escape_char-le : (c : ℕ) → length (escape_char c) ≤ 5
unfolding escape_char
length-escape_char-le c = ground arith

-- Escaping makes a text at most five times as long.
pub length-escape_string-le : (s : Text) → length (escape_string s) ≤ 5 * length s
unfolding escape_string
length-escape_string-le [] = omega arith
length-escape_string-le (c ∷ s) = omega (
  arith,
  length-append (escape_char c) (escape_string s),
  length-escape_char-le c,
  length-escape_string-le s,
)
