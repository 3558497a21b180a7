-- ===== src/Browser/Js/Literal.antt =====
-- jsString of internal/browser/jsstring.go: json.Marshal of a string, and a reader of the double-quoted
-- string literals of JavaScript. The reader refuses all four line terminators, as every edition of
-- the language did before U+2028 and U+2029 were let in, and the escapes `\x`, `\u{` and of digits.
pub mod Reading
pub mod Tame
use pje_headless.Base.{
  ℕ, zero, suc, ◌+◌, ◌-◌, ◌*◌, ◌/◌, ◌%◌, ◌<◌, ◌≡◌, refl, ◌||◌, ◌&&◌, leb, ltb, ◌==◌, Bool, true,
  false, if◌then◌else◌, Option, none, some, List, [], ◌∷◌, ◌++◌, Text, codes, arith,
}

-- A lower-case hexadecimal digit.
unfoldable pub hex : ℕ → ℕ
hex n = if ltb n 10 then b'0' + n else b'a' + (n - 10)

-- The letter behind the backslash, for a character with a short escape.
unfoldable pub letter : ℕ → Option ℕ
letter c =
    if c == b'"' || c == b'\\'
    then some c
    else if c == 8
    then some b'b'
    else if c == 9
    then some b't'
    else if c == 10
    then some b'n'
    else if c == 12
    then some b'f'
    else if c == 13
    then some b'r'
    else none

-- The characters below 0x20, and those that html knows: json.Marshal writes them as `\u00..`.
abbrev pub is_hidden : ℕ → Bool
is_hidden c = ltb c 0x20 || c == b'<' || c == b'>' || c == b'&'

-- What json.Marshal writes for one character.
abbrev with_letter : Option ℕ → Text → Text
with_letter (some l) long = b'\\' ∷ l ∷ []
with_letter none long = long

abbrev pub separator : ℕ → Bool
separator c = c == 0x2028 || c == 0x2029

unfoldable pub escape_long : ℕ → Text
unfolding hex
escape_long c =
    if is_hidden c
    then codes "\\u00" ++ hex (c / 16) ∷ hex (c % 16) ∷ []
    else if separator c
    then codes "\\u202" ++ hex (c % 16) ∷ []
    else c ∷ []

unfoldable pub escape : ℕ → Text
unfolding letter escape_long
escape c = with_letter (letter c) (escape_long c)

-- The characters of a text, and the closing quote.
unfoldable pub escape_all : Text → Text
unfolding escape
escape_all [] = b'"' ∷ []
escape_all (c ∷ s) = escape c ++ escape_all s

unfoldable pub js_string : Text → Text
unfolding escape_all
js_string s = b'"' ∷ escape_all s

-- Where a reader stands inside a literal: before a character, behind a backslash, or in `\u` with so
-- many digits to come and the number so far.
pub data Place : Type 0 where
  plain escaped : Place
  in_hex : ℕ → ℕ → Place

-- What one character does.
pub data Move : Type 0 where
  closed refused : Move
  goes : Place → Move
  adds : ℕ → Move

unfoldable pub digit : ℕ → Option ℕ
digit c =
    if leb b'0' c && leb c b'9'
    then some (c - b'0')
    else if leb b'a' c && leb c b'f'
    then some (c - b'a' + 10)
    else if leb b'A' c && leb c b'F'
    then some (c - b'A' + 10)
    else none

abbrev is_line_end : ℕ → Bool
is_line_end c = c == 10 || c == 13 || c == 0x2028 || c == 0x2029

abbrev hex_move : ℕ → ℕ → Option ℕ → Move
hex_move left value none = refused
hex_move zero value (some d) = adds (value * 16 + d)
hex_move (suc left) value (some d) = goes (in_hex left (value * 16 + d))

unfoldable pub move : Place → ℕ → Move
unfolding digit
move plain c =
    if c == b'"'
    then closed
    else if c == b'\\'
    then goes escaped
    else if is_line_end c
    then refused
    else adds c
move escaped c =
    if c == b'u'
    then goes (in_hex 3 0)
    else if c == b'x' || is_line_end c || (leb b'0' c && leb c b'9')
    then refused
    else if c == b'b'
    then adds 8
    else if c == b't'
    then adds 9
    else if c == b'n'
    then adds 10
    else if c == b'v'
    then adds 11
    else if c == b'f'
    then adds 12
    else if c == b'r'
    then adds 13
    else adds c
move (in_hex left value) c = hex_move left value (digit c)

abbrev pub follow :
    Move → Text → Text → (Place → Text → Option (Text × Text)) → Option (Text × Text)
follow closed out rest next = some (out, rest)
follow refused out rest next = none
follow (goes at) out rest next = next at out
follow (adds c) out rest next = next plain (out ++ c ∷ [])

-- The value of a literal behind its opening quote, and what stands after it.
unfoldable pub read : Place → Text → Text → Option (Text × Text)
unfolding move
read at out [] = none
read at out (c ∷ s) = follow (move at c) out s (λ at' out'. read at' out' s)

unfoldable pub read_literal : Text → Option (Text × Text)
unfolding read
read_literal [] = none
read_literal (c ∷ s) = let value = read plain [] s in if c == b'"' then value else none
