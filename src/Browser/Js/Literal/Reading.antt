-- ===== src/Browser/Js/Literal/Reading.antt =====
-- The literals of js_string read back.
use mathlib.Core.List.{append_assoc, append-nil}
use pje_headless.Base.{
  ℕ, ◌+◌, ◌*◌, ◌/◌, ◌%◌, ◌<◌, ◌≡◌, ◌∙◌, ap, true, false, Bool-cases, Option-cases, inl, inr, none,
  some, [], ◌∷◌, ◌++◌, Text, codes, arith,
}
use pje_headless.Browser.Js.Literal.{
  hex, letter, separator, escape_long, escape, escape_all, js_string, is_hidden, plain, escaped,
  adds, digit, move, read, read_literal,
}

digit-hex : (n : ℕ) → n < 16 → digit (hex n) ≡ some n
unfolding digit hex
digit-hex n h = ground arith

zero_add : (a : ℕ) → 0 + a ≡ a
zero_add a = omega arith

-- Two digits behind `\u00`.
read_hidden :
    (a b : ℕ) (s out : Text)
    → a < 16
    → b < 16
    → read plain out (codes "\\u00" ++ hex a ∷ hex b ∷ s) ≡ read plain (out ++ (a * 16 + b) ∷ []) s
unfolding read move
read_hidden a b s out ha hb =
    rw (digit-hex a ha, digit-hex b hb)
      (ap (λ d. read plain (out ++ (d * 16 + b) ∷ []) s) (zero_add a))

read_last :
    (b : ℕ) (s out : Text)
    → b < 16
    → read plain out (codes "\\u202" ++ hex b ∷ s) ≡ read plain (out ++ (0x2020 + b) ∷ []) s
unfolding read move
read_last b s out hb = rw (digit-hex b hb)

-- A character that needs no escape.
read_kept :
    (c : ℕ) (s out : Text)
    → letter c ≡ none
    → separator c ≡ false
    → read plain out (c ∷ s) ≡ read plain (out ++ c ∷ []) s
unfolding read move letter
read_kept c s out h l = ground arith

move-letter : (c l : ℕ) → letter c ≡ some l → move escaped l ≡ adds c
unfolding move letter
move-letter c l h = ground arith

read_escaped :
    (c l : ℕ) (s out : Text)
    → letter c ≡ some l
    → read plain out (b'\\' ∷ l ∷ s) ≡ read plain (out ++ c ∷ []) s
unfolding read
read_escaped c l s out h = rw (move-letter c l h)

nibbles : (c : ℕ) → (c % 16 < 16) × (c / 16 * 16 + c % 16 ≡ c)
nibbles c = (omega arith, omega arith)

hidden-small : (c : ℕ) → is_hidden c ≡ true → c / 16 < 16
hidden-small c h = ground arith

separator_value : (c : ℕ) → separator c ≡ true → 0x2020 + c % 16 ≡ c
separator_value c h = ground arith

read-escape_long :
    (c : ℕ) (s out : Text)
    → letter c ≡ none
    → read plain out (escape_long c ++ s) ≡ read plain (out ++ c ∷ []) s
unfolding escape_long
read-escape_long c s out h = elim (Bool-cases (is_hidden c)) [
  | inl hidden ↦ rw hidden (
      read_hidden (c / 16) (c % 16) s out (hidden-small c hidden) (nibbles c).0
      ∙ ap (λ d. read plain (out ++ d ∷ []) s) (nibbles c).1)
  | inr shown ↦ elim (Bool-cases (separator c)) [
    | inl sep ↦
        rw (shown, sep)
          (read_last (c % 16) s out (nibbles c).0
            ∙ ap (λ d. read plain (out ++ d ∷ []) s) (separator_value c sep))
    | inr kept ↦ rw (shown, kept) (read_kept c s out h kept)
  ]
]

-- One escaped character is read as the character.
read-escape : (c : ℕ) (s out : Text) → read plain out (escape c ++ s) ≡ read plain (out ++ c ∷ []) s
unfolding escape
read-escape c s out = elim (Option-cases (letter c)) [
  | inl h ↦ rw h (read-escape_long c s out h)
  | inr (l, h) ↦ rw h (read_escaped c l s out h)
]

read-escape_all :
    (s rest out : Text) → read plain out (escape_all s ++ rest) ≡ some (out ++ s, rest)
unfolding escape_all read move
read-escape_all [] rest out = rw append-nil
read-escape_all (c ∷ s) rest out =
    simp (
      append_assoc,
      read-escape c (escape_all s ++ rest) out,
      read-escape_all s rest (out ++ c ∷ []),
    )

-- The literal that jsString writes for a string, with any text behind it, is read as that string: it
-- ends at its own closing quote, whatever quotes, backslashes, line ends or tags the string holds.
pub read_literal-js_string : (s rest : Text) → read_literal (js_string s ++ rest) ≡ some (s, rest)
unfolding read_literal js_string
read_literal-js_string s rest = read-escape_all s rest []
