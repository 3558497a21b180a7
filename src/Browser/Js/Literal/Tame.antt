-- ===== src/Browser/Js/Literal/Tame.antt =====
-- The characters of the literals that js_string writes.
use pje_headless.Base.{
  ℕ, ◌/◌, ◌%◌, ◌<◌, ◌≡◌, refl, true, false, Bool-cases, Option-cases, inl, inr, some, [], ◌∷◌, Text,
  codes, arith, All, All-append,
}
use pje_headless.Browser.Js.Literal.{
  hex, letter, separator, is_hidden, escape_long, escape, escape_all, js_string,
}

-- A character that neither ends a line, in any edition of JavaScript, nor means anything to html.
abbrev pub Tame : ℕ → Type 0
Tame c = (is_hidden c ≡ false) × (separator c ≡ false)

hex-Tame : (n : ℕ) → n < 16 → Tame (hex n)
unfolding hex
hex-Tame n h = ground arith

letter-Tame : (c l : ℕ) → letter c ≡ some l → Tame l
unfolding letter
letter-Tame c l h = ground arith

hidden_half : (c : ℕ) → is_hidden c ≡ true → c / 16 < 16
hidden_half c h = ground arith

last_half : (c : ℕ) → c % 16 < 16
last_half c = omega arith

zeros-Tame : All Tame (codes "\\u00")
zeros-Tame = ((refl, refl), ((refl, refl), ((refl, refl), ((refl, refl), tt))))

line-Tame : All Tame (codes "\\u202")
line-Tame = ((refl, refl), ((refl, refl), ((refl, refl), ((refl, refl), ((refl, refl), tt)))))

escape_long-Tame : (c : ℕ) → All Tame (escape_long c)
unfolding escape_long
escape_long-Tame c = elim (Bool-cases (is_hidden c)) [
  | inl hidden ↦ rw hidden (
      All-append Tame (codes "\\u00") (hex (c / 16) ∷ hex (c % 16) ∷ []) zeros-Tame
        (hex-Tame (c / 16) (hidden_half c hidden), (hex-Tame (c % 16) (last_half c), tt)))
  | inr shown ↦ elim (Bool-cases (separator c)) [
    | inl sep ↦
        rw (shown, sep)
          (All-append Tame (codes "\\u202") (hex (c % 16) ∷ []) line-Tame
            (hex-Tame (c % 16) (last_half c), tt))
    | inr kept ↦ rw (shown, kept) ((shown, kept), tt)
  ]
]

escape-Tame : (c : ℕ) → All Tame (escape c)
unfolding escape
escape-Tame c = elim (Option-cases (letter c)) [
  | inl h ↦ rw h (escape_long-Tame c)
  | inr (l, h) ↦ rw h ((refl, refl), (letter-Tame c l h, tt))
]

escape_all-Tame : (s : Text) → All Tame (escape_all s)
unfolding escape_all
escape_all-Tame [] = ((refl, refl), tt)
escape_all-Tame (c ∷ s) =
    All-append Tame (escape c) (escape_all s) (escape-Tame c) (escape_all-Tame s)

-- No character of the literal that jsString writes is below 0x20, is `<`, `>` or `&`, or is one of the
-- line separators U+2028 and U+2029.
js_string-Tame : (s : Text) → All Tame (js_string s)
unfolding js_string
js_string-Tame s = ((refl, refl), escape_all-Tame s)
