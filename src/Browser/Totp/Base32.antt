-- ===== src/Browser/Totp/Base32.antt =====
-- The base32 of the standard library writes texts that normalizing leaves as they are.
use pje_headless.Base.{ℕ, ◌%◌, ◌<◌, ◌≡◌, refl, false, List, [], ◌∷◌, Text, All, length, arith}
use pje_headless.Std.Sextets.{Byte}
use pje_headless.Std.Base32.{symbol, encode}
use pje_headless.Browser.Totp.{normalize_base32_secret, is_blank, upper, byte_len, utf8_len}
use pje_headless.Browser.Totp.Secret.{Normal, normalize_of_Normal}

abbrev Symbol : ℕ → Type 0
Symbol c = (is_blank c ≡ false) × (upper c ≡ c) × (utf8_len c ≡ 1)

symbol-Symbol : (v : ℕ) → v < 32 → Symbol (symbol v)
unfolding symbol is_blank upper utf8_len
symbol-Symbol v h = ground arith

padding-Symbol : Symbol b'='
unfolding is_blank upper utf8_len
padding-Symbol = (refl, refl, refl)

-- A block of eight symbols, and the symbols behind it.
abbrev Blocks : Text → Type 0
Blocks s = All Symbol s × (length s % 8 ≡ 0)

block :
    (c d e f g i j k : ℕ) (s : Text)
    → Symbol c
    → Symbol d
    → Symbol e
    → Symbol f
    → Symbol g
    → Symbol i
    → Symbol j
    → Symbol k
    → Blocks s
    → Blocks (c ∷ d ∷ e ∷ f ∷ g ∷ i ∷ j ∷ k ∷ s)
block c d e f g i j k s hc hd he hf hg hi hj hk h =
    ((hc, (hd, (he, (hf, (hg, (hi, (hj, (hk, h.0)))))))), omega (arith, h.1))

encode-Blocks : (s : List ℕ) → All Byte s → Blocks (encode s)
unfolding encode
encode-Blocks [] h = (tt, refl)
encode-Blocks (a ∷ []) h =
    block _ _ _ _ _ _ _ _ [] (symbol-Symbol _ (omega (arith, h.0)))
      (symbol-Symbol _ (omega (arith, h.0))) padding-Symbol padding-Symbol padding-Symbol
      padding-Symbol padding-Symbol padding-Symbol (tt, refl)
encode-Blocks (a ∷ b ∷ []) h =
    block _ _ _ _ _ _ _ _ [] (symbol-Symbol _ (omega (arith, h.0, h.1.0)))
      (symbol-Symbol _ (omega (arith, h.0, h.1.0))) (symbol-Symbol _ (omega (arith, h.0, h.1.0)))
      (symbol-Symbol _ (omega (arith, h.0, h.1.0))) padding-Symbol padding-Symbol padding-Symbol
      padding-Symbol (tt, refl)
encode-Blocks (a ∷ b ∷ c ∷ []) h =
    block _ _ _ _ _ _ _ _ [] (symbol-Symbol _ (omega (arith, h.0, h.1.0, h.1.1.0)))
      (symbol-Symbol _ (omega (arith, h.0, h.1.0, h.1.1.0)))
      (symbol-Symbol _ (omega (arith, h.0, h.1.0, h.1.1.0)))
      (symbol-Symbol _ (omega (arith, h.0, h.1.0, h.1.1.0)))
      (symbol-Symbol _ (omega (arith, h.0, h.1.0, h.1.1.0))) padding-Symbol padding-Symbol
      padding-Symbol (tt, refl)
encode-Blocks (a ∷ b ∷ c ∷ d ∷ []) h =
    block _ _ _ _ _ _ _ _ [] (symbol-Symbol _ (omega (arith, h.0, h.1.0, h.1.1.0, h.1.1.1.0)))
      (symbol-Symbol _ (omega (arith, h.0, h.1.0, h.1.1.0, h.1.1.1.0)))
      (symbol-Symbol _ (omega (arith, h.0, h.1.0, h.1.1.0, h.1.1.1.0)))
      (symbol-Symbol _ (omega (arith, h.0, h.1.0, h.1.1.0, h.1.1.1.0)))
      (symbol-Symbol _ (omega (arith, h.0, h.1.0, h.1.1.0, h.1.1.1.0)))
      (symbol-Symbol _ (omega (arith, h.0, h.1.0, h.1.1.0, h.1.1.1.0)))
      (symbol-Symbol _ (omega (arith, h.0, h.1.0, h.1.1.0, h.1.1.1.0))) padding-Symbol (tt, refl)
encode-Blocks (a ∷ b ∷ c ∷ d ∷ e ∷ s) h =
    block _ _ _ _ _ _ _ _ (encode s)
      (symbol-Symbol _ (omega (arith, h.0, h.1.0, h.1.1.0, h.1.1.1.0, h.1.1.1.1.0)))
      (symbol-Symbol _ (omega (arith, h.0, h.1.0, h.1.1.0, h.1.1.1.0, h.1.1.1.1.0)))
      (symbol-Symbol _ (omega (arith, h.0, h.1.0, h.1.1.0, h.1.1.1.0, h.1.1.1.1.0)))
      (symbol-Symbol _ (omega (arith, h.0, h.1.0, h.1.1.0, h.1.1.1.0, h.1.1.1.1.0)))
      (symbol-Symbol _ (omega (arith, h.0, h.1.0, h.1.1.0, h.1.1.1.0, h.1.1.1.1.0)))
      (symbol-Symbol _ (omega (arith, h.0, h.1.0, h.1.1.0, h.1.1.1.0, h.1.1.1.1.0)))
      (symbol-Symbol _ (omega (arith, h.0, h.1.0, h.1.1.0, h.1.1.1.0, h.1.1.1.1.0)))
      (symbol-Symbol _ (omega (arith, h.0, h.1.0, h.1.1.0, h.1.1.1.0, h.1.1.1.1.0)))
      (encode-Blocks s h.1.1.1.1.1)

Symbol-Normal : (s : Text) → All Symbol s → Normal s
Symbol-Normal [] h = tt
Symbol-Normal (c ∷ s) h = (h.0.0, h.0.1, Symbol-Normal s h.1)

byte_len-Symbol : (s : Text) → All Symbol s → byte_len s ≡ length s
unfolding byte_len
byte_len-Symbol [] h = refl
byte_len-Symbol (c ∷ s) h = omega (arith, h.0.2, byte_len-Symbol s h.1)

pub normalize-encode : (s : List ℕ) → All Byte s → normalize_base32_secret (encode s) ≡ encode s
normalize-encode s h =
    let (symbols, blocks) = encode-Blocks s h in
    normalize_of_Normal (encode s) (Symbol-Normal (encode s) symbols)
      (omega (arith, byte_len-Symbol (encode s) symbols, blocks))
