-- ===== src/Browser/Totp/Secret.antt =====
-- normalizeBase32Secret.
use pje_headless.Base.{
  ℕ, zero, suc, ◌+◌, ◌-◌, ◌%◌, ◌≡◌, refl, ap, ◌∙◌, false, arith, [], ◌∷◌, ◌++◌, map, replicate,
  Text, is_empty, if◌then◌else◌, ◌==◌, Bool-cases, inl, inr,
}
use pje_headless.Browser.Totp.{
  normalize_base32_secret, pad, drop_blanks, is_blank, upper, byte_len, utf8_len,
}

byte_len-append : (s t : Text) → byte_len (s ++ t) ≡ byte_len s + byte_len t
unfolding byte_len
byte_len-append [] t = omega arith
byte_len-append (c ∷ s) t = omega (arith, byte_len-append s t)

byte_len-padding : (n : ℕ) → byte_len (replicate n b'=') ≡ n
unfolding byte_len utf8_len
byte_len-padding zero = refl
byte_len-padding (suc n) = omega (arith, byte_len-padding n)

byte_len-pad : (s : Text) → byte_len (pad s) % 8 ≡ 0
unfolding pad
byte_len-pad s = ground (
  arith,
  byte_len-append s (replicate (8 - byte_len s % 8) b'='),
  byte_len-padding (8 - byte_len s % 8),
)

pad_of_full : (s : Text) → byte_len s % 8 ≡ 0 → pad s ≡ s
unfolding pad
pad_of_full s h = ground arith

-- A text that normalizing leaves letter by letter as it is.
abbrev pub Normal : Text → Type 0
Normal [] = Unit {0}
Normal (c ∷ s) = (is_blank c ≡ false) × (upper c ≡ c) × Normal s

upper-Normal :
    (c : ℕ) → is_blank c ≡ false → (is_blank (upper c) ≡ false) × (upper (upper c) ≡ upper c)
unfolding upper is_blank
upper-Normal c h = ground arith

clean-Normal : (s : Text) → Normal (map upper (drop_blanks s))
unfolding drop_blanks
clean-Normal [] = tt
clean-Normal (c ∷ s) = elim (Bool-cases (is_blank c)) [
  | inl e ↦ rw e (clean-Normal s)
  | inr e ↦ rw e (let (a, b) = upper-Normal c e in (a, b, clean-Normal s))
]

Normal-append : (s t : Text) → Normal s → Normal t → Normal (s ++ t)
Normal-append [] t hs ht = ht
Normal-append (c ∷ s) t hs ht = (hs.0, hs.1, Normal-append s t hs.2 ht)

padding-Normal : (n : ℕ) → Normal (replicate n b'=')
unfolding upper is_blank
padding-Normal zero = tt
padding-Normal (suc n) = (refl, refl, padding-Normal n)

pad-Normal : (s : Text) → Normal s → Normal (pad s)
unfolding pad
pad-Normal s h = elim (Bool-cases (byte_len s % 8 == 0)) [
  | inl e ↦ rw e h
  | inr e ↦ rw e (Normal-append s _ h (padding-Normal _))
]

clean_of_Normal : (s : Text) → Normal s → map upper (drop_blanks s) ≡ s
unfolding drop_blanks
clean_of_Normal [] h = refl
clean_of_Normal (c ∷ s) h = ground (arith, clean_of_Normal s h.2)

guarded_pad : (s : Text) → (if is_empty s then [] else pad s) ≡ pad s
unfolding pad byte_len
guarded_pad [] = refl
guarded_pad (c ∷ s) = refl

normalize-pad : (s : Text) → normalize_base32_secret s ≡ pad (map upper (drop_blanks s))
unfolding normalize_base32_secret
normalize-pad s = guarded_pad (map upper (drop_blanks s))

-- A normalized secret is a whole number of 8-byte base32 blocks.
pub byte_len-normalize : (s : Text) → byte_len (normalize_base32_secret s) % 8 ≡ 0
byte_len-normalize s = rw (normalize-pad s) (byte_len-pad (map upper (drop_blanks s)))

normalize-Normal : (s : Text) → Normal (normalize_base32_secret s)
normalize-Normal s = rw (normalize-pad s) (pad-Normal _ (clean-Normal s))

-- So a text of whole blocks that needs no normalizing is left as it is.
pub normalize_of_Normal : (s : Text) → Normal s → byte_len s % 8 ≡ 0 → normalize_base32_secret s ≡ s
normalize_of_Normal s h full = normalize-pad s ∙ ap pad (clean_of_Normal s h) ∙ pad_of_full s full

-- Normalizing twice is normalizing once, so the secret that an enrollment reports is the secret that
-- later logins compute with.
pub normalize_idem :
    (s : Text) → normalize_base32_secret (normalize_base32_secret s) ≡ normalize_base32_secret s
normalize_idem s = normalize_of_Normal _ (normalize-Normal s) (byte_len-normalize s)
