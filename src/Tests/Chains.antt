-- ===== src/Tests/Chains.antt =====
-- A certificate path, the key of an enrollment, and overlapping calls of a DualSigner.
use mathlib.Core.List.{Perm}
use pje_headless.Base.{
  ℕ, ◌≡◌, ◌===◌, refl, [], ◌∷◌, codes, arith, utf8, trim_space, trim_left, trim_right, is_space,
}
use pje_headless.Base.Int.{pos}
use pje_headless.Clock.{from_unix}
use pje_headless.Std.Der.{tlv, length_bytes, concat_raw, raw_value}
use pje_headless.Signer.Defs.{Identity}
use pje_headless.Signer.Pkipath.RoundTrip.{Readable, pki_path_b64-Readable}
use pje_headless.Signer.Dual.{identity_switch}
use pje_headless.Signer.Dual.Overlapping.{Overlap, Shared, in_turn, overlap-Perm}
use pje_headless.Browser.Enroll.Agreed.{KeyedBy, choose_totp_secret-KeyedBy}

-- SEQUENCE { INTEGER 1 } and SEQUENCE {}.
pki_path_b64-Readable_example : Readable (0x30 ∷ 3 ∷ 2 ∷ 1 ∷ 1 ∷ []) ((0x30 ∷ 0 ∷ []) ∷ [])
unfolding tlv length_bytes concat_raw raw_value
pki_path_b64-Readable_example =
    pki_path_b64-Readable (0x30 ∷ 3 ∷ 2 ∷ 1 ∷ 1 ∷ []) ((0x30 ∷ 0 ∷ []) ∷ [])
      ((0x30, 2 ∷ 1 ∷ 1 ∷ [], refl, omega arith), ((0x30, [], refl, omega arith), tt))
      (
        (omega arith, (omega arith, (omega arith, (omega arith, (omega arith, tt))))),
        ((omega arith, (omega arith, tt)), tt),
      )
      (omega arith)

choose_totp_secret-KeyedBy_example :
    KeyedBy (utf8 (trim_space (codes " k "))) (codes "junk") (codes " k ")
unfolding trim_space trim_left trim_right is_space
choose_totp_secret-KeyedBy_example =
    choose_totp_secret-KeyedBy (codes "junk") (codes " k ") refl (omega arith, tt)

abbrev person : ℕ → Identity
person c = record { subject = c ∷ []; issuer = []; serial = []; not_after = from_unix (pos 5) }

-- Three calls exchange; the event of the third is logged before that of the second.
abbrev exchanged : Shared
exchanged = record {
  last_subject = codes "c";
  pending = (codes "a", codes "b") ∷ (codes "b", codes "c") ∷ [];
  log = [];
}

abbrev settled : Shared
settled = record {
  last_subject = codes "c";
  pending = [];
  log = (codes "b", codes "c") ∷ (codes "a", codes "b") ∷ [];
}

exchanged_now : Overlap (person b'c' ∷ person b'b' ∷ person b'a' ∷ []) exchanged
unfolding identity_switch ◌===◌
exchanged_now =
    Overlap.exchange (person b'c')
      (Overlap.exchange (person b'b') (Overlap.exchange (person b'a') Overlap.start))

settled_now : Overlap (person b'c' ∷ person b'b' ∷ person b'a' ∷ []) settled
settled_now =
    Overlap.logs [] [] (codes "a", codes "b")
      (Overlap.logs ((codes "a", codes "b") ∷ []) [] (codes "b", codes "c") exchanged_now refl) refl

overlap-Perm_example :
    (settled.last_subject
      ≡ (in_turn tt (person b'c' ∷ person b'b' ∷ person b'a' ∷ [])).last_subject)
    × Perm settled.log (in_turn tt (person b'c' ∷ person b'b' ∷ person b'a' ∷ [])).switches
overlap-Perm_example = overlap-Perm tt settled_now refl
