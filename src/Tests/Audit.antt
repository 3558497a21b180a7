-- ===== src/Tests/Audit.antt =====
-- The audit of a DualSigner over a token that is changed between two calls.
use pje_headless.Base.{
  ℕ, ◌+◌, ◌==◌, ◌===◌, ◌≡◌, refl, true, if◌then◌else◌, [], ◌∷◌, Text, codes, ok, List,
}
use pje_headless.Base.Int.{pos}
use pje_headless.Clock.{from_unix}
use pje_headless.Signer.Defs.{Signer, Identity}
use pje_headless.Signer.Dual.{initial, new_dual}
use pje_headless.Signer.Dual.Audit.{
  Call, Follows, after_calls, visits, switches_after, after_calls-Follows,
}

abbrev owner : Text → Identity
owner subject = record {
  subject = subject;
  issuer = codes "ca";
  serial = codes "1";
  not_after = from_unix (pos 5);
}

-- The world counts the reads of the identity, of which the first is of another owner.
abbrev changed : Signer ℕ
changed = record {
  login = λ w. (ok tt, w);
  sign = λ phrase algorithm w. (ok phrase, w);
  cert_chain_pki_path = λ w. (ok (codes "chain"), w);
  identity = λ w. (ok (owner (if w == 0 then codes "a" else codes "b")), w + 1);
  available = λ w. (true, w);
}

abbrev two_calls : List Call
two_calls = Call.log_in ∷ Call.sign_phrase (codes "p") (codes "MD5withRSA") ∷ []

one_event : switches_after [] (visits two_calls (changed ∷ []) 0).0 ≡ (codes "a", codes "b") ∷ []
unfolding switches_after visits ◌===◌
one_event = refl

after_calls-Follows_example :
    Follows
      (initial 0)
      (codes "a" ∷ codes "b" ∷ [])
      2
      (after_calls two_calls (new_dual (changed ∷ [])) (initial 0))
unfolding visits
after_calls-Follows_example = after_calls-Follows two_calls (changed ∷ []) (initial 0)
