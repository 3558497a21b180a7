-- ===== src/PjeOffice/Logs.antt =====
-- The libraries and the signer of the PJeOffice server, with a log of what is sent.
use pje_headless.Base.{ℕ, List, ◌∷◌, Result, Act}
use pje_headless.Signer.Defs.{Signer}
use pje_headless.PjeOffice.Process.{OutRequest, Libraries}

-- A request that was sent, with what came back.
abbrev pub Entry : Type 0
Entry = OutRequest × Result ℕ

abbrev beside : {W L A : Type 0} → Act W A → Act (W × L) A
beside op (w, log) = let (a, w') = op w in (a, (w', log))

-- The libraries with a log of the requests that were sent, the last one first.
abbrev pub logged_libs : {J W : Type 0} → Libraries J W → Libraries J (W × List Entry)
logged_libs libs = record {
  unmarshal = libs.unmarshal;
  remarshal = libs.remarshal;
  parse_envelope = libs.parse_envelope;
  parse_task = libs.parse_task;
  marshal_out = libs.marshal_out;
  scheme = libs.scheme;
  new_request = libs.new_request;
  send = λ req (w, log). let (r, w') = libs.send req w in (r, (w', (req, r) ∷ log));
}

-- The signer, which leaves the log alone.
abbrev pub logged_signer : {W : Type 0} → Signer W → Signer (W × List Entry)
logged_signer signer = record {
  login = beside signer.login;
  sign = λ phrase algorithm. beside (signer.sign phrase algorithm);
  cert_chain_pki_path = beside signer.cert_chain_pki_path;
  identity = beside signer.identity;
  available = λ (w, log). let (up, w') = signer.available w in (up, (w', log));
}
