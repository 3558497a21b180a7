-- ===== src/PjeOffice/Posts.antt =====
-- What process sends to the network.
use pje_headless.Base.{
  ℕ, ◌≡◌, refl, ◌⊎◌, inl, inr, Bool-cases, true, false, List, ◌∷◌, ◌++◌, Text, codes, Result, ok,
  err, Error,
}
use pje_headless.Signer.Defs.{Signer}
use pje_headless.PjeOffice.Process.{
  Envelope, Task, OutRequest, Libraries, success, out_headers, allowed_scheme, or_default, answered,
  sent, targeted, marshalled, with_chain, with_signature, logged_in, with_task, with_envelope,
  remarshalled, process,
}
use pje_headless.PjeOffice.Logs.{Entry, logged_libs, logged_signer}

module _ {J W : Type 0} (libs : Libraries J W) (signer : Signer W) where
  -- The request goes to servidor followed by enviarPara, over http or https, with the headers of
  -- the envelope; its body holds the task's token and phrase, the signature that the signer gave for
  -- the phrase under the task's algorithm, MD5withRSA if it names none, and a chain it gave.
  pub record IsPost (env : Envelope) (t : Task) (req : OutRequest) : Type 0 where
    pub target : req.target ≡ env.servidor ++ t.enviar_para
    pub headers : req.headers ≡ out_headers env
    pub scheme : (s : Text) × (libs.scheme req.target ≡ ok s) × (allowed_scheme s ≡ true)
    pub signature :
        (w : W) × (sig : Text) × ((signer.sign t.mensagem
            (or_default t.algoritmo_assinatura (codes "MD5withRSA"))
            w).0
          ≡ ok sig)
    pub chain : (w : W) × (chain : Text) × ((signer.cert_chain_pki_path w).0 ≡ ok chain)
    pub body :
        libs.marshal_out (record {
          uuid = t.token;
          mensagem = t.mensagem;
          assinatura = signature.1;
          cert_chain = chain.1;
        })
        ≡ ok req.body

  -- What the payload says.
  pub record Says (raw : J) (env : Envelope) (t : Task) : Type 0 where
    pub bytes : List ℕ
    pub written : libs.remarshal raw ≡ ok bytes
    pub envelope : libs.parse_envelope bytes ≡ ok env
    pub task : libs.parse_task env.tarefa ≡ ok t

  abbrev pub Accepted : Result ℕ → Type 0
  Accepted r = (code : ℕ) × (r ≡ ok code) × (success code ≡ true)

  abbrev pub Refused : Result ℕ → Type 0
  Refused r = ((code : ℕ) × (r ≡ ok code) × (success code ≡ false)) ⊎ ((e : Error) × (r ≡ err e))

  pub record Sent (P : OutRequest → Type 0) (Q : Result ℕ → Type 0) (before after : List Entry)
      : Type 0 where
    pub req : OutRequest
    pub answer : Result ℕ
    pub logged : after ≡ (req, answer) ∷ before
    pub posted : P req
    pub outcome : Q answer

  -- One request, with a success code, where process succeeds; at most one, which did not get such a
  -- code, where it fails.
  abbrev pub Effect :
      (OutRequest → Type 0) → List Entry → Result (Unit {0}) × (W × List Entry) → Type 0
  Effect P log (ok _, w) = Sent P Accepted log w.1
  Effect P log (err e, w) = (w.1 ≡ log) ⊎ Sent P Refused log w.1

  module _ (P : OutRequest → Type 0) where
    answered-Effect :
        (req : OutRequest) (r : Result ℕ) (w : W) (log : List Entry)
        → P req
        → Effect P log (answered (logged_libs libs) (logged_signer signer) (r, (w, (req, r) ∷ log)))
    answered-Effect req (err e) w log p =
        inr
          (record { req = req; answer = err e; logged = refl; posted = p; outcome = inr (e, refl) })
    answered-Effect req (ok code) w log p = elim (Bool-cases (success code)) [
      | inl good ↦ rw good (record {
        req = req;
        answer = ok code;
        logged = refl;
        posted = p;
        outcome = (code, refl, good);
      })
      | inr bad ↦ rw bad (
          inr (record {
            req = req;
            answer = ok code;
            logged = refl;
            posted = p;
            outcome = inl (code, refl, bad);
          }))
    ]

    sent-Effect :
        (req : OutRequest) (r : Result (Unit {0})) (w : W) (log : List Entry)
        → P req
        → Effect P log (sent (logged_libs libs) (logged_signer signer) req r (w, log))
    sent-Effect req (err e) w log p = inl refl
    sent-Effect req (ok _) w log p =
        answered-Effect req (libs.send req w).0 (libs.send req w).1 log p

    targeted-Effect :
        (req : OutRequest) (r : Result Text) (w : W) (log : List Entry)
        → ((s : Text) → r ≡ ok s → allowed_scheme s ≡ true → P req)
        → Effect P log (targeted (logged_libs libs) (logged_signer signer) req r (w, log))
    targeted-Effect req (err e) w log p = inl refl
    targeted-Effect req (ok s) w log p = elim (Bool-cases (allowed_scheme s)) [
      | inl good ↦ rw good (sent-Effect req (libs.new_request req.target) w log (p s refl good))
      | inr bad ↦ rw bad (inl refl)
    ]

  -- A post that the payload asks for.
  abbrev pub Post : J → OutRequest → Type 0
  Post raw req = (env : Envelope) × (t : Task) × Says raw env t × IsPost env t req

  module _ (raw : J) (env : Envelope) (t : Task) (says : Says raw env t) (log : List Entry) where
    marshalled-Effect :
        (sw cw : W) (sig chain : Text) (r : Result (List ℕ)) (w : W)
        → (signer.sign t.mensagem (or_default t.algoritmo_assinatura (codes "MD5withRSA")) sw).0
          ≡ ok sig
        → (signer.cert_chain_pki_path cw).0 ≡ ok chain
        → libs.marshal_out
            (record { uuid = t.token; mensagem = t.mensagem; assinatura = sig; cert_chain = chain })
          ≡ r
        → Effect
            (Post raw)
            log
            (marshalled (logged_libs libs) (logged_signer signer) env t r (w, log))
    marshalled-Effect sw cw sig chain (err e) w es ec eb = inl refl
    marshalled-Effect sw cw sig chain (ok body) w es ec eb =
        let target = env.servidor ++ t.enviar_para in
        let req : OutRequest = record { target = target; headers = out_headers env; body = body } in
        targeted-Effect (Post raw) req (libs.scheme target) w log (λ s e good. (
          env,
          t,
          says,
          record {
            target = refl;
            headers = refl;
            scheme = (s, e, good);
            signature = (sw, sig, es);
            chain = (cw, chain, ec);
            body = eb;
          },
        ))

    with_chain-Effect :
        (sw cw : W) (sig : Text) (r : Result Text) (w : W)
        → (signer.sign t.mensagem (or_default t.algoritmo_assinatura (codes "MD5withRSA")) sw).0
          ≡ ok sig
        → (signer.cert_chain_pki_path cw).0 ≡ r
        → Effect
            (Post raw)
            log
            (with_chain (logged_libs libs) (logged_signer signer) env t sig (r, (w, log)))
    with_chain-Effect sw cw sig (err e) w es ec = inl refl
    with_chain-Effect sw cw sig (ok chain) w es ec =
        marshalled-Effect sw cw sig chain _ w es ec refl

    with_signature-Effect :
        (sw : W) (r : Result Text) (w : W)
        → (signer.sign t.mensagem (or_default t.algoritmo_assinatura (codes "MD5withRSA")) sw).0 ≡ r
        → Effect
            (Post raw)
            log
            (with_signature (logged_libs libs) (logged_signer signer) env t (r, (w, log)))
    with_signature-Effect sw (err e) w es = inl refl
    with_signature-Effect sw (ok sig) w es =
        with_chain-Effect sw w sig (signer.cert_chain_pki_path w).0 (signer.cert_chain_pki_path w).1
          es refl

    logged_in-Effect :
        (r : Result (Unit {0})) (w : W)
        → Effect
            (Post raw)
            log
            (logged_in (logged_libs libs) (logged_signer signer) env t (r, (w, log)))
    logged_in-Effect (err e) w = inl refl
    logged_in-Effect (ok _) w =
        let here =
          signer.sign t.mensagem (or_default t.algoritmo_assinatura (codes "MD5withRSA")) w in
        with_signature-Effect w here.0 here.1 refl

  with_task-Effect :
      (raw : J) (bytes : List ℕ) (env : Envelope) (r : Result Task) (w : W) (log : List Entry)
      → libs.remarshal raw ≡ ok bytes
      → libs.parse_envelope bytes ≡ ok env
      → libs.parse_task env.tarefa ≡ r
      → Effect (Post raw) log (with_task (logged_libs libs) (logged_signer signer) env r (w, log))
  with_task-Effect raw bytes env (err e) w log eb ee et = inl refl
  with_task-Effect raw bytes env (ok t) w log eb ee et =
      logged_in-Effect raw env t (record { bytes = bytes; written = eb; envelope = ee; task = et })
        log (signer.login w).0 (signer.login w).1

  with_envelope-Effect :
      (raw : J) (bytes : List ℕ) (r : Result Envelope) (w : W) (log : List Entry)
      → libs.remarshal raw ≡ ok bytes
      → libs.parse_envelope bytes ≡ r
      → Effect (Post raw) log (with_envelope (logged_libs libs) (logged_signer signer) r (w, log))
  with_envelope-Effect raw bytes (err e) w log eb ee = inl refl
  with_envelope-Effect raw bytes (ok env) w log eb ee =
      with_task-Effect raw bytes env (libs.parse_task env.tarefa) w log eb ee refl

  remarshalled-Effect :
      (raw : J) (r : Result (List ℕ)) (w : W) (log : List Entry)
      → libs.remarshal raw ≡ r
      → Effect (Post raw) log (remarshalled (logged_libs libs) (logged_signer signer) r (w, log))
  remarshalled-Effect raw (err e) w log eb = inl refl
  remarshalled-Effect raw (ok bytes) w log eb =
      with_envelope-Effect raw bytes (libs.parse_envelope bytes) w log eb refl

  -- process sends at most one request, whatever the payload and the signer's answers: exactly one,
  -- answered with a success code, where it succeeds, and where it fails none, or one that failed or got
  -- another code. A request that is sent goes by http or https to servidor followed by enviarPara of the
  -- payload, with the headers of the envelope, and its body is the task's token and phrase with a
  -- signature that the signer gave for that phrase under the task's algorithm (MD5withRSA where it
  -- names none) and a certificate chain that the signer gave.
  pub process-Effect :
      (raw : J) (w : W) (log : List Entry)
      → Effect (Post raw) log (process (logged_libs libs) (logged_signer signer) raw (w, log))
  unfolding process
  process-Effect raw w log = remarshalled-Effect raw (libs.remarshal raw) w log refl
