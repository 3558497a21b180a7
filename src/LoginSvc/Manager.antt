-- ===== src/LoginSvc/Manager.antt =====
-- manager.go: the LoginManager and its two critical sections. A call of GetBearer locks the mutex
-- once to look (`enter`), and the call that runs loginFn once more to publish the result (`publish`);
-- between them the mutex is free. The bearer parser is the parameter `parse`, instantiated by
-- `Jwt.parse_bearer_exp`; the clock's readings are arguments.
use pje_headless.Base.{
  ℕ, ◌*◌, ◌≡◌, Option, none, some, Bool, true, false, not, ◌&&◌, if◌then◌else◌, Text, [], is_empty,
  inl, inr, Bool-cases, refl, Result, ok, err, Error,
}
use pje_headless.Base.Int.{pos, ◌+ℤ◌, ◌-ℤ◌, leb_ℤ}
use pje_headless.Clock.{Time, Duration, zero_time, is_zero, before, second}

abbrev pub default_refresh_margin : Duration
default_refresh_margin = pos (60 * second)

abbrev pub default_ttl : Duration
default_ttl = pos (300 * second)

-- inflight: one run of loginFn. `done` is the channel, closed or not.
pub record Inflight : Type 0 where
  pub done : Bool
  pub bearer : Text
  pub exp : Time
  pub error : Option Error

abbrev pub new_inflight : Inflight
new_inflight = record { done = false; bearer = []; exp = zero_time; error = none }

-- LoginManager without its mutex, function and logger. `flight` names an Inflight on the heap.
pub record Manager : Type 0 where
  pub refresh_margin : Duration
  pub bearer : Text
  pub expires_at : Time
  pub flight : Option ℕ

unfoldable pub new_manager : Duration → Manager
new_manager margin = record {
  refresh_margin = if leb_ℤ margin (pos 0) then default_refresh_margin else margin;
  bearer = [];
  expires_at = zero_time;
  flight = none;
}

unfoldable pub is_fresh : Time → Manager → Bool
unfolding is_zero before
is_fresh now m =
    if is_zero m.expires_at then false else before now (m.expires_at -ℤ m.refresh_margin)

-- m.bearer != "" && m.isFresh()
unfoldable pub usable : Time → Manager → Bool
unfolding is_fresh
usable now m = not (is_empty m.bearer) && is_fresh now m

-- Snapshot, in the order of its results.
unfoldable pub snapshot : Time → Manager → Bool × Time
snapshot now m = (usable now m, m.expires_at)

-- primeCache, which the tests of the package call.
abbrev pub prime_cache : Text → Time → Manager → Manager
prime_cache bearer expires_at m = record m { bearer = bearer; expires_at = expires_at }

-- The four results of GetBearer.
pub record Reply : Type 0 where
  pub bearer : Text
  pub expires_at : Time
  pub from_cache : Bool
  pub error : Option Error

-- What a call does after its first critical section.
pub data Next : Type 0 where
  hit : Reply → Next  -- return at once
  lead : ℕ → Next  -- run loginFn for this Inflight
  attach : ℕ → Next  -- wait for this Inflight

abbrev pub cached : Manager → Reply
cached m = record { bearer = m.bearer; expires_at = m.expires_at; from_cache = true; error = none }

-- Attach to the login in flight, or start one in the Inflight `fresh`.
unfoldable pub slow_path : ℕ → Option ℕ → Manager → Next × Manager
slow_path fresh none m = (lead fresh, record m { flight = some fresh })
slow_path fresh (some f) m = (attach f, m)

-- The first critical section. `fresh` is the address of the Inflight that the code would allocate.
unfoldable pub enter : Time → Bool → ℕ → Manager → Next × Manager
unfolding slow_path
enter now force fresh m =
    if not force && usable now m then (hit (cached m), m) else slow_path fresh m.flight m

-- f.bearer, f.exp, false, f.err
abbrev pub reply_of : Inflight → Reply
reply_of f = record { bearer = f.bearer; expires_at = f.exp; from_cache = false; error = f.error }

-- The return of a waiter whose context ends first.
abbrev pub cancelled : Error → Reply
cancelled e = record {
  bearer = [];
  expires_at = zero_time;
  from_cache = false;
  error =
      some
        (Error.wrap "loginsvc: GetBearer: context cancelled while waiting for in-flight login" e);
}

module _ (parse : Text → Option Time) where
  abbrev pub expiry : Time → Option Time → Time
  expiry now none = now +ℤ default_ttl
  expiry now (some exp) = exp

  -- The second critical section, with the result of loginFn and the clock at that moment.
  unfoldable pub publish : Time → Result Text → Manager → Inflight → Manager × Inflight
  publish now (ok b) m f =
      let exp = expiry now (parse b) in
      (
        record m { bearer = b; expires_at = exp; flight = none },
        record { done = true; bearer = b; exp = exp; error = none },
      )
  publish now (err e) m f = (record m { flight = none }, record f { done = true; error = some e })

  -- A call of GetBearer that no other call overlaps: loginFn ran with result `r`, if it ran. A call
  -- that would wait for another one gives `none`.
  unfoldable pub get_bearer : Time → Time → Bool → Result Text → Manager → Option (Reply × Manager)
  unfolding enter publish
  get_bearer now later force r m =
      let (next, m') = enter now force 0 m in
      elim next [
        | hit reply ↦ some (reply, m')
        | lead f ↦ let (m'', fl) = publish later r m' new_inflight in some (reply_of fl, m'')
        | attach f ↦ none
      ]

slow_path_cases {ℓ} :
    (P : Next × Manager → Type ℓ) (fresh : ℕ) (o : Option ℕ) (m : Manager)
    → (o ≡ none → P (lead fresh, record m { flight = some fresh }))
    → ((f : ℕ) → o ≡ some f → P (attach f, m))
    → P (slow_path fresh o m)
unfolding slow_path
slow_path_cases P fresh none m on_lead on_attach = on_lead refl
slow_path_cases P fresh (some f) m on_lead on_attach = on_attach f refl

-- The three ways out of the first critical section.
pub enter_cases {ℓ} :
    (P : Next × Manager → Type ℓ) (now : Time) (force : Bool) (fresh : ℕ) (m : Manager)
    → ((not force && usable now m) ≡ true → P (hit (cached m), m))
    → ((not force && usable now m) ≡ false
        → m.flight ≡ none
        → P (lead fresh, record m { flight = some fresh }))
    → ((f : ℕ) → (not force && usable now m) ≡ false → m.flight ≡ some f → P (attach f, m))
    → P (enter now force fresh m)
enter_cases P now force fresh m on_hit on_lead on_attach =
    elim (Bool-cases (not force && usable now m)) [
      | inl fast ↦ unfold enter in rw fast (on_hit fast)
      | inr slow ↦
          unfold enter in
          rw slow (slow_path_cases P fresh m.flight m (on_lead slow) (λ f. on_attach f slow))
    ]
