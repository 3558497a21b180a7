-- ===== src/LoginSvc/Reuse.antt =====
-- The cache of one manager across calls that do not overlap.
use pje_headless.Base.{
  ℕ, ◌+◌, ◌*◌, ◌≡◌, refl, Option, none, some, Bool, true, false, not, ◌&&◌, arith, Text, [],
  is_empty, Result, ok, err, if◌then◌else◌,
}
use pje_headless.Base.Int.{pos, ◌+ℤ◌, ◌-ℤ◌}
use pje_headless.Clock.{Time, is_zero, before, second}
use pje_headless.LoginSvc.Manager.{
  Manager, Reply, cached, usable, snapshot, get_bearer, expiry, default_refresh_margin, is_fresh,
}

-- The reply of a call that ran loginFn with success.
abbrev pub logged_in : Text → Time → Reply
logged_in b exp = record { bearer = b; expires_at = exp; from_cache = false; error = none }

-- The manager after a login with success.
abbrev pub holding : Manager → Text → Time → Manager
holding m b exp = record m { bearer = b; expires_at = exp; flight = none }

holding_usable :
    (m : Manager) (b : Text) (exp t : Time)
    → is_empty b ≡ false
    → is_zero exp ≡ false
    → before t (exp -ℤ m.refresh_margin) ≡ true
    → (snapshot t (holding m b exp)).0 ≡ true
unfolding snapshot usable is_fresh
holding_usable m b exp t full dated early = rw (full, dated) early

module _ (parse : Text → Option Time) where
  -- With no login in flight, a call answers from the cache exactly when it is not forced and
  -- Snapshot reports a bearer; else it runs loginFn, and returns its bearer with the parsed expiry or
  -- the default one, or its error. A failed login leaves the cached bearer and its expiry as they were.
  get_bearer_outcome :
      (now later : Time) (force : Bool) (r : Result Text) (m : Manager)
      → m.flight ≡ none
      → get_bearer parse now later force r m ≡ (
          if not force && (snapshot now m).0 then some (cached m, m) else elim r [
            | ok b ↦
                let exp = expiry parse later (parse b) in some (logged_in b exp, holding m b exp)
            | err e ↦ some (
              record { bearer = []; expires_at = pos 0; from_cache = false; error = some e },
              record m { flight = none },
            )
          ])
  unfolding get_bearer snapshot
  get_bearer_outcome now later force r m idle = ground arith

  -- A call that finds no login in flight and cannot use the cache logs in. Where that gave a non-empty
  -- bearer with an expiry other than the zero time, an unforced call then runs no login and returns that
  -- bearer from the cache for as long as the clock is before the expiry less the margin.
  pub get_bearer_reuse :
      (now later then' last : Time) (force : Bool) (b : Text) (again : Result Text) (m : Manager)
      → m.flight ≡ none
      → (not force && (snapshot now m).0) ≡ false
      → is_empty b ≡ false
      → let exp = expiry parse later (parse b) in
        is_zero exp ≡ false
        → before then' (exp -ℤ m.refresh_margin) ≡ true
        → (get_bearer parse now later force (ok b) m ≡ some (logged_in b exp, holding m b exp))
          × (get_bearer parse then' last false again (holding m b exp)
              ≡ some (cached (holding m b exp), holding m b exp))
  get_bearer_reuse now later then' last force b again m idle miss full dated early = (
    rw (get_bearer_outcome now later force (ok b) m idle, miss) refl,
    rw
        (
          get_bearer_outcome then' last false again (holding m b (expiry parse later (parse b)))
              refl,
          holding_usable m b (expiry parse later (parse b)) then' full dated early,
        )
        refl,
  )

  -- Under the default margin of 60 s, an unforced call on the cache that a login at time `later` left
  -- with a bearer whose expiry cannot be parsed is served from the cache exactly until 240 s later,
  -- if the login did not end before the zero time.
  undated_window :
      (later : ℕ) (t : Time) (b : Text) (m : Manager)
      → is_empty b ≡ false
      → parse b ≡ none
      → m.refresh_margin ≡ default_refresh_margin
      → (snapshot t (holding m b (expiry parse (pos later) (parse b)))).0
        ≡ before t (pos (later + 240 * second))
  unfolding snapshot usable is_fresh is_zero before ◌+ℤ◌ ◌-ℤ◌
  undated_window later t b m full bad margin = rw (full, bad, margin) (ground arith)
