-- ===== src/Tests/Login.antt =====
-- The LoginManager, the bearer's expiry and the LoginService on concrete inputs.
use pje_headless.Base.{
  ℕ, ◌⊎◌, Result, ◌∷◌, ◌++◌, ◌≡◌, refl, Option, none, some, true, false, arith, Text, codes, [], ok,
  err, Error, to_lower, lower,
}
use pje_headless.Base.Int.{ℤ, pos, ◌+ℤ◌, ◌-ℤ◌}
use pje_headless.Clock.{Time, from_unix, is_zero, before}
use pje_headless.LoginSvc.Jwt.{parse_bearer_exp}
use pje_headless.LoginSvc.Manager.{
  Manager, Reply, new_manager, prime_cache, is_fresh, enter, slow_path, usable, publish, snapshot,
  get_bearer, cached, expiry, default_refresh_margin, reply_of,
}
use pje_headless.LoginSvc.System.{System, init, running, entered, published, woken, Reach, Step}
use pje_headless.LoginSvc.System.Coalescing.{one_login, same_reply, waiting-Served, Wakes}
use pje_headless.LoginSvc.Reuse.{get_bearer_reuse, holding, logged_in}
use pje_headless.GrpcLogin.{exp_unix}
use pje_headless.GrpcLogin.Reports.{exp_unix-undated}
use pje_headless.GrpcLogin.Dated.{compact, exp_unix-compact}
use pje_headless.Std.RawUrl as RawUrl

abbrev no_date : Text → Option Time
no_date _ = none

abbrev margin : ℤ
margin = pos 0

-- Call 0 starts a login, call 1 waits for it; the login ends; call 1 wakes up.
abbrev one_call : System
one_call = entered 0 (enter (pos 1) false 0 (init margin).mgr) (init margin)

abbrev two_calls : System
two_calls = entered 1 (enter (pos 2) false one_call.next one_call.mgr) one_call

abbrev finished : System
finished =
    published 0 0 (publish no_date (pos 5) (ok (codes "abc")) two_calls.mgr (two_calls.heap 0))
      two_calls

abbrev both_served : System
both_served = woken 1 0 finished

two_calls_reached : Reach no_date margin two_calls
unfolding entered enter slow_path usable new_manager
two_calls_reached =
    Reach.later (Reach.later Reach.start (Step.call 0 (pos 1) false refl))
      (Step.call 1 (pos 2) false refl)

both_served_reached : Reach no_date margin both_served
unfolding entered enter slow_path usable new_manager published publish
both_served_reached =
    Reach.later (Reach.later two_calls_reached (Step.finish 0 0 (pos 5) (ok (codes "abc")) refl))
      (Step.wake 1 0 refl refl)

abbrev served_reply : Reply
served_reply = reply_of (finished.heap 0)

abbrev first_call : ℕ
first_call = 0

one_login_example : first_call ≡ first_call
unfolding entered enter slow_path usable new_manager
one_login_example = one_login two_calls_reached 0 0 0 0 refl refl

same_reply_example : served_reply ≡ served_reply
unfolding entered enter slow_path usable new_manager published publish woken
same_reply_example = same_reply both_served_reached 0 1 0 served_reply served_reply refl refl

waiting-Served_example :
    Wakes two_calls_reached 1 0 two_calls
    ⊎ ((j : ℕ) × (two_calls.pc j ≡ running 0)
        × ((now : Time) (res : Result Text)
            → let t =
                published j 0
                  (publish no_date now res two_calls.mgr (two_calls.heap 0))
                  two_calls in
              Step no_date two_calls t × Wakes two_calls_reached 1 0 t))
unfolding entered enter slow_path usable new_manager
waiting-Served_example = waiting-Served two_calls_reached 1 0 refl

abbrev empty_manager : Manager
empty_manager = record {
  refresh_margin = default_refresh_margin;
  bearer = [];
  expires_at = pos 0;
  flight = none;
}

abbrev token_text : Text
token_text = codes "abc"

get_bearer_reuse_example :
    (get_bearer no_date (pos 1) (pos 2) false (ok token_text) empty_manager
      ≡ some (
        logged_in token_text (expiry no_date (pos 2) none),
        holding empty_manager token_text (expiry no_date (pos 2) none),
      ))
    × (get_bearer no_date
          (pos 3)
          (pos 4)
          false
          (err (Error.foreign 0))
          (holding empty_manager token_text (expiry no_date (pos 2) none))
        ≡ some (
          cached (holding empty_manager token_text (expiry no_date (pos 2) none)),
          holding empty_manager token_text (expiry no_date (pos 2) none),
        ))
unfolding snapshot usable is_zero before ◌+ℤ◌ ◌-ℤ◌
get_bearer_reuse_example =
    get_bearer_reuse no_date (pos 1) (pos 2) (pos 3) (pos 4) false token_text
      (err (Error.foreign 0)) empty_manager refl refl refl refl refl

-- The claim of the one document.
abbrev claimed : Text → Option ℤ
claimed bytes = some (pos 9)

exp_unix-compact_example :
    exp_unix (
      expiry (parse_bearer_exp RawUrl.decode claimed) (pos 5) (
        parse_bearer_exp RawUrl.decode claimed
          (codes "BEARER " ++ compact (codes "{}") (codes "{\"exp\":9}") (1 ∷ 255 ∷ []))))
    ≡ pos 9
unfolding to_lower lower
exp_unix-compact_example =
    exp_unix-compact claimed (codes "BEARER ") (codes "{}") (codes "{\"exp\":9}") (1 ∷ 255 ∷ [])
      (pos 9) (pos 5) refl (omega arith, (omega arith, tt))
      (
        omega arith,
        (
          omega arith,
          (
            omega arith,
            (
              omega arith,
              (omega arith, (omega arith, (omega arith, (omega arith, (omega arith, tt))))),
            ),
          ),
        ),
      )
      (omega arith, (omega arith, tt)) refl (omega arith) (λ h. cc) (λ h. cc)

exp_unix-undated_example :
    exp_unix (expiry no_date (from_unix (pos 1700000000) +ℤ pos 999_999_999) none) ≡ pos 1700000300
exp_unix-undated_example =
    exp_unix-undated no_date token_text 1700000000 999_999_999 (omega arith) (omega arith) refl

-- A primed bearer is served from the cache until a minute before its expiry.
primed_now :
    get_bearer no_date
      (pos 5)
      (pos 9)
      false
      (ok (codes "new"))
      (prime_cache (codes "old") (pos 70_000_000_000) (new_manager margin))
    ≡ some (
      record {
        bearer = codes "old";
        expires_at = pos 70_000_000_000;
        from_cache = true;
        error = none;
      },
      prime_cache (codes "old") (pos 70_000_000_000) (new_manager margin),
    )
unfolding get_bearer enter usable is_fresh before is_zero new_manager ◌-ℤ◌
primed_now = refl
