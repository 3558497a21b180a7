-- ===== src/Tests/Page.antt =====
-- A page that is authenticated at once and then shows a request of the API, with the rest that a login
-- needs.
use pje_headless.Base.{ℕ, ◌+◌, ◌++◌, true, false, none, some, List, [], ◌∷◌, codes, ok, arith}
use pje_headless.Base.Int.{pos, negsuc}
use pje_headless.Clock.{Duration}
use pje_headless.Browser.Capture.{request_will_be_sent, extra_info}
use pje_headless.Browser.Session.{Chromedp, new_session}
use pje_headless.Browser.Flow.{Tab, Flow, CdpEvent}
use pje_headless.Browser.Scripts.Ends.{NotBefore}
use pje_headless.Browser.Enroll.Attempts.{Codec}
use pje_headless.Browser.Await.Ticking.{Ticking}
use pje_headless.Browser.Chrome.{Browser}
use pje_headless.Browser.Login.{Launch}

abbrev pub delivered : List CdpEvent
delivered =
    CdpEvent.frame_navigated
      (some (some (record { parent_id = []; url = codes "https://www.jus.br/" })))
    ∷ CdpEvent.network
        (request_will_be_sent (codes "1") (some (codes "https://x/api/v2/processos/1")))
    ∷ CdpEvent.network
        (extra_info (codes "1") ((codes "Authorization", some (codes "Bearer t")) ∷ []))
    ∷ []

abbrev pub after_wait : Duration → ℕ → ℕ
after_wait (pos d) t = t + d
after_wait (negsuc d) t = t

-- The world is the time in nanoseconds.
abbrev pub page : Tab ℕ
page = record {
  now = λ t. pos t;
  wait = λ c d t. (none, after_wait d t);
  context_error = λ c t. none;
  events = λ t. (delivered, t);
  start = λ c t. (ok tt, t);
  enable = λ c t. (ok tt, t);
  goto = λ c url t. (ok tt, t + 1);
  autenticar_ready = λ c t. (ok true, t);
  click_link = λ c t. (ok true, t);
  consulta_ready = λ c t. (ok true, t);
  search = λ c num t. (ok true, t);
  navigate = λ c url t. (ok tt, t + 1);
  two_fa_present = λ c t. (ok true, t);
  two_fa_visible = λ c t. (ok true, t);
  submit_two_fa = λ c code t. (ok true, t);
  click_cert = λ c t. (ok true, t);
  wait_ready = λ c sel t. (ok tt, t);
  read_secret = λ c t. (ok (codes "NM======", []), t);
  submit_enrollment = λ c code label t. (ok true, t);
}

abbrev pub browser : Chromedp ℕ
browser = record {
  targets = λ t. (ok [], t);
  new_context = λ id t. (t, t + 1);
  enable = λ c t. (ok tt, t);
  attach_bearer_listener = λ c t. t;
  attach_frame_listener = λ c t. t;
  cancel = λ c t. t;
  invalid_context = 4;
}

abbrev pub codec : Codec
codec = record { decode = λ s. some s; encode = λ bytes. bytes; hmac = λ key message. message }

-- Whatever the backend.
abbrev pub launch_any : {S : Type 0} → Launch S ℕ
launch_any = record {
  net = record {
    listen = λ network addr t. (ok 7, t);
    close = λ n t. t;
    join_host_port = λ host port. host ++ port;
  };
  serve = λ server n t. t;
  with_timeout = λ c d t. (1, t);
  new_exec_allocator = λ c options t. (2, t);
  new_context = λ c options t. (3, t);
  cancel_timeout = λ c t. t;
  cancel_allocator = λ c t. t;
  cancel_task = λ c t. t;
}

abbrev pub launch : Launch ℕ ℕ
launch = launch_any

abbrev pub robot : Browser ℕ
robot = record {
  signer = some 0;
  cfg = record {
    pje_office_bind_addr = codes "127.0.0.1";
    pje_office_port = codes "8800";
    totp_secret = codes "NM======";
    chrome_path = [];
    login_timeout = pos 240_000_000_000;
  };
  debug = false;
}

abbrev pub begun : {V : Type 0} → V → Flow V
begun v = record {
  session = new_session 3 true v;
  last_url = codes "https://sso.cloud.pje.jus.br/";
  capture = record { urls = λ _. none; headers = λ _. none; token = [] };
  totp_enrolled = false;
}

waits_later : (c : ℕ) (d : Duration) (t : ℕ) → NotBefore page t (page.wait c d t).1
waits_later c (pos d) t = omega arith
waits_later c (negsuc d) t = omega arith

pub ticking : Ticking page browser 1
ticking = record {
  timers = record { fires = λ c n t e. omega arith };
  quiet = record {
    wait = waits_later;
    start = λ c t. omega arith;
    enable = λ c t. omega arith;
    goto = λ c url t. omega arith;
    autenticar_ready = λ c t. omega arith;
    click_link = λ c t. omega arith;
    consulta_ready = λ c t. omega arith;
    search = λ c num t. omega arith;
    navigate = λ c url t. omega arith;
    two_fa_present = λ c t. omega arith;
    two_fa_visible = λ c t. omega arith;
    wait_ready = λ c sel t. omega arith;
    read_secret = λ c t. omega arith;
  };
  renewals = record {
    order = record { stay = λ t. omega arith; trans = λ p q. omega (arith, p, q) };
    targets = λ t. omega arith;
    new_context = λ id t. omega arith;
    enable = λ c t. omega arith;
    attach_bearer_listener = λ c t. omega arith;
    attach_frame_listener = λ c t. omega arith;
    cancel = λ c t. omega arith;
  };
  events = λ t. omega arith;
  submit_two_fa = λ c code t. omega arith;
  click_cert = λ c t. omega arith;
  submit_enrollment = λ c code label t. omega arith;
  fails = λ c url t e h. ground (arith, h);
  short = omega arith;
}
