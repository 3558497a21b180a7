-- ===== src/Browser/Flow/Beside.antt =====
-- The libraries with something of the model's own beside the world.
use pje_headless.Base.{◌≡◌, refl, ◌∙◌, ◌++◌, List, [], ◌∷◌}
use pje_headless.Net.{Net}
use pje_headless.Browser.Capture.{Event}
use pje_headless.Browser.Session.{Chromedp}
use pje_headless.Browser.Flow.{Tab, CdpEvent}
use pje_headless.Browser.Flow.Respect.{Order, Keeps, KeepsQuiet}

abbrev pub beside : {V T A : Type 0} → (V → A × V) → V × T → A × (V × T)
beside op (v, t) = let (a, w) = op v in (a, (w, t))

abbrev pub beside_net : {V T : Type 0} → Net V → Net (V × T)
beside_net net = record {
  listen = λ network addr. beside (net.listen network addr);
  close = λ n (v, t). (net.close n v, t);
  join_host_port = net.join_host_port;
}

abbrev pub beside_cdp : {V T : Type 0} → Chromedp V → Chromedp (V × T)
beside_cdp cdp = record {
  targets = beside cdp.targets;
  new_context = λ id. beside (cdp.new_context id);
  enable = λ c. beside (cdp.enable c);
  attach_bearer_listener = λ c (v, t). (cdp.attach_bearer_listener c v, t);
  attach_frame_listener = λ c (v, t). (cdp.attach_frame_listener c v, t);
  cancel = λ c (v, t). (cdp.cancel c v, t);
  invalid_context = cdp.invalid_context;
}

abbrev pub beside_tab : {V T : Type 0} → Tab V → Tab (V × T)
beside_tab tab = record {
  now = λ (v, t). tab.now v;
  wait = λ c d. beside (tab.wait c d);
  context_error = λ c (v, t). tab.context_error c v;
  events = beside tab.events;
  start = λ c. beside (tab.start c);
  enable = λ c. beside (tab.enable c);
  goto = λ c url. beside (tab.goto c url);
  autenticar_ready = λ c. beside (tab.autenticar_ready c);
  click_link = λ c. beside (tab.click_link c);
  consulta_ready = λ c. beside (tab.consulta_ready c);
  search = λ c num. beside (tab.search c num);
  navigate = λ c url. beside (tab.navigate c url);
  two_fa_present = λ c. beside (tab.two_fa_present c);
  two_fa_visible = λ c. beside (tab.two_fa_visible c);
  submit_two_fa = λ c code. beside (tab.submit_two_fa c code);
  click_cert = λ c. beside (tab.click_cert c);
  wait_ready = λ c sel. beside (tab.wait_ready c sel);
  read_secret = λ c. beside (tab.read_secret c);
  submit_enrollment = λ c code label. beside (tab.submit_enrollment c code label);
}

-- The tab with a log of the network events that were delivered.
abbrev pub networks : List CdpEvent → List Event
networks [] = []
networks (CdpEvent.network e ∷ es) = e ∷ networks es
networks (CdpEvent.frame_navigated ev ∷ es) = networks es

abbrev pub logged_tab : {V : Type 0} → Tab V → Tab (V × List Event)
logged_tab tab = record (beside_tab tab) {
  events = λ (v, log). let (es, w) = tab.events v in (es, (w, log ++ networks es));
}

abbrev pub Same : {V T : Type 0} → V × T → V × T → Type 0
Same (u, s) (v, t) = t ≡ s

pub Same-Order : {V T : Type 0} → Order (Same {V = V} {T = T})
Same-Order = record { stay = λ v. refl; trans = λ p q. q ∙ p }

pub beside_cdp-Keeps : {V T : Type 0} (cdp : Chromedp V) → Keeps (Same {T = T}) (beside_cdp cdp)
beside_cdp-Keeps cdp = record {
  order = Same-Order;
  targets = λ v. refl;
  new_context = λ id v. refl;
  enable = λ c v. refl;
  attach_bearer_listener = λ c v. refl;
  attach_frame_listener = λ c v. refl;
  cancel = λ c v. refl;
}

pub logged_tab-KeepsQuiet : {V : Type 0} (tab : Tab V) → KeepsQuiet Same (logged_tab tab)
logged_tab-KeepsQuiet tab = record {
  wait = λ c d v. refl;
  start = λ c v. refl;
  enable = λ c v. refl;
  goto = λ c url v. refl;
  autenticar_ready = λ c v. refl;
  click_link = λ c v. refl;
  consulta_ready = λ c v. refl;
  search = λ c num v. refl;
  navigate = λ c url v. refl;
  two_fa_present = λ c v. refl;
  two_fa_visible = λ c v. refl;
  wait_ready = λ c sel v. refl;
  read_secret = λ c v. refl;
}
