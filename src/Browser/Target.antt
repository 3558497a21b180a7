-- ===== src/Browser/Target.antt =====
-- pickActiveTarget of session.go.
pub mod Ranking
use pje_headless.Base.{
  Option, none, some, Bool, true, false, not, if◌then◌else◌, List, [], ◌∷◌, Text, codes, ◌===◌,
  contains,
}
use pje_headless.Browser.Url.{is_real_url, sso_host}

-- The fields of target.Info that the code reads; the names are TargetID, Type and URL.
pub record Info : Type 0 where
  pub target_id : Text
  pub kind : Text
  pub url : Text

-- info.Type == "page"
unfoldable pub is_page : Info → Bool
is_page info = info.kind === codes "page"

-- haveAny with anyPage, or haveReal with realURL: the first value stays.
abbrev pub keep_first : Option Text → Text → Option Text
keep_first none id = some id
keep_first (some old) id = some old

-- What the loop returns at its end.
abbrev pub fall_back : Option Text → Option Text → Option Text
fall_back (some id) any = some id
fall_back none any = any

-- The loop, with realURL and anyPage, over pointers that may be nil.
unfoldable pub pick_loop : Option Text → Option Text → List (Option Info) → Option Text
pick_loop real any [] = fall_back real any
pick_loop real any (none ∷ infos) = pick_loop real any infos
pick_loop real any (some info ∷ infos) =
    let skipped = pick_loop real any infos in
    let blank = pick_loop real (keep_first any info.target_id) infos in
    let on_sso = pick_loop (keep_first real info.target_id) (keep_first any info.target_id) infos in
    if not (is_page info)
    then skipped
    else if not (is_real_url info.url)
    then blank
    else if not (contains info.url sso_host)
    then some info.target_id
    else on_sso

unfoldable pub pick_active_target : List (Option Info) → Option Text
unfolding pick_loop
pick_active_target infos = pick_loop none none infos
