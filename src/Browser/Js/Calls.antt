-- ===== src/Browser/Js/Calls.antt =====
-- What a reader of JavaScript finds in the scripts that take arguments.
use pje_headless.Base.{
  ℕ, zero, suc, ◌≡◌, ◌∙◌, if◌then◌else◌, Option, none, some, List, [], ◌∷◌, ◌++◌, Text, codes,
  length, drop, has_prefix, ◌===◌, has_prefix-append, drop-append, Any,
}
use mathlib.Core.Option
use pje_headless.Browser.Js.Literal.{js_string, read_literal}
use pje_headless.Browser.Js.Literal.Reading.{read_literal-js_string}
use pje_headless.Browser.Js.Texts.{
  submit_two_fa_head, search_head, submit_enrollment_head, submit_two_fa_js, search_js,
  submit_enrollment_js, fixed_scripts,
}

-- What stands behind an argument: the end of the call, or one more argument.
abbrev with_argument : (Text → Option (List Text)) → Option (Text × Text) → Option (List Text)
with_argument rest none = none
with_argument rest (some (a, s)) =
    let more = Option.map (◌∷◌ a) (rest (drop 2 s)) in
    if s === codes ")" then some (a ∷ []) else if has_prefix s (codes ", ") then more else none

-- At most so many string literals, up to a `)` that ends the text.
unfoldable pub arguments : ℕ → Text → Option (List Text)
unfolding read_literal ◌===◌ has_prefix
arguments zero s = none
arguments (suc n) s = with_argument (arguments n) (read_literal s)

-- The arguments of a script that begins with `head`.
unfoldable pub called : Text → Text → Option (List Text)
unfolding has_prefix arguments
called head js = if has_prefix js head then arguments 2 (drop (length head) js) else none

called-append : (head s : Text) → called head (head ++ s) ≡ arguments 2 s
unfolding called
called-append head s = rw (has_prefix-append head s, drop-append head s)

last_argument : (n : ℕ) (a : Text) → arguments (suc n) (js_string a ++ codes ")") ≡ some (a ∷ [])
unfolding arguments
last_argument n a = rw (read_literal-js_string a (codes ")"))

more_arguments :
    (n : ℕ) (a s : Text) (others : List Text)
    → arguments n s ≡ some others
    → arguments (suc n) (js_string a ++ (codes ", " ++ s)) ≡ some (a ∷ others)
unfolding arguments ◌===◌ has_prefix
more_arguments n a s others h = rw (read_literal-js_string a (codes ", " ++ s), h)

pub called-submit_two_fa_js :
    (code : Text) → called submit_two_fa_head (submit_two_fa_js code) ≡ some (code ∷ [])
unfolding submit_two_fa_js
called-submit_two_fa_js code = called-append submit_two_fa_head _ ∙ last_argument 1 code

pub called-search_js : (num : Text) → called search_head (search_js num) ≡ some (num ∷ [])
unfolding search_js
called-search_js num = called-append search_head _ ∙ last_argument 1 num

pub called-submit_enrollment_js :
    (code label : Text)
    → called submit_enrollment_head (submit_enrollment_js code label) ≡ some (code ∷ label ∷ [])
unfolding submit_enrollment_js
called-submit_enrollment_js code label =
    called-append submit_enrollment_head _
    ∙ more_arguments 1 code (js_string label ++ codes ")") (label ∷ []) (last_argument 0 label)

-- A script of this package: a fixed one, or one of the three functions, called on string literals.
pub data IsOurs (js : Text) : Type 0 where
  fixed : Any (λ s. s ≡ js) fixed_scripts → IsOurs js
  submits_code : (code : Text) → called submit_two_fa_head js ≡ some (code ∷ []) → IsOurs js
  searches : (num : Text) → called search_head js ≡ some (num ∷ []) → IsOurs js
  enrolls :
      (code label : Text) → called submit_enrollment_head js ≡ some (code ∷ label ∷ []) → IsOurs js
