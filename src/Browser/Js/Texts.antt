-- ===== src/Browser/Js/Texts.antt =====
-- The texts of the scripts in browser.go and totp_enroll.go. A script with arguments ends in a call
-- whose arguments are string literals of js_string.
use pje_headless.Base.{Text, codes, List, [], ◌∷◌, ◌++◌}
use pje_headless.Browser.Js.Literal.{js_string}

-- The script of waitAutenticarReady.
abbrev pub autenticar_ready_js : Text
autenticar_ready_js = codes "typeof window.autenticar === 'function'"

-- const js of clickCertLink.
abbrev pub click_link_js : Text
click_link_js =
    codes
      "(function(){\n\t\t\tvar el = document.querySelector(\"a[onclick*='autenticar']\");\n\t\t\tif(!el){ return false; }\n\t\t\tel.click();\n\t\t\treturn true;\n\t\t})()"

-- detectJS
abbrev pub two_fa_present_js : Text
two_fa_present_js =
    codes
      "(function(){\n\t\tvar el = document.querySelector(\"input[name='txtAcessoCodigo'], input[name='otp']\");\n\t\treturn !!el;\n\t})()"

-- visibleJS
abbrev pub two_fa_visible_js : Text
two_fa_visible_js =
    codes
      "(function(){\n\t\tvar el = document.querySelector(\"input[name='txtAcessoCodigo'], input[name='otp']\");\n\t\tif(!el){ return false; }\n\t\tvar r = el.getBoundingClientRect();\n\t\treturn r.width > 0 && r.height > 0;\n\t})()"

-- submitJS, up to its argument.
abbrev pub submit_two_fa_head : Text
submit_two_fa_head =
    codes
      "(function(code){\n\t\tvar el = document.querySelector(\"input[name='txtAcessoCodigo'], input[name='otp']\");\n\t\tif(!el){ return false; }\n\t\tel.value = code;\n\t\tel.dispatchEvent(new Event('input', {bubbles:true}));\n\t\tel.dispatchEvent(new Event('change', {bubbles:true}));\n\t\tvar btn = document.querySelector(\"#btnEntrar, #kc-login, input[type='submit'], button[type='submit']\");\n\t\tif(btn){ btn.click(); return true; }\n\t\tif(el.form){ el.form.submit(); return true; }\n\t\treturn false;\n\t})("

-- const js of maybeRetryCert.
abbrev pub click_cert_js : Text
click_cert_js =
    codes
      "(function(){\n\t\tvar el = document.querySelector(\"a[onclick*='autenticar']\");\n\t\tif(!el){ return false; }\n\t\tvar r = el.getBoundingClientRect();\n\t\tif(r.width === 0 || r.height === 0){ return false; }\n\t\tel.click();\n\t\treturn true;\n\t})()"

-- const js of waitConsultaForm.
abbrev pub consulta_ready_js : Text
consulta_ready_js = codes "!!document.querySelector(\"input[formcontrolname='numeroProcesso']\")"

-- js of fireSearch, up to its argument.
abbrev pub search_head : Text
search_head =
    codes
      "(function(num){\n\t\t\tvar inp = document.querySelector(\"input[formcontrolname='numeroProcesso']\");\n\t\t\tif(!inp){ return false; }\n\t\t\tinp.value = num;\n\t\t\tinp.dispatchEvent(new Event('input', {bubbles:true}));\n\t\t\tinp.dispatchEvent(new Event('change', {bubbles:true}));\n\t\t\tvar btn = Array.prototype.find.call(\n\t\t\t\tdocument.querySelectorAll('button'),\n\t\t\t\tfunction(b){ return (b.textContent||'').indexOf('Buscar') !== -1; });\n\t\t\tif(!btn){ return false; }\n\t\t\tbtn.click();\n\t\t\treturn true;\n\t\t})("

-- const js of readTOTPSecretCandidates.
abbrev pub read_secret_js : Text
read_secret_js =
    codes
      "(function(){\n\t\tvar spanEl = document.querySelector(\"#kc-totp-secret-key\");\n\t\tvar hiddenEl = document.querySelector(\"[name=totpSecret], #totpSecret\");\n\t\treturn {\n\t\t\tspan: spanEl ? (spanEl.textContent || \"\") : \"\",\n\t\t\thidden: hiddenEl ? (hiddenEl.value || \"\") : \"\"\n\t\t};\n\t})()"

-- js of submitTOTPEnrollment, up to its arguments.
abbrev pub submit_enrollment_head : Text
submit_enrollment_head =
    codes
      "(function(code, label){\n\t\tvar totp = document.querySelector(\"#totp, input[name=totp]\");\n\t\tif(!totp){ return false; }\n\t\ttotp.value = code;\n\t\ttotp.dispatchEvent(new Event('input', {bubbles:true}));\n\t\ttotp.dispatchEvent(new Event('change', {bubbles:true}));\n\n\t\tvar userLabel = document.querySelector(\"#userLabel, input[name=userLabel]\");\n\t\tif(userLabel){\n\t\t\tuserLabel.value = label;\n\t\t\tuserLabel.dispatchEvent(new Event('input', {bubbles:true}));\n\t\t\tuserLabel.dispatchEvent(new Event('change', {bubbles:true}));\n\t\t}\n\n\t\tvar btn = document.querySelector(\"#saveTOTPBtn, input[type=submit], button[type=submit]\");\n\t\tif(btn){ btn.click(); return true; }\n\t\tif(totp.form){ totp.form.submit(); return true; }\n\t\treturn false;\n\t})("

unfoldable pub submit_two_fa_js : Text → Text
unfolding js_string
submit_two_fa_js code = submit_two_fa_head ++ (js_string code ++ codes ")")

unfoldable pub search_js : Text → Text
unfolding js_string
search_js num = search_head ++ (js_string num ++ codes ")")

unfoldable pub submit_enrollment_js : Text → Text → Text
unfolding js_string
submit_enrollment_js code label =
    submit_enrollment_head ++ (js_string code ++ (codes ", " ++ (js_string label ++ codes ")")))

-- The scripts that take no argument.
abbrev pub fixed_scripts : List Text
fixed_scripts =
    autenticar_ready_js ∷ click_link_js ∷ consulta_ready_js ∷ two_fa_present_js ∷ two_fa_visible_js
    ∷ click_cert_js ∷ read_secret_js ∷ []
