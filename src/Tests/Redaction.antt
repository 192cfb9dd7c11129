-- ===== src/Tests/Redaction.antt =====
-- Witnesses for the theorems about redaction.
use universal_agent_studio.Prelude.{◌≡◌, refl, ◌↔◌, []}
use universal_agent_studio.Json.{Json, str, obj, field, end, arr, cons, nil}
use universal_agent_studio.Redaction.{
  redact, find_forbidden_secret_keys, has_forbidden, is_forbidden, redacted,
}
use universal_agent_studio.Redaction.Policy.{Agree, redact-eq_iff}

abbrev secretive : Json
secretive =
    obj (field "userPassword" (str "a") (field "API_Key" (str "b") (field "name" (str "c") end)))

abbrev plain : Json
plain = obj (field "name" (str "c") (field "tags" (arr (cons (str "d") nil)) end))

-- `userPassword` is no forbidden key, `API_Key` is one.
redact-secretive :
    redact secretive
    ≡ obj (field "userPassword" (str "a") (field "API_Key" redacted (field "name" (str "c") end)))
unfolding redact is_forbidden
redact-secretive = refl

redact-eq_iff_example : (redact secretive ≡ redact plain) ↔ Agree secretive plain
redact-eq_iff_example = redact-eq_iff secretive plain

clean : find_forbidden_secret_keys plain ≡ []
unfolding find_forbidden_secret_keys has_forbidden is_forbidden
clean = refl
