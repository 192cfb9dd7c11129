-- ===== src/Tests/Differences.antt =====
-- A preview of a candidate that renames one tool of an agent, drops one field and adds another.

use universal_agent_studio.Prelude.{◌≡◌, refl, ◌↔◌, true, [], ◌∷◌, codes}
use universal_agent_studio.Json.{Json, bool, str, obj, field, end, get, int, pos, json_eq}
use universal_agent_studio.Redaction.{redact, is_forbidden, redacted}
use universal_agent_studio.Differences.{
  add, remove, replace, diff_documents, sort_rows, insert, operations_of, new_rows, diff_values,
}
use universal_agent_studio.Differences.Empty.{diff_documents-empty}

abbrev before : Json
before = obj (field "name" (str "a") (field "tools" (obj (field "in/out" (int (pos 1)) end)) end))

abbrev after : Json
after = obj (
    field "tools" (obj (field "in/out" (int (pos 2)) end))
      (field "limits" (obj (field "token" (str "t") end)) end))

-- The keys are sorted, the slash is escaped, and what is added is redacted.
previewed :
    diff_documents [] before after
    ≡ add (codes "/limits") (obj (field "token" redacted end))
      ∷ remove (codes "/name") (str "a")
      ∷ replace (codes "/tools/in~1out") (int (pos 1)) (int (pos 2))
      ∷ []
unfolding diff_documents sort_rows insert operations_of new_rows diff_values get redact is_forbidden
    json_eq
previewed = refl

diff_documents-empty_example : (diff_documents [] before after ≡ []) ↔ (json_eq before after ≡ true)
unfolding get
diff_documents-empty_example =
    diff_documents-empty [] before after (refl, tt, (refl, (refl, tt, tt), tt))
      (refl, (refl, tt, tt), (refl, (refl, tt, tt), tt))

-- `True == 1`, so that this change is not shown.
unshown : diff_documents [] (bool true) (int (pos 1)) ≡ []
unfolding diff_documents diff_values json_eq
unshown = refl
