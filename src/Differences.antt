-- ===== src/Differences.antt =====
-- apps/control-api/src/universal_agent_studio_api/agents/draft_service.py: the preview of what a
-- candidate changes in a draft, `_diff_documents`. Pointers are read by their code points. The keys
-- of two objects are those of the first and then the new ones of the second, each with what it
-- contributes; they are sorted with their contributions.
pub mod Empty
use universal_agent_studio.Prelude.{
  ℕ, ◌==◌, ltb, String, codes, if◌then◌else◌, Bool, true, false, Option, none, some, List, [], ◌∷◌,
  ◌++◌,
}
use universal_agent_studio.Json.{
  Json, null, bool, int, str, arr, obj, Fields, end, field, get, json_eq,
}
use universal_agent_studio.Redaction.{redact}

-- `DraftDiffOperationView`
pub data Operation : Type 0 where
  add : List ℕ → Json → Operation
  remove : List ℕ → Json → Operation
  replace : List ℕ → Json → Json → Operation

-- `_pointer_part`: the tilde is replaced first, so the two replacements act on each character alone.
pointer_part : List ℕ → List ℕ
pointer_part [] = []
pointer_part (c ∷ cs) =
    if c == b'~'
    then b'~' ∷ b'0' ∷ pointer_part cs
    else if c == b'/'
    then b'~' ∷ b'1' ∷ pointer_part cs
    else c ∷ pointer_part cs

pub child_pointer : List ℕ → String → List ℕ
unfolding pointer_part
child_pointer pointer key = pointer ++ b'/' ∷ pointer_part (codes key)

-- A key with the operations under it.
abbrev pub Row : Type 0
Row = String × List Operation

-- The order of texts in Python, by code points.
abbrev codes_le : List ℕ → List ℕ → Bool
codes_le [] bs = true
codes_le (a ∷ as') [] = false
codes_le (a ∷ as') (b ∷ bs) = if a == b then codes_le as' bs else ltb a b

unfoldable pub insert : Row → List Row → List Row
insert r [] = r ∷ []
insert r (s ∷ rs) = if codes_le (codes r.0) (codes s.0) then r ∷ s ∷ rs else s ∷ insert r rs

unfoldable pub sort_rows : List Row → List Row
sort_rows [] = []
sort_rows (r ∷ rs) = insert r (sort_rows rs)

unfoldable pub operations_of : List Row → List Operation
operations_of [] = []
operations_of (r ∷ rs) = r.1 ++ operations_of rs

-- Keys of the second object that the first lacks.
unfoldable pub new_rows : List ℕ → Fields → Fields → List Row
unfolding child_pointer
new_rows pointer before end = []
new_rows pointer before (field k w gs) = elim (get k before) [
  | none ↦ (k, add (child_pointer pointer k) (redact w) ∷ []) ∷ new_rows pointer before gs
  | some v ↦ new_rows pointer before gs
]

-- Documents that are not both objects.
unfoldable pub diff_values : List ℕ → Json → Json → List Operation
diff_values pointer v w = if json_eq v w then [] else replace pointer (redact v) (redact w) ∷ []

abbrev pub kept_or_removed : List ℕ → Json → (Json → List Operation) → Option Json → List Operation
kept_or_removed pointer v diff none = remove pointer (redact v) ∷ []
kept_or_removed pointer v diff (some w) = diff w

unfoldable mutual
  unfolding child_pointer

  -- `_diff_documents`
  pub diff_documents : List ℕ → Json → Json → List Operation
  diff_documents pointer (obj fs) (obj gs) =
      operations_of (sort_rows (old_rows pointer fs gs ++ new_rows pointer fs gs))
  diff_documents pointer v w = diff_values pointer v w

  -- Keys of the first object.
  pub old_rows : List ℕ → Fields → Fields → List Row
  old_rows pointer end gs = []
  old_rows pointer (field k v fs) gs =
      let at = child_pointer pointer k in
      (k, kept_or_removed at v (diff_documents at v) (get k gs)) ∷ old_rows pointer fs gs
