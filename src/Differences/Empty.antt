-- ===== src/Differences/Empty.antt =====
-- When a preview shows no operation.
use universal_agent_studio.Prelude.{
  ℕ, ◌≡◌, refl, ◌↔◌, true, Bool-cases, Option-cases, some, inl, inr, List, [], ◌∷◌, ◌++◌, String,
  str_eq, subst, codes, All, All-append, arith,
}
use universal_agent_studio.Json.{
  Json, null, bool, int, str, arr, obj, Fields, end, field, get, size, json_eq, fields_within,
}
use universal_agent_studio.Json.Equality.{HasDistinctKeys, DistinctFields}
use universal_agent_studio.Json.Counting.{
  IsCovered, size-IsCovered, fields_within-IsCovered, converse-IsCovered, self-IsCovered,
}
use universal_agent_studio.Differences.{
  Operation, Row, codes_le, insert, sort_rows, operations_of, new_rows, old_rows, diff_values,
  child_pointer, diff_documents,
}

abbrev IsQuiet : Row → Type 0
IsQuiet r = r.1 ≡ []

append-empty : (xs ys : List Operation) → xs ++ ys ≡ [] → (xs ≡ []) × (ys ≡ [])
append-empty [] ys h = (refl, h)
append-empty (x ∷ xs) ys h = cc

insert-empty :
    (r : Row) (rs : List Row)
    → operations_of (insert r rs) ≡ []
    → (r.1 ≡ []) × (operations_of rs ≡ [])
unfolding insert operations_of
insert-empty r [] h = append-empty r.1 [] h
insert-empty r (s ∷ rs) h = elim (Bool-cases (codes_le (codes r.0) (codes s.0))) [
  | inl before ↦ append-empty r.1 (s.1 ++ operations_of rs) (rw before at h)
  | inr behind ↦
      let (first, later) = append-empty s.1 (operations_of (insert r rs)) (rw behind at h) in
      let (new, rest) = insert-empty r rs later in (new, rw first rest)
]

empty-insert :
    (r : Row) (rs : List Row) → r.1 ≡ [] → operations_of rs ≡ [] → operations_of (insert r rs) ≡ []
unfolding insert operations_of
empty-insert r [] h i = rw h refl
empty-insert r (s ∷ rs) h i = elim (Bool-cases (codes_le (codes r.0) (codes s.0))) [
  | inl before ↦ rw (before, h) i
  | inr behind ↦
      let (first, later) = append-empty s.1 (operations_of rs) i in
      rw (behind, first) (empty-insert r rs h later)
]

sorted-IsQuiet : (rs : List Row) → operations_of (sort_rows rs) ≡ [] → All IsQuiet rs
unfolding sort_rows
sorted-IsQuiet [] h = tt
sorted-IsQuiet (r ∷ rs) h =
    let (first, rest) = insert-empty r (sort_rows rs) h in (first, sorted-IsQuiet rs rest)

IsQuiet-sorted : (rs : List Row) → All IsQuiet rs → operations_of (sort_rows rs) ≡ []
unfolding sort_rows operations_of
IsQuiet-sorted [] h = refl
IsQuiet-sorted (r ∷ rs) h = empty-insert r (sort_rows rs) h.0 (IsQuiet-sorted rs h.1)

All-parts : (rs ss : List Row) → All IsQuiet (rs ++ ss) → All IsQuiet rs × All IsQuiet ss
All-parts [] ss h = (tt, h)
All-parts (r ∷ rs) ss h = let (left, right) = All-parts rs ss h.1 in ((h.0, left), right)

-- No key is new exactly when the first object covers the second.
new_rows-IsCovered :
    (p : List ℕ) (fs gs : Fields) → All IsQuiet (new_rows p fs gs) → IsCovered gs fs
unfolding new_rows
new_rows-IsCovered p fs end h = tt
new_rows-IsCovered p fs (field k w gs) h = elim (Option-cases (get k fs)) [
  | inl missing ↦ let shown = rw (missing, All) at h in cc (shown.0)
  | inr (v, found) ↦ (rw found refl, new_rows-IsCovered p fs gs (rw (found, All) at h))
]

new_rows-IsQuiet : (p : List ℕ) (fs gs : Fields) → IsCovered gs fs → All IsQuiet (new_rows p fs gs)
unfolding new_rows
new_rows-IsQuiet p fs end h = tt
new_rows-IsQuiet p fs (field k w gs) h = elim (Option-cases (get k fs)) [
  | inl missing ↦ let none_is_some = rw missing at h.0 in cc
  | inr (v, found) ↦ rw (found, All) (new_rows-IsQuiet p fs gs h.1)
]

diff_values-empty : (p : List ℕ) (v w : Json) → (diff_values p v w ≡ []) ↔ (json_eq v w ≡ true)
unfolding diff_values
diff_values-empty p v w = elim (Bool-cases (json_eq v w)) [
  | inl same ↦ (λ h. same, λ h. rw same refl)
  | inr other ↦ (λ h. cc (rw other at h), λ h. cc (h, other))
]

distinct_get :
    (k : String) (fs : Fields) (v : Json)
    → DistinctFields fs
    → get k fs ≡ some v
    → HasDistinctKeys v
unfolding get
distinct_get k end v d h = cc
distinct_get k (field j w fs) v d h = elim (Bool-cases (str_eq k j)) [
  | inl same ↦ subst HasDistinctKeys (ground (arith, rw same at h)) d.1
  | inr other ↦ distinct_get k fs v d.2 (rw other at h)
]

mutual
  unfolding diff_documents json_eq

  diff→eq :
      (p : List ℕ) (v w : Json)
      → HasDistinctKeys v
      → HasDistinctKeys w
      → diff_documents p v w ≡ []
      → json_eq v w ≡ true
  diff→eq p (obj fs) (obj gs) d e h =
      let (old, new) = All-parts (old_rows p fs gs) (new_rows p fs gs) (sorted-IsQuiet _ h) in
      let within = old→within p fs gs d e old in
      let more = size-IsCovered fs gs d (fields_within-IsCovered fs gs within) in
      let fewer = size-IsCovered gs fs e (new_rows-IsCovered p fs gs new) in
      ground (arith, within, more, fewer)
  diff→eq p (obj fs) null d e h = (diff_values-empty p (obj fs) null).0 h
  diff→eq p (obj fs) (bool b) d e h = (diff_values-empty p (obj fs) (bool b)).0 h
  diff→eq p (obj fs) (int n) d e h = (diff_values-empty p (obj fs) (int n)).0 h
  diff→eq p (obj fs) (str s) d e h = (diff_values-empty p (obj fs) (str s)).0 h
  diff→eq p (obj fs) (arr xs) d e h = (diff_values-empty p (obj fs) (arr xs)).0 h
  diff→eq p null w d e h = (diff_values-empty p null w).0 h
  diff→eq p (bool b) w d e h = (diff_values-empty p (bool b) w).0 h
  diff→eq p (int n) w d e h = (diff_values-empty p (int n) w).0 h
  diff→eq p (str s) w d e h = (diff_values-empty p (str s) w).0 h
  diff→eq p (arr xs) w d e h = (diff_values-empty p (arr xs) w).0 h

  old→within :
      (p : List ℕ) (fs gs : Fields)
      → DistinctFields fs
      → DistinctFields gs
      → All IsQuiet (old_rows p fs gs)
      → fields_within fs gs ≡ true
  old→within p end gs d e h = refl
  old→within p (field k v fs) gs d e h = elim (Option-cases (get k gs)) [
    | inl missing ↦ let removed = rw (missing, All) at h.0 in cc
    | inr (w, found) ↦
        let same =
          diff→eq (child_pointer p k) v w d.1 (distinct_get k gs w e found)
            (rw (found, All) at h.0) in
        rw (found, same) (old→within p fs gs d.2 e h.1)
  ]

mutual
  unfolding diff_documents json_eq

  eq→diff :
      (p : List ℕ) (v w : Json) → HasDistinctKeys v → json_eq v w ≡ true → diff_documents p v w ≡ []
  eq→diff p (obj fs) (obj gs) d h =
      let within : fields_within fs gs ≡ true = ground (arith, h) in
      let sizes : size fs ≡ size gs = ground (arith, h) in
      let covers = fields_within-IsCovered fs gs within in
      let covered = converse-IsCovered gs fs gs d covers sizes (self-IsCovered gs) in
      IsQuiet-sorted _ (
        All-append IsQuiet (old_rows p fs gs) (new_rows p fs gs) (within→old p fs gs d within)
          (new_rows-IsQuiet p fs gs covered))
  eq→diff p (obj fs) null d h = (diff_values-empty p (obj fs) null).1 h
  eq→diff p (obj fs) (bool b) d h = (diff_values-empty p (obj fs) (bool b)).1 h
  eq→diff p (obj fs) (int n) d h = (diff_values-empty p (obj fs) (int n)).1 h
  eq→diff p (obj fs) (str s) d h = (diff_values-empty p (obj fs) (str s)).1 h
  eq→diff p (obj fs) (arr xs) d h = (diff_values-empty p (obj fs) (arr xs)).1 h
  eq→diff p null w d h = (diff_values-empty p null w).1 h
  eq→diff p (bool b) w d h = (diff_values-empty p (bool b) w).1 h
  eq→diff p (int n) w d h = (diff_values-empty p (int n) w).1 h
  eq→diff p (str s) w d h = (diff_values-empty p (str s) w).1 h
  eq→diff p (arr xs) w d h = (diff_values-empty p (arr xs) w).1 h

  within→old :
      (p : List ℕ) (fs gs : Fields)
      → DistinctFields fs
      → fields_within fs gs ≡ true
      → All IsQuiet (old_rows p fs gs)
  within→old p end gs d h = tt
  within→old p (field k v fs) gs d h = elim (Option-cases (get k gs)) [
    | inl missing ↦ absurd (ground (arith, missing, h))
    | inr (w, found) ↦
        let same : json_eq v w ≡ true = ground (arith, found, h) in
        let rest : fields_within fs gs ≡ true = ground (arith, found, h) in
        rw (found, All) (eq→diff (child_pointer p k) v w d.1 same, within→old p fs gs d.2 rest)
  ]

-- A preview shows no operation exactly when the candidate equals the stored document under `==` of
-- Python, whatever the order of the keys. The keys of each object are distinct.
pub diff_documents-empty :
    (pointer : List ℕ) (before after : Json)
    → HasDistinctKeys before
    → HasDistinctKeys after
    → (diff_documents pointer before after ≡ []) ↔ (json_eq before after ≡ true)
diff_documents-empty pointer before after d e =
    (diff→eq pointer before after d e, eq→diff pointer before after d)
