-- ===== src/Redaction/Policy.antt =====
-- What redaction hides and what it leaves.
use universal_agent_studio.Prelude.{
  ◌≡◌, refl, ap, String, true, false, arith, Bool-cases, inl, inr, ◌↔◌, subst, [],
}
use universal_agent_studio.Json.{
  Json, null, bool, int, str, arr, obj, Items, nil, cons, Fields, end, field,
}
use universal_agent_studio.Redaction.{
  is_forbidden, redacted, redact, redact_items, redact_fields, has_forbidden, has_forbidden_items,
  has_forbidden_fields, find_forbidden_secret_keys,
}

mutual
  unfolding redact

  redact_twice : (v : Json) → redact (redact v) ≡ redact v
  redact_twice null = refl
  redact_twice (bool b) = refl
  redact_twice (int n) = refl
  redact_twice (str s) = refl
  redact_twice (arr xs) = ap arr (redact_items_twice xs)
  redact_twice (obj fs) = ap obj (redact_fields_twice fs)

  redact_items_twice : (xs : Items) → redact_items (redact_items xs) ≡ redact_items xs
  redact_items_twice nil = refl
  redact_items_twice (cons x xs) = cc (redact_twice x, redact_items_twice xs)

  redact_fields_twice : (fs : Fields) → redact_fields (redact_fields fs) ≡ redact_fields fs
  redact_fields_twice end = refl
  redact_fields_twice (field key child fs) =
      ground (arith, redact_twice child, redact_fields_twice fs)

-- Redacting a document twice is redacting it once.
pub redact_idem : (v : Json) → redact (redact v) ≡ redact v
redact_idem v = redact_twice v

mutual
  -- The same document, but for what stands under forbidden keys.
  pub data Agree : Json → Json → Type 0 where
    same : (v : Json) → Agree v v
    items : {xs ys : Items} → AgreeItems xs ys → Agree (arr xs) (arr ys)
    members : {fs gs : Fields} → AgreeFields fs gs → Agree (obj fs) (obj gs)

  pub data AgreeItems : Items → Items → Type 0 where
    no_items : AgreeItems nil nil
    item :
        {x y : Json} {xs ys : Items}
        → Agree x y
        → AgreeItems xs ys
        → AgreeItems (cons x xs) (cons y ys)

  pub data AgreeFields : Fields → Fields → Type 0 where
    no_members : AgreeFields end end
    secret :
        {key : String} {v w : Json} {fs gs : Fields}
        → is_forbidden key ≡ true
        → AgreeFields fs gs
        → AgreeFields (field key v fs) (field key w gs)
    member :
        {key : String} {v w : Json} {fs gs : Fields}
        → Agree v w
        → AgreeFields fs gs
        → AgreeFields (field key v fs) (field key w gs)

mutual
  unfolding redact

  Agree→eq : {v w : Json} → Agree v w → redact v ≡ redact w
  Agree→eq (same v) = refl
  Agree→eq (items h) = ap arr (AgreeItems→eq h)
  Agree→eq (members h) = ap obj (AgreeFields→eq h)

  AgreeItems→eq : {xs ys : Items} → AgreeItems xs ys → redact_items xs ≡ redact_items ys
  AgreeItems→eq no_items = refl
  AgreeItems→eq (item h t) = cc (Agree→eq h, AgreeItems→eq t)

  AgreeFields→eq : {fs gs : Fields} → AgreeFields fs gs → redact_fields fs ≡ redact_fields gs
  AgreeFields→eq no_members = refl
  AgreeFields→eq (secret {key = k} h t) = rw h (ap (field k redacted) (AgreeFields→eq t))
  AgreeFields→eq (member {key = k} h t) = ground (arith, Agree→eq h, AgreeFields→eq t)

mutual
  unfolding redact

  eq→Agree : (v w : Json) → redact v ≡ redact w → Agree v w
  eq→Agree (arr xs) (arr ys) h = items (eq→AgreeItems xs ys (cc))
  eq→Agree (obj fs) (obj gs) h = members (eq→AgreeFields fs gs (cc))
  eq→Agree (arr xs) _ h = cc
  eq→Agree (obj fs) _ h = cc
  eq→Agree null null h = same null
  eq→Agree null _ h = cc
  eq→Agree (bool b) (bool c) h = subst (λ x. Agree (bool b) x) h (same (bool b))
  eq→Agree (bool b) _ h = cc
  eq→Agree (int n) (int m) h = subst (λ x. Agree (int n) x) h (same (int n))
  eq→Agree (int n) _ h = cc
  eq→Agree (str s) (str t) h = subst (λ x. Agree (str s) x) h (same (str s))
  eq→Agree (str s) _ h = cc

  eq→AgreeItems : (xs ys : Items) → redact_items xs ≡ redact_items ys → AgreeItems xs ys
  eq→AgreeItems nil nil h = no_items
  eq→AgreeItems (cons x xs) (cons y ys) h = item (eq→Agree x y (cc)) (eq→AgreeItems xs ys (cc))
  eq→AgreeItems nil (cons y ys) h = cc
  eq→AgreeItems (cons x xs) nil h = cc

  eq→AgreeFields : (fs gs : Fields) → redact_fields fs ≡ redact_fields gs → AgreeFields fs gs
  eq→AgreeFields end end h = no_members
  eq→AgreeFields (field k v fs) (field l w gs) h =
      let rest = eq→AgreeFields fs gs (cc) in
      let child = eq→Agree v w in
      let e : k ≡ l = cc in
      subst (λ x. AgreeFields (field k v fs) (field x w gs)) e
        (elim (Bool-cases (is_forbidden k)) [
          | inl f ↦ secret f rest
          | inr n ↦ member (child (ground arith)) rest
        ])
  eq→AgreeFields end (field l w gs) h = cc
  eq→AgreeFields (field k v fs) end h = cc

-- Two documents redact to the same one exactly when they agree on everything but the values under
-- forbidden keys: so the redacted document says nothing of those values, and keeps all the rest.
pub redact-eq_iff : (v w : Json) → (redact v ≡ redact w) ↔ Agree v w
redact-eq_iff v w = (eq→Agree v w, Agree→eq)

mutual
  unfolding redact has_forbidden

  redact_clean : (v : Json) → has_forbidden v ≡ false → redact v ≡ v
  redact_clean null h = refl
  redact_clean (bool b) h = refl
  redact_clean (int n) h = refl
  redact_clean (str s) h = refl
  redact_clean (arr xs) h = ap arr (redact_items_clean xs h)
  redact_clean (obj fs) h = ap obj (redact_fields_clean fs h)

  redact_items_clean : (xs : Items) → has_forbidden_items xs ≡ false → redact_items xs ≡ xs
  redact_items_clean nil h = refl
  redact_items_clean (cons x xs) h = ground (arith, redact_clean x, redact_items_clean xs)

  redact_fields_clean : (fs : Fields) → has_forbidden_fields fs ≡ false → redact_fields fs ≡ fs
  redact_fields_clean end h = refl
  redact_fields_clean (field k v fs) h = ground (arith, redact_clean v, redact_fields_clean fs)

mutual
  unfolding redact has_forbidden

  has_forbidden_kept : (v : Json) → has_forbidden (redact v) ≡ has_forbidden v
  has_forbidden_kept null = refl
  has_forbidden_kept (bool b) = refl
  has_forbidden_kept (int n) = refl
  has_forbidden_kept (str s) = refl
  has_forbidden_kept (arr xs) = has_forbidden_items_kept xs
  has_forbidden_kept (obj fs) = has_forbidden_fields_kept fs

  has_forbidden_items_kept :
      (xs : Items) → has_forbidden_items (redact_items xs) ≡ has_forbidden_items xs
  has_forbidden_items_kept nil = refl
  has_forbidden_items_kept (cons x xs) =
      ground (arith, has_forbidden_kept x, has_forbidden_items_kept xs)

  has_forbidden_fields_kept :
      (fs : Fields) → has_forbidden_fields (redact_fields fs) ≡ has_forbidden_fields fs
  has_forbidden_fields_kept end = refl
  has_forbidden_fields_kept (field k v fs) =
      ground (arith, has_forbidden_kept v, has_forbidden_fields_kept fs)

-- A document in which the search for forbidden keys finds nothing is left as it is by redaction.
pub redact_unforbidden : (v : Json) → find_forbidden_secret_keys v ≡ [] → redact v ≡ v
unfolding find_forbidden_secret_keys
redact_unforbidden v h = redact_clean v (ground arith)

-- Redaction changes nothing of what the search for forbidden keys finds, in any document.
pub find_forbidden-redact :
    (v : Json) → find_forbidden_secret_keys (redact v) ≡ find_forbidden_secret_keys v
unfolding find_forbidden_secret_keys
find_forbidden-redact v = rw has_forbidden_kept
