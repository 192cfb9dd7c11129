-- ===== src/Json/Equality.antt =====
-- Documents with distinct keys, as every Python dictionary is, under `==`.
use universal_agent_studio.Prelude.{
  ==_refl, ◌≡◌, refl, String, str_eq_refl, eq_iff, true, false, none, some, arith,
}
use universal_agent_studio.Json.{
  pos, negsuc, Json, null, bool, int, str, arr, obj, Items, nil, cons, Fields, end, field, get,
  json_eq, items_eq, fields_within,
}

abbrev mutual
  pub HasDistinctKeys : Json → Type 0
  HasDistinctKeys (arr xs) = DistinctItems xs
  HasDistinctKeys (obj fs) = DistinctFields fs
  HasDistinctKeys _ = Unit

  pub DistinctItems : Items → Type 0
  DistinctItems nil = Unit
  DistinctItems (cons x xs) = HasDistinctKeys x × DistinctItems xs

  pub DistinctFields : Fields → Type 0
  DistinctFields end = Unit
  DistinctFields (field k v fs) = (get k fs ≡ none) × HasDistinctKeys v × DistinctFields fs

-- Each field of the first is what the second has under its key.
abbrev Within : Fields → Fields → Type 0
Within end gs = Unit
Within (field k v fs) gs = (get k gs ≡ some v) × Within fs gs

Within-field :
    (k : String) (w : Json) (fs gs : Fields)
    → get k fs ≡ none
    → Within fs gs
    → Within fs (field k w gs)
unfolding get
Within-field k w end gs h i = tt
Within-field k w (field j v fs) gs h i = (
  ground (arith, eq_iff j k, eq_iff k j),
  Within-field k w fs gs (ground (arith, eq_iff k j)) i.1,
)

Within-self : (fs : Fields) → DistinctFields fs → Within fs fs
unfolding get
Within-self end h = tt
Within-self (field k v fs) h =
    (rw str_eq_refl refl, Within-field k v fs fs h.0 (Within-self fs h.2))

mutual
  unfolding json_eq

  json_eq_self : (v : Json) → HasDistinctKeys v → json_eq v v ≡ true
  json_eq_self null h = refl
  json_eq_self (bool true) h = refl
  json_eq_self (bool false) h = refl
  json_eq_self (int (pos n)) h = ==_refl n
  json_eq_self (int (negsuc n)) h = ==_refl n
  json_eq_self (str s) h = str_eq_refl s
  json_eq_self (arr xs) h = items_eq_self xs h
  json_eq_self (obj fs) h = ground (arith, fields_within_self fs fs h (Within-self fs h))

  items_eq_self : (xs : Items) → DistinctItems xs → items_eq xs xs ≡ true
  items_eq_self nil h = refl
  items_eq_self (cons x xs) h = ground (arith, json_eq_self x h.0, items_eq_self xs h.1)

  fields_within_self :
      (fs gs : Fields) → DistinctFields fs → Within fs gs → fields_within fs gs ≡ true
  fields_within_self end gs h i = refl
  fields_within_self (field k v fs) gs h i =
      ground (arith, json_eq_self v h.1, fields_within_self fs gs h.2 i.1, i.0)

-- A document with distinct keys at every level equals itself.
pub json_eq_refl : (v : Json) → HasDistinctKeys v → json_eq v v ≡ true
json_eq_refl v h = json_eq_self v h
