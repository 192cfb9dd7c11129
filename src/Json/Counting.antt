-- ===== src/Json/Counting.antt =====
-- Objects whose keys are among those of another have no more fields than it.
use universal_agent_studio.Prelude.{
  suc, ◌≤◌, ◌≡◌, refl, String, str_eq, str_eq_refl, eq_iff, true, false, Bool-cases, inl, inr, none,
  arith, is_some, if◌then◌else◌, Option-cases,
}
use universal_agent_studio.Json.{Json, Fields, end, field, get, size, json_eq, fields_within}
use universal_agent_studio.Json.Equality.{DistinctFields}

-- The keys of the first are keys of the second.
abbrev pub IsCovered : Fields → Fields → Type 0
IsCovered end gs = Unit
IsCovered (field k v fs) gs = (is_some (get k gs) ≡ true) × IsCovered fs gs

unfoldable without : String → Fields → Fields
without k end = end
without k (field j v fs) = if str_eq k j then fs else field j v (without k fs)

size-without :
    (k : String) (gs : Fields) → is_some (get k gs) ≡ true → suc (size (without k gs)) ≡ size gs
unfolding get size without
size-without k end h = cc
size-without k (field j v gs) h = elim (Bool-cases (str_eq k j)) [
  | inl same ↦ ground (arith, same)
  | inr other ↦ ground (arith, other, size-without k gs)
]

get-without : (j k : String) (gs : Fields) → str_eq k j ≡ false → get j (without k gs) ≡ get j gs
unfolding get without
get-without j k end h = refl
get-without j k (field i v gs) h = elim (Bool-cases (str_eq k i)) [
  | inl same ↦ ground (arith, same, eq_iff k i, eq_iff j i, eq_iff k j)
  | inr other ↦ ground (arith, other, get-without j k gs h)
]

-- A key that none of the fields has.
without-IsCovered :
    (k : String) (fs gs : Fields) → get k fs ≡ none → IsCovered fs gs → IsCovered fs (without k gs)
unfolding get
without-IsCovered k end gs h i = tt
without-IsCovered k (field j v fs) gs h i = elim (Bool-cases (str_eq k j)) [
  | inl same ↦ absurd (ground (arith, same, h))
  | inr other ↦ (
    ground (arith, get-without j k gs other, i.0),
    without-IsCovered k fs gs (ground (arith, other, h)) i.1,
  )
]

pub size-IsCovered : (fs gs : Fields) → DistinctFields fs → IsCovered fs gs → size fs ≤ size gs
unfolding size
size-IsCovered end gs h i = omega arith
size-IsCovered (field k v fs) gs h i =
    let rest = size-IsCovered fs (without k gs) h.2 (without-IsCovered k fs gs h.0 i.1) in
    omega (arith, rest, size-without k gs i.0)

pub fields_within-IsCovered : (fs gs : Fields) → fields_within fs gs ≡ true → IsCovered fs gs
unfolding json_eq
fields_within-IsCovered end gs h = tt
fields_within-IsCovered (field k v fs) gs h =
    (ground (arith, h), fields_within-IsCovered fs gs (ground (arith, h)))

-- Of two objects of one size, one of which covers the other, each covers the other.
covered_field :
    (k : String) (fs gs : Fields)
    → DistinctFields fs
    → IsCovered fs gs
    → size fs ≡ size gs
    → is_some (get k gs) ≡ true
    → is_some (get k fs) ≡ true
covered_field k fs gs d c e h = elim (Option-cases (get k fs)) [
  | inr (v, found) ↦ rw found refl
  | inl missing ↦
      let fewer = size-IsCovered fs (without k gs) d (without-IsCovered k fs gs missing c) in
      absurd (omega (arith, fewer, e, size-without k gs h))
]

-- Fields `hs` among those of `gs`.
pub converse-IsCovered :
    (hs fs gs : Fields)
    → DistinctFields fs
    → IsCovered fs gs
    → size fs ≡ size gs
    → IsCovered hs gs
    → IsCovered hs fs
converse-IsCovered end fs gs d c e i = tt
converse-IsCovered (field k v hs) fs gs d c e i =
    (covered_field k fs gs d c e i.0, converse-IsCovered hs fs gs d c e i.1)

-- An object covers itself, and more fields cover no less.
field-IsCovered :
    (k : String) (v : Json) (hs gs : Fields) → IsCovered hs gs → IsCovered hs (field k v gs)
unfolding get
field-IsCovered k v end gs i = tt
field-IsCovered k v (field j w hs) gs i = (ground (arith, i.0), field-IsCovered k v hs gs i.1)

pub self-IsCovered : (fs : Fields) → IsCovered fs fs
unfolding get
self-IsCovered end = tt
self-IsCovered (field k v fs) = (rw str_eq_refl refl, field-IsCovered k v fs fs (self-IsCovered fs))
