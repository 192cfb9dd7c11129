-- ===== src/Json.antt =====
-- JSON documents, as the Python values that `json.loads` gives for them: `dict[str, Any]`, `list`,
-- `str`, `int`, `bool` and None. Floats are left out. An object is the list of its fields, in the
-- order of insertion, which is the order of iteration.
pub mod Equality
pub mod Counting
use universal_agent_studio.Prelude.{
  ℕ, ◌==◌, String, str_eq, if◌then◌else◌, Bool, true, false, ◌&&◌, Option, none, some, suc,
}

pub data ℤ : Type 0 where
  pos : ℕ → ℤ
  negsuc : ℕ → ℤ

mutual
  pub data Json : Type 0 where
    null : Json
    bool : Bool → Json
    int : ℤ → Json
    str : String → Json
    arr : Items → Json
    obj : Fields → Json

  pub data Items : Type 0 where
    nil : Items
    cons : Json → Items → Items

  pub data Fields : Type 0 where
    end : Fields
    field : String → Json → Fields → Fields

-- `fields.get(key)`, where the key is there.
unfoldable pub get : String → Fields → Option Json
get key end = none
get key (field k v fs) = if str_eq key k then some v else get key fs

-- `value[key]`: none where it raises, for a missing key or a value that is no dictionary.
abbrev pub item : String → Json → Option Json
item key (obj fs) = get key fs
item key _ = none

unfoldable pub size : Fields → ℕ
size end = 0
size (field k v fs) = suc (size fs)

abbrev bool_eq : Bool → Bool → Bool
bool_eq true true = true
bool_eq false false = true
bool_eq _ _ = false

abbrev int_eq : ℤ → ℤ → Bool
int_eq (pos a) (pos b) = a == b
int_eq (negsuc a) (negsuc b) = a == b
int_eq _ _ = false

-- `True == 1` and `False == 0` in Python.
abbrev pub as_int : Bool → ℤ
as_int true = pos 1
as_int false = pos 0

abbrev has_value : (Json → Bool) → Option Json → Bool
has_value same none = false
has_value same (some w) = same w

-- `==` of Python: dictionaries are equal whatever the order of their keys.
unfoldable mutual
  pub json_eq : Json → Json → Bool
  json_eq null null = true
  json_eq null _ = false
  json_eq (bool a) (bool b) = bool_eq a b
  json_eq (bool a) (int n) = int_eq (as_int a) n
  json_eq (bool a) _ = false
  json_eq (int n) (int m) = int_eq n m
  json_eq (int n) (bool b) = int_eq n (as_int b)
  json_eq (int n) _ = false
  json_eq (str s) (str t) = str_eq s t
  json_eq (str s) _ = false
  json_eq (arr xs) (arr ys) = items_eq xs ys
  json_eq (arr xs) _ = false
  json_eq (obj fs) (obj gs) = size fs == size gs && fields_within fs gs
  json_eq (obj fs) _ = false

  pub items_eq : Items → Items → Bool
  items_eq nil nil = true
  items_eq nil (cons y ys) = false
  items_eq (cons x xs) nil = false
  items_eq (cons x xs) (cons y ys) = json_eq x y && items_eq xs ys

  -- Every field of the first is in the second, with an equal value.
  pub fields_within : Fields → Fields → Bool
  fields_within end gs = true
  fields_within (field k v fs) gs = has_value (json_eq v) (get k gs) && fields_within fs gs
