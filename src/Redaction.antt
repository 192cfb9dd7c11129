-- ===== src/Redaction.antt =====
-- libs/python/agent_kernel/src/universal_agent_kernel/redaction/policy.py, and the search for
-- forbidden keys of contracts/validation.py. Keys are read by their code points. The proofs are in
-- the modules below.
pub mod Keys
pub mod Policy
use Prim.Native.Nat.{◌+◌}
use universal_agent_studio.Prelude.{
  ℕ, ◌==◌, leb, String, codes, if◌then◌else◌, Bool, true, false, ◌&&◌, ◌||◌, List, [], ◌∷◌, ◌++◌,
  keep,
}
use universal_agent_studio.Json.{
  Json, null, bool, int, str, arr, obj, Items, nil, cons, Fields, end, field,
}

abbrev pub forbidden_secret_keys : List String
forbidden_secret_keys =
    "accesstoken" ∷ "apikey" ∷ "authorization" ∷ "authtoken" ∷ "bearer" ∷ "bearertoken"
    ∷ "clientsecret" ∷ "password" ∷ "passphrase" ∷ "privatekey" ∷ "refreshtoken" ∷ "secret"
    ∷ "secretkey" ∷ "sessiontoken" ∷ "token" ∷ []

-- The character classes `[a-z0-9]` and `[A-Z]`.
abbrev pub is_lower_or_digit : ℕ → Bool
is_lower_or_digit c = leb b'a' c && leb c b'z' || leb b'0' c && leb c b'9'

abbrev is_upper : ℕ → Bool
is_upper c = leb b'A' c && leb c b'Z'

-- `re.sub(r"([a-z0-9])([A-Z])", r"\1_\2", key)`: a match takes both characters, and the scan goes
-- on behind it.
unfoldable pub snake_key : List ℕ → List ℕ
snake_key [] = []
snake_key (a ∷ []) = a ∷ []
snake_key (a ∷ b ∷ rest) =
    let matched = a ∷ b'_' ∷ b ∷ snake_key rest in
    let skipped = a ∷ snake_key (b ∷ rest) in
    if is_lower_or_digit a && is_upper b then matched else skipped

-- `str.lower`. Beyond ASCII only the Kelvin sign and the dotted capital I give characters of
-- `[a-z0-9]`; every other one stands for itself here, and the class below drops it either way.
abbrev lower_char : ℕ → List ℕ
lower_char c =
    if is_upper c
    then (c + 32) ∷ []
    else if c == 0x212a
    then b'k' ∷ []
    else if c == 0x130
    then b'i' ∷ 0x307 ∷ []
    else c ∷ []

unfoldable pub lower : List ℕ → List ℕ
lower [] = []
lower (c ∷ cs) = lower_char c ++ lower cs

-- `_normalized_key`; `re.sub(r"[^a-z0-9]", "", …)` keeps the class.
unfoldable pub normalized_codes : List ℕ → List ℕ
normalized_codes key = keep is_lower_or_digit (lower (snake_key key))

abbrev codes_eq : List ℕ → List ℕ → Bool
codes_eq [] [] = true
codes_eq [] (b ∷ bs) = false
codes_eq (a ∷ as') [] = false
codes_eq (a ∷ as') (b ∷ bs) = a == b && codes_eq as' bs

abbrev codes_mem : List ℕ → List String → Bool
codes_mem key [] = false
codes_mem key (s ∷ ss) = codes_eq key (codes s) || codes_mem key ss

-- `_normalized_key(key) in FORBIDDEN_SECRET_KEYS`
unfoldable pub is_forbidden : String → Bool
unfolding normalized_codes snake_key lower
is_forbidden key = codes_mem (normalized_codes (codes key)) forbidden_secret_keys

abbrev pub redacted : Json
redacted = str "[REDACTED]"

unfoldable mutual
  -- `DefaultRedactionPolicy.redact`
  pub redact : Json → Json
  redact null = null
  redact (bool b) = bool b
  redact (int n) = int n
  redact (str s) = str s
  redact (arr xs) = arr (redact_items xs)
  redact (obj fs) = obj (redact_fields fs)

  pub redact_items : Items → Items
  redact_items nil = nil
  redact_items (cons x xs) = cons (redact x) (redact_items xs)

  pub redact_fields : Fields → Fields
  redact_fields end = end
  redact_fields (field key child fs) =
      field key (if is_forbidden key then redacted else redact child) (redact_fields fs)

unfoldable mutual
  -- `find_forbidden_secret_keys`: the only code that it adds to its set, or nothing.
  pub has_forbidden : Json → Bool
  has_forbidden null = false
  has_forbidden (bool b) = false
  has_forbidden (int n) = false
  has_forbidden (str s) = false
  has_forbidden (arr xs) = has_forbidden_items xs
  has_forbidden (obj fs) = has_forbidden_fields fs

  pub has_forbidden_items : Items → Bool
  has_forbidden_items nil = false
  has_forbidden_items (cons x xs) = has_forbidden x || has_forbidden_items xs

  pub has_forbidden_fields : Fields → Bool
  has_forbidden_fields end = false
  has_forbidden_fields (field key child fs) =
      is_forbidden key || has_forbidden child || has_forbidden_fields fs

unfoldable pub find_forbidden_secret_keys : Json → List String
unfolding has_forbidden
find_forbidden_secret_keys value = if has_forbidden value then "secret_key_forbidden" ∷ [] else []
