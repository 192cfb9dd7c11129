-- ===== src/Credentials.antt =====
-- apps/control-api/src/universal_agent_studio_api/publishing: principals.py, and the check of API
-- keys of crypto.py. `hmac`, base64, `json`, the texts of UUIDs and the methods of `str` that know
-- Unicode are functions of a record; one that may raise gives none. Times are seconds.
pub mod Capabilities
use Prim.Native.String.{◌++◌}
use universal_agent_studio.Prelude.{
  ℕ, leb, ◌==◌, String, str_eq, partition, remove_prefix, if◌then◌else◌, Bool, true, false, ◌&&◌,
  ◌||◌, not, Option, none, some, List, [], ◌∷◌, length,
}
use universal_agent_studio.Json.{
  Json, Fields, ℤ, obj, bool, field, end, str, int, pos, negsuc, as_int, get, json_eq,
}

abbrev pub Bytes : Type 0
Bytes = List ℕ

pub data PrincipalKind : Type 0 where
  published_web run_capability api_key : PrincipalKind

pub record PublicPrincipal : Type 0 where
  pub kind : PrincipalKind
  pub workspace_id : ℕ
  pub project_id : ℕ
  pub agent_id : String
  pub scopes : List String
  pub key_id : Option ℕ
  pub run_id : Option ℕ

pub record Library : Type 0 where
  pub mac : Bytes → Bytes → Bytes  -- `hmac.new(key, b"uas:run-capability:v1:" + payload, sha256)`
  pub key_mac : Bytes → String → String  -- `hmac.new(key, raw.encode(), sha256).hexdigest()`
  pub compare_digest : Bytes → Bytes → Bool
  pub b64encode : Bytes → String  -- without padding
  pub b64decode : String → Option Bytes  -- with padding added
  pub dumps : Json → Bytes
  pub loads : Bytes → Option Json
  pub text : Json → String  -- `str` of what is no text
  pub parse_int : String → Option ℤ
  pub uuid_text : ℕ → String
  pub parse_uuid : String → Option ℕ
  pub lower : String → String
  pub isdigit : String → Bool

infixl 5 ◌>>=◌ ◌>>◌
abbrev pub ◌>>=◌ : {A B : Type 0} → Option A → (A → Option B) → Option B
none >>= f = none
some a >>= f = f a

abbrev pub ◌>>◌ : {A B : Type 0} → Option A → Option B → Option B
m >> n = m >>= λ _. n

-- `if not test: raise ValueError`
abbrev pub check : Bool → Option (Unit {0})
check true = some tt
check false = none

-- `bytes.strip`
abbrev is_space : ℕ → Bool
is_space b = b == 32 || leb 9 b && leb b 13

abbrev lstrip : Bytes → Bytes
lstrip [] = []
lstrip (b ∷ bs) = if is_space b then lstrip bs else b ∷ bs

abbrev put_back : ℕ → Bytes → Bytes
put_back b [] = if is_space b then [] else b ∷ []
put_back b (c ∷ cs) = b ∷ c ∷ cs

abbrev rstrip : Bytes → Bytes
rstrip [] = []
rstrip (b ∷ bs) = put_back b (rstrip bs)

-- `_require_master_key`
unfoldable pub require_master_key : Bytes → Option Bytes
require_master_key master_key =
    let value = rstrip (lstrip master_key) in if leb 32 (length value) then some value else none

abbrev pub capability_fields : Library → ℕ → ℕ → String → ℕ → ℕ → Fields
capability_fields lib workspace_id project_id agent_id run_id expires_at = field "v" (int (pos 1)) (
    field "w" (str (lib.uuid_text workspace_id)) (
      field "p" (str (lib.uuid_text project_id)) (
        field "a" (str agent_id)
          (field "r" (str (lib.uuid_text run_id)) (field "exp" (int (pos expires_at)) end)))))

abbrev pub token_of : Library → Bytes → Bytes → String
token_of lib key payload =
    ("uascap_" ++ lib.b64encode payload) ++ ("." ++ lib.b64encode (lib.mac key payload))

-- `issue_run_capability`, at an aware time of expiry
unfoldable pub issue_run_capability : Library → Bytes → ℕ → ℕ → String → ℕ → ℕ → Option String
issue_run_capability lib master_key workspace_id project_id agent_id run_id expires_at = do
  let payload =
      lib.dumps (obj (capability_fields lib workspace_id project_id agent_id run_id expires_at))
  key ← require_master_key master_key
  some (token_of lib key payload)

-- `isinstance(document, dict)`
abbrev as_object : Json → Option Fields
as_object (obj fs) = some fs
as_object _ = none

-- `str(value)`, `UUID(str(value))` and `int(value)`
abbrev pub text_of : Library → Json → String
text_of lib (str s) = s
text_of lib v = lib.text v

abbrev pub uuid_of : Library → Json → Option ℕ
uuid_of lib v = lib.parse_uuid (text_of lib v)

abbrev pub integer_of : Library → Json → Option ℤ
integer_of lib (int n) = some n
integer_of lib (bool b) = some (as_int b)
integer_of lib (str s) = lib.parse_int s
integer_of lib _ = none

-- `now >= expires_at`
abbrev pub expired : ℕ → ℤ → Bool
expired now (pos n) = leb n now
expired now (negsuc n) = true

abbrev pub is_one : Option Json → Bool
is_one none = false
is_one (some v) = json_eq v (int (pos 1))

-- `verify_run_capability`, once the payload is known to be signed
unfoldable pub read_capability : Library → Fields → String → ℕ → ℕ → Option PublicPrincipal
read_capability lib document agent_id run_id now = do
  check (is_one (get "v" document))
  agent ← get "a" document
  run ← get "r" document
  token_run ← uuid_of lib run
  exp ← get "exp" document
  expires_at ← integer_of lib exp
  check
      (str_eq (text_of lib agent) agent_id && (token_run == run_id && not (expired now expires_at)))
  workspace ← get "w" document
  workspace_id ← uuid_of lib workspace
  project ← get "p" document
  project_id ← uuid_of lib project
  some (record {
    kind = run_capability;
    workspace_id = workspace_id;
    project_id = project_id;
    agent_id = text_of lib agent;
    scopes = "runs:read" ∷ "events:read" ∷ [];
    key_id = none;
    run_id = some token_run;
  })

-- The payload of a token that is signed with the key.
signed_parts : Library → Bytes → String × String → Option Bytes
signed_parts lib master_key (prefix, raw_signature) = do
  body ← remove_prefix "uascap_" prefix
  payload ← lib.b64decode body
  signature ← lib.b64decode raw_signature
  key ← require_master_key master_key
  check (lib.compare_digest signature (lib.mac key payload))
  some payload

unfoldable pub signed_payload : Library → Bytes → String → Option Bytes
unfolding signed_parts
signed_payload lib master_key raw = do parts ← partition b'.' raw; signed_parts lib master_key parts

-- `verify_run_capability`
unfoldable pub verify_run_capability :
    Library → Bytes → String → String → ℕ → ℕ → Option PublicPrincipal
verify_run_capability lib master_key raw agent_id run_id now = do
  payload ← signed_payload lib master_key raw
  loaded ← lib.loads payload
  document ← as_object loaded
  read_capability lib document agent_id run_id now
