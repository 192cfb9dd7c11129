-- ===== src/Tests/Public.antt =====
-- Credentials of the public API, over a library that writes numbers as strokes.

use universal_agent_studio.Prelude.{
  ℕ, zero, suc, ◌+◌, ◌≡◌, refl, String, str_eq, if◌then◌else◌, true, Option, none, some, [], ◌∷◌,
  ok, arith, lacks,
}
use universal_agent_studio.Json.{Json, Fields, obj, null}
use universal_agent_studio.Runs.{find_run}
use universal_agent_studio.RunService.{get_stored, stored}
use universal_agent_studio.RunService.Requests.{get_run}
use universal_agent_studio.Credentials.{
  Bytes, Library, require_master_key, capability_fields, issue_run_capability,
  verify_run_capability,
}
use universal_agent_studio.Credentials.Capabilities.{
  IsReliable, granted, verify_run_capability-issue_run_capability,
}
use universal_agent_studio.Public.{
  ApiKey, PublicConfig, PublicState, accept_key, authenticate_api_key, bearer, key_of_agent,
  key_prefix,
}
use universal_agent_studio.Public.Reading.{
  authorized_run, belongs_to_agent, principal_of, read_principal, rpartition_version,
}
use universal_agent_studio.Public.Access.{Reads, authorized_run-Reads}
use universal_agent_studio.Tests.RunService.{outside}
use universal_agent_studio.Tests.Streams.{afterwards, stored_run}

abbrev pub strokes : ℕ → String → String
strokes zero s = String.◌∷◌ "b" s
strokes (suc n) s = String.◌∷◌ "a" (strokes n s)

abbrev pub encode : Bytes → String
encode [] = String.[]
encode (b ∷ bs) = strokes b (encode bs)

abbrev put : ℕ → Option Bytes → Option Bytes
put b none = none
put b (some bs) = some (b ∷ bs)

abbrev pub decode : ℕ → String → Option Bytes
decode n String.[] = some []
decode n (String.◌∷◌ c s) =
    let ended = put n (decode 0 s) in
    let longer = decode (suc n) s in if lacks b'b' (String.◌∷◌ c String.[]) then longer else ended

decode-strokes : (k n : ℕ) (s : String) → decode k (strokes n s) ≡ put (k + n) (decode 0 s)
decode-strokes k zero s = ground arith
decode-strokes k (suc n) s = ground (arith, decode-strokes (suc k) n s)

pub decode-encode : (bs : Bytes) → decode 0 (encode bs) ≡ some bs
decode-encode [] = refl
decode-encode (b ∷ bs) = ground (arith, decode-strokes 0 b (encode bs), decode-encode bs)

lacks-strokes : (n : ℕ) (s : String) → lacks b'.' s ≡ true → lacks b'.' (strokes n s) ≡ true
lacks-strokes zero s h = h
lacks-strokes (suc n) s h = lacks-strokes n s h

pub lacks-encode : (bs : Bytes) → lacks b'.' (encode bs) ≡ true
lacks-encode [] = refl
lacks-encode (b ∷ bs) = lacks-strokes b (encode bs) (lacks-encode bs)

abbrev pub first : Option Bytes → Option ℕ
first none = none
first (some []) = none
first (some (b ∷ bs)) = some b

pub first-strokes : (n : ℕ) → first (decode 0 (strokes n String.[])) ≡ some n
first-strokes n = ground (arith, decode-strokes 0 n String.[])

abbrev fields : Library → Fields
fields lib = capability_fields lib 1 10 "calculator-agent" 70 500

abbrev written : Json → Library
written document = record {
  mac = λ key payload. key;
  key_mac = λ key raw. "hash";
  compare_digest = λ a b. true;
  b64encode = encode;
  b64decode = decode 0;
  dumps = λ j. [];
  loads = λ b. some document;
  text = λ j. "";
  parse_int = λ s. none;
  uuid_text = λ n. strokes n String.[];
  parse_uuid = λ s. first (decode 0 s);
  lower = λ s. if str_eq s "Bearer" then "bearer" else s;
  isdigit = λ s. str_eq s "1";
}

abbrev pub library : Library
library = written (obj (fields (written null)))

reliable : IsReliable library
reliable = record {
  decodes = decode-encode;
  dotless = lacks-encode;
  same = λ b. refl;
  parses = first-strokes;
}

abbrev pub bytes : ℕ → Bytes
bytes zero = []
bytes (suc n) = 120 ∷ bytes n

pub usable : require_master_key (bytes 32) ≡ some (bytes 32)
unfolding require_master_key
usable = refl

verify_run_capability-issue_run_capability_example :
    (raw : String) × (issue_run_capability library (bytes 32) 1 10 "calculator-agent" 70 500
      ≡ some raw)
    × (verify_run_capability library (bytes 32) raw "calculator-agent" 70 400
        ≡ some (granted 1 10 "calculator-agent" 70))
verify_run_capability-issue_run_capability_example =
    verify_run_capability-issue_run_capability library reliable (bytes 32) (bytes 32) 1 10
      "calculator-agent" 70 500 400 (fields library) usable refl (λ k. refl) (omega arith)

abbrev key : ApiKey
key = record {
  id = 9;
  workspace_id = 1;
  project_id = 10;
  agent_id = 5;
  prefix = "0123456789abcdef";
  key_hash = "hash";
  scopes = "runs:create" ∷ "runs:read" ∷ [];
  expires_at = some 900;
  revoked_at = none;
  last_used_at = none;
}

abbrev pub config : PublicConfig
config = record {
  library = library;
  api_key_hash_master = bytes 32;
  capability_master = bytes 32;
  now = 400;
}

abbrev pub state : PublicState
state = record { platform = afterwards; keys = key ∷ [] }

abbrev header : Option String
header = some "Bearer uas_live_0123456789abcdef_secret"

let_through :
    (authorized_run config outside "calculator-agent" 70 header "runs:read" state).0 ≡ ok stored_run
unfolding authorized_run read_principal principal_of bearer authenticate_api_key accept_key
    key_prefix key_of_agent require_master_key belongs_to_agent rpartition_version get_run
    get_stored stored find_run
let_through = refl

authorized_run-Reads_example :
    Reads config state "calculator-agent" 70 header "runs:read" stored_run
authorized_run-Reads_example =
    authorized_run-Reads config outside "calculator-agent" 70 header "runs:read" state stored_run
      let_through
