-- ===== src/Envelope.antt =====
-- libs/python/agent_kernel/src/universal_agent_kernel/execution/envelope.py, and `_trusted_command` of
-- workers/runtime/src/universal_agent_studio_runtime/activities/execution.py. HMAC, the canonical
-- encoding, `str` and UUIDs are functions of a record.
pub mod Signed
use universal_agent_studio.Prelude.{
  ℕ, leb, ◌==◌, String, str_eq, codes, length, if◌then◌else◌, Bool, true, false, ◌&&◌, Option, none,
  some, List, [], ◌∷◌, Result, ok, err,
}
use universal_agent_studio.Json.{Json, Fields, obj, field, end, str, get}
use universal_agent_studio.Credentials.{Bytes}
use universal_agent_studio.RunService.{DurableCommand}

pub data EnvelopeError : Type 0 where
  execution_command_invalid execution_signing_key_too_short execution_envelope_invalid :
      EnvelopeError

pub record Signing : Type 0 where
  pub uuid_text : ℕ → String
  pub parse_uuid : String → Option ℕ
  pub text : Json → String  -- `str` of what is no text
  pub canonicalize : Json → Bytes
  pub hexdigest : Bytes → Bytes → String  -- of a key and a text

infixl 5 ◌>>=◌ ◌>>◌
abbrev pub ◌>>=◌ :
    {A B : Type 0} → Result EnvelopeError A → (A → Result EnvelopeError B) → Result EnvelopeError B
ok a >>= f = f a
err e >>= f = err e

abbrev pub ◌>>◌ :
    {A B : Type 0} → Result EnvelopeError A → Result EnvelopeError B → Result EnvelopeError B
m >> n = m >>= λ _. n

abbrev pub check : Bool → EnvelopeError → Result EnvelopeError (Unit {0})
check true e = ok tt
check false e = err e

abbrev pub demand : {A : Type 0} → Option A → EnvelopeError → Result EnvelopeError A
demand none e = err e
demand (some a) e = ok a

-- `execution_command_to_document`
abbrev pub command_fields : Signing → DurableCommand → Fields
command_fields lib c = field "run_id" (str (lib.uuid_text c.run_id)) (
    field "request_id" (str (lib.uuid_text c.request_id)) (
      field "workspace_id" (str (lib.uuid_text c.workspace_id)) (
        field "project_id" (str (lib.uuid_text c.project_id)) (
          field "agent_version_id" (str c.agent_version_id) (
            field "agent_version_digest" (str c.agent_version_digest) (
              field "agent_spec" c.agent_spec
                (field "input" c.input (field "locale" (str c.locale) end))))))))

-- `document[key]`, `str(document[key])` and `UUID(str(document[key]))`
abbrev text_of : Signing → Json → String
text_of lib (str s) = s
text_of lib v = lib.text v

abbrev value_at : String → Fields → Result EnvelopeError Json
value_at key document = demand (get key document) execution_command_invalid

abbrev uuid_at : Signing → String → Fields → Result EnvelopeError ℕ
uuid_at lib key document = do
  v ← value_at key document
  demand (lib.parse_uuid (text_of lib v)) execution_command_invalid

abbrev text_at : Signing → String → Fields → Result EnvelopeError String
text_at lib key document = do v ← value_at key document; ok (text_of lib v)

-- `execution_command_from_document`
unfoldable pub execution_command_from_document :
    Signing → Fields → Result EnvelopeError DurableCommand
execution_command_from_document lib document = do
  run_id ← uuid_at lib "run_id" document
  request_id ← uuid_at lib "request_id" document
  workspace_id ← uuid_at lib "workspace_id" document
  project_id ← uuid_at lib "project_id" document
  agent_version_id ← text_at lib "agent_version_id" document
  agent_version_digest ← text_at lib "agent_version_digest" document
  agent_spec ← value_at "agent_spec" document
  input ← value_at "input" document
  locale ← text_at lib "locale" document
  ok (record {
    run_id = run_id;
    request_id = request_id;
    workspace_id = workspace_id;
    project_id = project_id;
    agent_version_id = agent_version_id;
    agent_version_digest = agent_version_digest;
    agent_spec = agent_spec;
    input = input;
    locale = locale;
  })

-- `_validated_key`
abbrev pub validated_key : Bytes → Result EnvelopeError Bytes
validated_key signing_key =
    if leb 32 (length signing_key) then ok signing_key else err execution_signing_key_too_short

-- `sign_execution_command`
unfoldable pub sign_execution_command :
    Signing → DurableCommand → Bytes → Result EnvelopeError Fields
sign_execution_command lib c signing_key = do
  let payload = obj (command_fields lib c)
  key ← validated_key signing_key
  ok (
      field "payload" payload
        (field "signature" (str (lib.hexdigest key (lib.canonicalize payload))) end))

verify_signed : Signing → Bytes → Option Json → Option Json → Result EnvelopeError DurableCommand
verify_signed lib signing_key (some (obj payload)) (some (str signature)) = do
  key ← validated_key signing_key
  let expected = lib.hexdigest key (lib.canonicalize (obj payload))
  check (length (codes signature) == 64 && str_eq signature expected) execution_envelope_invalid
  execution_command_from_document lib payload
verify_signed lib signing_key _ _ = err execution_envelope_invalid

-- `verify_execution_envelope`
unfoldable pub verify_execution_envelope :
    Signing → Fields → Bytes → Result EnvelopeError DurableCommand
unfolding verify_signed
verify_execution_envelope lib envelope signing_key =
    verify_signed lib signing_key (get "payload" envelope) (get "signature" envelope)

-- `_trusted_command`
trusted : Signing → Bytes → Option Json → Result EnvelopeError DurableCommand
trusted lib signing_key (some (obj envelope)) = verify_execution_envelope lib envelope signing_key
trusted lib signing_key _ = err execution_envelope_invalid

unfoldable pub trusted_command : Signing → Bytes → Fields → Result EnvelopeError DurableCommand
unfolding trusted
trusted_command lib signing_key activity_input =
    trusted lib signing_key (get "envelope" activity_input)
