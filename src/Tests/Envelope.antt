-- ===== src/Tests/Envelope.antt =====
-- A command that is signed and trusted.
use universal_agent_studio.Prelude.{ℕ, zero, suc, String, ◌≡◌, refl, some, ok, [], ◌∷◌, arith}
use universal_agent_studio.Json.{Fields, obj, field, end, str, get}
use universal_agent_studio.Credentials.{Bytes}
use universal_agent_studio.RunService.{DurableCommand}
use universal_agent_studio.Envelope.{
  Signing, command_fields, sign_execution_command, trusted_command,
}
use universal_agent_studio.Envelope.Signed.{IsSound, trusted_command-sign_execution_command}

abbrev strokes : ℕ → String
strokes zero = String.[]
strokes (suc n) = String.◌∷◌ "|" (strokes n)

abbrev counted : String → ℕ
counted String.[] = 0
counted (String.◌∷◌ c s) = suc (counted s)

counted-strokes : (n : ℕ) → some (counted (strokes n)) ≡ some n
counted-strokes zero = refl
counted-strokes (suc n) = ground (arith, counted-strokes n)

abbrev digest : String
digest = "0123456789abcdef0123456789abcdef0123456789abcdef0123456789abcdef"

abbrev signing : Signing
signing = record {
  uuid_text = strokes;
  parse_uuid = λ s. some (counted s);
  text = λ v. "";
  canonicalize = λ v. [];
  hexdigest = λ key text. digest;
}

sound : IsSound signing
sound = record { parses = counted-strokes; hexadecimal = λ key text. refl }

abbrev command : DurableCommand
command = record {
  run_id = 7;
  request_id = 6;
  workspace_id = 1;
  project_id = 2;
  agent_version_id = "calculator-agent-v1";
  agent_version_digest = "d0";
  agent_spec = obj end;
  input = obj end;
  locale = "en-US";
}

abbrev bytes : ℕ → Bytes
bytes zero = []
bytes (suc n) = 120 ∷ bytes n

abbrev envelope : Fields
envelope =
    field "payload" (obj (command_fields signing command)) (field "signature" (str digest) end)

signed : sign_execution_command signing command (bytes 32) ≡ ok envelope
unfolding sign_execution_command
signed = refl

abbrev activity_input : Fields
activity_input =
    field "started_at" (str "1970-01-01T00:00:00Z") (field "envelope" (obj envelope) end)

held : get "envelope" activity_input ≡ some (obj envelope)
unfolding get
held = refl

trusted_command-sign_execution_command_example :
    trusted_command signing (bytes 32) activity_input ≡ ok command
trusted_command-sign_execution_command_example =
    trusted_command-sign_execution_command signing sound command (bytes 32) envelope activity_input
      signed held
