-- ===== src/Envelope/Signed.antt =====
-- Commands that the API signs and the worker trusts.
use universal_agent_studio.Prelude.{
  ℕ, ◌==◌, ◌≡◌, refl, String, str_eq_refl, codes, length, leb, true, Bool-cases, some, ok, inl, inr,
  arith,
}
use universal_agent_studio.Json.{Fields, obj, field, end, str, get}
use universal_agent_studio.Credentials.{Bytes}
use universal_agent_studio.RunService.{DurableCommand}
use universal_agent_studio.Envelope.{
  Signing, command_fields, execution_command_from_document, sign_execution_command, trusted_command,
  verify_execution_envelope,
}

pub record IsSound (lib : Signing) : Type 0 where
  pub parses : (n : ℕ) → lib.parse_uuid (lib.uuid_text n) ≡ some n
  pub hexadecimal : (key text : Bytes) → (length (codes (lib.hexdigest key text)) == 64) ≡ true

module _ (lib : Signing) (sound : IsSound lib) (c : DurableCommand) where
  from_document-command_fields : execution_command_from_document lib (command_fields lib c) ≡ ok c
  unfolding execution_command_from_document get
  from_document-command_fields =
      rw
        (
          sound.parses c.run_id,
          sound.parses c.request_id,
          sound.parses c.workspace_id,
          sound.parses c.project_id,
        )
        refl

  abbrev signature : Bytes → String
  signature signing_key = lib.hexdigest signing_key (lib.canonicalize (obj (command_fields lib c)))

  abbrev sealed : Bytes → Fields
  sealed signing_key =
      field "payload" (obj (command_fields lib c))
        (field "signature" (str (signature signing_key)) end)

  verify-sealed :
      (signing_key : Bytes)
      → leb 32 (length signing_key) ≡ true
      → verify_execution_envelope lib (sealed signing_key) signing_key ≡ ok c
  unfolding verify_execution_envelope get
  verify-sealed signing_key usable =
      let key_text = lib.canonicalize (obj (command_fields lib c)) in
      rw (usable, sound.hexadecimal signing_key key_text, str_eq_refl (signature signing_key))
        from_document-command_fields

  -- What the API signs with a key, the worker trusts with the same key as the very command, whatever
  -- else the input of the activity holds. A digest has 64 digits, and the text of a UUID is parsed
  -- back.
  pub trusted_command-sign_execution_command :
      (signing_key : Bytes) (envelope activity_input : Fields)
      → sign_execution_command lib c signing_key ≡ ok envelope
      → get "envelope" activity_input ≡ some (obj envelope)
      → trusted_command lib signing_key activity_input ≡ ok c
  unfolding trusted_command sign_execution_command
  trusted_command-sign_execution_command signing_key envelope activity_input signed held =
      elim (Bool-cases (leb 32 (length signing_key))) [
        | inr short ↦ absurd (ground (arith, short, signed))
        | inl usable ↦
            let is : envelope ≡ sealed signing_key = ground (arith, usable, signed) in
            rw (held, is) (verify-sealed signing_key usable)
      ]
