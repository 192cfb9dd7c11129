-- ===== src/Tests/Samples.antt =====
-- A small catalog: one tenant, one agent with a draft, another tenant with an agent of the same key.
use universal_agent_studio.Prelude.{ℕ, String, some, [], ◌∷◌}
use universal_agent_studio.Json.{Json, null, str, obj, field, end}
use universal_agent_studio.Catalog.{Agent, AgentDraft, AgentVersion, Catalog, Tenant}
use universal_agent_studio.Publishing.{PublishArguments, RollbackArguments}

abbrev pub home : Tenant
home = record { workspace_id = 1; project_id = 10 }

abbrev pub away : Tenant
away = record { workspace_id = 2; project_id = 20 }

abbrev pub calculator : Agent
calculator = record { id = 5; workspace_id = 1; project_id = 10; agent_key = "calculator-agent" }

abbrev pub namesake : Agent
namesake = record { id = 6; workspace_id = 2; project_id = 20; agent_key = "calculator-agent" }

abbrev pub spec : Json
spec = obj (
    field "agent_id" (str "calculator-agent")
      (field "schema_version" (str "0.1.0") (field "localized_metadata" null end)))

abbrev pub draft : AgentDraft
draft = record {
  id = 7;
  workspace_id = 1;
  project_id = 10;
  agent_id = 5;
  base_version_id = 8;
  revision = 3;
  digest = "d2";
  agent_spec = spec;
  layout = null;
}

abbrev pub version : ℕ → ℕ → String → AgentVersion
version id number digest = record {
  id = id;
  workspace_id = 1;
  project_id = 10;
  agent_id = 5;
  version_number = number;
  digest = digest;
  agent_spec = spec;
}

abbrev pub catalog : Catalog
catalog = record {
  agents = calculator ∷ namesake ∷ [];
  versions = version 9 2 "d1" ∷ version 8 1 "d0" ∷ [];
  drafts = draft ∷ [];
  actives = record { agent_id = 5; workspace_id = 1; project_id = 10; version_id = 8 } ∷ [];
  publications = [];
}

abbrev pub publish_arguments : PublishArguments
publish_arguments = record {
  agent_key = "calculator-agent";
  expected_revision = 3;
  expected_active_version_id = some 8;
  fresh_version_id = 30;
  fresh_event_id = 31;
}

abbrev pub rollback_arguments : RollbackArguments
rollback_arguments = record {
  agent_key = "calculator-agent";
  target_version_id = 9;
  expected_active_version_id = 8;
  fresh_event_id = 32;
}
