-- ===== src/Tests/History.antt =====
-- Witnesses for the theorems about histories of the catalog, its drafts and activations.
use universal_agent_studio.Prelude.{◌+◌, ◌≡◌, refl, true, List, false, none, some, ok, err, [], ◌∷◌}
use universal_agent_studio.Json.{Json, null, obj, str, field, end}
use universal_agent_studio.Catalog.{
  AgentDraft, Catalog, Tenant, agent_draft_revision_conflict, agent_spec_invalid,
  active_version_changed, find_agent, find_draft, find_active, find_digest, find_version,
}
use universal_agent_studio.Publishing.{
  publish_draft, publish_version, rollback, rollback_version, roll_back_to, RollbackArguments,
}
use universal_agent_studio.Publishing.Atomic.{publish_draft_failed}
use universal_agent_studio.Versions.{ImportArguments, ActivateArguments, activate}
use universal_agent_studio.History.Published.{activate-publish_draft, is_refused, perform_all}
use universal_agent_studio.Tests.Catalog.{published, published_now}
use universal_agent_studio.Drafts.{UpdateArguments, get_draft, update_draft}
use universal_agent_studio.Drafts.Revisions.{get-update_draft, update_draft-update_draft}
use universal_agent_studio.History.{
  Operation, updates_draft, imports, activates, creates_draft, publishes, perform, empty, Reaches,
  start, step,
}
use universal_agent_studio.History.Invariants.{IsConsistent, Reaches-IsConsistent}
use universal_agent_studio.History.Register.{register}
use universal_agent_studio.History.Refinement.{Refines, perform-Refines}
use universal_agent_studio.History.Permanence.{AppendOnly, perform-AppendOnly}
use universal_agent_studio.Tests.Samples.{
  home, away, draft, catalog, spec, publish_arguments, rollback_arguments,
}

program : Unit {0}
unfolding publish_draft publish_version rollback rollback_version roll_back_to activate find_agent
    find_draft find_active find_digest find_version update_draft get_draft
program = tt

abbrev import_arguments : ImportArguments
import_arguments = record {
  agent_key = "calculator-agent";
  agent_spec = spec;
  digest = "d0";
  fresh_agent_id = 5;
  fresh_version_id = 8;
}

abbrev activate_arguments : ActivateArguments
activate_arguments = record {
  agent_key = "calculator-agent";
  version_id = 8;
  expected_previous_version_id = none;
}

abbrev history : Catalog
history = perform home (publishes none publish_arguments) (
    perform home (creates_draft "calculator-agent" null 7)
      (perform home (activates activate_arguments) (perform home (imports import_arguments) empty)))

reached : Reaches history
reached = step home (publishes none publish_arguments) (
    step home (creates_draft "calculator-agent" null 7)
      (step home (activates activate_arguments) (step home (imports import_arguments) start)))

Reaches-IsConsistent_example : IsConsistent history
Reaches-IsConsistent_example = Reaches-IsConsistent reached

perform-AppendOnly_example :
    AppendOnly catalog (perform home (publishes none publish_arguments) catalog)
perform-AppendOnly_example = perform-AppendOnly home (publishes none publish_arguments) catalog

refused :
    (publish_draft home (some (λ v d. false)) publish_arguments catalog).0 ≡ err agent_spec_invalid
unfolding program
refused = refl

publish_draft_failed_example :
    (publish_draft home (some (λ v d. false)) publish_arguments catalog).1 ≡ catalog
publish_draft_failed_example =
    publish_draft_failed home (some (λ v d. false)) publish_arguments catalog refused

abbrev stale : RollbackArguments
stale = record rollback_arguments { expected_active_version_id = 9 }

changed : (rollback home stale catalog).0 ≡ err active_version_changed
unfolding program
changed = refl

abbrev changed_spec : Json
changed_spec = obj (field "schema_version" (str "0.1.0") end)

abbrev update_arguments : UpdateArguments
update_arguments = record {
  agent_key = "calculator-agent";
  expected_revision = 3;
  agent_spec = changed_spec;
  digest = "d3";
  layout = null;
}

abbrev next : AgentDraft
next = record draft { revision = 4; agent_spec = changed_spec; digest = "d3" }

updated : (update_draft home update_arguments catalog).0 ≡ ok next
unfolding program
updated = refl

get-update_draft_example :
    (old : AgentDraft) × (get_draft home "calculator-agent" catalog ≡ some old)
    × (old.revision ≡ 3)
    × (get_draft home "calculator-agent" (update_draft home update_arguments catalog).1 ≡ some next)
    × (next.revision ≡ 3 + 1)
    × (next.agent_spec ≡ changed_spec)
    × (next.digest ≡ "d3")
    × (next.layout ≡ null)
    × (next.id ≡ old.id)
    × (next.workspace_id ≡ old.workspace_id)
    × (next.project_id ≡ old.project_id)
    × (next.agent_id ≡ old.agent_id)
    × (next.base_version_id ≡ old.base_version_id)
get-update_draft_example = get-update_draft home update_arguments catalog next updated

update_draft-update_draft_example :
    update_draft home update_arguments (update_draft home update_arguments catalog).1
    ≡ (err agent_draft_revision_conflict, (update_draft home update_arguments catalog).1)
update_draft-update_draft_example =
    update_draft-update_draft home update_arguments update_arguments catalog next refl refl updated

abbrev later : List (Tenant × Operation)
later = (home, updates_draft update_arguments) ∷ (away, imports import_arguments) ∷ []

activate-publish_draft_example :
    (is_refused
        (activate home activate_arguments
          (perform_all later (publish_draft home none publish_arguments catalog).1)).0
      ≡ true)
    × ((activate home activate_arguments
          (perform_all later (publish_draft home none publish_arguments catalog).1)).1
        ≡ perform_all later (publish_draft home none publish_arguments catalog).1)
activate-publish_draft_example =
    activate-publish_draft home none publish_arguments catalog published published_now later
      activate_arguments refl

perform-Refines_example :
    Refines home
      (publishes none publish_arguments)
      (register catalog)
      (register (perform home (publishes none publish_arguments) catalog))
perform-Refines_example = perform-Refines home (publishes none publish_arguments) catalog
