-- ===== src/Publishing/Atomic.antt =====
-- Publication and rollback against their guards: when they succeed, and what they leave alone.
use universal_agent_studio.Prelude.{
  ◌==◌, opt_eq, ◌≡◌, String, Bool, true, false, ◌&&◌, ◌||◌, is_some, not, Option, some, Result, ok,
  err, arith,
}
use universal_agent_studio.Json.{Json, item}
use universal_agent_studio.Catalog.{
  Agent, AgentDraft, Catalog, StoreError, Tenant, find_agent, find_digest, find_draft,
}
use universal_agent_studio.Publishing.{
  PublishArguments, RollbackArguments, PublicationResult, accepts, claimed_by_other, publish_draft,
  publish_version, version_for_draft, select_version, rollback, rollback_version, roll_back_to,
}
use universal_agent_studio.Publishing.Pointer.{pointer}

abbrev pub succeeded : Result StoreError PublicationResult → Bool
succeeded (ok r) = true
succeeded (err e) = false

-- A publication that raises, for whatever reason, leaves the catalog as it was.
pub publish_draft_failed :
    (t : Tenant) (validate : Option (Json → String → Bool)) (args : PublishArguments) (db : Catalog)
    {e : StoreError}
    → (publish_draft t validate args db).0 ≡ err e
    → (publish_draft t validate args db).1 ≡ db
unfolding publish_draft publish_version
publish_draft_failed t validate args db h = ground arith

-- A rollback that raises, for whatever reason, leaves the catalog as it was.
pub rollback_failed :
    (t : Tenant) (args : RollbackArguments) (db : Catalog) {e : StoreError}
    → (rollback t args db).0 ≡ err e
    → (rollback t args db).1 ≡ db
unfolding rollback rollback_version roll_back_to
rollback_failed t args db h = ground arith

module _ (t : Tenant) (validate : Option (Json → String → Bool)) (args : PublishArguments)
    (db : Catalog) where
  module _ (agent : Agent) (draft : AgentDraft)
      (known : find_agent t args.agent_key db ≡ some agent)
      (drafted : find_draft t agent.id db ≡ some draft) where
    -- A publication of a known agent with a draft succeeds exactly when the draft has the expected
    -- revision, is accepted by the validation, no other agent has published under the key, the
    -- traffic pointer is the expected one, and the agent has a version with the digest of the draft
    -- or the document of the draft has a `schema_version`.
    pub publish_draft-succeeded : succeeded (publish_draft t validate args db).0 ≡ (
        draft.revision == args.expected_revision
        && (accepts validate draft
            && (not (claimed_by_other agent db)
                && (opt_eq (pointer t agent.id db) args.expected_active_version_id
                    && (is_some (find_digest t agent.id draft.digest db)
                        || is_some (item "schema_version" draft.agent_spec))))))
    unfolding publish_draft publish_version version_for_draft select_version
    publish_draft-succeeded = ground arith
