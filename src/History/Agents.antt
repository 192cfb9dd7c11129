-- ===== src/History/Agents.antt =====
-- Agents stay known by their keys.
use universal_agent_studio.Prelude.{
  ℕ, ◌≡◌, refl, inl, inr, ◌⊎◌, String, Bool, true, Option, none, some, Result, ok, err, ◌∷◌, arith,
  settle, Option-cases, Bool-cases, eq_iff,
}
use universal_agent_studio.Json.{Json, item}
use universal_agent_studio.Catalog.{
  Agent, AgentVersion, Catalog, StoreError, Tenant, find_agent, find_digest, named,
}
use universal_agent_studio.Publishing.{
  PublishArguments, publish_draft, publish_version, version_for_draft, select_version,
  RollbackArguments, rollback, rollback_version, roll_back_to,
}
use universal_agent_studio.Versions.{
  ActivateArguments, ImportArguments, activate, import_version, agent_for_import,
  version_for_import,
}
use universal_agent_studio.Drafts.{create_from_active, update_draft}
use universal_agent_studio.History.Frame.{
  create_from_active-SameButDrafts, update_draft-SameButDrafts,
}
use universal_agent_studio.History.{
  Operation, publishes, rolls_back, activates, imports, creates_draft, updates_draft, perform,
}

pub agents-publish_draft :
    (t : Tenant) (validate : Option (Json → String → Bool)) (args : PublishArguments) (db : Catalog)
    → (publish_draft t validate args db).1.agents ≡ db.agents
unfolding publish_draft publish_version version_for_draft select_version
agents-publish_draft t validate args db = ground arith

agents-rollback :
    (t : Tenant) (args : RollbackArguments) (db : Catalog)
    → (rollback t args db).1.agents ≡ db.agents
unfolding rollback rollback_version roll_back_to
agents-rollback t args db = ground arith

agents-activate :
    (t : Tenant) (args : ActivateArguments) (db : Catalog)
    → (activate t args db).1.agents ≡ db.agents
unfolding activate
agents-activate t args db = ground arith

abbrev new_agent : Tenant → ImportArguments → Agent
new_agent u args = record {
  id = args.fresh_agent_id;
  workspace_id = u.workspace_id;
  project_id = u.project_id;
  agent_key = args.agent_key;
}

agents-version_for_import :
    (u : Tenant) (args : ImportArguments) (id : ℕ) (found : Option AgentVersion) (db : Catalog)
    → (version_for_import u args id found db).1.agents ≡ db.agents
unfolding version_for_import
agents-version_for_import u args id found db = ground arith

agents-import_version :
    (u : Tenant) (args : ImportArguments) (db : Catalog)
    → ((import_version u args db).1.agents ≡ db.agents)
      ⊎ ((find_agent u args.agent_key db ≡ none)
          × ((import_version u args db).1.agents ≡ new_agent u args ∷ db.agents))
unfolding import_version agent_for_import
agents-import_version u args db = elim (Option-cases (find_agent u args.agent_key db)) [
  | inr (agent, known) ↦ inl (
      rw known
        (agents-version_for_import u args agent.id (find_digest u agent.id args.digest db) db))
  | inl unknown ↦ elim (Option-cases (item "localized_metadata" args.agent_spec)) [
    | inl missing ↦ inl (rw (unknown, missing) refl)
    | inr (metadata, present) ↦
        inr (
          unknown,
          rw (unknown, present) (agents-version_for_import u args args.fresh_agent_id _ _),
        )
  ]
]

module _ (t : Tenant) (key : String) (a : Agent) where
  abbrev pub Knows : Catalog → Type 0
  Knows db = find_agent t key db ≡ some a

  pub same-Knows : (old new : Catalog) → new.agents ≡ old.agents → Knows old → Knows new
  unfolding find_agent
  same-Knows old new same h = rw same h

  namesake :
      (u : Tenant) (args : ImportArguments) (db : Catalog)
      → named t key (new_agent u args) ≡ true
      → Knows db
      → find_agent u args.agent_key db ≡ none
      → ⊥
  namesake u args db taken h unknown =
      let workspace : t.workspace_id ≡ u.workspace_id = ground (arith, taken) in
      let project : t.project_id ≡ u.project_id = ground (arith, taken) in
      let keys : key ≡ args.agent_key = ground (arith, taken, eq_iff key args.agent_key) in
      let same : find_agent t key db ≡ find_agent u args.agent_key db =
        rw (keys, workspace, project) refl in
      cc

  import_version-Knows :
      (u : Tenant) (args : ImportArguments) (db : Catalog)
      → Knows db
      → Knows (import_version u args db).1
  unfolding find_agent
  import_version-Knows u args db h = elim (agents-import_version u args db) [
    | inl same ↦ same-Knows db (import_version u args db).1 same h
    | inr (unknown, added) ↦ elim (Bool-cases (named t key (new_agent u args))) [
      | inl taken ↦ absurd (namesake u args db taken h unknown)
      | inr other ↦ rw (added, other) h
    ]
  ]

  settle-Knows :
      {A : Type 0} (old : Catalog) (r : Result StoreError A × Catalog)
      → Knows old
      → Knows r.1
      → Knows (settle old r).1
  settle-Knows old (ok x, new) h k = k
  settle-Knows old (err e, new) h k = h

  pub perform-Knows :
      (u : Tenant) (op : Operation) (db : Catalog) → Knows db → Knows (perform u op db)
  unfolding perform
  perform-Knows u (publishes validate args) db h =
      settle-Knows db (publish_draft u validate args db) h
        (same-Knows db _ (agents-publish_draft u validate args db) h)
  perform-Knows u (rolls_back args) db h =
      settle-Knows db (rollback u args db) h (same-Knows db _ (agents-rollback u args db) h)
  perform-Knows u (activates args) db h =
      settle-Knows db (activate u args db) h (same-Knows db _ (agents-activate u args db) h)
  perform-Knows u (imports args) db h =
      settle-Knows db (import_version u args db) h (import_version-Knows u args db h)
  perform-Knows u (creates_draft k layout fresh) db h =
      let kept = create_from_active-SameButDrafts u k layout fresh db in
      settle-Knows db (create_from_active u k layout fresh db) h (same-Knows db _ kept.agents h)
  perform-Knows u (updates_draft args) db h =
      let kept = update_draft-SameButDrafts u args db in
      settle-Knows db (update_draft u args db) h (same-Knows db _ kept.agents h)
