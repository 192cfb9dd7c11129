-- ===== src/Publishing/Cases.antt =====
-- Publication and rollback by cases on how far they come.
use universal_agent_studio.Prelude.{
  ℕ, ◌==◌, ◌≡◌, ◌⊎◌, inl, inr, String, Bool, ◌&&◌, not, Option, arith, Option-cases, Bool-cases,
}
use universal_agent_studio.Json.{Json}
use universal_agent_studio.Catalog.{AgentDraft, Catalog, Tenant, find_agent, find_draft}
use universal_agent_studio.Publishing.{
  PublishArguments, RollbackArguments, accepts, claimed_by_other, publish_draft, publish_version,
  rollback, rollback_version,
}

pub publish_draft-cases :
    (t : Tenant) (validate : Option (Json → String → Bool)) (args : PublishArguments) (db : Catalog)
    → ((publish_draft t validate args db).1 ≡ db)
      ⊎ ((id : ℕ) × (draft : AgentDraft) × (publish_draft t validate args db
            ≡ publish_version t id draft args db))
unfolding publish_draft
publish_draft-cases t validate args db = elim (Option-cases (find_agent t args.agent_key db)) [
  | inl unknown ↦ inl (ground arith)
  | inr (agent, known) ↦ elim (Option-cases (find_draft t agent.id db)) [
    | inl undrafted ↦ inl (ground arith)
    | inr (draft, drafted) ↦
        elim (Bool-cases (
          draft.revision == args.expected_revision
          && (accepts validate draft && not (claimed_by_other agent db)))) [
            | inl passed ↦ inr (agent.id, draft, ground arith)
            | inr stopped ↦ inl (ground arith)
          ]
  ]
]

pub rollback-cases :
    (t : Tenant) (args : RollbackArguments) (db : Catalog)
    → ((rollback t args db).1 ≡ db)
      ⊎ ((id : ℕ) × (rollback t args db ≡ rollback_version t id args db))
unfolding rollback
rollback-cases t args db = elim (Option-cases (find_agent t args.agent_key db)) [
  | inl unknown ↦ inl (ground arith)
  | inr (agent, known) ↦ inr (agent.id, ground arith)
]
