-- ===== src/Publishing/Pointer.antt =====
-- The traffic pointer and the ledger.
use universal_agent_studio.Prelude.{
  Option-cases, inr, inl, ℕ, ◌==◌, ◌≡◌, String, Bool, true, false, Option, none, some, is_some,
  ◌&&◌, List, [], ◌∷◌, arith, if◌then◌else◌, find, update, ◌>>=◌,
}
use universal_agent_studio.Json.{Json, item}
use universal_agent_studio.Catalog.{
  Catalog, Tenant, AgentVersion, AgentDraft, ActiveVersion, PublicationEvent, find_active,
  find_digest, event_of, active_of, current_version,
}
use universal_agent_studio.Publishing.{
  PublishArguments, RollbackArguments, set_active, publish_draft, publish_version,
  version_for_draft, select_version, rollback, rollback_version, roll_back_to,
}

-- The newest ledger entry of an agent.
abbrev pub latest : Tenant → ℕ → Catalog → Option PublicationEvent
latest t id db = find (event_of t id) db.publications

abbrev pub pointer : Tenant → ℕ → Catalog → Option ℕ
pointer t id db = current_version (find_active t id db)

-- Whatever has a ledger entry is routed to the version that the newest one selected.
abbrev pub IsLedgered : Catalog → Type 0
IsLedgered db =
    (t : Tenant) (id : ℕ) (e : PublicationEvent)
    → latest t id db ≡ some e
    → pointer t id db ≡ some e.selected_version_id

-- Two queries by tenant and agent select the same rows.
abbrev pub same_agent : Tenant → ℕ → Tenant → ℕ → Bool
same_agent t id u jd = t.workspace_id == u.workspace_id && t.project_id == u.project_id && id == jd

module _ (t u : Tenant) (id jd version_id : ℕ) where
  pointer-update :
      (rows : List ActiveVersion)
      → current_version (
          find
            (active_of u jd)
            (update (active_of t id) (λ a. record a { version_id = version_id }) rows))
        ≡ (if same_agent t id u jd && is_some (find (active_of u jd) rows)
            then some version_id
            else current_version (find (active_of u jd) rows))
  pointer-update [] = ground arith
  pointer-update (a ∷ rows) = ground (arith, pointer-update rows)

  -- Setting the pointer of an agent, through the row that was locked, moves that pointer and no other.
  pub pointer-set_active :
      (db : Catalog)
      → pointer u jd (set_active t id version_id (find_active t id db) db)
        ≡ (if same_agent t id u jd then some version_id else pointer u jd db)
  unfolding set_active find_active
  pointer-set_active db = ground (arith, pointer-update db.actives)

-- Committing a choice keeps the ledger and the pointer together.
module _ (t : Tenant) (id fresh : ℕ) (version : AgentVersion) (db : Catalog)
    (valid : IsLedgered db) where
  select_version-IsLedgered :
      (reused : Bool)
      → IsLedgered
          (select_version t id fresh (find_active t id db) (pointer t id db) version reused db).1
  unfolding select_version find_active
  select_version-IsLedgered reused u jd e h =
      ground (arith, valid u jd e, pointer-set_active t u id jd version.id db)

  roll_back_to-IsLedgered :
      IsLedgered (roll_back_to t id fresh (find_active t id db) (pointer t id db) version db).1
  unfolding roll_back_to find_active
  roll_back_to-IsLedgered u jd e h =
      ground (arith, valid u jd e, pointer-set_active t u id jd version.id db)

module _ (t : Tenant) (id : ℕ) (draft : AgentDraft) (args : PublishArguments) (db : Catalog)
    (valid : IsLedgered db) where
  choose_version-IsLedgered :
      (found : Option AgentVersion)
      → IsLedgered
          ((do
            chosen ← version_for_draft t id draft args.fresh_version_id found
            select_version t id args.fresh_event_id
                (find_active t id db)
                (pointer t id db)
                chosen.0
                chosen.1)
            db).1
  unfolding version_for_draft find_active
  choose_version-IsLedgered (some version) =
      select_version-IsLedgered t id args.fresh_event_id version db valid true
  choose_version-IsLedgered none = elim (Option-cases (item "schema_version" draft.agent_spec)) [
    | inl missing ↦ rw missing valid
    | inr (value, present) ↦ rw present (
        select_version-IsLedgered t id args.fresh_event_id _
          (record db { versions = _ ∷ db.versions }) valid false)
  ]

  publish_version-IsLedgered : IsLedgered (publish_version t id draft args db).1
  unfolding publish_version
  publish_version-IsLedgered u jd e h =
      ground
        (arith, choose_version-IsLedgered (find_digest t id draft.digest db) u jd e, valid u jd e)

  rollback_version-IsLedgered :
      (roll : RollbackArguments) → IsLedgered (rollback_version t id roll db).1
  unfolding rollback_version
  rollback_version-IsLedgered roll u jd e h = grind (arith, roll_back_to-IsLedgered, valid)

-- Publication, whether it succeeds or raises, keeps the traffic pointer of every agent that has a
-- ledger entry at the version that its newest entry selected.
pub publish_draft-IsLedgered :
    (t : Tenant) (validate : Option (Json → String → Bool)) (args : PublishArguments) (db : Catalog)
    → IsLedgered db
    → IsLedgered (publish_draft t validate args db).1
unfolding publish_draft
publish_draft-IsLedgered t validate args db valid u jd e h =
    grind (arith, publish_version-IsLedgered, valid)

pub rollback-IsLedgered :
    (t : Tenant) (args : RollbackArguments) (db : Catalog)
    → IsLedgered db
    → IsLedgered (rollback t args db).1
unfolding rollback
rollback-IsLedgered t args db valid u jd e h = grind (arith, rollback_version-IsLedgered, valid)
