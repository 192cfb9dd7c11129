-- ===== src/Publishing/Routing.antt =====
-- What a successful publication or rollback does to the traffic pointer and to the ledger.
use universal_agent_studio.Prelude.{
  ℕ, opt_eq, ◌≡◌, refl, String, Bool, true, false, ◌&&◌, Option, none, some, Result, ok, ◌∷◌, arith,
  find_sound, Option-cases, inl, inr, ◌∙◌, ap, sym, eq_iff, ◌>>=◌, str_eq,
}
use universal_agent_studio.Json.{Json, item}
use universal_agent_studio.Catalog.{
  Agent, AgentDraft, AgentVersion, Catalog, StoreError, Tenant, find_agent, find_draft, find_active,
  find_digest, find_version, PublicationEvent, version_of,
}
use universal_agent_studio.Publishing.{
  PublishArguments, RollbackArguments, PublicationResult, publish_draft, publish_version,
  version_for_draft, select_version, rollback, rollback_version, roll_back_to,
}
use universal_agent_studio.Publishing.Pointer.{pointer, pointer-set_active, latest}

-- A recorded move is the newest ledger entry of the agent, and names both ends; without a record
-- the pointer stays.
abbrev pub IsRecorded :
    Tenant → ℕ → Catalog → Catalog → AgentVersion → Option PublicationEvent → Type 0
IsRecorded t id old new version none = pointer t id new ≡ pointer t id old
IsRecorded t id old new version (some e) =
    (latest t id new ≡ some e)
    × (e.previous_version_id ≡ pointer t id old)
    × (e.selected_version_id ≡ version.id)
    × (e.selected_version_digest ≡ version.digest)

-- After a choice of `version` for the agent.
pub record IsRouted (t : Tenant) (id : ℕ) (old new : Catalog) (r : PublicationResult) : Type 0 where
  pub routed : pointer t id new ≡ some r.version.id
  pub came_from : r.previous_version_id ≡ pointer t id old
  pub recorded : IsRecorded t id old new r.version r.event

-- `IsRecorded` as two implications.
IsRecorded-by_cases :
    (t : Tenant) (id : ℕ) (old new : Catalog) (version : AgentVersion)
    (event : Option PublicationEvent)
    → ((e : PublicationEvent)
        → event ≡ some e
        → (latest t id new ≡ some e)
          × (e.previous_version_id ≡ pointer t id old)
          × (e.selected_version_id ≡ version.id)
          × (e.selected_version_digest ≡ version.digest))
    → (event ≡ none → pointer t id new ≡ pointer t id old)
    → IsRecorded t id old new version event
IsRecorded-by_cases t id old new version none h k = k refl
IsRecorded-by_cases t id old new version (some e) h k = h e refl

module _ (t : Tenant) (id fresh : ℕ) (version : AgentVersion) (db : Catalog) where
  select_version-IsRouted :
      (reused : Bool) (r : PublicationResult)
      → (select_version t id fresh (find_active t id db) (pointer t id db) version reused db).0
        ≡ ok r
      → IsRouted t id db
          (select_version t id fresh (find_active t id db) (pointer t id db) version reused db).1
          r
  unfolding select_version find_active
  select_version-IsRouted reused r h = record {
    routed = ground (arith, pointer-set_active t t id id version.id db);
    came_from = ground arith;
    recorded =
        IsRecorded-by_cases t id db
          (select_version t id fresh (find_active t id db) (pointer t id db) version reused db).1
          r.version r.event (λ e k. ground arith) (λ k. ground arith);
  }

  select_version-version :
      (reused : Bool) (r : PublicationResult)
      → (select_version t id fresh (find_active t id db) (pointer t id db) version reused db).0
        ≡ ok r
      → r.version ≡ version
  unfolding select_version
  select_version-version reused r h = ground arith

  roll_back_to-IsRouted :
      (r : PublicationResult)
      → (roll_back_to t id fresh (find_active t id db) (pointer t id db) version db).0 ≡ ok r
      → IsRouted t id db
          (roll_back_to t id fresh (find_active t id db) (pointer t id db) version db).1
          r
  unfolding roll_back_to find_active
  roll_back_to-IsRouted r h = record {
    routed = ground (arith, pointer-set_active t t id id version.id db);
    came_from = ground arith;
    recorded =
        IsRecorded-by_cases t id db
          (roll_back_to t id fresh (find_active t id db) (pointer t id db) version db).1 r.version
          r.event (λ e k. ground arith) (λ k. ground arith);
  }

find_digest-digest :
    (t : Tenant) (id : ℕ) (digest : String) (db : Catalog) {v : AgentVersion}
    → find_digest t id digest db ≡ some v
    → v.digest ≡ digest
unfolding find_digest
find_digest-digest t id digest db {v} h = ground (
  arith,
  find_sound (λ w. version_of t id w && str_eq digest w.digest) db.versions h,
  eq_iff digest v.digest,
)

opt_eq-eq : (a b : Option ℕ) → opt_eq a b ≡ true → a ≡ b
opt_eq-eq a b h = ground arith

pub publish_draft-version :
    (t : Tenant) (validate : Option (Json → String → Bool)) (args : PublishArguments) (db : Catalog)
    (agent : Agent) (draft : AgentDraft) {r : PublicationResult}
    → find_agent t args.agent_key db ≡ some agent
    → find_draft t agent.id db ≡ some draft
    → (publish_draft t validate args db).0 ≡ ok r
    → publish_draft t validate args db ≡ publish_version t agent.id draft args db
unfolding publish_draft
publish_draft-version t validate args db agent draft known drafted h = ground arith

module _ (t : Tenant) (id : ℕ) (draft : AgentDraft) (args : PublishArguments) (db : Catalog) where
  abbrev choose : Option AgentVersion → Catalog → Result StoreError PublicationResult × Catalog
  choose found = do
    chosen ← version_for_draft t id draft args.fresh_version_id found
    select_version t id args.fresh_event_id (find_active t id db) (pointer t id db) chosen.0
        chosen.1

  choose-IsRouted :
      (found : Option AgentVersion) (r : PublicationResult)
      → ((v : AgentVersion) → found ≡ some v → v.digest ≡ draft.digest)
      → (choose found db).0 ≡ ok r
      → IsRouted t id db (choose found db).1 r × (r.version.digest ≡ draft.digest)
  unfolding version_for_draft find_active
  choose-IsRouted (some v) r same h = (
    select_version-IsRouted t id args.fresh_event_id v db true r h,
    cc (select_version-version t id args.fresh_event_id v db true r h, same v refl),
  )
  choose-IsRouted none r same h = elim (Option-cases (item "schema_version" draft.agent_spec)) [
    | inl missing ↦ let raised = rw missing at h in cc
    | inr (value, present) ↦ rw present (
        let k = rw present at h in
        let db' : Catalog = record db { versions = _ ∷ db.versions } in
        let routed = select_version-IsRouted t id args.fresh_event_id _ db' false r k in
        (
          record {
            routed = routed.routed;
            came_from = routed.came_from;
            recorded = routed.recorded;
          },
          cc (select_version-version t id args.fresh_event_id _ db' false r k),
        ))
  ]

  publish_version-guard :
      (r : PublicationResult)
      → (publish_version t id draft args db).0 ≡ ok r
      → opt_eq (pointer t id db) args.expected_active_version_id ≡ true
  unfolding publish_version
  publish_version-guard r h = ground arith

  publish_version-choose :
      opt_eq (pointer t id db) args.expected_active_version_id ≡ true
      → publish_version t id draft args db ≡ choose (find_digest t id draft.digest db) db
  unfolding publish_version
  publish_version-choose h = rw h

  publish_version-IsRouted :
      (r : PublicationResult)
      → (publish_version t id draft args db).0 ≡ ok r
      → IsRouted t id db (publish_version t id draft args db).1 r
        × (r.version.digest ≡ draft.digest)
        × (pointer t id db ≡ args.expected_active_version_id)
  publish_version-IsRouted r h =
      let e = publish_version-choose (publish_version-guard r h) in
      let (routed, carried) =
        choose-IsRouted (find_digest t id draft.digest db) r
          (λ v k. find_digest-digest t id draft.digest db k) (rw e at h) in
      (rw e routed, carried, opt_eq-eq _ _ (publish_version-guard r h))

-- A successful publication routes the agent to a version that carries the draft's digest. The
-- pointer stood at the expected version before; the result names it as the previous one. If the
-- publication was recorded, the record is the newest entry of the agent and names both ends of the
-- move; if it was not, the pointer did not move.
pub publish_draft-IsRouted :
    (t : Tenant) (validate : Option (Json → String → Bool)) (args : PublishArguments) (db : Catalog)
    (agent : Agent) (draft : AgentDraft) (r : PublicationResult)
    → find_agent t args.agent_key db ≡ some agent
    → find_draft t agent.id db ≡ some draft
    → (publish_draft t validate args db).0 ≡ ok r
    → IsRouted t agent.id db (publish_draft t validate args db).1 r
      × (r.version.digest ≡ draft.digest)
      × (pointer t agent.id db ≡ args.expected_active_version_id)
publish_draft-IsRouted t validate args db agent draft r known drafted h =
    let e = publish_draft-version t validate args db agent draft known drafted h in
    rw e (publish_version-IsRouted t agent.id draft args db r (rw e at h))

rollback_version-parts :
    (t : Tenant) (id : ℕ) (args : RollbackArguments) (db : Catalog) (r : PublicationResult)
    → (rollback_version t id args db).0 ≡ ok r
    → (pointer t id db ≡ some args.expected_active_version_id)
      × (v : AgentVersion) × (find_version t id args.target_version_id db ≡ some v)
      × (rollback_version t id args db
          ≡ roll_back_to t id args.fresh_event_id (find_active t id db) (pointer t id db) v db)
unfolding rollback_version
rollback_version-parts t id args db r h =
    elim (Option-cases (find_version t id args.target_version_id db)) [
      | inl missing ↦ absurd (ground arith)
      | inr (v, found) ↦ (ground arith, v, found, ground arith)
    ]

roll_back_to-version :
    (t : Tenant) (id fresh : ℕ) (db : Catalog) (v : AgentVersion) (r : PublicationResult)
    → (roll_back_to t id fresh (find_active t id db) (pointer t id db) v db).0 ≡ ok r
    → r.version ≡ v
unfolding roll_back_to
roll_back_to-version t id fresh db v r h = ground arith

rollback-version :
    (t : Tenant) (args : RollbackArguments) (db : Catalog) (agent : Agent)
    → find_agent t args.agent_key db ≡ some agent
    → rollback t args db ≡ rollback_version t agent.id args db
unfolding rollback
rollback-version t args db agent known = ground arith

-- A successful rollback routes the agent to a version that it has already, the one of the target
-- identifier within the same tenant and agent. The pointer stood at the expected version before,
-- and the newest ledger entry names both ends of the move unless there was none to make.
pub rollback-IsRouted :
    (t : Tenant) (args : RollbackArguments) (db : Catalog) (agent : Agent) (r : PublicationResult)
    → find_agent t args.agent_key db ≡ some agent
    → (rollback t args db).0 ≡ ok r
    → IsRouted t agent.id db (rollback t args db).1 r
      × (find_version t agent.id args.target_version_id db ≡ some r.version)
      × (pointer t agent.id db ≡ some args.expected_active_version_id)
rollback-IsRouted t args db agent r known h =
    let e = rollback-version t args db agent known in
    let (expected, v, found, same) = rollback_version-parts t agent.id args db r (rw e at h) in
    let e' = e ∙ same in
    let h' : (roll_back_to t agent.id args.fresh_event_id (find_active t agent.id db)
          (pointer t agent.id db) v db).0
        ≡ ok r =
      rw e' at h in
    (
      rw e' (roll_back_to-IsRouted t agent.id args.fresh_event_id v db r h'),
      found ∙ ap some (sym (roll_back_to-version t agent.id args.fresh_event_id db v r h')),
      expected,
    )
