-- ===== src/History/Published.antt =====
-- Agents that have been published, whatever happens to the catalog afterwards.
use universal_agent_studio.Prelude.{
  ℕ, ◌≡◌, inl, inr, String, Bool, true, false, Option, some, Result, ok, err, List, [], ◌∷◌, ◌++◌,
  any, arith, Option-cases, Bool-cases, opt_eq, ◌&&◌,
}
use universal_agent_studio.Json.{Json, item}
use universal_agent_studio.Catalog.{
  ActiveVersion, Agent, AgentDraft, AgentVersion, Catalog, PublicationEvent, StoreError, Tenant,
  event_of, find_agent, find_draft, find_digest, find_active, current_version, next_number,
  is_publish,
}
use universal_agent_studio.Publishing.{
  PublishArguments, PublicationResult, publish_draft, publish_version, version_for_draft,
  select_version, has_publish,
}
use universal_agent_studio.Versions.{ActivateArguments, activate, has_publication}
use universal_agent_studio.Publishing.Routing.{publish_draft-version}
use universal_agent_studio.History.Permanence.{perform-AppendOnly}
use universal_agent_studio.History.{Operation, perform}
use universal_agent_studio.History.Agents.{Knows, same-Knows, perform-Knows, agents-publish_draft}

-- The catalog after further operations, the first one first, each by any tenant.
unfoldable pub perform_all : List (Tenant × Operation) → Catalog → Catalog
perform_all [] db = db
perform_all ((u, op) ∷ ops) db = perform_all ops (perform u op db)

abbrev pub is_refused : {A : Type 0} → Result StoreError A → Bool
is_refused (ok a) = false
is_refused (err e) = true

any-append :
    (p : PublicationEvent → Bool) (new old : List PublicationEvent)
    → any p old ≡ true
    → any p (new ++ old) ≡ true
any-append p [] old h = h
any-append p (e ∷ new) old h = ground (arith, any-append p new old h)

any_event :
    (t : Tenant) (id : ℕ) (rows : List PublicationEvent)
    → any (λ e. event_of t id e && is_publish e.event_type) rows ≡ true
    → any (event_of t id) rows ≡ true
any_event t id [] h = h
any_event t id (e ∷ rows) h = ground (arith, any_event t id rows)

any-weaken :
    (t : Tenant) (id : ℕ) (db : Catalog)
    → has_publish t id db ≡ true
    → has_publication t id db ≡ true
any-weaken t id db h = any_event t id db.publications h

select_version-has_publication :
    (t : Tenant) (id fresh : ℕ) (active : Option ActiveVersion) (previous : Option ℕ)
    (v : AgentVersion) (reused : Bool) (db : Catalog)
    → has_publication t id (select_version t id fresh active previous v reused db).1 ≡ true
unfolding select_version
select_version-has_publication t id fresh active previous v reused db =
    elim (Bool-cases (opt_eq previous (some v.id) && has_publish t id db)) [
      | inl kept ↦ ground (arith, kept, any-weaken t id db)
      | inr made ↦ ground (arith, made)
    ]

publish_version-has_publication :
    (t : Tenant) (id : ℕ) (draft : AgentDraft) (args : PublishArguments) (db : Catalog)
    {r : PublicationResult}
    → (publish_version t id draft args db).0 ≡ ok r
    → has_publication t id (publish_version t id draft args db).1 ≡ true
unfolding publish_version version_for_draft
publish_version-has_publication t id draft args db h =
    elim (Bool-cases
      (opt_eq (current_version (find_active t id db)) args.expected_active_version_id)) [
        | inr elsewhere ↦ absurd (ground (arith, elsewhere, h))
        | inl here ↦ elim (Option-cases (find_digest t id draft.digest db)) [
          | inr (v, found) ↦
              rw (here, found)
                (select_version-has_publication t id args.fresh_event_id (find_active t id db)
                  (current_version (find_active t id db)) v true db)
          | inl unknown ↦ elim (Option-cases (item "schema_version" draft.agent_spec)) [
            | inl missing ↦ absurd (ground (arith, here, unknown, missing, h))
            | inr (value, present) ↦
                let version : AgentVersion = record {
                  id = args.fresh_version_id;
                  workspace_id = t.workspace_id;
                  project_id = t.project_id;
                  agent_id = id;
                  version_number = next_number id db;
                  digest = draft.digest;
                  agent_spec = draft.agent_spec;
                } in
                rw (here, unknown, present)
                  (select_version-has_publication t id args.fresh_event_id (find_active t id db)
                    (current_version (find_active t id db)) version false
                    (record db { versions = version ∷ db.versions }))
          ]
        ]
      ]

module _ (t : Tenant) (key : String) (a : Agent) where
  perform-has_publication :
      (u : Tenant) (op : Operation) (db : Catalog)
      → has_publication t a.id db ≡ true
      → has_publication t a.id (perform u op db) ≡ true
  perform-has_publication u op db h =
      let grown = perform-AppendOnly u op db in
      rw (grown.publications) (any-append (event_of t a.id) grown.added_events db.publications h)

  activate_refused :
      (args : ActivateArguments) (db : Catalog)
      → args.agent_key ≡ key
      → Knows t key a db
      → has_publication t a.id db ≡ true
      → (is_refused (activate t args db).0 ≡ true) × ((activate t args db).1 ≡ db)
  unfolding activate
  activate_refused args db same known published = ground (arith, same, known, published)

  activate_later :
      (ops : List (Tenant × Operation)) (args : ActivateArguments) (db : Catalog)
      → args.agent_key ≡ key
      → Knows t key a db
      → has_publication t a.id db ≡ true
      → (is_refused (activate t args (perform_all ops db)).0 ≡ true)
        × ((activate t args (perform_all ops db)).1 ≡ perform_all ops db)
  unfolding perform_all
  activate_later [] args db same known published = activate_refused args db same known published
  activate_later ((u, op) ∷ ops) args db same known published =
      activate_later ops args (perform u op db) same (perform-Knows t key a u op db known)
        (perform-has_publication u op db published)

module _ (t : Tenant) (validate : Option (Json → String → Bool)) (args : PublishArguments)
    (db : Catalog) (r : PublicationResult)
    (done : (publish_draft t validate args db).0 ≡ ok r) where
  published_agent :
      (a : Agent) × (find_agent t args.agent_key db ≡ some a)
      × (has_publication t a.id (publish_draft t validate args db).1 ≡ true)
  unfolding publish_draft
  published_agent = elim (Option-cases (find_agent t args.agent_key db)) [
    | inl unknown ↦ absurd (ground (arith, unknown, done))
    | inr (a, known) ↦ elim (Option-cases (find_draft t a.id db)) [
      | inl undrafted ↦ absurd (ground (arith, known, undrafted, done))
      | inr (draft, drafted) ↦
          let same = publish_draft-version t validate args db a draft {r = r} known drafted done in
          (
            a,
            known,
            rw same
                (publish_version-has_publication t a.id draft args db {r = r} (rw same at done)),
          )
    ]
  ]

  -- Once a publication of an agent has succeeded, every direct activation for it is refused and
  -- changes nothing, whatever operations of whatever tenants come in between, and whatever version
  -- and pointer it names.
  pub activate-publish_draft :
      (ops : List (Tenant × Operation)) (later : ActivateArguments)
      → later.agent_key ≡ args.agent_key
      → (is_refused (activate t later (perform_all ops (publish_draft t validate args db).1)).0
          ≡ true)
        × ((activate t later (perform_all ops (publish_draft t validate args db).1)).1
            ≡ perform_all ops (publish_draft t validate args db).1)
  activate-publish_draft ops later same =
      let (a, known, published) = published_agent in
      activate_later t args.agent_key a ops later (publish_draft t validate args db).1 same
        (same-Knows t args.agent_key a db _ (agents-publish_draft t validate args db) known)
        published
