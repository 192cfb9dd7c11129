-- ===== src/History/Permanence.antt =====
-- What the operations never take back.
use mathlib.Core.List.{append_assoc}
use universal_agent_studio.Prelude.{
  ℕ, ◌≡◌, refl, ap, ◌∙◌, inl, inr, opt_eq, ◌>>=◌, ◌&&◌, not, Bool, true, false, gets, Option, none,
  some, Result, ok, err, List, [], ◌∷◌, ◌++◌, arith, settle, Option-cases, Bool-cases,
}
use universal_agent_studio.Json.{item}
use universal_agent_studio.Catalog.{
  AgentVersion, ActiveVersion, AgentDraft, Agent, Catalog, PublicationEvent, publish,
  rollback as rolled_back, StoreError, Tenant, find_active, find_agent, find_digest, find_version,
  current_version,
}
use universal_agent_studio.Publishing.Cases.{publish_draft-cases, rollback-cases}
use universal_agent_studio.Publishing.{
  PublishArguments, RollbackArguments, has_publish, publication, publish_draft, publish_version,
  select_version, version_for_draft, rollback, rollback_version, roll_back_to,
}
use universal_agent_studio.Versions.{
  activate, ImportArguments, import_version, version_for_import, agent_for_import,
}
use universal_agent_studio.Drafts.{create_from_active, update_draft}
use universal_agent_studio.History.Frame.{
  versions-activate, publications-activate, create_from_active-SameButDrafts,
  update_draft-SameButDrafts,
}
use universal_agent_studio.History.{
  Operation, publishes, rolls_back, activates, imports, creates_draft, updates_draft, perform,
}

-- Every version and every ledger entry of `old` stands in `new` as it was, in the same order,
-- behind the ones that came since.
pub record AppendOnly (old new : Catalog) : Type 0 where
  pub added_versions : List AgentVersion
  pub added_events : List PublicationEvent
  pub versions : new.versions ≡ added_versions ++ old.versions
  pub publications : new.publications ≡ added_events ++ old.publications

AppendOnly-same :
    (old new : Catalog)
    → new.versions ≡ old.versions
    → new.publications ≡ old.publications
    → AppendOnly old new
AppendOnly-same old new v p = record {
  added_versions = [];
  added_events = [];
  versions = v;
  publications = p;
}

AppendOnly-trans : {a b c : Catalog} → AppendOnly a b → AppendOnly b c → AppendOnly a c
AppendOnly-trans {a} h k = record {
  added_versions = k.added_versions ++ h.added_versions;
  added_events = k.added_events ++ h.added_events;
  versions = k.versions ∙ ap (λ l. k.added_versions ++ l) h.versions ∙ rw append_assoc;
  publications = k.publications ∙ ap (λ l. k.added_events ++ l) h.publications ∙ rw append_assoc;
}

select_version-AppendOnly :
    (t : Tenant) (id fresh : ℕ) (active : Option ActiveVersion) (previous : Option ℕ)
    (v : AgentVersion) (reused : Bool) (db : Catalog)
    → AppendOnly db (select_version t id fresh active previous v reused db).1
unfolding select_version
select_version-AppendOnly t id fresh active previous v reused db =
    elim (Bool-cases (opt_eq previous (some v.id) && has_publish t id db)) [
      | inl kept ↦ record {
        added_versions = [];
        added_events = [];
        versions = ground arith;
        publications = ground arith;
      }
      | inr made ↦ record {
        added_versions = [];
        added_events = publication t id fresh publish previous v ∷ [];
        versions = ground arith;
        publications = ground arith;
      }
    ]

version_for_draft-AppendOnly :
    (t : Tenant) (id : ℕ) (draft : AgentDraft) (args : PublishArguments)
    (active : Option ActiveVersion) (previous : Option ℕ) (found : Option AgentVersion)
    (db : Catalog)
    → AppendOnly db
        ((do
          chosen ← version_for_draft t id draft args.fresh_version_id found
          select_version t id args.fresh_event_id active previous chosen.0 chosen.1)
          db).1
unfolding version_for_draft
version_for_draft-AppendOnly t id draft args active previous (some v) db =
    select_version-AppendOnly t id _ active previous v true db
version_for_draft-AppendOnly t id draft args active previous none db =
    elim (Option-cases (item "schema_version" draft.agent_spec)) [
      | inl missing ↦ rw missing (AppendOnly-same db db refl refl)
      | inr (version, present) ↦ rw present (
          let made : AppendOnly db (record db { versions = _ ∷ db.versions }) = record {
            added_versions = _ ∷ [];
            added_events = [];
            versions = refl;
            publications = refl;
          } in
          AppendOnly-trans made (select_version-AppendOnly t id _ active previous _ false _))
    ]

publish_version-AppendOnly :
    (t : Tenant) (id : ℕ) (draft : AgentDraft) (args : PublishArguments) (db : Catalog)
    → AppendOnly db (publish_version t id draft args db).1
unfolding publish_version
publish_version-AppendOnly t id draft args db =
    elim (Bool-cases
      (opt_eq (current_version (find_active t id db)) args.expected_active_version_id)) [
        | inl e ↦ rw e (
            version_for_draft-AppendOnly t id draft args (find_active t id db)
              (current_version (find_active t id db)) (find_digest t id draft.digest db) db)
        | inr e ↦ rw e (AppendOnly-same db db refl refl)
      ]

rollback_version-AppendOnly :
    (t : Tenant) (id : ℕ) (args : RollbackArguments) (db : Catalog)
    → AppendOnly db (rollback_version t id args db).1
unfolding rollback_version roll_back_to
rollback_version-AppendOnly t id args db =
    elim (Option-cases (find_version t id args.target_version_id db)) [
      | inl missing ↦ AppendOnly-same db _ (ground arith) (ground arith)
      | inr (v, found) ↦
          let previous = current_version (find_active t id db) in
          elim (Bool-cases (
            opt_eq previous (some args.expected_active_version_id)
            && not (opt_eq previous (some v.id)))) [
              | inl moved ↦ record {
                added_versions = [];
                added_events = publication t id args.fresh_event_id rolled_back previous v ∷ [];
                versions = ground arith;
                publications = ground arith;
              }
              | inr stayed ↦ AppendOnly-same db _ (ground arith) (ground arith)
            ]
    ]

import_step-AppendOnly :
    (t : Tenant) (args : ImportArguments) (id : ℕ) (found : Option AgentVersion) (db : Catalog)
    → AppendOnly db (version_for_import t args id found db).1
unfolding version_for_import
import_step-AppendOnly t args id (some v) db = AppendOnly-same db db refl refl
import_step-AppendOnly t args id none db =
    elim (Option-cases (item "schema_version" args.agent_spec)) [
      | inl missing ↦ rw missing (AppendOnly-same db db refl refl)
      | inr (version, present) ↦ rw present (record {
        added_versions = _ ∷ [];
        added_events = [];
        versions = refl;
        publications = refl;
      })
    ]

import_agent-AppendOnly :
    (t : Tenant) (args : ImportArguments) (known : Option Agent) (db : Catalog)
    → AppendOnly db
        ((do
          agent ← agent_for_import t args known
          existing ← gets (find_digest t agent.id args.digest)
          version_for_import t args agent.id existing)
          db).1
unfolding agent_for_import
import_agent-AppendOnly t args (some agent) db = import_step-AppendOnly t args agent.id _ db
import_agent-AppendOnly t args none db =
    elim (Option-cases (item "localized_metadata" args.agent_spec)) [
      | inl missing ↦ rw missing (AppendOnly-same db db refl refl)
      | inr (metadata, present) ↦ rw present (
          let added =
            import_step-AppendOnly t args args.fresh_agent_id _
              (record db { agents = _ ∷ db.agents }) in
          record {
            added_versions = added.added_versions;
            added_events = added.added_events;
            versions = added.versions;
            publications = added.publications;
          })
    ]

import_version-AppendOnly :
    (t : Tenant) (args : ImportArguments) (db : Catalog)
    → AppendOnly db (import_version t args db).1
unfolding import_version
import_version-AppendOnly t args db =
    import_agent-AppendOnly t args (find_agent t args.agent_key db) db

settle-AppendOnly :
    {A : Type 0} (old : Catalog) (r : Result StoreError A × Catalog)
    → AppendOnly old r.1
    → AppendOnly old (settle old r).1
settle-AppendOnly old (ok a, new) h = h
settle-AppendOnly old (err e, new) h = AppendOnly-same old old refl refl

-- No operation, whether it succeeds or raises, changes, removes or reorders a version or a ledger
-- entry: what it adds stands in front of all that was there.
pub perform-AppendOnly :
    (t : Tenant) (op : Operation) (db : Catalog) → AppendOnly db (perform t op db)
unfolding perform
perform-AppendOnly t (publishes validate args) db =
    settle-AppendOnly db (publish_draft t validate args db)
      (elim (publish_draft-cases t validate args db) [
        | inl same ↦
            AppendOnly-same db _ (ap (λ (s : Catalog). s.versions) same)
              (ap (λ (s : Catalog). s.publications) same)
        | inr (id, draft, e) ↦ rw e (publish_version-AppendOnly t id draft args db)
      ])
perform-AppendOnly t (rolls_back args) db =
    settle-AppendOnly db (rollback t args db) (elim (rollback-cases t args db) [
      | inl same ↦
          AppendOnly-same db _ (ap (λ (s : Catalog). s.versions) same)
            (ap (λ (s : Catalog). s.publications) same)
      | inr (id, e) ↦ rw e (rollback_version-AppendOnly t id args db)
    ])
perform-AppendOnly t (activates args) db = settle-AppendOnly db (activate t args db) (
    AppendOnly-same db (activate t args db).1 (versions-activate t args db)
      (publications-activate t args db))
perform-AppendOnly t (imports args) db =
    settle-AppendOnly db (import_version t args db) (import_version-AppendOnly t args db)
perform-AppendOnly t (creates_draft key layout fresh) db =
    let kept = create_from_active-SameButDrafts t key layout fresh db in
    settle-AppendOnly db (create_from_active t key layout fresh db) (
      AppendOnly-same db (create_from_active t key layout fresh db).1 kept.versions
        kept.publications)
perform-AppendOnly t (updates_draft args) db =
    let kept = update_draft-SameButDrafts t args db in
    settle-AppendOnly db (update_draft t args db)
      (AppendOnly-same db (update_draft t args db).1 kept.versions kept.publications)
