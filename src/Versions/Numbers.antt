-- ===== src/Versions/Numbers.antt =====
-- The constraints `UniqueConstraint("agent_id", "version_number")` and
-- `UniqueConstraint("agent_id", "digest")` of agent_versions, under every operation that adds one.
use universal_agent_studio.Prelude.{
  Option-cases, ℕ, ◌==◌, ◌<◌, ◌≡◌, refl, String, Bool, false, ◌&&◌, Option, none, some, opt_eq,
  Bool-cases, inl, inr, gets, ◌>>=◌, List, [], ◌∷◌, arith, All, find-none, str_eq,
}
use universal_agent_studio.Json.{Json, item}
use universal_agent_studio.Catalog.{
  AgentVersion, AgentDraft, Agent, Catalog, Tenant, ActiveVersion, find_digest, find_active,
  find_agent, current_version, max_number, next_number, version_of,
}
use universal_agent_studio.Publishing.{
  PublishArguments, publish_draft, publish_version, version_for_draft, select_version,
}
use universal_agent_studio.Publishing.Cases.{publish_draft-cases}
use universal_agent_studio.Versions.{
  ImportArguments, import_version, version_for_import, agent_for_import,
}

abbrev same_number : AgentVersion → AgentVersion → Bool
same_number x v = x.agent_id == v.agent_id && x.version_number == v.version_number

abbrev same_digest : AgentVersion → AgentVersion → Bool
same_digest x v =
    version_of (record { workspace_id = x.workspace_id; project_id = x.project_id }) x.agent_id v
    && str_eq x.digest v.digest

-- No two versions of an agent share a number or a digest.
abbrev pub IsNumbered : List AgentVersion → Type 0
IsNumbered [] = Unit
IsNumbered (x ∷ vs) =
    All (λ v. same_number x v ≡ false) vs × All (λ v. same_digest x v ≡ false) vs × IsNumbered vs

number_is_fresh :
    (id n : ℕ) (vs : List AgentVersion)
    → max_number id vs < n
    → All (λ v. (id == v.agent_id && n == v.version_number) ≡ false) vs
unfolding max_number
number_is_fresh id n [] h = tt
number_is_fresh id n (v ∷ vs) h = ground (arith, number_is_fresh id n vs)

abbrev numbered_version : Tenant → ℕ → ℕ → String → Json → Catalog → AgentVersion
numbered_version t id fresh digest spec db = record {
  id = fresh;
  workspace_id = t.workspace_id;
  project_id = t.project_id;
  agent_id = id;
  version_number = next_number id db;
  digest = digest;
  agent_spec = spec;
}

-- A version whose digest the agent does not have yet, under the next number.
module _ (t : Tenant) (id fresh : ℕ) (digest : String) (spec : Json) (db : Catalog)
    (numbered : IsNumbered db.versions) where
  add-IsNumbered :
      find_digest t id digest db ≡ none
      → IsNumbered (numbered_version t id fresh digest spec db ∷ db.versions)
  unfolding find_digest
  add-IsNumbered h = (
    number_is_fresh id (next_number id db) db.versions (omega arith),
    find-none (λ v. version_of t id v && str_eq digest v.digest) db.versions h,
    numbered,
  )

versions-select_version :
    (t : Tenant) (id fresh : ℕ) (active : Option ActiveVersion) (previous : Option ℕ)
    (v : AgentVersion) (reused : Bool) (s : Catalog)
    → (select_version t id fresh active previous v reused s).1.versions ≡ s.versions
unfolding select_version
versions-select_version t id fresh active previous v reused s = ground arith

module _ (t : Tenant) (id : ℕ) (db : Catalog) (numbered : IsNumbered db.versions) where
  choose-IsNumbered :
      (draft : AgentDraft) (args : PublishArguments) (active : Option ActiveVersion)
      (previous : Option ℕ) (found : Option AgentVersion)
      → find_digest t id draft.digest db ≡ found
      → IsNumbered
          ((do
            chosen ← version_for_draft t id draft args.fresh_version_id found
            select_version t id args.fresh_event_id active previous chosen.0 chosen.1)
            db).1.versions
  unfolding version_for_draft
  choose-IsNumbered draft args active previous (some v) h = rw versions-select_version numbered
  choose-IsNumbered draft args active previous none h =
      elim (Option-cases (item "schema_version" draft.agent_spec)) [
        | inl missing ↦ rw missing numbered
        | inr (value, present) ↦ rw present (
            rw versions-select_version (
              add-IsNumbered t id args.fresh_version_id draft.digest draft.agent_spec db numbered
                h))
      ]

  publish_version-IsNumbered :
      (draft : AgentDraft) (args : PublishArguments)
      → IsNumbered (publish_version t id draft args db).1.versions
  unfolding publish_version
  publish_version-IsNumbered draft args =
      elim (Bool-cases
        (opt_eq (current_version (find_active t id db)) args.expected_active_version_id)) [
          | inl e ↦ rw e (choose-IsNumbered draft args _ _ _ refl)
          | inr e ↦ rw e numbered
        ]

  version_for_import-IsNumbered :
      (args : ImportArguments) (found : Option AgentVersion)
      → find_digest t id args.digest db ≡ found
      → IsNumbered (version_for_import t args id found db).1.versions
  unfolding version_for_import
  version_for_import-IsNumbered args (some v) h = numbered
  version_for_import-IsNumbered args none h =
      elim (Option-cases (item "schema_version" args.agent_spec)) [
        | inl missing ↦ rw missing numbered
        | inr (value, present) ↦
            rw present
              (add-IsNumbered t id args.fresh_version_id args.digest args.agent_spec db numbered h)
      ]

-- Publication keeps the numbers and the digests of each agent's versions distinct.
pub publish_draft-IsNumbered :
    (t : Tenant) (validate : Option (Json → String → Bool)) (args : PublishArguments) (db : Catalog)
    → IsNumbered db.versions
    → IsNumbered (publish_draft t validate args db).1.versions
publish_draft-IsNumbered t validate args db numbered =
    elim (publish_draft-cases t validate args db) [
      | inl same ↦ rw same numbered
      | inr (id, draft, e) ↦ rw e (publish_version-IsNumbered t id db numbered draft args)
    ]

import_step-IsNumbered :
    (t : Tenant) (args : ImportArguments) (db : Catalog) (known : Option Agent)
    → IsNumbered db.versions
    → IsNumbered
        ((do
          agent ← agent_for_import t args known
          existing ← gets (find_digest t agent.id args.digest)
          version_for_import t args agent.id existing)
          db).1.versions
unfolding agent_for_import
import_step-IsNumbered t args db (some agent) numbered =
    version_for_import-IsNumbered t agent.id db numbered args _ refl
import_step-IsNumbered t args db none numbered =
    elim (Option-cases (item "localized_metadata" args.agent_spec)) [
      | inl missing ↦ rw missing numbered
      | inr (value, present) ↦ rw present (
          version_for_import-IsNumbered t args.fresh_agent_id (record db { agents = _ ∷ db.agents })
            numbered args _ refl)
    ]

-- Import keeps them distinct too.
pub import_version-IsNumbered :
    (t : Tenant) (args : ImportArguments) (db : Catalog)
    → IsNumbered db.versions
    → IsNumbered (import_version t args db).1.versions
unfolding import_version
import_version-IsNumbered t args db numbered =
    import_step-IsNumbered t args db (find_agent t args.agent_key db) numbered
