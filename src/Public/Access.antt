-- ===== src/Public/Access.antt =====
-- Who reads runs through the public API.
use Prim.Native.String.{◌++◌}
use universal_agent_studio.Prelude.{
  ℕ, ◌≡◌, subst, String, str_mem, true, Bool-cases, Option-cases, Result-cases, Option, none, some,
  find, find_sound, ok, inl, inr, arith,
}
use universal_agent_studio.Catalog.{Tenant}
use universal_agent_studio.Credentials.{PublicPrincipal, verify_run_capability}
use universal_agent_studio.Runs.{Run, run_of, find_run}
use universal_agent_studio.RunService.{Platform, StoredRun, get_stored, stored}
use universal_agent_studio.RunService.Requests.{Outside, get_run}
use universal_agent_studio.Public.{PublicConfig, PublicState, bearer}
use universal_agent_studio.Public.Versions.{belongs_to_agent_lem}
use universal_agent_studio.Public.Reading.{
  authorized_run, belongs_to_agent, is_capability, principal_of, read_principal, scope_of,
}
use universal_agent_studio.Public.Entitlement.{IsEntitled}
use universal_agent_studio.Public.Entitlement.Capability.{verified-HoldsCapability}
use universal_agent_studio.Public.Entitlement.Keys.{by_key}

stored_copies :
    (o : Outside) (t : Tenant) (row : Run) (pl : Platform) (run : StoredRun)
    → (stored o.rendering row pl).0 ≡ ok run
    → (run.id ≡ row.id) × (run.workspace_id ≡ row.workspace_id) × (run.project_id ≡ row.project_id)
unfolding stored
stored_copies o t row pl run e = ground arith

get_run_of_tenant :
    (o : Outside) (t : Tenant) (run_id : ℕ) (pl : Platform) (run : StoredRun)
    → (get_run o t run_id pl).0 ≡ ok run
    → (run.id ≡ run_id) × (run.workspace_id ≡ t.workspace_id) × (run.project_id ≡ t.project_id)
unfolding get_run get_stored find_run
get_run_of_tenant o t run_id pl run e = elim (Option-cases (find (run_of t run_id) pl.runs.runs)) [
  | inl missing ↦ absurd (ground (arith, missing, e))
  | inr (row, found) ↦ elim (Result-cases (stored o.rendering row pl).0) [
    | inl (made, copied) ↦ ground (
      arith,
      found,
      copied,
      e,
      stored_copies o t row pl made copied,
      find_sound (run_of t run_id) pl.runs.runs found,
    )
    | inr (x, broken) ↦ absurd (ground (arith, found, broken, e))
  ]
]

entitled :
    (config : PublicConfig) (s : PublicState) (agent_id : String) (run_id : ℕ)
    (required_scope raw : String) (p : PublicPrincipal)
    → (principal_of config agent_id run_id required_scope raw s).0 ≡ ok p
    → IsEntitled config s agent_id run_id required_scope raw (scope_of p)
unfolding principal_of
entitled config s agent_id run_id required_scope raw p e = elim (Bool-cases (is_capability raw)) [
  | inr key ↦ inr (by_key config s agent_id required_scope raw p (rw key at e))
  | inl capability ↦
      elim (Option-cases (
        verify_run_capability config.library config.capability_master raw agent_id run_id
          config.now)) [
            | inl refused ↦ absurd (ground (arith, capability, refused, e))
            | inr (q, verified) ↦
                let same : q ≡ p = ground (arith, capability, verified, e) in
                let scope : str_mem required_scope q.scopes ≡ true =
                  ground (arith, capability, verified, e) in
                subst
                  (λ (x : PublicPrincipal).
                    IsEntitled config s agent_id run_id required_scope raw (scope_of x))
                  same
                  (inl (
                    verified-HoldsCapability config agent_id run_id required_scope raw q verified
                      scope))
          ]
]

abbrev pub tenant_of_run : StoredRun → Tenant
tenant_of_run run = record { workspace_id = run.workspace_id; project_id = run.project_id }

-- A request that is let through: what is shown entitles to the run in the tenant of the run.
abbrev pub Reads :
    PublicConfig → PublicState → String → ℕ → Option String → String → StoredRun → Type 0
Reads config s agent_id run_id authorization required_scope run =
    (raw : String) × (bearer config.library authorization ≡ ok (some raw))
    × IsEntitled config s agent_id run_id required_scope raw (tenant_of_run run)
    × (run.id ≡ run_id)
    × (number : String) × (run.agent_version_id ≡ agent_id ++ ("-v" ++ number))
    × (config.library.isdigit number ≡ true)

tenants :
    (run : StoredRun) (p : PublicPrincipal)
    → run.workspace_id ≡ p.workspace_id
    → run.project_id ≡ p.project_id
    → scope_of p ≡ tenant_of_run run
tenants run p workspace project = cc

module _ (config : PublicConfig) (o : Outside) (agent_id : String) (run_id : ℕ)
    (authorization : Option String) (required_scope : String) (s : PublicState)
    (run : StoredRun) where
  with_credential :
      (raw : String)
      → bearer config.library authorization ≡ ok (some raw)
      → (authorized_run config o agent_id run_id authorization required_scope s).0 ≡ ok run
      → Reads config s agent_id run_id authorization required_scope run
  unfolding authorized_run read_principal
  with_credential raw borne e =
      elim (Result-cases (principal_of config agent_id run_id required_scope raw s).0) [
        | inr (x, refused) ↦ absurd (ground (arith, borne, refused, e))
        | inl (p, known) ↦
            let s' = (principal_of config agent_id run_id required_scope raw s).1 in
            elim (Result-cases (get_run o (scope_of p) run_id s'.platform).0) [
              | inr (x, missing) ↦ absurd (ground (arith, borne, known, missing, e))
              | inl (found, got) ↦
                  let same : found ≡ run = ground (arith, borne, known, got, e) in
                  let belongs : belongs_to_agent config.library found agent_id ≡ true =
                    ground (arith, borne, known, got, e) in
                  let (id, workspace, project) =
                    get_run_of_tenant o (scope_of p) run_id s'.platform found got in
                  let (number, named, digits) =
                    belongs_to_agent_lem config.library found agent_id belongs in
                  subst (Reads config s agent_id run_id authorization required_scope) same (
                    raw,
                    borne,
                    subst (IsEntitled config s agent_id run_id required_scope raw)
                        (tenants found p workspace project)
                        (entitled config s agent_id run_id required_scope raw p known),
                    id,
                    number,
                    named,
                    digits,
                  )
            ]
      ]

  -- The public API reads a run only for a bearer of a credential that entitles to it. This is a
  -- capability that is signed with the master key, names this agent, this run and the tenant of the
  -- run, and has not expired, where the scope is one for reading; or a key of the table, found by
  -- its prefix, of this agent and the tenant of the run, with the required scope, that is neither
  -- revoked nor expired and has the hash of what is shown. The run is the one that is asked for, and
  -- its version is one of the agent that is asked for.
  pub authorized_run-Reads :
      (authorized_run config o agent_id run_id authorization required_scope s).0 ≡ ok run
      → Reads config s agent_id run_id authorization required_scope run
  unfolding authorized_run read_principal
  authorized_run-Reads e = elim (Result-cases (bearer config.library authorization)) [
    | inr (x, refused) ↦ absurd (ground (arith, refused, e))
    | inl (none, absent) ↦ absurd (ground (arith, absent, e))
    | inl (some raw, borne) ↦ with_credential raw borne e
  ]
