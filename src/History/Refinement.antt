-- ===== src/History/Refinement.antt =====
-- The operations of the catalog, against the abstract register of the traffic pointers.
use universal_agent_studio.Prelude.{
  ℕ, opt_eq, ◌≡◌, refl, ap, inl, inr, ◌&&◌, not, Option, some, Result-cases, Option-cases,
  Bool-cases, transaction, arith,
}
use universal_agent_studio.Catalog.{Action, Catalog, Tenant, find_active, find_agent, find_version}
use universal_agent_studio.Publishing.{publish_draft, rollback}
use universal_agent_studio.Publishing.Cases.{publish_draft-cases, rollback-cases}
use universal_agent_studio.Publishing.Pointer.{pointer, pointer-set_active}
use universal_agent_studio.Versions.{ActivateArguments, activate, has_publication, import_version}
use universal_agent_studio.Drafts.{create_from_active, update_draft}
use universal_agent_studio.History.Frame.{
  actives-import_version, create_from_active-SameButDrafts, update_draft-SameButDrafts,
}
use universal_agent_studio.History.Register.{
  Register, register, Keeps, Swaps, Moves-Swaps, publish_version-Swaps, rollback_version-Swaps,
}
use universal_agent_studio.History.{
  Operation, publishes, rolls_back, activates, imports, creates_draft, updates_draft, perform,
}

-- The abstract operation of each concrete one.
abbrev pub Refines : Tenant → Operation → Register → Register → Type 0
Refines t (publishes validate args) r r' = Swaps t args.expected_active_version_id r r'
Refines t (rolls_back args) r r' = Swaps t (some args.expected_active_version_id) r r'
Refines t (activates args) r r' = Swaps t args.expected_previous_version_id r r'
Refines t (imports args) r r' = Keeps r r'
Refines t (creates_draft key layout fresh) r r' = Keeps r r'
Refines t (updates_draft args) r r' = Keeps r r'

activate-Swaps :
    (t : Tenant) (args : ActivateArguments) (db : Catalog)
    → Swaps t args.expected_previous_version_id (register db) (register (activate t args db).1)
unfolding activate
activate-Swaps t args db = elim (Option-cases (find_agent t args.agent_key db)) [
  | inl unknown ↦ inl (λ u jd. ground (arith, unknown))
  | inr (agent, known) ↦ elim (Option-cases (find_version t agent.id args.version_id db)) [
    | inl missing ↦ inl (λ u jd. ground (arith, known, missing))
    | inr (version, found) ↦
        elim (Bool-cases (
          not (has_publication t agent.id db)
          && opt_eq (pointer t agent.id db) args.expected_previous_version_id)) [
            | inr stopped ↦ inl (λ u jd. ground (arith, known, found, stopped))
            | inl passed ↦
                Moves-Swaps t agent.id args.expected_previous_version_id (register db) _
                  (ground (arith, passed))
                  (inr (
                    version.id,
                    λ u jd. ground (
                      arith,
                      known,
                      found,
                      passed,
                      pointer-set_active t u agent.id jd version.id db,
                    ),
                  ))
          ]
  ]
]

-- A transaction that is rolled back keeps the register.
transaction-Swaps :
    {A : Type 0} (m : Action A) (t : Tenant) (expected : Option ℕ) (db : Catalog)
    → Swaps t expected (register db) (register (m db).1)
    → Swaps t expected (register db) (register (transaction m db).1)
transaction-Swaps m t expected db h = elim (Result-cases (m db).0) [
  | inl (a, done) ↦ rw (done) h
  | inr (e, failed) ↦ rw (failed) (inl (λ u jd. refl))
]

transaction-Keeps :
    {A : Type 0} (m : Action A) (db : Catalog)
    → (m db).1.actives ≡ db.actives
    → Keeps (register db) (register (transaction m db).1)
unfolding find_active
transaction-Keeps m db h u jd = elim (Result-cases (m db).0) [
  | inl (a, done) ↦ ground (arith, done, h)
  | inr (e, failed) ↦ ground (arith, failed)
]

-- Every operation of the catalog is one step of an abstract register, which holds the routed version
-- of each agent. A publication, a rollback and an activation are a compare-and-swap with the version
-- that the client expects: the register is kept, or the cell of one agent of the tenant held what
-- was expected and is set, while every other cell is kept. An import and the operations on drafts
-- keep the register.
pub perform-Refines :
    (t : Tenant) (op : Operation) (db : Catalog)
    → Refines t op (register db) (register (perform t op db))
unfolding perform
perform-Refines t (publishes validate args) db =
    transaction-Swaps (publish_draft t validate args) t args.expected_active_version_id db
      (elim (publish_draft-cases t validate args db) [
        | inl same ↦ inl (λ u jd. ap (pointer u jd) same)
        | inr (id, draft, e) ↦ rw (e) (publish_version-Swaps t id draft args db)
      ])
perform-Refines t (rolls_back args) db =
    transaction-Swaps (rollback t args) t (some args.expected_active_version_id) db
      (elim (rollback-cases t args db) [
        | inl same ↦ inl (λ u jd. ap (pointer u jd) same)
        | inr (id, e) ↦ rw (e) (rollback_version-Swaps t id args db)
      ])
perform-Refines t (activates args) db =
    transaction-Swaps (activate t args) t args.expected_previous_version_id db
      (activate-Swaps t args db)
perform-Refines t (imports args) db =
    transaction-Keeps (import_version t args) db (actives-import_version t args db)
perform-Refines t (creates_draft key layout fresh) db =
    transaction-Keeps (create_from_active t key layout fresh) db
      (create_from_active-SameButDrafts t key layout fresh db).actives
perform-Refines t (updates_draft args) db =
    transaction-Keeps (update_draft t args) db (update_draft-SameButDrafts t args db).actives
