-- ===== src/History/Register.antt =====
-- The traffic pointers of the catalog as one abstract register with compare-and-swap.
use universal_agent_studio.Prelude.{
  ℕ, opt_eq, ◌≡◌, ◌⊎◌, refl, inl, inr, if◌then◌else◌, Bool, true, false, ◌&&◌, Option, none, some,
  is_some, Option-cases, Bool-cases, ◌∷◌, ◌>>=◌, arith,
}
use universal_agent_studio.Json.{item}
use universal_agent_studio.Catalog.{
  AgentDraft, AgentVersion, Catalog, Tenant, find_active, find_digest, find_version,
}
use universal_agent_studio.Publishing.{
  PublishArguments, RollbackArguments, publish_version, select_version, version_for_draft,
  rollback_version, roll_back_to,
}
use universal_agent_studio.Publishing.Pointer.{pointer, same_agent, pointer-set_active}

-- What the register holds for each agent of each tenant.
abbrev pub Register : Type 0
Register = Tenant → ℕ → Option ℕ

abbrev pub register : Catalog → Register
register db t id = pointer t id db

abbrev pub Keeps : Register → Register → Type 0
Keeps r r' = (u : Tenant) (jd : ℕ) → r' u jd ≡ r u jd

-- The cell of one agent is set, and no other changes.
abbrev pub Sets : Tenant → ℕ → ℕ → Register → Register → Type 0
Sets t id v r r' =
    (u : Tenant) (jd : ℕ) → r' u jd ≡ (if same_agent t id u jd then some v else r u jd)

-- A compare-and-swap of a cell of the tenant: nothing, or the cell held what was expected, and is set.
abbrev pub Swaps : Tenant → Option ℕ → Register → Register → Type 0
Swaps t expected r r' = Keeps r r' ⊎ ((id v : ℕ) × (r t id ≡ expected) × Sets t id v r r')

opt_eq_sound : (a b : Option ℕ) → opt_eq a b ≡ true → a ≡ b
opt_eq_sound none none h = refl
opt_eq_sound none (some b) h = cc
opt_eq_sound (some a) none h = cc
opt_eq_sound (some a) (some b) h = ground arith

-- The cell of one agent may be set.
abbrev pub Moves : Tenant → ℕ → Register → Register → Type 0
Moves t id r r' = Keeps r r' ⊎ ((v : ℕ) × Sets t id v r r')

pub Moves-Swaps :
    (t : Tenant) (id : ℕ) (expected : Option ℕ) (r r' : Register)
    → opt_eq (r t id) expected ≡ true
    → Moves t id r r'
    → Swaps t expected r r'
Moves-Swaps t id expected r r' held (inl kept) = inl kept
Moves-Swaps t id expected r r' held (inr (v, set)) =
    inr (id, v, opt_eq_sound (r t id) expected held, set)

-- Choosing a version moves the pointer of the agent there, if it is elsewhere.
module _ (t : Tenant) (id fresh : ℕ) (version : AgentVersion) (db : Catalog) where
  select_version-Moves :
      (reused : Bool)
      → Moves t id (register db) (
          register
            (select_version t id fresh (find_active t id db) (pointer t id db) version reused db).1)
  unfolding select_version find_active
  select_version-Moves reused = elim (Bool-cases (opt_eq (pointer t id db) (some version.id))) [
    | inl there ↦ inl (λ u jd. ground (arith, there))
    | inr moved ↦
        inr (version.id, λ u jd. ground (arith, moved, pointer-set_active t u id jd version.id db))
  ]

  roll_back_to-Moves :
      Moves t id
        (register db)
        (register (roll_back_to t id fresh (find_active t id db) (pointer t id db) version db).1)
  unfolding roll_back_to find_active
  roll_back_to-Moves = elim (Bool-cases (opt_eq (pointer t id db) (some version.id))) [
    | inl there ↦ inl (λ u jd. ground (arith, there))
    | inr moved ↦
        inr (version.id, λ u jd. ground (arith, moved, pointer-set_active t u id jd version.id db))
  ]

module _ (t : Tenant) (id : ℕ) (draft : AgentDraft) (args : PublishArguments) (db : Catalog) where
  choose_version-Moves :
      (found : Option AgentVersion)
      → Moves t id (register db) (
          register
            ((do
              chosen ← version_for_draft t id draft args.fresh_version_id found
              select_version t id args.fresh_event_id
                  (find_active t id db)
                  (pointer t id db)
                  chosen.0
                  chosen.1)
              db).1)
  unfolding version_for_draft find_active
  choose_version-Moves (some version) =
      select_version-Moves t id args.fresh_event_id version db true
  choose_version-Moves none = elim (Option-cases (item "schema_version" draft.agent_spec)) [
    | inl missing ↦ rw missing (inl (λ u jd. refl))
    | inr (value, present) ↦ rw present (
        select_version-Moves t id args.fresh_event_id _ (record db { versions = _ ∷ db.versions })
          false)
  ]

  pub publish_version-Swaps :
      Swaps t args.expected_active_version_id
        (register db)
        (register (publish_version t id draft args db).1)
  unfolding publish_version
  publish_version-Swaps =
      elim (Bool-cases (opt_eq (pointer t id db) args.expected_active_version_id)) [
        | inl here ↦
            Moves-Swaps t id args.expected_active_version_id (register db) _ here
              (rw (here) (choose_version-Moves (find_digest t id draft.digest db)))
        | inr elsewhere ↦ rw (elsewhere) (inl (λ u jd. refl))
      ]

module _ (t : Tenant) (id : ℕ) (args : RollbackArguments) (db : Catalog) where
  pub rollback_version-Swaps :
      Swaps t
        (some args.expected_active_version_id)
        (register db)
        (register (rollback_version t id args db).1)
  unfolding rollback_version
  rollback_version-Swaps =
      elim (Bool-cases (
        opt_eq (pointer t id db) (some args.expected_active_version_id)
        && is_some (find_active t id db))) [
          | inr elsewhere ↦ inl (λ u jd. ground (arith, elsewhere))
          | inl here ↦ elim (Option-cases (find_version t id args.target_version_id db)) [
            | inl missing ↦ inl (λ u jd. ground (arith, here, missing))
            | inr (target, found) ↦
                let same : (rollback_version t id args db).1
                    ≡ (roll_back_to t id args.fresh_event_id (find_active t id db) (pointer t id db)
                        target db).1 =
                  ground (arith, here, found) in
                Moves-Swaps t id (some args.expected_active_version_id) (register db) _
                  (ground (arith, here))
                  (rw (same) (roll_back_to-Moves t id args.fresh_event_id target db))
          ]
        ]
