-- ===== src/Public/Entitlement/Keys.antt =====
-- What an API key that is accepted is.
use universal_agent_studio.Prelude.{
  ℕ, ◌==◌, ◌≡◌, refl, ap, sym, subst, String, str_eq, str_mem, eq_iff, true, Option, Option-cases,
  none, some, find, find_sound, ok, inl, inr, arith,
}
use universal_agent_studio.Credentials.{Bytes, PublicPrincipal, require_master_key}
use universal_agent_studio.Public.{
  PublicConfig, PublicState, KeyOfAgent, accept_key, authenticate_api_key, key_of_agent, key_prefix,
  is_current, unexpired, key_principal,
}
use universal_agent_studio.Public.Reading.{scope_of}
use universal_agent_studio.Public.Entitlement.{HoldsKey, IsLive}

-- The row of the query is a key of the table, with the agent it belongs to.
module _ (prefix : String) (s : PublicState) (row : KeyOfAgent)
    (e : key_of_agent prefix s ≡ some row) where
  row_found :
      (find (λ x. str_eq x.prefix prefix) s.keys ≡ some row.key)
      × (find (λ x. x.id == row.key.agent_id) s.platform.catalog.agents ≡ some row.agent)
  unfolding key_of_agent
  row_found = elim (Option-cases (find (λ x. str_eq x.prefix prefix) s.keys)) [
    | inl missing ↦ absurd (ground (arith, missing, e))
    | inr (k, found) ↦
        elim (Option-cases (find (λ a. a.id == k.agent_id) s.platform.catalog.agents)) [
          | inl orphan ↦ absurd (ground (arith, found, orphan, e))
          | inr (a, owned) ↦
              let same : record { key = k; agent = a } ≡ row = ground (arith, found, owned, e) in
              subst
                (λ (r : KeyOfAgent).
                  (find (λ x. str_eq x.prefix prefix) s.keys ≡ some r.key)
                  × (find (λ x. x.id == r.key.agent_id) s.platform.catalog.agents ≡ some r.agent))
                same (found, owned)
        ]
  ]

  row_prefix : prefix ≡ row.key.prefix
  row_prefix = sym (
      (eq_iff row.key.prefix prefix).0
        (find_sound (λ x. str_eq x.prefix prefix) s.keys row_found.0))

unexpired-IsLive : (now : ℕ) (at : Option ℕ) → unexpired now at ≡ true → IsLive now at
unexpired-IsLive now none h = tt
unexpired-IsLive now (some at) h = ground (arith, h)

module _ (config : PublicConfig) (s : PublicState) (agent_id required_scope raw : String)
    (row : KeyOfAgent) (p : PublicPrincipal)
    (accepted : (accept_key config raw agent_id required_scope row s).0 ≡ ok p) where
  accepted_principal : p ≡ key_principal row
  unfolding accept_key
  accepted_principal = ground (arith, accepted)

  accepted_tests :
      (is_current config.now agent_id row ≡ true) × (str_mem required_scope row.key.scopes ≡ true)
  unfolding accept_key
  accepted_tests = ground (arith, accepted)

  accepted_hash :
      (master : Bytes) × (require_master_key config.api_key_hash_master ≡ some master)
      × (config.library.key_mac master raw ≡ row.key.key_hash)
  unfolding accept_key
  accepted_hash = elim (Option-cases (require_master_key config.api_key_hash_master)) [
    | inl short ↦ absurd (ground (arith, short, accepted))
    | inr (master, usable) ↦ (
      master,
      usable,
      (eq_iff (config.library.key_mac master raw) row.key.key_hash).0
          (ground (arith, usable, accepted)),
    )
  ]

  accepted_key :
      (prefix : String)
      → key_prefix raw ≡ some prefix
      → key_of_agent prefix s ≡ some row
      → HoldsKey config s agent_id required_scope raw (scope_of p)
  accepted_key prefix formed found =
      let (master, usable, hashed) = accepted_hash in
      let agent : row.agent.agent_key ≡ agent_id =
        (eq_iff row.agent.agent_key agent_id).0 (ground (arith, accepted_tests)) in
      let same = row_prefix prefix s row found in
      rw (accepted_principal) (
        row.key,
        rw formed (ap (λ (q : String). some q) same),
        subst (λ (q : String). find (λ x. str_eq x.prefix q) s.keys ≡ some row.key) same
            (row_found prefix s row found).0,
        row.agent,
        (row_found prefix s row found).1,
        agent,
        refl,
        refl,
        accepted_tests.1,
        ground (arith, accepted_tests),
        unexpired-IsLive config.now row.key.expires_at (ground (arith, accepted_tests)),
        master,
        usable,
        hashed,
      )

module _ (config : PublicConfig) (s : PublicState) (agent_id required_scope raw : String)
    (p : PublicPrincipal) where
  pub by_key :
      (authenticate_api_key config raw agent_id required_scope s).0 ≡ ok p
      → HoldsKey config s agent_id required_scope raw (scope_of p)
  unfolding authenticate_api_key
  by_key e = elim (Option-cases (key_prefix raw)) [
    | inl malformed ↦ absurd (ground (arith, malformed, e))
    | inr (prefix, formed) ↦ elim (Option-cases (key_of_agent prefix s)) [
      | inl unknown ↦ absurd (ground (arith, formed, unknown, e))
      | inr (row, found) ↦
          let accepted : (accept_key config raw agent_id required_scope row s).0 ≡ ok p =
            rw (formed, found) at e in
          accepted_key config s agent_id required_scope raw row p accepted prefix formed found
    ]
  ]
