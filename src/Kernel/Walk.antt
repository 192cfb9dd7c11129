-- ===== src/Kernel/Walk.antt =====
-- The loop of `_execution_path`: its fuel, and the shape of what it returns.
use universal_agent_studio.Prelude.{
  ◌∙◌, ap, sym, subst, ℕ, zero, suc, ◌==◌, ◌<◌, ◌≤◌, ◌≡◌, ◌≢◌, refl, ◌⊎◌, inl, inr, Bool-cases,
  Option-cases, Result-cases, String, str_eq, str_eq_refl, str_mem, eq_iff, if◌then◌else◌, Bool,
  true, false, some, List, [], ◌∷◌, length, all, keep, Result, ok, err, arith,
}
use universal_agent_studio.Kernel.{AgentSpec, Node, KernelError, out_of_fuel}
use universal_agent_studio.Kernel.Graph.{
  execution_path, finish_path, following, has_kind, known_node, node_by_id, supported, walk,
}

-- The nodes that the loop has not visited yet.
abbrev unseen : List String → List Node → ℕ
unseen visited [] = 0
unseen visited (n ∷ ns) =
    let rest = unseen visited ns in if str_mem n.id visited then rest else suc rest

unseen_le :
    (id : String) (visited : List String) (ns : List Node)
    → unseen (id ∷ visited) ns ≤ unseen visited ns
unseen_le id visited [] = omega arith
unseen_le id visited (n ∷ ns) = ground (arith, unseen_le id visited ns)

-- A visit of a node of the graph leaves fewer.
unseen_lt :
    (id : String) (visited : List String) (ns : List Node)
    → known_node ns id ≡ true
    → str_mem id visited ≡ false
    → unseen (id ∷ visited) ns < unseen visited ns
unseen_lt id visited [] known new = ground arith
unseen_lt id visited (n ∷ ns) known new =
    ground (arith, unseen_le id visited ns, unseen_lt id visited ns, eq_iff id n.id, eq_iff n.id id)

unseen-length : (ns : List Node) → unseen [] ns ≡ length ns
unseen-length [] = refl
unseen-length (n ∷ ns) = ground (arith, unseen-length ns)

node_by_id-id : (id : String) (ns : List Node) {n : Node} → node_by_id id ns ≡ some n → id ≡ n.id
unfolding node_by_id
node_by_id-id id [] h = cc
node_by_id-id id (x ∷ ns) {n} h = ground (arith, node_by_id-id id ns {n = n}, eq_iff id x.id)

node_by_id-known :
    (id : String) (ns : List Node) {n : Node} → node_by_id id ns ≡ some n → known_node ns id ≡ true
unfolding node_by_id
node_by_id-known id [] h = cc
node_by_id-known id (x ∷ ns) {n} h = ground (arith, node_by_id-known id ns {n = n}, eq_iff id x.id)

List-cases {ℓ} :
    {A : Type ℓ} (xs : List A)
    → (xs ≡ [])
      ⊎ (((a : A) × (xs ≡ a ∷ [])) ⊎ ((a : A) × (b : A) × (rest : List A) × (xs ≡ a ∷ b ∷ rest)))
List-cases [] = inl refl
List-cases (a ∷ []) = inr (inl (a, refl))
List-cases (a ∷ b ∷ rest) = inr (inr (a, b, rest, refl))

-- With more fuel than unseen nodes the loop does not run out of it.
walk-fuel :
    (fuel : ℕ) (agent : AgentSpec) (visited : List String) (current : Node)
    → known_node agent.nodes current.id ≡ true
    → unseen visited agent.nodes < fuel
    → walk fuel agent visited current ≢ err out_of_fuel
unfolding walk
walk-fuel zero agent visited current known enough = absurd (omega arith)
walk-fuel (suc fuel) agent visited current known enough =
    elim (Bool-cases (str_mem current.id visited)) [
      | inl seen ↦ λ h. ground (arith, h, seen)
      | inr new ↦ elim (List-cases (following current.id agent.edges)) [
        | inl last ↦ λ h. ground (arith, h, new, last)
        | inr (inr (a, b, rest, many)) ↦ λ h. ground (arith, h, new, many)
        | inr (inl (id, one)) ↦ elim (Option-cases (node_by_id id agent.nodes)) [
          | inl missing ↦ λ h. ground (arith, h, new, one, missing)
          | inr (next, found) ↦
              let less = unseen_lt current.id visited agent.nodes known new in
              let reached : known_node agent.nodes next.id ≡ true =
                subst (λ x. known_node agent.nodes x ≡ true) (node_by_id-id id agent.nodes found)
                  (node_by_id-known id agent.nodes found) in
              let ih = walk-fuel fuel agent (current.id ∷ visited) next reached (omega arith) in
              λ h. ground (arith, h, ih, new, one, found)
        ]
      ]
    ]

-- From each node of the path the only edge leads to the next one, and from the last one none.
abbrev pub IsWalk : AgentSpec → List Node → Type 0
IsWalk agent [] = Unit
IsWalk agent (a ∷ []) = following a.id agent.edges ≡ []
IsWalk agent (a ∷ b ∷ rest) = (following a.id agent.edges ≡ b.id ∷ []) × IsWalk agent (b ∷ rest)

walk-IsWalk :
    (fuel : ℕ) (agent : AgentSpec) (visited : List String) (current : Node) (path : List Node)
    → walk fuel agent visited current ≡ ok path
    → (rest : List Node) × (path ≡ current ∷ rest) × IsWalk agent (current ∷ rest)
unfolding walk
walk-IsWalk zero agent visited current path h = absurd (ground (arith, h))
walk-IsWalk (suc fuel) agent visited current path h =
    elim (Bool-cases (str_mem current.id visited)) [
      | inl seen ↦ absurd (ground (arith, h, seen))
      | inr new ↦ elim (List-cases (following current.id agent.edges)) [
        | inl last ↦ ([], ground (arith, h, new, last), last)
        | inr (inr (a, b, rest, many)) ↦ absurd (ground (arith, h, new, many))
        | inr (inl (id, one)) ↦ elim (Option-cases (node_by_id id agent.nodes)) [
          | inl missing ↦ absurd (ground (arith, h, new, one, missing))
          | inr (next, found) ↦ elim (Result-cases (walk fuel agent (current.id ∷ visited) next)) [
            | inr (e, failed) ↦ absurd (ground (arith, h, new, one, found, failed))
            | inl (tail, walked) ↦
                let (rest, shape, chain) =
                  walk-IsWalk fuel agent (current.id ∷ visited) next tail walked in
                (
                  next ∷ rest,
                  ground (arith, h, new, one, found, walked, shape),
                  (one ∙ ap (λ x. x ∷ []) (node_by_id-id id agent.nodes found), chain),
                )
          ]
        ]
      ]
    ]

known_node-kept :
    (p : Node → Bool) (ns : List Node) (n : Node) (rest : List Node)
    → keep p ns ≡ n ∷ rest
    → known_node ns n.id ≡ true
known_node-kept p [] n rest h = ground (arith, h)
known_node-kept p (x ∷ ns) n rest h = elim (Bool-cases (p x)) [
  | inl chosen ↦
      let same : x ≡ n = ground (arith, h, chosen) in
      rw (ap (λ (m : Node). str_eq n.id m.id) same, str_eq_refl) refl
  | inr passed ↦
      let later = known_node-kept p ns n rest (ground (arith, h, passed)) in ground (arith, later)
]

finish_path-fuel :
    (agent : AgentSpec) (r : Result KernelError (List Node))
    → r ≢ err out_of_fuel
    → finish_path agent r ≢ err out_of_fuel
unfolding execution_path
finish_path-fuel agent (err e) h = h
finish_path-fuel agent (ok path) h = λ k. ground (arith, k)

-- The search for the execution path of a graph always comes to an end: one turn of the loop for
-- each node, and one more, is enough.
pub execution_path-fuel : (agent : AgentSpec) → execution_path agent ≢ err out_of_fuel
unfolding execution_path
execution_path-fuel agent =
    elim (Bool-cases (all (λ e. known_node agent.nodes e.source) agent.edges)) [
      | inr unknown ↦ λ h. ground (arith, h, unknown)
      | inl known ↦ elim (List-cases (keep (has_kind "input") agent.nodes)) [
        | inl missing ↦ λ h. ground (arith, h, known, missing)
        | inr (inr (a, b, rest, many)) ↦ λ h. ground (arith, h, known, many)
        | inr (inl (start, one)) ↦
            let walked =
              walk-fuel (suc (length agent.nodes)) agent [] start
                (known_node-kept (has_kind "input") agent.nodes start [] one)
                (rw (unseen-length) (omega arith)) in
            rw (known, one) (finish_path-fuel agent _ walked)
      ]
    ]

-- A path of four nodes of the kinds input, model, tool and output, as many as the graph has, each
-- joined to the next by the only edge that leaves it.
abbrev pub IsPath : AgentSpec → List Node → Type 0
IsPath agent path = IsWalk agent path × (supported path ≡ true) × (length path ≡ length agent.nodes)

finish_path-checks :
    (agent : AgentSpec) (found path : List Node)
    → finish_path agent (ok found) ≡ ok path
    → (found ≡ path) × (supported found ≡ true) × (length found ≡ length agent.nodes)
unfolding execution_path
finish_path-checks agent found path h = elim (Bool-cases (supported found)) [
  | inr no_kinds ↦ absurd (ground (arith, h, no_kinds))
  | inl kinds ↦ elim (Bool-cases (length found == length agent.nodes)) [
    | inr shorter ↦ absurd (ground (arith, h, kinds, shorter))
    | inl whole ↦ (ground (arith, h, kinds, whole), kinds, ground (arith, whole))
  ]
]

finish_path-IsPath :
    (agent : AgentSpec) (fuel : ℕ) (start : Node) (path : List Node)
    → finish_path agent (walk fuel agent [] start) ≡ ok path
    → IsPath agent path
unfolding execution_path
finish_path-IsPath agent fuel start path h = elim (Result-cases (walk fuel agent [] start)) [
  | inr (e, failed) ↦ absurd (ground (arith, h, failed))
  | inl (found, walked) ↦
      let (rest, shape, chain) = walk-IsWalk fuel agent [] start found walked in
      let (same, kinds, whole) =
        finish_path-checks agent found path (sym (ap (finish_path agent) walked) ∙ h) in
      subst (IsPath agent) same (subst (IsWalk agent) (sym shape) chain, kinds, whole)
]

-- What the search returns is a path of four nodes of the kinds input, model, tool and output, as
-- many as the graph has; from each of them the only edge leads to the next, and none from the last.
pub execution_path-IsPath :
    (agent : AgentSpec) (path : List Node) → execution_path agent ≡ ok path → IsPath agent path
unfolding execution_path
execution_path-IsPath agent path h =
    elim (Bool-cases (all (λ e. known_node agent.nodes e.source) agent.edges)) [
      | inr unknown ↦ absurd (ground (arith, h, unknown))
      | inl known ↦ elim (List-cases (keep (has_kind "input") agent.nodes)) [
        | inl missing ↦ absurd (ground (arith, h, known, missing))
        | inr (inr (a, b, rest, many)) ↦ absurd (ground (arith, h, known, many))
        | inr (inl (start, one)) ↦
            finish_path-IsPath agent (suc (length agent.nodes)) start path (rw (known, one) at h)
      ]
    ]
