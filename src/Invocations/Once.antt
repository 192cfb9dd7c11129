-- ===== src/Invocations/Once.antt =====
-- Invocations that are repeated, with any others in between.
use universal_agent_studio.Prelude.{
  ◌≡◌, refl, ap, eq_iff, true, Bool-cases, Option-cases, none, some, List, [], ◌∷◌, ok, inl, inr,
  find, find_sound, find-update, arith, ==_refl, str_eq_refl,
}
use universal_agent_studio.Json.{Json}
use universal_agent_studio.Invocations.{
  Calculator, Identity, InvocationState, Request, ToolInvocation, complete, completed_row,
  find_invocation, identified, invoke_calculator_once, result_of,
}

-- One invocation of a sequence.
pub record Call : Type 0 where
  pub calculate : Calculator
  pub identity : Identity
  pub request : Request

abbrev pub after : List Call → InvocationState → InvocationState
after [] s = s
after (c ∷ cs) s = (invoke_calculator_once c.calculate c.identity c.request (after cs s)).1

-- A row is identified in one way.
identified_unique :
    (i j : Identity) (row : ToolInvocation)
    → identified i row ≡ true
    → identified j row ≡ true
    → i ≡ j
identified_unique i j row h k = ground (
  arith,
  eq_iff i.node_id row.node_id,
  eq_iff j.node_id row.node_id,
  eq_iff i.invocation_key row.logical_invocation_key,
  eq_iff j.invocation_key row.logical_invocation_key,
)

identified_self : (i : Identity) (result : Json) → identified i (completed_row i result) ≡ true
identified_self i result =
    ground (arith, ==_refl i.workspace_id, str_eq_refl i.node_id, str_eq_refl i.invocation_key)

abbrev IsKnown : Identity → Json → InvocationState → Type 0
IsKnown i result s = result_of (find_invocation i s) ≡ some result

module _ (calculate : Calculator) (i : Identity) (request : Request) (s : InvocationState)
    (result : Json) where
  invoke-IsKnown :
      (invoke_calculator_once calculate i request s).0 ≡ ok result
      → IsKnown i result (invoke_calculator_once calculate i request s).1
  unfolding invoke_calculator_once find_invocation
  invoke-IsKnown done = elim (Option-cases (find (identified i) s.invocations)) [
    | inl new ↦ elim (Option-cases (calculate request)) [
      | inl failed ↦ absurd (ground (arith, new, failed, done))
      | inr (r, made) ↦ ground (arith, new, made, done, identified_self i r)
    ]
    | inr (row, old) ↦ elim (Option-cases row.result_document) [
      | inr (r, there) ↦ ground (arith, old, there, done)
      | inl missing ↦ elim (Option-cases (calculate request)) [
        | inl failed ↦ absurd (ground (arith, old, missing, failed, done))
        | inr (r, made) ↦ ground (
          arith,
          old,
          missing,
          made,
          done,
          find_sound (identified i) s.invocations old,
          find-update (identified i) (identified i) (complete r) (λ x. refl) s.invocations,
        )
      ]
    ]
  ]

  invoke_known : IsKnown i result s → invoke_calculator_once calculate i request s ≡ (ok result, s)
  unfolding invoke_calculator_once
  invoke_known known = rw (known) refl

module _ (calculate : Calculator) (i j : Identity) (request : Request) (s : InvocationState)
    (result : Json) (row : ToolInvocation) (found : find (identified i) s.invocations ≡ some row)
    (there : row.result_document ≡ some result) where
  other_new :
      find (identified j) s.invocations ≡ none
      → IsKnown i result (invoke_calculator_once calculate j request s).1
  unfolding invoke_calculator_once find_invocation
  other_new new = elim (Option-cases (calculate request)) [
    | inl failed ↦ ground (arith, new, failed, found, there)
    | inr (r, made) ↦ elim (Bool-cases (identified i (completed_row j r))) [
      | inr different ↦ ground (arith, new, made, found, there, different)
      | inl same ↦
          let is : i ≡ j = identified_unique i j (completed_row j r) same (identified_self j r) in
          absurd (
            ground (arith, ap (λ (k : Identity). find (identified k) s.invocations) is, new, found))
    ]
  ]

  other_old :
      (old : ToolInvocation)
      → find (identified j) s.invocations ≡ some old
      → IsKnown i result (invoke_calculator_once calculate j request s).1
  unfolding invoke_calculator_once find_invocation
  other_old old known = elim (Option-cases old.result_document) [
    | inr (r, kept) ↦ ground (arith, known, kept, found, there)
    | inl missing ↦ elim (Option-cases (calculate request)) [
      | inl failed ↦ ground (arith, known, missing, failed, found, there)
      | inr (r, made) ↦ elim (Bool-cases (identified j row)) [
        | inr different ↦ ground (
          arith,
          known,
          missing,
          made,
          found,
          there,
          different,
          find-update (identified i) (identified j) (complete r) (λ x. refl) s.invocations,
        )
        | inl same ↦
            let is : i ≡ j =
              identified_unique i j row (find_sound (identified i) s.invocations found) same in
            absurd (
              ground (
                arith,
                ap (λ (k : Identity). find (identified k) s.invocations) is,
                known,
                found,
                missing,
                there,
              ))
      ]
    ]
  ]

-- No invocation forgets a result that is known.
other-IsKnown :
    (c : Call) (i : Identity) (s : InvocationState) (result : Json)
    → IsKnown i result s
    → IsKnown i result (invoke_calculator_once c.calculate c.identity c.request s).1
unfolding find_invocation
other-IsKnown c i s result h = elim (Option-cases (find (identified i) s.invocations)) [
  | inl missing ↦ absurd (ground (arith, missing, h))
  | inr (row, found) ↦
      let there : row.result_document ≡ some result = ground (arith, found, h) in
      elim (Option-cases (find (identified c.identity) s.invocations)) [
        | inl new ↦ other_new c.calculate i c.identity c.request s result row found there new
        | inr (old, known) ↦
            other_old c.calculate i c.identity c.request s result row found there old known
      ]
]

after-IsKnown :
    (calls : List Call) (i : Identity) (s : InvocationState) (result : Json)
    → IsKnown i result s
    → IsKnown i result (after calls s)
after-IsKnown [] i s result h = h
after-IsKnown (c ∷ cs) i s result h =
    other-IsKnown c i (after cs s) result (after-IsKnown cs i s result h)

-- Once the calculator has answered for a node of a run, every invocation for it is answered by the
-- same result and changes nothing: the calculator is not asked again, whatever other invocations
-- there are in between, of whatever runs, and whether or not they fail.
pub invoke_calculator_once-repeated :
    (calculate later : Calculator) (i : Identity) (request again : Request) (calls : List Call)
    (s : InvocationState) (result : Json)
    → (invoke_calculator_once calculate i request s).0 ≡ ok result
    → invoke_calculator_once later i again
        (after calls (invoke_calculator_once calculate i request s).1)
      ≡ (ok result, after calls (invoke_calculator_once calculate i request s).1)
invoke_calculator_once-repeated calculate later i request again calls s result done =
    invoke_known later i again _ result
      (after-IsKnown calls i _ result (invoke-IsKnown calculate i request s result done))
