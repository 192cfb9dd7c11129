-- ===== src/Kernel/Events.antt =====
-- The events that the recorder emits, against `validate_run_trace`.
use universal_agent_studio.Prelude.{
  ℕ, suc, ◌==◌, ◌<◌, ==_refl, ◌≡◌, ◌≢◌, refl, sym, ap, ◌∙◌, inl, inr, Bool-cases, Option-cases,
  Result-cases, subst, str_eq, str_eq_refl, true, some, List, [], ◌∷◌, ◌++◌, length, length-append,
  all, All, All-append, All-map, last?, last?-snoc, Result, ok, err, arith,
}
use universal_agent_studio.Json.{Json}
use universal_agent_studio.Kernel.{
  Ports, ExecutionCommand, Emission, EventName, Node, Tool, RunEvent, RunTrace, Kernel, KernelError,
  Profile, ToolRequest,
}
use universal_agent_studio.Kernel.Recorder.{
  emit, event_id_or, new_event, numbered_from, distinct_ids, caused_from, validate_run_trace,
  first?,
}
use universal_agent_studio.Kernel.Graph.{execution_path}
use universal_agent_studio.Kernel.Execution.{
  find_profile, execute_path, idle, find_tool, trace_of, execute, conclude, run_tool, run_nodes,
}
use universal_agent_studio.Kernel.Appending.{
  numbered_from-snoc, caused_from-snoc, all-snoc, distinct_ids-snoc,
}

abbrev name_of : RunEvent → EventName
name_of e = record { sequence = e.sequence; type = e.type; node_id = e.node_id }

module _ (ports : Ports) (command : ExecutionCommand)
    (distinct : (m n : EventName)
      → ports.uuid5 command.run_id m ≡ ports.uuid5 command.run_id n
      → m.sequence ≡ n.sequence) where
  -- Every event is named by its place, and the places are 1 to the length.
  abbrev IsNamed : List RunEvent → Type 0
  IsNamed es =
      All
        (λ e.
          (e.event_id ≡ ports.uuid5 command.run_id (name_of e)) × (e.sequence < suc (length es)))
        es

  record IsSound (es : List RunEvent) : Type 0 where
    numbered : numbered_from 1 es ≡ true
    caused : caused_from command.request_id es ≡ true
    distinct_events : distinct_ids es ≡ true
    of_run : all (λ e. e.run_id == command.run_id) es ≡ true
    of_policy : all (λ e. str_eq e.redaction_policy_id ports.policy_id) es ≡ true
    named : IsNamed es

  later_name :
      (n : ℕ) (new : RunEvent)
      → new.event_id ≡ ports.uuid5 command.run_id (name_of new)
      → new.sequence ≡ suc n
      → (x : RunEvent)
      → (x.event_id ≡ ports.uuid5 command.run_id (name_of x)) × (x.sequence < suc n)
      → x.event_id ≢ new.event_id
  later_name n new named at x p same =
      let place : x.sequence ≡ new.sequence =
        distinct (name_of x) (name_of new) (sym p.0 ∙ same ∙ named) in
      omega arith

  emit-IsSound :
      (e : Emission) (es : List RunEvent) → IsSound es → IsSound (emit ports command e es)
  unfolding emit
  emit-IsSound e es h =
      let new = new_event ports command (length es) (event_id_or command.request_id (last? es)) e in
      let grown : length (es ++ new ∷ []) ≡ suc (length es) =
        length-append es (new ∷ []) ∙ omega arith in
      record {
        numbered = numbered_from-snoc 1 es new h.numbered (omega arith);
        caused = caused_from-snoc command.request_id es new h.caused refl;
        distinct_events =
            distinct_ids-snoc es new h.distinct_events
              (All-map _ _ (λ x p. later_name (length es) new refl refl x p) es h.named);
        of_run = all-snoc (λ e. e.run_id == command.run_id) es new ∙ rw (h.of_run, ==_refl) refl;
        of_policy =
            all-snoc (λ e. str_eq e.redaction_policy_id ports.policy_id) es new
            ∙ rw (h.of_policy, str_eq_refl) refl;
        named = rw (grown) (
            All-append _ es (new ∷ []) (All-map _ _ (λ x p. (p.0, omega arith)) es h.named)
              ((refl, omega arith), tt));
      }

  last?-emit :
      (e : Emission) (es : List RunEvent)
      → last? (emit ports command e es)
        ≡ some (new_event ports command (length es) (event_id_or command.request_id (last? es)) e)
  unfolding emit
  last?-emit e es = last?-snoc es _

  -- Emitted events of which the first starts the run.
  record IsBegun (es : List RunEvent) : Type 0 where
    sound : IsSound es
    first : RunEvent
    rest : List RunEvent
    shape : es ≡ first ∷ rest
    starts : str_eq first.type "run.started" ≡ true

  emit-IsBegun :
      (e : Emission) (es : List RunEvent) → IsBegun es → IsBegun (emit ports command e es)
  unfolding emit
  emit-IsBegun e es h = record {
    sound = emit-IsSound e es h.sound;
    first = h.first;
    rest =
        h.rest
        ++ new_event ports command (length es) (event_id_or command.request_id (last? es)) e ∷ [];
    shape =
        ap
          (λ xs.
            xs
            ++ new_event ports command (length es) (event_id_or command.request_id (last? es)) e
              ∷ [])
          h.shape;
    starts = h.starts;
  }

  completed_trace :
      (output : Json) (es : List RunEvent) (e : Emission)
      → IsBegun es
      → e.type ≡ "run.completed"
      → validate_run_trace (trace_of ports command output (emit ports command e es)) ≡ []
  unfolding validate_run_trace
  completed_trace output es e h completes =
      let done = emit-IsBegun e es h in
      let begins : first? (emit ports command e es) ≡ some done.first = rw (done.shape) refl in
      let ends : last? (emit ports command e es)
          ≡ some
              (new_event ports command (length es) (event_id_or command.request_id (last? es)) e) =
        last?-emit e es in
      rw
        (
          done.sound.numbered, done.sound.distinct_events, done.sound.of_run, begins, ends,
          done.starts, done.sound.caused, done.sound.of_policy, completes,
        )
        refl

  abbrev IsValidResult : Result KernelError RunTrace → Type 0
  IsValidResult (ok trace) = validate_run_trace trace ≡ []
  IsValidResult (err e) = Unit

  conclude-IsValidResult :
      (tool_node output_node : Node) (tool : Tool) (output : Json) (s : Kernel)
      → IsBegun s.events
      → IsValidResult (conclude ports command tool_node output_node tool output s).0
  unfolding conclude
  conclude-IsValidResult tool_node output_node tool output s h =
      elim (Bool-cases (ports.conforms tool.output_schema output)) [
        | inr invalid ↦ rw (invalid) tt
        | inl valid ↦ elim (Bool-cases (ports.conforms command.agent_spec.result_schema output)) [
          | inr unfit ↦ rw (valid, unfit) tt
          | inl fit ↦
              rw (valid, fit)
                (completed_trace output _ _ (emit-IsBegun _ _ (emit-IsBegun _ _ h)) refl)
        ]
      ]

  run_tool-IsValidResult :
      (tool_node output_node : Node) (r : ToolRequest) (s : Kernel)
      → IsBegun s.events
      → IsValidResult (run_tool ports command tool_node output_node r s).0
  unfolding run_tool
  run_tool-IsValidResult tool_node output_node r s h =
      elim (Bool-cases (str_eq r.tool_id tool_node.tool_ref)) [
        | inr other ↦ rw (other) tt
        | inl configured ↦ elim (Option-cases (find_tool r.tool_id command.agent_spec.tools)) [
          | inl missing ↦ rw (configured, missing) tt
          | inr (tool, found) ↦ elim (Bool-cases (ports.conforms tool.input_schema r.arguments)) [
            | inr invalid ↦ rw (configured, found, invalid) tt
            | inl valid ↦
                rw (configured, found, valid)
                  (conclude-IsValidResult tool_node output_node tool
                    (ports.invoke r.tool_id r.arguments) _ (emit-IsBegun _ _ h))
          ]
        ]
      ]

  first_event-IsBegun :
      (e : Emission) → str_eq e.type "run.started" ≡ true → IsBegun (emit ports command e [])
  unfolding emit numbered_from caused_from distinct_ids
  first_event-IsBegun e starts = record {
    sound = emit-IsSound e [] (record {
      numbered = refl;
      caused = refl;
      distinct_events = refl;
      of_run = refl;
      of_policy = refl;
      named = tt;
    });
    first = new_event ports command 0 command.request_id e;
    rest = [];
    shape = refl;
    starts = starts;
  }

  run_nodes-IsValidResult :
      (model_node tool_node output_node : Node) (profile : Profile) (s : Kernel)
      → s.events ≡ []
      → IsValidResult (run_nodes ports command model_node tool_node output_node profile s).0
  unfolding run_nodes
  run_nodes-IsValidResult model_node tool_node output_node profile s fresh =
      run_tool-IsValidResult tool_node output_node _ _ (
        emit-IsBegun _ _
          (emit-IsBegun _ _ (emit-IsBegun _ _ (rw (fresh) (first_event-IsBegun _ refl)))))

  execute_path-IsValidResult :
      (path : List Node) → IsValidResult (execute_path ports command path idle).0
  unfolding execute
  execute_path-IsValidResult [] = tt
  execute_path-IsValidResult (a ∷ []) = tt
  execute_path-IsValidResult (a ∷ b ∷ []) = tt
  execute_path-IsValidResult (a ∷ b ∷ c ∷ []) = tt
  execute_path-IsValidResult (a ∷ b ∷ c ∷ d ∷ e ∷ rest) = tt
  execute_path-IsValidResult (a ∷ b ∷ c ∷ d ∷ []) =
      elim (Option-cases (find_profile b.model_profile_ref command.agent_spec.model_profiles)) [
        | inl missing ↦ rw (missing) tt
        | inr (profile, found) ↦ rw (found) (run_nodes-IsValidResult b c d profile idle refl)
      ]

  execute-IsValidResult : IsValidResult (execute ports command idle).0
  unfolding execute
  execute-IsValidResult = elim (Bool-cases (ports.spec_valid command.agent_spec)) [
    | inr invalid ↦ rw (invalid) tt
    | inl valid ↦ elim (Bool-cases (ports.input_valid command.agent_spec command.input)) [
      | inr unfit ↦ rw (valid, unfit) tt
      | inl fit ↦ elim (Result-cases (execution_path command.agent_spec)) [
        | inl (path, routed) ↦ rw (valid, fit, routed) (execute_path-IsValidResult path)
        | inr (e, refused) ↦ rw (valid, fit, refused) tt
      ]
    ]
  ]

  -- The trace that an execution returns has no error that `validate_run_trace` looks for, where
  -- `uuid5` gives the names of a run with different numbers different identifiers.
  pub execute-validate_run_trace :
      (trace : RunTrace) → (execute ports command idle).0 ≡ ok trace → validate_run_trace trace ≡ []
  execute-validate_run_trace trace returned = subst IsValidResult returned execute-IsValidResult
