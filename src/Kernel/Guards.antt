-- ===== src/Kernel/Guards.antt =====
-- Which tools the kernel calls.
use universal_agent_studio.Prelude.{
  ◌≡◌, refl, ◌⊎◌, inl, inr, Bool-cases, Option-cases, str_eq, true, some, List, [], ◌∷◌, ok, arith,
}
use universal_agent_studio.Json.{Json}
use universal_agent_studio.Kernel.{
  Ports, ExecutionCommand, Node, Tool, ToolRequest, Kernel, Profile,
}
use universal_agent_studio.Kernel.Graph.{execution_path}
use universal_agent_studio.Kernel.Execution.{
  execute, conclude, run_tool, run_nodes, find_tool, find_profile, execute_path, idle,
}

calls-conclude :
    (ports : Ports) (command : ExecutionCommand) (tool_node output_node : Node) (tool : Tool)
    (output : Json) (s : Kernel)
    → (conclude ports command tool_node output_node tool output s).1.calls ≡ s.calls
unfolding conclude
calls-conclude ports command tool_node output_node tool output s = ground arith

-- A call of the configured tool with arguments that its schema accepts.
abbrev pub IsGuarded : Ports → ExecutionCommand → Node → ToolRequest → Type 0
IsGuarded ports command tool_node r =
    (str_eq r.tool_id tool_node.tool_ref ≡ true)
    × (tool : Tool) × (find_tool r.tool_id command.agent_spec.tools ≡ some tool)
    × (ports.conforms tool.input_schema r.arguments ≡ true)

run_tool-calls :
    (ports : Ports) (command : ExecutionCommand) (tool_node output_node : Node) (r : ToolRequest)
    (s : Kernel)
    → ((run_tool ports command tool_node output_node r s).1.calls ≡ s.calls)
      ⊎ (((run_tool ports command tool_node output_node r s).1.calls ≡ r ∷ s.calls)
          × IsGuarded ports command tool_node r)
unfolding run_tool
run_tool-calls ports command tool_node output_node r s =
    elim (Bool-cases (str_eq r.tool_id tool_node.tool_ref)) [
      | inr other ↦ inl (rw (other) refl)
      | inl configured ↦ elim (Option-cases (find_tool r.tool_id command.agent_spec.tools)) [
        | inl missing ↦ inl (rw (configured, missing) refl)
        | inr (tool, found) ↦ elim (Bool-cases (ports.conforms tool.input_schema r.arguments)) [
          | inr invalid ↦ inl (rw (configured, found, invalid) refl)
          | inl valid ↦ inr (
            rw (configured, found, valid)
                (calls-conclude ports command tool_node output_node tool
                  (ports.invoke r.tool_id r.arguments) _),
            (configured, tool, found, valid),
          )
        ]
      ]
    ]

run_nodes-calls :
    (ports : Ports) (command : ExecutionCommand) (model_node tool_node output_node : Node)
    (profile : Profile) (s : Kernel)
    → ((run_nodes ports command model_node tool_node output_node profile s).1.calls ≡ s.calls)
      ⊎ ((r : ToolRequest) × ((run_nodes ports command model_node tool_node output_node profile
              s).1.calls
            ≡ r ∷ s.calls)
          × IsGuarded ports command tool_node r)
unfolding run_nodes
run_nodes-calls ports command model_node tool_node output_node profile s =
    elim (run_tool-calls ports command tool_node output_node _ _) [
      | inl none_made ↦ inl none_made
      | inr made ↦ inr (_, made.0, made.1)
    ]

-- What an execution along a path may have called.
abbrev pub IsCalled : Ports → ExecutionCommand → List Node → List ToolRequest → Type 0
IsCalled ports command path calls =
    (calls ≡ [])
    ⊎ ((r : ToolRequest) × (calls ≡ r ∷ [])
        × (input_node : Node) × (model_node : Node) × (tool_node : Node) × (output_node : Node)
        × (path ≡ input_node ∷ model_node ∷ tool_node ∷ output_node ∷ [])
        × IsGuarded ports command tool_node r)

execute_path-IsCalled :
    (ports : Ports) (command : ExecutionCommand) (path : List Node)
    → IsCalled ports command path (execute_path ports command path idle).1.calls
unfolding execute
execute_path-IsCalled ports command [] = inl refl
execute_path-IsCalled ports command (a ∷ []) = inl refl
execute_path-IsCalled ports command (a ∷ b ∷ []) = inl refl
execute_path-IsCalled ports command (a ∷ b ∷ c ∷ []) = inl refl
execute_path-IsCalled ports command (a ∷ b ∷ c ∷ d ∷ e ∷ rest) = inl refl
execute_path-IsCalled ports command (a ∷ b ∷ c ∷ d ∷ []) =
    elim (Option-cases (find_profile b.model_profile_ref command.agent_spec.model_profiles)) [
      | inl missing ↦ inl (rw (missing) refl)
      | inr (profile, found) ↦ elim (run_nodes-calls ports command b c d profile idle) [
        | inl none_made ↦ inl (rw (found) none_made)
        | inr (r, made, guarded) ↦ inr (r, rw (found) made, a, b, c, d, refl, guarded)
      ]
    ]

-- An execution of a graph that has a path, whether it succeeds or raises, calls no tool, or only
-- one: the one that the tool node of the path names, with arguments that the schema of its manifest
-- accepts.
pub execute-IsCalled :
    (ports : Ports) (command : ExecutionCommand) (path : List Node)
    → execution_path command.agent_spec ≡ ok path
    → IsCalled ports command path (execute ports command idle).1.calls
unfolding execute
execute-IsCalled ports command path routed =
    elim (Bool-cases (ports.spec_valid command.agent_spec)) [
      | inr invalid ↦ inl (rw (invalid) refl)
      | inl valid ↦ elim (Bool-cases (ports.input_valid command.agent_spec command.input)) [
        | inr unfit ↦ inl (rw (valid, unfit) refl)
        | inl fit ↦ rw (valid, fit, routed) (execute_path-IsCalled ports command path)
      ]
    ]
