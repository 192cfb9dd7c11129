-- ===== src/Kernel/Execution.antt =====
-- `AgentKernel.execute` of kernel/execution/graph.py, cut where its steps are named.
use universal_agent_studio.Prelude.{
  ℕ, suc, String, str_eq, Option, none, some, List, [], ◌∷◌, find, pure, raise, lift, gets, modify,
  guard, require, ◌>>=◌, ◌>>◌,
}
use universal_agent_studio.Json.{Json, str, obj, field, end}
use universal_agent_studio.Kernel.{
  RunEvent, Node, Tool, Profile, ExecutionCommand, ToolRequest, Ports, Kernel, KernelAction,
  RunTrace, agent_spec_invalid, run_input_invalid, unsupported_graph_shape, model_profile_not_found,
  model_requested_unconfigured_tool, tool_manifest_not_found, tool_input_schema_validation_failed,
  tool_output_schema_validation_failed, output_schema_validation_failed,
}
use universal_agent_studio.Kernel.Recorder.{emit}
use universal_agent_studio.Kernel.Graph.{execution_path}

-- `recorder.emit(…)`: the sink gets the event too.
abbrev pub record_event :
    Ports → ExecutionCommand → String → Json → Option String → ℕ → KernelAction (Unit {0})
record_event ports command type payload node_id at = modify (λ s. record s {
  events =
      emit ports command
        (record { type = type; payload = payload; node_id = node_id; occurred_at = at }) s.events;
})

-- `ports.clock.now()`
abbrev pub tick : Ports → KernelAction ℕ
tick ports = do
  at ← gets (λ s. ports.now s.ticks)
  modify (λ s. record s { ticks = suc s.ticks })
  pure at

-- `recorder.emit(…)` without a time
abbrev pub record_now :
    Ports → ExecutionCommand → String → Json → Option String → KernelAction (Unit {0})
record_now ports command type payload node_id = do
  at ← tick ports
  record_event ports command type payload node_id at

-- `await ports.tool_gateway.invoke(…)`
abbrev pub call_tool : Ports → ToolRequest → KernelAction Json
call_tool ports request = do
  modify (λ s. record s { calls = request ∷ s.calls })
  pure (ports.invoke request.tool_id request.arguments)

abbrev pub find_tool : String → List Tool → Option Tool
find_tool id = find (λ t. str_eq id t.id)

abbrev pub find_profile : String → List Profile → Option Profile
find_profile id = find (λ p. str_eq id p.id)

abbrev pub trace_of : Ports → ExecutionCommand → Json → List RunEvent → RunTrace
trace_of ports command output events = record {
  run_id = command.run_id;
  request_id = command.request_id;
  status = "completed";
  input = ports.redact command.input;
  output = ports.redact output;
  events = events;
  redaction_policy_id = ports.policy_id;
}

-- `execute`, from the output of the tool on.
unfoldable pub conclude :
    Ports → ExecutionCommand → Node → Node → Tool → Json → KernelAction RunTrace
conclude ports command tool_node output_node tool output = do
  guard (ports.conforms tool.output_schema output) tool_output_schema_validation_failed
  record_now ports command "tool.completed" output (some tool_node.id)
  guard (ports.conforms command.agent_spec.result_schema output) output_schema_validation_failed
  output_started_at ← tick ports
  record_event ports command "node.completed" output (some output_node.id) output_started_at
  record_now ports command "run.completed" (obj (field "status" (str "completed") end)) none
  gets (λ s. trace_of ports command output s.events)

-- `execute`, from the request that the model made on.
unfoldable pub run_tool :
    Ports → ExecutionCommand → Node → Node → ToolRequest → KernelAction RunTrace
run_tool ports command tool_node output_node request = do
  guard (str_eq request.tool_id tool_node.tool_ref) model_requested_unconfigured_tool
  tool ← require (find_tool request.tool_id command.agent_spec.tools) tool_manifest_not_found
  guard (ports.conforms tool.input_schema request.arguments) tool_input_schema_validation_failed
  tool_started_at ← tick ports
  record_event ports command "tool.requested" (obj (field "tool_id" (str request.tool_id) end))
      (some tool_node.id) tool_started_at
  output ← call_tool ports request
  conclude ports command tool_node output_node tool output

-- `execute`, from the first event on.
unfoldable pub run_nodes :
    Ports → ExecutionCommand → Node → Node → Node → Profile → KernelAction RunTrace
run_nodes ports command model_node tool_node output_node profile = do
  started_at ← tick ports
  record_event ports command "run.started"
      (obj (field "agent_version_id" (str command.agent_version_id) end)) none started_at
  input_completed_at ← tick ports
  model_started_at ← tick ports
  record_event ports command "node.started" (obj end) (some model_node.id) model_started_at
  record_now ports command "model.requested" (obj (field "profile_id" (str profile.id) end))
      (some model_node.id)
  let request = ports.complete (record {
    profile_id = profile.id;
    model = profile.model;
    input = command.input;
    locale = command.locale;
  })
  record_now ports command "model.completed" request.arguments (some model_node.id)
  model_completed_at ← tick ports
  run_tool ports command tool_node output_node request

pub execute_path : Ports → ExecutionCommand → List Node → KernelAction RunTrace
execute_path ports command (input_node ∷ model_node ∷ tool_node ∷ output_node ∷ []) = do
  profile ←
      require (find_profile model_node.model_profile_ref command.agent_spec.model_profiles)
        model_profile_not_found
  run_nodes ports command model_node tool_node output_node profile
execute_path ports command _ = raise unsupported_graph_shape

-- Before the first event.
abbrev pub idle : Kernel
idle = record { events = []; calls = []; ticks = 0 }

-- `AgentKernel.execute`; a gateway that raises is left out.
unfoldable pub execute : Ports → ExecutionCommand → KernelAction RunTrace
unfolding execute_path
execute ports command = do
  guard (ports.spec_valid command.agent_spec) agent_spec_invalid
  guard (ports.input_valid command.agent_spec command.input) run_input_invalid
  path ← lift (execution_path command.agent_spec)
  execute_path ports command path
