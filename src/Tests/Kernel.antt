-- ===== src/Tests/Kernel.antt =====
-- Witnesses for the theorems about the kernel: a graph with a calculator.
use universal_agent_studio.Prelude.{
  ◌*◌, ◌≡◌, ◌≢◌, refl, String, true, Result, ok, err, List, [], ◌∷◌, length,
}
use universal_agent_studio.Json.{null, str, int, pos, obj, field, end}
use universal_agent_studio.Kernel.{
  AgentSpec, ExecutionCommand, KernelError, Node, Ports, RunTrace, out_of_fuel,
}
use universal_agent_studio.Kernel.Recorder.{emit, validate_run_trace}
use universal_agent_studio.Kernel.Graph.{execution_path, node_by_id, walk}
use universal_agent_studio.Kernel.Execution.{idle, conclude, execute, run_nodes, run_tool}
use universal_agent_studio.Kernel.Walk.{IsPath, execution_path-fuel, execution_path-IsPath}
use universal_agent_studio.Kernel.Events.{execute-validate_run_trace}
use universal_agent_studio.Kernel.Guards.{IsCalled, execute-IsCalled}

program : Unit {0}
unfolding execute conclude run_tool run_nodes execution_path walk node_by_id emit
program = tt

abbrev node : String → String → Node
node id kind = record {
  id = id;
  kind = kind;
  model_profile_ref = "default";
  tool_ref = "calculator";
}

abbrev path : List Node
path = node "in" "input" ∷ node "think" "model" ∷ node "act" "tool" ∷ node "out" "output" ∷ []

abbrev agent : AgentSpec
agent = record {
  nodes = path;
  edges =
      record { source = "in"; target = "think" }
      ∷ record { source = "act"; target = "out" }
      ∷ record { source = "think"; target = "act" }
      ∷ [];
  model_profiles = record { id = "default"; model = "fake" } ∷ [];
  tools = record { id = "calculator"; input_schema = null; output_schema = null } ∷ [];
  result_schema = null;
}

abbrev command : ExecutionCommand
command = record {
  run_id = 70;
  request_id = 60;
  agent_version_id = "calculator-agent-v1";
  agent_spec = agent;
  input = obj (field "question" (str "1 + 1") end);
  locale = "en";
}

abbrev ports : Ports
ports = record {
  uuid5 = λ run name. name.sequence;
  now = λ n. 1000 * n;
  redact = λ v. v;
  policy_id = "default-redaction";
  complete = λ request. record { tool_id = "calculator"; arguments = request.input };
  invoke = λ id arguments. obj (field "value" (int (pos 2)) end);
  conforms = λ schema value. true;
  spec_valid = λ spec. true;
  input_valid = λ spec value. true;
}

routed : execution_path agent ≡ ok path
unfolding program
routed = refl

execution_path-fuel_example : execution_path agent ≢ err out_of_fuel
execution_path-fuel_example = execution_path-fuel agent

execution_path-IsPath_example : IsPath agent path
execution_path-IsPath_example = execution_path-IsPath agent path routed

execute-IsCalled_example : IsCalled ports command path (execute ports command idle).1.calls
execute-IsCalled_example = execute-IsCalled ports command path routed

abbrev nothing : RunTrace
nothing = record {
  run_id = 0;
  request_id = 0;
  status = "";
  input = null;
  output = null;
  events = [];
  redaction_policy_id = "";
}

abbrev returned : Result KernelError RunTrace → RunTrace
returned (ok trace) = trace
returned (err e) = nothing

succeeds : (execute ports command idle).0 ≡ ok (returned (execute ports command idle).0)
unfolding program
succeeds = refl

-- Eight events, and one call.
counted : length (returned (execute ports command idle).0).events ≡ 8
unfolding program
counted = refl

called : length (execute ports command idle).1.calls ≡ 1
unfolding program
called = refl

execute-validate_run_trace_example :
    validate_run_trace (returned (execute ports command idle).0) ≡ []
execute-validate_run_trace_example =
    execute-validate_run_trace ports command (λ m n same. same)
      (returned (execute ports command idle).0) succeeds
