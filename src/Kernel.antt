-- ===== src/Kernel.antt =====
-- libs/python/agent_kernel/src/universal_agent_kernel: execution/events.py, execution/graph.py and
-- the validation of traces in contracts/validation.py. The ports are a record of functions; every
-- call of the clock is a tick of the state. Durations, metrics and the resolutions of the
-- provenance are left out of traces.
pub mod Recorder
pub mod Graph
pub mod Execution
pub mod Walk
mod Appending
pub mod Events
pub mod Guards
use universal_agent_studio.Prelude.{
  ℕ, zero, suc, ◌+◌, ◌==◌, String, str_eq, str_mem, if◌then◌else◌, Bool, true, false, ◌&&◌, ◌||◌,
  not, Option, none, some, List, [], ◌∷◌, ◌++◌, map, length, any, all, find, keep, last?, Result,
  ok, err, Exec, pure, raise, lift, gets, modify, guard, require, ◌>>=◌, ◌>>◌,
}
use universal_agent_studio.Json.{Json, str, obj, field, end}

pub data KernelError : Type 0 where
  agent_spec_invalid run_input_invalid unsupported_graph_shape : KernelError
  model_profile_not_found model_requested_unconfigured_tool tool_manifest_not_found : KernelError
  tool_input_schema_validation_failed tool_output_schema_validation_failed : KernelError
  output_schema_validation_failed : KernelError
  key_error out_of_fuel : KernelError  -- a `KeyError` of Python; the end of the fuel below

-- The text `event:{sequence}:{type}:{node_id or ''}`, by its parts.
pub record EventName : Type 0 where
  pub sequence : ℕ
  pub type : String
  pub node_id : Option String

pub record RunEvent : Type 0 where
  pub event_id : ℕ
  pub run_id : ℕ
  pub sequence : ℕ
  pub type : String
  pub occurred_at : ℕ
  pub correlation_id : ℕ
  pub causation_id : ℕ
  pub node_id : Option String
  pub redaction_policy_id : String
  pub payload : Json

pub record Node : Type 0 where
  pub id : String
  pub kind : String
  pub model_profile_ref : String  -- of a model node
  pub tool_ref : String  -- of a tool node

pub record Edge : Type 0 where
  pub source : String
  pub target : String

pub record Tool : Type 0 where
  pub id : String
  pub input_schema : Json
  pub output_schema : Json

pub record Profile : Type 0 where
  pub id : String
  pub model : String  -- of the first route

pub record AgentSpec : Type 0 where
  pub nodes : List Node
  pub edges : List Edge
  pub model_profiles : List Profile
  pub tools : List Tool
  pub result_schema : Json

pub record ExecutionCommand : Type 0 where
  pub run_id : ℕ
  pub request_id : ℕ
  pub agent_version_id : String
  pub agent_spec : AgentSpec
  pub input : Json
  pub locale : String

pub record ModelRequest : Type 0 where
  pub profile_id : String
  pub model : String
  pub input : Json
  pub locale : String

pub record ToolRequest : Type 0 where
  pub tool_id : String
  pub arguments : Json

-- `ExecutionPorts`, with the libraries that the kernel calls: the schema validation and `uuid5`.
pub record Ports : Type 0 where
  pub uuid5 : ℕ → EventName → ℕ
  pub now : ℕ → ℕ
  pub redact : Json → Json
  pub policy_id : String
  pub complete : ModelRequest → ToolRequest
  pub invoke : String → Json → Json
  pub conforms : Json → Json → Bool  -- the schema, then the value
  pub spec_valid : AgentSpec → Bool
  pub input_valid : AgentSpec → Json → Bool

-- What the ports have seen: the events of the sink, the calls of tools, the ticks of the clock.
pub record Kernel : Type 0 where
  pub events : List RunEvent
  pub calls : List ToolRequest
  pub ticks : ℕ

abbrev pub KernelAction : Type 0 → Type 0
KernelAction A = Exec KernelError Kernel A

-- What `emit` is called with; without a time, it reads the clock.
pub record Emission : Type 0 where
  pub type : String
  pub payload : Json
  pub node_id : Option String
  pub occurred_at : ℕ

pub record RunTrace : Type 0 where
  pub run_id : ℕ
  pub request_id : ℕ
  pub status : String
  pub input : Json
  pub output : Json
  pub events : List RunEvent
  pub redaction_policy_id : String
