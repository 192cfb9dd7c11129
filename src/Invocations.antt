-- ===== src/Invocations.antt =====
-- workers/runtime/src/universal_agent_studio_runtime/activities/events.py:
-- `SqlRuntimePersistence.invoke_calculator_once` and IdempotentCalculatorGateway, over the table of
-- tool invocations. The calculator is a function that gives none where it raises; what it is asked
-- is a log. The advisory lock makes the method atomic. Where the calculator raises, nothing is
-- written yet that the transaction could roll back.
pub mod Once
use Prim.Native.String.{◌++◌}
use universal_agent_studio.Prelude.{
  ℕ, ◌==◌, String, str_eq, Bool, ◌&&◌, Option, none, some, List, [], ◌∷◌, find, update, Exec, pure,
  require, gets, modify, ◌>>=◌, ◌>>◌,
}
use universal_agent_studio.Json.{Json}
use universal_agent_studio.Catalog.{Tenant}

pub record ToolInvocation : Type 0 where
  pub workspace_id : ℕ
  pub project_id : ℕ
  pub run_id : ℕ
  pub node_id : String
  pub logical_invocation_key : String
  pub status : String
  pub result_document : Option Json

-- What the advisory lock and the query name.
pub record Identity : Type 0 where
  pub workspace_id : ℕ
  pub project_id : ℕ
  pub run_id : ℕ
  pub node_id : String
  pub invocation_key : String

pub record Request : Type 0 where
  pub tool_id : String
  pub arguments : Json

pub record InvocationState : Type 0 where
  pub invocations : List ToolInvocation
  pub calls : List Request

pub data InvocationError : Type 0 where
  tool_failed : InvocationError

abbrev pub Calculator : Type 0
Calculator = Request → Option Json

abbrev pub InvocationAction : Type 0 → Type 0
InvocationAction A = Exec InvocationError InvocationState A

abbrev pub identified : Identity → ToolInvocation → Bool
identified i row =
    i.workspace_id == row.workspace_id
    && (i.project_id == row.project_id
        && (i.run_id == row.run_id
            && (str_eq i.node_id row.node_id
                && str_eq i.invocation_key row.logical_invocation_key)))

unfoldable pub find_invocation : Identity → InvocationState → Option ToolInvocation
find_invocation i s = find (identified i) s.invocations

abbrev pub completed_row : Identity → Json → ToolInvocation
completed_row i result = record {
  workspace_id = i.workspace_id;
  project_id = i.project_id;
  run_id = i.run_id;
  node_id = i.node_id;
  logical_invocation_key = i.invocation_key;
  status = "completed";
  result_document = some result;
}

abbrev pub complete : Json → ToolInvocation → ToolInvocation
complete result row = record row { status = "completed"; result_document = some result }

-- `record = existing or ToolInvocation(…)`, and what is written to it.
abbrev pub stored :
    Identity → Json → Option ToolInvocation → List ToolInvocation → List ToolInvocation
stored i result none rows = completed_row i result ∷ rows
stored i result (some existing) rows = update (identified i) (complete result) rows

abbrev pub result_of : Option ToolInvocation → Option Json
result_of none = none
result_of (some row) = row.result_document

invoke_unless :
    Calculator → Identity → Request → Option ToolInvocation → Option Json → InvocationAction Json
invoke_unless calculate i request existing (some result) = pure result
invoke_unless calculate i request existing none = do
  modify (λ s. record s { calls = request ∷ s.calls })
  result ← require (calculate request) tool_failed
  modify (λ s. record s { invocations = stored i result existing s.invocations })
  pure result

-- `invoke_calculator_once`
unfoldable pub invoke_calculator_once : Calculator → Identity → Request → InvocationAction Json
unfolding invoke_unless
invoke_calculator_once calculate i request = do
  existing ← gets (find_invocation i)
  invoke_unless calculate i request existing (result_of existing)

-- `IdempotentCalculatorGateway.invoke`; `run_text` is `str(run_id)`.
unfoldable pub gateway_invoke :
    Calculator → Tenant → ℕ → String → String → Request → InvocationAction Json
gateway_invoke calculate t run_id run_text node_id request =
    invoke_calculator_once calculate
      (record {
        workspace_id = t.workspace_id;
        project_id = t.project_id;
        run_id = run_id;
        node_id = node_id;
        invocation_key = run_text ++ (":" ++ (node_id ++ ":1"));
      })
      request
