-- ===== src/Tests/Invocations.antt =====
-- Invocations of the calculator for two nodes.
use universal_agent_studio.Prelude.{String, ◌≡◌, refl, none, some, ok, List, [], ◌∷◌}
use universal_agent_studio.Json.{int, pos, null}
use universal_agent_studio.Invocations.{
  Calculator, Identity, InvocationState, Request, find_invocation, invoke_calculator_once,
}
use universal_agent_studio.Invocations.Once.{Call, after, invoke_calculator_once-repeated}

abbrev node : String → Identity
node id = record {
  workspace_id = 1;
  project_id = 10;
  run_id = 70;
  node_id = id;
  invocation_key = "70:1";
}

abbrev question : Request
question = record { tool_id = "calculator"; arguments = null }

abbrev two : Calculator
two request = some (int (pos 2))

abbrev failing : Calculator
failing request = none

abbrev nothing : InvocationState
nothing = record { invocations = []; calls = [] }

abbrev between : List Call
between =
    record { calculate = failing; identity = node "first"; request = question }
    ∷ record { calculate = two; identity = node "second"; request = question }
    ∷ []

abbrev asked : InvocationState
asked = (invoke_calculator_once two (node "first") question nothing).1

answers : (invoke_calculator_once two (node "first") question nothing).0 ≡ ok (int (pos 2))
unfolding invoke_calculator_once find_invocation
answers = refl

invoke_calculator_once-repeated_example :
    invoke_calculator_once failing (node "first") question (after between asked)
    ≡ (ok (int (pos 2)), after between asked)
invoke_calculator_once-repeated_example =
    invoke_calculator_once-repeated two failing (node "first") question question between nothing
      (int (pos 2)) answers
