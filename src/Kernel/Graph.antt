-- ===== src/Kernel/Graph.antt =====
-- `_execution_path` of kernel/execution/graph.py.
use universal_agent_studio.Prelude.{
  ℕ, zero, suc, ◌==◌, String, str_eq, str_mem, if◌then◌else◌, Bool, false, ◌&&◌, not, Option, none,
  some, List, [], ◌∷◌, map, length, any, all, keep, Result, ok, err,
}
use universal_agent_studio.Kernel.{
  KernelError, Node, Edge, AgentSpec, unsupported_graph_shape, key_error, out_of_fuel,
}

-- `by_id[id]`: of nodes with one identifier, the last stands in the dictionary.
unfoldable pub node_by_id : String → List Node → Option Node
node_by_id id [] = none
node_by_id id (n ∷ ns) = elim (node_by_id id ns) [
  | some later ↦ some later
  | none ↦ if str_eq id n.id then some n else none
]

-- `next_by_id[id]`
abbrev pub following : String → List Edge → List String
following id edges = map (λ e. e.target) (keep (λ e. str_eq id e.source) edges)

-- The loop of `_execution_path`, with the nodes visited, the newest first.
unfoldable pub walk : ℕ → AgentSpec → List String → Node → Result KernelError (List Node)
walk zero agent visited current = err out_of_fuel
walk (suc fuel) agent visited current =
    if str_mem current.id visited
    then err unsupported_graph_shape
    else elim (following current.id agent.edges) [
      | [] ↦ ok (current ∷ [])
      | id ∷ [] ↦ elim (node_by_id id agent.nodes) [
        | none ↦ err key_error
        | some next ↦ elim (walk fuel agent (current.id ∷ visited) next) [
          | ok path ↦ ok (current ∷ path)
          | err e ↦ err e
        ]
      ]
      | id ∷ other ∷ rest ↦ err unsupported_graph_shape
    ]

abbrev pub has_kind : String → Node → Bool
has_kind kind n = str_eq n.kind kind

abbrev pub supported : List Node → Bool
supported (a ∷ b ∷ c ∷ d ∷ []) =
    has_kind "input" a && (has_kind "model" b && (has_kind "tool" c && has_kind "output" d))
supported _ = false

abbrev pub known_node : List Node → String → Bool
known_node nodes id = any (λ n. str_eq id n.id) nodes

-- The check at the end; a path visits each of its nodes once.
pub finish_path : AgentSpec → Result KernelError (List Node) → Result KernelError (List Node)
finish_path agent (err e) = err e
finish_path agent (ok path) =
    if supported path && length path == length agent.nodes
    then ok path
    else err unsupported_graph_shape

-- `_execution_path`; each turn of the loop visits another node, so that the fuel is enough.
unfoldable pub execution_path : AgentSpec → Result KernelError (List Node)
unfolding walk finish_path
execution_path agent =
    if not (all (λ e. known_node agent.nodes e.source) agent.edges)
    then err key_error
    else elim (keep (has_kind "input") agent.nodes) [
      | start ∷ [] ↦ finish_path agent (walk (suc (length agent.nodes)) agent [] start)
      | _ ↦ err unsupported_graph_shape
    ]
