-- ===== src/Automation/Graph/Examples.antt =====
-- A graph of two steps, and one with a cycle.
use crmtsi_app.Common.{◌≡◌, ◌≢◌, refl, true, Bool, String, some, [], ◌∷◌, here, keep}
use crmtsi_app.Automation.Schema.{
  Node, Edge, RawGraph, Graph, normalize_graph, normalize_node, normalize_edge, map_all, sort,
  insert, distinct, is_id,
}
use crmtsi_app.Automation.Graph.{
  Validation, validate_graph, answer_of, graph_errors, walk_triggers, node_errors, edge_errors,
  edge_error, outgoing, walk, each, remove,
}
use crmtsi_app.Automation.Graph.Termination.{validate_graph_ends}
use crmtsi_app.Automation.Graph.Acyclic.{Reaches, edge, valid_acyclic}

abbrev as_given {ℓ} : {A : Type ℓ} → A → A → Bool
as_given x y = true

abbrev opened : Node
opened = record { id = "start"; kind = "trigger.conversation_opened"; config = [] }

abbrev tag : Node
tag = record { id = "tag"; kind = "action.add_tag"; config = [] }

abbrev to_tag : Edge
to_tag = record { from = "start"; to = "tag"; port = "" }

abbrev raw : RawGraph
raw = record { nodes = some (some opened ∷ some tag ∷ []); edges = some (some to_tag ∷ []) }

abbrev graph : Graph
graph = record { nodes = opened ∷ tag ∷ []; edges = record to_tag { port = "next" } ∷ [] }

abbrev circular : RawGraph
circular = record raw {
  edges = some (some to_tag ∷ some (record { from = "tag"; to = "start"; port = "next" }) ∷ []);
}

accepts-steps :
    validate_graph as_given as_given "acme" [] raw
    ≡ some (record { graph = some graph; errors = [] })
unfolding validate_graph answer_of graph_errors walk_triggers node_errors edge_errors edge_error
    outgoing walk each remove normalize_graph normalize_node normalize_edge map_all sort insert
    distinct is_id keep
accepts-steps = refl

finds-cycle :
    (v : Validation) × (validate_graph as_given as_given "acme" [] circular ≡ some v)
    × (v.errors ≡ "GRAPH_CYCLE" ∷ [])
unfolding validate_graph answer_of graph_errors walk_triggers node_errors edge_errors edge_error
    outgoing walk each remove normalize_graph normalize_node normalize_edge map_all sort insert
    distinct is_id keep
finds-cycle = (_, refl, refl)

validate_graph_ends_example :
    (v : Validation) × (validate_graph as_given as_given "acme" [] circular ≡ some v)
validate_graph_ends_example = validate_graph_ends as_given as_given "acme" [] circular

abbrev first : String
first = "start"

abbrev second : String
second = "tag"

first_edge : Reaches graph first second
first_edge = edge {e = record to_tag { port = "next" }} here

valid_acyclic_example : first ≢ second
valid_acyclic_example =
    valid_acyclic as_given as_given "acme" [] raw graph accepts-steps first second first_edge
