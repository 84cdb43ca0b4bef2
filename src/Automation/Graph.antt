-- ===== src/Automation/Graph.antt =====
-- modules/automation/graph-validator.js: the graph of an automation is walked from its trigger.
mod Examples
pub mod Steps
pub mod Termination
pub mod Order
pub mod Acyclic
use crmtsi_app.Common.{
  ℕ, zero, suc, String, Bool, true, false, not, ◌&&◌, ◌||◌, Option, none, some, List, [], ◌∷◌, ◌++◌,
  map, Result, ok, err, ◌>>◌, ◌>>=◌, require, str_eq, has, if◌then◌else◌, leb, ◌==◌, length, every,
  keep, codes, is_digit, Value, string, Object, field_of, is_truthy, Text, text_eq,
}
use crmtsi_app.Automation.Schema.{Node, Edge, RawGraph, Graph, ids_of, normalize_graph}

abbrev trigger_types : List String
trigger_types =
    "trigger.conversation_opened" ∷ "trigger.message_received" ∷ "trigger.sla_breached"
    ∷ "trigger.schedule_elapsed" ∷ []

abbrev pub is_trigger : Node → Bool
is_trigger n = has trigger_types n.kind

-- Every type has the one port `next`. The code of the error of an edge.
pub edge_error : List String → Edge → Option String
edge_error ids e =
    if not (has ids e.from)
    then some "GRAPH_EDGE_SOURCE_UNKNOWN"
    else if not (has ids e.to)
    then some "GRAPH_EDGE_TARGET_UNKNOWN"
    else if not (str_eq e.port "next")
    then some "GRAPH_PORT_INVALID"
    else none

abbrev pub add_error : Option String → List String → List String
add_error none errors = errors
add_error (some e) errors = e ∷ errors

pub edge_errors : List String → List Edge → List String
unfolding edge_error
edge_errors ids [] = []
edge_errors ids (e ∷ es) = add_error (edge_error ids e) (edge_errors ids es)

abbrev pub add_target : Option String → Edge → String → List String → List String
add_target none e id targets = if str_eq e.from id then e.to ∷ targets else targets
add_target (some error) e id targets = targets

-- `outgoing.get`: the targets of the edges of a node that have no error.
pub outgoing : List String → List Edge → String → List String
unfolding edge_error
outgoing ids [] id = []
outgoing ids (e ∷ es) id = add_target (edge_error ids e) e id (outgoing ids es id)

pub record Walk : Type 0 where
  pub visiting : List String
  pub visited : List String
  pub errors : List String

pub remove : String → List String → List String
remove s [] = []
remove s (t ∷ ts) = if str_eq t s then remove s ts else t ∷ remove s ts

abbrev enter : String → Walk → Walk
enter id w = record w { visiting = id ∷ w.visiting }

abbrev leave : String → Walk → Walk
leave id w = record w { visiting = remove id w.visiting; visited = id ∷ w.visited }

abbrev cycle : Walk → Walk
cycle w = record w { errors = w.errors ++ "GRAPH_CYCLE" ∷ [] }

abbrev pub and_then : Option Walk → (Walk → Option Walk) → Option Walk
and_then none f = none
and_then (some w) f = f w

pub each : (String → Walk → Option Walk) → List String → Walk → Option Walk
each f [] w = some w
each f (t ∷ ts) w = and_then (f t w) (each f ts)

-- `walk`, with the number of nested calls that are allowed; `none` when it is used up.
pub walk : ℕ → (String → List String) → String → Walk → Option Walk
unfolding each remove
walk zero out id w = none
walk (suc n) out id w = elim (has w.visiting id) [
  | true ↦ some (cycle w)
  | false ↦ elim (has w.visited id) [
    | true ↦ some w
    | false ↦ and_then (each (walk n out) (out id) (enter id w)) (λ v. some (leave id v))
  ]
]

-- The references are the queues with their tenants.
abbrev owner : List (String × String) → Text → Option String
owner [] t = none
owner ((queue, tenant_id) ∷ queues) t =
    if text_eq (codes queue) t then some tenant_id else owner queues t

abbrev reference : List (String × String) → Value → Option String
reference queues (string t) = owner queues t
reference queues _ = none

abbrev reference_errors : (tenant_id : String) → Option String → List String
reference_errors tenant_id none = []
reference_errors tenant_id (some t) =
    if str_eq t tenant_id then [] else "GRAPH_REFERENCE_TENANT_MISMATCH" ∷ []

abbrev pub unreachable : List String → Node → List String
unreachable visited n = if has visited n.id then [] else "GRAPH_NODE_UNREACHABLE" ∷ []

abbrev pub foreign : (tenant_id : String) → List (String × String) → Node → List String
foreign tenant_id queues n =
    if is_truthy (field_of n.config "queueId")
    then reference_errors tenant_id (reference queues (field_of n.config "queueId"))
    else []

pub node_errors :
    (tenant_id : String) → List (String × String) → List String → List Node → List String
node_errors tenant_id queues visited [] = []
node_errors tenant_id queues visited (n ∷ ns) =
    unreachable visited n ++ (foreign tenant_id queues n ++ node_errors tenant_id queues visited ns)

abbrev pub trigger_errors : List Node → List String
trigger_errors triggers = if length triggers == 1 then [] else "GRAPH_TRIGGER_COUNT_INVALID" ∷ []

-- The walks from all triggers, on as many nested calls as there are nodes and one.
pub walk_triggers : Graph → Option Walk
unfolding edge_errors outgoing walk each
walk_triggers g =
    let ids = ids_of g.nodes in
    let triggers = keep is_trigger g.nodes in
    each (walk (suc (length ids)) (outgoing ids g.edges)) (ids_of triggers) (record {
      visiting = [];
      visited = [];
      errors = trigger_errors triggers ++ edge_errors ids g.edges;
    })

abbrev pub finish : (tenant_id : String) → List (String × String) → Graph → Walk → List String
finish tenant_id queues g w = w.errors ++ node_errors tenant_id queues w.visited g.nodes

-- The errors of a normalized graph, which is valid if there are none.
pub graph_errors : (tenant_id : String) → List (String × String) → Graph → Option (List String)
unfolding walk_triggers node_errors
graph_errors tenant_id queues g = elim (walk_triggers g) [
  | none ↦ none
  | some w ↦ some (finish tenant_id queues g w)
]

pub record Validation : Type 0 where
  pub graph : Option Graph
  pub errors : List String

abbrev pub validated : Graph → Option (List String) → Option Validation
validated g none = none
validated g (some errors) = some (record { graph = some g; errors = errors })

pub answer_of : (tenant_id : String) → List (String × String) → Result Graph → Option Validation
unfolding graph_errors
answer_of tenant_id queues (err code) = some (record { graph = none; errors = code ∷ [] })
answer_of tenant_id queues (ok g) = validated g (graph_errors tenant_id queues g)

pub validate_graph :
    (node_before : Node → Node → Bool) (edge_before : Edge → Edge → Bool) (tenant_id : String)
    → List (String × String)
    → RawGraph
    → Option Validation
unfolding normalize_graph answer_of
validate_graph node_before edge_before tenant_id queues raw =
    answer_of tenant_id queues (normalize_graph node_before edge_before raw)
