-- ===== src/Automation/Schema.antt =====
-- modules/automation/graph-schema.js: the nodes and edges of a graph are checked and put in order.
use crmtsi_app.Common.{
  ℕ, String, Bool, true, not, ◌&&◌, ◌||◌, Option, none, some, List, [], ◌∷◌, map, Result, ok, err,
  ◌>>◌, ◌>>=◌, require, str_eq, has, if◌then◌else◌, leb, ◌==◌, length, every, codes, is_digit,
  Object,
}

-- A node as it comes: an absent id or type is the empty text.
pub record Node : Type 0 where
  pub id : String
  pub kind : String
  pub config : Object

pub record Edge : Type 0 where
  pub from : String
  pub to : String
  pub port : String

-- Absent lists are `none`, and so are nodes and edges that are not objects.
pub record RawGraph : Type 0 where
  pub nodes : Option (List (Option Node))
  pub edges : Option (List (Option Edge))

pub record Graph : Type 0 where
  pub nodes : List Node
  pub edges : List Edge

abbrev graph_node_types : List String
graph_node_types =
    "trigger.conversation_opened" ∷ "trigger.message_received" ∷ "trigger.sla_breached"
    ∷ "trigger.schedule_elapsed" ∷ "action.assign_queue" ∷ "action.assign_user" ∷ "action.add_tag"
    ∷ "action.send_template" ∷ "action.create_task" ∷ "action.handoff" ∷ []

-- `^[A-Za-z0-9_-]{1,128}$`
abbrev is_id_code : ℕ → Bool
is_id_code c =
    (leb b'A' c && leb c b'Z') || (leb b'a' c && leb c b'z') || is_digit c || c == b'_' || c == b'-'

unfoldable pub is_id : String → Bool
is_id s = every is_id_code (codes s) && leb 1 (length (codes s)) && leb (length (codes s)) 128

unfoldable pub normalize_node : Option Node → Result Node
unfolding is_id
normalize_node none = err "GRAPH_NODE_ID_INVALID"
normalize_node (some n) = do
  require (is_id n.id) "GRAPH_NODE_ID_INVALID"
  require (has graph_node_types n.kind) "GRAPH_NODE_TYPE_UNSUPPORTED"
  ok n

abbrev or_next : String → String
or_next port = if str_eq port "" then "next" else port

unfoldable pub normalize_edge : Option Edge → Result Edge
unfolding is_id
normalize_edge none = err "GRAPH_EDGE_INVALID"
normalize_edge (some e) = do
  require (is_id e.from && is_id e.to) "GRAPH_EDGE_INVALID"
  ok (record e { port = or_next e.port })

-- `map` with a function that throws.
unfoldable pub map_all {ℓ κ} : {A : Type ℓ} {B : Type κ} → (A → Result B) → List A → Result (List B)
map_all f [] = ok []
map_all f (x ∷ xs) = do y ← f x; ys ← map_all f xs; ok (y ∷ ys)

-- A stable sort; `before` is the order of `localeCompare`, as a test for at most.
unfoldable pub insert {ℓ} : {A : Type ℓ} → (A → A → Bool) → A → List A → List A
insert before x [] = x ∷ []
insert before x (y ∷ ys) =
    let rest = insert before x ys in if before x y then x ∷ y ∷ ys else y ∷ rest

unfoldable pub sort {ℓ} : {A : Type ℓ} → (A → A → Bool) → List A → List A
unfolding insert
sort before [] = []
sort before (x ∷ xs) = insert before x (sort before xs)

abbrev pub ids_of : List Node → List String
ids_of nodes = map (λ n. n.id) nodes

unfoldable pub distinct : List String → Bool
distinct [] = true
distinct (s ∷ ss) = not (has ss s) && distinct ss

-- `node_before` and `edge_before` compare by the id, and by origin, port and target.
module _ (node_before : Node → Node → Bool) (edge_before : Edge → Edge → Bool) where
  abbrev with_edges : List (Option Edge) → List Node → Result Graph
  with_edges edges nodes = do
    require (distinct (ids_of nodes)) "GRAPH_NODE_ID_DUPLICATE"
    normal ← map_all normalize_edge edges
    ok (record { nodes = nodes; edges = sort edge_before normal })

  unfoldable pub normalize_graph : RawGraph → Result Graph
  unfolding normalize_node normalize_edge map_all sort distinct
  normalize_graph g = elim g.nodes [
    | none ↦ err "GRAPH_NODES_INVALID"
    | some raw ↦ elim g.edges [
      | none ↦ err "GRAPH_EDGES_INVALID"
      | some edges ↦
          map_all normalize_node raw >>= (λ nodes. with_edges edges (sort node_before nodes))
    ]
  ]
