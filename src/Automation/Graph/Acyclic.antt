-- ===== src/Automation/Graph/Acyclic.antt =====
-- A valid graph has no cycle.
use crmtsi_app.Common.{
  suc, ◌≡◌, ◌≢◌, ◌<◌, refl, ap, sym, subst, ◌∙◌, String, Bool, true, Option, none, some, List, [],
  ◌∷◌, ◌++◌, str_eq, eq_iff, has, length, arith, Bool-cases, Option-cases, if_intro, inl, inr, In,
  here, there, keep, Result, ok, err,
}
use crmtsi_app.Automation.Schema.{Node, Edge, RawGraph, Graph, ids_of, normalize_graph}
use crmtsi_app.Automation.Graph.{
  Walk, Validation, walk, outgoing, edge_error, edge_errors, node_errors, is_trigger,
  trigger_errors, walk_triggers, graph_errors, finish, answer_of, validate_graph, unreachable,
  foreign, add_error, add_target,
}
use crmtsi_app.Automation.Graph.Order.{
  AllIn, Post, Ordered, place, target_lower, each-Post, walk-Post,
}

-- A path of at least one edge.
pub data Reaches (g : Graph) : String → String → Type 0 where
  edge : {e : Edge} → In e g.edges → Reaches g e.from e.to
  then_edge : {s : String} {e : Edge} → Reaches g s e.from → In e g.edges → Reaches g s e.to

no_errors : (xs ys : List String) → xs ++ ys ≡ [] → (xs ≡ []) × (ys ≡ [])
no_errors [] ys h = (refl, h)
no_errors (x ∷ xs) ys h = cc

later_errors : (o : Option String) (es : List String) → add_error o es ≡ [] → es ≡ []
later_errors none es h = h
later_errors (some e) es h = cc

later_target :
    (o : Option String) (x : Edge) (id : String) (ts : List String) {t : String}
    → In t ts
    → In t (add_target o x id ts)
later_target none x id ts {t} m =
    if_intro (λ l. In t l) (str_eq x.from id) (x.to ∷ ts) ts (λ _. there m) (λ _. m)
later_target (some error) x id ts m = m

first_target :
    (ids : List String) (es : List Edge) (e : Edge)
    → edge_error ids e ≡ none
    → In e.to (outgoing ids (e ∷ es) e.from)
unfolding outgoing
first_target ids es e h =
    let found : outgoing ids (e ∷ es) e.from ≡ e.to ∷ outgoing ids es e.from =
      ground (arith, h, eq_iff e.from e.from) in
    subst (λ l. In e.to l) (sym found) here

-- Without errors, an edge stands among the targets of its source, which is a node.
edge_kept :
    (ids : List String) (es : List Edge) {e : Edge}
    → edge_errors ids es ≡ []
    → In e es
    → In e.to (outgoing ids es e.from) × (has ids e.from ≡ true)
unfolding edge_errors outgoing edge_error
edge_kept ids [] h m = elim m [ ]
edge_kept ids (e ∷ es) h here = elim (Option-cases (edge_error ids e)) [
  | inl clean ↦ (first_target ids es e clean, ground (arith, clean))
  | inr (x, bad) ↦ ground (arith, h, bad)
]
edge_kept ids (x ∷ es) {e} h (there m) =
    let (kept, from) =
      edge_kept ids es {e = e} (later_errors (edge_error ids x) (edge_errors ids es) h) m in
    (later_target (edge_error ids x) x e.from (outgoing ids es e.from) kept, from)

nodes_visited :
    (tenant_id : String) (queues : List (String × String)) (visited : List String)
    (nodes : List Node)
    → node_errors tenant_id queues visited nodes ≡ []
    → (s : String) → has (ids_of nodes) s ≡ true
    → has visited s ≡ true
unfolding node_errors
nodes_visited tenant_id queues visited [] h s m = cc
nodes_visited tenant_id queues visited (n ∷ nodes) h s m =
    let rest = node_errors tenant_id queues visited nodes in
    let later = foreign tenant_id queues n ++ rest in
    elim (Bool-cases (has visited n.id)) [
      | inr e ↦ ground (arith, e, (no_errors (unreachable visited n) later h).0)
      | inl e ↦ elim (Bool-cases (str_eq n.id s)) [
        | inl f ↦ subst (λ x. has visited x ≡ true) ((eq_iff n.id s).0 f) e
        | inr f ↦
            nodes_visited tenant_id queues visited nodes
              (no_errors (foreign tenant_id queues n) rest
                (no_errors (unreachable visited n) later h).1).1
              s (ground (arith, m, f))
      ]
    ]

abbrev out_of : Graph → String → List String
out_of g = outgoing (ids_of g.nodes) g.edges

abbrev start : Graph → Walk
start g = record {
  visiting = [];
  visited = [];
  errors = trigger_errors (keep is_trigger g.nodes) ++ edge_errors (ids_of g.nodes) g.edges;
}

-- A graph whose errors are none is walked in an order of all its nodes.
walked :
    (g : Graph) (w : Walk)
    → walk_triggers g ≡ some w
    → w.errors ≡ []
    → Ordered (out_of g) w.visited × (edge_errors (ids_of g.nodes) g.edges ≡ [])
unfolding walk_triggers
walked g w e clean =
    let out = out_of g in
    let triggers = ids_of (keep is_trigger g.nodes) in
    let post = subst (Post out (λ v. AllIn v.visited triggers) (start g)) e (
      each-Post out (walk (suc (length (ids_of g.nodes))) out)
        (walk-Post out (suc (length (ids_of g.nodes)))) triggers (start g)) in
    let (before, ordered, grown, all) = post clean in
    (
      ordered tt,
      (no_errors (trigger_errors (keep is_trigger g.nodes)) (edge_errors (ids_of g.nodes) g.edges)
          before).1,
    )

graph_in : Graph → Option Validation → Graph
graph_in g none = g
graph_in g (some v) = elim v.graph [ none ↦ g | some k ↦ k ]

errors_in : Option Validation → List String
errors_in none = []
errors_in (some v) = v.errors

answered :
    (tenant_id : String) (queues : List (String × String)) (r : Result Graph) (g : Graph)
    → answer_of tenant_id queues r ≡ some (record { graph = some g; errors = [] })
    → (w : Walk) × (walk_triggers g ≡ some w) × (finish tenant_id queues g w ≡ [])
unfolding answer_of graph_errors graph_in errors_in
answered tenant_id queues (err code) g h = cc
answered tenant_id queues (ok k) g h = elim (Option-cases (walk_triggers k)) [
  | inl e ↦ ground (arith, h, e)
  | inr (w, e) ↦
      let whole : answer_of tenant_id queues (ok k)
          ≡ some (record { graph = some k; errors = finish tenant_id queues k w }) =
        ground (arith, e) in
      let graphs : k ≡ g = ap (graph_in g) (sym whole ∙ h) in
      let clean : finish tenant_id queues k w ≡ [] = ap errors_in (sym whole ∙ h) in
      subst (λ x. (v : Walk) × (walk_triggers x ≡ some v) × (finish tenant_id queues x v ≡ []))
        graphs (w, e, clean)
]

goes_down :
    (tenant_id : String) (queues : List (String × String)) (g : Graph) (w : Walk)
    → walk_triggers g ≡ some w
    → finish tenant_id queues g w ≡ []
    → {a b : String} → Reaches g a b
    → place (out_of g) w.visited b < place (out_of g) w.visited a
goes_down tenant_id queues g w e none_there {a} {b} r =
    let (clean, nodes_clean) =
      no_errors w.errors (node_errors tenant_id queues w.visited g.nodes) none_there in
    let (ordered, edges_clean) = walked g w e clean in
    let all = nodes_visited tenant_id queues w.visited g.nodes nodes_clean in
    let down : (d : Edge)
        → In d g.edges
        → place (out_of g) w.visited d.to < place (out_of g) w.visited d.from =
      λ d m.
        let (target, from) = edge_kept (ids_of g.nodes) g.edges {e = d} edges_clean m in
        (target_lower (out_of g) w.visited d.from d.to ordered (all d.from from) target).1 in
    along down r
  where
    along :
        ((d : Edge)
          → In d g.edges
          → place (out_of g) w.visited d.to < place (out_of g) w.visited d.from)
        → {s t : String} → Reaches g s t
        → place (out_of g) w.visited t < place (out_of g) w.visited s
    along down (edge {e = d} m) = down d m
    along down (then_edge {e = d} r m) = omega (arith, along down r, down d m)

-- In a graph that the validation answers without errors, no path of edges leads from a node back to it.
pub valid_acyclic :
    (node_before : Node → Node → Bool) (edge_before : Edge → Edge → Bool) (tenant_id : String)
    (queues : List (String × String)) (raw : RawGraph) (g : Graph)
    → validate_graph node_before edge_before tenant_id queues raw
      ≡ some (record { graph = some g; errors = [] })
    → (a b : String) → Reaches g a b
    → a ≢ b
unfolding validate_graph
valid_acyclic node_before edge_before tenant_id queues raw g h a b r same =
    let (w, e, clean) =
      answered tenant_id queues (normalize_graph node_before edge_before raw) g h in
    let down = goes_down tenant_id queues g w e clean r in
    omega
      (arith, subst (λ x. place (out_of g) w.visited b < place (out_of g) w.visited x) same down)
