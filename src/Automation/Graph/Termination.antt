-- ===== src/Automation/Graph/Termination.antt =====
-- The walk of a graph ends.
use crmtsi_app.Common.{
  ℕ, zero, suc, ◌+◌, ◌≡◌, ◌≤◌, ◌<◌, refl, ap, sym, subst, ◌∙◌, String, Bool, true, false, Option,
  none, some, List, [], ◌∷◌, ◌++◌, str_eq, eq_iff, has, length, arith, Bool-cases, inl, inr, All,
  All-impl, All-map, All-keep, keep, ok, err,
}
use crmtsi_app.Automation.Schema.{Edge, Graph, ids_of, Node, RawGraph, normalize_graph}
use crmtsi_app.Automation.Graph.{
  Walk, walk, each, remove, enter, leave, outgoing, edge_error, and_then, walk_triggers,
  graph_errors, is_trigger, trigger_errors, edge_errors, Validation, validate_graph, answer_of,
  finish,
}
use crmtsi_app.Automation.Graph.Steps.{walk-cycle, walk_seen, walk-enter}

abbrev one_unless : Bool → ℕ
one_unless true = 0
one_unless false = 1

-- The ids that are not in the list of those being visited.
open_count : List String → List String → ℕ
open_count visiting [] = 0
open_count visiting (s ∷ ss) = one_unless (has visiting s) + open_count visiting ss

open_count_mono :
    (id : String) (visiting ids : List String)
    → open_count (id ∷ visiting) ids ≤ open_count visiting ids
unfolding open_count
open_count_mono id visiting [] = omega arith
open_count_mono id visiting (s ∷ ss) = ground (arith, open_count_mono id visiting ss)

open_count_less :
    (id : String) (visiting ids : List String)
    → has ids id ≡ true
    → has visiting id ≡ false
    → open_count (id ∷ visiting) ids < open_count visiting ids
unfolding open_count
open_count_less id visiting [] h k = cc
open_count_less id visiting (s ∷ ss) h k = elim (Bool-cases (str_eq s id)) [
  | inl e ↦
      let same : s ≡ id = (eq_iff s id).0 e in
      let here : has visiting s ≡ false = ap (has visiting) same ∙ k in
      let there : str_eq id s ≡ true = (eq_iff id s).1 (sym same) in
      rw (here, there) (omega (arith, open_count_mono id visiting ss))
  | inr e ↦ ground (arith, e, h, eq_iff id s, eq_iff s id, open_count_less id visiting ss)
]

open_count-length : (ids : List String) → open_count [] ids ≡ length ids
unfolding open_count
open_count-length [] = refl
open_count-length (s ∷ ss) = omega (arith, open_count-length ss)

remove_absent : (id : String) (ss : List String) → has ss id ≡ false → remove id ss ≡ ss
unfolding remove
remove_absent id [] h = refl
remove_absent id (s ∷ ss) h = ground (arith, h, remove_absent id ss)

remove_entered : (id : String) (ss : List String) → has ss id ≡ false → remove id (id ∷ ss) ≡ ss
unfolding remove
remove_entered id ss h = ground (arith, eq_iff id id, remove_absent id ss h)

-- A walk that ends leaves the list of those being visited as it was.
abbrev Ends : Walk → Option Walk → Type 0
Ends w none = ⊥
Ends w (some v) = v.visiting ≡ w.visiting

abbrev AllIn : List String → List String → Type 0
AllIn ids targets = All (λ t. has ids t ≡ true) targets

Ends-after : (w v : Walk) (r : Option Walk) → v.visiting ≡ w.visiting → Ends v r → Ends w r
Ends-after w v none e h = h
Ends-after w v (some u) e h = h ∙ e

Ends-and_then :
    (w : Walk) (o : Option Walk) (g : Walk → Option Walk)
    → Ends w o
    → ((v : Walk) → v.visiting ≡ w.visiting → Ends v (g v))
    → Ends w (and_then o g)
Ends-and_then w none g h k = h
Ends-and_then w (some v) g h k = Ends-after w v (g v) h (k v h)

leaves :
    (id : String) (w : Walk) (o : Option Walk)
    → has w.visiting id ≡ false
    → Ends (enter id w) o
    → Ends w (and_then o (λ v. some (leave id v)))
leaves id w none k h = h
leaves id w (some v) k h = ap (remove id) h ∙ remove_entered id w.visiting k

module _ (ids : List String) (out : String → List String)
    (closed : (s : String) → AllIn ids (out s)) where
  each-Ends :
      (f : String → Walk → Option Walk) (visiting : List String)
      → ((t : String) (w : Walk) → has ids t ≡ true → w.visiting ≡ visiting → Ends w (f t w))
      → (ts : List String) → AllIn ids ts
      → (w : Walk) → w.visiting ≡ visiting
      → Ends w (each f ts w)
  unfolding each
  each-Ends f visiting ends [] a w e = refl
  each-Ends f visiting ends (t ∷ ts) a w e =
      Ends-and_then w (f t w) (each f ts) (ends t w a.0 e)
        (λ v h. each-Ends f visiting ends ts a.1 v (h ∙ e))

  walk-Ends :
      (n : ℕ) (id : String) (w : Walk)
      → has ids id ≡ true
      → open_count w.visiting ids < n
      → Ends w (walk n out id w)
  unfolding walk
  walk-Ends zero id w m less = absurd (omega (arith, less))
  walk-Ends (suc n) id w m less = elim (Bool-cases (has w.visiting id)) [
    | inl e ↦ subst (Ends w) (sym (walk-cycle n out id w e)) refl
    | inr e ↦ elim (Bool-cases (has w.visited id)) [
      | inl f ↦ subst (Ends w) (sym (walk_seen n out id w e f)) refl
      | inr f ↦
          let fewer = open_count_less id w.visiting ids m e in
          let inner =
            each-Ends (walk n out) (id ∷ w.visiting)
              (λ t v k same.
                walk-Ends n t v k
                  (subst (λ x. open_count x ids < n) (sym same) (omega (arith, fewer, less))))
              (out id) (closed id) (enter id w) refl in
          subst (Ends w) (sym (walk-enter n out id w e f))
            (leaves id w (each (walk n out) (out id) (enter id w)) e inner)
    ]
  ]

outgoing_closed :
    (ids : List String) (edges : List Edge) (s : String) → AllIn ids (outgoing ids edges s)
unfolding outgoing edge_error
outgoing_closed ids [] s = tt
outgoing_closed ids (e ∷ es) s = ground (arith, outgoing_closed ids es s)

in_cons : (s t : String) (ss : List String) → has ss t ≡ true → has (s ∷ ss) t ≡ true
in_cons s t ss h = ground (arith, h)

nodes_in : (nodes : List Node) → All (λ n. has (ids_of nodes) n.id ≡ true) nodes
nodes_in [] = tt
nodes_in (n ∷ nodes) = (
  ground (arith, eq_iff n.id n.id),
  All-impl (λ m. has (ids_of nodes) m.id ≡ true) (λ m. has (ids_of (n ∷ nodes)) m.id ≡ true)
      (λ m h. in_cons n.id m.id (ids_of nodes) h) nodes (nodes_in nodes),
)

triggers_in : (nodes : List Node) → AllIn (ids_of nodes) (ids_of (keep is_trigger nodes))
triggers_in nodes =
    All-map (λ t. has (ids_of nodes) t ≡ true) (λ n. n.id) (keep is_trigger nodes)
      (All-keep (λ n. has (ids_of nodes) n.id ≡ true) is_trigger nodes (nodes_in nodes))

ended : (w : Walk) (o : Option Walk) → Ends w o → (v : Walk) × (o ≡ some v)
ended w none h = absurd h
ended w (some v) h = (v, refl)

walk_triggers_end : (g : Graph) → (w : Walk) × (walk_triggers g ≡ some w)
unfolding walk_triggers
walk_triggers_end g =
    let ids = ids_of g.nodes in
    let out = outgoing ids g.edges in
    let start : Walk = record {
      visiting = [];
      visited = [];
      errors = trigger_errors (keep is_trigger g.nodes) ++ edge_errors ids g.edges;
    } in
    let ends =
      each-Ends ids out (outgoing_closed ids g.edges) (walk (suc (length ids)) out) []
        (λ t w m e. walk-Ends ids out (outgoing_closed ids g.edges) (suc (length ids)) t w m (
          subst (λ x. open_count x ids < suc (length ids)) (sym e)
            (omega (arith, open_count-length ids))))
        (ids_of (keep is_trigger g.nodes)) (triggers_in g.nodes) start refl in
    ended start (walk_triggers g) ends

-- The validation of every graph answers: the walks end within as many nested calls as there are nodes
-- and one.
pub validate_graph_ends :
    (node_before : Node → Node → Bool) (edge_before : Edge → Edge → Bool) (tenant_id : String)
    (queues : List (String × String)) (raw : RawGraph)
    → (v : Validation) × (validate_graph node_before edge_before tenant_id queues raw ≡ some v)
unfolding validate_graph answer_of graph_errors
validate_graph_ends node_before edge_before tenant_id queues raw =
    elim (normalize_graph node_before edge_before raw)
      as (λ r. (v : Validation) × (answer_of tenant_id queues r ≡ some v)) [
        | err code ↦ (record { graph = none; errors = code ∷ [] }, refl)
        | ok g ↦
            let (w, e) = walk_triggers_end g in
            (record { graph = some g; errors = finish tenant_id queues g w }, ground (arith, e))
      ]
