-- ===== src/Automation/Graph/Order.antt =====
-- The visited nodes, the last first, are in an order that every edge goes down.
use crmtsi_app.Common.{
  ℕ, zero, suc, ◌≡◌, ◌<◌, sym, subst, String, true, false, Option, none, some, List, [], ◌∷◌, ◌++◌,
  eq_iff, has, length, arith, Bool-cases, inl, inr, All, In, In-All,
}
use crmtsi_app.Automation.Graph.{Walk, walk, each, enter, leave, and_then}
use crmtsi_app.Automation.Graph.Steps.{walk-cycle, walk_seen, walk-enter}

abbrev pub AllIn : List String → List String → Type 0
AllIn ids targets = All (λ t. has ids t ≡ true) targets

abbrev Grown : Walk → Walk → Type 0
Grown w v = (x : String) → has w.visited x ≡ true → has v.visited x ≡ true

module _ (out : String → List String) where
  -- The targets of each visited node were visited before it.
  abbrev pub Ordered : List String → Type 0
  Ordered [] = Unit
  Ordered (v ∷ vs) = AllIn vs (out v) × Ordered vs

  -- What a walk without errors leaves.
  abbrev pub Post : (Walk → Type 0) → Walk → Option Walk → Type 0
  Post Q w none = Unit
  Post Q w (some v) =
      v.errors ≡ [] → (w.errors ≡ []) × (Ordered w.visited → Ordered v.visited) × Grown w v × Q v

  abbrev Visits : String → Walk → Type 0
  Visits id v = has v.visited id ≡ true

  abbrev VisitsAll : List String → Walk → Type 0
  VisitsAll ts v = AllIn v.visited ts

  then-Post :
      (t : String) (ts : List String) (w : Walk) (o : Option Walk) (g : Walk → Option Walk)
      → Post (Visits t) w o
      → ((v : Walk) → Post (VisitsAll ts) v (g v))
      → Post (VisitsAll (t ∷ ts)) w (and_then o g)
  then-Post t ts w none g h k = tt
  then-Post t ts w (some v) g h k = joined (g v) (k v)
    where
      joined : (r : Option Walk) → Post (VisitsAll ts) v r → Post (VisitsAll (t ∷ ts)) w r
      joined none l = tt
      joined (some u) l = λ clean.
          let (v_clean, later, grown, all) = l clean in
          let (w_clean, first, before, here) = h v_clean in
          (w_clean, λ o. later (first o), λ x m. grown x (before x m), (grown t here, all))

  pub each-Post :
      (f : String → Walk → Option Walk)
      → ((t : String) (w : Walk) → Post (Visits t) w (f t w))
      → (ts : List String) (w : Walk) → Post (VisitsAll ts) w (each f ts w)
  unfolding each
  each-Post f k [] w = λ clean. (clean, λ o. o, λ x m. m, tt)
  each-Post f k (t ∷ ts) w = then-Post t ts w (f t w) (each f ts) (k t w) (each-Post f k ts)

  leave-Post :
      (id : String) (w : Walk) (o : Option Walk)
      → Post (VisitsAll (out id)) (enter id w) o
      → Post (Visits id) w (and_then o (λ v. some (leave id v)))
  leave-Post id w none h = tt
  leave-Post id w (some v) h = λ clean.
      let (w_clean, later, grown, all) = h clean in
      (w_clean, λ o. (all, later o), λ x m. ground (arith, grown x m), ground (arith, eq_iff id id))

  append_filled : (errors : List String) (e : String) → errors ++ e ∷ [] ≡ [] → ⊥
  append_filled [] e h = cc
  append_filled (x ∷ errors) e h = cc

  pub walk-Post : (n : ℕ) (id : String) (w : Walk) → Post (Visits id) w (walk n out id w)
  unfolding walk
  walk-Post zero id w = tt
  walk-Post (suc n) id w = elim (Bool-cases (has w.visiting id)) [
    | inl e ↦
        subst (Post (Visits id) w) (sym (walk-cycle n out id w e))
          (λ clean. absurd (append_filled w.errors "GRAPH_CYCLE" clean))
    | inr e ↦ elim (Bool-cases (has w.visited id)) [
      | inl f ↦
          subst (Post (Visits id) w) (sym (walk_seen n out id w e f))
            (λ clean. (clean, λ o. o, λ x m. m, f))
      | inr f ↦ subst (Post (Visits id) w) (sym (walk-enter n out id w e f)) (
          leave-Post id w (each (walk n out) (out id) (enter id w))
            (each-Post (walk n out) (walk-Post n) (out id) (enter id w)))
    ]
  ]

  -- The place of a node, counted from the end.
  pub place : List String → String → ℕ
  place [] s = 0
  place (v ∷ vs) s = elim (has vs s) [ true ↦ place vs s | false ↦ length vs ]

  place_later : (v s : String) (vs : List String) → has vs s ≡ true → place (v ∷ vs) s ≡ place vs s
  unfolding place
  place_later v s vs h = ground (arith, h)

  place_first : (v s : String) (vs : List String) → has vs s ≡ false → place (v ∷ vs) s ≡ length vs
  unfolding place
  place_first v s vs h = ground (arith, h)

  place_less : (s : String) (vs : List String) → has vs s ≡ true → place vs s < length vs
  place_less s [] h = cc
  place_less s (v ∷ vs) h = elim (Bool-cases (has vs s)) [
    | inl e ↦ omega (arith, place_later v s vs e, place_less s vs e)
    | inr e ↦ omega (arith, place_first v s vs e)
  ]

  pub target_lower :
      (vs : List String) (s t : String)
      → Ordered vs
      → has vs s ≡ true
      → In t (out s)
      → (has vs t ≡ true) × (place vs t < place vs s)
  target_lower [] s t o h m = cc
  target_lower (v ∷ vs) s t o h m = elim (Bool-cases (has vs s)) [
    | inl e ↦
        let (there, lower) = target_lower vs s t o.1 e m in
        (
          ground (arith, there),
          omega (arith, lower, place_later v t vs there, place_later v s vs e),
        )
    | inr e ↦
        let same : v ≡ s = (eq_iff v s).0 (ground (arith, h, e)) in
        let there : has vs t ≡ true =
          In-All (λ x. has vs x ≡ true) m (subst (λ x. AllIn vs (out x)) same o.0) in
        (
          ground (arith, there),
          omega (arith, place_less t vs there, place_later v t vs there, place_first v s vs e),
        )
  ]
