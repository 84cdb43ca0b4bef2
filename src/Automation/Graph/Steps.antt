-- ===== src/Automation/Graph/Steps.antt =====
-- The three ways of a call of the walk.
use crmtsi_app.Common.{ℕ, suc, ◌≡◌, String, true, false, arith, some, List, has}
use crmtsi_app.Automation.Graph.{Walk, walk, each, enter, leave, cycle, and_then}

module _ (n : ℕ) (out : String → List String) (id : String) (w : Walk) where
  pub walk-cycle : has w.visiting id ≡ true → walk (suc n) out id w ≡ some (cycle w)
  unfolding walk
  walk-cycle e = ground (arith, e)

  pub walk_seen :
      has w.visiting id ≡ false → has w.visited id ≡ true → walk (suc n) out id w ≡ some w
  unfolding walk
  walk_seen e f = ground (arith, e, f)

  pub walk-enter :
      has w.visiting id ≡ false
      → has w.visited id ≡ false
      → walk (suc n) out id w
        ≡ and_then (each (walk n out) (out id) (enter id w)) (λ v. some (leave id v))
  unfolding walk
  walk-enter e f = ground (arith, e, f)
