-- ===== src/Reconciler/Examples.antt =====
-- The theorems on the reconciler applied at a concrete input.
use pdf_search.Prelude.{◌≡◌, refl, none, some, List, [], ◌∷◌}
use pdf_search.Reconciler.{pos, AutoHealBudget, Observation, choose_repairs}
use pdf_search.Reconciler.Budget.{total}

abbrev budget : AutoHealBudget
budget = record { per_run = 3; per_day = 10; used_run = 0; used_day = 8 }

abbrev observations : List Observation
observations =
    record { condition = "repair_indexes"; count = some (pos 5); id = "o1" }
    ∷ record { condition = " activate_production "; count = none; id = "o2" }
    ∷ record { condition = "disk_full"; count = none; id = "o3" }
    ∷ []

spent_two : total (choose_repairs observations budget).0 ≡ 2
unfolding choose_repairs
spent_two = refl
