-- ===== src/Reconciler.antt =====
-- flowdocs/dataops/reconciler.py: which repairs are queued, under a budget. The limits and counters of the
-- budget are natural numbers; a count that an observation gives is an integer.
mod Budget
mod Examples
use pdf_search.Prelude.{
  ℕ, ◌+◌, ◌-◌, min, String, nonempty, strip, contains, Option, none, some, List, [], ◌∷◌, ◌++◌,
  Bool, true, false, ◌==◌, if◌then◌else◌,
}

-- an integer: `n`, or `-(n + 1)`
pub data ℤ : Type 0 where
  pos negsuc : ℕ → ℤ

abbrev pub safe_actions : List String
safe_actions =
    "recover_orphan_jobs" ∷ "refresh_observation" ∷ "repair_indexes" ∷ "reindex_documents"
    ∷ "cleanup_temp_workspace" ∷ []

abbrev pub approval_actions : List String
approval_actions = "restore_candidate" ∷ "activate_staging" ∷ "activate_production" ∷ []

pub record AutoHealBudget : Type 0 where
  pub per_run : ℕ
  pub per_day : ℕ
  pub used_run : ℕ
  pub used_day : ℕ

-- a difference stops at 0 here, which is `max(0, …)`
unfoldable pub remaining : AutoHealBudget → ℕ
remaining b = min (b.per_run - b.used_run) (b.per_day - b.used_day)

-- the amount, and the budget with its counters raised
unfoldable pub take : AutoHealBudget → ℤ → ℕ × AutoHealBudget
unfolding remaining
take b (negsuc n) = (0, b)
take b (pos n) =
    let amount = min n (remaining b) in
    (amount, record b { used_run = b.used_run + amount; used_day = b.used_day + amount })

-- an observation; `count` is `none` where it is missing or `None`
pub record Observation : Type 0 where
  pub condition : String
  pub count : Option ℤ
  pub id : String

-- `RecoveryDecision`; its evidence is the id of the observation
pub record RecoveryDecision : Type 0 where
  pub action : String
  pub reason : String
  pub count : ℤ
  pub requires_approval : Bool
  observation_id : String

-- `int(observation.get("count", 1) or 1)`
unfoldable pub requested_count : Option ℤ → ℤ
requested_count none = pos 1
requested_count (some (negsuc n)) = negsuc n
requested_count (some (pos n)) = if n == 0 then pos 1 else pos n

abbrev decide : String → String → ℤ → Bool → Observation → RecoveryDecision
decide action reason count requires_approval o = record {
  action = action;
  reason = reason;
  count = count;
  requires_approval = requires_approval;
  observation_id = o.id;
}

-- the decision on a safe action of which the budget gives `count`; what is requested is never 0
abbrev safe_decision : String → Observation → ℕ → RecoveryDecision
safe_decision condition o count =
    if count == 0
    then decide condition "budget_exhausted" (pos 0) false o
    else decide condition "bounded_safe_repair" (pos count) false o

-- one round of the loop of `choose_repairs`
unfoldable pub choose_repair : Observation → AutoHealBudget → List RecoveryDecision × AutoHealBudget
unfolding take requested_count strip contains
choose_repair o budget =
    let condition = strip o.condition in
    let (count, after) = take budget (requested_count o.count) in
    if contains condition safe_actions
    then (safe_decision condition o count ∷ [], after)
    else if contains condition approval_actions
    then (
      decide condition "operator_approval_required" (requested_count o.count) true o ∷ [],
      budget,
    )
    else if nonempty condition
    then (decide condition "unknown_condition_stopped" (pos 0) false o ∷ [], budget)
    else ([], budget)

unfoldable pub choose_repairs :
    List Observation → AutoHealBudget → List RecoveryDecision × AutoHealBudget
unfolding choose_repair
choose_repairs [] budget = ([], budget)
choose_repairs (o ∷ rest) budget =
    let (decisions, after) = choose_repair o budget in
    let (more, last) = choose_repairs rest after in (decisions ++ more, last)
