-- ===== src/Reconciler/Budget.antt =====
-- What flowdocs/dataops/reconciler.py repairs by itself.
use pdf_search.Prelude.{
  ℕ, ◌+◌, ◌-◌, ◌≤◌, ◌≡◌, refl, ◌∙◌, String, nonempty, strip, contains, List, [], ◌∷◌, ◌++◌, true,
  false, ◌==◌, All, Bool-cases, inl, inr, arith, if◌then◌else◌,
}
use pdf_search.Reconciler.{
  ℤ, pos, negsuc, AutoHealBudget, remaining, take, requested_count, Observation, RecoveryDecision,
  safe_actions, approval_actions, safe_decision, choose_repair, choose_repairs,
}

-- how much a decision repairs without an approval
abbrev amount_of : RecoveryDecision → ℕ
amount_of d = if d.requires_approval then 0 else elim d.count [ pos n ↦ n | negsuc n ↦ 0 ]

abbrev pub total : List RecoveryDecision → ℕ
total [] = 0
total (d ∷ ds) = amount_of d + total ds

total-append : (ds es : List RecoveryDecision) → total (ds ++ es) ≡ total ds + total es
total-append [] es = omega arith
total-append (d ∷ ds) es = let rest = total-append ds es in omega arith

-- `budget` after `amount` was taken from it
record Spent (budget after : AutoHealBudget) (amount : ℕ) : Type 0 where
  run : after.used_run ≡ budget.used_run + amount
  day : after.used_day ≡ budget.used_day + amount
  same_run : after.per_run ≡ budget.per_run
  same_day : after.per_day ≡ budget.per_day
  within : amount ≤ remaining budget

take-Spent : (budget : AutoHealBudget) (z : ℤ) → Spent budget (take budget z).1 (take budget z).0
unfolding take
take-Spent budget (negsuc n) = record {
  run = omega arith;
  day = omega arith;
  same_run = refl;
  same_day = refl;
  within = omega arith;
}
take-Spent budget (pos n) = record {
  run = refl;
  day = refl;
  same_run = refl;
  same_day = refl;
  within = omega arith;
}

unspent : (budget : AutoHealBudget) → Spent budget budget 0
unspent budget = record {
  run = omega arith;
  day = omega arith;
  same_run = refl;
  same_day = refl;
  within = omega arith;
}

Spent-trans : (a b c : AutoHealBudget) (m n : ℕ) → Spent a b m → Spent b c n → Spent a c (m + n)
unfolding remaining
Spent-trans a b c m n first second =
    let run₁ = first.run in
    let day₁ = first.day in
    let run₂ = second.run in
    let day₂ = second.day in
    let in₁ = first.within in
    let in₂ = second.within in
    let limit₁ = first.same_run in
    let limit₂ = first.same_day in
    record {
      run = omega arith;
      day = omega arith;
      same_run = second.same_run ∙ first.same_run;
      same_day = second.same_day ∙ first.same_day;
      within = omega arith;
    }

amount-safe_decision :
    (condition : String) (o : Observation) (n : ℕ) → total (safe_decision condition o n ∷ []) ≡ n
amount-safe_decision condition o n = ground arith

choose-Spent :
    (o : Observation) (budget : AutoHealBudget)
    → Spent budget (choose_repair o budget).1 (total (choose_repair o budget).0)
unfolding choose_repair
choose-Spent o budget = elim (Bool-cases (contains (strip o.condition) safe_actions)) [
  | inl safe ↦
      rw
        (safe, amount-safe_decision (strip o.condition) o (take budget (requested_count o.count)).0)
        (take-Spent budget (requested_count o.count))
  | inr other ↦ rw other (elim (Bool-cases (contains (strip o.condition) approval_actions)) [
    | inl approval ↦ rw approval (unspent budget)
    | inr unknown ↦ rw unknown (elim (Bool-cases (nonempty (strip o.condition))) [
      | inl named ↦ rw named (unspent budget)
      | inr blank ↦ rw blank (unspent budget)
    ])
  ])
]

choose_repairs-Spent :
    (os : List Observation) (budget : AutoHealBudget)
    → Spent budget (choose_repairs os budget).1 (total (choose_repairs os budget).0)
unfolding choose_repairs
choose_repairs-Spent [] budget = unspent budget
choose_repairs-Spent (o ∷ os) budget =
    rw (total-append (choose_repair o budget).0 (choose_repairs os (choose_repair o budget).1).0) (
      Spent-trans budget (choose_repair o budget).1 (choose_repairs os (choose_repair o budget).1).1
        (total (choose_repair o budget).0) (total (choose_repairs os (choose_repair o budget).1).0)
        (choose-Spent o budget) (choose_repairs-Spent os (choose_repair o budget).1))

-- What the decisions repair without an approval is, in total, what the two counters of the budget rise
-- by, and no more than what was left of the limits per run and per day.
repairs_within_budget :
    (os : List Observation) (budget : AutoHealBudget)
    → let (decisions, after) = choose_repairs os budget in
      (after.used_run ≡ budget.used_run + total decisions)
      × (after.used_day ≡ budget.used_day + total decisions)
      × (total decisions ≤ budget.per_run - budget.used_run)
      × (total decisions ≤ budget.per_day - budget.used_day)
unfolding remaining
repairs_within_budget os budget =
    let spent = choose_repairs-Spent os budget in
    let within = spent.within in (spent.run, spent.day, omega arith, omega arith)

-- what a decision that needs no approval may be
abbrev IsSafe : RecoveryDecision → Type 0
IsSafe d = d.requires_approval ≡ false → 1 ≤ amount_of d → contains d.action safe_actions ≡ true

All-append : {A : Type 0} (P : A → Type 0) (xs ys : List A) → All P xs → All P ys → All P (xs ++ ys)
All-append P [] ys left right = right
All-append P (x ∷ xs) ys (first, left) right = (first, All-append P xs ys left right)

choose-IsSafe : (o : Observation) (budget : AutoHealBudget) → All IsSafe (choose_repair o budget).0
unfolding choose_repair
choose-IsSafe o budget = elim (Bool-cases (contains (strip o.condition) safe_actions)) [
  | inl safe ↦ rw safe (
    (elim (Bool-cases ((take budget (requested_count o.count)).0 == 0)) [
      | inl none_left ↦ rw none_left (λ u amount. safe)
      | inr some_left ↦ rw some_left (λ u amount. safe)
    ]),
    tt,
  )
  | inr other ↦ rw other (elim (Bool-cases (contains (strip o.condition) approval_actions)) [
    | inl approval ↦ rw approval ((λ needs amount. cc), tt)
    | inr unknown ↦ rw unknown (elim (Bool-cases (nonempty (strip o.condition))) [
      | inl named ↦ rw named ((λ u amount. absurd (omega arith)), tt)
      | inr blank ↦ rw blank tt
    ])
  ])
]

-- A decision that repairs something without an approval is on one of the five safe actions: activations
-- and restores wait for an operator, and a condition that is not known repairs nothing.
unapproved_repairs_are_safe :
    (os : List Observation) (budget : AutoHealBudget)
    → All
        (λ (d : RecoveryDecision).
          d.requires_approval ≡ false → 1 ≤ amount_of d → contains d.action safe_actions ≡ true)
        (choose_repairs os budget).0
unfolding choose_repairs
unapproved_repairs_are_safe [] budget = tt
unapproved_repairs_are_safe (o ∷ os) budget =
    All-append IsSafe (choose_repair o budget).0 (choose_repairs os (choose_repair o budget).1).0
      (choose-IsSafe o budget) (unapproved_repairs_are_safe os (choose_repair o budget).1)
