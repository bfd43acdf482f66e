-- ===== src/Plan/Switching.antt =====
-- When a plan switches the runtime pointer, and under which controls.
use pdf_search.Prelude.{
  String, Option, none, some, Bool, true, false, ◌&&◌, not, ◌≡◌, refl, ◌∙◌, str_eq, arith, contains,
  if◌then◌else◌,
}
use pdf_search.Plan.Types.{
  Intent, backup, test_recovery, rollback, Identity, Passport, Capabilities, Request, Payload,
}
use pdf_search.Plan.Stages.{
  backup_stage, source_readable_stage, test_recovery_stage, rollback_stage, route_for, is_noop,
  is_production,
}
use pdf_search.Plan.Late.{
  before_activation, early, step_late, gate_late, activation_late, early_activation,
}
use pdf_search.Plan.Compile.{
  compile_for, compile_lifecycle_plan, first_draft, source_draft, restore_draft,
}

-- which requests switch the runtime: a rollback, and an import or a restore that is to be activated,
-- unless its generation is active already
abbrev pub switches : Intent → Request → Identity → Option Passport → Bool
switches backup request i passport = false
switches test_recovery request i passport = false
switches rollback request i passport = true
switches _ request i none = false
switches _ request i (some p) = request.activate && not (is_noop (route_for i p))

-- what a plan shows of the runtime switch
abbrev pub ShowsSwitch : Payload → Bool → Type 0
ShowsSwitch plan on =
    (contains "compare_and_swap_runtime_pointer" plan.steps ≡ on)
    × (contains "signed_intent" plan.gates ≡ on)
    × (str_eq plan.activation "signed_atomic" ≡ on)

collapse : (a b : Bool) → (a && (if b then true else true)) ≡ a
collapse a b = ground arith

switch_shown :
    (intent : Intent) (request : Request) (i : Identity) (c : Capabilities)
    (passport : Option Passport)
    → ShowsSwitch (compile_for intent request i c passport) (switches intent request i passport)
unfolding compile_for contains
switch_shown backup request i c passport = unfold backup_stage first_draft in (refl, refl, refl)
switch_shown test_recovery request i c passport =
    unfold test_recovery_stage source_draft source_readable_stage first_draft in (refl, refl, refl)
switch_shown rollback request i c passport =
    unfold rollback_stage source_draft source_readable_stage first_draft in (refl, refl, refl)
switch_shown _ request i c none =
    unfold source_draft source_readable_stage first_draft in (refl, refl, refl)
switch_shown _ request i c (some p) =
    unfold restore_draft in
    (
      step_late request i (route_for i p) c (before_activation i c p)
            "compare_and_swap_runtime_pointer" refl
            ((early "compare_and_swap_runtime_pointer" i c p).0 (refl, refl, refl, refl))
          ∙ collapse _ (is_production i),
      gate_late request i (route_for i p) c (before_activation i c p) "signed_intent"
            ((early "signed_intent" i c p).1 (refl, refl, refl, refl))
          ∙ collapse _ (is_production i),
      activation_late request i (route_for i p) c (before_activation i c p)
          (early_activation i c p),
    )

module _ (digest : Payload → String) where
  -- A plan names the compare-and-swap of the runtime pointer among its steps, asks for a signed intent
  -- among its gates and has the activation `signed_atomic` in the same cases, and these are exactly a
  -- rollback, and an import or a restore with a passport that is to be activated and whose generation
  -- is not active already; a backup and a recovery test never do.
  pub switch_only_signed :
      (request : Request) (i : Identity) (c : Capabilities) (passport : Option Passport)
      → ShowsSwitch
          (compile_lifecycle_plan digest request i c passport).payload
          (switches request.intent request i passport)
  unfolding compile_lifecycle_plan
  switch_only_signed request i c passport = switch_shown request.intent request i c passport
