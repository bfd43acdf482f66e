-- ===== src/Plan/Compile.antt =====
-- `_build_plan` and `compile_lifecycle_plan` of flowdocs/dataops/lifecycle.py.
use pdf_search.Prelude.{
  String, Option, none, some, [], ◌++◌, if◌then◌else◌, strip, fromkeys, is_empty,
}
use pdf_search.Plan.Types.{
  Intent, backup, test_recovery, rollback, intent_value, Route, route_value, backup_route,
  isolated_rehearsal, rollback_route, refuse, Identity, Passport, Capabilities, Request,
  normalized_environment, Payload, LifecyclePlan,
}
use pdf_search.Plan.Refusals.{identity_refusals, source_refusals}
use pdf_search.Plan.Stages.{
  Draft, backup_stage, source_readable_stage, test_recovery_stage, rollback_stage, route_for,
  route_stage, quarantine_stage, activation_stage,
}

-- `passport.field.strip() if passport else ""`
abbrev passport_text : Option Passport → (Passport → String) → String
passport_text none field = ""
passport_text (some p) field = strip (field p)

-- the payload that `_build_plan` digests; `dict.fromkeys` drops repeated codes
unfoldable pub plan_payload : Request → Identity → Option Passport → Route → Draft → Payload
plan_payload request identity passport route draft = record {
  contract_version = 3;
  intent = intent_value request.intent;
  route = route_value (if is_empty draft.refusals then route else refuse);
  environment = normalized_environment identity;
  deployment_id = strip identity.deployment_id;
  target_dataset_id = strip identity.dataset_id;
  source_dataset_id = passport_text passport (λ p. p.dataset_id);
  source_generation_id = passport_text passport (λ p. p.generation_id);
  source_manifest_sha256 = passport_text passport (λ p. p.manifest_sha256);
  steps = draft.steps;
  gates = draft.gates;
  reason_codes = fromkeys draft.reasons;
  refusal_codes = fromkeys draft.refusals;
  activation = draft.activation;
  transfer_mode = draft.transfer_mode;
}

-- the empty lists, and the refusals of the identity
unfoldable pub first_draft : Identity → Draft
first_draft identity = record {
  steps = [];
  gates = [];
  reasons = [];
  refusals = identity_refusals identity;
  activation = "none";
  transfer_mode = "none";
}

-- after the branch of a backup: the refusals of the source
unfoldable pub source_draft : Identity → Capabilities → Option Passport → Draft
unfolding first_draft
source_draft identity capabilities passport =
    let draft = first_draft identity in
    source_readable_stage passport capabilities
      (record draft { refusals = draft.refusals ++ source_refusals passport })

-- an import or a restore from a source with a passport
unfoldable pub restore_draft : Request → Identity → Capabilities → Passport → Draft
unfolding source_draft
restore_draft request identity capabilities passport =
    let route = route_for identity passport in
    activation_stage request identity route capabilities (
      quarantine_stage route capabilities (
        route_stage route passport capabilities
          (source_draft identity capabilities (some passport))))

-- the branches on `request.intent`
unfoldable pub compile_for : Intent → Request → Identity → Capabilities → Option Passport → Payload
unfolding source_draft restore_draft first_draft plan_payload
compile_for backup request identity capabilities passport =
    plan_payload request identity none backup_route
      (backup_stage request capabilities (first_draft identity))
compile_for test_recovery request identity capabilities passport =
    plan_payload request identity passport isolated_rehearsal
      (test_recovery_stage capabilities (source_draft identity capabilities passport))
compile_for rollback request identity capabilities passport =
    plan_payload request identity passport rollback_route
      (rollback_stage request capabilities (source_draft identity capabilities passport))
compile_for _ request identity capabilities none =
    plan_payload request identity none refuse (source_draft identity capabilities none)
compile_for _ request identity capabilities (some source) =
    plan_payload request identity (some source) (route_for identity source)
      (restore_draft request identity capabilities source)

module _ (digest : Payload → String) where
  unfoldable pub compile_lifecycle_plan :
      Request → Identity → Capabilities → Option Passport → LifecyclePlan
  unfolding compile_for
  compile_lifecycle_plan request identity capabilities passport =
      let payload : Payload = compile_for request.intent request identity capabilities passport in
      record { payload = payload; plan_digest = digest payload }
