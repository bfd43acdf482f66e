-- ===== src/Vault/Transitions/Examples.antt =====
-- The activation of a generation that is being applied.
use pdf_search.Prelude.{◌≡◌, refl, none, some, [], ◌∷◌, ok}
use pdf_search.Vault.Audit.{AuditEvent, text}
use pdf_search.Vault.States.{RuntimeState, RuntimeState-discrete, VaultState, local_maintenance}
use pdf_search.Vault.Transitions.{Generation, Request, transition_generation_runtime_state}
use pdf_search.Vault.Transitions.Tables.{guard_transition, runtime_transitions}

abbrev generation : RuntimeState → Generation
generation state = record {
  origin = local_maintenance;
  dataset_id = "docs";
  generation_id = "g2";
  deployment_id = "main";
  vault_state = VaultState.candidate;
  runtime_state = state;
}

abbrev operator : Request
operator = record {
  correlation_id = 8;
  actor_id = some 3;
  actor_name = "ops";
  reason_code = "switch";
}

abbrev activation_event : AuditEvent
activation_event = record {
  action = "generation_runtime_state_changed";
  result = "succeeded";
  correlation_id = 8;
  actor_id = some 3;
  actor_name = "ops";
  job_public_id = none;
  reason_code = "switch";
  before_state = ("runtime_state", text "applying") ∷ [];
  after_state = ("runtime_state", text "active") ∷ [];
  safe_error_code = "";
  evidence = ("deployment_id", text "main") ∷ ("generation_id", text "g2") ∷ [];
}

activation :
    transition_generation_runtime_state
      (generation RuntimeState.applying)
      RuntimeState.active
      operator
    ≡ ok (generation RuntimeState.active, activation_event ∷ [])
unfolding transition_generation_runtime_state guard_transition runtime_transitions
    RuntimeState-discrete
activation = refl
