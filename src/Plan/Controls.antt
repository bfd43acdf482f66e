-- ===== src/Plan/Controls.antt =====
-- The controls of a production activation, and the plan of a generation that is active already.
use pdf_search.Prelude.{
  String, some, [], Bool, true, false, ◌&&◌, not, ◌≡◌, ◌⊎◌, inl, inr, refl, ◌∙◌, str_eq, arith,
  contains, strip, eq_iff, if◌then◌else◌,
}
use pdf_search.Plan.Types.{
  restore, import_data, Identity, Passport, Capabilities, Request, Payload, noop, is_legacy,
}
use pdf_search.Plan.Stages.{
  source_readable_stage, route_for, is_noop, is_production, same_text, route_stage,
  quarantine_stage, activation_stage,
}
use pdf_search.Plan.Literals.{production_steps, switch_steps, production_gates, switch_gates}
use pdf_search.Plan.Late.{before_activation, early, step_late, gate_late}
use pdf_search.Plan.Compile.{
  compile_for, compile_lifecycle_plan, plan_payload, first_draft, source_draft, restore_draft,
}

-- the mutation barrier is entered and left, and the three production gates are asked for
abbrev pub ShowsControls : Payload → Bool → Type 0
ShowsControls plan on =
    (contains "enter_mutation_barrier" plan.steps ≡ on)
    × (contains "leave_mutation_barrier" plan.steps ≡ on)
    × (contains "pre_restore_backup" plan.gates ≡ on)
    × (contains "maintenance_window" plan.gates ≡ on)
    × (contains "rollback_authority" plan.gates ≡ on)

only_first : (a b : Bool) → (a && (if b then true else false)) ≡ (a && b)
only_first a b = ground arith

module _ (request : Request) (i : Identity) (c : Capabilities) (p : Passport) where
  abbrev controlled : Bool
  controlled = (request.activate && not (is_noop (route_for i p))) && is_production i

  step_controlled :
      (s : String)
      → str_eq "publish_pre_restore_recovery_point" s ≡ false
      → (contains s (before_activation i c p).steps ≡ false)
      → contains s production_steps ≡ true
      → contains s switch_steps ≡ false
      → contains s (restore_draft request i c p).steps ≡ controlled
  unfolding restore_draft
  step_controlled s e h on off =
      step_late request i (route_for i p) c (before_activation i c p) s e h
      ∙ rw (on, off)
          (only_first (request.activate && not (is_noop (route_for i p))) (is_production i))

  gate_controlled :
      (s : String)
      → (contains s (before_activation i c p).gates ≡ false)
      → contains s production_gates ≡ true
      → contains s switch_gates ≡ false
      → contains s (restore_draft request i c p).gates ≡ controlled
  unfolding restore_draft
  gate_controlled s h on off =
      gate_late request i (route_for i p) c (before_activation i c p) s h
      ∙ rw (on, off)
          (only_first (request.activate && not (is_noop (route_for i p))) (is_production i))

  controls_shown :
      ShowsControls
        (plan_payload request i (some p) (route_for i p) (restore_draft request i c p))
        controlled
  unfolding plan_payload contains
  controls_shown = (
    step_controlled "enter_mutation_barrier" refl
        ((early "enter_mutation_barrier" i c p).0 (refl, refl, refl, refl)) refl refl,
    step_controlled "leave_mutation_barrier" refl
        ((early "leave_mutation_barrier" i c p).0 (refl, refl, refl, refl)) refl refl,
    gate_controlled "pre_restore_backup"
        ((early "pre_restore_backup" i c p).1 (refl, refl, refl, refl)) refl refl,
    gate_controlled "maintenance_window"
        ((early "maintenance_window" i c p).1 (refl, refl, refl, refl)) refl refl,
    gate_controlled "rollback_authority"
        ((early "rollback_authority" i c p).1 (refl, refl, refl, refl)) refl refl,
  )

-- what is left of a plan that has nothing to do
abbrev HasNoWork : Payload → Type 0
HasNoWork plan = (plan.steps ≡ []) × (plan.gates ≡ []) × (plan.activation ≡ "none")

same_text_of : (a b : String) → strip a ≡ strip b → same_text a b ≡ true
same_text_of a b e = (eq_iff (strip a) (strip b)).1 e

noop_route :
    (i : Identity) (p : Passport)
    → is_legacy p ≡ false
    → strip p.dataset_id ≡ strip i.dataset_id
    → strip p.generation_id ≡ strip i.active_generation_id
    → strip p.manifest_sha256 ≡ strip i.active_manifest_sha256
    → route_for i p ≡ noop
unfolding route_for
noop_route i p own d g m = ground (
  arith,
  same_text_of p.dataset_id i.dataset_id d,
  same_text_of p.generation_id i.active_generation_id g,
  same_text_of p.manifest_sha256 i.active_manifest_sha256 m,
)

idle_draft :
    (request : Request) (i : Identity) (c : Capabilities) (p : Passport)
    → route_for i p ≡ noop
    → HasNoWork (plan_payload request i (some p) (route_for i p) (restore_draft request i c p))
unfolding plan_payload restore_draft activation_stage quarantine_stage route_stage source_draft
    source_readable_stage first_draft
idle_draft request i c p e = rw e (ground arith)

module _ (digest : Payload → String) where
  -- An import or a restore goes through the mutation barrier and asks for a backup first, a maintenance
  -- window and rollback authority exactly where it is to be activated, changes the active generation,
  -- and the instance is production.
  pub production_controls :
      (request : Request) (i : Identity) (c : Capabilities) (p : Passport)
      → (request.intent ≡ restore) ⊎ (request.intent ≡ import_data)
      → ShowsControls
          (compile_lifecycle_plan digest request i c (some p)).payload
          ((request.activate && not (is_noop (route_for i p))) && is_production i)
  unfolding compile_lifecycle_plan compile_for
  production_controls request i c p (inl e) = simp e (controls_shown request i c p)
  production_controls request i c p (inr e) = simp e (controls_shown request i c p)

  -- An import or a restore of the generation that is active already, activated or not, has no steps and
  -- no gates and switches nothing.
  active_generation_idle :
      (request : Request) (i : Identity) (c : Capabilities) (p : Passport)
      → (request.intent ≡ restore) ⊎ (request.intent ≡ import_data)
      → is_legacy p ≡ false
      → strip p.dataset_id ≡ strip i.dataset_id
      → strip p.generation_id ≡ strip i.active_generation_id
      → strip p.manifest_sha256 ≡ strip i.active_manifest_sha256
      → HasNoWork (compile_lifecycle_plan digest request i c (some p)).payload
  unfolding compile_lifecycle_plan compile_for
  active_generation_idle request i c p (inl e) own same_dataset same_generation same_manifest =
      simp e
        (idle_draft request i c p (noop_route i p own same_dataset same_generation same_manifest))
  active_generation_idle request i c p (inr e) own same_dataset same_generation same_manifest =
      simp e
        (idle_draft request i c p (noop_route i p own same_dataset same_generation same_manifest))
