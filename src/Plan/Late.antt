-- ===== src/Plan/Late.antt =====
-- The steps and gates that only the activation stage of the planner adds.
use pdf_search.Prelude.{
  String, some, List, ◌++◌, Bool, true, false, ◌&&◌, not, ◌≡◌, refl, ◌∙◌, str_eq, arith, Bool-cases,
  inl, inr, contains, contains-append, if◌then◌else◌,
}
use pdf_search.Plan.Types.{
  Route, Identity, Passport, Capabilities, Request, legacy_import, import_rebind_restore, noop,
}
use pdf_search.Plan.Stages.{
  Draft, source_readable_stage, route_for, is_noop, is_production, route_stage, quarantine_stage,
  activation_stage, is_object_store,
}
use pdf_search.Plan.Literals.{
  legacy_store_steps, legacy_mount_steps, legacy_store_gates, legacy_mount_gates, rebind_steps,
  rebind_gates, quarantine_steps, recovery_gates, production_steps, production_gates, switch_steps,
  switch_gates,
}
use pdf_search.Plan.Compile.{first_draft, source_draft}

absent-append :
    (s : String) (xs ys : List String)
    → contains s ys ≡ false
    → contains s (xs ++ ys) ≡ contains s xs
absent-append s xs ys h = ground (arith, contains-append s xs ys)

absent_before :
    (s : String) (xs ys : List String)
    → contains s xs ≡ false
    → contains s (xs ++ ys) ≡ contains s ys
absent_before s xs ys h = ground (arith, contains-append s xs ys)

-- a step that no stage before the activation adds
abbrev IsLateStep : String → Type 0
IsLateStep s =
    (contains s legacy_store_steps ≡ false)
    × (contains s legacy_mount_steps ≡ false)
    × (contains s rebind_steps ≡ false)
    × (contains s quarantine_steps ≡ false)

-- a gate that no stage before the activation adds
abbrev IsLateGate : String → Type 0
IsLateGate s =
    (contains s legacy_store_gates ≡ false)
    × (contains s legacy_mount_gates ≡ false)
    × (contains s rebind_gates ≡ false)
    × (contains s recovery_gates ≡ false)

abbrev pub before_activation : Identity → Capabilities → Passport → Draft
before_activation i c p =
    quarantine_stage (route_for i p) c (route_stage (route_for i p) p c (source_draft i c (some p)))

route_late :
    (s : String) (r : Route) (p : Passport) (c : Capabilities) (d : Draft)
    → (IsLateStep s → contains s (route_stage r p c d).steps ≡ contains s d.steps)
      × (IsLateGate s → contains s (route_stage r p c d).gates ≡ contains s d.gates)
unfolding route_stage
route_late s legacy_import p c d = elim (Bool-cases (is_object_store p.source_kind)) [
  | inl store ↦ rw store (λ h. absent-append s d.steps _ h.0, λ h. absent-append s d.gates _ h.0)
  | inr mount ↦ rw mount (λ h. absent-append s d.steps _ h.1, λ h. absent-append s d.gates _ h.1)
]
route_late s import_rebind_restore p c d =
    (λ h. absent-append s d.steps _ h.2, λ h. absent-append s d.gates _ h.2)
route_late s noop p c d = (λ _. refl, λ _. refl)
route_late s _ p c d = (λ _. refl, λ _. refl)

quarantine_late :
    (s : String) (r : Route) (c : Capabilities) (d : Draft)
    → (IsLateStep s → contains s (quarantine_stage r c d).steps ≡ contains s d.steps)
      × (IsLateGate s → contains s (quarantine_stage r c d).gates ≡ contains s d.gates)
unfolding quarantine_stage
quarantine_late s noop c d = (λ _. refl, λ _. refl)
quarantine_late s _ c d = (λ h. absent-append s d.steps _ h.3, λ h. absent-append s d.gates _ h.3)

-- nothing late stands in the lists before the activation stage
pub early :
    (s : String) (i : Identity) (c : Capabilities) (p : Passport)
    → (IsLateStep s → contains s (before_activation i c p).steps ≡ false)
      × (IsLateGate s → contains s (before_activation i c p).gates ≡ false)
unfolding source_draft source_readable_stage first_draft contains
early s i c p = (
  λ h. (quarantine_late s (route_for i p) c _).0 h ∙ (route_late s (route_for i p) p c _).0 h,
  λ h. (quarantine_late s (route_for i p) c _).1 h ∙ (route_late s (route_for i p) p c _).1 h,
)

signed_test : (b : Bool) → str_eq (if b then "signed_atomic" else "none") "signed_atomic" ≡ b
signed_test true = refl
signed_test false = refl

module _ (request : Request) (i : Identity) (r : Route) (c : Capabilities) (d : Draft) where
  abbrev pub activated : Draft
  activated = activation_stage request i r c d

  abbrev switching : Bool
  switching = request.activate && not (is_noop r)

  pub step_late :
      (s : String)
      → str_eq "publish_pre_restore_recovery_point" s ≡ false
      → contains s d.steps ≡ false
      → contains s activated.steps
        ≡ switching
          && (if is_production i then contains s production_steps else contains s switch_steps)
  unfolding activation_stage contains
  step_late s e h = elim (Bool-cases switching) [
    | inl on ↦ elim (Bool-cases (is_production i)) [
      | inl prod ↦ rw on (rw prod (rw e (absent_before s d.steps production_steps h)))
      | inr other ↦ rw on (rw other (absent_before s d.steps switch_steps h))
    ]
    | inr off ↦ rw off (ground (arith, h))
  ]

  pub gate_late :
      (s : String)
      → contains s d.gates ≡ false
      → contains s activated.gates
        ≡ switching
          && (if is_production i then contains s production_gates else contains s switch_gates)
  unfolding activation_stage
  gate_late s h = elim (Bool-cases switching) [
    | inl on ↦ elim (Bool-cases (is_production i)) [
      | inl prod ↦ rw on (rw prod (absent_before s d.gates production_gates h))
      | inr other ↦ rw on (rw other (absent_before s d.gates switch_gates h))
    ]
    | inr off ↦ rw off (ground (arith, h))
  ]

  activation_kept : activated.activation ≡ (if switching then "signed_atomic" else d.activation)
  unfolding activation_stage
  activation_kept = ground arith

  pub activation_late :
      d.activation ≡ "none" → str_eq activated.activation "signed_atomic" ≡ switching
  activation_late h = rw (activation_kept, h) (signed_test switching)

pub early_activation :
    (i : Identity) (c : Capabilities) (p : Passport) → (before_activation i c p).activation ≡ "none"
unfolding route_stage quarantine_stage source_draft source_readable_stage first_draft route_for
early_activation i c p = ground arith
