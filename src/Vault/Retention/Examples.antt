-- ===== src/Vault/Retention/Examples.antt =====
-- The theorems on retention applied at concrete inputs.
use mathlib.Core.List.{Memᴰ}
use pdf_search.Prelude.{
  ◌≡◌, refl, String, none, some, List, [], ◌∷◌, true, false, contains, nonempty, strip, decimal,
  take_chars, ok,
}
use pdf_search.Vault.States.{VaultState, VaultState-discrete, RuntimeState, WorkspaceState, Origin}
use pdf_search.Vault.Transitions.{Generation, Request}
use pdf_search.Vault.Transitions.Tables.{guard_transition, vault_transitions}
use pdf_search.Vault.Retention.{
  Stored, Hold, ManifestEntry, entry, Tables, find_projection, retire_generation,
}
use pdf_search.Vault.Retention.Collect.{Objects, manifest_objects, has_key, retained_references}
use pdf_search.Keys.{generation_manifest}
use pdf_search.Vault.Retention.Garbage.{
  Settings, Profile, GcPlan, Candidate, InventoryPayload, PlanPayload, drafted_plan, create_gc_plan,
  PlanCreated, dataset_generations, ready,
}
use pdf_search.Vault.Audit.{AuditEvent, text, number}
use pdf_search.Vault.Retention.Holds.{HoldCall, create_retention_hold}
use pdf_search.Vault.Retention.Deletion.{MayCollect, candidate-MayCollect, exclusive_key_is_free}

abbrev sixty_four : String
sixty_four = "0123456789abcdef0123456789abcdef0123456789abcdef0123456789abcdef"

abbrev row : String → VaultState → Generation
row id state = record {
  origin = Origin.vault_generation;
  dataset_id = "d1";
  generation_id = id;
  deployment_id = "";
  vault_state = state;
  runtime_state = RuntimeState.inactive;
}

abbrev stored : String → VaultState → List ManifestEntry → Stored
stored id state files = record {
  profile = 1;
  row = row id state;
  manifest_digest = "m";
  files = some files;
  updated_at = 10;
  workspaces = WorkspaceState.expired ∷ [];
  retention_holds = [];
}

abbrev file : String → ManifestEntry
file key = entry (some key) (some sixty_four) (some 7)

abbrev old_generation : Stored
old_generation = stored "g1" VaultState.retired (file "datasets/d1/a" ∷ file "datasets/d1/b" ∷ [])

abbrev live_generation : Stored
live_generation = stored "g2" VaultState.authoritative (file "datasets/d1/b" ∷ [])

abbrev tables : Tables
tables = record {
  projections =
      record {
        profile = 1;
        dataset_id = "d1";
        registration_digest = "r";
        pointer_digest = "p";
        authoritative_generation_id = "g2";
        inventory_state = "verified";
        inventory_observed_at = some 95;
        state_version = 3;
      }
      ∷ [];
  jobs = [];
}

abbrev settings : Settings
settings = record { inventory_cache = 60; grace = 30; gc_enabled = false }

abbrev profile : Profile
profile = record { pk = 1; fingerprint = "fp" }

abbrev inventory_text : InventoryPayload → String
inventory_text p = p.registration_digest

abbrev plan_text : PlanPayload → String
plan_text p = p.inventory_version

abbrev rows : List Stored
rows = live_generation ∷ old_generation ∷ []

abbrev candidate : Candidate
candidate = record {
  generation_id = "g1";
  manifest_digest = "m";
  manifest_object_key = "datasets/d1/generations/g1/manifest.json";
  exclusive_object_keys = "datasets/d1/a" ∷ [];
  shared_object_keys = "datasets/d1/b" ∷ [];
}

abbrev plan : GcPlan
plan = record {
  public_id = 9;
  profile = 1;
  dataset_id = "d1";
  inventory_version = "r";
  pointer_version = "p";
  candidates = candidate ∷ [];
  estimates = record {
    candidate_generations = 1;
    blocked_generations = [];
    exclusive_objects = 1;
    exclusive_bytes = 7;
    shared_objects = 1;
    shared_bytes = 7;
    manifest_objects = 1;
    deletion_enabled = false;
  };
  plan_digest = "r";
  state = ready;
  expires_at = 160;
}

drafted_example :
    drafted_plan inventory_text plan_text 9 tables settings profile "d1" 100 rows [] ≡ ok plan
unfolding drafted_plan VaultState-discrete generation_manifest retained_references
drafted_example = refl

old_objects :
    manifest_objects old_generation
    ≡ ok (
        ("datasets/d1/a", record { sha256 = sixty_four; bytes = 7 })
        ∷ ("datasets/d1/b", record { sha256 = sixty_four; bytes = 7 })
        ∷ [])
unfolding manifest_objects
old_objects = refl

old_member : Memᴰ old_generation (dataset_generations 1 "d1" rows)
unfolding dataset_generations
old_member = Memᴰ.head refl

exclusive_named : contains "datasets/d1/a" candidate.exclusive_object_keys ≡ true
unfolding contains
exclusive_named = refl

abbrev old_records : Objects
old_records =
    ("datasets/d1/a", record { sha256 = sixty_four; bytes = 7 })
    ∷ ("datasets/d1/b", record { sha256 = sixty_four; bytes = 7 })
    ∷ []

old_has : has_key "datasets/d1/a" old_records ≡ true
old_has = refl

candidate-MayCollect_example :
    (g : Stored) × Memᴰ g (dataset_generations 1 "d1" rows)
    × MayCollect tables settings 100 g
    × (g.row.generation_id ≡ "g1")
candidate-MayCollect_example =
    candidate-MayCollect inventory_text plan_text 9 tables settings profile "d1" 100 rows []
      drafted_example (Memᴰ.head refl)

exclusive_key_is_free_example :
    (e : Stored) × Memᴰ e (dataset_generations 1 "d1" rows)
    × MayCollect tables settings 100 e
    × (e.row.generation_id ≡ "g1")
exclusive_key_is_free_example =
    exclusive_key_is_free inventory_text plan_text 9 tables settings profile "d1" 100 rows []
      "datasets/d1/a" old_generation drafted_example (Memᴰ.head refl) exclusive_named old_member
      old_objects old_has

abbrev operator : Request
operator = record {
  correlation_id = 4;
  actor_id = some 2;
  actor_name = "op";
  reason_code = "cleanup";
}

abbrev spare_generation : Stored
spare_generation = stored "g3" VaultState.candidate []

abbrev spare_retired : Stored
spare_retired = record spare_generation {
  row = record spare_generation.row { vault_state = VaultState.retired };
  updated_at = 100;
}

abbrev retired_event : AuditEvent
retired_event = record {
  action = "generation_vault_state_changed";
  result = "succeeded";
  correlation_id = 4;
  actor_id = some 2;
  actor_name = "op";
  job_public_id = none;
  reason_code = "cleanup";
  before_state = ("vault_state", text "candidate") ∷ [];
  after_state = ("vault_state", text "retired") ∷ [];
  safe_error_code = "";
  evidence = ("dataset_id", text "d1") ∷ ("generation_id", text "g3") ∷ [];
}

retire_run :
    retire_generation tables 100 operator spare_generation ≡ ok (spare_retired, retired_event ∷ [])
unfolding retire_generation VaultState-discrete find_projection guard_transition vault_transitions
retire_run = refl

abbrev hold_call : HoldCall
hold_call = record {
  reason_code = " legal ";
  owner_reference = "case 7";
  notes = "";
  expires_at = some 400;
  idempotency_key = "k1";
}

abbrev hold : Hold
hold = record {
  pk = 5;
  reason_code = "legal";
  owner_reference = "case 7";
  notes = "";
  idempotency_key = "k1";
  expires_at = some 400;
  released_at = none;
}

abbrev held_generation : Stored
held_generation = record old_generation { retention_holds = hold ∷ [] }

abbrev hold_created : AuditEvent
hold_created = record retired_event {
  action = "retention_hold_created";
  reason_code = "legal";
  before_state = [];
  after_state =
      ("hold_id", number 5) ∷ ("generation_id", text "g1") ∷ ("expires_at", text "400") ∷ [];
  evidence = ("owner_reference", text "case 7") ∷ [];
}

hold_run :
    create_retention_hold decimal 100 5 operator hold_call old_generation
    ≡ ok (hold, held_generation, hold_created ∷ [])
unfolding create_retention_hold decimal strip take_chars
hold_run = refl

hold_keyed : nonempty (strip hold_call.idempotency_key) ≡ true
unfolding strip
hold_keyed = refl

abbrev created : PlanCreated
created = record {
  by = operator;
  reason_code = "gc_dry_run";
  plan_id = 9;
  plan_digest = "r";
  state = ready;
  evidence = plan.estimates;
}

create_run :
    create_gc_plan inventory_text plan_text 9 tables settings profile "d1" operator 100 rows []
    ≡ ok (plan, plan ∷ [], created)
unfolding create_gc_plan VaultState-discrete generation_manifest retained_references
create_run = refl
