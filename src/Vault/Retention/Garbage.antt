-- ===== src/Vault/Retention/Garbage.antt =====
-- flowdocs/vaultops/services/retention.py: the plan of a garbage collection, which is a dry run.
-- Times and durations are numbers of one unit; `digest_inventory` and `digest_plan` stand for
-- `_canonical_digest`, SHA-256 over JSON, on the two payloads.
use pdf_search.Prelude.{
  ℕ, ◌+◌, String, Option, List, [], ◌∷◌, ◌++◌, map, Bool, true, false, ◌&&◌, not, filter, any, when,
  fromkeys, is_empty, length, ltb, leb, ◌==◌, str_eq, Result, ok, raised, ◌>>=◌, ◌>>◌, require,
  if◌then◌else◌,
}
use pdf_search.Vault.States.{VaultState, VaultState-discrete}
use pdf_search.Vault.Transitions.{Request}
use pdf_search.Vault.Transitions.Tables.{holds}
use pdf_search.Keys.{generation_manifest, key_builder}
use pdf_search.Vault.Retention.{Stored, Projection, Tables, generation_protection_reasons}
use pdf_search.Vault.Retention.Collect.{
  GcFailure, gc_error, keyed, Objects, Scanned, verified_projection, sort_by, scan,
  retained_references, total_bytes,
}

-- `GarbageCollectionPlan.State`
pub data PlanState : Type 0 where
  draft ready expired executing completed failed : PlanState

pub record Candidate : Type 0 where
  pub generation_id : String
  pub manifest_digest : String
  pub manifest_object_key : String
  pub exclusive_object_keys : List String
  pub shared_object_keys : List String

pub record Blocked : Type 0 where
  pub generation_id : String
  pub reason_codes : List String

-- the dict `estimates`; `deletion_enabled` is `False` in every one
pub record Estimates : Type 0 where
  pub candidate_generations : ℕ
  pub blocked_generations : List Blocked
  pub exclusive_objects : ℕ
  pub exclusive_bytes : ℕ
  pub shared_objects : ℕ
  pub shared_bytes : ℕ
  pub manifest_objects : ℕ
  pub deletion_enabled : Bool

-- `GarbageCollectionPlan`
pub record GcPlan : Type 0 where
  pub public_id : ℕ
  pub profile : ℕ
  pub dataset_id : String
  pub inventory_version : String
  pub pointer_version : String
  pub candidates : List Candidate
  pub estimates : Estimates
  pub plan_digest : String
  pub state : PlanState
  pub expires_at : ℕ

-- the settings VAULT_INVENTORY_CACHE_SECONDS, VAULT_GC_GRACE_DAYS and VAULT_GC_ENABLED
pub record Settings : Type 0 where
  pub inventory_cache : ℕ
  pub grace : ℕ
  pub gc_enabled : Bool

-- `VaultConnectionProfile`
pub record Profile : Type 0 where
  pub pk : ℕ
  pub fingerprint : String

pub record InventoryPayload : Type 0 where
  pub registration_digest : String
  pub state_version : ℕ
  pub inventory_observed_at : Option ℕ

pub record PlanPayload : Type 0 where
  profile_fingerprint : String
  pub dataset_id : String
  pub inventory_version : String
  pub pointer_version : String
  pub candidates : List Candidate
  pub estimates : Estimates

abbrev pub max_gc_candidates : ℕ
max_gc_candidates = 500

abbrev is_unfinished : PlanState → Bool
is_unfinished draft = true
is_unfinished ready = true
is_unfinished executing = true
is_unfinished _ = false

-- the query on the plans that are under way
abbrev pub is_under_way : ℕ → String → ℕ → GcPlan → Bool
is_under_way profile dataset_id now plan =
    plan.profile == profile
    && str_eq plan.dataset_id dataset_id
    && is_unfinished plan.state
    && ltb now plan.expires_at

abbrev pub is_retired : Stored → Bool
is_retired g = holds (VaultState-discrete g.row.vault_state VaultState.retired)

-- why a retired generation is kept, sorted
unfoldable pub keep_reasons : Tables → Settings → ℕ → Stored → List String
unfolding generation_protection_reasons
keep_reasons tables settings now g =
    when (ltb now (g.updated_at + settings.grace)) "gc_grace_period_active"
    ++ generation_protection_reasons tables now g

unfoldable pub is_eligible : Tables → Settings → ℕ → Stored → Bool
unfolding keep_reasons
is_eligible tables settings now g = is_retired g && is_empty (keep_reasons tables settings now g)

abbrev is_blocked : Tables → Settings → ℕ → Stored → Bool
is_blocked tables settings now g =
    is_retired g && not (is_empty (keep_reasons tables settings now g))

abbrev blocked_entry : Tables → Settings → ℕ → Stored → Blocked
blocked_entry tables settings now g = record {
  generation_id = g.row.generation_id;
  reason_codes = keep_reasons tables settings now g;
}

-- the locked generations of the profile and the dataset, in the order of their ids
unfoldable pub dataset_generations : ℕ → String → List Stored → List Stored
unfolding sort_by
dataset_generations profile dataset_id rows =
    sort_by (λ (g : Stored). g.row.generation_id)
      (filter (λ (g : Stored). g.profile == profile && str_eq g.row.dataset_id dataset_id) rows)

abbrev pub is_exclusive : List Scanned → List String → String → Bool
is_exclusive scanned candidate_ids key = is_empty (retained_references scanned candidate_ids key)

-- `sorted(generation_objects[generation_id])`
unfoldable pub object_keys : List Scanned → String → List String
unfolding sort_by
object_keys [] generation_id = []
object_keys ((id, records) ∷ rest) generation_id =
    let later = object_keys rest generation_id in
    if str_eq id generation_id
    then sort_by (λ (key : String). key) (map (λ o. o.0) records)
    else later

-- the candidate of an eligible generation
unfoldable pub candidate_of :
    String → List Scanned → List String → Stored → Result GcFailure Candidate
unfolding object_keys
candidate_of dataset_id scanned candidate_ids g =
    let keys = object_keys scanned g.row.generation_id in
    keyed (key_builder dataset_id >>= λ builder. generation_manifest builder g.row.generation_id)
    >>= λ manifest_key. ok record {
      generation_id = g.row.generation_id;
      manifest_digest = g.manifest_digest;
      manifest_object_key = manifest_key;
      exclusive_object_keys = filter (is_exclusive scanned candidate_ids) keys;
      shared_object_keys = filter (λ key. not (is_exclusive scanned candidate_ids key)) keys;
    }

-- the loop over the eligible generations
unfoldable pub candidates_of :
    String → List Scanned → List String → List Stored → Result GcFailure (List Candidate)
unfolding candidate_of
candidates_of dataset_id scanned candidate_ids [] = ok []
candidates_of dataset_id scanned candidate_ids (g ∷ rest) =
    candidate_of dataset_id scanned candidate_ids g >>= λ c.
    candidates_of dataset_id scanned candidate_ids rest >>= λ cs. ok (c ∷ cs)

-- the union of one field of the candidates
abbrev key_union : (Candidate → List String) → List Candidate → List String
key_union field [] = []
key_union field (c ∷ cs) = field c ++ key_union field cs

unfoldable pub estimates_of : Objects → List Candidate → List Blocked → Estimates
unfolding fromkeys total_bytes
estimates_of metadata candidates blocked =
    let exclusive = fromkeys (key_union (λ c. c.exclusive_object_keys) candidates) in
    let shared = fromkeys (key_union (λ c. c.shared_object_keys) candidates) in
    record {
      candidate_generations = length candidates;
      blocked_generations = blocked;
      exclusive_objects = length exclusive;
      exclusive_bytes = total_bytes metadata exclusive;
      shared_objects = length shared;
      shared_bytes = total_bytes metadata shared;
      manifest_objects = length candidates;
      deletion_enabled = false;
    }

-- the tests before the object graph is read: the generations of the dataset
unfoldable pub collect_guard :
    Tables → Settings → ℕ → String → ℕ → List Stored → Result GcFailure (List Stored)
unfolding dataset_generations is_eligible
collect_guard tables settings profile dataset_id now rows =
    let generations = dataset_generations profile dataset_id rows in
    let eligible = filter (is_eligible tables settings now) generations in
    do
      require (not (is_empty generations)) (gc_error "gc_inventory_empty")
      require (not (is_empty eligible)) (gc_error "gc_no_eligible_candidates")
      require (leb (length eligible) max_gc_candidates) (gc_error "gc_candidate_limit_exceeded")
      ok generations

-- the candidates and the estimates over the generations of the dataset
unfoldable pub collect :
    Tables → Settings → String → ℕ → List Stored → Result GcFailure (List Candidate × Estimates)
unfolding scan candidates_of estimates_of is_eligible
collect tables settings dataset_id now generations =
    let eligible = filter (is_eligible tables settings now) generations in
    let blocked =
      map (blocked_entry tables settings now)
        (filter (is_blocked tables settings now) generations) in
    scan generations [] >>= λ (scanned, metadata).
    candidates_of dataset_id scanned (map (λ (g : Stored). g.row.generation_id) eligible) eligible
    >>= λ candidates. ok (candidates, estimates_of metadata candidates blocked)

-- the event `gc_plan_created`, with the reason "gc_dry_run", of the one who asks
pub record PlanCreated : Type 0 where
  pub by : Request
  pub reason_code : String
  pub plan_id : ℕ
  pub plan_digest : String
  pub state : PlanState
  pub evidence : Estimates

-- `get_or_create(plan_digest=…)`: the plan and the table
unfoldable pub file_plan : GcPlan → List GcPlan → GcPlan × List GcPlan
file_plan plan [] = (plan, plan ∷ [])
file_plan plan (p ∷ rest) =
    let (found, after) = file_plan plan rest in
    if str_eq p.plan_digest plan.plan_digest then (p, p ∷ rest) else (found, p ∷ after)

-- `public_id` stands for the identifier that a new row is given
module _ (digest_inventory : InventoryPayload → String) (digest_plan : PlanPayload → String)
    (public_id : ℕ) where
  -- the row that `get_or_create` creates
  unfoldable pub gc_draft :
      Settings → Profile → String → Projection → ℕ → List Candidate × Estimates → GcPlan
  gc_draft settings profile dataset_id projection now (candidates, estimates) =
      let inventory_version = digest_inventory record {
        registration_digest = projection.registration_digest;
        state_version = projection.state_version;
        inventory_observed_at = projection.inventory_observed_at;
      } in
      record {
        public_id = public_id;
        profile = profile.pk;
        dataset_id = dataset_id;
        inventory_version = inventory_version;
        pointer_version = projection.pointer_digest;
        candidates = candidates;
        estimates = estimates;
        plan_digest = digest_plan record {
          profile_fingerprint = profile.fingerprint;
          dataset_id = dataset_id;
          inventory_version = inventory_version;
          pointer_version = projection.pointer_digest;
          candidates = candidates;
          estimates = estimates;
        };
        state = ready;
        expires_at = now + settings.inventory_cache;
      }

  -- `create_gc_plan` up to the `get_or_create`
  unfoldable pub drafted_plan :
      Tables → Settings → Profile → String → ℕ → List Stored → List GcPlan → Result GcFailure GcPlan
  unfolding verified_projection collect_guard collect gc_draft
  drafted_plan tables settings profile dataset_id now rows plans = do
    projection ←
        verified_projection settings.inventory_cache profile.pk dataset_id now tables.projections
    require (not (any (is_under_way profile.pk dataset_id now) plans))
        (gc_error "gc_plan_in_progress")
    generations ← collect_guard tables settings profile.pk dataset_id now rows
    found ← collect tables settings dataset_id now generations
    ok (gc_draft settings profile dataset_id projection now found)

  -- the plan that is returned, the table of plans and the event
  unfoldable pub create_gc_plan :
      Tables
      → Settings
      → Profile
      → String
      → Request
      → ℕ
      → List Stored
      → List GcPlan
      → Result GcFailure (GcPlan × List GcPlan × PlanCreated)
  unfolding drafted_plan file_plan
  create_gc_plan tables settings profile dataset_id by now rows plans =
      drafted_plan tables settings profile dataset_id now rows plans >>= λ draft.
      let (plan, after) = file_plan draft plans in
      ok (
        plan,
        after,
        record {
          by = by;
          reason_code = "gc_dry_run";
          plan_id = plan.public_id;
          plan_digest = plan.plan_digest;
          state = plan.state;
          evidence = draft.estimates;
        },
      )

-- `execute_gc_plan`, which never collects anything
unfoldable execute_gc_plan : Settings → GcPlan → Result GcFailure GcPlan
execute_gc_plan settings plan =
    if not settings.gc_enabled
    then raised (gc_error "gc_execution_disabled")
    else raised (gc_error "gc_execution_unavailable")
