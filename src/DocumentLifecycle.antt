-- ===== src/DocumentLifecycle.antt =====
-- flowdocs/core/services/document_lifecycle.py: how an administrator takes a document out of the search and
-- brings it back. The media transitions of flowdocs/core/maintenance.py that it calls are in Transitions.
pub mod Media
pub mod Transitions
mod Changes
mod Histories
mod Looks
mod Quarantine
mod Recovery
mod Examples
use pdf_search.Prelude.{
  ℕ, String, str_eq, Option, none, some, get_or, is_some, Result, ok, raised, ◌>>=◌, ◌>>◌, require,
  if◌then◌else◌, Bool, true, false, not, ◌&&◌, ◌||◌, nonempty, leb, List, [], ◌∷◌, contains, strip,
  lower,
}
use pdf_search.Schedule.Parse.{Number, natural, negative}
use Media.{
  is_deprecated, is_archived, Lifecycle, intake, uploaded, processing, ready, deprecated, archived,
  unavailable, PdfFile, IntegrityError, MediaTransitionOutcome, StoredMedia,
  media_quarantine_reasons, max_size, is_case_reference, is_media_digest, ExpectedSize, count,
  written, int_of,
}
use Transitions.{
  Surroundings, deprecate_pdf, archive_pdf, mark_pdf_unavailable, restore_pdf,
  restore_unavailable_pdf,
}

-- the rejections of `LifecycleDecisionRejected`, by their codes, and the errors of the transitions
pub data Rejection : Type 0 where
  unknown_reason_code lifecycle_permission_denied invalid_source_state missing_required_input
        invalid_quarantine_reason invalid_case_reference incomplete_recovery_evidence
        invalid_expected_sha256 invalid_expected_size recovery_not_applicable :
      Rejection
  integrity : IntegrityError → Rejection

-- the keys of `LIFECYCLE_POLICIES`
pub data Reason : Type 0 where
  superseded historical_record source_temporarily_unavailable : Reason

-- `policy.target_state`
abbrev pub target_state : Reason → Lifecycle
target_state superseded = deprecated
target_state historical_record = archived
target_state source_temporarily_unavailable = unavailable

-- `SEARCHABLE_PDF_LIFECYCLES`, and `ORDINARY_LIFECYCLE_STATES`
unfoldable pub is_ordinary : Lifecycle → Bool
is_ordinary uploaded = true
is_ordinary processing = true
is_ordinary ready = true
is_ordinary _ = false

-- `lifecycle in policy.allowed_source_states`
unfoldable pub is_allowed_source : Reason → Lifecycle → Bool
unfolding is_ordinary
is_allowed_source superseded deprecated = true
is_allowed_source superseded lifecycle = is_ordinary lifecycle
is_allowed_source historical_record deprecated = true
is_allowed_source historical_record archived = true
is_allowed_source historical_record lifecycle = is_ordinary lifecycle
is_allowed_source source_temporarily_unavailable intake = false
is_allowed_source source_temporarily_unavailable lifecycle = true

-- `get_lifecycle_policy`
unfoldable pub get_lifecycle_policy : String → Result Rejection Reason
unfolding strip
get_lifecycle_policy reason_code =
    let normalized = strip reason_code in
    if str_eq normalized "superseded"
    then ok superseded
    else if str_eq normalized "historical_record"
    then ok historical_record
    else if str_eq normalized "source_temporarily_unavailable"
    then ok source_temporarily_unavailable
    else raised unknown_reason_code

-- the user of a request
pub record Actor : Type 0 where
  pub is_authenticated : Bool
  pub role : String

-- `actor_can_manage_lifecycle`
unfoldable pub actor_can_manage_lifecycle : Option Actor → Bool
actor_can_manage_lifecycle none = false
actor_can_manage_lifecycle (some actor) =
    actor.is_authenticated && (str_eq actor.role "admin" || str_eq actor.role "superadmin")

-- the evidence of a request, a mapping; a missing key is ""
pub record Evidence : Type 0 where
  pub quarantine_reason : String
  pub case_reference : String
  pub expected_sha256 : String
  pub expected_size : Option ExpectedSize

-- `str(expected_size).strip()` is not ""
unfoldable has_size : Option ExpectedSize → Bool
unfolding strip
has_size none = false
has_size (some (count n)) = true
has_size (some (written t)) = nonempty (strip t)

-- the size of the evidence, from `int(raw_size)`
abbrev sized : Option Number → Result Rejection ℕ
sized none = raised invalid_expected_size
sized (some negative) = raised invalid_expected_size
sized (some (natural n)) = require (leb n max_size) invalid_expected_size >> ok n

-- the size that goes with a digest
unfoldable evidence_size : String → Option ExpectedSize → Result Rejection (Option ExpectedSize)
unfolding is_media_digest int_of
evidence_size digest size =
    if nonempty digest
    then (do
      require (is_media_digest digest) invalid_expected_sha256
      n ← sized (int_of size)
      ok (some (count n)))
    else ok none

-- `_coerce_unavailability_evidence` of a mapping
unfoldable pub coerce_unavailability_evidence : Evidence → Result Rejection Evidence
unfolding is_case_reference has_size evidence_size contains strip lower
coerce_unavailability_evidence source =
    let reason = strip source.quarantine_reason in
    let case_reference = strip source.case_reference in
    let digest = lower (strip source.expected_sha256) in
    do
      require (nonempty reason && nonempty case_reference) missing_required_input
      require (contains reason media_quarantine_reasons) invalid_quarantine_reason
      require (is_case_reference case_reference) invalid_case_reference
      require
          ((nonempty digest && has_size source.expected_size)
            || (not (nonempty digest) && not (has_size source.expected_size)))
          incomplete_recovery_evidence
      size ← evidence_size digest source.expected_size
      ok (record {
        quarantine_reason = reason;
        case_reference = case_reference;
        expected_sha256 = digest;
        expected_size = size;
      })

-- the part of `DocumentLifecycleImpact` that depends on the document
pub record Impact : Type 0 where
  pub reason_code : Reason
  pub source_state : Lifecycle
  pub file_reference_present : Bool
  pub index_marked_before : Bool
  pub folder_index_rebuild_required : Bool
  pub search_visible_before : Bool

-- `build_impact_preview`, on a policy
unfoldable pub build_impact_preview : PdfFile → Reason → Result Rejection Impact
unfolding is_allowed_source is_ordinary
build_impact_preview pdf reason = do
  require (is_allowed_source reason pdf.lifecycle) invalid_source_state
  ok (record {
    reason_code = reason;
    source_state = pdf.lifecycle;
    file_reference_present = nonempty pdf.file_name;
    index_marked_before = pdf.indexed;
    folder_index_rebuild_required =
        is_some pdf.folder_id && (pdf.indexed || is_ordinary pdf.lifecycle);
    search_visible_before = is_ordinary pdf.lifecycle;
  })

-- `LifecycleTransitionResult`, with the row and the audit events in `outcome`
pub record TransitionResult : Type 0 where
  pub outcome : MediaTransitionOutcome
  pub source_state : Lifecycle
  pub target_state : Lifecycle
  pub impact : Option Impact

-- an error of a transition is not a rejection, and passes through
abbrev pub from_transition {ℓ} : {A : Type ℓ} → Result IntegrityError A → Result Rejection A
from_transition (ok a) = ok a
from_transition (raised e) = raised (integrity e)

abbrev changed_outcome : PdfFile → MediaTransitionOutcome
changed_outcome pdf = record { pdf = pdf; changed = true; events = [] }

abbrev kept : PdfFile → MediaTransitionOutcome
kept pdf = record { pdf = pdf; changed = false; events = [] }

-- the change of the locked row under the first two policies
unfoldable pub hide : Reason → PdfFile → Result IntegrityError MediaTransitionOutcome
unfolding deprecate_pdf archive_pdf
hide superseded current =
    if is_deprecated current.lifecycle
    then ok (kept current)
    else (deprecate_pdf current >>= λ pdf. ok (changed_outcome pdf))
hide historical_record current =
    if is_archived current.lifecycle
    then ok (kept current)
    else ok (changed_outcome (archive_pdf current))
hide source_temporarily_unavailable current = ok (kept current)

-- `remove_from_search` under the first two policies: one transaction on the locked row
unfoldable pub remove_locked : PdfFile → Reason → Result Rejection TransitionResult
unfolding build_impact_preview hide
remove_locked current reason = do
  impact ← build_impact_preview current reason
  outcome ← from_transition (hide reason current)
  ok (record {
    outcome = outcome;
    source_state = current.lifecycle;
    target_state = target_state reason;
    impact = some impact;
  })

-- `remove_from_search` under the third policy: a read, and the transaction of `mark_pdf_unavailable` on the
-- row that it locks
unfoldable pub remove_unavailable :
    Surroundings
    → PdfFile
    → PdfFile
    → StoredMedia
    → ℕ
    → Evidence
    → Result Rejection TransitionResult
unfolding coerce_unavailability_evidence build_impact_preview mark_pdf_unavailable
remove_unavailable w current locked media now evidence = do
  checked ← coerce_unavailability_evidence evidence
  impact ← build_impact_preview current source_temporarily_unavailable
  outcome ← from_transition (
      mark_pdf_unavailable w locked media now checked.expected_sha256 checked.expected_size
        checked.quarantine_reason checked.case_reference)
  ok (record {
    outcome = outcome;
    source_state = current.lifecycle;
    target_state = unavailable;
    impact = some impact;
  })

-- `remove_from_search` in the surroundings of its call; `current` is the row that it reads, `locked` the one that it locks
unfoldable pub remove_from_search :
    Surroundings
    → Option Actor
    → String
    → PdfFile
    → PdfFile
    → StoredMedia
    → ℕ
    → Evidence
    → Result Rejection TransitionResult
unfolding actor_can_manage_lifecycle get_lifecycle_policy remove_locked remove_unavailable
remove_from_search w actor reason_code current locked media now evidence = do
  require (actor_can_manage_lifecycle actor) lifecycle_permission_denied
  reason ← get_lifecycle_policy reason_code
  elim reason [
    | source_temporarily_unavailable ↦ remove_unavailable w current locked media now evidence
    | superseded ↦ remove_locked locked superseded
    | historical_record ↦ remove_locked locked historical_record
  ]

-- `RecoveryDecision.operation`, with `target_state` and `evidence_bound`
pub data RecoveryDecision : Type 0 where
  restore_to_uploaded : RecoveryDecision
  verified_media_restore : Option Lifecycle → Bool → RecoveryDecision

-- `pdf.media_prior_lifecycle in ALL_LIFECYCLE_STATES - {"unavailable"}`
abbrev is_prior : Option Lifecycle → Bool
is_prior none = false
is_prior (some intake) = false
is_prior (some unavailable) = false
is_prior (some lifecycle) = true

unfoldable pub build_recovery_decision : PdfFile → Result Rejection RecoveryDecision
build_recovery_decision pdf = elim pdf.lifecycle [
  | deprecated ↦ ok restore_to_uploaded
  | archived ↦ ok restore_to_uploaded
  | unavailable ↦ ok (
      verified_media_restore pdf.media_prior_lifecycle (
        nonempty pdf.media_expected_sha256
        && is_some pdf.media_expected_size
        && is_prior pdf.media_prior_lifecycle))
  | _ ↦ raised recovery_not_applicable
]

abbrev recovered_result : Lifecycle → MediaTransitionOutcome → TransitionResult
recovered_result source_state outcome = record {
  outcome = outcome;
  source_state = source_state;
  target_state = outcome.pdf.lifecycle;
  impact = none;
}

-- `recover_document` after its read: the transaction on the locked row
unfoldable pub recover_locked :
    Surroundings
    → RecoveryDecision
    → PdfFile
    → StoredMedia
    → StoredMedia
    → Result Rejection TransitionResult
unfolding build_recovery_decision restore_pdf restore_unavailable_pdf
recover_locked w (verified_media_restore target bound) locked media final_media =
    from_transition (restore_unavailable_pdf w locked media final_media) >>= λ outcome.
    ok (recovered_result unavailable outcome)
recover_locked w restore_to_uploaded locked media final_media = do
  again ← build_recovery_decision locked
  outcome ← from_transition (restore_pdf locked)
  ok (recovered_result locked.lifecycle outcome)

-- `recover_document`; `current` is the row that it reads, `locked` the one that it locks
unfoldable pub recover_document :
    Surroundings
    → Option Actor
    → PdfFile
    → PdfFile
    → StoredMedia
    → StoredMedia
    → Result Rejection TransitionResult
unfolding actor_can_manage_lifecycle build_recovery_decision recover_locked
recover_document w actor current locked media final_media = do
  require (actor_can_manage_lifecycle actor) lifecycle_permission_denied
  decision ← build_recovery_decision current
  recover_locked w decision locked media final_media
