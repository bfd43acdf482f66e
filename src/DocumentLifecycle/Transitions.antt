-- ===== src/DocumentLifecycle/Transitions.antt =====
-- The transitions of documents in flowdocs/core/maintenance.py. A transition is a function on the row that
-- it locks; an exception rolls the transaction back.
use pdf_search.Vault.Barrier.{MutationState, enter_scope}
use pdf_search.Prelude.{
  ℕ, Bool, is_ok, String, str_eq, Option, none, some, is_some, Result, ok, raised, ◌>>=◌, ◌>>◌,
  require, if◌then◌else◌, true, false, not, ◌&&◌, ◌||◌, nonempty, leb, ◌==◌, [], ◌∷◌, contains,
  strip, lower,
}
use pdf_search.Schedule.Parse.{Number, natural, negative}
use pdf_search.DocumentLifecycle.Media.{
  is_unavailable, is_archived, is_uploaded, Lifecycle, PdfFile, IntegrityError,
  MediaTransitionOutcome, StoredMedia, verified_local_media_evidence, media_quarantine_reasons,
  max_size, is_case_reference, is_media_digest, ExpectedSize, int_of, natural_size, int_or_raise,
  quarantine_size, is_quarantine_evidence, intake, uploaded, deprecated, archived, unavailable,
  cannot_deprecate, quarantine_evidence_incomplete, media_available, recovery_evidence_incomplete,
  only_unavailable, stored_evidence_incomplete, needs_verified_restore, no_durable_evidence,
  media_mismatch, prior_lifecycle_invalid, media_changed, media_absent, media_unavailable,
  media_evidence_bound, media_restored, outer_atomic_unsupported, scope_refused,
}

-- What a call of a decorated transition meets: whether its caller is in an atomic block, whether mutations
-- are tracked, whether a scope is open already, and the control row that a new scope locks.
pub record Surroundings : Type 0 where
  pub in_atomic_block : Bool
  pub tracking_enabled : Bool
  pub in_scope : Bool
  pub control : MutationState

-- `mutation_scope` opens, or does not have to
unfoldable pub admits_scope : Surroundings → Bool
unfolding enter_scope
admits_scope w = not w.tracking_enabled || w.in_scope || is_ok (enter_scope w.control)

-- `_tracked_media_transition`; the control row after the scope is in Vault/Barrier
unfoldable pub tracked :
    Surroundings
    → Result IntegrityError MediaTransitionOutcome
    → Result IntegrityError MediaTransitionOutcome
unfolding admits_scope
tracked w transition =
    require (not w.in_atomic_block) outer_atomic_unsupported
    >> require (admits_scope w) scope_refused
    >> transition

unfoldable pub deprecate_pdf : PdfFile → Result IntegrityError PdfFile
deprecate_pdf pdf =
    if is_archived pdf.lifecycle
    then raised cannot_deprecate
    else ok (record pdf { lifecycle = deprecated; indexed = false })

unfoldable pub archive_pdf : PdfFile → PdfFile
archive_pdf pdf = record pdf { lifecycle = archived; indexed = false }

abbrev pub unchanged : PdfFile → MediaTransitionOutcome
unchanged pdf = record { pdf = pdf; changed = false; events = [] }

-- the media is absent
abbrev pub require_absent : Result IntegrityError (String × ℕ) → Result IntegrityError (Unit {0})
require_absent (ok evidence) = raised media_available
require_absent (raised media_absent) = ok tt
require_absent (raised e) = raised e

-- the row that `mark_pdf_unavailable` saves
unfoldable pub quarantined : PdfFile → ℕ → String → Option ℕ → String → String → PdfFile
quarantined current now digest size reason case_reference = record current {
  lifecycle = unavailable;
  indexed = false;
  media_prior_lifecycle = some current.lifecycle;
  media_expected_sha256 = digest;
  media_expected_size = size;
  media_quarantine_reason = reason;
  media_case_reference = case_reference;
  media_observed_at = some now;
}

-- its transaction on the locked row
unfoldable pub quarantine :
    PdfFile
    → StoredMedia
    → ℕ
    → String
    → Option ℕ
    → String
    → String
    → Result IntegrityError MediaTransitionOutcome
unfolding verified_local_media_evidence quarantined
quarantine current media now digest size reason case_reference =
    if is_unavailable current.lifecycle
    then ok (unchanged current)
    else (require_absent (verified_local_media_evidence media none)
        >> ok (record {
          pdf = quarantined current now digest size reason case_reference;
          changed = true;
          events = media_unavailable current.lifecycle digest size case_reference reason now ∷ [];
        }))

-- `mark_pdf_unavailable` under its decorator
unfoldable pub mark_pdf_unavailable_transition :
    PdfFile
    → StoredMedia
    → ℕ
    → String
    → Option ExpectedSize
    → String
    → String
    → Result IntegrityError MediaTransitionOutcome
unfolding quarantine_size is_quarantine_evidence quarantine strip lower
mark_pdf_unavailable_transition current media now expected_sha256 expected_size reason
      case_reference =
    let digest = lower (strip expected_sha256) in
    do
      size ← quarantine_size digest expected_size
      require (is_quarantine_evidence digest size (strip reason) (strip case_reference))
          quarantine_evidence_incomplete
      quarantine current media now digest (natural_size size) (strip reason) (strip case_reference)

-- the transaction of `bind_unavailable_recovery_evidence` on the locked row
unfoldable pub bind_evidence :
    PdfFile → String → ℕ → String → String → Result IntegrityError MediaTransitionOutcome
bind_evidence current digest size reason case_reference = do
  require (is_unavailable current.lifecycle) only_unavailable
  require
      ((nonempty current.media_expected_sha256 && is_some current.media_expected_size)
        || (not (nonempty current.media_expected_sha256)
            && not (is_some current.media_expected_size)))
      stored_evidence_incomplete
  if nonempty current.media_expected_sha256
      then ok (unchanged current)
      else ok (record {
        pdf = record current {
          media_expected_sha256 = digest;
          media_expected_size = some size;
          media_case_reference = case_reference;
        };
        changed = true;
        events = media_evidence_bound digest size reason case_reference ∷ [];
      })

unfoldable pub mark_pdf_unavailable :
    Surroundings
    → PdfFile
    → StoredMedia
    → ℕ
    → String
    → Option ExpectedSize
    → String
    → String
    → Result IntegrityError MediaTransitionOutcome
unfolding tracked mark_pdf_unavailable_transition
mark_pdf_unavailable w current media now expected_sha256 expected_size reason case_reference =
    tracked w (
      mark_pdf_unavailable_transition current media now expected_sha256 expected_size reason
        case_reference)

-- a size that is not negative and in range
abbrev pub bound_size : Number → Result IntegrityError ℕ
bound_size negative = raised recovery_evidence_incomplete
bound_size (natural n) = require (leb n max_size) recovery_evidence_incomplete >> ok n

-- `bind_unavailable_recovery_evidence` under its decorator
unfoldable pub bind_unavailable_recovery_evidence_transition :
    PdfFile
    → String
    → Option ExpectedSize
    → String
    → String
    → Result IntegrityError MediaTransitionOutcome
unfolding int_of is_media_digest contains is_case_reference bind_evidence strip lower
bind_unavailable_recovery_evidence_transition current expected_sha256 expected_size binding_reason
      case_reference =
    let digest = lower (strip expected_sha256) in
    do
      number ← int_or_raise (int_of expected_size)
      size ← bound_size number
      require
          (is_media_digest digest
            && contains (strip binding_reason) media_quarantine_reasons
            && is_case_reference (strip case_reference))
          recovery_evidence_incomplete
      bind_evidence current digest size (strip binding_reason) (strip case_reference)

unfoldable pub bind_unavailable_recovery_evidence :
    Surroundings
    → PdfFile
    → String
    → Option ExpectedSize
    → String
    → String
    → Result IntegrityError MediaTransitionOutcome
unfolding tracked bind_unavailable_recovery_evidence_transition
bind_unavailable_recovery_evidence w current expected_sha256 expected_size binding_reason
      case_reference =
    tracked w (
      bind_unavailable_recovery_evidence_transition current expected_sha256 expected_size
        binding_reason case_reference)

unfoldable pub restore_pdf : PdfFile → Result IntegrityError MediaTransitionOutcome
restore_pdf current = do
  require (not (is_unavailable current.lifecycle)) needs_verified_restore
  ok (record {
    pdf = record current { lifecycle = uploaded; indexed = false };
    changed = not (is_uploaded current.lifecycle);
    events = [];
  })

-- the lifecycles that may be restored
abbrev pub restorable : Lifecycle → Result IntegrityError Lifecycle
restorable unavailable = raised prior_lifecycle_invalid
restorable intake = raised prior_lifecycle_invalid
restorable lifecycle = ok lifecycle

-- the checks of the media against the stored evidence, twice
unfoldable pub match_media :
    StoredMedia → StoredMedia → String → ℕ → Lifecycle → Result IntegrityError Lifecycle
unfolding verified_local_media_evidence
match_media media final_media digest size prior = do
  (found_digest, found_size) ← verified_local_media_evidence media (some size)
  require (str_eq found_digest digest && found_size == size) media_mismatch
  restored ← restorable prior
  (final_digest, final_size) ← verified_local_media_evidence final_media (some size)
  require (str_eq final_digest found_digest && final_size == found_size) media_changed
  ok restored

abbrev pub evidence_of : Option ℕ → Option Lifecycle → Result IntegrityError (ℕ × Lifecycle)
evidence_of (some size) (some prior) = ok (size, prior)
evidence_of _ _ = raised no_durable_evidence

-- the evidence that a row has to have
abbrev pub durable_evidence : PdfFile → Result IntegrityError (ℕ × Lifecycle)
durable_evidence pdf =
    if nonempty pdf.media_expected_sha256
    then evidence_of pdf.media_expected_size pdf.media_prior_lifecycle
    else raised no_durable_evidence

-- `restore_unavailable_pdf` under its decorator, with the media that its two looks find
unfoldable pub restore_unavailable_pdf_transition :
    PdfFile → StoredMedia → StoredMedia → Result IntegrityError MediaTransitionOutcome
unfolding match_media
restore_unavailable_pdf_transition current media final_media = do
  require (is_unavailable current.lifecycle) only_unavailable
  (size, prior) ← durable_evidence current
  restored ← match_media media final_media current.media_expected_sha256 size prior
  ok (record {
    pdf = record current { lifecycle = restored; indexed = false };
    changed = true;
    events = media_restored restored current.media_expected_sha256 size ∷ [];
  })

unfoldable pub restore_unavailable_pdf :
    Surroundings
    → PdfFile
    → StoredMedia
    → StoredMedia
    → Result IntegrityError MediaTransitionOutcome
unfolding tracked restore_unavailable_pdf_transition
restore_unavailable_pdf w current media final_media =
    tracked w (restore_unavailable_pdf_transition current media final_media)
