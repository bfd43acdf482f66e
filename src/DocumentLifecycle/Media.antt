-- ===== src/DocumentLifecycle/Media.antt =====
-- The document rows of flowdocs/core/models.py, and the evidence on their media that
-- flowdocs/core/maintenance.py checks.
use pdf_search.Prelude.{
  ℕ, String, Option, none, some, is_some, Result, ok, raised, ◌>>=◌, ◌>>◌, require, if◌then◌else◌,
  Bool, true, false, not, ◌&&◌, ◌||◌, nonempty, leb, ◌==◌, List, [], ◌∷◌, contains, strip, every,
  is_hex, is_id_char, characters,
}
use pdf_search.Schedule.Parse.{Number, natural, negative, parse_int}

-- `PDF_LIFECYCLE_CHOICES`
pub data Lifecycle : Type 0 where
  intake uploaded processing ready deprecated archived unavailable : Lifecycle

-- `lifecycle == "unavailable"` and its like
abbrev pub is_unavailable : Lifecycle → Bool
is_unavailable unavailable = true
is_unavailable _ = false

abbrev pub is_archived : Lifecycle → Bool
is_archived archived = true
is_archived _ = false

abbrev pub is_deprecated : Lifecycle → Bool
is_deprecated deprecated = true
is_deprecated _ = false

abbrev pub is_uploaded : Lifecycle → Bool
is_uploaded uploaded = true
is_uploaded _ = false

-- the columns of `PDFFile` that the transitions read and write; "" in `media_prior_lifecycle` is `none`
pub record PdfFile : Type 0 where
  pub lifecycle : Lifecycle
  pub indexed : Bool
  pub media_prior_lifecycle : Option Lifecycle
  pub media_expected_sha256 : String
  pub media_expected_size : Option ℕ
  pub media_quarantine_reason : String
  pub media_case_reference : String
  pub media_observed_at : Option ℕ
  pub folder_id : Option ℕ
  pub file_name : String

-- `SearchDataIntegrityError`, without the text of the message, `MediaAbsentError`, and the
-- `SnapshotBarrierActive` of the mutation scope that a transition opens
pub data IntegrityError : Type 0 where
  cannot_deprecate size_invalid digest_invalid quarantine_evidence_incomplete media_available
        recovery_evidence_incomplete only_unavailable stored_evidence_incomplete
        needs_verified_restore no_durable_evidence media_unverified media_size_mismatch
        media_mismatch prior_lifecycle_invalid media_changed media_absent outer_atomic_unsupported
        scope_refused :
      IntegrityError

-- the audit events, with the fields of their payload that are not those of the row before
pub data MediaEvent : Type 0 where
  media_unavailable : Lifecycle → String → Option ℕ → String → String → ℕ → MediaEvent
  media_evidence_bound : String → ℕ → String → String → MediaEvent
  media_restored : Lifecycle → String → ℕ → MediaEvent

-- `MediaTransitionOutcome`, with the audit events that the transaction adds
pub record MediaTransitionOutcome : Type 0 where
  pub pdf : PdfFile
  pub changed : Bool
  pub events : List MediaEvent

-- What stands at the storage key of a document: nothing, an entry that is not one stable regular file of an
-- approved size, or such a file with the digest and the size of its bytes.
pub data StoredMedia : Type 0 where
  absent unapproved : StoredMedia
  regular : String → ℕ → StoredMedia

-- `_verified_local_media_evidence`
unfoldable pub verified_local_media_evidence :
    StoredMedia → Option ℕ → Result IntegrityError (String × ℕ)
verified_local_media_evidence absent expected = raised media_absent
verified_local_media_evidence unapproved expected = raised media_unverified
verified_local_media_evidence (regular digest size) none = ok (digest, size)
verified_local_media_evidence (regular digest size) (some expected) =
    require (size == expected) media_size_mismatch >> ok (digest, size)

-- `MEDIA_QUARANTINE_REASONS`
abbrev pub media_quarantine_reasons : List String
media_quarantine_reasons =
    "missing_after_inventory" ∷ "custody_restore_pending" ∷ "source_recovery_case" ∷ []

-- `2**63 - 1`
abbrev pub max_size : ℕ
max_size = 9223372036854775807

-- a case reference of 1 to 80 letters, digits, dots, underscores and dashes
unfoldable pub is_case_reference : String → Bool
unfolding every is_id_char characters
is_case_reference text = nonempty text && leb (characters text) 80 && every is_id_char text

-- 64 lower-case hexadecimal digits
unfoldable pub is_media_digest : String → Bool
unfolding every is_hex characters
is_media_digest text = characters text == 64 && every is_hex text

-- the argument `expected_size`: an `int` that is not negative, or a text
pub data ExpectedSize : Type 0 where
  count : ℕ → ExpectedSize
  written : String → ExpectedSize

-- `int(expected_size)`
unfoldable pub int_of : Option ExpectedSize → Option Number
unfolding parse_int
int_of none = none
int_of (some (count n)) = some (natural n)
int_of (some (written t)) = parse_int t

-- `bool(str(expected_size or "").strip())`
unfoldable is_given : Option ExpectedSize → Bool
unfolding strip
is_given none = false
is_given (some (count n)) = not (n == 0)
is_given (some (written t)) = nonempty (strip t)

-- `size is None or 0 <= size <= 2**63 - 1`
abbrev size_in_range : Option Number → Bool
size_in_range none = true
size_in_range (some negative) = false
size_in_range (some (natural n)) = leb n max_size

-- a size in range
abbrev pub natural_size : Option Number → Option ℕ
natural_size (some (natural n)) = some n
natural_size _ = none

-- `int(expected_size)`, or the exception
abbrev pub int_or_raise : Option Number → Result IntegrityError Number
int_or_raise none = raised size_invalid
int_or_raise (some n) = ok n

-- the size of the evidence of a quarantine
unfoldable pub quarantine_size :
    String → Option ExpectedSize → Result IntegrityError (Option Number)
unfolding int_of is_given is_media_digest
quarantine_size digest expected_size =
    if nonempty digest || is_given expected_size
    then (int_or_raise (int_of expected_size) >>= λ size.
        require (is_media_digest digest) digest_invalid >> ok (some size))
    else ok none

-- the conditions of the evidence of a quarantine, negated
unfoldable pub is_quarantine_evidence : String → Option Number → String → String → Bool
unfolding contains is_case_reference
is_quarantine_evidence digest size reason case_reference =
    size_in_range size
    && ((nonempty digest && is_some size) || (not (nonempty digest) && not (is_some size)))
    && contains reason media_quarantine_reasons
    && is_case_reference case_reference
