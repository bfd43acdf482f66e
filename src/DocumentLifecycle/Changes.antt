-- ===== src/DocumentLifecycle/Changes.antt =====
-- What the calls on a document in flowdocs/core/services/document_lifecycle.py and
-- flowdocs/core/maintenance.py can change.
use pdf_search.Prelude.{
  not_lem, both_true, characters, leb, ℕ, ◌≡◌, refl, sym, ap, inl, inr, String, Option, none, some,
  is_some, Result, ok, raised, bind_ok, require_ok, ok_inj, Bool, true, false, not, ◌&&◌, ◌||◌,
  nonempty, Bool-cases, strip, lower, contains,
}
use pdf_search.Schedule.Parse.{Number, natural, negative}
use pdf_search.DocumentLifecycle.Media.{
  max_size, is_unavailable, is_archived, is_deprecated, cannot_deprecate, only_unavailable,
  needs_verified_restore, Lifecycle, intake, uploaded, processing, ready, deprecated, archived,
  unavailable, PdfFile, IntegrityError, MediaTransitionOutcome, StoredMedia, absent, unapproved,
  regular, verified_local_media_evidence, ExpectedSize, is_quarantine_evidence, quarantine_size,
  natural_size, is_case_reference, media_quarantine_reasons, quarantine_evidence_incomplete,
  recovery_evidence_incomplete, stored_evidence_incomplete, is_media_digest, int_or_raise, int_of,
}
use pdf_search.DocumentLifecycle.Transitions.{
  bound_size, deprecate_pdf, archive_pdf, quarantined, quarantine, require_absent,
  mark_pdf_unavailable_transition, bind_evidence, bind_unavailable_recovery_evidence_transition,
  restore_pdf,
}
use pdf_search.DocumentLifecycle.{
  Reason, superseded, historical_record, source_temporarily_unavailable, hide,
}

-- a digest and a size come together
abbrev pub is_paired : String → Option ℕ → Bool
is_paired digest size =
    (nonempty digest && is_some size) || (not (nonempty digest) && not (is_some size))

-- What may happen to a document, where `media` and `final_media` are what stands at its storage key at the
-- two looks of a call.
pub data Change (media final_media : StoredMedia) (p q : PdfFile) : Type 0 where
  stays : q ≡ p → Change media final_media p q
  leaves_search :
      (l : Lifecycle)
      → is_unavailable p.lifecycle ≡ false
      → is_unavailable l ≡ false
      → q ≡ record p { lifecycle = l; indexed = false }
      → Change media final_media p q
  quarantines :
      (now : ℕ) (digest : String) (size : Option ℕ) (reason case_reference : String)
      → is_unavailable p.lifecycle ≡ false
      → media ≡ absent
      → is_paired digest size ≡ true
      → q ≡ quarantined p now digest size reason case_reference
      → Change media final_media p q
  binds :
      (digest : String) (size : ℕ) (case_reference : String)
      → p.lifecycle ≡ unavailable
      → nonempty p.media_expected_sha256 ≡ false
      → nonempty digest ≡ true
      → q ≡ record p {
        media_expected_sha256 = digest;
        media_expected_size = some size;
        media_case_reference = case_reference;
      }
      → Change media final_media p q
  returns :
      (size : ℕ) (prior : Lifecycle)
      → p.lifecycle ≡ unavailable
      → p.media_expected_size ≡ some size
      → p.media_prior_lifecycle ≡ some prior
      → is_unavailable prior ≡ false
      → media ≡ regular p.media_expected_sha256 size
      → final_media ≡ regular p.media_expected_sha256 size
      → q ≡ record p { lifecycle = prior; indexed = false }
      → Change media final_media p q

pub pdf_inj : {o r : MediaTransitionOutcome} → o ≡ r → r.pdf ≡ o.pdf
pdf_inj e = sym (ap (λ (x : MediaTransitionOutcome). x.pdf) e)

pub hide_lem :
    {media final_media : StoredMedia} (reason : Reason) (p : PdfFile) (o : MediaTransitionOutcome)
    → is_unavailable p.lifecycle ≡ false
    → hide reason p ≡ ok o
    → Change media final_media p o.pdf
unfolding hide deprecate_pdf archive_pdf
hide_lem source_temporarily_unavailable p o free h = stays (pdf_inj (ok_inj h))
hide_lem superseded p o free h = elim (Bool-cases (is_deprecated p.lifecycle)) [
  | inl already ↦ stays (pdf_inj (ok_inj (rw already at h)))
  | inr other ↦ elim (Bool-cases (is_archived p.lifecycle)) [
    | inl is_so ↦
        let bad : Path (Result IntegrityError MediaTransitionOutcome) (raised cannot_deprecate)
            (ok o) =
          rw (other, is_so) at h in
        cc
    | inr fine ↦ leaves_search deprecated free refl (pdf_inj (ok_inj (rw (other, fine) at h)))
  ]
]
hide_lem historical_record p o free h = elim (Bool-cases (is_archived p.lifecycle)) [
  | inl already ↦ stays (pdf_inj (ok_inj (rw already at h)))
  | inr other ↦ leaves_search archived free refl (pdf_inj (ok_inj (rw other at h)))
]

absent_lem :
    (media : StoredMedia)
    → require_absent (verified_local_media_evidence media none) ≡ ok tt
    → media ≡ absent
unfolding verified_local_media_evidence
absent_lem absent h = refl
absent_lem unapproved h = cc
absent_lem (regular digest size) h = cc

quarantine_lem :
    {final_media : StoredMedia} (p : PdfFile) (media : StoredMedia) (now : ℕ) (digest : String)
    (size : Option ℕ) (reason case_reference : String) (o : MediaTransitionOutcome)
    → is_paired digest size ≡ true
    → quarantine p media now digest size reason case_reference ≡ ok o
    → Change media final_media p o.pdf
unfolding quarantine
quarantine_lem p media now digest size reason case_reference o paired h =
    elim (Bool-cases (is_unavailable p.lifecycle)) [
      | inl already ↦ stays (pdf_inj (ok_inj (rw already at h)))
      | inr free ↦
          let (_, gone, rest) =
            bind_ok (require_absent (verified_local_media_evidence media none)) _ (rw free at h) in
          quarantines now digest size reason case_reference free (absent_lem media gone) paired
            (pdf_inj (ok_inj rest))
    ]

both_first : (a b c : Bool) → a && b && c ≡ true → a ≡ true
both_first a b c h = (both_true a b (both_true (a && b) c h).0).0

paired_lem :
    (digest : String) (size : Option Number) (reason case_reference : String)
    → is_quarantine_evidence digest size reason case_reference ≡ true
    → is_paired digest (natural_size size) ≡ true
unfolding is_quarantine_evidence
paired_lem digest none reason case_reference h =
    both_first (is_paired digest none) (contains reason media_quarantine_reasons)
      (is_case_reference case_reference) h
paired_lem digest (some negative) reason case_reference h = cc
paired_lem digest (some (natural n)) reason case_reference h =
    let both =
      both_first (leb n max_size && is_paired digest (some n))
        (contains reason media_quarantine_reasons) (is_case_reference case_reference) h in
    (both_true (leb n max_size) (is_paired digest (some n)) both).1

pub mark_lem :
    {final_media : StoredMedia} (p : PdfFile) (media : StoredMedia) (now : ℕ) (digest : String)
    (size : Option ExpectedSize) (reason case_reference : String) (o : MediaTransitionOutcome)
    → mark_pdf_unavailable_transition p media now digest size reason case_reference ≡ ok o
    → Change media final_media p o.pdf
unfolding mark_pdf_unavailable_transition
mark_lem p media now digest size reason case_reference o h =
    let (n, _, h₁) = bind_ok (quarantine_size (lower (strip digest)) size) _ h in
    let (good, h₂) =
      require_ok
        (is_quarantine_evidence (lower (strip digest)) n (strip reason) (strip case_reference))
        quarantine_evidence_incomplete _ h₁ in
    quarantine_lem p media now (lower (strip digest)) (natural_size n) (strip reason)
      (strip case_reference) o
      (paired_lem (lower (strip digest)) n (strip reason) (strip case_reference) good) h₂

pub unavailable_lem : (l : Lifecycle) → is_unavailable l ≡ true → l ≡ unavailable
unavailable_lem unavailable h = refl
unavailable_lem intake h = cc
unavailable_lem uploaded h = cc
unavailable_lem processing h = cc
unavailable_lem ready h = cc
unavailable_lem deprecated h = cc
unavailable_lem archived h = cc

bind_lem :
    {media final_media : StoredMedia} (p : PdfFile) (digest : String) (size : ℕ)
    (reason case_reference : String) (o : MediaTransitionOutcome)
    → nonempty digest ≡ true
    → bind_evidence p digest size reason case_reference ≡ ok o
    → Change media final_media p o.pdf
unfolding bind_evidence
bind_lem p digest size reason case_reference o given h =
    let (is_so, h₁) = require_ok (is_unavailable p.lifecycle) only_unavailable _ h in
    let (_, h₂) =
      require_ok (is_paired p.media_expected_sha256 p.media_expected_size)
        stored_evidence_incomplete _ h₁ in
    elim (Bool-cases (nonempty p.media_expected_sha256)) [
      | inl bound ↦ stays (pdf_inj (ok_inj (rw bound at h₂)))
      | inr empty ↦
          binds digest size case_reference (unavailable_lem p.lifecycle is_so) empty given
            (pdf_inj (ok_inj (rw empty at h₂)))
    ]

digest_lem : (digest : String) → is_media_digest digest ≡ true → nonempty digest ≡ true
unfolding is_media_digest characters
digest_lem String.[] h = cc
digest_lem (String.◌∷◌ c s) h = refl

pub bind_call_lem :
    {media final_media : StoredMedia} (p : PdfFile) (digest : String) (size : Option ExpectedSize)
    (reason case_reference : String) (o : MediaTransitionOutcome)
    → bind_unavailable_recovery_evidence_transition p digest size reason case_reference ≡ ok o
    → Change media final_media p o.pdf
unfolding bind_unavailable_recovery_evidence_transition
bind_call_lem p digest size reason case_reference o h =
    let (number, _, h₁) = bind_ok (int_or_raise (int_of size)) _ h in
    let (n, _, h₂) = bind_ok (bound_size number) _ h₁ in
    let (good, h₃) =
      require_ok
        (is_media_digest (lower (strip digest))
          && contains (strip reason) media_quarantine_reasons
          && is_case_reference (strip case_reference))
        recovery_evidence_incomplete _ h₂ in
    bind_lem p (lower (strip digest)) n (strip reason) (strip case_reference) o
      (digest_lem (lower (strip digest)) (
        both_first (is_media_digest (lower (strip digest)))
          (contains (strip reason) media_quarantine_reasons)
          (is_case_reference (strip case_reference)) good))
      h₃

pub restore_lem :
    {media final_media : StoredMedia} (p : PdfFile) (o : MediaTransitionOutcome)
    → restore_pdf p ≡ ok o
    → Change media final_media p o.pdf
unfolding restore_pdf
restore_lem p o h =
    let (free, h₁) = require_ok (not (is_unavailable p.lifecycle)) needs_verified_restore _ h in
    leaves_search uploaded (not_lem (is_unavailable p.lifecycle) free) refl (pdf_inj (ok_inj h₁))
