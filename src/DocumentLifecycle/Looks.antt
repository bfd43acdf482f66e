-- ===== src/DocumentLifecycle/Looks.antt =====
-- What the verified restore of flowdocs/core/maintenance.py saw of the media.
use pdf_search.Prelude.{
  both_true, ℕ, ◌≡◌, refl, sym, ap, ◌∙◌, inl, inr, String, str_eq, eq_iff, Option, none, some,
  Result, ok, raised, bind_ok, require_ok, ok_inj, false, ◌&&◌, nonempty, ◌==◌, Bool-cases, arith,
}
use pdf_search.DocumentLifecycle.Media.{
  media_size_mismatch, is_unavailable, only_unavailable, no_durable_evidence, Lifecycle, intake,
  uploaded, processing, ready, deprecated, archived, unavailable, PdfFile, IntegrityError,
  MediaTransitionOutcome, StoredMedia, absent, unapproved, regular, verified_local_media_evidence,
  media_mismatch, media_changed,
}
use pdf_search.DocumentLifecycle.Transitions.{
  evidence_of, restorable, durable_evidence, match_media, restore_unavailable_pdf_transition,
}
use pdf_search.DocumentLifecycle.Changes.{Change, returns, pdf_inj, unavailable_lem}

-- what the two looks at the media found
found_lem :
    (media : StoredMedia) (expected : ℕ) (digest : String) (size : ℕ)
    → verified_local_media_evidence media (some expected) ≡ ok (digest, size)
    → media ≡ regular digest expected
unfolding verified_local_media_evidence
found_lem absent expected digest size h = cc
found_lem unapproved expected digest size h = cc
found_lem (regular d n) expected digest size h =
    let (same, rest) = require_ok (n == expected) media_size_mismatch _ h in
    let pair = ok_inj rest in
    ap (λ x. regular x n) (ap (λ x. x.0) pair) ∙ ap (regular digest) (ground arith)

restorable_lem :
    (l restored : Lifecycle)
    → restorable l ≡ ok restored
    → (restored ≡ l) × (is_unavailable l ≡ false)
restorable_lem unavailable restored h = cc
restorable_lem intake restored h = cc
restorable_lem uploaded restored h = (sym (ok_inj h), refl)
restorable_lem processing restored h = (sym (ok_inj h), refl)
restorable_lem ready restored h = (sym (ok_inj h), refl)
restorable_lem deprecated restored h = (sym (ok_inj h), refl)
restorable_lem archived restored h = (sym (ok_inj h), refl)

match_lem :
    (media final_media : StoredMedia) (digest : String) (size : ℕ) (prior restored : Lifecycle)
    → match_media media final_media digest size prior ≡ ok restored
    → (media ≡ regular digest size)
      × (final_media ≡ regular digest size)
      × (restored ≡ prior)
      × (is_unavailable prior ≡ false)
unfolding match_media
match_lem media final_media digest size prior restored h =
    let ((d, n), found, h₁) = bind_ok (verified_local_media_evidence media (some size)) _ h in
    let (same, h₂) = require_ok (str_eq d digest && n == size) media_mismatch _ h₁ in
    let (l, is_so, h₃) = bind_ok (restorable prior) _ h₂ in
    let ((d', n'), again, h₄) =
      bind_ok (verified_local_media_evidence final_media (some size)) _ h₃ in
    let (stable, h₅) = require_ok (str_eq d' d && n' == n) media_changed _ h₄ in
    let digest_is = (eq_iff d digest).0 (both_true (str_eq d digest) (n == size) same).0 in
    let digest_stays = (eq_iff d' d).0 (both_true (str_eq d' d) (n' == n) stable).0 in
    let (restored_is, free) = restorable_lem prior l is_so in
    (
      found_lem media size d n found ∙ ap (λ x. regular x size) digest_is,
      found_lem final_media size d' n' again ∙ ap (λ x. regular x size) (digest_stays ∙ digest_is),
      sym (ok_inj h₅) ∙ restored_is,
      free,
    )

durable_lem :
    (p : PdfFile) (size : ℕ) (prior : Lifecycle)
    → durable_evidence p ≡ ok (size, prior)
    → (p.media_expected_size ≡ some size) × (p.media_prior_lifecycle ≡ some prior)
durable_lem p size prior h = elim (Bool-cases (nonempty p.media_expected_sha256)) [
  | inr empty ↦
      let bad : Path (Result IntegrityError (ℕ × Lifecycle)) (raised no_durable_evidence)
          (ok (size, prior)) =
        rw empty at h in
      cc
  | inl given ↦ go p.media_expected_size p.media_prior_lifecycle (rw given at h)
]
  where
    go :
        (s : Option ℕ) (l : Option Lifecycle)
        → evidence_of s l ≡ ok (size, prior)
        → (s ≡ some size) × (l ≡ some prior)
    go none none e = cc
    go none (some k) e = cc
    go (some n) none e = cc
    go (some n) (some k) e =
        (ap some (ap (λ x. x.0) (ok_inj e)), ap some (ap (λ x. x.1) (ok_inj e)))

pub verified_lem :
    (p : PdfFile) (media final_media : StoredMedia) (o : MediaTransitionOutcome)
    → restore_unavailable_pdf_transition p media final_media ≡ ok o
    → Change media final_media p o.pdf
unfolding restore_unavailable_pdf_transition
verified_lem p media final_media o h =
    let (is_so, h₁) = require_ok (is_unavailable p.lifecycle) only_unavailable _ h in
    let ((size, prior), durable, h₂) = bind_ok (durable_evidence p) _ h₁ in
    let (restored, matched, h₃) =
      bind_ok (match_media media final_media p.media_expected_sha256 size prior) _ h₂ in
    let (size_is, prior_is) = durable_lem p size prior durable in
    let (first, last, same, free) =
      match_lem media final_media p.media_expected_sha256 size prior restored matched in
    returns size prior (unavailable_lem p.lifecycle is_so) size_is prior_is free first last
      (pdf_inj (ok_inj h₃) ∙ ap (λ l. record p { lifecycle = l; indexed = false }) same)
