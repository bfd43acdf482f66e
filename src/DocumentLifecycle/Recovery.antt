-- ===== src/DocumentLifecycle/Recovery.antt =====
-- How documents of flowdocs/core/services/document_lifecycle.py come back.
use mathlib.Core.Path.{subst}
use pdf_search.Prelude.{
  str_eq, eq_refl, ◌==◌, ℕ, ◌≡◌, refl, sym, ap, ◌∙◌, String, Option, none, some, ok, raised, ◌>>=◌,
  true, false, nonempty, [], ◌∷◌, arith,
}
use pdf_search.DocumentLifecycle.Media.{
  verified_local_media_evidence, media_restored, needs_verified_restore, is_archived,
  is_unavailable, Lifecycle, uploaded, unavailable, PdfFile, MediaTransitionOutcome, StoredMedia,
  regular,
}
use pdf_search.DocumentLifecycle.Transitions.{
  Surroundings, admits_scope, tracked, match_media, restorable, deprecate_pdf, archive_pdf,
  quarantined, restore_pdf, restore_unavailable_pdf, restore_unavailable_pdf_transition,
}
use pdf_search.DocumentLifecycle.{
  Actor, actor_can_manage_lifecycle, Evidence, TransitionResult, remove_from_search,
  build_recovery_decision, recover_locked, recover_document,
}
use pdf_search.DocumentLifecycle.Changes.{
  Change, stays, leaves_search, quarantines, binds, returns, is_paired,
}
use pdf_search.DocumentLifecycle.Quarantine.{removed, Step-Change}
use pdf_search.DocumentLifecycle.Histories.{not_both}

-- the document that left the search unavailable was quarantined
quarantined_lem :
    {media final_media : StoredMedia} (p q : PdfFile)
    → Change media final_media p q
    → is_unavailable p.lifecycle ≡ false
    → q.lifecycle ≡ unavailable
    → (now : ℕ) × (digest : String) × (size : Option ℕ) × (reason : String)
      × (case_reference : String) × (is_paired digest size ≡ true)
      × (q ≡ quarantined p now digest size reason case_reference)
quarantined_lem p q (stays same) free out =
    absurd (not_both (sym (ap (λ (x : PdfFile). x.lifecycle) same) ∙ out) free)
quarantined_lem p q (leaves_search l was hidden same) free out =
    absurd (not_both (sym (ap (λ (x : PdfFile). x.lifecycle) same) ∙ out) hidden)
quarantined_lem p q (quarantines now digest size reason case_reference was gone paired same) free
      out =
    (now, digest, size, reason, case_reference, paired, same)
quarantined_lem p q (binds digest size case_reference still empty given same) free out =
    absurd (not_both still free)
quarantined_lem p q (returns size prior still size_is prior_is was first last same) free out =
    absurd (not_both still free)

matched_lem :
    (digest : String) (size : ℕ) (prior : Lifecycle)
    → restorable prior ≡ ok prior
    → match_media (regular digest size) (regular digest size) digest size prior ≡ ok prior
unfolding match_media verified_local_media_evidence
matched_lem digest size prior fine =
    let same : str_eq digest digest ≡ true = eq_refl digest in
    let equal : size == size ≡ true = ground arith in rw (equal, same, fine, equal) refl

restored_lem :
    (p : PdfFile) (now : ℕ) (digest : String) (size : ℕ) (reason case_reference : String)
    → nonempty digest ≡ true
    → restorable p.lifecycle ≡ ok p.lifecycle
    → let q = quarantined p now digest (some size) reason case_reference in
      (o : MediaTransitionOutcome) × (restore_unavailable_pdf_transition q
          (regular digest size)
          (regular digest size)
        ≡ ok o)
      × (o.pdf.lifecycle ≡ p.lifecycle)
      × (o.pdf.indexed ≡ false)
unfolding quarantined restore_unavailable_pdf_transition
restored_lem p now digest size reason case_reference given fine =
    let matched = matched_lem digest size p.lifecycle fine in
    (
      record {
        pdf = record (quarantined p now digest (some size) reason case_reference) {
          lifecycle = p.lifecycle;
          indexed = false;
        };
        changed = true;
        events = media_restored p.lifecycle digest size ∷ [];
      },
      rw (given, matched) refl,
      refl,
      refl,
    )

-- the document can be recovered to this lifecycle, once the bytes of its evidence are back
abbrev IsRecoverable : Surroundings → Option Actor → Lifecycle → PdfFile → Type 0
IsRecoverable w actor l q =
    (size : ℕ) × (q.media_expected_size ≡ some size)
    × ((r : TransitionResult) × (recover_document w actor q q (regular q.media_expected_sha256 size)
            (regular q.media_expected_sha256 size)
          ≡ ok r)
        × (r.outcome.pdf.lifecycle ≡ l)
        × (r.outcome.pdf.indexed ≡ false))

recover_lem :
    (w : Surroundings) (actor : Option Actor) (p : PdfFile) (now : ℕ) (digest : String)
    (size : Option ℕ) (reason case_reference : String)
    → w.in_atomic_block ≡ false
    → admits_scope w ≡ true
    → actor_can_manage_lifecycle actor ≡ true
    → nonempty digest ≡ true
    → is_paired digest size ≡ true
    → restorable p.lifecycle ≡ ok p.lifecycle
    → IsRecoverable w actor p.lifecycle (quarantined p now digest size reason case_reference)
unfolding recover_document build_recovery_decision recover_locked quarantined
    restore_unavailable_pdf tracked
recover_lem w actor p now digest none reason case_reference outside admitted may given paired fine =
    let bad : false ≡ true = rw given at paired in cc
recover_lem w actor p now digest (some size) reason case_reference outside admitted may given paired
      fine =
    let (o, restored, back, unindexed) =
      restored_lem p now digest size reason case_reference given fine in
    (
      size,
      refl,
      (
        record {
          outcome = o;
          source_state = unavailable;
          target_state = o.pdf.lifecycle;
          impact = none;
        },
        rw (may, outside, admitted, restored) refl,
        back,
        unindexed,
      ),
    )

-- Quarantine and recovery are a round trip: a document with a digest and a size as evidence that
-- `remove_from_search` made unavailable, for an actor who may, is recovered by that actor once its media has
-- the bytes of the evidence again, with the lifecycle that it had and without its index mark, where that
-- lifecycle was neither intake nor unavailable, the recovery is called outside of any atomic block, and no
-- snapshot barrier refuses it a mutation scope.
pub quarantine_roundtrip :
    (w later : Surroundings) (actor : Option Actor) (reason_code : String) (current p : PdfFile)
    (media : StoredMedia) (now : ℕ) (evidence : Evidence) (r : TransitionResult)
    → remove_from_search w actor reason_code current p media now evidence ≡ ok r
    → later.in_atomic_block ≡ false
    → admits_scope later ≡ true
    → actor_can_manage_lifecycle actor ≡ true
    → is_unavailable p.lifecycle ≡ false
    → restorable p.lifecycle ≡ ok p.lifecycle
    → r.outcome.pdf.lifecycle ≡ unavailable
    → nonempty r.outcome.pdf.media_expected_sha256 ≡ true
    → let q = r.outcome.pdf in
      (size : ℕ) × (q.media_expected_size ≡ some size)
      × ((back : TransitionResult) × (recover_document later actor q q
              (regular q.media_expected_sha256 size)
              (regular q.media_expected_sha256 size)
            ≡ ok back)
          × (back.outcome.pdf.lifecycle ≡ p.lifecycle)
          × (back.outcome.pdf.indexed ≡ false))
unfolding quarantined
quarantine_roundtrip w later actor reason_code current p media now evidence r h outside admitted may
      free fine out given =
    let change =
      Step-Change media media p r.outcome.pdf
        (removed w actor reason_code current now evidence r h refl) in
    let (at, digest, size, reason, case_reference, paired, same) =
      quarantined_lem p r.outcome.pdf change free out in
    subst (IsRecoverable later actor p.lifecycle) (sym same) (
      recover_lem later actor p at digest size reason case_reference outside admitted may
        (sym (ap (λ (x : PdfFile). nonempty x.media_expected_sha256) same) ∙ given) paired fine)

-- An unavailable document leaves its quarantine without any look at its media, if `archive_pdf` or
-- `deprecate_pdf` is called on it and `restore_pdf` then: it is uploaded, which the search may show.
pub archived_escapes :
    (p : PdfFile)
    → p.lifecycle ≡ unavailable
    → (o : MediaTransitionOutcome) × (restore_pdf (archive_pdf p) ≡ ok o)
      × ((deprecate_pdf p >>= restore_pdf) ≡ ok o)
      × (o.pdf.lifecycle ≡ uploaded)
      × (restore_pdf p ≡ raised needs_verified_restore)
unfolding restore_pdf archive_pdf deprecate_pdf
archived_escapes p at =
    let out = ap is_unavailable at in
    let not_archived : is_archived p.lifecycle ≡ false = ap is_archived at in
    (
      record {
        pdf = record p { lifecycle = uploaded; indexed = false };
        changed = true;
        events = [];
      },
      refl,
      rw not_archived refl,
      refl,
      rw out refl,
    )
