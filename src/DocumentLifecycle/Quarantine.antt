-- ===== src/DocumentLifecycle/Quarantine.antt =====
-- The calls on a document in flowdocs/core/services/document_lifecycle.py and flowdocs/core/maintenance.py,
-- one after the other, and the media that an unavailable document needs to return.
use mathlib.Core.Path.{subst}
use pdf_search.Prelude.{
  ℕ, ◌≡◌, refl, sym, ap, String, Option, Result, ok, raised, bind_ok, require, require_ok, ok_inj,
  ◌>>◌, not, Bool, true, false,
}
use pdf_search.DocumentLifecycle.Media.{
  intake, processing, ready, is_unavailable, Lifecycle, deprecated, archived, uploaded, unavailable,
  outer_atomic_unsupported, scope_refused, PdfFile, IntegrityError, MediaTransitionOutcome,
  StoredMedia, ExpectedSize,
}
use pdf_search.DocumentLifecycle.Transitions.{
  Surroundings, admits_scope, tracked, bind_unavailable_recovery_evidence, restore_pdf,
  restore_unavailable_pdf, mark_pdf_unavailable,
}
use pdf_search.DocumentLifecycle.{
  lifecycle_permission_denied, invalid_source_state, Reason, superseded, historical_record,
  source_temporarily_unavailable, is_allowed_source, is_ordinary, Actor, actor_can_manage_lifecycle,
  get_lifecycle_policy, Evidence, coerce_unavailability_evidence, build_impact_preview,
  TransitionResult, from_transition, hide, remove_locked, remove_unavailable, remove_from_search,
  RecoveryDecision, restore_to_uploaded, verified_media_restore, build_recovery_decision,
  recover_locked, recover_document,
}
use pdf_search.DocumentLifecycle.Changes.{Change, hide_lem, mark_lem, bind_call_lem, restore_lem}
use pdf_search.DocumentLifecycle.Looks.{verified_lem}

-- a call of the service, or the binding of evidence, on the row `p` that it locks, which returns and leaves
-- the row `q`
pub data Step (media final_media : StoredMedia) (p q : PdfFile) : Type 0 where
  removed :
      (w : Surroundings) (actor : Option Actor) (reason_code : String) (current : PdfFile) (now : ℕ)
      (evidence : Evidence) (r : TransitionResult)
      → remove_from_search w actor reason_code current p media now evidence ≡ ok r
      → q ≡ r.outcome.pdf
      → Step media final_media p q
  recovered :
      (w : Surroundings) (actor : Option Actor) (current : PdfFile) (r : TransitionResult)
      → recover_document w actor current p media final_media ≡ ok r
      → q ≡ r.outcome.pdf
      → Step media final_media p q
  bound :
      (w : Surroundings) (digest : String) (size : Option ExpectedSize)
      (reason case_reference : String) (o : MediaTransitionOutcome)
      → bind_unavailable_recovery_evidence w p digest size reason case_reference ≡ ok o
      → q ≡ o.pdf
      → Step media final_media p q

transition_lem :
    (m : Result IntegrityError MediaTransitionOutcome) (o : MediaTransitionOutcome)
    → from_transition m ≡ ok o
    → m ≡ ok o
transition_lem (ok r) o h = ap ok (ok_inj h)
transition_lem (raised e) o h = cc

superseded_free : (l : Lifecycle) → is_allowed_source superseded l ≡ true → is_unavailable l ≡ false
unfolding is_allowed_source is_ordinary
superseded_free unavailable h = cc
superseded_free intake h = refl
superseded_free uploaded h = refl
superseded_free processing h = refl
superseded_free ready h = refl
superseded_free deprecated h = refl
superseded_free archived h = refl

historical_free :
    (l : Lifecycle) → is_allowed_source historical_record l ≡ true → is_unavailable l ≡ false
unfolding is_allowed_source is_ordinary
historical_free unavailable h = cc
historical_free intake h = refl
historical_free uploaded h = refl
historical_free processing h = refl
historical_free ready h = refl
historical_free deprecated h = refl
historical_free archived h = refl

-- a decorated transition that returns is the transition
tracked_lem :
    (w : Surroundings) (m : Result IntegrityError MediaTransitionOutcome)
    (o : MediaTransitionOutcome)
    → tracked w m ≡ ok o
    → m ≡ ok o
unfolding tracked
tracked_lem w m o h = after_both (not w.in_atomic_block) (admits_scope w) h
  where
    after_both :
        (a b : Bool)
        → (require a outer_atomic_unsupported >> require b scope_refused >> m) ≡ ok o
        → m ≡ ok o
    after_both true true h = h
    after_both true false h = cc
    after_both false b h = cc

abbrev pdf_of : TransitionResult → PdfFile
pdf_of r = r.outcome.pdf

locked_lem :
    {media final_media : StoredMedia} (p : PdfFile) (reason : Reason) (r : TransitionResult)
    → ((l : Lifecycle) → is_allowed_source reason l ≡ true → is_unavailable l ≡ false)
    → remove_locked p reason ≡ ok r
    → Change media final_media p r.outcome.pdf
unfolding remove_locked build_impact_preview
locked_lem {media} {final_media} p reason r free h =
    let (impact, seen, h₁) = bind_ok (build_impact_preview p reason) _ h in
    let (o, hidden, h₂) = bind_ok (from_transition (hide reason p)) _ h₁ in
    let (allowed, _) =
      require_ok (is_allowed_source reason p.lifecycle) invalid_source_state _ seen in
    subst (Change media final_media p) (ap pdf_of (ok_inj h₂))
      (hide_lem reason p o (free p.lifecycle allowed) (transition_lem (hide reason p) o hidden))

unavailable_call_lem :
    {final_media : StoredMedia} (w : Surroundings) (current p : PdfFile) (media : StoredMedia)
    (now : ℕ) (evidence : Evidence) (r : TransitionResult)
    → remove_unavailable w current p media now evidence ≡ ok r
    → Change media final_media p r.outcome.pdf
unfolding remove_unavailable mark_pdf_unavailable
unavailable_call_lem {final_media} w current p media now evidence r h =
    let (e, _, h₁) = bind_ok (coerce_unavailability_evidence evidence) _ h in
    let (_, _, h₂) = bind_ok (build_impact_preview current source_temporarily_unavailable) _ h₁ in
    let (o, marked, h₃) =
      bind_ok
        (from_transition (
          mark_pdf_unavailable w p media now e.expected_sha256 e.expected_size e.quarantine_reason
            e.case_reference))
        _ h₂ in
    subst (Change media final_media p) (ap pdf_of (ok_inj h₃)) (
      mark_lem p media now e.expected_sha256 e.expected_size e.quarantine_reason e.case_reference o
        (tracked_lem w _ o (transition_lem _ o marked)))

recover_lem :
    {media final_media : StoredMedia} (w : Surroundings) (decision : RecoveryDecision) (p : PdfFile)
    (r : TransitionResult)
    → recover_locked w decision p media final_media ≡ ok r
    → Change media final_media p r.outcome.pdf
unfolding recover_locked restore_unavailable_pdf
recover_lem {media} {final_media} w (verified_media_restore target has_evidence) p r h =
    let (o, restored, h₁) =
      bind_ok (from_transition (restore_unavailable_pdf w p media final_media)) _ h in
    subst (Change media final_media p) (ap pdf_of (ok_inj h₁)) (
      verified_lem p media final_media o (
        tracked_lem w _ o
          (transition_lem (restore_unavailable_pdf w p media final_media) o restored)))
recover_lem {media} {final_media} w restore_to_uploaded p r h =
    let (_, _, h₁) = bind_ok (build_recovery_decision p) _ h in
    let (o, restored, h₂) = bind_ok (from_transition (restore_pdf p)) _ h₁ in
    subst (Change media final_media p) (ap pdf_of (ok_inj h₂))
      (restore_lem p o (transition_lem (restore_pdf p) o restored))

remove_lem :
    {final_media : StoredMedia} (w : Surroundings) (actor : Option Actor) (reason_code : String)
    (current p : PdfFile) (media : StoredMedia) (now : ℕ) (evidence : Evidence)
    (r : TransitionResult)
    → remove_from_search w actor reason_code current p media now evidence ≡ ok r
    → Change media final_media p r.outcome.pdf
unfolding remove_from_search
remove_lem {final_media} w actor reason_code current p media now evidence r h =
    let (_, h₁) = require_ok (actor_can_manage_lifecycle actor) lifecycle_permission_denied _ h in
    let (reason, _, h₂) = bind_ok (get_lifecycle_policy reason_code) _ h₁ in go reason h₂
  where
    go :
        (reason : Reason)
        → (elim reason [
          | source_temporarily_unavailable ↦ remove_unavailable w current p media now evidence
          | superseded ↦ remove_locked p superseded
          | historical_record ↦ remove_locked p historical_record
        ])
          ≡ ok r
        → Change media final_media p r.outcome.pdf
    go source_temporarily_unavailable h₁ = unavailable_call_lem w current p media now evidence r h₁
    go superseded h₁ = locked_lem p superseded r superseded_free h₁
    go historical_record h₁ = locked_lem p historical_record r historical_free h₁

-- Every call of `remove_from_search`, `recover_document` or `bind_unavailable_recovery_evidence` that
-- returns refines one of five changes of the row that it locks: nothing, the move of an available document
-- to another available lifecycle without its index mark, the quarantine of an available document whose
-- media is absent, with a digest and a size or neither, the first binding of a digest and a size to an
-- unavailable document, or its return to its prior lifecycle when both looks find exactly these bytes.
pub Step-Change :
    (media final_media : StoredMedia) (p q : PdfFile)
    → Step media final_media p q
    → Change media final_media p q
unfolding recover_document bind_unavailable_recovery_evidence
Step-Change media final_media p q (removed w actor reason_code current now evidence r h same) =
    subst (Change media final_media p) (sym same)
      (remove_lem w actor reason_code current p media now evidence r h)
Step-Change media final_media p q (recovered w actor current r h same) =
    let (_, h₁) = require_ok (actor_can_manage_lifecycle actor) lifecycle_permission_denied _ h in
    let (decision, _, h₂) = bind_ok (build_recovery_decision current) _ h₁ in
    subst (Change media final_media p) (sym same) (recover_lem w decision p r h₂)
Step-Change media final_media p q (bound w digest size reason case_reference o h same) =
    subst (Change media final_media p) (sym same)
      (bind_call_lem p digest size reason case_reference o (tracked_lem w _ o h))
