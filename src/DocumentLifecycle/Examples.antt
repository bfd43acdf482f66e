-- ===== src/DocumentLifecycle/Examples.antt =====
-- The theorems on the lifecycle of documents at a concrete document.
use pdf_search.Prelude.{
  ℕ, ◌≡◌, refl, ◌⊎◌, String, Option, none, some, ok, raised, ◌>>=◌, true, false, nonempty, [], ◌∷◌,
}
use pdf_search.DocumentLifecycle.Media.{
  ready, uploaded, unavailable, needs_verified_restore, PdfFile, MediaTransitionOutcome, absent,
  regular, written, media_unavailable, media_restored,
}
use pdf_search.DocumentLifecycle.Transitions.{
  Surroundings, admits_scope, archive_pdf, deprecate_pdf, restore_pdf,
}
use pdf_search.Vault.Barrier.{open_barrier}
use pdf_search.DocumentLifecycle.{
  actor_can_manage_lifecycle, is_ordinary, source_temporarily_unavailable, Actor, Evidence,
  TransitionResult, remove_from_search, recover_document,
}
use pdf_search.DocumentLifecycle.Changes.{Change}
use pdf_search.DocumentLifecycle.Quarantine.{Step, removed, recovered, Step-Change}
use pdf_search.DocumentLifecycle.Histories.{IsSound, unavailable_needs_media}
use pdf_search.DocumentLifecycle.Recovery.{quarantine_roundtrip, archived_escapes}

abbrev digest : String
digest = "00112233445566778899aabbccddeeff00112233445566778899aabbccddeeff"

abbrev admin : Option Actor
admin = some (record { is_authenticated = true; role = "admin" })

abbrev evidence : Evidence
evidence = record {
  quarantine_reason = "custody_restore_pending";
  case_reference = " case-7";
  expected_sha256 = digest;
  expected_size = some (written "42");
}

may_run : actor_can_manage_lifecycle admin ≡ true
unfolding actor_can_manage_lifecycle
may_run = refl

-- a call outside of any block, while no barrier is up
abbrev calm : Surroundings
calm = record {
  in_atomic_block = false;
  tracking_enabled = true;
  in_scope = false;
  control = record {
    current_epoch = 0;
    active_mutations = 0;
    barrier_state = open_barrier;
    barrier_owner_job = none;
    barrier_requested_at = none;
    barrier_activated_at = none;
    last_mutation_at = none;
  };
}

calm_run : admits_scope calm ≡ true
unfolding admits_scope
calm_run = refl

abbrev document : PdfFile
document = record {
  lifecycle = ready;
  indexed = true;
  media_prior_lifecycle = none;
  media_expected_sha256 = "";
  media_expected_size = none;
  media_quarantine_reason = "";
  media_case_reference = "";
  media_observed_at = none;
  folder_id = some 3;
  file_name = "pdfs/a.pdf";
}

abbrev hidden : PdfFile
hidden = record {
  lifecycle = unavailable;
  indexed = false;
  media_prior_lifecycle = some ready;
  media_expected_sha256 = digest;
  media_expected_size = some 42;
  media_quarantine_reason = "custody_restore_pending";
  media_case_reference = "case-7";
  media_observed_at = some 100;
  folder_id = some 3;
  file_name = "pdfs/a.pdf";
}

abbrev removal : TransitionResult
removal = record {
  outcome = record {
    pdf = hidden;
    changed = true;
    events = media_unavailable ready digest (some 42) "case-7" "custody_restore_pending" 100 ∷ [];
  };
  source_state = ready;
  target_state = unavailable;
  impact = some (record {
    reason_code = source_temporarily_unavailable;
    source_state = ready;
    file_reference_present = true;
    index_marked_before = true;
    folder_index_rebuild_required = true;
    search_visible_before = true;
  });
}

removal_run :
    remove_from_search calm admin "source_temporarily_unavailable" document document absent 100
      evidence
    ≡ ok removal
unfolding remove_from_search
removal_run = refl

hiding : Step absent absent document hidden
hiding =
    removed calm admin "source_temporarily_unavailable" document 100 evidence removal removal_run
      refl

abbrev back : PdfFile
back = record hidden { lifecycle = ready }

abbrev return : TransitionResult
return = record {
  outcome = record { pdf = back; changed = true; events = media_restored ready digest 42 ∷ [] };
  source_state = unavailable;
  target_state = ready;
  impact = none;
}

return_run :
    recover_document calm admin hidden hidden (regular digest 42) (regular digest 42) ≡ ok return
unfolding recover_document
return_run = refl

returning : Step (regular digest 42) (regular digest 42) hidden back
returning = recovered calm admin hidden return return_run refl

Step-Change_example : Change absent absent document hidden
Step-Change_example = Step-Change absent absent document hidden hiding

unavailable_needs_media_example :
    ((back.lifecycle ≡ unavailable)
      × (back.media_prior_lifecycle ≡ hidden.media_prior_lifecycle)
      × (nonempty digest ≡ true
          → (back.media_expected_sha256 ≡ digest)
            × (back.media_expected_size ≡ hidden.media_expected_size)))
    ⊎ ((hidden.media_prior_lifecycle ≡ some ready)
        × (back.indexed ≡ false)
        × ((size : ℕ) × (hidden.media_expected_size ≡ some size)
            × (regular digest 42 ≡ regular digest size)
            × (regular digest 42 ≡ regular digest size)))
unavailable_needs_media_example =
    unavailable_needs_media (regular digest 42) (regular digest 42) hidden back returning refl

document-IsSound : IsSound document
unfolding is_ordinary
document-IsSound = record { hidden_unindexed = λ h. cc; paired = refl; prior_known = λ e. cc }

quarantine_roundtrip_example :
    (size : ℕ) × (some 42 ≡ some size)
    × ((r : TransitionResult) × (recover_document calm admin hidden hidden
            (regular digest size)
            (regular digest size)
          ≡ ok r)
        × (r.outcome.pdf.lifecycle ≡ ready)
        × (r.outcome.pdf.indexed ≡ false))
quarantine_roundtrip_example =
    quarantine_roundtrip calm calm admin "source_temporarily_unavailable" document document absent
      100 evidence removal removal_run refl calm_run may_run refl refl refl refl

archived_escapes_example :
    (o : MediaTransitionOutcome) × (restore_pdf (archive_pdf hidden) ≡ ok o)
    × ((deprecate_pdf hidden >>= restore_pdf) ≡ ok o)
    × (o.pdf.lifecycle ≡ uploaded)
    × (restore_pdf hidden ≡ raised needs_verified_restore)
archived_escapes_example = archived_escapes hidden refl
