-- ===== src/Vault/Barrier/Examples.antt =====
-- A snapshot of job 5 that another job cannot release, and the journal of one upload.
use pdf_search.Prelude.{◌≡◌, refl, inl, inr, none, some, [], ◌∷◌, true, false, ok, arith, length}
use pdf_search.Vault.Barrier.{
  MutationState, Mutation, open_barrier, requested, active, enter_scope, leave_scope,
  release_barrier, cleanup_owner_is_quiesced, request_barrier, journal_since,
}
use pdf_search.Vault.Job.{Job}
use pdf_search.Vault.States.{running, retryable_failed}
use pdf_search.Vault.Barrier.System.{System}
use pdf_search.Vault.Barrier.System
use pdf_search.Vault.Barrier.Snapshot.{IsSound, frozen_while_held, Grants, request_barrier-Grants}
use pdf_search.Vault.Barrier.Journal.{journal_since_complete}

abbrev idle_row : MutationState
idle_row = record {
  current_epoch = 0;
  active_mutations = 0;
  barrier_state = open_barrier;
  barrier_owner_job = none;
  barrier_requested_at = none;
  barrier_activated_at = none;
  last_mutation_at = none;
}

abbrev held_row : MutationState
held_row = record idle_row {
  barrier_state = active;
  barrier_owner_job = some 5;
  barrier_requested_at = some 1;
  barrier_activated_at = some 2;
}

abbrev held : System
held = record { row = held_row; journal = []; open_scopes = 0 }

-- job 6 releases a barrier that it does not own, and tolerates that
stranger_release : release_barrier 6 true held_row ≡ ok (held_row, false)
unfolding release_barrier
stranger_release = refl

held-IsSound : IsSound held
held-IsSound = record { counted = refl; quiet = λ e. refl }

-- the row of job 5 while it runs
abbrev running_job : Job
running_job = record {
  public_id = 5;
  operation = "sync_publish";
  phase = "copying";
  status = running;
  progress = "";
  claim_token_hash = "hash";
  claimed_by = "alpha";
  fencing_epoch = 1;
  heartbeat_at = some 90;
  correlation_id = 1;
  cancellation_requested_at = none;
  safe_error_code = "";
  retry_count = 0;
  state_version = 2;
  requested_by_id = none;
  requested_by_name = "";
  started_at = some 1;
  finished_at = none;
}

busy : System.IsLive 300 120 running_job
busy = System.owned (inr (inl refl))

-- job 5 has failed and is not heard of any more
abbrev failed_job : Job
failed_job = record running_job { status = retryable_failed; claim_token_hash = "" }

-- a failed job loses its barrier to the cleanup of its snapshot
reclaimed : cleanup_owner_is_quiesced 300 120 failed_job held_row ≡ (true, idle_row)
unfolding cleanup_owner_is_quiesced
reclaimed = refl

frozen_while_held_example :
    record held { row = (cleanup_owner_is_quiesced 300 120 running_job held_row).1 } ≡ held
frozen_while_held_example =
    frozen_while_held 5 {s = held}
      {t = record held { row = (cleanup_owner_is_quiesced 300 120 running_job held_row).1 }}
      held-IsSound (refl, refl)
      (System.OthersReach.next
        (System.OthersReach.next System.OthersReach.here (λ e. ground arith)
          (System.Step.release 6 true false refl stranger_release))
        (λ e. busy) (System.Step.clean 300 120 running_job refl))

request_barrier-Grants_example :
    Grants 5
      (request_barrier true 5 1 idle_row ([]) (record held_row { barrier_state = requested }))
request_barrier-Grants_example =
    request_barrier-Grants 5 1 idle_row [] (record held_row { barrier_state = requested })

abbrev calm : System
calm = record { row = idle_row; journal = []; open_scopes = 0 }

abbrev upload : Mutation
upload = record {
  category = "media";
  relative_path = "a.pdf";
  operation = "write";
  correlation_id = 9;
}

abbrev busy_row : MutationState
busy_row = record idle_row { active_mutations = 1 }

entered : enter_scope idle_row ≡ ok busy_row
unfolding enter_scope
entered = refl

abbrev uploaded : System
uploaded = record {
  row = record idle_row { current_epoch = 1; last_mutation_at = some 4 };
  journal =
      record {
        epoch = 1;
        category = "media";
        relative_path = "a.pdf";
        operation = "write";
        correlation_id = 9;
        observed_at = 4;
      }
      ∷ [];
  open_scopes = 0;
}

upload_run : System.Reach calm uploaded
unfolding leave_scope
upload_run =
    System.Reach.next (System.Reach.next System.Reach.here (System.Step.enter refl entered))
      (System.Step.leave upload (record { changed = true; discarded = false }) 4 0 refl refl)

journal_since_complete_example : length (journal_since 0 uploaded.journal) ≡ 1
journal_since_complete_example = journal_since_complete 0 {s = calm} {t = uploaded} refl upload_run
