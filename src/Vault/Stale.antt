-- ===== src/Vault/Stale.antt =====
-- flowdocs/vaultops/services/jobs.py: `recover_stale_jobs`.
use pdf_search.Prelude.{
  ℕ, ◌+◌, ◌-◌, Option, none, some, List, [], ◌∷◌, ◌++◌, Result, ok, raised, ◌>>◌, if◌then◌else◌,
  Bool, true, false, not, ◌&&◌, ltb, map,
}
use pdf_search.Vault.Audit.{AuditEvent, text, number}
use pdf_search.Vault.States.{JobStatus, job_value, claimed, running, waiting, stale}
use pdf_search.Vault.Job.{Job}
use pdf_search.Vault.Transitions.Tables.{Conflict}
use pdf_search.Vault.Jobs.{guard_job, state_field}

-- the statuses of the query in `recover_stale_jobs`
abbrev pub is_recoverable : JobStatus → Bool
is_recoverable claimed = true
is_recoverable running = true
is_recoverable waiting = true
is_recoverable _ = false

-- `heartbeat_at__lt=cutoff`; a missing heartbeat is not below it
abbrev pub beat_before : ℕ → Option ℕ → Bool
beat_before cutoff none = false
beat_before cutoff (some t) = ltb t cutoff

-- the body of the loop of `recover_stale_jobs` on one locked row, with the recovered id
unfoldable pub recover_stale_job :
    ℕ → Job → Result (Conflict JobStatus) (Job × List AuditEvent × List ℕ)
recover_stale_job cutoff job =
    if not (beat_before cutoff job.heartbeat_at)
    then ok (job, [], [])
    else (guard_job job stale "job_not_recoverable"
        >> ok (
          record job {
            status = stale;
            claim_token_hash = "";
            claimed_by = "";
            state_version = job.state_version + 1;
            safe_error_code = "worker_heartbeat_expired";
          },
          record {
            action = "job_marked_stale";
            result = "succeeded";
            correlation_id = job.correlation_id;
            actor_id = none;
            actor_name = "";
            job_public_id = some job.public_id;
            reason_code = "";
            before_state = state_field job.status;
            after_state =
                ("job_state", text (job_value stale))
                ∷ ("fencing_epoch", number job.fencing_epoch)
                ∷ [];
            safe_error_code = "worker_heartbeat_expired";
            evidence = [];
          }
              ∷ [],
          job.public_id ∷ [],
        ))

-- What `recover_stale_jobs` leaves: the rows, the events, the ids that it returns, and the exception
-- that ended the loop early, if one did. Each row has its own transaction.
pub record Recovered : Type 0 where
  pub rows : List Job
  pub events : List AuditEvent
  pub recovered : List ℕ
  pub stopped : Option (Conflict JobStatus)

-- Each row comes twice: as the query saw it and as it stands when it is locked.
unfoldable pub recover_from : ℕ → List (Job × Job) → Recovered
unfolding recover_stale_job
recover_from cutoff [] = record { rows = []; events = []; recovered = []; stopped = none }
recover_from cutoff ((seen, locked) ∷ rest) =
    let after = recover_from cutoff rest in
    let skip : Recovered = record after { rows = locked ∷ after.rows } in
    if is_recoverable seen.status && beat_before cutoff seen.heartbeat_at
    then elim (recover_stale_job cutoff locked) [
      | ok (job, events, ids) ↦ record {
        rows = job ∷ after.rows;
        events = events ++ after.events;
        recovered = ids ++ after.recovered;
        stopped = after.stopped;
      }
      | raised e ↦ record {
        rows = locked ∷ map (λ p. p.1) rest;
        events = [];
        recovered = [];
        stopped = some e;
      }
    ]
    else skip

unfoldable pub recover_stale_jobs : ℕ → ℕ → List (Job × Job) → Recovered
unfolding recover_from
recover_stale_jobs stale_seconds now rows = recover_from (now - stale_seconds) rows
