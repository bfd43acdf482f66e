-- ===== src/Vault/History/Versions.antt =====
-- The state version of a job, which clients quote, against its status.
use pdf_search.Prelude.{◌≡◌, ◌<◌, ◌⊎◌, inr, String, arith, refl}
use pdf_search.Vault.Job.{Job}
use pdf_search.Vault.Transitions.{transition_job}
use pdf_search.Vault.Jobs.{
  claim_job, start_job, heartbeat_job, request_cancellation, complete_owned_job, fail_owned_job,
}
use pdf_search.Vault.Stale.{recover_stale_job}
use pdf_search.Vault.Retry.{requeue_job_once}
use pdf_search.Vault.History.{
  Step, claim, start, heartbeat, cancel, complete, fail, recover, requeue, Change, step, transition,
  Reach, here, next,
}

-- the version grows, or it stays with the status
abbrev Tracks : Job → Job → Type 0
Tracks a b =
    (a.state_version < b.state_version)
    ⊎ ((a.state_version ≡ b.state_version) × (a.status ≡ b.status))

module _ (sha256 : String → String) where
  Tracks-Step : (a b : Job) → Step sha256 a b → Tracks a b
  unfolding claim_job start_job heartbeat_job request_cancellation complete_owned_job fail_owned_job
      recover_stale_job requeue_job_once
  Tracks-Step a b (claim token worker_id now events h) = ground arith
  Tracks-Step a b (start token epoch now events h) = ground arith
  Tracks-Step a b (heartbeat token epoch phase progress now events h) = ground arith
  Tracks-Step a b (cancel now events h) = ground arith
  Tracks-Step a b (complete token epoch irreversible now events h) = ground arith
  Tracks-Step a b (fail token epoch code retryable now events h) = ground arith
  Tracks-Step a b (recover cutoff events ids h) = ground arith
  Tracks-Step a b (requeue call receipts r h e) = ground arith

  Tracks-Change : (a b : Job) → Change sha256 a b → Tracks a b
  unfolding transition_job
  Tracks-Change a b (step s) = Tracks-Step a b s
  Tracks-Change a b (transition requested correlation_id reason error events h) = ground arith

  -- Whatever happens to a job, its state version has grown or both the version and the status are the
  -- same: a client that quotes the current version has seen the current status.
  version_fixes_status : {a b : Job} → Reach sha256 a b → Tracks a b
  version_fixes_status here = inr (refl, refl)
  version_fixes_status {a = a} (next {b = b} {c = c} r s) =
      ground (arith, version_fixes_status r, Tracks-Change b c s)
