-- ===== src/Vault/Job.antt =====
-- The fields of `VaultJob` (flowdocs/vaultops/models.py) that the job services read and write.
use pdf_search.Prelude.{ℕ, String, Option}
use pdf_search.Vault.States.{JobStatus}

pub record Job : Type 0 where
  pub public_id : ℕ
  pub operation : String
  pub phase : String
  pub status : JobStatus
  pub progress : String
  pub claim_token_hash : String
  pub claimed_by : String
  pub fencing_epoch : ℕ
  pub heartbeat_at : Option ℕ
  pub correlation_id : ℕ
  pub cancellation_requested_at : Option ℕ
  pub safe_error_code : String
  pub retry_count : ℕ
  pub state_version : ℕ
  pub requested_by_id : Option ℕ
  pub requested_by_name : String
  pub started_at : Option ℕ
  pub finished_at : Option ℕ
