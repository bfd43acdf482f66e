-- ===== src/Direction.antt =====
-- flowdocs/core/environment_policy.py: which instances may back up, restore and activate. The
-- identity is the object that the policy reads with `getattr`; a missing attribute is its default.
pub mod Separation
mod Examples
use pdf_search.Prelude.{
  String, Option, none, some, get_or, Bool, true, false, ◌&&◌, ◌||◌, not, nonempty, str_eq,
  if◌then◌else◌,
}

pub data Operation : Type 0 where
  backup sync promote restore activate rollback : Operation

pub record DirectionDecision : Type 0 where
  pub allowed : Bool
  pub reason_code : String
  local_dataset_id : String
  remote_dataset_id : String

-- what the policy reads of an identity, each field as text or a truth value; only
-- `authoritative_dataset_id` has a default that is not empty, for an object without it
pub record Identity : Type 0 where
  pub dataset_id : String
  pub app_env : String
  pub is_production : Bool
  pub deployment_id : String
  pub authoritative_dataset_id : Option String
  pub is_authoritative_writer : Bool

unfoldable production_posture : Identity → Bool
production_posture identity = identity.is_production || str_eq identity.app_env "production"

-- the set of the branch of a restore
unfoldable is_nonproduction : String → Bool
is_nonproduction name =
    str_eq name "staging" || str_eq name "development" || str_eq name "review" || str_eq name "test"

abbrev incomplete : Identity → String → DirectionDecision
incomplete identity remote = record {
  allowed = false;
  reason_code = "environment_identity_incomplete";
  local_dataset_id = identity.dataset_id;
  remote_dataset_id = remote;
}

-- the branch of `ACTIVATE` and `ROLLBACK`
unfoldable pub activation_decision : Identity → String → DirectionDecision
unfolding production_posture
activation_decision identity remote =
    let allowed = not (production_posture identity) && str_eq identity.app_env "staging" in
    if not (nonempty identity.dataset_id) || not (nonempty identity.deployment_id)
    then incomplete identity remote
    else record {
      allowed = allowed;
      reason_code =
          if allowed
          then ""
          else if production_posture identity
          then "production_activation_disabled"
          else "staging_activation_disabled";
      local_dataset_id = identity.dataset_id;
      remote_dataset_id = remote;
    }

-- `remote_dataset_id or local_dataset_id`
abbrev target_dataset : Identity → String → String
target_dataset identity remote = if nonempty remote then remote else identity.dataset_id

-- the branch of `BACKUP`, `SYNC` and `PROMOTE`
unfoldable pub writer_decision : Identity → String → DirectionDecision
writer_decision identity remote =
    let target = target_dataset identity remote in
    let allowed =
      identity.is_authoritative_writer
      && identity.is_production
      && str_eq identity.app_env "production"
      && str_eq (get_or identity.dataset_id identity.authoritative_dataset_id) identity.dataset_id
      && str_eq target identity.dataset_id in
    if not (nonempty identity.dataset_id) then incomplete identity remote else record {
      allowed = allowed;
      reason_code = if allowed then "" else "writer_environment_required";
      local_dataset_id = identity.dataset_id;
      remote_dataset_id = target;
    }

-- the branch of `RESTORE`
unfoldable pub restore_decision : Identity → String → DirectionDecision
unfolding production_posture is_nonproduction
restore_decision identity remote =
    let same = str_eq remote identity.dataset_id in
    let allowed =
      not (production_posture identity)
      && is_nonproduction identity.app_env
      && nonempty remote
      && not same in
    if not (nonempty identity.dataset_id) then incomplete identity remote else record {
      allowed = allowed;
      reason_code =
          if not allowed
          then if same && nonempty remote
            then "restore_dataset_mismatch"
            else "restore_environment_required"
          else "";
      local_dataset_id = identity.dataset_id;
      remote_dataset_id = remote;
    }

-- `EnvironmentDirectionPolicy.decision`
unfoldable pub decision : Identity → Operation → String → DirectionDecision
unfolding activation_decision writer_decision restore_decision
decision identity activate remote = activation_decision identity remote
decision identity rollback remote = activation_decision identity remote
decision identity restore remote = restore_decision identity remote
decision identity _ remote = writer_decision identity remote
