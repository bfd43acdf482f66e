-- ===== src/Plan/Cleared.antt =====
-- What the planner is meant to require, stated beside its code: the conditions under which a plan is
-- allowed.
use pdf_search.Prelude.{
  Option, none, some, Bool, true, false, ◌&&◌, ◌||◌, not, strip, nonempty, leb,
}
use pdf_search.Plan.Types.{
  Intent, backup, test_recovery, rollback, Route, Identity, Passport, Capabilities, Request,
  normalized_environment, is_verified, legacy_import, import_rebind_restore, noop,
}
use pdf_search.Plan.Refusals.{is_known_environment, needs_verification, is_true, is_false}
use pdf_search.Plan.Stages.{route_for}

-- deployment and dataset are named, and the environment is one of the five known ones
abbrev pub identity_known : Identity → Bool
identity_known identity =
    nonempty (strip identity.deployment_id)
    && nonempty (strip identity.dataset_id)
    && is_known_environment (normalized_environment identity)

-- The source is read only; a recovery point, a previous runtime and a legacy object store also have
-- a generation and are verified and complete, with a signature that is valid where the format has one
-- and never known to be invalid.
abbrev pub source_trusted : Passport → Bool
source_trusted p =
    p.read_only
    && (not (needs_verification p.source_kind)
        || (nonempty (strip p.generation_id)
            && is_verified p
            && not (is_false p.signature_valid)
            && (is_true p.signature_valid || not (leb 3 p.format_version))))

-- what every activation needs
abbrev pub activation_cleared : Request → Capabilities → Bool
activation_cleared request c =
    c.activation_available && c.signing_available && request.confirmation_present

-- a quarantine to restore into, and for an activation also a readable store
abbrev switch_cleared : Request → Capabilities → Bool
switch_cleared request c =
    c.quarantine_writable
    && (not request.activate || (activation_cleared request c && c.owned_store_readable))

-- what a restore or an import needs on its route, beside a known identity and a trusted source
abbrev pub route_cleared : Request → Capabilities → Route → Bool
route_cleared request c noop = true
route_cleared request c legacy_import = c.owned_store_writable && switch_cleared request c
route_cleared request c import_rebind_restore = c.owned_store_writable && switch_cleared request c
route_cleared request c _ = switch_cleared request c

abbrev pub restore_cleared : Request → Identity → Capabilities → Option Passport → Bool
restore_cleared request identity c none = false
restore_cleared request identity c (some p) =
    source_trusted p && c.source_readable && route_cleared request c (route_for identity p)

abbrev pub source_cleared : Capabilities → Option Passport → Bool
source_cleared c none = false
source_cleared c (some p) = source_trusted p && c.source_readable

-- the specification of the planner's guards
abbrev pub cleared_for : Intent → Request → Identity → Capabilities → Option Passport → Bool
cleared_for backup request identity c passport = c.owned_store_writable
cleared_for test_recovery request identity c passport =
    source_cleared c passport && c.isolated_restore_available
cleared_for rollback request identity c passport =
    source_cleared c passport && c.previous_runtime_available && activation_cleared request c
cleared_for _ request identity c passport = restore_cleared request identity c passport
