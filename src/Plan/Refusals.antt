-- ===== src/Plan/Refusals.antt =====
-- `_identity_refusals` and `_source_refusals` of flowdocs/dataops/lifecycle.py.
use pdf_search.Prelude.{
  String, Option, none, some, List, [], ◌∷◌, ◌++◌, Bool, true, false, ◌&&◌, ◌||◌, not, strip,
  nonempty, when, str_eq, leb, if◌then◌else◌,
}
use pdf_search.Plan.Types.{
  Identity, normalized_environment, Passport, is_verified, SourceKind, legacy_object_store,
  recovery_point, previous_runtime,
}

-- `environment in {"development", "staging", "production", "review", "test"}`
unfoldable pub is_known_environment : String → Bool
is_known_environment name =
    str_eq name "development"
    || str_eq name "staging"
    || str_eq name "production"
    || str_eq name "review"
    || str_eq name "test"

unfoldable pub identity_refusals : Identity → List String
identity_refusals identity =
    when (not (nonempty (strip identity.deployment_id))) "deployment_identity_missing"
    ++ (when (not (nonempty (strip identity.dataset_id))) "target_dataset_missing"
        ++ when (not (is_known_environment (normalized_environment identity)))
            "environment_unknown")

-- `signature_valid is False`, `signature_valid is True`
abbrev pub is_false : Option Bool → Bool
is_false (some false) = true
is_false _ = false

abbrev pub is_true : Option Bool → Bool
is_true (some true) = true
is_true _ = false

-- the kinds whose generation has to be verified
abbrev pub needs_verification : SourceKind → Bool
needs_verification recovery_point = true
needs_verification previous_runtime = true
needs_verification legacy_object_store = true
needs_verification _ = false

unfoldable pub generation_refusals : Passport → List String
generation_refusals passport =
    when (not (nonempty (strip passport.generation_id))) "source_generation_missing"
    ++ (when (not (is_verified passport)) "source_not_verified"
        ++ (when (is_false passport.signature_valid) "manifest_signature_invalid"
            ++ when (leb 3 passport.format_version && not (is_true passport.signature_valid))
                "manifest_signature_missing"))

unfoldable pub source_refusals : Option Passport → List String
unfolding generation_refusals
source_refusals none = "source_required" ∷ []
source_refusals (some passport) =
    when (not passport.read_only) "source_must_be_read_only"
    ++ (if needs_verification passport.source_kind then generation_refusals passport else [])
