-- ===== src/Compatibility/Checks.antt =====
-- flowdocs/core/compatibility.py: `CompatibilityReport`.
use pdf_search.Prelude.{
  ℕ, String, str_eq, List, [], ◌∷◌, ◌++◌, Bool, true, false, ◌&&◌, if◌then◌else◌,
}

-- the values of `checks`
pub data CheckValue : Type 0 where
  flag : Bool → CheckValue
  text : String → CheckValue

-- the errors and the warnings
pub data Problem : Type 0 where
  no_version unsupported_version no_migrations unknown_leaf migrations_unavailable : Problem
  missing_migrations : ℕ → Problem
  embedding_mismatch no_faiss_count faiss_count_mismatch no_release release_mismatch
        image_mismatch :
      Problem
  repacked_identity is_sanitized other_policy : Problem

pub record Report : Type 0 where
  pub compatible : Bool
  pub checks : List (String × CheckValue)
  pub warnings : List Problem
  pub errors : List Problem

-- `CompatibilityReport()`
abbrev pub empty_report : Report
empty_report = record { compatible = true; checks = []; warnings = []; errors = [] }

-- `checks[key] = value`
unfoldable put_check : String → CheckValue → List (String × CheckValue) → List (String × CheckValue)
put_check key value [] = (key, value) ∷ []
put_check key value ((k, v) ∷ rest) =
    let after = put_check key value rest in
    if str_eq k key then (k, value) ∷ rest else (k, v) ∷ after

unfoldable pub set_check : String → CheckValue → Report → Report
unfolding put_check
set_check key value r = record r { checks = put_check key value r.checks }

abbrev pub warn : Problem → Report → Report
warn p r = record r { warnings = r.warnings ++ p ∷ [] }

-- the errors are appended and `compatible` is set to `False`
abbrev pub refuse : List Problem → Report → Report
refuse ps r = record r { errors = r.errors ++ ps; compatible = false }

-- `{**checks, **other}`
unfoldable put_checks :
    List (String × CheckValue) → List (String × CheckValue) → List (String × CheckValue)
unfolding put_check
put_checks checks [] = checks
put_checks checks ((k, v) ∷ rest) = put_checks (put_check k v checks) rest

unfoldable pub merge : Report → Report → Report
unfolding put_checks
merge r other = record {
  compatible = r.compatible && other.compatible;
  checks = put_checks r.checks other.checks;
  warnings = r.warnings ++ other.warnings;
  errors = r.errors ++ other.errors;
}
