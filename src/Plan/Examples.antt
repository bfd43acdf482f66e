-- ===== src/Plan/Examples.antt =====
-- Plans of a production instance for a recovery point.
use pdf_search.Prelude.{◌≡◌, refl, inl, String, some, true, false, strip, lower}
use pdf_search.Plan.Types.{
  Identity, Passport, Capabilities, Request, Payload, restore, recovery_point, verified, allowed,
  normalized_environment,
}
use pdf_search.Plan.Refusals.{is_known_environment}
use pdf_search.Plan.Stages.{route_for}
use pdf_search.Plan.Compile.{compile_lifecycle_plan}
use pdf_search.Plan.Guards.{allowed_iff_cleared}
use pdf_search.Plan.Switching.{ShowsSwitch, switch_only_signed}
use pdf_search.Plan.Controls.{ShowsControls, production_controls}

-- stands for the digest
abbrev route_digest : Payload → String
route_digest payload = payload.route

abbrev site : Identity
site = record {
  environment = " PROD ";
  deployment_id = "main";
  dataset_id = "docs";
  active_generation_id = "g1";
  active_manifest_sha256 = "aa";
}

abbrev all_capable : Capabilities
all_capable = record {
  owned_store_readable = true;
  owned_store_writable = true;
  source_readable = true;
  quarantine_writable = true;
  signing_available = true;
  activation_available = true;
  isolated_restore_available = true;
  previous_runtime_available = true;
}

abbrev point : Passport
point = record {
  source_kind = recovery_point;
  dataset_id = "docs";
  generation_id = "g2";
  manifest_sha256 = "bb";
  format_version = 3;
  trust = verified;
  complete = true;
  read_only = true;
  signature_valid = some true;
}

abbrev current_point : Passport
current_point = record point { generation_id = "g1"; manifest_sha256 = "aa" }

abbrev confirmed : Request
confirmed = record {
  intent = restore;
  activate = true;
  confirmation_present = true;
  previous_recovery_point_exists = false;
}

allowed_iff_cleared_example :
    allowed (compile_lifecycle_plan route_digest confirmed site all_capable (some point)) ≡ true
unfolding normalized_environment route_for strip lower is_known_environment
allowed_iff_cleared_example =
    allowed_iff_cleared route_digest confirmed site all_capable (some point)

switch_only_signed_example :
    ShowsSwitch
      (compile_lifecycle_plan route_digest confirmed site all_capable (some point)).payload
      true
unfolding route_for strip
switch_only_signed_example = switch_only_signed route_digest confirmed site all_capable (some point)

production_controls_example :
    ShowsControls
      (compile_lifecycle_plan route_digest confirmed site all_capable (some point)).payload
      true
unfolding normalized_environment route_for strip lower
production_controls_example =
    production_controls route_digest confirmed site all_capable point (inl refl)
