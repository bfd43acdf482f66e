-- ===== src/Compatibility/Examples.antt =====
-- The theorem on compatibility applied at a concrete manifest.
use pdf_search.Prelude.{
  String, none, some, List, [], ◌∷◌, true, false, ◌≡◌, refl, is_empty, fromkeys,
}
use pdf_search.Compatibility.{Manifest, Running, named, pair, check_generation_compatibility}
use pdf_search.Compatibility.Checks.{set_check}
use pdf_search.Compatibility.Accepted.{accepted, compatible_iff_accepted}

abbrev manifest : Manifest
manifest = record {
  manifest_version = some 1;
  migrations_latest = "0002_index";
  migrations_applied = pair "core" "0001_initial" ∷ named "core.0002_index" ∷ [];
  embedding_model = "small";
  embedding_dimensions = some "1536";
  faiss_count = some 1;
  faiss_files = some ("folder_1.index" ∷ []);
  sanitization = none;
  app_release = some "1.4";
  image_digest = none;
  read_only = false;
  repacked_from = none;
}

abbrev running : Running
running = record { app_release = "1.4"; image_digest = ""; allow_repacked_release_mismatch = false }

abbrev applied : List String
applied = "core.0001_initial" ∷ "core.0002_index" ∷ "core.0003_more" ∷ []

fits : (check_generation_compatibility (some applied) "small" running manifest).compatible ≡ true
unfolding check_generation_compatibility set_check fromkeys
fits = refl

compatible_iff_accepted_example :
    let report = check_generation_compatibility (some applied) "small" running manifest in
    (report.compatible ≡ accepted (some applied) "small" running manifest)
    × (is_empty report.errors ≡ report.compatible)
compatible_iff_accepted_example = compatible_iff_accepted (some applied) "small" running manifest
