-- ===== src/Direction/Examples.antt =====
-- A production instance and a staging instance of one dataset.
use pdf_search.Prelude.{◌≡◌, refl, none, true, false, ◌&&◌}
use pdf_search.Direction.{Identity, decision, backup, restore}
use pdf_search.Direction.Separation.{directions_disjoint}

abbrev production : Identity
production = record {
  dataset_id = "docs";
  app_env = "production";
  is_production = true;
  deployment_id = "main";
  authoritative_dataset_id = none;
  is_authoritative_writer = true;
}

directions_disjoint_example :
    (decision production backup "").allowed && (decision production restore "other").allowed ≡ false
directions_disjoint_example = directions_disjoint production backup restore "" "other" refl refl
