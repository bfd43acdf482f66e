-- ===== src/Keys/Examples.antt =====
-- The keys of two datasets whose names begin alike.
use pdf_search.Prelude.{◌≡◌, ◌↔◌, refl, String, some, ok, true}
use pdf_search.Keys.{key_builder, generation_manifest, is_scoped, extract_generation_id, key_of}
use pdf_search.Keys.Isolation.{manifest, scoped_iff, its_manifest, generation_id_roundtrip}

docs_builder : key_builder "docs" ≡ ok "docs"
unfolding key_builder
docs_builder = refl

docs2_builder : key_builder "docs2" ≡ ok "docs2"
unfolding key_builder
docs2_builder = refl

docs_manifest : generation_manifest "docs" "g1" ≡ ok "datasets/docs/generations/g1/manifest.json"
unfolding generation_manifest key_of
docs_manifest = refl

scoped_iff_example :
    (is_scoped "docs2" "datasets/docs/generations/g1/manifest.json" ≡ true)
    ↔ (◌≡◌ {A = String} "docs" "docs2")
scoped_iff_example =
    scoped_iff "docs" "docs2" {key = "datasets/docs/generations/g1/manifest.json"} docs_builder
      docs2_builder (manifest "g1" docs_manifest)

generation_id_roundtrip_example :
    extract_generation_id "docs" "datasets/docs/generations/g1/manifest.json" ≡ some "g1"
generation_id_roundtrip_example =
    generation_id_roundtrip "docs" "g1" {key = "datasets/docs/generations/g1/manifest.json"}
      (its_manifest docs_manifest)
