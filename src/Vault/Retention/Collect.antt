-- ===== src/Vault/Retention/Collect.antt =====
-- flowdocs/vaultops/services/retention.py: the object graph of a garbage collection. A dict of objects
-- is the list of its entries in insertion order.
use Prim.Native.Nat.{Ordering}
use Prim.Native.String.{compare}
use pdf_search.Prelude.{
  ℕ, ◌+◌, String, Option, none, some, List, [], ◌∷◌, ◌++◌, Bool, true, false, ◌&&◌, ◌||◌, not,
  filter, contains, ltb, ◌==◌, nonempty, str_eq, characters, Result, ok, raised, ◌>>=◌,
  if◌then◌else◌,
}
use pdf_search.Keys.{key_builder, is_scoped}
use pdf_search.Keys.Check.{KeyBuilderError}
use pdf_search.Vault.Retention.{Stored, ManifestEntry, entry, Projection, find_projection}

-- `RetentionError` with its reason and status code 409, or the error of a key
pub data GcFailure : Type 0 where
  gc_error : String → GcFailure
  key_error : KeyBuilderError → GcFailure

-- `{"sha256": …, "bytes": …}`
pub record Metadata : Type 0 where
  pub sha256 : String
  pub bytes : ℕ

abbrev pub Objects : Type 0
Objects = List (String × Metadata)

abbrev invalid_graph : GcFailure
invalid_graph = gc_error "gc_reference_graph_invalid"

-- an error of `KeyBuilder` is not caught
abbrev pub keyed {ℓ} : {A : Type ℓ} → Result KeyBuilderError A → Result GcFailure A
keyed (ok a) = ok a
keyed (raised e) = raised (key_error e)

-- `records.get(key)`
unfoldable find_object : String → Objects → Option Metadata
find_object key [] = none
find_object key ((k, m) ∷ rest) =
    let later = find_object key rest in if str_eq k key then some m else later

abbrev same_metadata : Metadata → Metadata → Bool
same_metadata m n = str_eq m.sha256 n.sha256 && m.bytes == n.bytes

-- `if key in records and records[key] != record: raise …; records[key] = record`
unfoldable add_object : String → Metadata → Objects → Result GcFailure Objects
unfolding find_object
add_object key m records = elim (find_object key records) [
  | none ↦ ok (records ++ (key, m) ∷ [])
  | some found ↦ if same_metadata found m then ok records else raised invalid_graph
]

-- an entry of the manifest of a generation of `dataset_id`, checked
unfoldable checked_entry : String → ManifestEntry → Result GcFailure (String × Metadata)
unfolding is_scoped
checked_entry dataset_id (entry (some key) (some sha256) (some bytes)) =
    if nonempty key && characters sha256 == 64 && is_scoped dataset_id key
    then ok (key, record { sha256 = sha256; bytes = bytes })
    else raised invalid_graph
checked_entry dataset_id _ = raised invalid_graph

-- the loop of `_manifest_objects`
unfoldable manifest_loop : String → List ManifestEntry → Objects → Result GcFailure Objects
unfolding checked_entry add_object
manifest_loop dataset_id [] records = ok records
manifest_loop dataset_id (e ∷ rest) records = checked_entry dataset_id e >>= λ (key, m).
    add_object key m records >>= λ more. manifest_loop dataset_id rest more

unfoldable pub manifest_objects : Stored → Result GcFailure Objects
unfolding manifest_loop key_builder
manifest_objects g = elim g.files [
  | none ↦ raised invalid_graph
  | some files ↦ keyed (key_builder g.row.dataset_id) >>= λ builder. manifest_loop builder files []
]

-- `_verified_projection`; `max_age` is the setting VAULT_INVENTORY_CACHE_SECONDS
unfoldable pub verified_projection :
    ℕ → ℕ → String → ℕ → List Projection → Result GcFailure Projection
unfolding find_projection
verified_projection max_age profile dataset_id now projections =
    let unverified = raised (gc_error "gc_inventory_unverified") in
    elim (find_projection profile dataset_id projections) [
      | none ↦ unverified
      | some projection ↦
          if not (str_eq projection.inventory_state "verified")
          then unverified
          else elim projection.inventory_observed_at [
            | none ↦ unverified
            | some observed ↦
                if ltb (observed + max_age) now
                then raised (gc_error "gc_inventory_stale")
                else ok projection
          ]
    ]

-- `a <= b` on texts, by code points
unfoldable str_leb : String → String → Bool
str_leb a b = elim (compare a b) [ Ordering.gt ↦ false | _ ↦ true ]

module _ {A : Type 0} (name : A → String) where
  unfoldable insert_by : A → List A → List A
  unfolding str_leb
  insert_by x [] = x ∷ []
  insert_by x (y ∷ ys) =
      let later = insert_by x ys in if str_leb (name x) (name y) then x ∷ y ∷ ys else y ∷ later

  -- the rows in the order of a text, equal ones as they stood
  unfoldable pub sort_by : List A → List A
  unfolding insert_by
  sort_by [] = []
  sort_by (x ∷ xs) = insert_by x (sort_by xs)

-- the generation id of a generation with its objects
abbrev pub Scanned : Type 0
Scanned = String × Objects

-- the merge of one generation's objects into `object_metadata`
unfoldable pub merge_objects : Objects → Objects → Result GcFailure Objects
unfolding add_object
merge_objects [] known = ok known
merge_objects ((key, m) ∷ rest) known = add_object key m known >>= merge_objects rest

-- the loop over the generations: `generation_objects` and `object_metadata`
unfoldable pub scan : List Stored → Objects → Result GcFailure (List Scanned × Objects)
unfolding manifest_objects merge_objects
scan [] known = ok ([], known)
scan (g ∷ rest) known = manifest_objects g >>= λ records. merge_objects records known >>= λ more.
    scan rest more >>= λ (scanned, metadata).
    ok ((g.row.generation_id, records) ∷ scanned, metadata)

abbrev pub has_key : String → Objects → Bool
has_key key [] = false
has_key key ((k, m) ∷ rest) = str_eq k key || has_key key rest

-- `references[key]`
unfoldable pub references : List Scanned → String → List String
references [] key = []
references ((id, records) ∷ rest) key =
    let later = references rest key in if has_key key records then id ∷ later else later

-- `references[key] - candidate_ids`
unfoldable pub retained_references : List Scanned → List String → String → List String
unfolding references contains
retained_references scanned candidate_ids key =
    filter (λ id. not (contains id candidate_ids)) (references scanned key)

-- `sum(object_metadata[key]["bytes"] for key in keys)`
unfoldable pub total_bytes : Objects → List String → ℕ
unfolding find_object
total_bytes metadata [] = 0
total_bytes metadata (key ∷ keys) =
    elim (find_object key metadata) [ none ↦ 0 | some m ↦ m.bytes ] + total_bytes metadata keys
