-- ===== src/Compatibility/Accepted.antt =====
-- Which generations flowdocs/core/compatibility.py accepts, as one condition on the manifest.
use Prim.Native.Char.{code}
use mathlib.Core.Path.{subst}
use pdf_search.Prelude.{
  String, nonempty, str_eq, contains, Option, none, some, List, [], ◌∷◌, map, fromkeys, length,
  is_empty, is_empty-append, Bool, true, false, ◌&&◌, ◌||◌, not, ◌==◌, ◌≡◌, refl, sym, ap, ◌∙◌,
  Bool-cases, Option-cases, emptiness, inl, inr, arith, if◌then◌else◌, filter, some_char,
  str_append, strip, get_or,
}
use pdf_search.Compatibility.{
  Manifest, Running, normalize_migration_name, check_manifest_version, normalized_leaf,
  missing_from, check_known_migrations, check_migration_compat, embedding_matches,
  check_embedding_compat, check_faiss_compat, check_sanitization_compat, release_matches,
  image_matches, repacked_override, identity_problems, check_release_identity,
  check_generation_compatibility,
}
use pdf_search.Compatibility.Checks.{
  Report, Problem, CheckValue, flag, no_version, unsupported_version, missing_migrations,
  unknown_leaf, no_migrations, migrations_unavailable, embedding_mismatch, no_faiss_count,
  faiss_count_mismatch, set_check, refuse, empty_report,
}

-- The conditions, written out beside the code.
abbrev is_version_one : Manifest → Bool
is_version_one m = elim m.manifest_version [ none ↦ false | some version ↦ version == 1 ]

-- the name of the manifest's leaf: one without a dot is of the app `core`
abbrev leaf_name : String → String
leaf_name leaf = if some_char (λ c. code c == 46) leaf then leaf else str_append "core." leaf

abbrev migrations_known : Option (List String) → Manifest → Bool
migrations_known none m = false
migrations_known (some names) m =
    let applied = fromkeys (map normalize_migration_name m.migrations_applied) in
    (nonempty m.migrations_latest || not (is_empty applied))
    && is_empty (filter (λ name. not (contains name names)) applied)
    && (not (nonempty m.migrations_latest) || contains (leaf_name m.migrations_latest) names)

-- neither model is empty and they differ: only that is a mismatch
abbrev model_fits : String → Manifest → Bool
model_fits current m =
    not (nonempty m.embedding_model) || not (nonempty current) || str_eq m.embedding_model current

abbrev faiss_counted : Manifest → Bool
faiss_counted m = elim m.faiss_count [
  | none ↦ false
  | some count ↦ elim m.faiss_files [ none ↦ false | some files ↦ length files == count ]
]

-- the manifest has what is running, where that is given
abbrev is_running : String → Option String → Bool
is_running running none = not (nonempty running)
is_running running (some stated) = not (nonempty running) || str_eq stated running

-- it is given, and is not blank
abbrev is_stated : Option String → Bool
is_stated none = false
is_stated (some stated) = nonempty (strip stated)

abbrev identity_accepted : Running → Manifest → Bool
identity_accepted run m =
    (is_running run.app_release m.app_release && is_running run.image_digest m.image_digest)
    || (run.allow_repacked_release_mismatch
        && m.read_only
        && is_stated m.repacked_from
        && is_stated m.app_release
        && is_stated m.image_digest)

abbrev pub accepted : Option (List String) → String → Running → Manifest → Bool
accepted current model run m =
    is_version_one m
    && migrations_known current m
    && model_fits model m
    && faiss_counted m
    && identity_accepted run m

-- the same as the code's tests
given_lem : (v : Option String) → is_stated v ≡ nonempty (strip (get_or "" v))
unfolding strip
given_lem none = refl
given_lem (some stated) = refl

release_lem :
    (run : Running) (m : Manifest)
    → is_running run.app_release m.app_release ≡ release_matches run m
release_lem run m = elim (Option-cases m.app_release) [
  | inl none_given ↦ rw none_given (ground arith)
  | inr (stated, given) ↦ rw given refl
]

image_lem :
    (run : Running) (m : Manifest)
    → is_running run.image_digest m.image_digest ≡ image_matches run m
image_lem run m = elim (Option-cases m.image_digest) [
  | inl none_given ↦ rw none_given (ground arith)
  | inr (stated, given) ↦ rw given refl
]

identity_lem :
    (run : Running) (m : Manifest)
    → ((release_matches run m && image_matches run m) || repacked_override run m)
      ≡ identity_accepted run m
unfolding repacked_override
identity_lem run m =
    rw
      (
        release_lem run m,
        image_lem run m,
        given_lem m.repacked_from,
        given_lem m.app_release,
        given_lem m.image_digest,
      )
      refl

-- a check that adds to the report: it stays compatible where the condition holds, and there is an error
-- exactly where it does not
record Judged (before after : Report) (condition : Bool) : Type 0 where
  compatible : after.compatible ≡ before.compatible && condition
  errors : is_empty after.errors ≡ is_empty before.errors && condition

keeps :
    (r after : Report)
    → after.compatible ≡ r.compatible
    → after.errors ≡ r.errors
    → Judged r after true
keeps r after c e = record {
  compatible = c ∙ and_true r.compatible;
  errors = ap is_empty e ∙ and_true (is_empty r.errors);
}
  where
    and_true : (b : Bool) → b ≡ b && true
    and_true b = ground arith

refuses :
    (r after : Report) (ps : List Problem)
    → after.errors ≡ r.errors
    → is_empty ps ≡ false
    → Judged r (refuse ps after) false
refuses r after ps e some_problem = record {
  compatible = ground arith;
  errors = is_empty-append after.errors ps ∙ rw some_problem (ground arith);
}

Judged-trans : (a b c : Report) (p q : Bool) → Judged a b p → Judged b c q → Judged a c (p && q)
Judged-trans a b c p q first second =
    let c₁ = first.compatible in
    let c₂ = second.compatible in
    let e₁ = first.errors in
    let e₂ = second.errors in record { compatible = ground arith; errors = ground arith }

Judged-if :
    (b : Bool) (r after : Report) (ps : List Problem)
    → after.compatible ≡ r.compatible
    → after.errors ≡ r.errors
    → is_empty ps ≡ false
    → Judged r (if b then after else refuse ps after) b
Judged-if true r after ps c e p = keeps r after c e
Judged-if false r after ps c e p = refuses r after ps e p

-- what only adds checks and warnings
then_keeps :
    (r mid after : Report) (b : Bool)
    → Judged r mid b
    → after.compatible ≡ mid.compatible
    → after.errors ≡ mid.errors
    → Judged r after b
then_keeps r mid after b judged c e = record {
  compatible = c ∙ judged.compatible;
  errors = ap is_empty e ∙ judged.errors;
}

set_if_compatible :
    (b : Bool) (key : String) (v : CheckValue) (r : Report)
    → (if b then set_check key v r else r).compatible ≡ r.compatible
unfolding set_check
set_if_compatible true key v r = refl
set_if_compatible false key v r = refl

set_if_errors :
    (b : Bool) (key : String) (v : CheckValue) (r : Report)
    → (if b then set_check key v r else r).errors ≡ r.errors
unfolding set_check
set_if_errors true key v r = refl
set_if_errors false key v r = refl

Judged-version :
    (m : Manifest) (r : Report) → Judged r (check_manifest_version m r) (is_version_one m)
unfolding check_manifest_version set_check
Judged-version m r = elim (Option-cases m.manifest_version) [
  | inl none_given ↦
      rw none_given
        (refuses r (set_check "manifest_version" (flag false) r) (no_version ∷ []) refl refl)
  | inr (v, given) ↦ rw given (
      Judged-if (v == 1) r (set_check "manifest_version" (flag (v == 1)) r)
        (unsupported_version ∷ []) refl refl refl)
]

Judged-embedding :
    (model : String) (m : Manifest) (r : Report)
    → Judged r (check_embedding_compat model m r) (embedding_matches model m)
unfolding check_embedding_compat set_check
Judged-embedding model m r =
    let checked = set_check "embedding_model" (flag (embedding_matches model m)) r in
    let r₁ =
      if embedding_matches model m then checked else refuse (embedding_mismatch ∷ []) checked in
    let first : Judged r r₁ (embedding_matches model m) =
      Judged-if (embedding_matches model m) r checked (embedding_mismatch ∷ []) refl refl refl in
    elim (Option-cases m.embedding_dimensions) [
      | inl none_given ↦ rw none_given first
      | inr (d, given) ↦ rw given (elim (Bool-cases (nonempty d)) [
        | inl filled ↦ rw filled (then_keeps r r₁ _ (embedding_matches model m) first refl refl)
        | inr blank ↦ rw blank first
      ])
    ]

Judged-faiss : (m : Manifest) (r : Report) → Judged r (check_faiss_compat m r) (faiss_counted m)
unfolding check_faiss_compat set_check
Judged-faiss m r = elim (Option-cases m.faiss_count) [
  | inl none_given ↦
      rw none_given
        (refuses r (set_check "faiss_count" (flag false) r) (no_faiss_count ∷ []) refl refl)
  | inr (count, given) ↦ rw given (elim (Option-cases m.faiss_files) [
    | inl no_files ↦
        rw no_files
          (refuses r (set_check "faiss_count" (flag false) r) (no_faiss_count ∷ []) refl refl)
    | inr (files, listed) ↦ rw listed (
        Judged-if (length files == count) r
          (set_check "faiss_count" (flag (length files == count))
            (set_check "faiss_present" (flag (not (is_empty files))) r))
          (faiss_count_mismatch ∷ []) refl refl refl)
  ])
]

Judged-sanitization : (m : Manifest) (r : Report) → Judged r (check_sanitization_compat m r) true
unfolding check_sanitization_compat set_check
Judged-sanitization m r = elim (Option-cases m.sanitization) [
  | inl none_given ↦ rw none_given (keeps r r refl refl)
  | inr (policy, given) ↦ rw given (elim (Option-cases policy) [
    | inl unnamed ↦ rw unnamed (keeps r _ refl refl)
    | inr (version, named) ↦ rw named (elim (Bool-cases (str_eq version "pdfsearch-sanitize/v1")) [
      | inl current ↦ rw current (keeps r _ refl refl)
      | inr other ↦ rw other (keeps r _ refl refl)
    ])
  ])
]

one_of_three :
    (absent release image : Bool)
    → release && image ≡ false
    → not absent && (not (not absent && not release) && not (not image)) ≡ false
one_of_three absent release image h = ground arith

-- an identity that does not match has an error
some_identity_problem :
    (run : Running) (m : Manifest)
    → release_matches run m && image_matches run m ≡ false
    → is_empty (identity_problems run m) ≡ false
some_identity_problem run m h =
    simp emptiness (one_of_three _ (release_matches run m) (image_matches run m) h)

Judged-identity :
    (run : Running) (m : Manifest) (r : Report)
    → Judged r
        (check_release_identity run m r)
        ((release_matches run m && image_matches run m) || repacked_override run m)
unfolding check_release_identity set_check
Judged-identity run m r =
    let r₁ =
      if nonempty run.app_release
      then set_check "app_release" (flag (release_matches run m)) r
      else r in
    let r₂ =
      if nonempty run.image_digest
      then set_check "image_digest" (flag (image_matches run m)) r₁
      else r₁ in
    let r₃ = set_check "repacked_release_override" (flag (repacked_override run m)) r₂ in
    let c : r₂.compatible ≡ r.compatible =
      set_if_compatible (nonempty run.image_digest) "image_digest" (flag (image_matches run m)) r₁
      ∙ set_if_compatible (nonempty run.app_release) "app_release" (flag (release_matches run m))
          r in
    let e : r₂.errors ≡ r.errors =
      set_if_errors (nonempty run.image_digest) "image_digest" (flag (image_matches run m)) r₁
      ∙ set_if_errors (nonempty run.app_release) "app_release" (flag (release_matches run m)) r in
    elim (Bool-cases (release_matches run m && image_matches run m)) [
      | inl same ↦ rw same (keeps r r₂ c e)
      | inr other ↦ rw other (elim (Bool-cases (repacked_override run m)) [
        | inl override ↦ rw override (keeps r _ c e)
        | inr no_override ↦ rw no_override (
            refuses r (set_check "repacked_release_override" (flag false) r₂)
              (identity_problems run m) e (some_identity_problem run m other))
      ])
    ]

Judged-known :
    (names applied : List String) (leaf : String) (r : Report)
    → Judged r (check_known_migrations names applied leaf r) (
        is_empty (missing_from names applied)
        && (not (nonempty leaf) || contains (normalized_leaf leaf) names))
unfolding check_known_migrations set_check
Judged-known names applied leaf r =
    let missing = missing_from names applied in
    let r₁ =
      set_check "migrations" (flag true)
        (set_check "migration_no_downgrade" (flag (is_empty missing)) r) in
    let r₂ =
      if is_empty missing then r₁ else refuse (missing_migrations (length missing) ∷ []) r₁ in
    let known = contains (normalized_leaf leaf) names in
    let r₃ = set_check "migration_leaf_known" (flag known) r₂ in
    let first : Judged r r₂ (is_empty missing) =
      Judged-if (is_empty missing) r r₁ (missing_migrations (length missing) ∷ []) refl refl refl in
    elim (Bool-cases (nonempty leaf)) [
      | inr blank ↦
          rw blank (Judged-trans r r₂ r₂ (is_empty missing) true first (keeps r₂ r₂ refl refl))
      | inl given ↦ rw given (
          Judged-trans r r₂ _ (is_empty missing) known first
            (Judged-if known r₂ r₃ (unknown_leaf ∷ []) refl refl refl))
    ]

no_evidence : (leaf applied : Bool) → not leaf && applied ≡ true → (leaf || not applied) ≡ false
no_evidence leaf applied h = ground arith

some_evidence : (leaf applied : Bool) → not leaf && applied ≡ false → (leaf || not applied) ≡ true
some_evidence leaf applied h = ground arith

Judged-migrations :
    (current : Option (List String)) (m : Manifest) (r : Report)
    → Judged r (check_migration_compat current m r) (migrations_known current m)
unfolding check_migration_compat set_check
Judged-migrations none m r =
    elim (Bool-cases (
      not (nonempty m.migrations_latest)
      && is_empty (fromkeys (map normalize_migration_name m.migrations_applied)))) [
        | inl absent ↦
            rw absent
              (refuses r (set_check "migrations" (flag false) r) (no_migrations ∷ []) refl refl)
        | inr present ↦ rw present (
            refuses r (set_check "migrations" (flag false) r) (migrations_unavailable ∷ []) refl
              refl)
      ]
Judged-migrations (some names) m r =
    let applied = fromkeys (map normalize_migration_name m.migrations_applied) in
    elim (Bool-cases (not (nonempty m.migrations_latest) && is_empty applied)) [
      | inl absent ↦
          rw (absent, no_evidence (nonempty m.migrations_latest) (is_empty applied) absent)
            (refuses r (set_check "migrations" (flag false) r) (no_migrations ∷ []) refl refl)
      | inr present ↦
          rw (present, some_evidence (nonempty m.migrations_latest) (is_empty applied) present)
            (Judged-known names applied m.migrations_latest r)
    ]

all-Judged :
    (current : Option (List String)) (model : String) (run : Running) (m : Manifest)
    → Judged empty_report (check_generation_compatibility current model run m) (
        (((is_version_one m && migrations_known current m) && embedding_matches model m)
          && faiss_counted m)
        && true
        && identity_accepted run m)
unfolding check_generation_compatibility
all-Judged current model run m =
    Judged-trans _ _ _ _ _
      (Judged-trans _ _ _ _ _
        (Judged-trans _ _ _ _ _
          (Judged-trans _ _ _ _ _
            (Judged-trans _ _ _ _ _ (Judged-version m _) (Judged-migrations current m _))
            (Judged-embedding model m _))
          (Judged-faiss m _))
        (Judged-sanitization m _))
      (subst (Judged _ _) (identity_lem run m) (Judged-identity run m _))

same_conjunction : (a b c d e : Bool) → (((a && b) && c) && d) && true && e ≡ a && b && c && d && e
same_conjunction a b c d e = ground arith

-- `check_generation_compatibility` finds a generation compatible exactly where its manifest has version 1;
-- it names a migration, and the migrations that it names are known to the running code; its embedding
-- model is the configured one, or one of the two is empty; the number of its index files is the one
-- stated; and its release and image are the running ones, each where a running one is given, or a mismatch
-- of a repacked generation is allowed, the generation is read-only, and its origin, release and image are
-- stated. It reports an error exactly where the generation is not compatible.
pub compatible_iff_accepted :
    (current : Option (List String)) (model : String) (run : Running) (m : Manifest)
    → let report = check_generation_compatibility current model run m in
      (report.compatible ≡ accepted current model run m)
      × (is_empty report.errors ≡ report.compatible)
compatible_iff_accepted current model run m =
    let judged = all-Judged current model run m in
    (
      judged.compatible
          ∙ same_conjunction (is_version_one m) (migrations_known current m)
              (embedding_matches model m) (faiss_counted m) (identity_accepted run m),
      judged.errors ∙ sym judged.compatible,
    )
