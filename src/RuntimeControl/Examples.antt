-- ===== src/RuntimeControl/Examples.antt =====
-- The theorems on the control documents and the runtime workspace at a concrete tree. The
-- digests tell one payload from all else.
use mathlib.Core.Path.{subst}
use pdf_search.Prelude.{
  ◌≤◌, ◌≡◌, ◌↔◌, refl, String, str_eq, Option, none, some, ok, Bool, true, false, List, ◌&&◌,
  str_append, decimal, eq_iff, Bool-cases, inl, inr, [], ◌∷◌, nonempty, every, characters, strip,
  arith, if◌then◌else◌,
}
use pdf_search.RuntimeControl.Documents.{
  text, number, shown, seal, get, Document, is_ascii, sign_document, verify_document, is_for,
}
use pdf_search.RuntimeControl.Tree.{file, directory, Entries, no_more, entry}
use pdf_search.RuntimeControl.Checks.{
  Location, RuntimeWorkspace, ResolvedRuntime, Environment, runtime_pointer, is_enabled,
  normalized_app_env,
}
use pdf_search.RuntimeControl.{
  atomic_write_json, validate_runtime_workspace, set_runtime_workspace_writable,
  build_runtime_pointer, read_runtime_pointer, resolve_runtime_from_env,
}
use pdf_search.RuntimeControl.Dicts.{IsUnsigned, HasEntriesOf}
use pdf_search.RuntimeControl.Signing.{IsVerified, verify_iff}
use pdf_search.RuntimeControl.Freezing.{set_writable_succeeds}
use pdf_search.RuntimeControl.Resolving.{IsPointedTo, resolved_is_verified}
use pdf_search.RuntimeControl.Pointers.{built_is_read}

abbrev signing_key : String
signing_key = "0123456789abcdef0123456789abcdef"

abbrev manifest : String
manifest = "00112233445566778899aabbccddeeff00112233445566778899aabbccddeeff"

-- stand for the canonical bytes: the values of these keys in their order
abbrev sorted_values : List String → Document → String
sorted_values [] d = ""
sorted_values (key ∷ keys) d =
    str_append (shown (seal key d)) (str_append "," (sorted_values keys d))

abbrev pointer_keys : List String
pointer_keys =
    "deployment_id" ∷ "document_digest" ∷ "generation_id" ∷ "intent_digest" ∷ "kind"
    ∷ "manifest_digest" ∷ "observed_at_unix" ∷ "runtime_path" ∷ "schema_version" ∷ "signature"
    ∷ "state_version" ∷ []

abbrev canonical : Document → String
canonical d = sorted_values pointer_keys d

sorted_keys_of :
    (keys : List String) (a b : Document)
    → HasEntriesOf a b
    → sorted_values keys a ≡ sorted_values keys b
sorted_keys_of [] a b same = refl
sorted_keys_of (key ∷ keys) a b same = rw (same key, sorted_keys_of keys a b same) refl

sorted_keys : (a b : Document) → HasEntriesOf a b → canonical a ≡ canonical b
sorted_keys a b same = sorted_keys_of pointer_keys a b same

-- stand for the digests: those of one payload, and another
abbrev payload_bytes : String
payload_bytes =
    str_append "dep,,g1,i1,runtime_pointer," (str_append manifest ",1000,/runtimes/g1,1,,4,")

abbrev sha256 : String → String
sha256 b = if str_eq b payload_bytes then "d" else "0"

abbrev hmac : String → String → String
hmac k m = if str_eq k signing_key && str_eq m "d" then "s" else "0"

either_ascii :
    (b : Bool) (x y : String)
    → every is_ascii x ≡ true
    → every is_ascii y ≡ true
    → every is_ascii (if b then x else y) ≡ true
either_ascii true x y first second = first
either_ascii false x y first second = second

sha256_ascii : (b : String) → every is_ascii (sha256 b) ≡ true
unfolding every
sha256_ascii b = either_ascii (str_eq b payload_bytes) "d" "0" refl refl

hmac_ascii : (k m : String) → every is_ascii (hmac k m) ≡ true
unfolding every
hmac_ascii k m = either_ascii (str_eq k signing_key && str_eq m "d") "s" "0" refl refl

abbrev payload : Document
payload = runtime_pointer "dep" "g1" manifest "/runtimes/g1" "i1" 4 1000

abbrev sealed : Document
sealed =
    ("schema_version", number 1)
    ∷ ("kind", text "runtime_pointer")
    ∷ ("deployment_id", text "dep")
    ∷ ("generation_id", text "g1")
    ∷ ("manifest_digest", text manifest)
    ∷ ("runtime_path", text "/runtimes/g1")
    ∷ ("intent_digest", text "i1")
    ∷ ("state_version", number 4)
    ∷ ("observed_at_unix", number 1000)
    ∷ ("document_digest", text "d")
    ∷ ("signature", text "s")
    ∷ []

-- the same, with its keys sorted
abbrev sorted : Document
sorted =
    ("deployment_id", text "dep")
    ∷ ("document_digest", text "d")
    ∷ ("generation_id", text "g1")
    ∷ ("intent_digest", text "i1")
    ∷ ("kind", text "runtime_pointer")
    ∷ ("manifest_digest", text manifest)
    ∷ ("observed_at_unix", number 1000)
    ∷ ("runtime_path", text "/runtimes/g1")
    ∷ ("schema_version", number 1)
    ∷ ("signature", text "s")
    ∷ ("state_version", number 4)
    ∷ []

abbrev pointer_bytes : String
pointer_bytes =
    str_append "dep,d,g1,i1,runtime_pointer," (str_append manifest ",1000,/runtimes/g1,1,s,4,")

abbrev evidence : Document
evidence = ("generation_id", text "g1") ∷ ("manifest_digest", text manifest) ∷ []

abbrev parse : String → Option Document
parse content =
    if str_eq content "e"
    then some evidence
    else if str_eq content pointer_bytes
    then some sorted
    else none

-- a runtime that can be written, and a pointer to it
abbrev entries : Entries
entries = entry "runtime-evidence.json" (file 420 1 "e") (
    entry "db.sqlite3" (file 420 1 "db") (
      entry "media" (directory 493 (entry "a.pdf" (file 420 1 "pdf") no_more)) (
        entry "pdf_cache" (directory 493 no_more) (
          entry "faiss_indexes" (directory 493 no_more)
            (entry "chroma_db" (directory 493 no_more) no_more)))))

abbrev runtime : Location
runtime = record { node = some (directory 493 entries); resolved = "/runtimes/g1" }

abbrev locate : String → Location
locate path =
    if str_eq path "/control/runtime/active.json"
    then record { node = some (file 384 1 pointer_bytes); resolved = path }
    else if str_eq path "/runtimes/g1"
    then runtime
    else record { node = none; resolved = path }

abbrev workspace : RuntimeWorkspace
workspace = record { path = "/runtimes/g1"; evidence = evidence }

passes :
    validate_runtime_workspace parse runtime "/runtimes" (text "g1") (text manifest) false
    ≡ ok workspace
unfolding validate_runtime_workspace
passes = refl

set_writable_succeeds_example :
    let (after, result) =
      set_runtime_workspace_writable parse runtime "/runtimes" (text "g1") (text manifest) false in
    (result ≡ ok "/runtimes/g1")
    × (validate_runtime_workspace parse after "/runtimes" (text "g1") (text manifest) true
        ≡ ok workspace)
set_writable_succeeds_example =
    set_writable_succeeds parse runtime "/runtimes" (text "g1") (text manifest) false workspace
      passes

verify_iff_example :
    (verify_document canonical sha256 hmac sealed signing_key "runtime_pointer" "dep" ≡ ok "d")
    ↔ IsVerified canonical sha256 hmac sealed signing_key "runtime_pointer" "dep" "d"
verify_iff_example =
    verify_iff canonical sha256 hmac sha256_ascii hmac_ascii sealed signing_key "runtime_pointer"
      "dep" "d"

is_for_run : is_for canonical sha256 hmac payload "runtime_pointer" "dep" ≡ true
unfolding is_for runtime_pointer
is_for_run = refl

long_run : 32 ≤ characters signing_key
unfolding characters
long_run = omega arith

plain_run : IsUnsigned payload
unfolding runtime_pointer
plain_run = (refl, (refl, (refl, (refl, (refl, (refl, (refl, (refl, (refl, tt)))))))))

built_run :
    build_runtime_pointer parse canonical sha256 hmac locate "dep" "g1" manifest "/runtimes/g1" "i1"
      4 signing_key 1000
    ≡ ok sealed
unfolding build_runtime_pointer runtime_pointer sign_document get decimal
built_run = refl

abbrev resolved : ResolvedRuntime
resolved = record {
  generation_id = text "g1";
  manifest_digest = text manifest;
  runtime_path = "/runtimes/g1";
  pointer_digest = "d";
  intent_digest = text "i1";
}

pointer_run : canonical sealed ≡ pointer_bytes
unfolding get decimal
pointer_run = refl

small_run : characters (canonical sealed) ≤ 131072
unfolding characters get decimal
small_run = omega arith

written_run : atomic_write_json canonical false sealed ≡ ok (file 384 1 pointer_bytes)
unfolding atomic_write_json get decimal
written_run = refl

stored_run : parse (canonical sealed) ≡ some sorted
unfolding get decimal
stored_run = refl

at_key :
    (name key : String)
    → get name sorted ≡ get name sealed
    → (str_eq name key ≡ false → get key sorted ≡ get key sealed)
    → get key sorted ≡ get key sealed
at_key name key here elsewhere = elim (Bool-cases (str_eq name key)) [
  | inl same ↦ subst (λ k. get k sorted ≡ get k sealed) ((eq_iff name key).0 same) here
  | inr differs ↦ elsewhere differs
]

entries_run : HasEntriesOf sorted sealed
unfolding get
entries_run key = at_key "deployment_id" key refl λ n0. at_key "document_digest" key refl λ n1.
    at_key "generation_id" key refl λ n2. at_key "intent_digest" key refl λ n3.
      at_key "kind" key refl λ n4. at_key "manifest_digest" key refl λ n5.
        at_key "observed_at_unix" key refl λ n6. at_key "runtime_path" key refl λ n7.
          at_key "schema_version" key refl λ n8. at_key "signature" key refl λ n9.
            at_key "state_version" key refl
              λ n10. rw (n0, n1, n2, n3, n4, n5, n6, n7, n8, n9, n10) refl

length_run : characters manifest ≡ 64
unfolding characters
length_run = refl

built_is_read_example :
    read_runtime_pointer parse canonical sha256 hmac locate
      (some (file 384 1 pointer_bytes))
      "dep"
      signing_key
      "/runtimes"
    ≡ ok resolved
unfolding get runtime_pointer decimal
built_is_read_example =
    built_is_read parse canonical sha256 hmac locate sha256_ascii hmac_ascii sorted_keys "dep" "g1"
      manifest "/runtimes/g1" "i1" signing_key "/runtimes" 4 1000 false sealed sorted
      (file 384 1 pointer_bytes) workspace built_run written_run stored_run entries_run small_run
      refl length_run refl passes

abbrev environment : Environment
environment name =
    if str_eq name "STAGING_RUNTIME_ACTIVATION_ENABLED"
    then some " True"
    else if str_eq name "APP_ENV"
    then some "Staging"
    else if str_eq name "DATA_CONTROL_ROOT"
    then some "/control"
    else if str_eq name "RUNTIME_GENERATIONS_ROOT"
    then some "/runtimes"
    else if str_eq name "DEPLOYMENT_ID"
    then some "dep"
    else if str_eq name "ACTIVATION_INTENT_SIGNING_KEY"
    then some signing_key
    else none

resolved_run :
    resolve_runtime_from_env parse canonical sha256 hmac locate environment ≡ ok (some resolved)
unfolding resolve_runtime_from_env get decimal
resolved_run = refl

resolved_is_verified_example :
    (is_enabled "STAGING_RUNTIME_ACTIVATION_ENABLED" environment ≡ true)
    × (normalized_app_env environment ≡ "staging")
    × (nonempty (strip "dep") ≡ true)
    × IsPointedTo parse canonical sha256 hmac locate
        (some (file 384 1 pointer_bytes))
        (strip "dep")
        signing_key
        "/runtimes"
        resolved
resolved_is_verified_example =
    resolved_is_verified parse canonical sha256 hmac locate environment resolved resolved_run
