-- ===== src/RuntimeControl/Documents.antt =====
-- The signed documents of flowdocs/vaultops/runtime_control.py.
use Prim.Native.Char.{Char, code}
use pdf_search.Prelude.{
  ℕ, String, str_eq, Option, none, some, get_or, Result, ok, raised, ◌>>=◌, ◌>>◌, require,
  if◌then◌else◌, Bool, true, false, not, ◌&&◌, ◌||◌, nonempty, ltb, ◌==◌, List, [], ◌∷◌, every,
  characters, decimal, contains,
}

-- `RuntimeControlError`, by its `reason_code`, and the exceptions of a value of another type
pub data RuntimeControlError : Type 0 where
  activation_signing_key_invalid control_document_malformed control_document_signature_invalid
        control_document_identity_mismatch control_document_missing control_document_unsafe
        runtime_workspace_unsafe runtime_workspace_outside_root runtime_workspace_mutable
        runtime_evidence_identity_mismatch runtime_database_missing runtime_database_unsafe
        runtime_pointer_invalid production_activation_disabled
        staging_activation_environment_required activation_deployment_id_required
        control_directory_unsafe :
      RuntimeControlError
  runtime_missing : String → RuntimeControlError
  type_error : RuntimeControlError

-- A value of a JSON object. `number` is a number that is not negative and whole, `other` any other value
-- that is neither a text nor a truth value, by its `str` and by its `len`, where it has one.
pub data Value : Type 0 where
  text : String → Value
  number : ℕ → Value
  flag : Bool → Value
  other : String → Option ℕ → Value

-- a dict
abbrev pub Document : Type 0
Document = List (String × Value)

-- `str(value)`
abbrev pub shown : Value → String
shown (text t) = t
shown (number n) = decimal n
shown (flag true) = "True"
shown (flag false) = "False"
shown (other t n) = t

-- `bool(value)`
unfoldable pub is_truthy : Value → Bool
unfolding contains
is_truthy (text t) = nonempty t
is_truthy (number n) = not (n == 0)
is_truthy (flag b) = b
is_truthy (other t n) = not (contains t ("None" ∷ "0.0" ∷ "-0.0" ∷ "[]" ∷ "{}" ∷ []))

-- `len(value)`
unfoldable pub length_of : Value → Option ℕ
unfolding characters
length_of (text t) = some (characters t)
length_of (other t n) = n
length_of _ = none

-- `a == b`, for other values by their `str`
unfoldable pub values_equal : Value → Value → Bool
values_equal (text s) (text t) = str_eq s t
values_equal (number m) (number n) = m == n
values_equal (number m) (flag true) = m == 1
values_equal (number m) (flag false) = m == 0
values_equal (flag true) (number n) = n == 1
values_equal (flag false) (number n) = n == 0
values_equal (flag a) (flag b) = (a && b) || (not a && not b)
values_equal (other s m) (other t n) = str_eq s t
values_equal _ _ = false

-- `document.get(key)`
unfoldable pub get : String → Document → Option Value
get key [] = none
get key ((k, v) ∷ rest) = let below = get key rest in if str_eq k key then some v else below

-- `document.get(key) == value`
abbrev pub holds_value : Value → Option Value → Bool
holds_value v none = false
holds_value v (some w) = values_equal w v

-- `{**document, key: value}`
unfoldable pub with_entry : String → Value → Document → Document
with_entry key value [] = (key, value) ∷ []
with_entry key value ((k, v) ∷ rest) =
    let below = with_entry key value rest in
    if str_eq k key then (k, value) ∷ rest else (k, v) ∷ below

-- `key in {"document_digest", "signature"}`
abbrev pub is_seal : String → Bool
is_seal key = str_eq key "document_digest" || str_eq key "signature"

-- `_unsigned`
unfoldable pub unsigned : Document → Document
unsigned [] = []
unsigned ((k, v) ∷ rest) = let below = unsigned rest in if is_seal k then below else (k, v) ∷ below

abbrev pub is_ascii : Char → Bool
is_ascii c = ltb (code c) 128

-- `hmac.compare_digest(a, b)` where `b` is a hexadecimal digest: it raises where `a` is not ASCII
unfoldable pub compare_digest : String → String → Result RuntimeControlError Bool
unfolding every
compare_digest a b = if every is_ascii a then ok (str_eq a b) else raised type_error

abbrev pub seal : String → Document → Value
seal key document = get_or (text "") (get key document)

-- `canonical_bytes` of a dict, `hashlib.sha256(...).hexdigest()` and `hmac.new(key, digest, sha256).hexdigest()`
module _ (canonical_bytes : Document → String) (sha256 : String → String)
    (hmac : String → String → String) where
  abbrev pub digest_of : Document → String
  digest_of document = sha256 (canonical_bytes document)

  unfoldable pub sign_document : Document → String → Result RuntimeControlError Document
  unfolding characters with_entry
  sign_document payload signing_key = do
    require (not (ltb (characters signing_key) 32)) activation_signing_key_invalid
    ok (
        with_entry "signature" (text (hmac signing_key (digest_of payload)))
          (with_entry "document_digest" (text (digest_of payload)) payload))

  -- the conditions of `control_document_signature_invalid`, in their order, negated
  unfoldable pub is_sealed : Document → String → Result RuntimeControlError Bool
  unfolding compare_digest unsigned get characters
  is_sealed document signing_key =
      if ltb (characters signing_key) 32
      then ok false
      else compare_digest (shown (seal "document_digest" document)) (digest_of (unsigned document))
        >>= λ same.
            if not same
            then ok false
            else compare_digest (shown (seal "signature" document))
                (hmac signing_key (digest_of (unsigned document)))

  -- the conditions of `control_document_identity_mismatch`, negated
  unfoldable pub is_for : Document → String → String → Bool
  unfolding get values_equal
  is_for document kind deployment_id =
      holds_value (number 1) (get "schema_version" document)
      && holds_value (text kind) (get "kind" document)
      && holds_value (text deployment_id) (get "deployment_id" document)

  -- `verify_document` of a dict
  unfoldable pub verify_document :
      Document → String → String → String → Result RuntimeControlError String
  unfolding is_sealed is_for unsigned
  verify_document document signing_key expected_kind deployment_id = do
    sealed ← is_sealed document signing_key
    require sealed control_document_signature_invalid
    require (is_for document expected_kind deployment_id) control_document_identity_mismatch
    ok (digest_of (unsigned document))
