-- ===== src/RuntimeControl/Pointers.antt =====
-- The runtime pointers that flowdocs/vaultops/runtime_control.py builds and reads.
use pdf_search.Prelude.{
  ℕ, ◌≤◌, ◌≡◌, refl, sym, ap, ◌∙◌, String, str_eq, eq_refl, Option, some, get_or, ok, require_ok,
  ok_inj, Bool, true, false, not, ltb, nonempty, every, characters, arith,
}
use pdf_search.RuntimeControl.Documents.{
  text, shown, unsigned, Document, get, seal, sign_document, is_for, values_equal, is_truthy,
  length_of, activation_signing_key_invalid, verify_document, is_ascii, digest_of,
}
use pdf_search.RuntimeControl.Tree.{Node}
use pdf_search.RuntimeControl.Dicts.{HasEntriesOf, unsigned-HasEntriesOf}
use pdf_search.RuntimeControl.Signing.{verify_iff, verified_lem, signed_field, signed_is_verified}
use pdf_search.RuntimeControl.Checks.{
  Location, RuntimeWorkspace, max_control_document_bytes, is_complete_pointer, runtime_pointer,
}
use pdf_search.RuntimeControl.{
  atomic_write_json, read_json, validate_runtime_workspace, build_runtime_pointer,
  read_runtime_pointer,
}

module _ (parse : String → Option Document) (canonical_bytes : Document → String)
    (sha256 : String → String) (hmac : String → String → String) (locate : String → Location)
    (sha256_ascii : (b : String) → every is_ascii (sha256 b) ≡ true)
    (hmac_ascii : (key m : String) → every is_ascii (hmac key m) ≡ true)
    (sorted_keys : (a b : Document)
      → HasEntriesOf a b
      → canonical_bytes a ≡ canonical_bytes b) where
  -- the order of the entries of a dict does not matter to its signature
  verified_as :
      (a b : Document) (signing_key kind deployment_id digest : String)
      → HasEntriesOf b a
      → verify_document canonical_bytes sha256 hmac a signing_key kind deployment_id ≡ ok digest
      → verify_document canonical_bytes sha256 hmac b signing_key kind deployment_id ≡ ok digest
  unfolding is_for
  verified_as a b signing_key kind deployment_id digest same verified =
      let v =
        verified_lem canonical_bytes sha256 hmac a signing_key kind deployment_id digest verified in
      let identity = v.identity in
      let field = λ (key : String). ap (λ found. shown (get_or (text "") found)) (same key) in
      (verify_iff canonical_bytes sha256 hmac sha256_ascii hmac_ascii b signing_key kind
          deployment_id digest).1
        (record {
          has_digest =
              ap sha256 (sorted_keys (unsigned b) (unsigned a) (unsigned-HasEntriesOf b a same))
              ∙ v.has_digest;
          long_key = v.long_key;
          carries_digest = field "document_digest" ∙ v.carries_digest;
          carries_signature = field "signature" ∙ v.carries_signature;
          identity = rw (same "schema_version", same "kind", same "deployment_id") identity;
        })

  verified_payload :
      (deployment_id generation_id manifest_digest path intent_digest signing_key : String)
      (state_version now : ℕ) (document : Document)
      → let p =
          runtime_pointer deployment_id generation_id manifest_digest path intent_digest
            state_version now in
        sign_document canonical_bytes sha256 hmac p signing_key ≡ ok document
        → verify_document canonical_bytes sha256 hmac document signing_key "runtime_pointer"
            deployment_id
          ≡ ok (digest_of canonical_bytes sha256 hmac p)
  unfolding runtime_pointer is_for get values_equal sign_document
  verified_payload deployment_id generation_id manifest_digest path intent_digest signing_key
        state_version now document signed =
      let p =
        runtime_pointer deployment_id generation_id manifest_digest path intent_digest state_version
          now in
      let (long, _) =
        require_ok (not (ltb (characters signing_key) 32)) activation_signing_key_invalid _
          signed in
      let same : str_eq deployment_id deployment_id ≡ true = eq_refl deployment_id in
      let (signed_as, again, verified) =
        signed_is_verified canonical_bytes sha256 hmac sha256_ascii hmac_ascii p signing_key
          "runtime_pointer" deployment_id
          (refl, (refl, (refl, (refl, (refl, (refl, (refl, (refl, (refl, tt))))))))) (ground arith)
          (rw same refl) in
      ap
        (λ d.
          verify_document canonical_bytes sha256 hmac d signing_key "runtime_pointer" deployment_id)
        (ok_inj (sym signed ∙ again))
      ∙ verified

  complete_lem :
      (document : Document) (generation_id manifest_digest intent_digest : String)
      → seal "generation_id" document ≡ text generation_id
      → seal "manifest_digest" document ≡ text manifest_digest
      → seal "intent_digest" document ≡ text intent_digest
      → nonempty generation_id ≡ true
      → characters manifest_digest ≡ 64
      → nonempty intent_digest ≡ true
      → is_complete_pointer document ≡ ok true
  unfolding is_complete_pointer is_truthy length_of
  complete_lem document generation_id manifest_digest intent_digest g m i some_generation
        digest_length some_intent =
      rw (g, m, i, some_generation, digest_length, some_intent) refl

  stored_lem :
      (parent_is_symlink : Bool) (document stored : Document) (written : Node)
      → atomic_write_json canonical_bytes parent_is_symlink document ≡ ok written
      → parse (canonical_bytes document) ≡ some stored
      → characters (canonical_bytes document) ≤ max_control_document_bytes
      → read_json parse (some written) ≡ ok stored
  unfolding read_json atomic_write_json
  stored_lem true document stored written writes is_stored small = cc
  stored_lem false document stored written writes is_stored small =
      let fits : ltb max_control_document_bytes (characters (canonical_bytes document)) ≡ false =
        ground arith in
      ap (λ node. read_json parse (some node)) (sym (ok_inj writes)) ∙ rw (fits, is_stored) refl

  -- Building, writing and reading a runtime pointer are a round trip. Let digests be ASCII and the canonical
  -- bytes of a dict be those of its entries, in whatever order. What `build_runtime_pointer` returned for a
  -- generation, an intent and a manifest digest of 64 characters, and `atomic_write_json` wrote, with at most
  -- 128 KiB, and the JSON parser reads as a dict with the same entries, in whatever order, is read with its
  -- key as the runtime of that generation, manifest and intent, with the digest of the payload, if the
  -- workspace passes its checks.
  pub built_is_read :
      (deployment_id generation_id manifest_digest path intent_digest signing_key root : String)
      (state_version now : ℕ) (parent_is_symlink : Bool) (document stored : Document)
      (written : Node) (w : RuntimeWorkspace)
      → let resolved = (locate path).resolved in
        build_runtime_pointer parse canonical_bytes sha256 hmac locate deployment_id generation_id
            manifest_digest path intent_digest state_version signing_key now
          ≡ ok document
        → atomic_write_json canonical_bytes parent_is_symlink document ≡ ok written
        → parse (canonical_bytes document) ≡ some stored
        → HasEntriesOf stored document
        → characters (canonical_bytes document) ≤ max_control_document_bytes
        → nonempty generation_id ≡ true
        → characters manifest_digest ≡ 64
        → nonempty intent_digest ≡ true
        → validate_runtime_workspace parse
            (locate resolved)
            (locate root).resolved
            (text generation_id)
            (text manifest_digest)
            false
          ≡ ok w
        → read_runtime_pointer parse canonical_bytes sha256 hmac locate
            (some written)
            deployment_id
            signing_key
            root
          ≡ ok record {
            generation_id = text generation_id;
            manifest_digest = text manifest_digest;
            runtime_path = w.path;
            pointer_digest = digest_of canonical_bytes sha256 hmac (
                runtime_pointer deployment_id generation_id manifest_digest resolved intent_digest
                  state_version now);
            intent_digest = text intent_digest;
          }
  unfolding read_runtime_pointer build_runtime_pointer runtime_pointer get
  built_is_read deployment_id generation_id manifest_digest path intent_digest signing_key root
        state_version now parent_is_symlink document stored written w built writes is_stored same
        small some_generation digest_length some_intent checked =
      let resolved = (locate path).resolved in
      let p =
        runtime_pointer deployment_id generation_id manifest_digest resolved intent_digest
          state_version now in
      let read = stored_lem parent_is_symlink document stored written writes is_stored small in
      let verified =
        verified_as document stored signing_key "runtime_pointer" deployment_id
          (digest_of canonical_bytes sha256 hmac p) same
          (verified_payload deployment_id generation_id manifest_digest resolved intent_digest
            signing_key state_version now document built) in
      let field =
        λ (key : String) (plain : str_eq "signature" key ≡ false)
            (plain_too : str_eq "document_digest" key ≡ false).
          ap (get_or (text "")) (
            same key
            ∙ signed_field canonical_bytes sha256 hmac key p document signing_key built plain
                plain_too) in
      let generation = field "generation_id" refl refl in
      let manifest = field "manifest_digest" refl refl in
      let intent = field "intent_digest" refl refl in
      let at = field "runtime_path" refl refl in
      let complete =
        complete_lem stored generation_id manifest_digest intent_digest generation manifest intent
          some_generation digest_length some_intent in
      rw (read, verified, complete, at, generation, manifest, intent, checked) refl
