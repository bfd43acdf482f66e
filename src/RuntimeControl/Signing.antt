-- ===== src/RuntimeControl/Signing.antt =====
-- The signatures of flowdocs/vaultops/runtime_control.py.
use pdf_search.Prelude.{
  ◌≤◌, ◌≡◌, ◌↔◌, refl, sym, ap, ◌∙◌, inl, inr, String, str_eq, get_or, eq_iff, Result, ok, raised,
  bind_ok, require_ok, ok_inj, Bool, true, false, not, ltb, Bool-cases, every, characters, arith,
  if◌then◌else◌,
}
use pdf_search.RuntimeControl.Documents.{
  RuntimeControlError, activation_signing_key_invalid, control_document_signature_invalid,
  control_document_identity_mismatch, type_error, Value, text, shown, Document, get, with_entry,
  is_ascii, unsigned, compare_digest, seal, digest_of, sign_document, is_sealed, is_for,
  verify_document,
}
use pdf_search.RuntimeControl.Dicts.{
  IsUnsigned, unsigned-with_entry, unsigned-IsUnsigned, get-with_entry, get-with_other_entry,
}

compare_same : (a b : String) → a ≡ b → every is_ascii b ≡ true → compare_digest a b ≡ ok true
unfolding compare_digest
compare_same a b e h =
    let ascii : every is_ascii a ≡ true = ap (every is_ascii) e ∙ h in
    let same : str_eq a b ≡ true = (eq_iff a b).1 e in rw (ascii, same) refl

compare_true : (a b : String) → compare_digest a b ≡ ok true → a ≡ b
unfolding compare_digest
compare_true a b h = elim (Bool-cases (every is_ascii a)) [
  | inl ascii ↦ (eq_iff a b).0 (ok_inj (rw ascii at h))
  | inr not_ascii ↦
      let bad : Path (Result RuntimeControlError Bool) (raised type_error) (ok true) =
        rw not_ascii at h in
      cc
]

module _ (canonical_bytes : Document → String) (sha256 : String → String)
    (hmac : String → String → String) where
  -- what makes a document verified, with its digest
  pub record IsVerified (document : Document) (signing_key kind deployment_id digest : String)
      : Type 0 where
    pub has_digest : digest_of canonical_bytes sha256 hmac (unsigned document) ≡ digest
    pub long_key : 32 ≤ characters signing_key
    pub carries_digest : shown (seal "document_digest" document) ≡ digest
    pub carries_signature : shown (seal "signature" document) ≡ hmac signing_key digest
    pub identity : is_for canonical_bytes sha256 hmac document kind deployment_id ≡ true

  sealed_lem :
      (document : Document) (signing_key : String)
      → is_sealed canonical_bytes sha256 hmac document signing_key ≡ ok true
      → let digest = digest_of canonical_bytes sha256 hmac (unsigned document) in
        (32 ≤ characters signing_key)
        × (shown (seal "document_digest" document) ≡ digest)
        × (shown (seal "signature" document) ≡ hmac signing_key digest)
  unfolding is_sealed
  sealed_lem document signing_key h = elim (Bool-cases (ltb (characters signing_key) 32)) [
    | inl short ↦
        let bad : Path (Result RuntimeControlError Bool) (ok false) (ok true) = rw short at h in cc
    | inr long ↦ let (same, first, rest) = bind_ok _ _ (rw long at h) in go long same first rest
  ]
    where
      digest : String
      digest = digest_of canonical_bytes sha256 hmac (unsigned document)

      go :
          ltb (characters signing_key) 32 ≡ false
          → (same : Bool)
          → compare_digest (shown (seal "document_digest" document)) digest ≡ ok same
          → (if not same
              then ok false
              else compare_digest (shown (seal "signature" document)) (hmac signing_key digest))
            ≡ ok true
          → (32 ≤ characters signing_key)
            × (shown (seal "document_digest" document) ≡ digest)
            × (shown (seal "signature" document) ≡ hmac signing_key digest)
      go long true first rest = (ground arith, compare_true _ _ first, compare_true _ _ rest)
      go long false first rest = cc

  pub verified_lem :
      (document : Document) (signing_key kind deployment_id digest : String)
      → verify_document canonical_bytes sha256 hmac document signing_key kind deployment_id
        ≡ ok digest
      → IsVerified document signing_key kind deployment_id digest
  unfolding verify_document
  verified_lem document signing_key kind deployment_id digest h =
      let (sealed, is_so, rest) =
        bind_ok (is_sealed canonical_bytes sha256 hmac document signing_key) _ h in
      let (is_true, rest₁) = require_ok sealed control_document_signature_invalid _ rest in
      let (identity, rest₂) =
        require_ok (is_for canonical_bytes sha256 hmac document kind deployment_id)
          control_document_identity_mismatch _ rest₁ in
      let same = ok_inj rest₂ in
      let (long, digest_is, signature_is) =
        sealed_lem document signing_key (is_so ∙ ap ok is_true) in
      record {
        has_digest = same;
        long_key = long;
        carries_digest = digest_is ∙ same;
        carries_signature = signature_is ∙ ap (hmac signing_key) same;
        identity = identity;
      }

  -- what `sign_document` returns for a long key
  abbrev sealed_as : Document → String → Document
  sealed_as p signing_key =
      with_entry "signature" (text (hmac signing_key (digest_of canonical_bytes sha256 hmac p)))
        (with_entry "document_digest" (text (digest_of canonical_bytes sha256 hmac p)) p)

  get_field :
      (key : String) (p : Document) (a b : Value)
      → str_eq "signature" key ≡ false
      → str_eq "document_digest" key ≡ false
      → get key (with_entry "signature" b (with_entry "document_digest" a p)) ≡ get key p
  get_field key p a b other₁ other₂ =
      get-with_other_entry key "signature" b (with_entry "document_digest" a p) other₁
      ∙ get-with_other_entry key "document_digest" a p other₂

  pub signed_field :
      (key : String) (p document : Document) (signing_key : String)
      → sign_document canonical_bytes sha256 hmac p signing_key ≡ ok document
      → str_eq "signature" key ≡ false
      → str_eq "document_digest" key ≡ false
      → get key document ≡ get key p
  unfolding sign_document
  signed_field key p document signing_key signed other₁ other₂ =
      let (_, is_so) =
        require_ok (not (ltb (characters signing_key) 32)) activation_signing_key_invalid _
          signed in
      ap (get key) (sym (ok_inj is_so)) ∙ get_field key p _ _ other₁ other₂

  module _ (sha256_ascii : (b : String) → every is_ascii (sha256 b) ≡ true)
      (hmac_ascii : (key m : String) → every is_ascii (hmac key m) ≡ true) where
    -- Where digests are ASCII, a document is verified, and its digest returned, exactly where its key has at
    -- least 32 characters, it carries the digest of its unsigned part and the signature of that digest, and
    -- its schema version, kind and deployment are the expected ones.
    pub verify_iff :
        (document : Document) (signing_key kind deployment_id digest : String)
        → (verify_document canonical_bytes sha256 hmac document signing_key kind deployment_id
            ≡ ok digest)
          ↔ IsVerified document signing_key kind deployment_id digest
    unfolding verify_document is_sealed
    verify_iff document signing_key kind deployment_id digest = (
      verified_lem document signing_key kind deployment_id digest,
      λ v.
          let own = digest_of canonical_bytes sha256 hmac (unsigned document) in
          let long : ltb (characters signing_key) 32 ≡ false = let l = v.long_key in ground arith in
          let first =
            compare_same (shown (seal "document_digest" document)) own
              (v.carries_digest ∙ sym v.has_digest)
              (sha256_ascii (canonical_bytes (unsigned document))) in
          let second =
            compare_same (shown (seal "signature" document)) (hmac signing_key own)
              (v.carries_signature ∙ ap (hmac signing_key) (sym v.has_digest))
              (hmac_ascii signing_key own) in
          let identity = v.identity in rw (long, first, second, identity) (ap ok v.has_digest),
    )

    -- Signing and verifying are a round trip: where digests are ASCII, a payload of the expected schema
    -- version, kind and deployment that has neither key of a signature is signed with any key of at least 32
    -- characters, and the signed document is verified with that key, with the digest of the payload.
    pub signed_is_verified :
        (p : Document) (signing_key kind deployment_id : String)
        → IsUnsigned p
        → 32 ≤ characters signing_key
        → is_for canonical_bytes sha256 hmac p kind deployment_id ≡ true
        → (document : Document) × (sign_document canonical_bytes sha256 hmac p signing_key
            ≡ ok document)
          × (verify_document canonical_bytes sha256 hmac document signing_key kind deployment_id
              ≡ ok (digest_of canonical_bytes sha256 hmac p))
    unfolding sign_document is_for
    signed_is_verified p signing_key kind deployment_id plain long identity =
        let long_key : ltb (characters signing_key) 32 ≡ false = ground arith in
        let digest = digest_of canonical_bytes sha256 hmac p in
        let signature = text (hmac signing_key digest) in
        let inner = with_entry "document_digest" (text digest) p in
        let same : unsigned (sealed_as p signing_key) ≡ p =
          unsigned-with_entry "signature" signature inner refl
          ∙ unsigned-with_entry "document_digest" (text digest) p refl
          ∙ unsigned-IsUnsigned p plain in
        (
          sealed_as p signing_key,
          rw long_key refl,
          (verify_iff (sealed_as p signing_key) signing_key kind deployment_id digest).1 record {
            has_digest = ap (digest_of canonical_bytes sha256 hmac) same;
            long_key = long;
            carries_digest =
                ap (λ v. shown (get_or (text "") v))
                  (get-with_other_entry "document_digest" "signature" signature inner refl
                    ∙ get-with_entry "document_digest" (text digest) p);
            carries_signature =
                ap (λ v. shown (get_or (text "") v)) (get-with_entry "signature" signature inner);
            identity =
                rw
                  (
                    get_field "schema_version" p (text digest) signature refl refl,
                    get_field "kind" p (text digest) signature refl refl,
                    get_field "deployment_id" p (text digest) signature refl refl,
                  )
                  identity;
          },
        )
