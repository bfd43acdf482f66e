-- ===== src/RuntimeControl/Resolving.antt =====
-- The runtime that flowdocs/vaultops/runtime_control.py resolves.
use pdf_search.Prelude.{
  ◌≡◌, sym, ap, ◌∙◌, inl, inr, String, str_eq, eq_iff, Option, none, some, get_or, Result, ok,
  raised, ◌>>=◌, bind_ok, require_ok, ok_inj, Bool, true, false, not, ◌&&◌, nonempty, Bool-cases,
  strip, if◌then◌else◌,
}
use pdf_search.Writer.Refinement.{some_inj}
use pdf_search.RuntimeControl.Documents.{
  RuntimeControlError, runtime_pointer_invalid, production_activation_disabled,
  staging_activation_environment_required, activation_deployment_id_required, Value, text, number,
  flag, other, Document, seal, verify_document,
}
use pdf_search.RuntimeControl.Tree.{Node}
use pdf_search.RuntimeControl.Signing.{IsVerified, verified_lem}
use pdf_search.RuntimeControl.Checks.{
  Location, RuntimeWorkspace, ResolvedRuntime, Environment, as_text, is_complete_pointer,
  is_enabled, normalized_app_env, exists, active_path, previous_path,
}
use pdf_search.RuntimeControl.{
  read_json, validate_runtime_workspace, read_runtime_pointer, resolve_runtime_from_env,
}

module _ (parse : String → Option Document) (canonical_bytes : Document → String)
    (sha256 : String → String) (hmac : String → String → String) (locate : String → Location) where
  -- what stands behind a runtime that was resolved from a pointer
  pub record IsPointedTo (node : Option Node) (deployment_id signing_key root : String)
      (r : ResolvedRuntime) : Type 0 where
    pub document : Document
    pub workspace : RuntimeWorkspace
    pub runtime_path : String
    pub is_read : read_json parse node ≡ ok document
    pub verifies :
        IsVerified canonical_bytes sha256 hmac document signing_key "runtime_pointer" deployment_id
          r.pointer_digest
    pub names_path : seal "runtime_path" document ≡ text runtime_path
    pub names_generation : seal "generation_id" document ≡ r.generation_id
    pub names_manifest : seal "manifest_digest" document ≡ r.manifest_digest
    pub is_checked :
        validate_runtime_workspace parse
          (locate runtime_path)
          (locate root).resolved
          r.generation_id
          r.manifest_digest
          false
        ≡ ok workspace
    pub is_path : workspace.path ≡ r.runtime_path

  as_text_lem : (v : Value) (t : String) → as_text v ≡ ok t → v ≡ text t
  as_text_lem (text s) t h = ap text (ok_inj h)
  as_text_lem (number n) t h = cc
  as_text_lem (flag b) t h = cc
  as_text_lem (other s n) t h = cc

  read_lem :
      (node : Option Node) (deployment_id signing_key root : String) (r : ResolvedRuntime)
      → read_runtime_pointer parse canonical_bytes sha256 hmac locate node deployment_id signing_key
          root
        ≡ ok r
      → IsPointedTo node deployment_id signing_key root r
  unfolding read_runtime_pointer
  read_lem node deployment_id signing_key root r h =
      let (document, is_read, h₁) = bind_ok (read_json parse node) _ h in
      let (digest, verified, h₂) =
        bind_ok
          (verify_document canonical_bytes sha256 hmac document signing_key "runtime_pointer"
            deployment_id)
          _ h₁ in
      let (complete, _, h₃) = bind_ok (is_complete_pointer document) _ h₂ in
      let (_, h₄) = require_ok complete runtime_pointer_invalid _ h₃ in
      let (path, is_text, h₅) = bind_ok (as_text (seal "runtime_path" document)) _ h₄ in
      let (w, checked, h₆) =
        bind_ok
          (validate_runtime_workspace parse (locate path) (locate root).resolved
            (seal "generation_id" document) (seal "manifest_digest" document) false)
          _ h₅ in
      let same = ok_inj h₆ in
      let generation = ap (λ (x : ResolvedRuntime). x.generation_id) same in
      let manifest = ap (λ (x : ResolvedRuntime). x.manifest_digest) same in
      record {
        document = document;
        workspace = w;
        runtime_path = path;
        is_read = is_read;
        verifies =
            verified_lem canonical_bytes sha256 hmac document signing_key "runtime_pointer"
              deployment_id r.pointer_digest
              (verified ∙ ap (λ (x : ResolvedRuntime). ok x.pointer_digest) same);
        names_path = as_text_lem _ path is_text;
        names_generation = generation;
        names_manifest = manifest;
        is_checked =
            ap
              (λ m.
                validate_runtime_workspace parse (locate path) (locate root).resolved
                  r.generation_id m false)
              (sym manifest)
            ∙ ap
                (λ g.
                  validate_runtime_workspace parse (locate path) (locate root).resolved g
                    (seal "manifest_digest" document) false)
                (sym generation)
            ∙ checked;
        is_path = ap (λ (x : ResolvedRuntime). x.runtime_path) same;
      }

  chosen_lem :
      (initial : Bool) (m : Result RuntimeControlError ResolvedRuntime) (r : ResolvedRuntime)
      → (if initial then ok none else m >>= λ found. ok (some found)) ≡ ok (some r)
      → m ≡ ok r
  chosen_lem true m r h = cc
  chosen_lem false (ok found) r h = ap ok (some_inj (ok_inj h))
  chosen_lem false (raised e) r h = cc

  -- A runtime is resolved from the environment only where the activation is enabled and `APP_ENV` is staging,
  -- never production, and a deployment is named. It is then the runtime of a document that stands as the
  -- active pointer of the control root, with a valid signature for this deployment, and its workspace lies at
  -- the path, with the evidence of the generation and manifest, that this document names.
  pub resolved_is_verified :
      (environment : Environment) (r : ResolvedRuntime)
      → resolve_runtime_from_env parse canonical_bytes sha256 hmac locate environment ≡ ok (some r)
      → (is_enabled "STAGING_RUNTIME_ACTIVATION_ENABLED" environment ≡ true)
        × (normalized_app_env environment ≡ "staging")
        × (nonempty (strip (get_or "" (environment "DEPLOYMENT_ID"))) ≡ true)
        × IsPointedTo
            (locate
              (active_path (get_or "/app/data-control" (environment "DATA_CONTROL_ROOT")))).node
            (strip (get_or "" (environment "DEPLOYMENT_ID")))
            (get_or "" (environment "ACTIVATION_INTENT_SIGNING_KEY"))
            (get_or "/app/data/runtime-generations" (environment "RUNTIME_GENERATIONS_ROOT"))
            r
  unfolding resolve_runtime_from_env
  resolved_is_verified environment r h =
      elim (Bool-cases (is_enabled "STAGING_RUNTIME_ACTIVATION_ENABLED" environment)) [
        | inr disabled ↦
            let bad : Path (Result RuntimeControlError (Option ResolvedRuntime)) (ok none)
                (ok (some r)) =
              rw disabled at h in
            cc
        | inl enabled ↦
            let (_, h₁) =
              require_ok (not (str_eq (normalized_app_env environment) "production"))
                production_activation_disabled _ (rw enabled at h) in
            let (staging, h₂) =
              require_ok (str_eq (normalized_app_env environment) "staging")
                staging_activation_environment_required _ h₁ in
            let (named, h₃) =
              require_ok (nonempty (strip (get_or "" (environment "DEPLOYMENT_ID"))))
                activation_deployment_id_required _ h₂ in
            (
              enabled,
              (eq_iff (normalized_app_env environment) "staging").0 staging,
              named,
              read_lem _ _ _ _ r (
                  chosen_lem
                    (is_enabled "STAGING_INITIAL_ACTIVATION_ENABLED" environment
                      && not (
                          exists
                            (locate (
                              active_path (
                                get_or "/app/data-control"
                                  (environment "DATA_CONTROL_ROOT")))).node)
                      && not (
                          exists
                            (locate (
                              previous_path (
                                get_or "/app/data-control"
                                  (environment "DATA_CONTROL_ROOT")))).node))
                    _ r h₃),
            )
      ]
