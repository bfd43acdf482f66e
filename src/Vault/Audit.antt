-- ===== src/Vault/Audit.antt =====
-- flowdocs/vaultops/services/audit.py: the rows of the append-only audit table.
use pdf_search.Prelude.{ℕ, String, Option, List, ◌∷◌, ◌++◌, []}

-- what the JSON fields of an event hold
pub data Value : Type 0 where
  text : String → Value
  number : ℕ → Value
  null : Value

abbrev pub Fields : Type 0
Fields = List (String × Value)

pub record AuditEvent : Type 0 where
  pub action : String
  pub result : String
  pub correlation_id : ℕ
  pub actor_id : Option ℕ
  pub actor_name : String
  pub job_public_id : Option ℕ
  pub reason_code : String
  pub before_state : Fields
  pub after_state : Fields
  pub safe_error_code : String
  pub evidence : Fields

-- `append_event(...)` on the table
unfoldable append_event : List AuditEvent → AuditEvent → List AuditEvent
append_event events e = events ++ e ∷ []
