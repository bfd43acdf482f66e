-- ===== src/Vault/Retention/Holds.antt =====
-- flowdocs/vaultops/services/retention.py: creating and releasing a retention hold. `isoformat` stands
-- for `datetime.isoformat`, `pk` for the key that the database gives a new row.
use pdf_search.Prelude.{
  ℕ, String, Option, none, some, List, [], ◌∷◌, ◌++◌, Bool, false, ◌&&◌, not, leb, ◌==◌, nonempty,
  str_eq, strip, take_chars, Result, ok, ◌>>◌, require, if◌then◌else◌,
}
use pdf_search.Vault.Audit.{AuditEvent, Fields, Value, text, number, null}
use pdf_search.Vault.Transitions.{Request}
use pdf_search.Vault.Retention.{Hold, Stored, RetentionFailure, retention_error}

-- the arguments of `create_retention_hold` after the generation
pub record HoldCall : Type 0 where
  pub reason_code : String
  pub owner_reference : String
  pub notes : String
  pub expires_at : Option ℕ
  pub idempotency_key : String

-- the hold that a call returns, the generation with its holds, and the events appended
abbrev pub HoldOutcome : Type 0
HoldOutcome = Result RetentionFailure (Hold × Stored × List AuditEvent)

-- `generation=…, idempotency_key=…` of the `get_or_create`
unfoldable pub find_hold : String → List Hold → Option Hold
find_hold key [] = none
find_hold key (hold ∷ rest) =
    let later = find_hold key rest in if str_eq hold.idempotency_key key then some hold else later

abbrev pub is_past : ℕ → Option ℕ → Bool
is_past now none = false
is_past now (some t) = leb t now

abbrev time_value : (ℕ → String) → Option ℕ → Value
time_value isoformat none = null
time_value isoformat (some t) = text (isoformat t)

-- the call after `str(…).strip()` of its texts
abbrev pub stripped : HoldCall → HoldCall
stripped call = record call {
  reason_code = strip call.reason_code;
  owner_reference = strip call.owner_reference;
  idempotency_key = strip call.idempotency_key;
}

-- the row of the stripped call
abbrev pub new_hold : ℕ → HoldCall → Hold
new_hold pk call = record {
  pk = pk;
  reason_code = take_chars 80 call.reason_code;
  owner_reference = take_chars 160 call.owner_reference;
  notes = take_chars 2000 call.notes;
  idempotency_key = take_chars 160 call.idempotency_key;
  expires_at = call.expires_at;
  released_at = none;
}

abbrev hold_event : Request → String → String → Fields → Fields → Fields → AuditEvent
hold_event by action reason_code before_state after_state evidence = record {
  action = action;
  result = "succeeded";
  correlation_id = by.correlation_id;
  actor_id = by.actor_id;
  actor_name = by.actor_name;
  job_public_id = none;
  reason_code = reason_code;
  before_state = before_state;
  after_state = after_state;
  safe_error_code = "";
  evidence = evidence;
}

-- the new row is saved and `retention_hold_created` appended
abbrev saved_hold : (ℕ → String) → Request → Stored → Hold → HoldOutcome
saved_hold isoformat by g hold = ok (
  hold,
  record g { retention_holds = g.retention_holds ++ hold ∷ [] },
  hold_event by "retention_hold_created" hold.reason_code []
        (("hold_id", number hold.pk)
          ∷ ("generation_id", text g.row.generation_id)
          ∷ ("expires_at", time_value isoformat hold.expires_at)
          ∷ [])
        (("owner_reference", text hold.owner_reference) ∷ [])
      ∷ [],
)

-- the transaction of `create_retention_hold`, on the stripped call
unfoldable pub get_or_create_hold : (ℕ → String) → ℕ → Request → HoldCall → Stored → HoldOutcome
unfolding find_hold
get_or_create_hold isoformat pk by call g =
    let created = saved_hold isoformat by g (new_hold pk call) in
    if not (nonempty call.idempotency_key)
    then created
    else elim (find_hold (take_chars 160 call.idempotency_key) g.retention_holds) [
      | some hold ↦ ok (hold, g, [])
      | none ↦ created
    ]

unfoldable pub create_retention_hold :
    (ℕ → String) → ℕ → ℕ → Request → HoldCall → Stored → HoldOutcome
unfolding get_or_create_hold
create_retention_hold isoformat now pk by call g =
    let asked = stripped call in
    do
      require (nonempty asked.reason_code && nonempty asked.owner_reference)
          (retention_error "retention_hold_fields_required" 400)
      require (not (is_past now asked.expires_at))
          (retention_error "retention_hold_expiry_invalid" 400)
      get_or_create_hold isoformat pk by asked g

-- the hold with `released_at` set, among the holds of its generation
unfoldable store_hold : Hold → List Hold → List Hold
store_hold hold [] = []
store_hold hold (h ∷ rest) =
    let after = store_hold hold rest in if h.pk == hold.pk then hold ∷ rest else h ∷ after

-- `release_retention_hold` on the locked hold of the generation
unfoldable release_retention_hold :
    (ℕ → String) → ℕ → Request → Hold → Stored → Hold × Stored × List AuditEvent
unfolding store_hold
release_retention_hold isoformat now by hold g =
    let released : Hold = record hold { released_at = some now } in
    elim hold.released_at [
      | some t ↦ (hold, g, [])
      | none ↦ (
        released,
        record g { retention_holds = store_hold released g.retention_holds },
        hold_event by "retention_hold_released" by.reason_code
              (("hold_id", number hold.pk)
                ∷ ("generation_id", text g.row.generation_id)
                ∷ ("released_at", null)
                ∷ [])
              (("released_at", text (isoformat now)) ∷ []) []
            ∷ [],
      )
    ]
