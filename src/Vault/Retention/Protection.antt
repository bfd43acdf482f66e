-- ===== src/Vault/Retention/Protection.antt =====
-- Retirement and holds of flowdocs/vaultops/services/retention.py.
use pdf_search.Prelude.{
  ℕ, ◌≡◌, refl, sym, ap, ◌∙◌, String, str_eq, eq_refl, take_chars, nonempty, strip, none, some,
  Option-cases, List, [], ◌∷◌, ◌++◌, Bool, true, false, ◌&&◌, not, Bool-cases, inl, inr, any,
  filter, is_empty, when, Result, ok, raised, if◌then◌else◌, bind_ok, require_ok, ok_inj, arith,
}
use pdf_search.Vault.Audit.{AuditEvent}
use pdf_search.Vault.States.{VaultState, VaultState-discrete}
use pdf_search.Vault.Transitions.Tables.{holds, guard_transition, vault_transitions}
use pdf_search.Vault.Transitions.{
  Generation, Outcome, Request, is_local_maintenance, transition_generation_vault_state,
}
use pdf_search.Vault.Retention.{
  Hold, Stored, Tables, is_active_hold, has_hold, is_authoritative, is_in_progress,
  is_protected_runtime, has_workspace, generation_protection_reasons, is_blocking,
  retire_generation, move_to, saved, RetentionOutcome, RetentionFailure, retention_error, conflict,
}
use pdf_search.Vault.Retention.Holds.{
  HoldCall, HoldOutcome, create_retention_hold, get_or_create_hold, find_hold, new_hold, stripped,
  is_past,
}
use pdf_search.Vault.Retention.Garbage.{Settings, is_eligible}
use pdf_search.Vault.Retention.Deletion.{eligible-MayCollect}

blocking_filter :
    (tables : Tables) (now : ℕ) (g : Stored)
    → is_empty (filter is_blocking (generation_protection_reasons tables now g))
      ≡ not (is_authoritative tables g)
        && (not (is_in_progress tables g) && not (is_protected_runtime g.row.runtime_state))
unfolding generation_protection_reasons is_blocking
blocking_filter tables now g =
    go (is_authoritative tables g) (is_in_progress tables g)
      (is_protected_runtime g.row.runtime_state) (has_hold now g) (has_workspace g)
  where
    go :
        (a b c d e : Bool)
        → is_empty (
            filter is_blocking (
              when a "generation_authoritative"
              ++ (when b "generation_job_in_progress"
                  ++ (when c "generation_runtime_referenced"
                      ++ (when d "retention_hold_active" ++ when e "workspace_referenced")))))
          ≡ not a && (not b && not c)
    go a b c d e = ground arith

none_of_three :
    (a b c : Bool) → not a && (not b && not c) ≡ true → (a ≡ false) × (b ≡ false) × (c ≡ false)
none_of_three a b c h = ground arith

-- a transition that returns leaves the row in the state asked for
transition_lem :
    (row : Generation) (state : VaultState) (by : Request) {after : Generation}
    {events : List AuditEvent}
    → transition_generation_vault_state row state by ≡ ok (after, events)
    → after.vault_state ≡ state
unfolding transition_generation_vault_state
transition_lem row state by {after = after} {events = events} h =
    let (_, rest) = require_ok (not (is_local_maintenance row.origin)) _ _ h in
    let (_, _, last) =
      bind_ok
        (guard_transition VaultState-discrete row.vault_state state vault_transitions
          "invalid_vault_transition")
        _ rest in
    go _ (VaultState-discrete state row.vault_state) last
  where
    go :
        (moved : List AuditEvent) (d : Dec (state ≡ row.vault_state))
        → Path
            (Outcome VaultState Generation)
            (if holds d then ok (row, []) else ok (record row { vault_state = state }, moved))
            (ok (after, events))
        → after.vault_state ≡ state
    go moved (yes p) e = sym (ap (λ r. r.0.vault_state) (ok_inj e)) ∙ sym p
    go moved (no n) e = sym (ap (λ r. r.0.vault_state) (ok_inj e))

move_to_lem :
    (g : Stored) (state : VaultState) (by : Request) (now : ℕ) {g' : Stored}
    {events : List AuditEvent}
    → move_to g state by now ≡ ok (g', events)
    → g'.row.vault_state ≡ state
move_to_lem g state by now {g' = g'} {events = events} h =
    let (row, more, moved, same) = go (transition_generation_vault_state g.row state by) h in
    ap (λ (r : Generation). r.vault_state) same ∙ transition_lem g.row state by moved
  where
    go :
        (t : Outcome VaultState Generation)
        → Path RetentionOutcome
            (elim t [
              | ok (row, events₁) ↦ ok (saved g row now, events₁)
              | raised e ↦ raised (conflict e)
            ])
            (ok (g', events))
        → (row : Generation) × (more : List AuditEvent) × (t ≡ ok (row, more)) × (g'.row ≡ row)
    go (ok (row, more)) e = (row, more, refl, sym (ap (λ r. r.0.row) (ok_inj e)))
    go (raised e) h = cc

no_reason :
    {A : Type 0} (reasons : List String) (k : Result RetentionFailure A) {a : A}
    → (elim reasons [ [] ↦ k | reason ∷ more ↦ raised (retention_error reason 409) ]) ≡ ok a
    → (is_empty reasons ≡ true) × (k ≡ ok a)
no_reason [] k h = (refl, h)
no_reason (reason ∷ more) k h = cc

-- A generation that is retired is not authoritative, in no runtime state that counts as in use, and
-- named by no unfinished job, and its vault state is retired.
retired_is_unused :
    (tables : Tables) (now : ℕ) (by : Request) (g : Stored) {g' : Stored} {events : List AuditEvent}
    → retire_generation tables now by g ≡ ok (g', events)
    → (is_authoritative tables g ≡ false)
      × (is_in_progress tables g ≡ false)
      × (is_protected_runtime g.row.runtime_state ≡ false)
      × (g'.row.vault_state ≡ VaultState.retired)
unfolding retire_generation
retired_is_unused tables now by g h =
    let (none_left, moved) =
      no_reason (filter is_blocking (generation_protection_reasons tables now g))
        (move_to g VaultState.retired by now) h in
    let (a, b, c) =
      none_of_three (is_authoritative tables g) (is_in_progress tables g)
        (is_protected_runtime g.row.runtime_state)
        (sym (blocking_filter tables now g) ∙ none_left) in
    (a, b, c, move_to_lem g VaultState.retired by now moved)

held_append :
    (t : ℕ) (hold : Hold) (holds : List Hold)
    → is_active_hold t hold ≡ true
    → any (is_active_hold t) (holds ++ hold ∷ []) ≡ true
held_append t hold [] h = rw h refl
held_append t hold (x ∷ xs) h = rw (held_append t hold xs h) (ground arith)

held_found :
    (t : ℕ) (key : String) (hold : Hold) (holds : List Hold)
    → find_hold key holds ≡ some hold
    → is_active_hold t hold ≡ true
    → any (is_active_hold t) holds ≡ true
unfolding find_hold
held_found t key hold [] e h = cc
held_found t key hold (x ∷ xs) e h = elim (Bool-cases (str_eq x.idempotency_key key)) [
  | inl same ↦
      let first : some x ≡ some hold = rw same at e in
      let which : x ≡ hold = cc in
      let active : is_active_hold t x ≡ true = ap (is_active_hold t) which ∙ h in rw active refl
  | inr other ↦ rw (held_found t key hold xs (rw other at e) h) (ground arith)
]

held_by :
    (isoformat : ℕ → String) (pk : ℕ) (by : Request) (call : HoldCall) (g : Stored) {hold : Hold}
    {g' : Stored} {events : List AuditEvent} (t : ℕ)
    → get_or_create_hold isoformat pk by call g ≡ ok (hold, g', events)
    → is_active_hold t hold ≡ true
    → has_hold t g' ≡ true
unfolding get_or_create_hold
held_by isoformat pk by call g {hold = hold} {g' = g'} t h active =
    elim (Bool-cases (nonempty call.idempotency_key)) [
      | inr blank ↦ added (rw blank at h)
      | inl keyed ↦
          elim (Option-cases (find_hold (take_chars 160 call.idempotency_key) g.retention_holds)) [
            | inl new ↦ added (rw (keyed, new) at h)
            | inr (found, is_found) ↦
                let same = ok_inj (rw (keyed, is_found) at h) in
                ap (λ (x : Stored). has_hold t x) (sym (ap (λ r. r.1) same))
                ∙ held_found t (take_chars 160 call.idempotency_key) hold g.retention_holds
                    (is_found ∙ ap some (ap (λ r. r.0) same)) active
          ]
    ]
  where
    added :
        {more events₁ : List AuditEvent}
        → Path HoldOutcome
            (ok (
              new_hold pk call,
              record g { retention_holds = g.retention_holds ++ new_hold pk call ∷ [] },
              more,
            ))
            (ok (hold, g', events₁))
        → has_hold t g' ≡ true
    added e =
        ap (λ (x : Stored). has_hold t x) (sym (ap (λ r. r.1) (ok_inj e)))
        ∙ held_append t (new_hold pk call) g.retention_holds
            (ap (is_active_hold t) (ap (λ r. r.0) (ok_inj e)) ∙ active)

-- As long as the hold that `create_retention_hold` returned is active, the generation is protected: it
-- cannot be collected, whether the hold is a new one or the one that an earlier call with the same key
-- created.
hold_protects :
    (isoformat : ℕ → String) (now pk : ℕ) (by : Request) (call : HoldCall) (g : Stored)
    {hold : Hold} {g' : Stored} {events : List AuditEvent} (tables : Tables) (settings : Settings)
    (t : ℕ)
    → create_retention_hold isoformat now pk by call g ≡ ok (hold, g', events)
    → is_active_hold t hold ≡ true
    → is_eligible tables settings t g' ≡ false
unfolding create_retention_hold
hold_protects isoformat now pk by call g {g' = g'} tables settings t h active =
    let asked = stripped call in
    let (_, rest) =
      require_ok (nonempty asked.reason_code && nonempty asked.owner_reference) _ _ h in
    let (_, made) = require_ok (not (is_past now asked.expires_at)) _ _ rest in
    let held = held_by isoformat pk by asked g t made active in
    elim (Bool-cases (is_eligible tables settings t g')) [
      | inr out ↦ out
      | inl fit ↦
          let free = (eligible-MayCollect tables settings t g' fit).no_hold in
          let bad : true ≡ false = sym held ∙ free in cc
    ]

find_hold-append :
    (hold : Hold) (holds : List Hold)
    → find_hold hold.idempotency_key holds ≡ none
    → find_hold hold.idempotency_key (holds ++ hold ∷ []) ≡ some hold
unfolding find_hold
find_hold-append hold [] e = rw (eq_refl hold.idempotency_key) refl
find_hold-append hold (x ∷ xs) e =
    elim (Bool-cases (str_eq x.idempotency_key hold.idempotency_key)) [
      | inl same ↦ let bad : some x ≡ none = rw same at e in cc
      | inr other ↦ rw other (find_hold-append hold xs (rw other at e))
    ]

-- the hold that a call with a key returned is found by the key
found_again :
    (isoformat : ℕ → String) (pk : ℕ) (by : Request) (call : HoldCall) (g : Stored) {hold : Hold}
    {g' : Stored} {events : List AuditEvent}
    → nonempty call.idempotency_key ≡ true
    → get_or_create_hold isoformat pk by call g ≡ ok (hold, g', events)
    → find_hold (take_chars 160 call.idempotency_key) g'.retention_holds ≡ some hold
unfolding get_or_create_hold
found_again isoformat pk by call g {hold = hold} {g' = g'} keyed made =
    elim (Option-cases (find_hold (take_chars 160 call.idempotency_key) g.retention_holds)) [
      | inl new ↦
          let same = ok_inj (rw (keyed, new) at made) in
          ap (λ (x : Stored). find_hold (take_chars 160 call.idempotency_key) x.retention_holds)
            (sym (ap (λ r. r.1) same))
          ∙ find_hold-append (new_hold pk call) g.retention_holds new
          ∙ ap some (ap (λ r. r.0) same)
      | inr (hit, is_hit) ↦
          let same = ok_inj (rw (keyed, is_hit) at made) in
          ap (λ (x : Stored). find_hold (take_chars 160 call.idempotency_key) x.retention_holds)
            (sym (ap (λ r. r.1) same))
          ∙ is_hit
          ∙ ap some (ap (λ r. r.0) same)
    ]

-- The second call of `create_retention_hold` with the same arguments, a key among them, at any time at
-- which the expiry has not passed, returns the hold of the first call and changes nothing: no second
-- hold and no second event.
create_hold_twice :
    (isoformat : ℕ → String) (now pk : ℕ) (by : Request) (call : HoldCall) (g : Stored)
    {hold : Hold} {g' : Stored} {events : List AuditEvent} (later other_pk : ℕ) (other : Request)
    → nonempty (strip call.idempotency_key) ≡ true
    → is_past later call.expires_at ≡ false
    → create_retention_hold isoformat now pk by call g ≡ ok (hold, g', events)
    → create_retention_hold isoformat later other_pk other call g' ≡ ok (hold, g', [])
unfolding create_retention_hold get_or_create_hold
create_hold_twice isoformat now pk by call g {hold = hold} {g' = g'} {events = events} later
      other_pk other keyed in_time h =
    let asked = stripped call in
    let key = take_chars 160 asked.idempotency_key in
    let (filled, rest) =
      require_ok (nonempty asked.reason_code && nonempty asked.owner_reference) _ _ h in
    let (_, made) = require_ok (not (is_past now asked.expires_at)) _ _ rest in
    let found : find_hold key g'.retention_holds ≡ some hold =
      found_again isoformat pk by asked g keyed made in
    rw (filled, in_time, keyed, found) refl
