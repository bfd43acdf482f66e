-- ===== src/Vault/Transitions/Runtime.antt =====
-- How a generation comes to be active.
use pdf_search.Prelude.{◌≡◌, ◌⊎◌, String, List, [], Bool, true, false, any, ok, arith}
use pdf_search.Vault.Audit.{AuditEvent}
use pdf_search.Vault.States.{RuntimeState, RuntimeState-discrete}
use pdf_search.Vault.Transitions.{Generation, Request, transition_generation_runtime_state}
use pdf_search.Vault.Transitions.Tables.{holds, guard_transition, runtime_transitions}

runtime_guard :
    (current requested : RuntimeState) (reason : String)
    → guard_transition RuntimeState-discrete current requested runtime_transitions reason ≡ ok tt
    → (requested ≡ current)
      ⊎ (any (λ s. holds (RuntimeState-discrete requested s)) (runtime_transitions current) ≡ true)
unfolding guard_transition
runtime_guard current requested reason h = ground arith

-- the states from which a generation becomes active
abbrev can_activate : RuntimeState → Bool
can_activate RuntimeState.applying = true
can_activate RuntimeState.active = true
can_activate RuntimeState.previous = true
can_activate RuntimeState.rolled_back = true
can_activate RuntimeState.unknown = true
can_activate _ = false

listed :
    (current : RuntimeState)
    → any (λ s. holds (RuntimeState-discrete RuntimeState.active s)) (runtime_transitions current)
      ≡ true
    → can_activate current ≡ true
unfolding runtime_transitions RuntimeState-discrete
listed current h = ground arith

-- A generation is made active only from `applying`, from a state in which it was active before
-- (`active`, `previous`, `rolled_back`) or from `unknown`: not from `inactive`, `pending`,
-- `rollback_pending` or `activation_failed`.
activated_from :
    (g : Generation) (by : Request) {h : Generation} {events : List AuditEvent}
    → transition_generation_runtime_state g RuntimeState.active by ≡ ok (h, events)
    → can_activate g.runtime_state ≡ true
unfolding transition_generation_runtime_state
activated_from g by e = ground (
  arith,
  runtime_guard g.runtime_state RuntimeState.active "invalid_runtime_transition",
  listed g.runtime_state,
)

-- A transition that was carried out can be asked for again, by anyone: the row stays and no event is
-- appended.
repeated_transition :
    (g : Generation) (requested : RuntimeState) (by later : Request) {h : Generation}
    {events : List AuditEvent}
    → transition_generation_runtime_state g requested by ≡ ok (h, events)
    → transition_generation_runtime_state h requested later ≡ ok (h, [])
unfolding transition_generation_runtime_state guard_transition
repeated_transition g requested by later e = ground arith
