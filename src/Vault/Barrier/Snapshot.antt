-- ===== src/Vault/Barrier/Snapshot.antt =====
-- A snapshot taken under an active barrier sees one state of the sources.
use mathlib.Core.Path.{subst}
use pdf_search.Prelude.{
  ℕ, ◌≡◌, ◌≢◌, refl, sym, ap, ◌∙◌, inl, inr, some, arith, true, false, ok, raised, Result, List, [],
  ◌∷◌,
}
use pdf_search.Vault.Job.{Job}
use pdf_search.Vault.Barrier.{
  active, MutationState, enter_scope, leave_scope, raise_barrier, poll_barrier, release_barrier,
  is_quiesced, cleanup_owner_is_quiesced, owned_by, assert_barrier_owner, request_barrier,
  poll_loop, BarrierError,
}
use pdf_search.Vault.Barrier.System.{
  System, Step, enter, leave, raise, activate, release, clean, Party, IsLive, owned, has_token,
  has_beat, Spares, Reach, OthersReach,
}

-- the counter counts the open scopes, and under an active barrier it is 0
pub record IsSound (s : System) : Type 0 where
  pub counted : s.row.active_mutations ≡ s.open_scopes
  pub quiet : s.row.barrier_state ≡ active → s.open_scopes ≡ 0

IsSound-Step : (s t : System) {who : Party} → Step s who t → IsSound s → IsSound t
unfolding enter_scope leave_scope raise_barrier poll_barrier release_barrier
    cleanup_owner_is_quiesced
IsSound-Step s t (enter e h) v = ground (arith)
IsSound-Step s t (leave m outcome now n e h) v = ground arith
IsSound-Step s t (raise job now e h) v = ground arith
IsSound-Step s t (activate job now e h) v = ground arith
IsSound-Step s t (release job tolerate_lost done e h) v = ground arith
IsSound-Step s t (clean now grace job e) v = ground arith

IsSound-Reach : {s t : System} → IsSound s → Reach s t → IsSound t
IsSound-Reach v Reach.here = v
IsSound-Reach v (Reach.next {t = t} {u = u} r st) = IsSound-Step t u st (IsSound-Reach v r)

abbrev IsHeld : ℕ → System → Type 0
IsHeld job s = (s.row.barrier_state ≡ active) × (s.row.barrier_owner_job ≡ some job)

-- a live job is not quiesced
live_lem : (now grace : ℕ) (job : Job) → IsLive now grace job → is_quiesced now grace job ≡ false
unfolding is_quiesced
live_lem now grace job (owned (inl at)) = rw at refl
live_lem now grace job (owned (inr (inl at))) = rw at refl
live_lem now grace job (owned (inr (inr (inl at)))) = rw at refl
live_lem now grace job (owned (inr (inr (inr at)))) = rw at refl
live_lem now grace job (has_token given) = ground arith
live_lem now grace job (has_beat t at soon) = ground arith

-- a cleanup that does not find the holder quiesced leaves the row
row_kept :
    (job now grace : ℕ) (owner : Job) (row : MutationState)
    → row.barrier_owner_job ≡ some job
    → (owner.public_id ≡ job → is_quiesced now grace owner ≡ false)
    → (cleanup_owner_is_quiesced now grace owner row).1 ≡ row
unfolding cleanup_owner_is_quiesced
row_kept job now grace owner row held spared = ground (arith, spared)

frozen-Step :
    (job : ℕ) (s t : System) {who : Party}
    → Step s who t
    → Spares job who
    → IsSound s
    → IsHeld job s
    → t ≡ s
unfolding enter_scope leave_scope raise_barrier poll_barrier release_barrier
frozen-Step job s t (enter e h) n v held = ground arith
frozen-Step job s t (leave m outcome now k e h) n v held = ground arith
frozen-Step job s t (raise other now e h) n v held =
    let not_holder : other ≢ job = subst (Spares job) e n in ground (arith, not_holder)
frozen-Step job s t (activate other now e h) n v held =
    let not_holder : other ≢ job = subst (Spares job) e n in ground (arith, not_holder)
frozen-Step job s t (release other tolerate_lost done e h) n v held =
    let not_holder : other ≢ job = subst (Spares job) e n in ground (arith, not_holder)
frozen-Step job s t (clean now grace owner e) n v held =
    let live : owner.public_id ≡ job → IsLive now grace owner = subst (Spares job) e n in
    let spared : owner.public_id ≡ job → is_quiesced now grace owner ≡ false =
      λ same. live_lem now grace owner (live same) in
    let same : (cleanup_owner_is_quiesced now grace owner s.row).1 ≡ s.row =
      row_kept job now grace owner s.row held.1 spared in
    ap (λ (row : MutationState). record s { row = row }) same

-- While a job holds the active barrier, nothing that the other jobs, the request handlers and the workers
-- do, and no cleanup of a snapshot, changes the control row, its epoch or the journal: a sound system
-- stays as it is until the holder itself acts, or the cleanup of its snapshot finds it not live, that is
-- with no owner, no claim token and no heartbeat within the grace.
pub frozen_while_held :
    (job : ℕ) {s t : System} → IsSound s → IsHeld job s → OthersReach job s t → t ≡ s
frozen_while_held job v held OthersReach.here = refl
frozen_while_held job {s = s} v held (OthersReach.next {t = t} {u = u} r n st) =
    let same : t ≡ s = frozen_while_held job v held r in
    frozen-Step job t u st n (subst IsSound (sym same) v) (subst (IsHeld job) (sym same) held)
    ∙ same

-- what `request_barrier` leaves behind
abbrev pub Grants : ℕ → MutationState × Result BarrierError MutationState → Type 0
Grants job (row, ok held) = (row ≡ held) × (assert_barrier_owner job held ≡ ok held)
Grants job (row, raised e) = owned_by row.barrier_owner_job job ≡ false

owned_by_refl : (job : ℕ) → owned_by (some job) job ≡ true
owned_by_refl job = ground arith

Grants-poll_loop :
    (job now : ℕ) (polls : List MutationState) (last : MutationState)
    → Grants job (poll_loop job now polls last)
unfolding poll_loop assert_barrier_owner
Grants-poll_loop job now [] last = ground arith
Grants-poll_loop job now (state ∷ rest) last = ground (arith, Grants-poll_loop job now rest last)

-- With tracking on, `request_barrier` ends in one of two ways, whatever rows its transactions meet:
-- it returns the row that it saved, which passes `assert_barrier_owner`, or it raises and the job does
-- not own the barrier in the row that is left, also after the drain timed out.
pub request_barrier-Grants :
    (job now : ℕ) (state : MutationState) (polls : List MutationState) (last : MutationState)
    → Grants job (request_barrier true job now state polls last)
unfolding request_barrier
request_barrier-Grants job now state polls last =
    ground (arith, Grants-poll_loop job now polls last)
