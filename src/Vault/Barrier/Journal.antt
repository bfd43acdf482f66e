-- ===== src/Vault/Barrier/Journal.antt =====
-- The journal of mutations against the epoch counter.
use pdf_search.Prelude.{
  ℕ, ◌-◌, ◌<◌, ◌≡◌, refl, arith, List, [], ◌∷◌, length, Bool-cases, ◌&&◌, not, inl, inr,
}
use pdf_search.Vault.Barrier.{
  JournalEntry, Mutation, Outcome, MutationState, enter_scope, leave_scope, raise_barrier,
  poll_barrier, release_barrier, cleanup_owner_is_quiesced, journal_since,
}
use pdf_search.Vault.Barrier.System.{
  System, Step, enter, leave, raise, activate, release, clean, Party, Reach, here, next,
}

-- newest first, the epochs `n`, `n - 1`, …, 1
abbrev IsNumbered : ℕ → List JournalEntry → Type 0
IsNumbered n [] = n ≡ 0
IsNumbered n (e ∷ rest) = (e.epoch ≡ n) × (0 < n) × IsNumbered (n - 1) rest

abbrev IsJournaled : System → Type 0
IsJournaled s = IsNumbered s.row.current_epoch s.journal

recount : (n m : ℕ) (l : List JournalEntry) → n ≡ m → IsNumbered n l → IsNumbered m l
recount n m l e h = rw e at h

leave-IsNumbered :
    (m : Mutation) (outcome : Outcome) (now : ℕ) (row : MutationState) (journal : List JournalEntry)
    → IsNumbered row.current_epoch journal
    → IsNumbered
        (leave_scope m outcome now row journal).0.current_epoch
        (leave_scope m outcome now row journal).1
unfolding leave_scope
leave-IsNumbered m outcome now row journal v =
    elim (Bool-cases (outcome.changed && not outcome.discarded)) [
      | inl yes_changed ↦
          rw yes_changed (refl, omega arith, recount row.current_epoch _ journal (omega arith) v)
      | inr unchanged ↦ rw unchanged v
    ]

IsJournaled-Step : (s t : System) {who : Party} → Step s who t → IsJournaled s → IsJournaled t
unfolding enter_scope leave_scope raise_barrier poll_barrier release_barrier
    cleanup_owner_is_quiesced
IsJournaled-Step s t (enter {row = row} e h) v = recount _ _ s.journal (ground arith) v
IsJournaled-Step s t (leave m outcome now k e h) v =
    leave-IsNumbered m outcome now s.row s.journal v
IsJournaled-Step s t (raise {row = row} other now e h) v = recount _ _ s.journal (ground arith) v
IsJournaled-Step s t (activate {row = row} other now e h) v = recount _ _ s.journal (ground arith) v
IsJournaled-Step s t (release {row = row} other tolerate_lost done e h) v =
    recount _ _ s.journal (ground arith) v
IsJournaled-Step s t (clean now grace job e) v = recount _ _ s.journal (ground arith) v

since_count :
    (e n : ℕ) (l : List JournalEntry) → IsNumbered n l → length (journal_since e l) ≡ n - e
unfolding journal_since
since_count e n [] h = ground arith
since_count e n (x ∷ rest) h = ground (arith, since_count e (n - 1) rest)

IsJournaled-Reach : {s t : System} → IsJournaled s → Reach s t → IsJournaled t
IsJournaled-Reach v here = v
IsJournaled-Reach v (next {t = t} {u = u} r st) = IsJournaled-Step t u st (IsJournaled-Reach v r)

-- Whatever transactions commit, in any order, from a system whose journal is complete: the journal
-- since an epoch has exactly one entry for each epoch passed since then.
pub journal_since_complete :
    (epoch : ℕ) {s t : System}
    → IsJournaled s
    → Reach s t
    → length (journal_since epoch t.journal) ≡ t.row.current_epoch - epoch
journal_since_complete epoch {t = t} v r =
    since_count epoch t.row.current_epoch t.journal (IsJournaled-Reach v r)
