-- ===== src/Vault/Confirmation/Use.antt =====
-- A confirmation is used once, by its actor, for what it was issued for.
use pdf_search.Prelude.{
  ℕ, ◌+◌, ◌<◌, ◌≡◌, refl, ◌∙◌, min, max, String, str_append, eq_iff, eq_refl, Option, none, some,
  is_some, List, [], ◌∷◌, ok, raised, is_ok, Bool, true, false, strip, arith,
}
use pdf_search.Vault.Confirmation.{
  Challenge, Claim, confirmation_error, get_challenge, mark_used, check_challenge, issue_with,
  allowed_verb, validate_row, validate_or_consume, consume_confirmation, issue_confirmation,
  new_challenge, phrase_of, phrase_hash,
}

-- has the row with this id been used?
abbrev is_used : String → List Challenge → Bool
is_used id table = elim (get_challenge id table) [ none ↦ false | some row ↦ is_some row.used_at ]

mark_used-is_used :
    (id other : String) (now : ℕ) (table : List Challenge)
    → is_used id table ≡ true
    → is_used id (mark_used other now table) ≡ true
unfolding get_challenge mark_used
mark_used-is_used id other now [] h = ground arith
mark_used-is_used id other now (row ∷ rest) h = ground (arith, mark_used-is_used id other now rest)

marked-is_used :
    (id : String) (now : ℕ) (table : List Challenge)
    → is_some (get_challenge id table) ≡ true
    → is_used id (mark_used id now table) ≡ true
unfolding get_challenge mark_used
marked-is_used id now [] h = ground arith
marked-is_used id now (row ∷ rest) h = ground (arith, marked-is_used id now rest)

module _ (hmac sha256 : String → String) where
  -- one call that returned, with the table before and after
  pub data Step (table : List Challenge) : List Challenge → Type 0 where
    issue :
        (claim : Claim) (id salt phrase : String) (expires_seconds now : ℕ) {after : List Challenge}
        → get_challenge id table ≡ none
        → issue_confirmation hmac sha256 claim id salt expires_seconds now table
          ≡ ok (phrase, after)
        → Step table after
    check :
        (consume : Bool) (id : String) (claim : Claim) (phrase digest : String) (now : ℕ)
        {after : List Challenge}
        → validate_or_consume hmac sha256 consume id claim phrase now table ≡ ok (digest, after)
        → Step table after

  pub data Reach (table : List Challenge) : List Challenge → Type 0 where
    here : Reach table table
    next : {t u : List Challenge} → Reach table t → Step t u → Reach table u

  Step-is_used :
      (id : String) (t u : List Challenge) → Step t u → is_used id t ≡ true → is_used id u ≡ true
  unfolding issue_confirmation validate_or_consume get_challenge
  Step-is_used id t u (issue claim other salt phrase expires_seconds now fresh h) used =
      ground (arith, eq_iff other id)
  Step-is_used id t u (check consume other claim phrase digest now h) used =
      ground (arith, mark_used-is_used id other now t)

  Reach-is_used :
      (id : String) {t u : List Challenge} → is_used id t ≡ true → Reach t u → is_used id u ≡ true
  Reach-is_used id used here = used
  Reach-is_used id used (next {t = t} {u = u} r s) = Step-is_used id t u s (Reach-is_used id used r)

  consume-is_used :
      (id : String) (claim : Claim) (phrase digest : String) (now : ℕ) (t u : List Challenge)
      → consume_confirmation hmac sha256 id claim phrase now t ≡ ok (digest, u)
      → is_used id u ≡ true
  unfolding consume_confirmation validate_or_consume
  consume-is_used id claim phrase digest now t u h = ground (arith, marked-is_used id now t)

  used_refused :
      (consume : Bool) (id : String) (claim : Claim) (phrase : String) (now : ℕ)
      (t : List Challenge)
      → is_used id t ≡ true
      → validate_or_consume hmac sha256 consume id claim phrase now t
        ≡ raised (confirmation_error "confirmation_replayed")
  unfolding validate_or_consume validate_row check_challenge
  used_refused consume id claim phrase now t h = ground arith

  -- A confirmation that has been consumed is refused as replayed from then on, for every actor, action
  -- and phrase, whether it is validated or consumed, whatever was issued, validated and consumed since
  -- (every new row having a new id).
  pub consumed_once :
      (id : String) (claim : Claim) (phrase digest : String) (now : ℕ) (consume : Bool)
      (other : Claim) (other_phrase : String) (later : ℕ) (t : List Challenge)
      {u v : List Challenge}
      → consume_confirmation hmac sha256 id claim phrase now t ≡ ok (digest, u)
      → Reach u v
      → validate_or_consume hmac sha256 consume id other other_phrase later v
        ≡ raised (confirmation_error "confirmation_replayed")
  consumed_once id claim phrase digest now consume other other_phrase later t {u = u} {v = v} h r =
      used_refused consume id other other_phrase later v
        (Reach-is_used id (consume-is_used id claim phrase digest now t u h) r)

  -- what the checks show of a row
  abbrev pub IsBound : Challenge → Claim → ℕ → Type 0
  IsBound row claim now =
      (row.used_at ≡ none)
      × (now < row.expires_at)
      × (row.actor_id ≡ claim.actor_id)
      × (row.action ≡ claim.action)
      × (row.target ≡ claim.target)
      × (row.state_digest ≡ claim.state_digest)

  check-IsBound :
      (row : Challenge) (claim : Claim) (phrase : String) (now : ℕ)
      → check_challenge hmac sha256 row claim phrase now ≡ ok tt
      → IsBound row claim now
  unfolding check_challenge
  check-IsBound row claim phrase now h = ground (
    arith,
    eq_iff row.action claim.action,
    eq_iff row.target claim.target,
    eq_iff row.state_digest claim.state_digest,
  )

  found-IsBound :
      (id : String) (claim : Claim) (phrase digest : String) (now : ℕ) (t : List Challenge)
      (found : Option Challenge) {u : List Challenge}
      → validate_row hmac sha256 true id claim phrase now t found ≡ ok (digest, u)
      → (row : Challenge) × (found ≡ some row) × IsBound row claim now
  unfolding validate_row
  found-IsBound id claim phrase digest now t none h = cc
  found-IsBound id claim phrase digest now t (some row) h =
      (row, refl, check-IsBound row claim phrase now (ground arith))

  -- What a successful consumption shows: the row was there, unused and not expired, and it was issued to
  -- this actor, for this action and this target, in this state.
  pub consume-IsBound :
      (id : String) (claim : Claim) (phrase digest : String) (now : ℕ) (t : List Challenge)
      {u : List Challenge}
      → consume_confirmation hmac sha256 id claim phrase now t ≡ ok (digest, u)
      → (row : Challenge) × (get_challenge id t ≡ some row) × IsBound row claim now
  unfolding consume_confirmation validate_or_consume get_challenge
  consume-IsBound id claim phrase digest now t h =
      found-IsBound id claim phrase digest now t (get_challenge id t) h

  fresh_check :
      (claim : Claim) (verb id salt typed : String) (expires_seconds now later : ℕ)
      → strip typed ≡ phrase_of verb claim.target
      → later < now + max 60 (min expires_seconds 600)
      → check_challenge hmac sha256
          (new_challenge hmac sha256 claim verb id salt expires_seconds now)
          claim
          typed
          later
        ≡ ok tt
  unfolding check_challenge phrase_hash
  fresh_check claim verb id salt typed expires_seconds now later same soon = rw same (
      ground (
        arith,
        eq_refl claim.action,
        eq_refl claim.target,
        eq_refl claim.state_digest,
        eq_refl (hmac (str_append salt (str_append ":" (phrase_of verb claim.target)))),
      ))

  issued_row :
      (claim : Claim) (id salt : String) (expires_seconds now : ℕ) (t : List Challenge)
      (verb : Option String) (phrase : String) (u : List Challenge)
      → issue_with hmac sha256 claim id salt expires_seconds now t verb ≡ ok (phrase, u)
      → (v : String) × (phrase ≡ phrase_of v claim.target)
        × (u ≡ new_challenge hmac sha256 claim v id salt expires_seconds now ∷ t)
  unfolding issue_with
  issued_row claim id salt expires_seconds now t none phrase u h = cc
  issued_row claim id salt expires_seconds now t (some v) phrase u h =
      (v, ground arith, ground arith)

  accepted_first :
      (row : Challenge) (claim : Claim) (typed : String) (later : ℕ) (t : List Challenge)
      → check_challenge hmac sha256 row claim typed later ≡ ok tt
      → is_ok (consume_confirmation hmac sha256 row.public_id claim typed later (row ∷ t)) ≡ true
  unfolding consume_confirmation validate_row get_challenge
  accepted_first row claim typed later t h = ground (arith, eq_refl row.public_id)

  -- The confirmation that was issued is accepted from the actor who asked for it, in the same state,
  -- until it expires (60 to 600 seconds later), for every typed text that is the issued phrase after
  -- `strip`.
  pub issued_accepted :
      (claim : Claim) (id salt phrase typed : String) (expires_seconds now later : ℕ)
      (t : List Challenge) {u : List Challenge}
      → issue_confirmation hmac sha256 claim id salt expires_seconds now t ≡ ok (phrase, u)
      → strip typed ≡ phrase
      → later < now + max 60 (min expires_seconds 600)
      → is_ok (consume_confirmation hmac sha256 id claim typed later u) ≡ true
  unfolding issue_confirmation
  issued_accepted claim id salt phrase typed expires_seconds now later t {u = u} h typed_right
        soon =
      let (verb, stated, table) =
        issued_row claim id salt expires_seconds now t (allowed_verb claim.action) phrase u h in
      rw table (
        accepted_first (new_challenge hmac sha256 claim verb id salt expires_seconds now) claim
          typed later t
          (fresh_check claim verb id salt typed expires_seconds now later (typed_right ∙ stated)
            soon))
