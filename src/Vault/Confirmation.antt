-- ===== src/Vault/Confirmation.antt =====
-- flowdocs/vaultops/services/confirmations.py: typed confirmations, each bound to an actor, an action,
-- a target and the state that the actor saw. The table is a list, newest row first; ids and salts are
-- arguments, HMAC under the secret key and SHA-256 are parameters. `compare_digest` is equality (it
-- takes ASCII texts).
pub mod Shape
pub mod Use
mod Examples
use pdf_search.Prelude.{
  ℕ, ◌+◌, min, max, String, str_append, str_eq, Option, none, some, is_some, List, [], ◌∷◌, Result,
  ok, raised, ◌>>=◌, ◌>>◌, require, if◌then◌else◌, Bool, true, false, not, ◌&&◌, ◌||◌, strip, leb,
  ◌==◌,
}
use Shape.{is_target, is_digest}

-- `ConfirmationChallenge`
pub record Challenge : Type 0 where
  pub public_id : String
  pub actor_id : ℕ
  pub action : String
  pub target : String
  pub state_digest : String
  pub phrase_salt : String
  pub phrase_digest : String
  pub expires_at : ℕ
  pub used_at : Option ℕ

-- `ConfirmationError`, with its reason code
pub data ConfirmationError : Type 0 where
  confirmation_error : String → ConfirmationError

-- `ALLOWED_ACTIONS.get(action)`
unfoldable pub allowed_verb : String → Option String
allowed_verb action =
    if str_eq action "activate_workspace"
    then some "ACTIVATE"
    else if str_eq action "rollback_runtime"
    then some "ROLLBACK"
    else if str_eq action "promote_generation"
    then some "PROMOTE"
    else if str_eq action "retire_generation"
    then some "RETIRE"
    else if str_eq action "unretire_generation"
    then some "UNRETIRE"
    else none

-- who confirms what, in which state of the system
pub record Claim : Type 0 where
  pub actor_id : ℕ
  pub action : String
  pub target : String
  pub state_digest : String

abbrev pub phrase_of : String → String → String
phrase_of verb target = str_append verb (str_append " " target)

abbrev pub is_expired : Challenge → ℕ → Bool
is_expired challenge now = leb challenge.expires_at now

-- `ConfirmationChallenge.objects.get(public_id=…)`; an id is a UUID in its usual form, and another text,
-- which raises in the framework, is not an id
unfoldable pub get_challenge : String → List Challenge → Option Challenge
get_challenge id [] = none
get_challenge id (row ∷ rest) =
    let later = get_challenge id rest in if str_eq row.public_id id then some row else later

-- `challenge.used_at = now; challenge.save()` on the row with an id
unfoldable pub mark_used : String → ℕ → List Challenge → List Challenge
mark_used id now [] = []
mark_used id now (row ∷ rest) =
    let others = mark_used id now rest in
    if str_eq row.public_id id then record row { used_at = some now } ∷ rest else row ∷ others

module _ (hmac sha256 : String → String) where
  -- `_phrase_digest`
  unfoldable pub phrase_hash : String → String → String
  phrase_hash phrase salt = hmac (str_append salt (str_append ":" phrase))

  abbrev pub new_challenge : Claim → String → String → String → ℕ → ℕ → Challenge
  new_challenge claim verb id salt expires_seconds now = record {
    public_id = id;
    actor_id = claim.actor_id;
    action = claim.action;
    target = claim.target;
    state_digest = claim.state_digest;
    phrase_salt = salt;
    phrase_digest = phrase_hash (phrase_of verb claim.target) salt;
    expires_at = now + max 60 (min expires_seconds 600);
    used_at = none;
  }

  -- `issue_confirmation` with the verb that the action has
  unfoldable pub issue_with :
      Claim
      → String
      → String
      → ℕ
      → ℕ
      → List Challenge
      → Option String
      → Result ConfirmationError (String × List Challenge)
  issue_with claim id salt expires_seconds now table none =
      raised (confirmation_error "confirmation_target_invalid")
  issue_with claim id salt expires_seconds now table (some verb) =
      if not (is_target claim.target) || not (is_digest claim.state_digest)
      then raised (confirmation_error "confirmation_target_invalid")
      else ok (
        phrase_of verb claim.target,
        new_challenge claim verb id salt expires_seconds now ∷ table,
      )

  -- the returned phrase, and the table
  unfoldable pub issue_confirmation :
      Claim
      → String
      → String
      → ℕ
      → ℕ
      → List Challenge
      → Result ConfirmationError (String × List Challenge)
  unfolding allowed_verb issue_with
  issue_confirmation claim id salt expires_seconds now table =
      issue_with claim id salt expires_seconds now table (allowed_verb claim.action)

  -- the checks of `_validate_confirmation` on a row
  unfoldable pub check_challenge :
      Challenge → Claim → String → ℕ → Result ConfirmationError (Unit {0})
  unfolding phrase_hash
  check_challenge challenge claim phrase now =
      require (not (is_some challenge.used_at)) (confirmation_error "confirmation_replayed")
      >> require (not (is_expired challenge now)) (confirmation_error "confirmation_expired")
      >> require
          (challenge.actor_id == claim.actor_id
            && str_eq challenge.action claim.action
            && str_eq challenge.target claim.target)
          (confirmation_error "confirmation_identity_mismatch")
      >> require (str_eq challenge.state_digest claim.state_digest)
          (confirmation_error "stale_state")
      >> require (str_eq challenge.phrase_digest (phrase_hash (strip phrase) challenge.phrase_salt))
          (confirmation_error "confirmation_phrase_mismatch")

  -- `confirmation_digest`
  abbrev pub confirmation_digest : Challenge → String
  confirmation_digest challenge = sha256 (
      str_append challenge.public_id (
        str_append ":"
          (str_append challenge.state_digest (str_append ":" challenge.phrase_digest))))

  -- `_validate_confirmation` on the row that the `get` found
  unfoldable pub validate_row :
      Bool
      → String
      → Claim
      → String
      → ℕ
      → List Challenge
      → Option Challenge
      → Result ConfirmationError (String × List Challenge)
  unfolding check_challenge mark_used
  validate_row consume id claim phrase now table none =
      raised (confirmation_error "confirmation_not_found")
  validate_row consume id claim phrase now table (some challenge) =
      check_challenge challenge claim phrase now
      >> ok (confirmation_digest challenge, if consume then mark_used id now table else table)

  -- `_validate_confirmation`; the returned digest and the table
  unfoldable pub validate_or_consume :
      Bool
      → String
      → Claim
      → String
      → ℕ
      → List Challenge
      → Result ConfirmationError (String × List Challenge)
  unfolding get_challenge validate_row
  validate_or_consume consume id claim phrase now table =
      validate_row consume id claim phrase now table (get_challenge id table)

  unfoldable validate_confirmation :
      String
      → Claim
      → String
      → ℕ
      → List Challenge
      → Result ConfirmationError (String × List Challenge)
  unfolding validate_or_consume
  validate_confirmation id claim phrase now table =
      validate_or_consume false id claim phrase now table

  unfoldable pub consume_confirmation :
      String
      → Claim
      → String
      → ℕ
      → List Challenge
      → Result ConfirmationError (String × List Challenge)
  unfolding validate_or_consume
  consume_confirmation id claim phrase now table =
      validate_or_consume true id claim phrase now table
