-- ===== src/Vault/Confirmation/Examples.antt =====
-- The confirmation of an activation.
use pdf_search.Prelude.{
  ◌≡◌, refl, String, none, some, [], ◌∷◌, ok, raised, is_ok, true, arith, strip,
}
use pdf_search.Vault.Confirmation.{
  Challenge, Claim, confirmation_error, issue_confirmation, consume_confirmation,
  validate_or_consume, get_challenge, phrase_hash, confirmation_digest,
}
use pdf_search.Vault.Confirmation.Shape.{is_target, is_digest}
use pdf_search.Vault.Confirmation.Use.{
  consumed_once, consume-IsBound, IsBound, issued_accepted, here,
}

-- stands for both hashes
abbrev plain : String → String
plain s = s

abbrev activation : Claim
activation = record {
  actor_id = 3;
  action = "activate_workspace";
  target = "ws-1";
  state_digest = "0123456789abcdef0123456789abcdef0123456789abcdef0123456789abcdef";
}

abbrev issued : Challenge
issued = record {
  public_id = "c1";
  actor_id = 3;
  action = "activate_workspace";
  target = "ws-1";
  state_digest = "0123456789abcdef0123456789abcdef0123456789abcdef0123456789abcdef";
  phrase_salt = "salt";
  phrase_digest = "salt:ACTIVATE ws-1";
  expires_at = 400;
  used_at = none;
}

was_issued :
    issue_confirmation plain plain activation "c1" "salt" 300 100 []
    ≡ ok ("ACTIVATE ws-1", issued ∷ [])
unfolding issue_confirmation phrase_hash is_target is_digest
was_issued = refl

was_consumed :
    consume_confirmation plain plain "c1" activation " ACTIVATE ws-1\n" 150 (issued ∷ [])
    ≡ ok (confirmation_digest plain plain issued, record issued { used_at = some 150 } ∷ [])
unfolding consume_confirmation strip
was_consumed = refl

consumed_once_example :
    validate_or_consume plain plain true "c1" activation "ACTIVATE ws-1" 160
      (record issued { used_at = some 150 } ∷ [])
    ≡ raised (confirmation_error "confirmation_replayed")
consumed_once_example =
    consumed_once plain plain "c1" activation " ACTIVATE ws-1\n"
      (confirmation_digest plain plain issued) 150 true activation "ACTIVATE ws-1" 160 (issued ∷ [])
      {u = record issued { used_at = some 150 } ∷ []}
      {v = record issued { used_at = some 150 } ∷ []} was_consumed here

consume-IsBound_example :
    (row : Challenge) × (get_challenge "c1" (issued ∷ []) ≡ some row)
    × IsBound plain plain row activation 150
consume-IsBound_example =
    consume-IsBound plain plain "c1" activation " ACTIVATE ws-1\n"
      (confirmation_digest plain plain issued) 150 (issued ∷ [])
      {u = record issued { used_at = some 150 } ∷ []} was_consumed

issued_accepted_example :
    is_ok (consume_confirmation plain plain "c1" activation "ACTIVATE ws-1 " 399 (issued ∷ []))
    ≡ true
unfolding strip
issued_accepted_example =
    issued_accepted plain plain activation "c1" "salt" "ACTIVATE ws-1" "ACTIVATE ws-1 " 300 100 399
      [] {u = issued ∷ []} was_issued refl (omega arith)
