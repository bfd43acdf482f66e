-- ===== src/Direction/Separation.antt =====
-- What the direction policy keeps apart.
use pdf_search.Prelude.{
  ◌≡◌, String, Bool, true, false, ◌&&◌, ◌||◌, not, nonempty, if◌then◌else◌, arith, refl,
}
use pdf_search.Direction.{
  Operation, backup, sync, promote, restore, activate, rollback, Identity, DirectionDecision,
  decision, writer_decision, activation_decision, restore_decision,
}

-- the operations that write the authoritative store
abbrev pub writes : Operation → Bool
writes backup = true
writes sync = true
writes promote = true
writes _ = false

-- No instance may both write the authoritative store and take data in: where any of backup, sync and
-- promote is allowed, for any dataset, no restore, activation and rollback is.
pub directions_disjoint :
    (identity : Identity) (out into : Operation) (remote other : String)
    → writes out ≡ true
    → writes into ≡ false
    → (decision identity out remote).allowed && (decision identity into other).allowed ≡ false
unfolding decision
directions_disjoint identity out into remote other o i = ground arith

-- a reason is given exactly where the decision refuses
abbrev IsReasoned : DirectionDecision → Type 0
IsReasoned d = nonempty d.reason_code ≡ not d.allowed

if-IsReasoned :
    (b : Bool) (d e : DirectionDecision)
    → IsReasoned d
    → IsReasoned e
    → IsReasoned (if b then d else e)
if-IsReasoned true d e h k = h
if-IsReasoned false d e h k = k

two_reasons :
    (b c : Bool)
    → nonempty (
        if b
        then ""
        else if c
        then "production_activation_disabled"
        else "staging_activation_disabled")
      ≡ not b
two_reasons true c = refl
two_reasons false true = refl
two_reasons false false = refl

one_reason : (b : Bool) → nonempty (if b then "" else "writer_environment_required") ≡ not b
one_reason true = refl
one_reason false = refl

restore_reason :
    (b c : Bool)
    → nonempty (
        if not b
        then if c then "restore_dataset_mismatch" else "restore_environment_required"
        else "")
      ≡ not b
restore_reason true c = refl
restore_reason false true = refl
restore_reason false false = refl

writer-IsReasoned :
    (identity : Identity) (remote : String) → IsReasoned (writer_decision identity remote)
unfolding writer_decision
writer-IsReasoned identity remote =
    if-IsReasoned (not (nonempty identity.dataset_id)) _ _ refl (one_reason _)

activation-IsReasoned :
    (identity : Identity) (remote : String) → IsReasoned (activation_decision identity remote)
unfolding activation_decision
activation-IsReasoned identity remote =
    if-IsReasoned (not (nonempty identity.dataset_id) || not (nonempty identity.deployment_id)) _ _
      refl (two_reasons _ _)

restore-IsReasoned :
    (identity : Identity) (remote : String) → IsReasoned (restore_decision identity remote)
unfolding restore_decision
restore-IsReasoned identity remote =
    if-IsReasoned (not (nonempty identity.dataset_id)) _ _ refl (restore_reason _ _)

-- A decision gives a reason exactly when it refuses.
refusal_has_reason :
    (identity : Identity) (operation : Operation) (remote : String)
    → nonempty (decision identity operation remote).reason_code
      ≡ not (decision identity operation remote).allowed
unfolding decision
refusal_has_reason identity activate remote = activation-IsReasoned identity remote
refusal_has_reason identity rollback remote = activation-IsReasoned identity remote
refusal_has_reason identity restore remote = restore-IsReasoned identity remote
refusal_has_reason identity _ remote = writer-IsReasoned identity remote
