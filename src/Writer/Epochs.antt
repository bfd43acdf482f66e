-- ===== src/Writer/Epochs.antt =====
-- The epochs of the control record of flowdocs/core/global_writer.py over time.
use mathlib.Core.Path.{subst}
use pdf_search.Prelude.{
  ◌+◌, ◌≤◌, ◌≡◌, refl, sym, ap, ◌∙◌, String, Option, none, some, get_or, ok, arith,
}
use pdf_search.Writer.{epoch_of, writer_key}
use pdf_search.Writer.Store.{ConditionalStore, Codec, WriterRecord}
use pdf_search.Writer.Refinement.{
  Call, Move, stays, first, taken, renewed, released, Step, Step-Move, view, some_inj,
}

-- the register from one point of time to a later one
abbrev IsAfter : WriterRecord → WriterRecord → Type 0
IsAfter old new =
    (epoch_of old ≤ epoch_of new)
    × (epoch_of old ≡ epoch_of new → old.owner_token_hash ≡ new.owner_token_hash)

abbrev Advanced : WriterRecord → Option WriterRecord → Type 0
Advanced old after = (new : WriterRecord) × (after ≡ some new) × IsAfter old new

same_epoch_lem :
    (r new : WriterRecord)
    → new.writer_epoch ≡ r.writer_epoch
    → new.owner_token_hash ≡ r.owner_token_hash
    → IsAfter r new
same_epoch_lem r new epoch owner =
    let same : epoch_of new ≡ epoch_of r = ap (get_or 0) epoch in (omega arith, λ e. sym owner)

next_epoch_lem : (r new : WriterRecord) → new.writer_epoch ≡ some (epoch_of r + 1) → IsAfter r new
next_epoch_lem r new next =
    let raised_by : epoch_of new ≡ epoch_of r + 1 = ap (get_or 0) next in
    (omega arith, λ e. absurd (omega arith))

-- the record that the register held is the only one
advanced_lem :
    {before after : Option WriterRecord} {old r new : WriterRecord}
    → before ≡ some r
    → after ≡ some new
    → before ≡ some old
    → IsAfter r new
    → Advanced old after
advanced_lem {old = old} {r = r} {new = new} held stored at later =
    (new, stored, subst (λ x. IsAfter x new) (some_inj (sym held ∙ at)) later)

move_lem :
    (call : Call) (before after : Option WriterRecord) (old : WriterRecord)
    → Move call before after
    → before ≡ some old
    → Advanced old after
move_lem call before after old (stays same) at = (old, same ∙ at, same_epoch_lem old old refl refl)
move_lem call before after old (first now force r by empty stored one) at =
    let bad : Path (Option WriterRecord) none (some old) = sym empty ∙ at in cc
move_lem call before after old (taken now force r new by held stored next previous free) at =
    advanced_lem held stored at (next_epoch_lem r new next)
move_lem call before after old (renewed r new by held stored epoch owner) at =
    advanced_lem held stored at (same_epoch_lem r new epoch owner)
move_lem call before after old (released r new by held stored epoch owner zero) at =
    advanced_lem held stored at (same_epoch_lem r new epoch owner)

IsAfter-trans : (a b c : WriterRecord) → IsAfter a b → IsAfter b c → IsAfter a c
IsAfter-trans a b c (le₁, own₁) (le₂, own₂) =
    (omega arith, λ e. own₁ (omega arith) ∙ own₂ (omega arith))

module _ {Bytes Etag : Type 0} (store : ConditionalStore Bytes Etag) (json : Codec Bytes)
    (sha256 : Bytes → String) (token_hash : String → String) (key : String) where
  -- a history of writes to the control record of a dataset, by any number of callers
  pub data History (d : String) (s : store.State) : store.State → Type 0 where
    start : History d s s
    write :
        {s₁ s₂ : store.State} (call : Call)
        → History d s s₁
        → Step store json sha256 token_hash key d call s₁ s₂
        → History d s s₂

  -- Over any history of such writes of `acquire_global_writer`, `renew_global_writer` and
  -- `release_global_writer`, renewals with records that belong to their ETags, the control record stays, its
  -- writer epoch never falls, and an epoch has one owner: where the epoch is the same, so is the hash of
  -- the owner's token.
  pub epoch_never_falls :
      (d : String) (s s' : store.State) (old : WriterRecord)
      → writer_key d ≡ ok key
      → History d s s'
      → view store json sha256 token_hash key s ≡ some old
      → (new : WriterRecord) × (view store json sha256 token_hash key s' ≡ some new)
        × ((epoch_of old ≤ epoch_of new)
            × (epoch_of old ≡ epoch_of new → old.owner_token_hash ≡ new.owner_token_hash))
  epoch_never_falls d s s' old wk start at = (old, at, same_epoch_lem old old refl refl)
  epoch_never_falls d s s' old wk (write {s₁ = s₁} call below step) at =
      let (mid, held, later₁) = epoch_never_falls d s s₁ old wk below at in
      let (new, stored, later₂) =
        move_lem call _ _ mid (Step-Move store json sha256 token_hash key d call s₁ s' wk step)
          held in
      (new, stored, IsAfter-trans old mid new later₁ later₂)
