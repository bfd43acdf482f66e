-- ===== src/Writer/Race.antt =====
-- Two callers of `acquire_global_writer` of flowdocs/core/global_writer.py at once.
use pdf_search.Prelude.{
  ℕ, ◌+◌, ◌≡◌, refl, sym, ap, ◌∙◌, inl, inr, String, Option, none, some, get_or, Bool, true, false,
  Bool-cases, ok, is_ok, arith,
}
use pdf_search.Writer.{
  WriterClaim, Existing, epoch_of, claimed_record, claimed_epoch, condition_for, object_of,
  write_record, check_existing, write_claim,
}
use pdf_search.Writer.Store.{Meets, ConditionalStore, Codec, WriterRecord}
use pdf_search.Writer.Refinement.{
  IsTagged, read-IsTagged, existing_lem, parsed, current_lem, some_inj,
}
use pdf_search.Writer.Fencing.{written_lem}

module _ {Bytes Etag : Type 0} (store : ConditionalStore Bytes Etag) (json : Codec Bytes)
    (sha256 : Bytes → String) (token_hash : String → String) (key : String) where
  -- a write on the condition of what was read fails once another record with the next epoch is stored
  condition_gone :
      (s : store.State) (existing : Existing Etag) (new : WriterRecord) (immutable : Bool)
      {etag₁ : Etag}
      → ((r : WriterRecord) (etag : Etag)
          → existing ≡ some (r, etag)
          → IsTagged store json sha256 token_hash key r etag)
      → new.writer_epoch ≡ some (claimed_epoch store json sha256 token_hash existing)
      → store.content s key ≡ some (object_of store json sha256 token_hash new immutable, etag₁)
      → Meets (condition_for existing) (store.content s key)
      → ⊥
  unfolding claimed_epoch
  condition_gone s none new immutable genuine epoch stored met = let bad = sym stored ∙ met in cc
  condition_gone s (some (r, etag)) new immutable genuine epoch stored met =
      let tagged = genuine r etag refl in
      let filled : store.filled etag ≡ true =
        ap store.filled tagged.1 ∙ store.tag_filled tagged.0 in
      let current : Path (Option WriterRecord) (some r) (some new) =
        sym (current_lem store json sha256 token_hash key s r etag tagged met)
        ∙ ap (parsed store json sha256 token_hash key) stored
        ∙ json.parse-encode new in
      let same : epoch_of r ≡ epoch_of new = ap epoch_of (some_inj current) in
      let next : epoch_of new ≡ epoch_of r + 1 = ap (get_or 0) epoch ∙ rw filled refl in omega arith

  -- Of two calls of `acquire_global_writer` that read the same in the control record, at most one gets it:
  -- once the write of the first has returned, the write of the second on the store that it left raises.
  pub lost_race :
      (d : String) (s₀ s : store.State) (existing : Existing Etag) (now₁ now₂ : ℕ)
      (token₁ token₂ : String) (claim₁ claim₂ : WriterClaim)
      → check_existing store json sha256 token_hash s₀ key now₁ claim₁ ≡ ok existing
      → check_existing store json sha256 token_hash s₀ key now₂ claim₂ ≡ ok existing
      → is_ok (write_claim store json sha256 token_hash s key d now₁ token₁ claim₁ existing).1
        ≡ true
      → is_ok
          (write_claim store json sha256 token_hash
            (write_claim store json sha256 token_hash s key d now₁ token₁ claim₁ existing).0
            key
            d
            now₂
            token₂
            claim₂
            existing).1
        ≡ false
  unfolding write_claim claimed_record
  lost_race d s₀ s existing now₁ now₂ token₁ token₂ claim₁ claim₂ read₁ read₂ won =
      let (reads, _) = existing_lem store json sha256 token_hash key s₀ now₁ claim₁ read₁ in
      let new = claimed_record store json sha256 token_hash d now₁ token₁ claim₁ existing in
      let other = claimed_record store json sha256 token_hash d now₂ token₂ claim₂ existing in
      let s₁ =
        (write_record store json sha256 token_hash s key (condition_for existing) new true
          token₁).0 in
      let (_, (etag, stored)) =
        written_lem store json sha256 token_hash key s (condition_for existing) new true token₁
          won in
      elim (Bool-cases (
        is_ok
          (write_record store json sha256 token_hash s₁ key (condition_for existing) other true
            token₂).1)) [
              | inr refused ↦ refused
              | inl written ↦
                  let (met, _) =
                    written_lem store json sha256 token_hash key s₁ (condition_for existing) other
                      true token₂ written in
                  absurd (
                    condition_gone s₁ existing new true
                      (λ r e at. read-IsTagged store json sha256 token_hash key s₀ r e reads at)
                      refl stored met)
            ]
