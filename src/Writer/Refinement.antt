-- ===== src/Writer/Refinement.antt =====
-- The control record of flowdocs/core/global_writer.py as a register that moves atomically.
use pdf_search.Prelude.{
  ℕ, ◌+◌, ◌≤◌, ◌≡◌, refl, sym, ap, ◌∙◌, ◌⊎◌, inl, inr, String, str_eq, nonempty, Option, none, some,
  Bool, true, false, ◌&&◌, not, ltb, Bool-cases, Result, ok, raised, bind_ok, require_ok, ok_inj,
  ◌>>=◌, arith, if◌then◌else◌,
}
use pdf_search.Writer.{
  WriterClaim, Handle, Existing, WriterError, read_failed, record_malformed, digest_mismatch,
  epoch_of, expiry_of, writer_key, is_held_from, claimed_epoch, claimed_record, object_of,
  read_object, read_writer_record, write_record, check_existing, write_claim, renew_global_writer,
  renewed_record, check_release, is_owner, released_record, write_release,
}
use pdf_search.Writer.Store.{
  Object, Fetched, missing, failed, found, Condition, if_none_match, if_match, Meets,
  ConditionalStore, Codec, WriterRecord,
}

-- the calls, an acquisition with its clock and its `force_takeover`
pub data Call : Type 0 where
  acquiring : (now : ℕ) (force_takeover : Bool) → Call
  renewing releasing : Call

-- The moves of the register, which holds the control record where there is one, that each call may make.
pub data Move (call : Call) (before after : Option WriterRecord) : Type 0 where
  stays : after ≡ before → Move call before after
  first :
      (now : ℕ) (force : Bool) (r : WriterRecord)
      → call ≡ acquiring now force
      → before ≡ none
      → after ≡ some r
      → r.writer_epoch ≡ some 1
      → Move call before after
  taken :
      (now : ℕ) (force : Bool) (old new : WriterRecord)
      → call ≡ acquiring now force
      → before ≡ some old
      → after ≡ some new
      → new.writer_epoch ≡ some (epoch_of old + 1)
      → new.previous_epoch ≡ old.writer_epoch
      → (expiry_of old ≤ now) ⊎ (force ≡ true)
      → Move call before after
  renewed :
      (old new : WriterRecord)
      → call ≡ renewing
      → before ≡ some old
      → after ≡ some new
      → new.writer_epoch ≡ old.writer_epoch
      → new.owner_token_hash ≡ old.owner_token_hash
      → Move call before after
  released :
      (old new : WriterRecord)
      → call ≡ releasing
      → before ≡ some old
      → after ≡ some new
      → new.writer_epoch ≡ old.writer_epoch
      → new.owner_token_hash ≡ old.owner_token_hash
      → new.expires_at ≡ some 0
      → Move call before after

free_lem :
    (now expiry : ℕ) (force : Bool)
    → not (ltb now expiry && not force) ≡ true
    → (expiry ≤ now) ⊎ (force ≡ true)
free_lem now expiry true h = inr refl
free_lem now expiry false h = inl (ground arith)

pub some_inj : {A : Type 0} {x a : A} → Path (Option A) (some x) (some a) → x ≡ a
some_inj h = cc

module _ {Bytes Etag : Type 0} (store : ConditionalStore Bytes Etag) (json : Codec Bytes)
    (sha256 : Bytes → String) (token_hash : String → String) (key : String) where
  abbrev pub parsed : Option (Object Bytes × Etag) → Option WriterRecord
  parsed none = none
  parsed (some (o, etag)) = json.parse o.body

  -- the register: the record that is stored
  abbrev pub view : store.State → Option WriterRecord
  view s = parsed (store.content s key)

  -- the ETag belongs to the record: what `_read_writer_record` finds, and what the writes return
  abbrev pub IsTagged : WriterRecord → Etag → Type 0
  IsTagged r etag = (body : Bytes) × (etag ≡ store.tag body) × (json.parse body ≡ some r)

  object_found :
      (o : Object Bytes) (etag : Etag) (outcome : Option WriterRecord) {existing : Existing Etag}
      (r : WriterRecord) (e : Etag)
      → json.parse o.body ≡ outcome
      → (elim outcome [
        | none ↦ raised record_malformed
        | some r₁ ↦
            if nonempty o.sha256 && not (str_eq o.sha256 (sha256 o.body))
            then raised digest_mismatch
            else ok (some (r₁, etag))
      ])
        ≡ ok existing
      → existing ≡ some (r, e)
      → (json.parse o.body ≡ some r) × (etag ≡ e)
  object_found o etag none r e reads h found_it = cc
  object_found o etag (some r₁) {existing = existing} r e reads h found_it =
      elim (Bool-cases (nonempty o.sha256 && not (str_eq o.sha256 (sha256 o.body)))) [
        | inl wrong ↦
            let bad : Path (Result WriterError (Existing Etag)) (raised digest_mismatch)
                (ok existing) =
              rw wrong at h in
            cc
        | inr right ↦
            let both : Path (Existing Etag) (some (r₁, etag)) (some (r, e)) =
              ok_inj (rw right at h) ∙ found_it in
            let pair = some_inj both in (reads ∙ ap some (ap (λ p. p.0) pair), ap (λ p. p.1) pair)
      ]

  -- what a read returned is what is stored
  read_found :
      (s : store.State) {existing : Existing Etag} (r : WriterRecord) (etag : Etag)
      → read_writer_record store json sha256 token_hash s key ≡ ok existing
      → existing ≡ some (r, etag)
      → (o : Object Bytes) × (store.content s key ≡ some (o, etag)) × (json.parse o.body ≡ some r)
  unfolding read_writer_record read_object
  read_found s {existing = existing} r etag h e = go (store.get s key) refl h
    where
      go :
          (fetched : Fetched Bytes Etag)
          → store.get s key ≡ fetched
          → (elim fetched [
            | missing ↦ ok none
            | failed ↦ raised read_failed
            | found o etag₁ ↦ read_object store json sha256 token_hash o etag₁
          ])
            ≡ ok existing
          → (o : Object Bytes) × (store.content s key ≡ some (o, etag))
            × (json.parse o.body ≡ some r)
      go missing at h = let bad : Path (Existing Etag) none (some (r, etag)) = ok_inj h ∙ e in cc
      go failed at h = cc
      go (found o etag₁) at h =
          let (reads, same) = object_found o etag₁ (json.parse o.body) r etag refl h e in
          (o, store.get_found s key o etag₁ at ∙ ap (λ t. some (o, t)) same, reads)

  pub read-IsTagged :
      (s : store.State) {existing : Existing Etag} (r : WriterRecord) (etag : Etag)
      → read_writer_record store json sha256 token_hash s key ≡ ok existing
      → existing ≡ some (r, etag)
      → IsTagged r etag
  read-IsTagged s r etag h e =
      let (o, stored, reads) = read_found s r etag h e in
      (o.body, store.content_tag s key o etag stored, reads)

  pub read_view :
      (s : store.State) (r : WriterRecord) (etag : Etag)
      → read_writer_record store json sha256 token_hash s key ≡ ok (some (r, etag))
      → view s ≡ some r
  read_view s r etag h =
      let (o, stored, reads) = read_found s r etag h refl in ap parsed stored ∙ reads

  -- the record that a write with `IfMatch` replaces is the one that belongs to the ETag
  pub current_lem :
      (s : store.State) (r : WriterRecord) (etag : Etag)
      → IsTagged r etag
      → Meets (if_match etag) (store.content s key)
      → view s ≡ some r
  current_lem s r etag (body, tagged, reads) (o, stored) =
      let same : o.body ≡ body =
        store.tag_injective o.body body (sym (store.content_tag s key o etag stored) ∙ tagged) in
      ap parsed stored ∙ ap json.parse same ∙ reads

  -- a conditional write leaves the register as it is, or its condition held and the record is stored
  write_lem :
      (s : store.State) (c : Condition Etag) (r : WriterRecord) (immutable : Bool) (token : String)
      → let s' = (write_record store json sha256 token_hash s key c r immutable token).0 in
        (view s' ≡ view s) ⊎ (Meets c (store.content s key) × (view s' ≡ some r))
  unfolding write_record
  write_lem s c r immutable token =
      elim (store.put_effect s key c (object_of store json sha256 token_hash r immutable)) [
        | inl kept ↦ inl (ap parsed kept)
        | inr (met, stored) ↦ inr (met, ap parsed stored ∙ json.parse-encode r)
      ]

  pub existing_lem :
      (s : store.State) (now : ℕ) (claim : WriterClaim) {existing : Existing Etag}
      → check_existing store json sha256 token_hash s key now claim ≡ ok existing
      → (read_writer_record store json sha256 token_hash s key ≡ ok existing)
        × (not (is_held_from now claim existing) ≡ true)
  unfolding check_existing
  existing_lem s now claim {existing = existing} h =
      let (read, reads, rest) =
        bind_ok (read_writer_record store json sha256 token_hash s key) _ h in
      let (free, last) = require_ok (not (is_held_from now claim read)) _ _ rest in
      (reads ∙ last, ap (λ e. not (is_held_from now claim e)) (sym (ok_inj last)) ∙ free)

  released_lem :
      (s : store.State) (handle : Handle Etag) (r : WriterRecord) (etag : Etag)
      → (read_writer_record store json sha256 token_hash s key
          >>= check_release store json sha256 token_hash handle)
        ≡ ok (r, etag)
      → IsTagged r etag
  unfolding check_release
  released_lem s handle r etag h =
      let (existing, reads, checked) =
        bind_ok (read_writer_record store json sha256 token_hash s key) _ h in
      go existing reads checked
    where
      go :
          (existing : Existing Etag)
          → read_writer_record store json sha256 token_hash s key ≡ ok existing
          → check_release store json sha256 token_hash handle existing ≡ ok (r, etag)
          → IsTagged r etag
      go none reads checked = cc
      go (some (current, e)) reads checked =
          let (_, rest) =
            require_ok (is_owner store json sha256 token_hash handle current) _ _ checked in
          let (_, last) = require_ok (store.filled e) _ _ rest in
          read-IsTagged s r etag reads (ap some (ok_inj last))

  -- one write of a call; the reads before it may be older than the store that it writes to
  pub data Step (d : String) (call : Call) (s s' : store.State) : Type 0 where
    acquire_writes :
        (s₀ : store.State) (now : ℕ) (token : String) (claim : WriterClaim)
        (existing : Existing Etag)
        → call ≡ acquiring now claim.force_takeover
        → check_existing store json sha256 token_hash s₀ key now claim ≡ ok existing
        → s' ≡ (write_claim store json sha256 token_hash s key d now token claim existing).0
        → Step d call s s'
    renew_writes :
        (now ttl_seconds : ℕ) (handle : Handle Etag)
        → call ≡ renewing
        → IsTagged handle.row handle.etag
        → s' ≡ (renew_global_writer store json sha256 token_hash s d now ttl_seconds handle).0
        → Step d call s s'
    release_writes :
        (s₀ : store.State) (now : ℕ) (stamp : String) (handle : Handle Etag) (r : WriterRecord)
        (etag : Etag)
        → call ≡ releasing
        → (read_writer_record store json sha256 token_hash s₀ key
            >>= check_release store json sha256 token_hash handle)
          ≡ ok (r, etag)
        → s' ≡ (write_release store json sha256 token_hash s key now stamp (r, etag)).0
        → Step d call s s'

  claim-Move :
      (s : store.State) (d : String) (now : ℕ) (token : String) (claim : WriterClaim)
      (existing : Existing Etag)
      → ((r : WriterRecord) (etag : Etag) → existing ≡ some (r, etag) → IsTagged r etag)
      → not (is_held_from now claim existing) ≡ true
      → Move
          (acquiring now claim.force_takeover)
          (view s)
          (view (write_claim store json sha256 token_hash s key d now token claim existing).0)
  unfolding write_claim claimed_record claimed_epoch
  claim-Move s d now token claim none genuine free =
      elim (write_lem s if_none_match
        (claimed_record store json sha256 token_hash d now token claim none) true token) [
          | inl kept ↦ stays kept
          | inr (met, stored) ↦
              first now claim.force_takeover
                (claimed_record store json sha256 token_hash d now token claim none) refl
                (ap parsed met) stored refl
        ]
  claim-Move s d now token claim (some (r, etag)) genuine free =
      elim (write_lem s (if_match etag)
        (claimed_record store json sha256 token_hash d now token claim (some (r, etag))) true
        token) [
          | inl kept ↦ stays kept
          | inr (met, stored) ↦
              let tagged = genuine r etag refl in
              let filled : store.filled etag ≡ true =
                ap store.filled tagged.1 ∙ store.tag_filled tagged.0 in
              taken now claim.force_takeover r
                (claimed_record store json sha256 token_hash d now token claim (some (r, etag)))
                refl (current_lem s r etag tagged met) stored (rw filled refl) refl
                (free_lem now (expiry_of r) claim.force_takeover free)
        ]

  pub renew_lem :
      (s : store.State) (d : String) (now ttl_seconds : ℕ) (handle : Handle Etag)
      → writer_key d ≡ ok key
      → store.filled handle.etag ≡ true
      → renew_global_writer store json sha256 token_hash s d now ttl_seconds handle
        ≡ write_record store json sha256 token_hash s key
            (if_match handle.etag)
            (renewed_record store json sha256 token_hash now ttl_seconds handle.row)
            true
            handle.token
  unfolding renew_global_writer
  renew_lem s d now ttl_seconds handle wk filled = rw (wk, filled) refl

  -- Every write that `acquire_global_writer`, `renew_global_writer` and `release_global_writer` make,
  -- however old the reads before it are, and for a renewal with a record that belongs to its ETag, moves
  -- the register as one atomic operation would. It changes nothing, or: an acquisition creates the record
  -- with epoch 1, or takes over, with the next epoch, a record that is expired at the acquisition's own
  -- time, or any record where the acquisition itself asks for a forced takeover; a renewal keeps epoch and
  -- owner; a release keeps epoch and owner and sets the expiry to 0.
  pub Step-Move :
      (d : String) (call : Call) (s s' : store.State)
      → writer_key d ≡ ok key
      → Step d call s s'
      → Move call (view s) (view s')
  unfolding write_release
  Step-Move d call s s' wk (acquire_writes s₀ now token claim existing by checked made) =
      let (reads, free) = existing_lem s₀ now claim checked in
      rw (by, made)
        (claim-Move s d now token claim existing (λ r etag e. read-IsTagged s₀ r etag reads e) free)
  Step-Move d call s s' wk (renew_writes now ttl_seconds handle by tagged made) =
      let filled : store.filled handle.etag ≡ true =
        ap store.filled tagged.1 ∙ store.tag_filled tagged.0 in
      rw (made, renew_lem s d now ttl_seconds handle wk filled)
        (elim (write_lem s (if_match handle.etag)
          (renewed_record store json sha256 token_hash now ttl_seconds handle.row) true
          handle.token) [
            | inl kept ↦ stays kept
            | inr (met, stored) ↦
                renewed handle.row
                  (renewed_record store json sha256 token_hash now ttl_seconds handle.row) by
                  (current_lem s handle.row handle.etag tagged met) stored refl refl
          ])
  Step-Move d call s s' wk (release_writes s₀ now stamp handle r etag by checked made) =
      rw made
        (elim (write_lem s (if_match etag)
          (released_record store json sha256 token_hash now stamp r) false "") [
            | inl kept ↦ stays kept
            | inr (met, stored) ↦
                released r (released_record store json sha256 token_hash now stamp r) by
                  (current_lem s r etag (released_lem s₀ handle r etag checked) met) stored refl
                  refl refl
          ])
