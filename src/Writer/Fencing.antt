-- ===== src/Writer/Fencing.antt =====
-- What a writer of flowdocs/core/global_writer.py that was taken over can no longer do.
use pdf_search.Prelude.{
  ℕ, ◌≡◌, ◌≢◌, refl, sym, ap, ◌∙◌, inl, inr, String, str_eq, nonempty, Option, none, some, get_or,
  ltb, Bool, true, false, ◌||◌, not, Bool-cases, Option-cases, Result, ok, raised, is_ok,
  Result-cases, bind_ok, require_ok, ◌>>=◌, arith,
}
use pdf_search.Writer.{
  Handle, Existing, WriterError, lease_expired, token_mismatch, source_mismatch, instance_mismatch,
  epoch_mismatch, expiry_of, writer_key, object_of, read_writer_record, write_record,
  renew_global_writer, renewed_record, check_release, is_owner, same_epoch, same_option_text,
  write_release, release_global_writer, validate_writer_for_publication, check_publication,
  get_global_writer,
}
use pdf_search.Writer.Store.{Condition, if_match, Meets, ConditionalStore, Codec, WriterRecord}
use pdf_search.Writer.Refinement.{view, IsTagged, read_view, current_lem, renew_lem, some_inj}

no_epoch :
    (r r' : WriterRecord) (m n : ℕ)
    → r ≡ r'
    → r.writer_epoch ≡ some m
    → r'.writer_epoch ≡ some n
    → m ≡ n
no_epoch r r' m n same em en =
    some_inj (sym em ∙ ap (λ (x : WriterRecord). x.writer_epoch) same ∙ en)

other_epoch : (a b : Option ℕ) (m n : ℕ) → a ≡ some m → b ≡ some n → m ≢ n → same_epoch a b ≡ false
other_epoch a b m n ea eb differ = rw (ea, eb) (ground (arith, differ))

module _ {Bytes Etag : Type 0} (store : ConditionalStore Bytes Etag) (json : Codec Bytes)
    (sha256 : Bytes → String) (token_hash : String → String) (key : String) where
  -- a write that returned: its condition held, and the object is stored
  pub written_lem :
      (s : store.State) (c : Condition Etag) (r : WriterRecord) (immutable : Bool) (token : String)
      → is_ok (write_record store json sha256 token_hash s key c r immutable token).1 ≡ true
      → Meets c (store.content s key)
        × ((etag : Etag) × (store.content
                (write_record store json sha256 token_hash s key c r immutable token).0
                key
              ≡ some (object_of store json sha256 token_hash r immutable, etag)))
  unfolding write_record
  written_lem s c r immutable token h =
      let o = object_of store json sha256 token_hash r immutable in
      elim (Option-cases (store.put s key c o).1) [
        | inl lost ↦ let bad : false ≡ true = rw lost at h in cc
        | inr (etag, response) ↦
            let (met, stored) = store.put_returned s key c o etag response in (met, (etag, stored))
      ]

  renew_refused :
      (s : store.State) (d : String) (now ttl_seconds : ℕ) (handle : Handle Etag) (r : WriterRecord)
      (m n : ℕ)
      → writer_key d ≡ ok key
      → IsTagged store json sha256 token_hash key handle.row handle.etag
      → view store json sha256 token_hash key s ≡ some r
      → r.writer_epoch ≡ some m
      → handle.row.writer_epoch ≡ some n
      → m ≢ n
      → is_ok (renew_global_writer store json sha256 token_hash s d now ttl_seconds handle).1
        ≡ false
  renew_refused s d now ttl_seconds handle r m n wk tagged at em en differ =
      let filled : store.filled handle.etag ≡ true =
        ap store.filled tagged.1 ∙ store.tag_filled tagged.0 in
      let row = renewed_record store json sha256 token_hash now ttl_seconds handle.row in
      rw (renew_lem store json sha256 token_hash key s d now ttl_seconds handle wk filled)
        (elim (Bool-cases (
          is_ok
            (write_record store json sha256 token_hash s key (if_match handle.etag) row true
              handle.token).1)) [
                | inr refused ↦ refused
                | inl written ↦
                    let (met, _) =
                      written_lem s (if_match handle.etag) row true handle.token written in
                    let current =
                      current_lem store json sha256 token_hash key s handle.row handle.etag tagged
                        met in
                    absurd (differ (no_epoch r handle.row m n (some_inj (sym at ∙ current)) em en))
              ])

  -- the epoch of the handle is not the one that is stored
  not_owner :
      (handle : Handle Etag) (current r : WriterRecord) (m n : ℕ)
      → current ≡ r
      → r.writer_epoch ≡ some m
      → handle.row.writer_epoch ≡ some n
      → m ≢ n
      → is_owner store json sha256 token_hash handle current ≡ false
  not_owner handle current r m n same em en differ =
      let other =
        other_epoch current.writer_epoch handle.row.writer_epoch m n
          (ap (λ (x : WriterRecord). x.writer_epoch) same ∙ em) en differ in
      ground arith

  check_refused :
      (s : store.State) (handle : Handle Etag) (r : WriterRecord) (m n : ℕ)
      → view store json sha256 token_hash key s ≡ some r
      → r.writer_epoch ≡ some m
      → handle.row.writer_epoch ≡ some n
      → m ≢ n
      → is_ok (
          read_writer_record store json sha256 token_hash s key
          >>= check_release store json sha256 token_hash handle)
        ≡ false
  unfolding check_release
  check_refused s handle r m n at em en differ =
      elim (Result-cases (
        read_writer_record store json sha256 token_hash s key
        >>= check_release store json sha256 token_hash handle)) [
          | inl refused ↦ refused
          | inr (read, passed) ↦
              let (existing, reads, checked) =
                bind_ok (read_writer_record store json sha256 token_hash s key) _ passed in
              absurd (go existing reads checked)
        ]
    where
      go :
          {read : WriterRecord × Etag} (existing : Existing Etag)
          → read_writer_record store json sha256 token_hash s key ≡ ok existing
          → check_release store json sha256 token_hash handle existing ≡ ok read
          → ⊥
      go none reads checked = cc
      go (some (current, etag)) reads checked =
          let (owner, _) =
            require_ok (is_owner store json sha256 token_hash handle current) _ _ checked in
          let same =
            some_inj (sym (read_view store json sha256 token_hash key s current etag reads) ∙ at) in
          let bad : true ≡ false = sym owner ∙ not_owner handle current r m n same em en differ in
          cc

  release_refused :
      (s : store.State) (d : String) (now : ℕ) (stamp : String) (handle : Handle Etag)
      → writer_key d ≡ ok key
      → is_ok (
          read_writer_record store json sha256 token_hash s key
          >>= check_release store json sha256 token_hash handle)
        ≡ false
      → (is_ok (release_global_writer store json sha256 token_hash s d now stamp handle).1 ≡ false)
        × ((release_global_writer store json sha256 token_hash s d now stamp handle).0 ≡ s)
  unfolding release_global_writer
  release_refused s d now stamp handle wk refused = rw wk (
      go
        (read_writer_record store json sha256 token_hash s key
          >>= check_release store json sha256 token_hash handle)
        refused)
    where
      go :
          (m : Result WriterError (WriterRecord × Etag))
          → is_ok m ≡ false
          → let out : store.State × Result WriterError (Unit {0}) = elim m [
            | raised e ↦ (s, raised e)
            | ok read ↦ write_release store json sha256 token_hash s key now stamp read
          ] in
            (is_ok out.1 ≡ false) × (out.0 ≡ s)
      go (ok read) h = cc
      go (raised e) h = (refl, refl)

  publication_refused :
      (s : store.State) (d : String) (now : ℕ) (handle : Handle Etag) (source instance : String)
      (r : WriterRecord) (m n : ℕ)
      → writer_key d ≡ ok key
      → view store json sha256 token_hash key s ≡ some r
      → r.writer_epoch ≡ some m
      → m ≢ n
      → is_ok (
          validate_writer_for_publication store json sha256 token_hash s d now handle source
            instance
            (some n))
        ≡ false
  unfolding validate_writer_for_publication get_global_writer check_publication
  publication_refused s d now handle source instance r m n wk at em differ =
      rw wk
        (elim (Result-cases (
          read_writer_record store json sha256 token_hash s key
          >>= check_publication store json sha256 token_hash now handle source instance (some n))) [
            | inl refused ↦ refused
            | inr (out, passed) ↦
                let (existing, reads, checked) =
                  bind_ok (read_writer_record store json sha256 token_hash s key) _ passed in
                absurd (go existing reads checked)
          ])
    where
      go :
          {out : Handle Etag} (existing : Existing Etag)
          → read_writer_record store json sha256 token_hash s key ≡ ok existing
          → check_publication store json sha256 token_hash now handle source instance
              (some n)
              existing
            ≡ ok out
          → ⊥
      go none reads checked = cc
      go (some (current, etag)) reads checked =
          let (_, rest₁) = require_ok (not (ltb (expiry_of current) now)) lease_expired _ checked in
          let (_, rest₂) =
            require_ok (str_eq (token_hash handle.token) (get_or "" current.owner_token_hash))
              token_mismatch _ rest₁ in
          let (_, rest₃) =
            require_ok (same_option_text current.production_source_id source) source_mismatch _
              rest₂ in
          let (_, rest₄) =
            require_ok (not (nonempty instance) || same_option_text current.instance_id instance)
              instance_mismatch _ rest₃ in
          let (matched, _) =
            require_ok (same_epoch current.writer_epoch (some n)) epoch_mismatch _ rest₄ in
          let same =
            some_inj (sym (read_view store json sha256 token_hash key s current etag reads) ∙ at) in
          let other =
            other_epoch current.writer_epoch (some n) m n
              (ap (λ (x : WriterRecord). x.writer_epoch) same ∙ em) refl differ in
          let bad : true ≡ false = sym matched ∙ other in cc

  -- A writer that was taken over is fenced off: where the stored record has another epoch than the record
  -- that a caller holds, which belongs to its ETag, its renewal, its release and its validation for a
  -- publication under its own epoch all raise, and the release changes nothing.
  pub superseded_is_fenced :
      (s : store.State) (d : String) (now ttl_seconds : ℕ) (stamp source instance : String)
      (handle : Handle Etag) (r : WriterRecord) (m n : ℕ)
      → writer_key d ≡ ok key
      → IsTagged store json sha256 token_hash key handle.row handle.etag
      → view store json sha256 token_hash key s ≡ some r
      → r.writer_epoch ≡ some m
      → handle.row.writer_epoch ≡ some n
      → m ≢ n
      → (is_ok (renew_global_writer store json sha256 token_hash s d now ttl_seconds handle).1
          ≡ false)
        × (is_ok (release_global_writer store json sha256 token_hash s d now stamp handle).1
            ≡ false)
        × ((release_global_writer store json sha256 token_hash s d now stamp handle).0 ≡ s)
        × (is_ok (
              validate_writer_for_publication store json sha256 token_hash s d now handle source
                instance
                (some n))
            ≡ false)
  superseded_is_fenced s d now ttl_seconds stamp source instance handle r m n wk tagged at em en
        differ =
      let (raises, kept) =
        release_refused s d now stamp handle wk (check_refused s handle r m n at em en differ) in
      (
        renew_refused s d now ttl_seconds handle r m n wk tagged at em en differ,
        raises,
        kept,
        publication_refused s d now handle source instance r m n wk at em differ,
      )
