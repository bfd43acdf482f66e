-- ===== src/Pointer/Updates.antt =====
-- Two updates of the pointer of flowdocs/core/registration.py that race.
use pdf_search.Prelude.{
  ◌≡◌, ◌≢◌, refl, sym, ap, ◌∙◌, inl, inr, String, Option, none, some, true, false, Option-cases,
  Bool-cases, Result, ok, raised, ok_inj, is_ok,
}
use pdf_search.Writer.Store.{missing, Meets, ConditionalStore, WriterRecord}
use pdf_search.Writer.Refinement.{some_inj}
use pdf_search.Pointer.{
  AuthoritativePointer, PointerCodec, Current, condition_of, expected_of, pointer_object,
  read_pointer, write_pointer, Publication, RegistrationError, precondition_failed, pointer_key,
  check_pointer, write_checked, new_pointer, with_writer, update_at, get_authoritative_pointer,
  update_authoritative_pointer, update_authoritative_pointer_cas,
}
use pdf_search.Pointer.Epochs.{view, stored_pointer, same_tag, read_view}

module _ {Bytes Etag : Type 0} (store : ConditionalStore Bytes Etag) (json : PointerCodec Bytes)
    (sha256 : Bytes → String) (key : String)
    (get_missing : (s : store.State) → store.get s key ≡ missing → store.content s key ≡ none) where
  -- a write that returned: its condition held, and the pointer is stored
  written_lem :
      (s : store.State) (expected : Option Etag) (p : AuthoritativePointer)
      → is_ok (write_pointer store json sha256 s key expected p).1 ≡ true
      → Meets (condition_of expected) (store.content s key)
        × ((etag : Etag) × (store.content (write_pointer store json sha256 s key expected p).0 key
              ≡ some (pointer_object store json sha256 p, etag)))
  unfolding write_pointer
  written_lem s expected p h =
      let o = pointer_object store json sha256 p in
      elim (Option-cases (store.put s key (condition_of expected) o).1) [
        | inl lost ↦ let bad : false ≡ true = rw lost at h in cc
        | inr (etag, response) ↦
            let (met, stored) = store.put_returned s key (condition_of expected) o etag response in
            (met, (etag, stored))
      ]

  -- the condition of an earlier read is gone once another pointer is stored
  condition_gone :
      (s t : store.State) (current : Option (Current Etag)) (p : AuthoritativePointer) {etag : Etag}
      → read_pointer store json sha256 t key ≡ ok current
      → ((c : Current Etag) → current ≡ some c → p ≢ c.row)
      → store.content s key ≡ some (pointer_object store json sha256 p, etag)
      → Meets (condition_of (expected_of current)) (store.content s key)
      → ⊥
  condition_gone s t none p reads differ stored met = let bad = sym stored ∙ met in cc
  condition_gone s t (some c) p reads differ stored met =
      let same = same_tag store json sha256 key get_missing s t (some c) reads met in
      let held = read_view store json sha256 key get_missing t (some c) reads in
      let now =
        ap (stored_pointer store json sha256 key get_missing) stored ∙ json.parse-encode p in
      differ c refl (some_inj (sym now ∙ same ∙ held))

  -- a second write with the same condition raises
  second_write :
      (s t : store.State) (current : Option (Current Etag)) (p₁ p₂ : AuthoritativePointer)
      → read_pointer store json sha256 t key ≡ ok current
      → ((c : Current Etag) → current ≡ some c → p₁ ≢ c.row)
      → is_ok (write_pointer store json sha256 s key (expected_of current) p₁).1 ≡ true
      → is_ok
          (write_pointer store json sha256
            (write_pointer store json sha256 s key (expected_of current) p₁).0
            key
            (expected_of current)
            p₂).1
        ≡ false
  second_write s t current p₁ p₂ reads differ won =
      let (_, (etag, stored)) = written_lem s (expected_of current) p₁ won in
      let s₁ = (write_pointer store json sha256 s key (expected_of current) p₁).0 in
      elim (Bool-cases
        (is_ok (write_pointer store json sha256 s₁ key (expected_of current) p₂).1)) [
          | inr refused ↦ refused
          | inl written ↦
              let (met, _) = written_lem s₁ (expected_of current) p₂ written in
              absurd (condition_gone s₁ t current p₁ reads differ stored met)
        ]

  -- an update that returned is the write of a pointer
  update_lem :
      (s : store.State) (d : String) (expected : Option Etag) (p : Publication) (now : String)
      → is_ok (update_at store json sha256 s key d expected p now).1 ≡ true
      → (q : AuthoritativePointer) × (update_at store json sha256 s key d expected p now
          ≡ write_pointer store json sha256 s key expected q)
  unfolding update_at
  update_lem s d expected p now h =
      go (check_pointer store json sha256 s key expected p.writer_epoch) h
    where
      go :
          (checked : Result RegistrationError (Option (Current Etag)))
          → is_ok (write_checked store json sha256 s key d expected p now checked).1 ≡ true
          → (q : AuthoritativePointer) × (write_checked store json sha256 s key d expected p now
                checked
              ≡ write_pointer store json sha256 s key expected q)
      go (raised e) h = cc
      go (ok previous) h = (new_pointer d p previous now, refl)

  -- what a write returns is the pointer that it wrote
  answer_lem :
      (s : store.State) (expected : Option Etag) (q : AuthoritativePointer)
      (o : AuthoritativePointer × Etag)
      → (write_pointer store json sha256 s key expected q).1 ≡ ok o
      → q ≡ o.0
  unfolding write_pointer
  answer_lem s expected q o h =
      elim (Option-cases
        (store.put s key (condition_of expected) (pointer_object store json sha256 q)).1) [
          | inl lost ↦
              let bad : Path (Result RegistrationError (AuthoritativePointer × Etag))
                  (raised precondition_failed) (ok o) =
                rw lost at h in
              cc
          | inr (etag, response) ↦
              let same : Path (Result RegistrationError (AuthoritativePointer × Etag))
                  (ok (q, etag)) (ok o) =
                rw response at h in
              ap (λ x. x.0) (ok_inj same)
        ]

  -- a call is the update on the condition of what it read
  call_lem :
      (t s : store.State) (d : String) (writer : WriterRecord) (p : Publication) (now : String)
      (current : Option (Current Etag))
      → pointer_key d ≡ ok key
      → read_pointer store json sha256 t key ≡ ok current
      → update_authoritative_pointer_cas store json sha256 t s d writer p now
        ≡ update_at store json sha256 s key d (expected_of current) (with_writer writer p) now
  unfolding update_authoritative_pointer_cas get_authoritative_pointer update_authoritative_pointer
  call_lem t s d writer p now current k reads = rw (k, reads, k) refl

  unread_lem :
      (t s : store.State) (d : String) (writer : WriterRecord) (p : Publication) (now : String)
      (e : RegistrationError)
      → pointer_key d ≡ ok key
      → read_pointer store json sha256 t key ≡ raised e
      → is_ok (update_authoritative_pointer_cas store json sha256 t s d writer p now).1 ≡ false
  unfolding update_authoritative_pointer_cas get_authoritative_pointer
  unread_lem t s d writer p now e k reads = rw (k, reads) refl

  -- Of two publishers whose calls of `update_authoritative_pointer_cas` first read the pointer in the same
  -- state of the bucket, with any writer records, at most one replaces it: once the call of the first has
  -- returned a pointer that is not the one that was there to be read, the call of the second, which goes on
  -- in the bucket that the first left, raises. The bucket may have changed between the reads and the first.
  pub one_publisher_wins :
      (t s : store.State) (d : String) (writer₁ writer₂ : WriterRecord) (p₁ p₂ : Publication)
      (now₁ now₂ : String) (o : AuthoritativePointer × Etag)
      → pointer_key d ≡ ok key
      → (update_authoritative_pointer_cas store json sha256 t s d writer₁ p₁ now₁).1 ≡ ok o
      → view store json sha256 key get_missing t ≢ some o.0
      → is_ok
          (update_authoritative_pointer_cas store json sha256 t
            (update_authoritative_pointer_cas store json sha256 t s d writer₁ p₁ now₁).0
            d
            writer₂
            p₂
            now₂).1
        ≡ false
  one_publisher_wins t s d writer₁ writer₂ p₁ p₂ now₁ now₂ o k won other =
      go (read_pointer store json sha256 t key) refl
    where
      left : store.State
      left = (update_authoritative_pointer_cas store json sha256 t s d writer₁ p₁ now₁).0

      go :
          (outcome : Result RegistrationError (Option (Current Etag)))
          → read_pointer store json sha256 t key ≡ outcome
          → is_ok (update_authoritative_pointer_cas store json sha256 t left d writer₂ p₂ now₂).1
            ≡ false
      go (raised e) reads = unread_lem t left d writer₂ p₂ now₂ e k reads
      go (ok current) reads =
          let first = call_lem t s d writer₁ p₁ now₁ current k reads in
          let returned = ap (λ x. x.1) (sym first) ∙ won in
          let (q, is_write) =
            update_lem s d (expected_of current) (with_writer writer₁ p₁) now₁
              (ap is_ok returned) in
          let wrote = ap (λ x. x.1) (sym is_write) ∙ returned in
          let same = answer_lem s (expected_of current) q o wrote in
          let at : left ≡ (write_pointer store json sha256 s key (expected_of current) q).0 =
            ap (λ x. x.0) (first ∙ is_write) in
          let differ : (c : Current Etag) → current ≡ some c → q ≢ c.row = λ c e equal. other (
            read_view store json sha256 key get_missing t (some c) (reads ∙ ap ok e)
            ∙ ap some (sym equal ∙ same)) in
          let second = call_lem t left d writer₂ p₂ now₂ current k reads in
          elim (Bool-cases (
            is_ok
              (update_authoritative_pointer_cas store json sha256 t left d writer₂ p₂ now₂).1)) [
                | inr refused ↦ refused
                | inl written ↦
                    let (q₂, is_write₂) =
                      update_lem left d (expected_of current) (with_writer writer₂ p₂) now₂
                        (ap (λ x. is_ok x.1) (sym second) ∙ written) in
                    let wrote₂ : is_ok
                          (write_pointer store json sha256 left key (expected_of current) q₂).1
                        ≡ true =
                      ap (λ x. is_ok x.1) (sym is_write₂)
                      ∙ ap (λ x. is_ok x.1) (sym second)
                      ∙ written in
                    let refused = second_write s t current q q₂ reads differ (ap is_ok wrote) in
                    let bad : false ≡ true =
                      sym refused
                      ∙ ap
                          (λ (x : store.State).
                            is_ok
                              (write_pointer store json sha256 x key (expected_of current) q₂).1)
                          (sym at)
                      ∙ wrote₂ in
                    cc
              ]
