-- ===== src/Pointer/Epochs.antt =====
-- The writer epochs of the pointer of flowdocs/core/registration.py over time.
use mathlib.Core.Path.{subst}
use pdf_search.Prelude.{
  ℕ, get_or, ◌+◌, ◌≤◌, ◌≡◌, refl, sym, ap, ◌∙◌, inl, inr, String, str_eq, nonempty, Option, none,
  some, ◌&&◌, not, ltb, Bool-cases, Result, ok, raised, bind_ok, require_ok, ok_inj, ◌>>=◌, arith,
}
use pdf_search.Writer.Store.{Object, Fetched, missing, failed, found, Meets, ConditionalStore}
use pdf_search.Pointer.{
  AuthoritativePointer, PointerCodec, RegistrationError, digest_mismatch, Current, pointer_epoch,
  condition_of, expected_of, check_previous, epoch_behind, pointer_object, read_body, read_response,
  read_pointer, check_pointer, write_pointer,
}

-- zero where there is no pointer, else the successor of its epoch
abbrev pub rank : Option AuthoritativePointer → ℕ
rank none = 0
rank (some p) = pointer_epoch p + 1

module _ {Bytes Etag : Type 0} (store : ConditionalStore Bytes Etag) (json : PointerCodec Bytes)
    (sha256 : Bytes → String) (key : String)
    (get_missing : (s : store.State) → store.get s key ≡ missing → store.content s key ≡ none) where
  abbrev pub stored_pointer : Option (Object Bytes × Etag) → Option AuthoritativePointer
  stored_pointer none = none
  stored_pointer (some (o, etag)) = json.parse o.body

  -- the pointer that is stored
  abbrev pub view : store.State → Option AuthoritativePointer
  view s = stored_pointer (store.content s key)

  -- what a read returned belongs to what was stored
  abbrev Seen : Option (Object Bytes × Etag) → Option (Current Etag) → Type 0
  Seen content none = content ≡ none
  Seen content (some p) =
      (o : Object Bytes) × (content ≡ some (o, p.etag)) × (json.parse o.body ≡ some p.row)

  body-Seen :
      (s : store.State) (o : Object Bytes) (etag : Etag) (parsed : Option AuthoritativePointer)
      (current : Option (Current Etag))
      → store.content s key ≡ some (o, etag)
      → json.parse o.body ≡ parsed
      → read_body store json sha256 o etag parsed ≡ ok current
      → Seen (store.content s key) current
  unfolding read_body
  body-Seen s o etag none current at is_parsed h = cc
  body-Seen s o etag (some p) current at is_parsed h =
      elim (Bool-cases (nonempty o.sha256 && not (str_eq o.sha256 (sha256 o.body)))) [
        | inl wrong ↦
            let bad : Path (Result RegistrationError (Option (Current Etag)))
                (raised digest_mismatch) (ok current) =
              rw wrong at h in
            cc
        | inr right ↦ subst (Seen (store.content s key)) (ok_inj (rw right at h)) (o, at, is_parsed)
      ]

  read-Seen :
      (s : store.State) (current : Option (Current Etag))
      → read_pointer store json sha256 s key ≡ ok current
      → Seen (store.content s key) current
  unfolding read_pointer read_response
  read-Seen s current h = go (store.get s key) refl h
    where
      go :
          (response : Fetched Bytes Etag)
          → store.get s key ≡ response
          → read_response store json sha256 response ≡ ok current
          → Seen (store.content s key) current
      go missing at h₁ = subst (Seen (store.content s key)) (ok_inj h₁) (get_missing s at)
      go failed at h₁ = cc
      go (found o etag) at h₁ =
          body-Seen s o etag (json.parse o.body) current (store.get_found s key o etag at) refl h₁

  -- the pointer that a read returned
  abbrev pub row_of : Option (Current Etag) → Option AuthoritativePointer
  row_of none = none
  row_of (some p) = some p.row

  pub read_view :
      (s : store.State) (current : Option (Current Etag))
      → read_pointer store json sha256 s key ≡ ok current
      → view s ≡ row_of current
  read_view s none h = ap stored_pointer (read-Seen s none h)
  read_view s (some p) h =
      let (o, at, is_parsed) = read-Seen s (some p) h in ap stored_pointer at ∙ is_parsed

  -- an object with the ETag of the pointer that was read at another time is that pointer
  pub same_tag :
      (s t : store.State) (current : Option (Current Etag))
      → read_pointer store json sha256 t key ≡ ok current
      → Meets (condition_of (expected_of current)) (store.content s key)
      → view s ≡ view t
  same_tag s t none h met = ap stored_pointer met ∙ sym (read_view t none h)
  same_tag s t (some p) h (o, at) =
      let (o₁, at₁, is_parsed) = read-Seen t (some p) h in
      let same : o.body ≡ o₁.body =
        store.tag_injective o.body o₁.body
          (sym (store.content_tag s key o p.etag at) ∙ store.content_tag t key o₁ p.etag at₁) in
      ap stored_pointer at ∙ ap json.parse same ∙ sym (ap stored_pointer at₁)

  -- the epoch is not behind the pointer that the check read
  check_lem :
      (t : store.State) (expected : Option Etag) (epoch : ℕ) (previous : Option (Current Etag))
      → check_pointer store json sha256 t key expected epoch ≡ ok previous
      → rank (view t) ≤ epoch + 1
  unfolding check_pointer check_previous
  check_lem t expected epoch previous h =
      let (read, reads, checked) = bind_ok (read_pointer store json sha256 t key) _ h in
      rw (read_view t read reads) (go read expected checked)
    where
      go :
          (read : Option (Current Etag)) (expected : Option Etag)
          → (check_previous read expected epoch >>= λ _. ok read) ≡ ok previous
          → rank (row_of read) ≤ epoch + 1
      go none expected₁ checked = omega arith
      go (some p) none checked = cc
      go (some p) (some etag) checked =
          let (not_behind, _) =
            require_ok (not (ltb epoch (pointer_epoch p.row))) epoch_behind _ checked in
          ground arith

  -- The bucket from one point of time to a later one: anything that leaves the pointer alone, or the write
  -- of `update_authoritative_pointer`, which raises or not, after a read of the pointer that gave the
  -- expected ETag, and after its own read at a time in between.
  pub data IsAfter : store.State → store.State → Type 0 where
    now : {s : store.State} → IsAfter s s
    other :
        {s s₁ s₂ : store.State}
        → IsAfter s s₁
        → store.content s₂ key ≡ store.content s₁ key
        → IsAfter s s₂
    publish :
        {s s₁ t₁ t₂ : store.State}
        → (current previous : Option (Current Etag)) (p : AuthoritativePointer) (epoch : ℕ)
        → IsAfter s s₁
        → IsAfter t₁ t₂
        → IsAfter t₂ s₁
        → read_pointer store json sha256 t₁ key ≡ ok current
        → check_pointer store json sha256 t₂ key (expected_of current) epoch ≡ ok previous
        → p.writer_epoch ≡ some epoch
        → IsAfter s (write_pointer store json sha256 s₁ key (expected_of current) p).0

  rank_never_falls : (s s' : store.State) → IsAfter s s' → rank (view s) ≤ rank (view s')
  unfolding write_pointer
  rank_never_falls s s' now = omega arith
  rank_never_falls s s' (other {s₁ = s₁} below same) =
      rw (ap stored_pointer same) (rank_never_falls s s₁ below)
  rank_never_falls s s'
        (publish {s₁ = s₁} {t₁ = t₁} {t₂ = t₂} current previous p epoch below between after reads
          checked epoch_is) =
      let before = rank_never_falls s s₁ below in
      elim (store.put_effect s₁ key (condition_of (expected_of current))
        (pointer_object store json sha256 p)) [
          | inl same ↦ rw (ap stored_pointer same) before
          | inr (met, stored) ↦
              let same = ap rank (same_tag s₁ t₁ current reads met) in
              let first = rank_never_falls t₁ t₂ between in
              let second = rank_never_falls t₂ s₁ after in
              let not_behind = check_lem t₂ (expected_of current) epoch previous checked in
              let new : rank (view s') ≡ epoch + 1 =
                ap rank (ap stored_pointer stored ∙ json.parse-encode p)
                ∙ ap (λ e. get_or 0 e + 1) epoch_is in
              omega arith
        ]

  -- However the publishers of a dataset interleave their two reads and their conditional write, where an
  -- ETag determines the bytes, a read that finds no pointer is right, and nothing else writes the pointer: a
  -- pointer that was there stays there, and its writer epoch never falls.
  pub pointer_epoch_never_falls :
      (s s' : store.State) (old : AuthoritativePointer)
      → IsAfter s s'
      → view s ≡ some old
      → (new : AuthoritativePointer) × (view s' ≡ some new)
        × (pointer_epoch old ≤ pointer_epoch new)
  pointer_epoch_never_falls s s' old later at = go (view s') refl
    where
      ranks : pointer_epoch old + 1 ≤ rank (view s')
      ranks = let same = ap rank at in let up = rank_never_falls s s' later in omega arith

      go :
          (after : Option AuthoritativePointer)
          → view s' ≡ after
          → (new : AuthoritativePointer) × (view s' ≡ some new)
            × (pointer_epoch old ≤ pointer_epoch new)
      go none held = let same = ap rank held in absurd (omega (arith, ranks))
      go (some new) held = let same = ap rank held in (new, held, omega (arith, ranks))
