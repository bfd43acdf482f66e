-- ===== src/DocumentLifecycle/Histories.antt =====
-- Documents of flowdocs/core/services/document_lifecycle.py over time.
use mathlib.Core.Path.{subst}
use pdf_search.Prelude.{ℕ, ◌≡◌, refl, sym, ap, ◌∙◌, ◌⊎◌, inl, inr, some, true, false, nonempty}
use pdf_search.DocumentLifecycle.Media.{
  is_unavailable, Lifecycle, unavailable, PdfFile, StoredMedia, regular,
}
use pdf_search.DocumentLifecycle.Transitions.{quarantined}
use pdf_search.DocumentLifecycle.{is_ordinary}
use pdf_search.DocumentLifecycle.Changes.{
  Change, stays, leaves_search, quarantines, binds, returns, is_paired,
}
use pdf_search.DocumentLifecycle.Quarantine.{Step, Step-Change}

is_so : {l : Lifecycle} → l ≡ unavailable → is_unavailable l ≡ true
is_so e = ap is_unavailable e

pub not_both : {l : Lifecycle} → l ≡ unavailable → is_unavailable l ≡ false → ⊥
not_both e free = let bad : true ≡ false = sym (is_so e) ∙ free in cc

-- what stays of an unavailable document
abbrev IsKept : PdfFile → PdfFile → Type 0
IsKept p q =
    (q.lifecycle ≡ unavailable)
    × (q.media_prior_lifecycle ≡ p.media_prior_lifecycle)
    × (nonempty p.media_expected_sha256 ≡ true
        → (q.media_expected_sha256 ≡ p.media_expected_sha256)
          × (q.media_expected_size ≡ p.media_expected_size))

-- the document is back as it was, and both looks found the bytes of the evidence
abbrev IsReturned : StoredMedia → StoredMedia → PdfFile → PdfFile → Type 0
IsReturned media final_media p q =
    (p.media_prior_lifecycle ≡ some q.lifecycle)
    × (q.indexed ≡ false)
    × ((size : ℕ) × (p.media_expected_size ≡ some size)
        × (media ≡ regular p.media_expected_sha256 size)
        × (final_media ≡ regular p.media_expected_sha256 size))

-- A call on an unavailable document that returns leaves it unavailable, with its prior lifecycle and with
-- the evidence that it had, or returns it to its prior lifecycle without its index mark. The latter it does
-- only where both looks at the media found the bytes with the digest and the size of the evidence.
pub unavailable_needs_media :
    (media final_media : StoredMedia) (p q : PdfFile)
    → Step media final_media p q
    → p.lifecycle ≡ unavailable
    → ((q.lifecycle ≡ unavailable)
        × (q.media_prior_lifecycle ≡ p.media_prior_lifecycle)
        × (nonempty p.media_expected_sha256 ≡ true
            → (q.media_expected_sha256 ≡ p.media_expected_sha256)
              × (q.media_expected_size ≡ p.media_expected_size)))
      ⊎ ((p.media_prior_lifecycle ≡ some q.lifecycle)
          × (q.indexed ≡ false)
          × ((size : ℕ) × (p.media_expected_size ≡ some size)
              × (media ≡ regular p.media_expected_sha256 size)
              × (final_media ≡ regular p.media_expected_sha256 size)))
unavailable_needs_media media final_media p q step at = go (Step-Change media final_media p q step)
  where
    go : Change media final_media p q → IsKept p q ⊎ IsReturned media final_media p q
    go (stays same) = inl (
      ap (λ (x : PdfFile). x.lifecycle) same ∙ at,
      ap (λ (x : PdfFile). x.media_prior_lifecycle) same,
      λ given. (
        ap (λ (x : PdfFile). x.media_expected_sha256) same,
        ap (λ (x : PdfFile). x.media_expected_size) same,
      ),
    )
    go (leaves_search l free hidden same) = absurd (not_both at free)
    go (quarantines now digest size reason case_reference free gone paired same) =
        absurd (not_both at free)
    go (binds digest size case_reference still empty given same) = inl (
      ap (λ (x : PdfFile). x.lifecycle) same ∙ at,
      ap (λ (x : PdfFile). x.media_prior_lifecycle) same,
      λ bound_before. let bad : true ≡ false = sym bound_before ∙ empty in cc,
    )
    go (returns size prior still size_is prior_is free first last same) = inr (
      prior_is ∙ ap some (sym (ap (λ (x : PdfFile). x.lifecycle) same)),
      ap (λ (x : PdfFile). x.indexed) same,
      (size, size_is, first, last),
    )

-- A document is only indexed where its lifecycle is searchable, a digest and a size come together, and an
-- unavailable document knows the available lifecycle that it had.
pub record IsSound (p : PdfFile) : Type 0 where
  pub hidden_unindexed : is_ordinary p.lifecycle ≡ false → p.indexed ≡ false
  pub paired : is_paired p.media_expected_sha256 p.media_expected_size ≡ true
  pub prior_known :
      p.lifecycle ≡ unavailable
      → (prior : Lifecycle) × (p.media_prior_lifecycle ≡ some prior)
        × (is_unavailable prior ≡ false)

Change-IsSound :
    {media final_media : StoredMedia} {p q : PdfFile}
    → Change media final_media p q
    → IsSound p
    → IsSound q
unfolding quarantined
Change-IsSound (stays same) v = subst IsSound (sym same) v
Change-IsSound {p = p} (leaves_search l free hidden same) v = subst IsSound (sym same) record {
  hidden_unindexed = λ h. refl;
  paired = v.paired;
  prior_known = λ e. absurd (not_both e hidden);
}
Change-IsSound {p = p} (quarantines now digest size reason case_reference free gone paired same) v =
    subst IsSound (sym same) (record {
      hidden_unindexed = λ h. refl;
      paired = paired;
      prior_known = λ e. (p.lifecycle, refl, free);
    })
Change-IsSound {p = p} (binds digest size case_reference still empty given same) v =
    subst IsSound (sym same) record {
      hidden_unindexed = v.hidden_unindexed;
      paired = rw given refl;
      prior_known = v.prior_known;
    }
Change-IsSound {p = p} (returns size prior still size_is prior_is free first last same) v =
    subst IsSound (sym same) record {
      hidden_unindexed = λ h. refl;
      paired = v.paired;
      prior_known = λ e. absurd (not_both e free);
    }

-- any sequence of calls, each with the media that it finds
pub data Run (p : PdfFile) : PdfFile → Type 0 where
  done : Run p p
  later :
      {q r : PdfFile} (media final_media : StoredMedia)
      → Run p q
      → Step media final_media q r
      → Run p r

-- Under every sequence of such calls a sound document stays sound: indexed only while it is searchable, with
-- a digest and a size or neither, and with a known prior lifecycle while it is unavailable.
Run-IsSound : (p q : PdfFile) → Run p q → IsSound p → IsSound q
Run-IsSound p q done v = v
Run-IsSound p q (later {q = mid} media final_media run step) v =
    Change-IsSound (Step-Change media final_media mid q step) (Run-IsSound p mid run v)
