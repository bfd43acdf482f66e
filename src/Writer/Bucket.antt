-- ===== src/Writer/Bucket.antt =====
-- A bucket with one key, over any type of bytes with decidable equality; the ETag of an object is its bytes.
use pdf_search.Prelude.{
  ◌≡◌, refl, ap, sym, ◌∙◌, ◌⊎◌, inl, inr, String, str_eq, eq_iff, Bool-cases, is_some, Option, none,
  some, true, false,
}
use pdf_search.Writer.Store.{
  Object, Fetched, missing, found, Condition, if_none_match, if_match, Meets, ConditionalStore,
}
use pdf_search.Writer.Refinement.{some_inj}

pub text_discrete : Discrete String
text_discrete a b = elim (Bool-cases (str_eq a b)) [
  | inl same ↦ yes ((eq_iff a b).0 same)
  | inr other ↦ no (λ e.
      let same : str_eq a b ≡ true = (eq_iff a b).1 e in
      let bad : true ≡ false = sym same ∙ other in cc)
]

abbrev pub Bucket : Type 0 → Type 0
Bucket A = Option (Object A)

module _ {A : Type 0} (same : Discrete A) where
  abbrev stored : Bucket A → Option (Object A × Option A)
  stored none = none
  stored (some o) = some (o, some o.body)

  abbrev fetched : Bucket A → Fetched A (Option A)
  fetched none = missing
  fetched (some o) = found o (some o.body)

  abbrev put_if : {P : Type 0} → Dec P → Bucket A → Object A → Bucket A × Option (Option A)
  put_if (yes p) b o = (some o, some (some o.body))
  put_if (no n) b o = (b, none)

  abbrev put_object : Bucket A → Condition (Option A) → Object A → Bucket A × Option (Option A)
  put_object none if_none_match o = (some o, some (some o.body))
  put_object none (if_match e) o = (none, none)
  put_object (some p) if_none_match o = (some p, none)
  put_object (some p) (if_match none) o = (some p, none)
  put_object (some p) (if_match (some r)) o = put_if (same p.body r) (some p) o

  replaced :
      (p o : Object A) (r : A) (d : Dec (p.body ≡ r))
      → (stored (put_if d (some p) o).0 ≡ stored (some p))
        ⊎ (Meets (if_match (some r)) (stored (some p))
            × (stored (put_if d (some p) o).0 ≡ some (o, some o.body)))
  replaced p o r (yes same) = inr ((p, ap (λ b. some (p, some b)) same), refl)
  replaced p o r (no other) = inl refl

  replaced_returned :
      (p o : Object A) (r : A) (etag : (Option A)) (d : Dec (p.body ≡ r))
      → (put_if d (some p) o).1 ≡ some etag
      → Meets (if_match (some r)) (stored (some p))
        × (stored (put_if d (some p) o).0 ≡ some (o, etag))
  replaced_returned p o r etag (yes same) h =
      ((p, ap (λ b. some (p, some b)) same), ap (λ e. some (o, e)) (some_inj h))
  replaced_returned p o r etag (no other) h = cc

  pub effect :
      (s : Bucket A) (key : String) (c : Condition (Option A)) (o : Object A)
      → (stored (put_object s c o).0 ≡ stored s)
        ⊎ (Meets c (stored s) × (stored (put_object s c o).0 ≡ some (o, some o.body)))
  effect none key if_none_match o = inr (refl, refl)
  effect none key (if_match e) o = inl refl
  effect (some p) key if_none_match o = inl refl
  effect (some p) key (if_match none) o = inl refl
  effect (some p) key (if_match (some r)) o = replaced p o r (same p.body r)

  pub returns :
      (s : Bucket A) (key : String) (c : Condition (Option A)) (o : Object A) (etag : (Option A))
      → (put_object s c o).1 ≡ some etag
      → Meets c (stored s) × (stored (put_object s c o).0 ≡ some (o, etag))
  returns none key if_none_match o etag h = (refl, ap (λ e. some (o, e)) (some_inj h))
  returns none key (if_match e) o etag h = cc
  returns (some p) key if_none_match o etag h = cc
  returns (some p) key (if_match none) o etag h = cc
  returns (some p) key (if_match (some r)) o etag h = replaced_returned p o r etag (same p.body r) h

  pub tagged :
      (s : Bucket A) (key : String) (o : Object A) (etag : (Option A))
      → stored s ≡ some (o, etag)
      → etag ≡ some o.body
  tagged none key o etag h = cc
  tagged (some p) key o etag h =
      let pair = some_inj h in sym (ap (λ x. x.1) pair) ∙ ap (λ x. some (x.0.body)) pair

  pub read_stored :
      (s : Bucket A) (key : String) (o : Object A) (etag : (Option A))
      → fetched s ≡ found o etag
      → stored s ≡ some (o, etag)
  read_stored none key o etag h = cc
  read_stored (some p) key o etag h = cc

  abbrev pub one_key_bucket : ConditionalStore A (Option A)
  one_key_bucket = record {
    State = Bucket A;
    content = λ s key. stored s;
    get = λ s key. fetched s;
    put = λ s key. put_object s;
    filled = is_some;
    tag = some;
    tag_injective = λ b c. some_inj;
    tag_filled = λ b. refl;
    content_tag = tagged;
    get_found = read_stored;
    put_effect = effect;
    put_returned = returns;
  }
