-- ===== src/Keys/Isolation.antt =====
-- The keys of different datasets, and of different generations, never meet.
use Prim.Native.Char.{code}
use text.Mathlib.TextEquality.{starts_with_iff}
use text.Mathlib.TextPositions.{starts_with-append}
use text.Mathlib.TextLemmas.{
  nil-append, cons-append, append_cancel_left, append_assoc, head-eq_of_cons-eq, tail-eq_of_cons-eq,
}
use mathlib.Core.Option
use pdf_search.Prelude.{
  ℕ, ◌≡◌, ◌↔◌, refl, sym, ap, ◌∙◌, String, str_append, some, Result, ok, raised, ◌>>=◌, ◌>>◌, List,
  true, false, some_char, arith,
}
use pdf_search.Keys.{
  key_builder, key_of, control_registration, control_authoritative, control_global_writer,
  control_lease, control_history, generation_key, generation_manifest, generation_database,
  generation_faiss, generation_metadata, digest_key, blob_pdf, blob_db, blob_faiss, content_blob,
  is_scoped, extract_generation_id, after_prefix, before_slash,
}
use pdf_search.Keys.Check.{is_slash, is_safe_id, join_slash, check_generation_id, KeyBuilderError}

-- the keys that the builder of a dataset hands out
pub data Made (d : String) (key : String) : Type 0 where
  registration : key ≡ control_registration d → Made d key
  authoritative : key ≡ control_authoritative d → Made d key
  global_writer : key ≡ control_global_writer d → Made d key
  lease : key ≡ control_lease d → Made d key
  history : (timestamp event : String) → control_history d timestamp event ≡ ok key → Made d key
  manifest : (g : String) → generation_manifest d g ≡ ok key → Made d key
  database : (g : String) → generation_database d g ≡ ok key → Made d key
  faiss : (g : String) (folder : ℕ) → generation_faiss d g folder ≡ ok key → Made d key
  metadata : (g path : String) → generation_metadata d g path ≡ ok key → Made d key
  pdf : (sha256 : String) → blob_pdf d sha256 ≡ ok key → Made d key
  db : (sha256 : String) → blob_db d sha256 ≡ ok key → Made d key
  index : (sha256 : String) → blob_faiss d sha256 ≡ ok key → Made d key
  content :
      (category sha256 extension : String)
      → content_blob d category sha256 extension ≡ ok key
      → Made d key

no_slash : (limit : ℕ) (s : String) → is_safe_id limit s ≡ true → some_char is_slash s ≡ false
unfolding is_safe_id
no_slash limit s h = ground arith

-- the text before the first slash is determined
split_unique :
    (d e r u : String)
    → some_char is_slash d ≡ false
    → some_char is_slash e ≡ false
    → str_append e (String.◌∷◌ "/" u) ≡ str_append d (String.◌∷◌ "/" r)
    → d ≡ e
unfolding some_char
split_unique String.[] String.[] r u hd he h = refl
split_unique String.[] (String.◌∷◌ c e) r u hd he h =
    let first : code c ≡ 47 = ap code (head-eq_of_cons-eq (rw (cons-append, nil-append) at h)) in
    ground arith
split_unique (String.◌∷◌ c d) String.[] r u hd he h =
    let first : 47 ≡ code c = ap code (head-eq_of_cons-eq (rw (nil-append, cons-append) at h)) in
    ground arith
split_unique (String.◌∷◌ c d) (String.◌∷◌ k e) r u hd he h =
    let both : String.◌∷◌ k (str_append e (String.◌∷◌ "/" u))
        ≡ String.◌∷◌ c (str_append d (String.◌∷◌ "/" r)) =
      sym (cons-append k e _) ∙ h ∙ cons-append c d _ in
    let same : d ≡ e =
      split_unique d e r u (ground arith) (ground arith) (tail-eq_of_cons-eq both) in
    rw (same, head-eq_of_cons-eq both) refl

-- a key under the prefix of a dataset
abbrev IsUnder : String → String → Type 0
IsUnder d key = (rest : String) × (key ≡ key_of d rest)

after_guard :
    {A : Type 0} (m : Result KeyBuilderError (Unit {0})) (k : Result KeyBuilderError A) {a : A}
    → (m >> k) ≡ ok a
    → k ≡ ok a
after_guard (ok x) k h = h
after_guard (raised e) k h = cc

unwrap : {A : Type 0} {x a : A} → Path (Result KeyBuilderError A) (ok x) (ok a) → a ≡ x
unwrap h = cc

generation_key-IsUnder :
    (d g rest : String) {key : String} → generation_key d g rest ≡ ok key → IsUnder d key
unfolding generation_key
generation_key-IsUnder d g rest h = (_, unwrap (after_guard _ _ h))

digest_key-IsUnder :
    (d folder sha256 suffix : String) {key : String}
    → digest_key d folder sha256 suffix ≡ ok key
    → IsUnder d key
unfolding digest_key
digest_key-IsUnder d folder sha256 suffix h = (_, unwrap (after_guard _ _ h))

metadata_rest :
    (d g : String) (m : Result KeyBuilderError (List String)) {key : String}
    → (m >>= λ parts. generation_key d g (str_append "metadata/" (join_slash parts))) ≡ ok key
    → IsUnder d key
metadata_rest d g (ok parts) h = generation_key-IsUnder d g _ h
metadata_rest d g (raised e) h = cc

Made-IsUnder : (d key : String) → Made d key → IsUnder d key
unfolding control_registration control_authoritative control_global_writer control_lease
    control_history generation_manifest generation_database generation_faiss generation_metadata
    blob_pdf blob_db blob_faiss content_blob
Made-IsUnder d key (registration e) = (_, e)
Made-IsUnder d key (authoritative e) = (_, e)
Made-IsUnder d key (global_writer e) = (_, e)
Made-IsUnder d key (lease e) = (_, e)
Made-IsUnder d key (history timestamp event h) = (_, unwrap (after_guard _ _ h))
Made-IsUnder d key (manifest g h) = generation_key-IsUnder d g _ h
Made-IsUnder d key (database g h) = generation_key-IsUnder d g _ h
Made-IsUnder d key (faiss g folder h) = generation_key-IsUnder d g _ (after_guard _ _ h)
Made-IsUnder d key (metadata g path h) = metadata_rest d g _ h
Made-IsUnder d key (pdf sha256 h) = digest_key-IsUnder d _ sha256 _ h
Made-IsUnder d key (db sha256 h) = digest_key-IsUnder d _ sha256 _ h
Made-IsUnder d key (index sha256 h) = digest_key-IsUnder d _ sha256 _ h
Made-IsUnder d key (content category sha256 extension h) =
    digest_key-IsUnder d _ sha256 _ (after_guard _ _ h)

slash-append : (s : String) → str_append "/" s ≡ String.◌∷◌ "/" s
slash-append s = cons-append "/" "" s ∙ ap (String.◌∷◌ "/") (nil-append s)

prefix_first : (d rest : String) → key_of d rest ≡ str_append (key_of d "") rest
unfolding key_of
prefix_first d rest = simp (append_assoc, slash-append) refl

own_scope : (d rest : String) → is_scoped d (key_of d rest) ≡ true
unfolding is_scoped
own_scope d rest = rw (prefix_first d rest) (starts_with-append (key_of d "") rest)

other_scope :
    (d e rest : String)
    → some_char is_slash d ≡ false
    → some_char is_slash e ≡ false
    → is_scoped e (key_of d rest) ≡ true
    → d ≡ e
unfolding is_scoped key_of
other_scope d e rest hd he h =
    let (u, p) = (starts_with_iff (key_of d rest) (key_of e "")).0 h in
    split_unique d e rest u hd he (append_cancel_left "datasets/" _ _ (prefix_first e u ∙ p))

builder_no_slash : (d : String) → key_builder d ≡ ok d → some_char is_slash d ≡ false
unfolding key_builder
builder_no_slash d h = no_slash 100 d (ground arith)

-- A key that the builder of one dataset hands out is in the scope of another dataset's builder exactly
-- where the two datasets are the same: `is_scoped` tells the objects of different datasets apart.
pub scoped_iff :
    (d e : String) {key : String}
    → key_builder d ≡ ok d
    → key_builder e ≡ ok e
    → Made d key
    → (is_scoped e key ≡ true) ↔ (d ≡ e)
scoped_iff d e {key = key} hd he m =
    let (rest, made) = Made-IsUnder d key m in
    (
      λ h. other_scope d e rest (builder_no_slash d hd) (builder_no_slash e he) (rw made at h),
      λ same. rw (made, ← same) (own_scope d rest),
    )

stops_at_slash :
    (g rest : String)
    → some_char is_slash g ≡ false
    → before_slash (str_append g (String.◌∷◌ "/" rest)) ≡ g
unfolding before_slash some_char
stops_at_slash String.[] rest h = rw nil-append refl
stops_at_slash (String.◌∷◌ c g) rest h =
    rw (cons-append c g (String.◌∷◌ "/" rest)) (ground (arith, stops_at_slash g rest))

after_prefix_lem : (p rest : String) → after_prefix p (str_append p rest) ≡ some rest
unfolding after_prefix
after_prefix_lem String.[] rest = rw nil-append refl
after_prefix_lem (String.◌∷◌ c p) rest =
    rw (cons-append c p rest) (ground (arith, after_prefix_lem p rest))

generation_first :
    (d rest : String)
    → key_of d (str_append "generations/" rest) ≡ str_append (key_of d "generations/") rest
unfolding key_of
generation_first d rest = simp append_assoc (
    ap (λ (t : String). str_append "datasets/" (str_append d t))
      (sym (cons-append "/" "generations/" rest)))

generation_no_slash :
    (d g rest : String) {key : String}
    → generation_key d g rest ≡ ok key
    → some_char is_slash g ≡ false
unfolding generation_key check_generation_id
generation_no_slash d g rest h = no_slash 120 g (ground arith)

under_generation :
    (d g rest : String) {key : String}
    → generation_key d g rest ≡ ok key
    → extract_generation_id d key ≡ some g
unfolding extract_generation_id generation_key
under_generation d g rest {key = key} h =
    let tail = str_append g (String.◌∷◌ "/" rest) in
    let made : key ≡ str_append (key_of d "generations/") tail =
      unwrap (after_guard _ _ h) ∙ generation_first d tail in
    rw made (
      ap (Option.map before_slash) (after_prefix_lem (key_of d "generations/") tail)
      ∙ ap some (stops_at_slash g rest (generation_no_slash d g rest h)))

-- the keys that the builder of a dataset makes for a generation
pub data MadeFor (d g : String) (key : String) : Type 0 where
  its_manifest : generation_manifest d g ≡ ok key → MadeFor d g key
  its_database : generation_database d g ≡ ok key → MadeFor d g key
  its_faiss : (folder : ℕ) → generation_faiss d g folder ≡ ok key → MadeFor d g key
  its_metadata : (path : String) → generation_metadata d g path ≡ ok key → MadeFor d g key

metadata_lem :
    (d g : String) (m : Result KeyBuilderError (List String)) {key : String}
    → (m >>= λ parts. generation_key d g (str_append "metadata/" (join_slash parts))) ≡ ok key
    → extract_generation_id d key ≡ some g
metadata_lem d g (ok parts) h = under_generation d g _ h
metadata_lem d g (raised e) h = cc

-- The generation id can be read back from every key that `generation_manifest`, `generation_database`,
-- `generation_faiss` and `generation_metadata` return for a generation.
pub generation_id_roundtrip :
    (d g : String) {key : String} → MadeFor d g key → extract_generation_id d key ≡ some g
unfolding generation_manifest generation_database generation_faiss generation_metadata
generation_id_roundtrip d g (its_manifest h) = under_generation d g _ h
generation_id_roundtrip d g (its_database h) = under_generation d g _ h
generation_id_roundtrip d g (its_faiss folder h) = under_generation d g _ (after_guard _ _ h)
generation_id_roundtrip d g (its_metadata path h) = metadata_lem d g _ h
