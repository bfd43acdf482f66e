-- ===== src/Vault/Retention/Scanning.antt =====
-- The object graph that flowdocs/vaultops/services/retention.py reads: what the lists it makes contain.
use mathlib.Core.List.{Memᴰ}
use mathlib.Core.List.Memᴰ
use pdf_search.Prelude.{
  ◌≡◌, refl, sym, ap, ◌∙◌, String, List, [], ◌∷◌, map, Bool, true, false, not, filter, contains,
  is_empty, ok, bind_ok, ok_inj, arith, eq_iff, str_eq, Bool-cases, inl, inr,
}
use pdf_search.Vault.Retention.{Stored}
use pdf_search.Vault.Retention.Collect.{
  Objects, Scanned, manifest_objects, has_key, scan, retained_references, references, merge_objects,
}
use pdf_search.Vault.Retention.Garbage.{is_exclusive}

module _ {A : Type 0} where
  pub of_filter :
      (p : A → Bool) (xs : List A) {a : A} → Memᴰ a (filter p xs) → Memᴰ a xs × (p a ≡ true)
  of_filter p [] m = absurd (Memᴰ.not-nil m)
  of_filter p (x ∷ xs) {a} m = elim (Bool-cases (p x)) [
    | inl h ↦ (elim (rw h at m) [
      | Memᴰ.head e ↦ (Memᴰ.head e, ap p e ∙ h)
      | Memᴰ.tail below ↦ let (w, q) = of_filter p xs below in (Memᴰ.tail w, q)
    ])
    | inr h ↦ let (w, q) = of_filter p xs (rw h at m) in (Memᴰ.tail w, q)
  ]

pub contains-filter :
    (p : String → Bool) (key : String) (keys : List String)
    → contains key (filter p keys) ≡ true
    → p key ≡ true
unfolding contains
contains-filter p key [] h = cc
contains-filter p key (k ∷ keys) h = ground (arith, contains-filter p key keys, eq_iff k key)

-- the id of a generation
abbrev pub id_of : Stored → String
id_of g = g.row.generation_id

pub scan_lem :
    (gs : List Stored) (known : Objects) {scanned : List Scanned} {metadata : Objects}
    → scan gs known ≡ ok (scanned, metadata)
    → {g : Stored} {records : Objects} → Memᴰ g gs
    → manifest_objects g ≡ ok records
    → Memᴰ (id_of g, records) scanned
unfolding scan
scan_lem [] known h m e = absurd (Memᴰ.not-nil m)
scan_lem (g₁ ∷ gs) known h {g} {records} m e =
    let (records₁, first, rest₁) = bind_ok (manifest_objects g₁) _ h in
    let (more, _, rest₂) = bind_ok (merge_objects records₁ known) _ rest₁ in
    let ((scanned₁, metadata₁), later, same) = bind_ok (scan gs more) _ rest₂ in
    let whole = ap (λ p. p.0) (ok_inj same) in
    elim m [
      | Memᴰ.head eq ↦ rw (← whole) (
          Memᴰ.head {x = (id_of g₁, records₁)}
            (λ i. (id_of (eq i), (ok_inj (sym e ∙ ap manifest_objects eq ∙ first)) i)))
      | Memᴰ.tail below ↦ rw (← whole) (Memᴰ.tail (scan_lem gs more later below e))
    ]

none_left :
    {A : Type 0} (p : A → Bool) (xs : List A) {a : A}
    → is_empty (filter p xs) ≡ true
    → Memᴰ a xs
    → p a ≡ false
none_left p [] h m = absurd (Memᴰ.not-nil m)
none_left p (x ∷ xs) {a} h m = elim (Bool-cases (p x)) [
  | inl kept ↦ let bad : false ≡ true = rw kept at h in cc
  | inr gone ↦ elim m [
    | Memᴰ.head e ↦ ap p e ∙ gone
    | Memᴰ.tail below ↦ none_left p xs (rw gone at h) below
  ]
]

references_lem :
    (scanned : List Scanned) (key id : String) (records : Objects)
    → Memᴰ (id, records) scanned
    → has_key key records ≡ true
    → Memᴰ id (references scanned key)
unfolding references
references_lem [] key id records m k = absurd (Memᴰ.not-nil m)
references_lem ((id₁, records₁) ∷ rest) key id records m k = elim m [
  | Memᴰ.head e ↦
      rw ((ap (λ p. has_key key p.1) (sym e) ∙ k)) (Memᴰ.head {x = id₁} (ap (λ p. p.0) e))
  | Memᴰ.tail below ↦
      let later = references_lem rest key id records below k in
      elim (Bool-cases (has_key key records₁)) [
        | inl kept ↦ rw kept (Memᴰ.tail later)
        | inr gone ↦ rw gone later
      ]
]

pub exclusive_lem :
    (scanned : List Scanned) (ids : List String) (key id : String) (records : Objects)
    → is_exclusive scanned ids key ≡ true
    → Memᴰ (id, records) scanned
    → has_key key records ≡ true
    → contains id ids ≡ true
unfolding retained_references
exclusive_lem scanned ids key id records h m k =
    let left =
      none_left (λ i. not (contains i ids)) (references scanned key) h
        (references_lem scanned key id records m k) in
    ground arith

pub contains-map :
    (gs : List Stored) (id : String)
    → contains id (map id_of gs) ≡ true
    → (g : Stored) × Memᴰ g gs × (id_of g ≡ id)
unfolding contains
contains-map [] id h = cc
contains-map (g ∷ gs) id h = elim (Bool-cases (str_eq (id_of g) id)) [
  | inl same ↦ (g, Memᴰ.head refl, (eq_iff (id_of g) id).0 same)
  | inr other ↦
      let (found, at, same) = contains-map gs id (rw other at h) in (found, Memᴰ.tail at, same)
]
