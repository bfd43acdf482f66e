-- ===== src/RuntimeControl/Dicts.antt =====
-- The dicts of the documents of flowdocs/vaultops/runtime_control.py.
use pdf_search.Prelude.{
  ◌≡◌, refl, sym, ap, ◌∙◌, inl, inr, String, str_eq, eq_refl, eq_iff, none, some, if◌then◌else◌,
  true, false, Bool-cases, [], ◌∷◌, All,
}
use pdf_search.RuntimeControl.Documents.{Value, Document, get, with_entry, is_seal, unsigned}

-- a payload has neither key of a signature
abbrev pub IsUnsigned : Document → Type 0
IsUnsigned = All (λ kv. is_seal kv.0 ≡ false)

pub unsigned-with_entry :
    (key : String) (v : Value) (p : Document)
    → is_seal key ≡ true
    → unsigned (with_entry key v p) ≡ unsigned p
unfolding unsigned with_entry
unsigned-with_entry key v [] sealed = rw sealed refl
unsigned-with_entry key v ((k, w) ∷ rest) sealed =
    let below = unsigned-with_entry key v rest sealed in
    elim (Bool-cases (str_eq k key)) [
      | inl same ↦
          let same_key = (eq_iff k key).0 same in
          let sealed_too : is_seal k ≡ true = rw same_key sealed in rw (same, sealed_too) refl
      | inr differs ↦ rw differs (elim (Bool-cases (is_seal k)) [
        | inl s ↦ rw s below
        | inr n ↦ rw n (ap (λ r. (k, w) ∷ r) below)
      ])
    ]

pub unsigned-IsUnsigned : (p : Document) → IsUnsigned p → unsigned p ≡ p
unfolding unsigned
unsigned-IsUnsigned [] h = refl
unsigned-IsUnsigned ((k, v) ∷ rest) (plain, others) =
    let below = unsigned-IsUnsigned rest others in rw plain (ap (λ r. (k, v) ∷ r) below)

pub get-with_entry :
    (key : String) (v : Value) (p : Document) → get key (with_entry key v p) ≡ some v
unfolding get with_entry
get-with_entry key v [] = let same = eq_refl key in rw same refl
get-with_entry key v ((k, w) ∷ rest) =
    let below = get-with_entry key v rest in
    elim (Bool-cases (str_eq k key)) [
      | inl same ↦ rw (same, same) refl
      | inr differs ↦ rw (differs, differs) below
    ]

pub get-with_other_entry :
    (key other_key : String) (v : Value) (p : Document)
    → str_eq other_key key ≡ false
    → get key (with_entry other_key v p) ≡ get key p
unfolding get with_entry
get-with_other_entry key other_key v [] differs = rw differs refl
get-with_other_entry key other_key v ((k, w) ∷ rest) differs =
    let below = get-with_other_entry key other_key v rest differs in
    elim (Bool-cases (str_eq k other_key)) [
      | inl same ↦
          let same_key = (eq_iff k other_key).0 same in
          let not_key : str_eq k key ≡ false = rw same_key differs in rw (same, not_key) refl
      | inr not_same ↦ rw (not_same, below) refl
    ]

get-unsigned :
    (key : String) (d : Document) → get key (unsigned d) ≡ (if is_seal key then none else get key d)
unfolding get unsigned
get-unsigned key [] = elim (Bool-cases (is_seal key)) [ inl s ↦ rw s refl | inr n ↦ rw n refl ]
get-unsigned key ((k, v) ∷ rest) =
    let below = get-unsigned key rest in
    elim (Bool-cases (str_eq k key)) [
      | inl same ↦
          let same_key : k ≡ key = (eq_iff k key).0 same in
          elim (Bool-cases (is_seal k)) [
            | inl s ↦
                let sealed : is_seal key ≡ true = ap is_seal (sym same_key) ∙ s in
                rw (s, sealed) (below ∙ rw sealed refl)
            | inr n ↦
                let plain : is_seal key ≡ false = ap is_seal (sym same_key) ∙ n in
                rw (n, same, plain) refl
          ]
      | inr differs ↦ elim (Bool-cases (is_seal k)) [
        | inl s ↦ rw (s, differs) below
        | inr n ↦ rw (n, differs) below
      ]
    ]

-- dicts with the same entries, in any order
abbrev pub HasEntriesOf : Document → Document → Type 0
HasEntriesOf a b = (key : String) → get key a ≡ get key b

pub unsigned-HasEntriesOf :
    (a b : Document) → HasEntriesOf a b → HasEntriesOf (unsigned a) (unsigned b)
unsigned-HasEntriesOf a b same key =
    get-unsigned key a
    ∙ ap (λ found. if is_seal key then none else found) (same key)
    ∙ sym (get-unsigned key b)
