-- ===== src/Prelude/Lists.antt =====
-- Lists under the native numbers, membership by a Boolean test, and predicates on lists.
use Prim.Native.Nat.{ℕ, suc}
use mathlib.Core.Bool.{Bool, true, false, ◌||◌, ◌&&◌, not}
use mathlib.Core.Path.{◌≡◌, refl}
use native.Mathlib.Omega.{arith}
use mathlib.Core.List.{List, [], ◌∷◌, ◌++◌}
use Prim.Native.String.{String}
use text.Mathlib.Text.{◌==◌ as str_eq}
use pdf_search.Prelude.Tests.{if◌then◌else◌}

module _ {ℓ} {A : Type ℓ} where
  abbrev pub length : List A → ℕ
  length [] = 0
  length (x ∷ xs) = suc (length xs)

  -- `if not xs`
  abbrev pub is_empty : List A → Bool
  is_empty [] = true
  is_empty (x ∷ xs) = false

  -- `[x for x in xs if p(x)]`
  abbrev pub filter : (A → Bool) → List A → List A
  filter p [] = []
  filter p (x ∷ xs) = let rest = filter p xs in if p x then x ∷ rest else rest

  -- `any(p(x) for x in xs)`
  abbrev pub any : (A → Bool) → List A → Bool
  any p [] = false
  any p (x ∷ xs) = p x || any p xs

abbrev pub All {ℓ κ} : {A : Type ℓ} → (A → Type κ) → List A → Type κ
All P [] = Unit
All P (x ∷ xs) = P x × All P xs

-- `[x] if b else []`, the effect of `if b: xs.append(x)` on the end of a list
abbrev pub when {ℓ} : {A : Type ℓ} → Bool → A → List A
when true x = x ∷ []
when false x = []

-- `s in xs` for texts
unfoldable pub contains : String → List String → Bool
contains s [] = false
contains s (x ∷ xs) = str_eq x s || contains s xs

-- `list(dict.fromkeys(xs))`: the first occurrence of each text, in order; `seen` holds the keys so far
fromkeys_from : List String → List String → List String
fromkeys_from seen [] = []
fromkeys_from seen (x ∷ xs) =
    let rest = fromkeys_from (x ∷ seen) xs in
    let skip = fromkeys_from seen xs in if contains x seen then skip else x ∷ rest

unfoldable pub fromkeys : List String → List String
unfolding fromkeys_from contains
fromkeys xs = fromkeys_from [] xs

module _ {ℓ} {A : Type ℓ} where
  pub is_empty-append : (xs ys : List A) → is_empty (xs ++ ys) ≡ is_empty xs && is_empty ys
  is_empty-append [] ys = refl
  is_empty-append (x ∷ xs) ys = refl

  pub is_empty-when : (b : Bool) (x : A) → is_empty (when b x) ≡ not b
  is_empty-when true x = refl
  is_empty-when false x = refl

  -- `[]` is the empty list
  pub eq_nil_of_is_empty : (xs : List A) → is_empty xs ≡ true → xs ≡ []
  eq_nil_of_is_empty [] h = refl
  eq_nil_of_is_empty (x ∷ xs) h = cc

pub contains-append :
    (s : String) (xs ys : List String) → contains s (xs ++ ys) ≡ contains s xs || contains s ys
unfolding contains
contains-append s [] ys = refl
contains-append s (x ∷ xs) ys = ground (arith, contains-append s xs ys)

pub is_empty-fromkeys : (xs : List String) → is_empty (fromkeys xs) ≡ is_empty xs
unfolding fromkeys
is_empty-fromkeys [] = refl
is_empty-fromkeys (x ∷ xs) = refl

pub ruleset emptiness = (is_empty-append, is_empty-when, is_empty-fromkeys)
