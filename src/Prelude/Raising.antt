-- ===== src/Prelude/Raising.antt =====
-- Calls that return a value or raise an exception.
use mathlib.Core.Bool.{Bool, true, false}
use mathlib.Core.Option.{Option, none, some}
use mathlib.Core.List.{List, ◌∷◌}
use mathlib.Core.Logic.{◌⊎◌, inl, inr}
use mathlib.Core.Path.{◌≡◌, refl}

pub data Result {ℓ κ} (E : Type κ) (A : Type ℓ) : Type (ℓ ⊔ κ) where
  ok : A → Result E A
  raised : E → Result E A

infixl 5 ◌>>=◌ ◌>>◌
abbrev pub ◌>>=◌ {ℓ κ μ} :
    {E : Type μ} {A : Type ℓ} {B : Type κ} → Result E A → (A → Result E B) → Result E B
ok a >>= f = f a
raised e >>= f = raised e

abbrev pub ◌>>◌ {κ μ} : {E : Type μ} {B : Type κ} → Result E (Unit {0}) → Result E B → Result E B
m >> k = m >>= λ _. k

-- `if not b: raise e`
abbrev pub require {μ} : {E : Type μ} → Bool → E → Result E (Unit {0})
require true e = ok tt
require false e = raised e

-- did the call return?
abbrev pub is_ok {ℓ κ} : {E : Type κ} {A : Type ℓ} → Result E A → Bool
is_ok (ok a) = true
is_ok (raised e) = false

-- `try: return … except …: return None`
abbrev pub returned {ℓ κ} : {E : Type κ} {A : Type ℓ} → Result E A → Option A
returned (ok a) = some a
returned (raised e) = none

-- a sequence that returned: so did its first call, and then the rest on its value
pub bind_ok {ℓ κ μ} :
    {E : Type μ} {A : Type ℓ} {B : Type κ} (m : Result E A) (f : A → Result E B) {b : B}
    → (m >>= f) ≡ ok b
    → (a : A) × (m ≡ ok a) × (f a ≡ ok b)
bind_ok (ok a) f h = (a, refl, h)
bind_ok (raised e) f h = cc

-- a guard that let the call go on
pub require_ok {κ μ} :
    {E : Type μ} {B : Type κ} (b : Bool) (e : E) (k : Result E B) {r : B}
    → (require b e >> k) ≡ ok r
    → (b ≡ true) × (k ≡ ok r)
require_ok true e k h = (refl, h)
require_ok false e k h = cc

pub ok_inj {κ μ} : {E : Type μ} {A : Type κ} {x a : A} → Path (Result E A) (ok x) (ok a) → x ≡ a
ok_inj h = cc

-- `[f(x), *rest]` that returned
pub cons_ok {κ μ} :
    {E : Type μ} {A : Type κ} (m : Result E A) (k : Result E (List A)) {xs : List A}
    → (m >>= λ x. k >>= λ rest. ok (x ∷ rest)) ≡ ok xs
    → (x : A) × (rest : List A) × (m ≡ ok x) × (k ≡ ok rest) × (x ∷ rest ≡ xs)
cons_ok (ok x) (ok rest) h = (x, rest, refl, refl, ok_inj h)
cons_ok (ok x) (raised e) h = cc
cons_ok (raised e) k h = cc

-- a call raised, or returned a value
pub Result-cases {κ μ} :
    {E : Type μ} {A : Type κ} (m : Result E A) → (is_ok m ≡ false) ⊎ ((a : A) × (m ≡ ok a))
Result-cases (ok a) = inr (a, refl)
Result-cases (raised e) = inl refl
