-- ===== src/Cache.antt =====
-- The shared cache (`django.core.cache`), which the repository calls and does not implement: an
-- interface with the documented behaviour that the callers rely on, and a store that has it.
pub mod Memory
use pdf_search.Prelude.{ℕ, ◌<◌, ◌≡◌, ◌≢◌, String, Option, none, some, Bool, true, false}

-- `V` is what the callers store. A state is the content at one moment: between two calls other
-- processes and expiry may change it, so each call of a caller names the state that it meets.
pub record CacheApi (V : Type 0) : Type 1 where
  pub State : Type 0
  pub get : State → String → Option V
  -- `cache.add(key, value, timeout)`, with the flag that it returns
  pub add : State → String → V → ℕ → State
  pub added : State → String → Bool
  -- `cache.set(key, value, timeout)`; `none` is `timeout=None`
  pub set : State → String → V → Option ℕ → State
  pub delete : State → String → State
  pub get-set_self :
      (s : State) (k : String) (v : V) (t : ℕ) → 0 < t → get (set s k v (some t)) k ≡ some v
  pub get-set_forever : (s : State) (k : String) (v : V) → get (set s k v none) k ≡ some v
  pub get-set_ne :
      (s : State) (k j : String) (v : V) (t : Option ℕ) → k ≢ j → get (set s k v t) j ≡ get s j
  pub get-delete_self : (s : State) (k : String) → get (delete s k) k ≡ none
  pub get-delete_ne : (s : State) (k j : String) → k ≢ j → get (delete s k) j ≡ get s j
  -- `add` stores exactly where the key is not there
  pub added_absent : (s : State) (k : String) → get s k ≡ none → added s k ≡ true
  pub added_present : (s : State) (k : String) (v : V) → get s k ≡ some v → added s k ≡ false
  pub get-add_absent :
      (s : State) (k : String) (v : V) (t : ℕ)
      → 0 < t
      → get s k ≡ none
      → get (add s k v t) k ≡ some v
  pub add_present : (s : State) (k : String) (v w : V) (t : ℕ) → get s k ≡ some w → add s k v t ≡ s
