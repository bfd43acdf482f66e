-- ===== src/Vault/Retention/Candidates.antt =====
-- The steps by which flowdocs/vaultops/services/retention.py makes the candidates of a plan.
use mathlib.Core.List.{Memᴰ}
use mathlib.Core.List.Memᴰ
use pdf_search.Prelude.{
  ℕ, suc, ◌≡◌, refl, sym, ap, ◌∙◌, String, List, [], ◌∷◌, map, true, false, not, filter, contains,
  is_empty, length, leb, ok, bind_ok, require_ok, ok_inj, cons_ok, ◌>>=◌,
}
use pdf_search.Vault.Retention.{Stored, Tables}
use pdf_search.Vault.Retention.Collect.{Objects, Scanned, scan, keyed}
use pdf_search.Keys.{key_builder, generation_manifest}
use pdf_search.Vault.Retention.Garbage.{
  Settings, Candidate, Estimates, is_eligible, is_exclusive, object_keys, candidate_of,
  candidates_of, collect_guard, collect, dataset_generations, estimates_of, max_gc_candidates,
}
use pdf_search.Vault.Retention.Scanning.{contains-filter, id_of}

pub candidate_of_lem :
    (d : String) (scanned : List Scanned) (ids : List String) (g : Stored) {c : Candidate}
    → candidate_of d scanned ids g ≡ ok c
    → (c.generation_id ≡ id_of g)
      × ((key : String)
          → contains key c.exclusive_object_keys ≡ true
          → is_exclusive scanned ids key ≡ true)
unfolding candidate_of
candidate_of_lem d scanned ids g {c = c} h =
    let (manifest_key, _, same) =
      bind_ok (keyed (key_builder d >>= λ builder. generation_manifest builder (id_of g))) _ h in
    let made = ok_inj same in
    (
      sym (ap (λ (x : Candidate). x.generation_id) made),
      λ key found.
          contains-filter (is_exclusive scanned ids) key (object_keys scanned (id_of g))
            (ap (λ (x : Candidate). contains key x.exclusive_object_keys) made ∙ found),
    )

pub length-candidates_of :
    (d : String) (scanned : List Scanned) (ids : List String) (gs : List Stored)
    {cs : List Candidate}
    → candidates_of d scanned ids gs ≡ ok cs
    → length cs ≡ length gs
unfolding candidates_of
length-candidates_of d scanned ids [] h = ap length (sym (ok_inj h))
length-candidates_of d scanned ids (g ∷ gs) h =
    let (_, cs, _, later, same) =
      cons_ok (candidate_of d scanned ids g) (candidates_of d scanned ids gs) h in
    ap length (sym same) ∙ ap suc (length-candidates_of d scanned ids gs later)

-- the generation that a candidate stands for
abbrev StandsFor : String → List Scanned → List String → List Stored → Candidate → Type 0
StandsFor d scanned ids gs c = (g : Stored) × Memᴰ g gs × (candidate_of d scanned ids g ≡ ok c)

module _ (d : String) (scanned : List Scanned) (ids : List String) where
  origin_cons :
      {c c₁ : Candidate} {cs : List Candidate} (g : Stored) (gs : List Stored)
      → candidate_of d scanned ids g ≡ ok c₁
      → (Memᴰ c cs → StandsFor d scanned ids gs c)
      → Memᴰ c (c₁ ∷ cs)
      → StandsFor d scanned ids (g ∷ gs) c
  origin_cons g gs made below (Memᴰ.head e) = (g, Memᴰ.head refl, made ∙ ap ok (sym e))
  origin_cons g gs made below (Memᴰ.tail m) = let (w, at, of) = below m in (w, Memᴰ.tail at, of)

  pub candidates_of-origin :
      (gs : List Stored) {cs : List Candidate} {c : Candidate}
      → candidates_of d scanned ids gs ≡ ok cs
      → Memᴰ c cs
      → StandsFor d scanned ids gs c
  unfolding candidates_of
  candidates_of-origin [] h m = absurd (Memᴰ.not-nil (rw (← ok_inj h) at m))
  candidates_of-origin (g ∷ gs) h m =
      let (_, cs, first, later, same) =
        cons_ok (candidate_of d scanned ids g) (candidates_of d scanned ids gs) h in
      origin_cons g gs first (candidates_of-origin gs later) (rw (← same) at m)

pub guard_lem :
    (tables : Tables) (settings : Settings) (profile : ℕ) (d : String) (now : ℕ)
    (rows gs : List Stored)
    → collect_guard tables settings profile d now rows ≡ ok gs
    → (dataset_generations profile d rows ≡ gs)
      × (not (is_empty (filter (is_eligible tables settings now) gs)) ≡ true)
      × (leb (length (filter (is_eligible tables settings now) gs)) max_gc_candidates ≡ true)
unfolding collect_guard
guard_lem tables settings profile d now rows gs h =
    let eligible = filter (is_eligible tables settings now) (dataset_generations profile d rows) in
    let (_, rest₁) = require_ok (not (is_empty (dataset_generations profile d rows))) _ _ h in
    let (some_eligible, rest₂) = require_ok (not (is_empty eligible)) _ _ rest₁ in
    let (within, last) = require_ok (leb (length eligible) max_gc_candidates) _ _ rest₂ in
    rw (← ok_inj last) (refl, some_eligible, within)

pub collect_lem :
    (tables : Tables) (settings : Settings) (d : String) (now : ℕ) (gs : List Stored)
    {found : List Candidate × Estimates}
    → collect tables settings d now gs ≡ ok found
    → let eligible = filter (is_eligible tables settings now) gs in
      (scanned : List Scanned) × (metadata : Objects) × (scan gs [] ≡ ok (scanned, metadata))
      × (candidates_of d scanned (map id_of eligible) eligible ≡ ok found.0)
      × (found.1.candidate_generations ≡ length found.0)
      × (found.1.deletion_enabled ≡ false)
unfolding collect estimates_of
collect_lem tables settings d now gs h =
    let eligible = filter (is_eligible tables settings now) gs in
    let ((scanned, metadata), first, rest) = bind_ok (scan gs []) _ h in
    let (candidates, made, last) =
      bind_ok (candidates_of d scanned (map id_of eligible) eligible) _ rest in
    rw (← ok_inj last) (scanned, metadata, first, made, refl, refl)
