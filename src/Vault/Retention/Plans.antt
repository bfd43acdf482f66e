-- ===== src/Vault/Retention/Plans.antt =====
-- The plans under way of flowdocs/vaultops/services/retention.py.
use pdf_search.Prelude.{
  ℕ, ◌≡◌, refl, sym, ap, ◌∙◌, String, str_eq, List, [], ◌∷◌, Bool, true, false, not, Bool-cases,
  inl, inr, any, Result, ok, raised, is_ok, require, ◌>>=◌, ◌>>◌, bind_ok, ok_inj, arith,
}
use pdf_search.Vault.Transitions.{Request}
use pdf_search.Vault.Retention.{Stored, Tables}
use pdf_search.Vault.Retention.Collect.{verified_projection}
use pdf_search.Vault.Retention.Garbage.{
  Settings, Profile, GcPlan, PlanCreated, InventoryPayload, PlanPayload, is_under_way, file_plan,
  create_gc_plan, drafted_plan,
}

filed_under_way :
    (p : GcPlan → Bool) (draft : GcPlan) (plans : List GcPlan)
    → p (file_plan draft plans).0 ≡ true
    → any p (file_plan draft plans).1 ≡ true
unfolding file_plan
filed_under_way p draft [] h = rw h refl
filed_under_way p draft (x ∷ xs) h = elim (Bool-cases (str_eq x.plan_digest draft.plan_digest)) [
  | inl same ↦ let mine : p x ≡ true = rw same at h in rw (same, mine) refl
  | inr other ↦ rw (other, filed_under_way p draft xs (rw other at h)) (ground arith)
]

stopped :
    {E A B : Type 0} (m : Result E A) (b : Bool) (e : E) (k : A → Result E B)
    → b ≡ true
    → is_ok (m >>= λ a. require (not b) e >> k a) ≡ false
stopped (ok a) b e k h = rw h refl
stopped (raised e₁) b e k h = refl

is_ok-bind :
    {E A B : Type 0} (m : Result E A) (f : A → Result E B)
    → is_ok m ≡ false
    → is_ok (m >>= f) ≡ false
is_ok-bind (ok a) f h = cc
is_ok-bind (raised e) f h = refl

-- As long as the plan that `create_gc_plan` returned is under way, every further call for its profile and
-- dataset raises, on the table of plans that the first call left.
one_plan_at_a_time :
    (digest_inventory : InventoryPayload → String) (digest_plan : PlanPayload → String)
    (public_id other_id : ℕ) (tables other_tables : Tables) (settings other_settings : Settings)
    (profile : Profile) (d : String) (by other : Request) (now later : ℕ)
    (rows other_rows : List Stored) (plans : List GcPlan) {plan : GcPlan} {after : List GcPlan}
    {event : PlanCreated}
    → create_gc_plan digest_inventory digest_plan public_id tables settings profile d by now rows
        plans
      ≡ ok (plan, after, event)
    → is_under_way profile.pk d later plan ≡ true
    → is_ok (
        create_gc_plan digest_inventory digest_plan other_id other_tables other_settings profile d
          other later other_rows after)
      ≡ false
unfolding create_gc_plan drafted_plan
one_plan_at_a_time digest_inventory digest_plan public_id other_id tables other_tables settings
      other_settings profile d by other now later rows other_rows plans {after = after} h busy =
    let (draft, _, made) =
      bind_ok
        (drafted_plan digest_inventory digest_plan public_id tables settings profile d now rows
          plans)
        _ h in
    let filed = ok_inj made in
    let present : any (is_under_way profile.pk d later) after ≡ true =
      ap (λ r. any (is_under_way profile.pk d later) r.1) (sym filed)
      ∙ filed_under_way (is_under_way profile.pk d later) draft plans
          (ap (λ r. is_under_way profile.pk d later r.0) filed ∙ busy) in
    is_ok-bind
      (drafted_plan digest_inventory digest_plan other_id other_tables other_settings profile d
        later other_rows after)
      _
      (stopped
        (verified_projection other_settings.inventory_cache profile.pk d later
          other_tables.projections)
        (any (is_under_way profile.pk d later) after) _ _ present)
