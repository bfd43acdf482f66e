-- ===== src/Vault/Retention/Deletion.antt =====
-- What a plan of flowdocs/vaultops/services/retention.py may delete.
use mathlib.Core.List.{Memᴰ}
use pdf_search.Prelude.{
  both_true, ℕ, ◌+◌, ◌≤◌, ◌≡◌, refl, sym, ap, ◌∙◌, String, List, [], ◌∷◌, map, Bool, true, false,
  ◌&&◌, not, filter, any, contains, is_empty, length, ltb, leb→le, ok, bind_ok, require_ok, ok_inj,
  arith, emptiness,
}
use pdf_search.Vault.Retention.{
  Stored, Tables, is_authoritative, is_in_progress, is_protected_runtime, has_hold, has_workspace,
  generation_protection_reasons,
}
use pdf_search.Vault.Retention.Collect.{Objects, manifest_objects, has_key, verified_projection}
use pdf_search.Vault.Retention.Garbage.{
  Settings, Profile, GcPlan, Candidate, Estimates, InventoryPayload, PlanPayload, is_retired,
  is_eligible, keep_reasons, collect_guard, collect, drafted_plan, gc_draft, dataset_generations,
  is_under_way,
}
use pdf_search.Vault.Retention.Scanning.{of_filter, scan_lem, exclusive_lem, contains-map, id_of}
use pdf_search.Vault.Retention.Candidates.{
  candidate_of_lem, length-candidates_of, candidates_of-origin, guard_lem, collect_lem,
}

-- a retired generation that nothing protects and whose grace period is over
pub record MayCollect (tables : Tables) (settings : Settings) (now : ℕ) (g : Stored) : Type 0 where
  pub retired : is_retired g ≡ true
  not_authoritative : is_authoritative tables g ≡ false
  no_job : is_in_progress tables g ≡ false
  no_runtime : is_protected_runtime g.row.runtime_state ≡ false
  pub no_hold : has_hold now g ≡ false
  no_workspace : has_workspace g ≡ false
  grace_over : g.updated_at + settings.grace ≤ now

none_of_six :
    (a b c d e f : Bool)
    → not a && (not b && (not c && (not d && (not e && not f)))) ≡ true
    → (a ≡ false) × (b ≡ false) × (c ≡ false) × (d ≡ false) × (e ≡ false) × (f ≡ false)
none_of_six a b c d e f h = ground arith

is_empty-keep_reasons :
    (tables : Tables) (settings : Settings) (now : ℕ) (g : Stored)
    → is_empty (keep_reasons tables settings now g)
      ≡ not (ltb now (g.updated_at + settings.grace))
        && (not (is_authoritative tables g)
            && (not (is_in_progress tables g)
                && (not (is_protected_runtime g.row.runtime_state)
                    && (not (has_hold now g) && not (has_workspace g)))))
unfolding keep_reasons generation_protection_reasons
is_empty-keep_reasons tables settings now g = simp emptiness refl

pub eligible-MayCollect :
    (tables : Tables) (settings : Settings) (now : ℕ) (g : Stored)
    → is_eligible tables settings now g ≡ true
    → MayCollect tables settings now g
unfolding is_eligible
eligible-MayCollect tables settings now g h =
    let (r, empty) = both_true (is_retired g) (is_empty (keep_reasons tables settings now g)) h in
    let (a, b, c, d, e, f) =
      none_of_six (ltb now (g.updated_at + settings.grace)) (is_authoritative tables g)
        (is_in_progress tables g) (is_protected_runtime g.row.runtime_state) (has_hold now g)
        (has_workspace g) (sym (is_empty-keep_reasons tables settings now g) ∙ empty) in
    record {
      retired = r;
      not_authoritative = b;
      no_job = c;
      no_runtime = d;
      no_hold = e;
      no_workspace = f;
      grace_over = ground arith;
    }

positive : (xs : List Stored) → not (is_empty xs) ≡ true → 1 ≤ length xs
positive [] h = cc
positive (x ∷ xs) h = omega arith

module _ (digest_inventory : InventoryPayload → String) (digest_plan : PlanPayload → String)
    (public_id : ℕ) (tables : Tables) (settings : Settings) (profile : Profile) (d : String)
    (now : ℕ) (rows : List Stored) (plans : List GcPlan) where
  drafted_lem :
      {plan : GcPlan}
      → drafted_plan digest_inventory digest_plan public_id tables settings profile d now rows plans
        ≡ ok plan
      → (gs : List Stored) × (found : List Candidate × Estimates) × (collect_guard tables settings
            profile.pk d now rows
          ≡ ok gs)
        × (collect tables settings d now gs ≡ ok found)
        × (found.0 ≡ plan.candidates)
        × (found.1 ≡ plan.estimates)
  unfolding drafted_plan gc_draft
  drafted_lem h =
      let (projection, _, rest₁) =
        bind_ok (verified_projection settings.inventory_cache profile.pk d now tables.projections) _
          h in
      let (_, rest₂) = require_ok (not (any (is_under_way profile.pk d now) plans)) _ _ rest₁ in
      let (gs, guarded, rest₃) =
        bind_ok (collect_guard tables settings profile.pk d now rows) _ rest₂ in
      let (found, collected, last) = bind_ok (collect tables settings d now gs) _ rest₃ in
      let made = ok_inj last in
      (
        gs,
        found,
        guarded,
        collected,
        ap (λ (p : GcPlan). p.candidates) made,
        ap (λ (p : GcPlan). p.estimates) made,
      )

  -- Every candidate of a drafted plan stands for a generation of the profile and the dataset that is
  -- retired, not authoritative, not named by an unfinished job, in no runtime state that counts as in
  -- use, without an active hold, without a restore workspace that has not expired, and past its grace
  -- period.
  pub candidate-MayCollect :
      {plan : GcPlan} {c : Candidate}
      → drafted_plan digest_inventory digest_plan public_id tables settings profile d now rows plans
        ≡ ok plan
      → Memᴰ c plan.candidates
      → (g : Stored) × Memᴰ g (dataset_generations profile.pk d rows)
        × MayCollect tables settings now g
        × (g.row.generation_id ≡ c.generation_id)
  candidate-MayCollect h m =
      let (gs, found, guarded, collected, same, _) = drafted_lem h in
      let (is_all, _, _) = guard_lem tables settings profile.pk d now rows gs guarded in
      let (scanned, _, _, made, _, _) = collect_lem tables settings d now gs collected in
      let eligible = filter (is_eligible tables settings now) gs in
      let (g, at, of) =
        candidates_of-origin d scanned (map id_of eligible) eligible made (rw (← same) at m) in
      let (kept, fit) = of_filter (is_eligible tables settings now) gs at in
      (
        g,
        rw is_all kept,
        eligible-MayCollect tables settings now g fit,
        sym ((candidate_of_lem d scanned (map id_of eligible) g of).0),
      )

  -- A key that a drafted plan lists as exclusive to a candidate is in the manifest of no generation that
  -- stays: where the manifest of a generation of the dataset can be read and names the key, the id of the
  -- generation is that of a generation that may be collected.
  pub exclusive_key_is_free :
      {plan : GcPlan} {c : Candidate} (key : String) (g : Stored) {records : Objects}
      → drafted_plan digest_inventory digest_plan public_id tables settings profile d now rows plans
        ≡ ok plan
      → Memᴰ c plan.candidates
      → contains key c.exclusive_object_keys ≡ true
      → Memᴰ g (dataset_generations profile.pk d rows)
      → manifest_objects g ≡ ok records
      → has_key key records ≡ true
      → (e : Stored) × Memᴰ e (dataset_generations profile.pk d rows)
        × MayCollect tables settings now e
        × (e.row.generation_id ≡ g.row.generation_id)
  exclusive_key_is_free key g {records = records} h m named at read has =
      let (gs, found, guarded, collected, same, _) = drafted_lem h in
      let (is_all, _, _) = guard_lem tables settings profile.pk d now rows gs guarded in
      let (scanned, metadata, scan_ok, made, _, _) =
        collect_lem tables settings d now gs collected in
      let eligible = filter (is_eligible tables settings now) gs in
      let ids = map id_of eligible in
      let (w, _, of) = candidates_of-origin d scanned ids eligible made (rw (← same) at m) in
      let exclusive = (candidate_of_lem d scanned ids w of).1 key named in
      let in_ids =
        exclusive_lem scanned ids key (id_of g) records exclusive
          (scan_lem gs [] scan_ok (rw is_all at at) read) has in
      let (e, in_eligible, same_id) = contains-map eligible (id_of g) in_ids in
      let (kept, fit) = of_filter (is_eligible tables settings now) gs in_eligible in
      (e, rw is_all kept, eligible-MayCollect tables settings now e fit, same_id)

  -- A drafted plan has between 1 and 500 candidates, its estimates count them, and it never enables the
  -- deletion.
  plan_size :
      {plan : GcPlan}
      → drafted_plan digest_inventory digest_plan public_id tables settings profile d now rows plans
        ≡ ok plan
      → (1 ≤ length plan.candidates)
        × (length plan.candidates ≤ 500)
        × (plan.estimates.candidate_generations ≡ length plan.candidates)
        × (plan.estimates.deletion_enabled ≡ false)
  plan_size h =
      let (gs, found, guarded, collected, same, estimates) = drafted_lem h in
      let (_, some_eligible, within) = guard_lem tables settings profile.pk d now rows gs guarded in
      let (scanned, _, _, made, counted, disabled) =
        collect_lem tables settings d now gs collected in
      let eligible = filter (is_eligible tables settings now) gs in
      let size = length-candidates_of d scanned (map id_of eligible) eligible made in
      rw (← same, ← estimates)
        (rw size (positive eligible some_eligible, leb→le _ _ within, counted ∙ size, disabled))
