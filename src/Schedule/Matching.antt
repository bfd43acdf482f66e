-- ===== src/Schedule/Matching.antt =====
-- What the ranges and the five stars mean in flowdocs/dataops/job_scheduler.py means.
use pdf_search.Prelude.{
  ℕ, zero, suc, ◌%◌, String, Option, some, ok, ◌+◌, ◌-◌, ◌*◌, ◌≤◌, ◌≡◌, ◌↔◌, refl, sym, ◌∙◌, true,
  false, ltb, ◌==◌, Bool-cases, inl, inr, ◌∷◌, arith,
}
use pdf_search.Schedule.{LocalTime, parse_schedule, schedule_matches}
use pdf_search.Schedule.Parse.{range_from, range, has_value}

-- `start`, `start + step`, `start + 2 * step`, … up to `end`
abbrev Reached : ℕ → ℕ → ℕ → ℕ → Type 0
Reached start end step v = (v ≤ end) × ((k : ℕ) × (v ≡ start + k * step))

next_multiple : (start step k : ℕ) → start + step + k * step ≡ start + suc k * step
next_multiple start step k = grind arith

range_sound :
    (fuel start end step v : ℕ)
    → has_value v (range_from fuel start end step) ≡ true
    → Reached start end step v
unfolding range_from
range_sound zero start end step v h = cc
range_sound (suc fuel) start end step v h = elim (Bool-cases (ltb end start)) [
  | inl over ↦ let bad : false ≡ true = rw over at h in cc
  | inr inside ↦ elim (Bool-cases (start == v)) [
    | inl here ↦ (ground arith, (0, ground arith))
    | inr later ↦
        let below : has_value v (range_from fuel (start + step) end step) ≡ true =
          rw (inside, later) at h in
        let (high, (k, at)) = range_sound fuel (start + step) end step v below in
        (high, (suc k, at ∙ next_multiple start step k))
  ]
]

range_complete :
    (fuel start end step k v : ℕ)
    → 1 ≤ step
    → end + 1 - start ≤ fuel
    → v ≡ start + k * step
    → v ≤ end
    → has_value v (range_from fuel start end step) ≡ true
unfolding range_from
range_complete zero start end step k v one enough at within = absurd (omega arith)
range_complete (suc fuel) start end step zero v one enough at within =
    let inside : ltb end start ≡ false = ground arith in
    let here : start == v ≡ true = ground arith in rw (inside, here) refl
range_complete (suc fuel) start end step (suc k) v one enough at within =
    let next : v ≡ start + step + k * step = at ∙ sym (next_multiple start step k) in
    let inside : ltb end start ≡ false = ground arith in
    let below = range_complete fuel (start + step) end step k v one (omega arith) next within in
    rw (inside, below) (ground arith)

-- The values of `range(start, end + 1, step)`, with a step of at least 1, are exactly the numbers
-- `start + k * step` up to `end`.
range_iff :
    (start end step v : ℕ)
    → 1 ≤ step
    → (has_value v (range start end step) ≡ true) ↔ ((v ≤ end) × ((k : ℕ) × (v ≡ start + k * step)))
unfolding range
range_iff start end step v one = (
  range_sound (end + 1 - start) start end step v,
  λ (high, (k, at)). range_complete (end + 1 - start) start end step k v one (omega arith) at high,
)

-- the numbers from `low` to `high` are in the range with step 1
in_range : (low high v : ℕ) → low ≤ v → v ≤ high → has_value v (range low high 1) ≡ true
in_range low high v l h = (range_iff low high 1 v (omega arith)).1 (h, (v - low, omega arith))

five_stars :
    parse_schedule "* * * * *"
    ≡ ok record {
      minute = range 0 59 1;
      hour = range 0 23 1;
      day = range 1 31 1;
      month = range 1 12 1;
      weekday = 0 ∷ range 0 6 1;
      day_wildcard = true;
      weekday_wildcard = true;
    }
unfolding parse_schedule range
five_stars = refl

-- The schedule of five stars matches every moment, in every zone that exists.
five_stars_match :
    {Moment : Type 0} (zone : String → Moment → Option LocalTime) (moment : Moment) (name : String)
    (t : LocalTime)
    → zone name moment ≡ some t
    → t.minute ≤ 59
    → t.hour ≤ 23
    → 1 ≤ t.day
    → t.day ≤ 31
    → 1 ≤ t.month
    → t.month ≤ 12
    → schedule_matches zone "* * * * *" moment name ≡ ok true
unfolding schedule_matches
five_stars_match zone moment name t known minute hour day₁ day₂ month₁ month₂ =
    let weekday : has_value ((t.weekday + 1) % 7) (0 ∷ range 0 6 1) ≡ true =
      rw (in_range 0 6 ((t.weekday + 1) % 7) (omega arith) (omega arith)) (ground arith) in
    rw
      (
        known,
        five_stars,
        in_range 0 59 t.minute (omega arith) minute,
        in_range 0 23 t.hour (omega arith) hour,
        in_range 1 31 t.day day₁ day₂,
        in_range 1 12 t.month month₁ month₂,
        weekday,
      )
      refl
