-- ===== src/Schedule/Bounds.antt =====
-- The values that a cron expression of flowdocs/dataops/job_scheduler.py names.
use pdf_search.Prelude.{
  ℕ, zero, suc, ◌+◌, ◌-◌, ◌≤◌, ◌≡◌, refl, sym, ap, ◌∙◌, String, nonempty, strip, List, [], ◌∷◌,
  ◌++◌, All, filter, Bool, false, not, ◌&&◌, ◌||◌, ltb, ◌==◌, Bool-cases, inl, inr, Result, ok,
  raised, bind_ok, require_ok, ok_inj, arith,
}
use pdf_search.Schedule.{Parsed, parse_schedule, parse_parts, sunday_first}
use pdf_search.Schedule.Parse.{
  ScheduleError, out_of_range, field_empty, Number, natural, negative, partition, parse_step,
  parse_base, checked_range, range_from, range, parse_item, parse_items, split_comma, parse_field,
  has_value, words,
}

abbrev pub IsWithin : ℕ → ℕ → ℕ → Type 0
IsWithin minimum maximum v = (minimum ≤ v) × (v ≤ maximum)

range_from-IsWithin :
    (fuel start end step low high : ℕ)
    → low ≤ start
    → end ≤ high
    → All (IsWithin low high) (range_from fuel start end step)
unfolding range_from
range_from-IsWithin zero start end step low high l h = tt
range_from-IsWithin (suc fuel) start end step low high l h = elim (Bool-cases (ltb end start)) [
  | inl over ↦ rw over tt
  | inr inside ↦
      rw inside (
        (l, ground arith),
        range_from-IsWithin fuel (start + step) end step low high (omega arith) h,
      )
]

checked_lem :
    (minimum maximum : ℕ) (numbers : Number × Number) {start end : ℕ}
    → checked_range minimum maximum numbers ≡ ok (start, end)
    → (minimum ≤ start) × (end ≤ maximum) × (start ≤ end)
checked_lem minimum maximum (natural s, natural e) h =
    elim (Bool-cases (ltb s minimum || ltb maximum e || ltb e s)) [
      | inl wrong ↦
          let bad : Path (Result ScheduleError (ℕ × ℕ)) (raised out_of_range) (ok (_, _)) =
            rw wrong at h in
          cc
      | inr right ↦
          let pair = ok_inj (rw right at h) in
          let first = ap (λ p. p.0) pair in let second = ap (λ p. p.1) pair in ground arith
    ]
checked_lem minimum maximum (natural s, negative) h = cc
checked_lem minimum maximum (negative, n) h = cc

item-IsWithin :
    (minimum maximum : ℕ) (item : String) {values : List ℕ}
    → parse_item minimum maximum item ≡ ok values
    → All (IsWithin minimum maximum) values
unfolding parse_item range
item-IsWithin minimum maximum item h =
    let (base, step_text) = partition 47 (strip item) in
    let (_, rest₁) = require_ok (nonempty (strip item)) field_empty _ h in
    let (step, _, rest₂) = bind_ok (parse_step step_text) _ rest₁ in
    let (numbers, _, rest₃) = bind_ok (parse_base base minimum maximum) _ rest₂ in
    let ((start, end), checked, last) = bind_ok (checked_range minimum maximum numbers) _ rest₃ in
    let (low, high, _) = checked_lem minimum maximum numbers checked in
    rw (← ok_inj last)
      (range_from-IsWithin (end + 1 - start) start end step minimum maximum low high)

All-append : {A : Type 0} (P : A → Type 0) (xs ys : List A) → All P xs → All P ys → All P (xs ++ ys)
All-append P [] ys left right = right
All-append P (x ∷ xs) ys (first, left) right = (first, All-append P xs ys left right)

items-IsWithin :
    (minimum maximum : ℕ) (items : List String) {values : List ℕ}
    → parse_items minimum maximum items ≡ ok values
    → All (IsWithin minimum maximum) values
unfolding parse_items
items-IsWithin minimum maximum [] h = rw (← ok_inj h) tt
items-IsWithin minimum maximum (item ∷ items) h =
    let (values, first, rest) = bind_ok (parse_item minimum maximum item) _ h in
    let (more, later, last) = bind_ok (parse_items minimum maximum items) _ rest in
    rw (← ok_inj last) (
      All-append (IsWithin minimum maximum) values more (item-IsWithin minimum maximum item first)
        (items-IsWithin minimum maximum items later))

field-IsWithin :
    (value : String) (minimum maximum : ℕ) {values : List ℕ} {wildcard : Bool}
    → parse_field value minimum maximum ≡ ok (values, wildcard)
    → All (IsWithin minimum maximum) values
unfolding parse_field
field-IsWithin value minimum maximum h =
    let (values, parsed, last) = bind_ok (parse_items minimum maximum (split_comma value)) _ h in
    rw (← ap (λ p. p.0) (ok_inj last)) (items-IsWithin minimum maximum (split_comma value) parsed)

without_seven :
    (vs : List ℕ) → All (IsWithin 0 7) vs → All (IsWithin 0 6) (filter (λ v. not (v == 7)) vs)
without_seven [] all = tt
without_seven (v ∷ vs) (first, all) = elim (Bool-cases (not (v == 7))) [
  | inl kept ↦ rw kept ((omega arith, ground arith), without_seven vs all)
  | inr gone ↦ rw gone (without_seven vs all)
]

no_seven : (vs : List ℕ) → All (IsWithin 0 7) vs → has_value 7 vs ≡ false → All (IsWithin 0 6) vs
no_seven [] all h = tt
no_seven (v ∷ vs) (first, all) h = ((omega arith, ground arith), no_seven vs all (ground arith))

sunday-IsWithin : (vs : List ℕ) → All (IsWithin 0 7) vs → All (IsWithin 0 6) (sunday_first vs)
unfolding sunday_first
sunday-IsWithin vs all = elim (Bool-cases (has_value 7 vs)) [
  | inl seven ↦ rw seven ((omega arith, omega arith), without_seven vs all)
  | inr other ↦ rw other (no_seven vs all other)
]

parts-IsWithin :
    (parts : List String) {p : Parsed}
    → parse_parts parts ≡ ok p
    → All (IsWithin 0 59) p.minute
      × All (IsWithin 0 23) p.hour
      × All (IsWithin 1 31) p.day
      × All (IsWithin 1 12) p.month
      × All (IsWithin 0 6) p.weekday
unfolding parse_parts
parts-IsWithin (m ∷ h ∷ d ∷ mo ∷ w ∷ []) parsed =
    let ((minute, _), e₁, rest₁) = bind_ok (parse_field m 0 59) _ parsed in
    let ((hour, _), e₂, rest₂) = bind_ok (parse_field h 0 23) _ rest₁ in
    let ((day, _), e₃, rest₃) = bind_ok (parse_field d 1 31) _ rest₂ in
    let ((month, _), e₄, rest₄) = bind_ok (parse_field mo 1 12) _ rest₃ in
    let ((weekday, _), e₅, last) = bind_ok (parse_field w 0 7) _ rest₄ in
    rw (← ok_inj last) (
      field-IsWithin m 0 59 e₁,
      field-IsWithin h 0 23 e₂,
      field-IsWithin d 1 31 e₃,
      field-IsWithin mo 1 12 e₄,
      sunday-IsWithin weekday (field-IsWithin w 0 7 e₅),
    )
parts-IsWithin _ parsed = cc

abbrev values_of : Result ScheduleError (List ℕ × Bool) → List ℕ
values_of (ok (values, wildcard)) = values
values_of (raised e) = []

-- the values of the fifth field, as it is written
abbrev pub weekday_values : List String → List ℕ
weekday_values (m ∷ h ∷ d ∷ mo ∷ w ∷ []) = values_of (parse_field w 0 7)
weekday_values _ = []

without_seven_lem :
    (k : ℕ) (vs : List ℕ) → k ≤ 6 → has_value k (filter (λ v. not (v == 7)) vs) ≡ has_value k vs
without_seven_lem k [] h = refl
without_seven_lem k (v ∷ vs) h = ground (arith, without_seven_lem k vs)

-- Sunday is 0, also where it is written 7
sunday_lem :
    (k : ℕ) (vs : List ℕ)
    → k ≤ 6
    → has_value k (sunday_first vs) ≡ (has_value k vs || (k == 0 && has_value 7 vs))
unfolding sunday_first
sunday_lem k vs h = elim (Bool-cases (has_value 7 vs)) [
  | inl seven ↦ rw seven (ground (arith, without_seven_lem k vs))
  | inr other ↦ rw other (ground arith)
]

weekday_lem :
    (k : ℕ) (parts : List String) {p : Parsed}
    → k ≤ 6
    → parse_parts parts ≡ ok p
    → has_value k p.weekday
      ≡ (has_value k (weekday_values parts) || (k == 0 && has_value 7 (weekday_values parts)))
unfolding parse_parts
weekday_lem k (m ∷ h ∷ d ∷ mo ∷ w ∷ []) small parsed =
    let ((minute, _), e₁, rest₁) = bind_ok (parse_field m 0 59) _ parsed in
    let ((hour, _), e₂, rest₂) = bind_ok (parse_field h 0 23) _ rest₁ in
    let ((day, _), e₃, rest₃) = bind_ok (parse_field d 1 31) _ rest₂ in
    let ((month, _), e₄, rest₄) = bind_ok (parse_field mo 1 12) _ rest₃ in
    let ((weekday, _), e₅, last) = bind_ok (parse_field w 0 7) _ rest₄ in
    ap (λ (q : Parsed). has_value k q.weekday) (sym (ok_inj last))
    ∙ sunday_lem k weekday small
    ∙ ap (λ (vs : List ℕ). has_value k vs || (k == 0 && has_value 7 vs)) (sym (ap values_of e₅))
weekday_lem k _ small parsed = cc

-- Where `parse_schedule` returns, every minute is at most 59, every hour at most 23, every day from 1 to
-- 31, every month from 1 to 12, and every weekday at most 6. A weekday `k` of these is named exactly where
-- the values of the fifth field have it, or have 7 and `k` is 0: Sunday is 0, also where it is written 7.
pub schedule-IsWithin :
    (expression : String) (k : ℕ) {p : Parsed}
    → k ≤ 6
    → parse_schedule expression ≡ ok p
    → (All (IsWithin 0 59) p.minute
        × All (IsWithin 0 23) p.hour
        × All (IsWithin 1 31) p.day
        × All (IsWithin 1 12) p.month
        × All (IsWithin 0 6) p.weekday)
      × (has_value k p.weekday ≡ (
          has_value k (weekday_values (words expression))
          || (k == 0 && has_value 7 (weekday_values (words expression)))))
unfolding parse_schedule
schedule-IsWithin expression k small h =
    (parts-IsWithin (words expression) h, weekday_lem k (words expression) small h)
