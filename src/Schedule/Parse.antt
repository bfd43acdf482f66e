-- ===== src/Schedule/Parse.antt =====
-- flowdocs/dataops/job_scheduler.py: `_field`. A set of numbers is a list of its members.
use Prim.Native.Char.{code}
use pdf_search.Prelude.{
  ℕ, zero, suc, ◌+◌, ◌-◌, ◌*◌, String, str_eq, str_append, nonempty, strip, is_space, is_digit,
  every, Option, none, some, List, [], ◌∷◌, ◌++◌, any, Bool, ◌&&◌, ◌||◌, ltb, ◌==◌, Result, ok,
  raised, ◌>>=◌, ◌>>◌, require, if◌then◌else◌,
}

-- `ScheduleConfigurationError`
pub data ScheduleError : Type 0 where
  field_empty step_invalid range_invalid value_invalid out_of_range five_fields timezone_invalid :
      ScheduleError

-- `f"invalid: {exc}"`
unfoldable pub error_code : ScheduleError → String
error_code field_empty = "invalid: cron_field_empty"
error_code step_invalid = "invalid: cron_step_invalid"
error_code range_invalid = "invalid: cron_range_invalid"
error_code value_invalid = "invalid: cron_value_invalid"
error_code out_of_range = "invalid: cron_value_out_of_range"
error_code five_fields = "invalid: cron_requires_five_fields"
error_code timezone_invalid = "invalid: timezone_invalid"

-- the text before the first character with this code and, where there is one, the text after it
unfoldable pub partition : ℕ → String → String × Option String
partition c String.[] = ("", none)
partition c (String.◌∷◌ k s) =
    let (before, after) = partition c s in
    if code k == c then ("", some s) else (String.◌∷◌ k before, after)

-- `value.split(",")`
unfoldable pub split_comma : String → List String
split_comma String.[] = "" ∷ []
split_comma (String.◌∷◌ k s) =
    let items = split_comma s in
    if code k == 44
    then "" ∷ items
    else elim items [ [] ↦ String.◌∷◌ k "" ∷ [] | item ∷ more ↦ String.◌∷◌ k item ∷ more ]

-- `expression.split()`; `word` is the word that the text stands in the middle of
words_from : String → String → List String
words_from word String.[] = if nonempty word then word ∷ [] else []
words_from word (String.◌∷◌ k s) =
    let next = words_from "" s in
    let longer = words_from (str_append word (String.◌∷◌ k "")) s in
    if is_space k then (if nonempty word then word ∷ next else next) else longer

unfoldable pub words : String → List String
unfolding words_from
words expression = words_from "" expression

-- an integer: `n`, or a negative one
pub data Number : Type 0 where
  natural : ℕ → Number
  negative : Number

digits_value : ℕ → String → ℕ
digits_value n String.[] = n
digits_value n (String.◌∷◌ c s) = digits_value (n * 10 + (code c - 48)) s

-- digits, at least one
unfoldable digits : String → Option ℕ
unfolding digits_value
digits s = if nonempty s && every is_digit s then some (digits_value 0 s) else none

negated : Option ℕ → Option Number
negated none = none
negated (some zero) = some (natural 0)
negated (some (suc n)) = some negative

positive : Option ℕ → Option Number
positive none = none
positive (some n) = some (natural n)

signed : String → Option Number
unfolding digits negated positive
signed String.[] = none
signed (String.◌∷◌ c s) =
    if code c == 45
    then negated (digits s)
    else if code c == 43
    then positive (digits s)
    else positive (digits (String.◌∷◌ c s))

-- `int(text)`
unfoldable pub parse_int : String → Option Number
unfolding signed strip
parse_int s = signed (strip s)

-- a number, or this error
abbrev number_or : ScheduleError → String → Result ScheduleError Number
number_or e s = elim (parse_int s) [ none ↦ raised e | some n ↦ ok n ]

abbrev pub parse_step : Option String → Result ScheduleError ℕ
parse_step none = ok 1
parse_step (some step_text) = number_or step_invalid step_text >>= λ n. elim n [
  | negative ↦ raised step_invalid
  | natural step ↦ if step == 0 then raised step_invalid else ok step
]

-- start and end
abbrev pub parse_base : String → ℕ → ℕ → Result ScheduleError (Number × Number)
parse_base base minimum maximum =
    if str_eq base "*" then ok (natural minimum, natural maximum) else elim (partition 45 base).1 [
      | some end_text ↦ number_or range_invalid (partition 45 base).0 >>= λ start.
          number_or range_invalid end_text >>= λ end. ok (start, end)
      | none ↦ number_or value_invalid base >>= λ n. ok (n, n)
    ]

-- `start < minimum or end > maximum or start > end`, where `minimum` is not negative
abbrev pub checked_range : ℕ → ℕ → Number × Number → Result ScheduleError (ℕ × ℕ)
checked_range minimum maximum (natural start, natural end) =
    if ltb start minimum || ltb maximum end || ltb end start
    then raised out_of_range
    else ok (start, end)
checked_range minimum maximum _ = raised out_of_range

-- the values of a range; the fuel bounds their number
unfoldable pub range_from : ℕ → ℕ → ℕ → ℕ → List ℕ
range_from zero start end step = []
range_from (suc fuel) start end step =
    let rest = range_from fuel (start + step) end step in if ltb end start then [] else start ∷ rest

-- `range(start, end + 1, step)`, of at most `end + 1 - start` values
unfoldable pub range : ℕ → ℕ → ℕ → List ℕ
unfolding range_from
range start end step = range_from (end + 1 - start) start end step

-- one item of a field
unfoldable pub parse_item : ℕ → ℕ → String → Result ScheduleError (List ℕ)
unfolding partition parse_int range strip
parse_item minimum maximum value =
    let item = strip value in
    let (base, step_text) = partition 47 item in
    do
      require (nonempty item) field_empty
      step ← parse_step step_text
      numbers ← parse_base base minimum maximum
      (start, end) ← checked_range minimum maximum numbers
      ok (range start end step)

-- the loop over the items
unfoldable pub parse_items : ℕ → ℕ → List String → Result ScheduleError (List ℕ)
unfolding parse_item
parse_items minimum maximum [] = ok []
parse_items minimum maximum (item ∷ rest) = parse_item minimum maximum item >>= λ values.
    parse_items minimum maximum rest >>= λ more. ok (values ++ more)

-- `_field`
unfoldable pub parse_field : String → ℕ → ℕ → Result ScheduleError (List ℕ × Bool)
unfolding parse_items split_comma
parse_field value minimum maximum = parse_items minimum maximum (split_comma value) >>= λ values.
    ok (values, str_eq value "*" || str_eq value "*/1")

-- `v in values`
abbrev pub has_value : ℕ → List ℕ → Bool
has_value v values = any (λ x. x == v) values
