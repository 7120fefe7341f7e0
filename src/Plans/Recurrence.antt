-- ===== src/Plans/Recurrence.antt =====
-- recurrence.go: the rule of a series and the times of its plans. Splitting a text at `;` and `=`,
-- reading numbers and dates, and dates in the zone of a city are Go's library; what it knows of the
-- zone is a parameter.
use hivemind_backend.Prelude.{
  leb, not, ltb, Result, Bool, Option, ℕ, List, ◌>>◌, ◌>>=◌, if◌then◌else◌, ◌||◌, ◌&&◌, ◌==◌, ◌*◌,
  ◌+◌, or_err, guard, ◌∷◌, ok, false, true, [], some, none, suc, zero,
}
use hivemind_backend.Plans.Types.{Freq, Part, PlanError}

-- `Rule`: 0 for no count and no last date. A date is a number.
pub record Rule : Type 0 where
  pub freq : Option Freq
  pub interval : ℕ
  pub count : ℕ
  pub until : ℕ

-- `maxRecurrenceCount`
abbrev pub max_recurrence_count : ℕ
max_recurrence_count = 104

abbrev pub no_rule : Rule
no_rule = record { freq = none; interval = 1; count = 0; until = 0 }

-- A number from 1 to a bound.
abbrev pub read_within : ℕ → Option ℕ → Option ℕ
read_within bound none = none
read_within bound (some n) = if ltb n 1 || ltb bound n then none else some n

abbrev pub with_number : Option ℕ → (ℕ → Rule) → Option Rule
with_number none set = none
with_number (some n) set = some (set n)

-- The `switch` on the key of a part.
abbrev pub read_part : Part → Rule → Option Rule
read_part (Part.freq_part none) r = none
read_part (Part.freq_part (some f)) r = some (record r { freq = some f })
read_part (Part.interval_part read) r =
    with_number (read_within 12 read) (λ n. record r { interval = n })
read_part (Part.count_part read) r =
    with_number (read_within max_recurrence_count read) (λ n. record r { count = n })
read_part (Part.until_part read) r = with_number read (λ t. record r { until = t })
read_part Part.other_part r = none

-- The loop over the parts; a later part overrides an earlier one.
unfoldable pub read_parts : List Part → Rule → Option Rule
read_parts [] r = some r
read_parts (p ∷ ps) r = elim (read_part p r) [ none ↦ none | some s ↦ read_parts ps s ]

abbrev pub is_whole : Rule → Bool
is_whole r =
    elim r.freq [ none ↦ false | some f ↦ true ] && not (ltb 0 r.count && not (r.until == 0))

-- `ParseRule`
unfoldable pub parse_rule : List Part → Result PlanError Rule
unfolding read_parts
parse_rule parts = do
  r ← or_err (read_parts parts no_rule) PlanError.bad_recurrence
  guard (is_whole r) PlanError.bad_recurrence
  ok r

-- The plan's start in its city, as Go's `time` reads it: its date; the time of day on any date, of
-- which `time.Date` normalises the month and the day; and the day and the date of a time.
pub record Calendar : Type 0 where
  pub year : ℕ
  pub month : ℕ
  pub day : ℕ
  pub date : (y m d : ℕ) → ℕ
  pub day_of : ℕ → ℕ
  pub date_of : ℕ → ℕ

-- The `switch` on the frequency: the start moved by `n` units, `none` where the month has no such
-- day. Without a frequency it stays the zero time.
abbrev pub shift_start : Calendar → Option Freq → ℕ → Option ℕ
shift_start cal none n = some 0
shift_start cal (some Freq.daily) n = some (cal.date cal.year cal.month (cal.day + n))
shift_start cal (some Freq.weekly) n = some (cal.date cal.year cal.month (cal.day + 7 * n))
shift_start cal (some Freq.monthly) n =
    let t = cal.date cal.year (cal.month + n) cal.day in
    if cal.day_of t == cal.day then some t else none

-- Past the horizon, or past the rule's last date.
abbrev pub is_past : Calendar → Rule → ℕ → ℕ → Bool
is_past cal r horizon t = ltb horizon t || not (r.until == 0) && ltb r.until (cal.date_of t)

-- The loop of `Occurrences` with `k` rounds to go, after `i` rounds and `taken` results.
unfoldable pub occurrences_from : Calendar → Rule → ℕ → ℕ → ℕ → ℕ → List ℕ
occurrences_from cal r horizon zero i taken = []
occurrences_from cal r horizon (suc k) i taken = elim (shift_start cal r.freq (i * r.interval)) [
  | none ↦ occurrences_from cal r horizon k (i + 1) taken
  | some t ↦ elim (is_past cal r horizon t) [
    | true ↦ []
    | false ↦ elim (ltb 0 r.count && leb r.count (taken + 1)) [
      | true ↦ t ∷ []
      | false ↦ t ∷ occurrences_from cal r horizon k (i + 1) (taken + 1)
    ]
  ]
]

-- `Occurrences`
unfoldable pub occurrences : Calendar → Rule → ℕ → List ℕ
unfolding occurrences_from
occurrences cal r horizon = occurrences_from cal r horizon 2_000 0 0
