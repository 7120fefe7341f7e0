-- ===== src/Plans/Tests.antt =====
-- A small series, and the theorems applied to it.
use hivemind_backend.Prelude.Int.{pos}
use hivemind_backend.Bookings.Types.{JoinMode, PlanStatus}
use hivemind_backend.Plans.Requests.{get_plan}
use hivemind_backend.Plans.Hosting.{
  cancel_plan_row, cancel_each_plan, cancelled_plan, cancel_series,
}
use hivemind_backend.Plans.Series.{
  future_occurrence_ids, place_occurrence, occurrence_row, end_series_from, insert_all, list_events,
  insert_occurrence, extend_series, extend_with,
}
use hivemind_backend.Plans.Recurrence.{
  occurrences, parse_rule, is_past, Rule, read_parts, Calendar, occurrences_from,
}
use hivemind_backend.Plans.Types.{PlanVisibility, PlanNews, Freq, Schedule, PlanRow, Part}
use hivemind_backend.Prelude.{
  ◌%◌, length, arith, any_where, List, select_where, find_where, update_where, All, ℕ, update_first,
  ◌⊎◌, ◌≡◌, ◌≤◌, ◌==◌, ◌*◌, ◌+◌, ◌∷◌, ok, false, true, [], some, none, refl,
}
use hivemind_backend.Plans.Extension.{extend_series_twice}
use hivemind_backend.Plans.Ending.{IsOver, cancel_series-IsOver}
use hivemind_backend.Plans.Occurrences.{
  IsSeries, IsBounded, IsCalendar, IsAscending, parse_rule-IsBounded, occurrences-within,
  occurrences-IsAscending,
}

-- Every second week, three times.
abbrev fortnightly : List Part
fortnightly =
    Part.freq_part (some Freq.weekly) ∷ Part.interval_part (some 2) ∷ Part.count_part (some 3) ∷ []

abbrev fortnightly_rule : Rule
fortnightly_rule = record { freq = some Freq.weekly; interval = 2; count = 3; until = 0 }

-- Weeks of 7 units from time 100 on; a date is a time.
abbrev weeks : Calendar
weeks = record {
  year = 0;
  month = 3;
  day = 7;
  date = λ y m d. 372 * y + 31 * m + d;
  day_of = λ t. t % 31;
  date_of = λ t. t;
}

fortnightly-read : parse_rule fortnightly ≡ ok fortnightly_rule
unfolding parse_rule read_parts
fortnightly-read = refl

abbrev template : PlanRow
template = record {
  id = 1;
  title = 4;
  host_id = 9;
  starts_at = 100;
  ends_at = 103;
  capacity = 8;
  price_minor = pos 0;
  currency = 1;
  status = PlanStatus.published;
  join_mode = JoinMode.open_join;
  visibility = PlanVisibility.public;
  community_id = 0;
  requires_entitlement = 0;
  series_id = 1;
}

abbrev schedule : Schedule
schedule = record {
  plans = template ∷ [];
  recurrences = record { plan_id = 1; rule = fortnightly; active = true; ended_before = none } ∷ [];
  community_events = [];
  requests = [];
  invites = [];
  saves = [];
  users = [];
  news = [];
}

abbrev by_time : ℕ → ℕ
by_time t = t + 1_000

abbrev three_plans : Schedule
three_plans = record schedule {
  plans = occurrence_row 1_128 128 template ∷ occurrence_row 1_114 114 template ∷ template ∷ [];
}

-- The template is there already, so two plans are made.
extended : extend_series by_time weeks 100 1 schedule ≡ ok (three_plans, 2)
unfolding extend_series extend_with insert_all place_occurrence insert_occurrence list_events
    parse_rule read_parts occurrences occurrences_from find_where any_where
extended = refl

by_time-fresh : (t : ℕ) → (by_time t == 1) ≡ false
by_time-fresh t = ground arith

extend_series_twice_example :
    (u : Schedule) × (extend_series by_time weeks 100 1 three_plans ≡ ok (u, 0))
    × (u.plans ≡ three_plans.plans)
unfolding find_where
extend_series_twice_example =
    extend_series_twice by_time by_time weeks 100 1 schedule three_plans 2 template refl refl
      by_time-fresh extended

-- From the second plan on.
abbrev second : PlanRow
second = occurrence_row 1_114 114 template

abbrev first_only : Schedule
first_only = record three_plans {
  plans =
      cancelled_plan (occurrence_row 1_128 128 template) ∷ cancelled_plan second ∷ template ∷ [];
  recurrences =
      record { plan_id = 1; rule = fortnightly; active = true; ended_before = some 114 } ∷ [];
  news = PlanNews.plan_cancelled 1_114 6 ∷ PlanNews.plan_cancelled 1_128 6 ∷ [];
}

cancel_series-IsOver_example : (IsOver second first_only.plans) × (IsOver second first_only.plans)
unfolding cancel_series cancel_each_plan cancel_plan_row cancelled_plan get_plan
    future_occurrence_ids end_series_from select_where update_where update_first extend_series
    extend_with insert_all place_occurrence insert_occurrence list_events parse_rule read_parts
    occurrences occurrences_from find_where any_where
cancel_series-IsOver_example =
    cancel_series-IsOver second 6 three_plans first_only first_only (cancelled_plan second) by_time
      weeks 200 0 refl refl

parse_rule-IsBounded_example : IsBounded fortnightly_rule × IsSeries fortnightly_rule
parse_rule-IsBounded_example = parse_rule-IsBounded fortnightly fortnightly_rule fortnightly-read

occurrences-within_example :
    All (λ t. is_past weeks fortnightly_rule 120 t ≡ false) (occurrences weeks fortnightly_rule 120)
    × ((◌≡◌ {A = ℕ} 3 0) ⊎ (length (occurrences weeks fortnightly_rule 120) ≤ 3))
occurrences-within_example = occurrences-within weeks fortnightly_rule 120

weeks-IsCalendar : IsCalendar weeks
weeks-IsCalendar = record {
  later_day = λ y m d e l. omega arith;
  later_month = λ y m n d l e h. omega arith;
}

occurrences-IsAscending_example : IsAscending (occurrences weeks fortnightly_rule 120)
occurrences-IsAscending_example =
    occurrences-IsAscending weeks fortnightly_rule Freq.weekly 120 weeks-IsCalendar refl
      (omega arith)
