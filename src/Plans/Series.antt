-- ===== src/Plans/Series.antt =====
-- series.go: the plans of a series are made ahead of time, each at most once.
use hivemind_backend.Bookings.Types.{is_published, PlanStatus}
use hivemind_backend.Prelude.{
  map, not, leb, min, update_first, Result, any_where, Bool, select_where, find_where, Option, ℕ,
  List, ◌>>=◌, if◌then◌else◌, ◌&&◌, ◌==◌, ◌-◌, ◌+◌, or_err, ◌∷◌, err, ok, false, true, [], some,
  none,
}
use hivemind_backend.Plans.Types.{row_key, Schedule, PlanRow, PlanError, Recurrence}
use hivemind_backend.Plans.Recurrence.{Calendar, occurrences, parse_rule}

-- `seriesHorizon`, 60 days in microseconds.
abbrev pub series_horizon : ℕ
series_horizon = 5_184_000_000_000

abbrev pub recurrence_key : ℕ → Recurrence → Bool
recurrence_key pid r = r.plan_id == pid

-- A plan of the series at a time, which `plans_series_starts_uidx` makes UNIQUE.
abbrev pub is_slot : ℕ → ℕ → PlanRow → Bool
is_slot sid t p = not (sid == 0) && p.series_id == sid && p.starts_at == t

abbrev pub occurrence_row : ℕ → ℕ → PlanRow → PlanRow
occurrence_row id t template = record template {
  id = id;
  starts_at = t;
  ends_at = t + (template.ends_at - template.starts_at);
  status = PlanStatus.published;
}

-- The INSERT of one occurrence and the rows it affected; `id` is the key that the database draws.
unfoldable pub insert_occurrence : ℕ → ℕ → PlanRow → List PlanRow → List PlanRow × ℕ
insert_occurrence id t template plans =
    if any_where (is_slot template.series_id t) plans
    then (plans, 0)
    else (occurrence_row id t template ∷ plans, 1)

abbrev pub is_ended : Option ℕ → ℕ → Bool
is_ended none t = false
is_ended (some before) t = leb before t

-- One round of the loop: an occurrence at or after the end of the series is passed over.
unfoldable pub place_occurrence : ℕ → Option ℕ → ℕ → PlanRow → List PlanRow → List PlanRow × ℕ
unfolding insert_occurrence
place_occurrence id ended t template plans =
    if is_ended ended t then (plans, 0) else insert_occurrence id t template plans

-- The loop over the occurrences; `draw` gives the key of the plan at a time.
unfoldable pub insert_all : (ℕ → ℕ) → Option ℕ → PlanRow → List ℕ → List PlanRow → List PlanRow × ℕ
insert_all draw ended template [] plans = (plans, 0)
insert_all draw ended template (t ∷ ts) plans =
    let (now_there, n) = place_occurrence (draw t) ended t template plans in
    let (rest, m) = insert_all draw ended template ts now_there in (rest, n + m)

-- The plans of the series that belong to a community, as rows of `community_events`.
unfoldable pub list_events : ℕ → List PlanRow → List (ℕ × ℕ) → List (ℕ × ℕ)
list_events sid [] events = events
list_events sid (p ∷ ps) events =
    let rest = list_events sid ps events in
    if p.series_id == sid
      && not (p.community_id == 0)
      && not (any_where (λ e. e.0 == p.community_id && e.1 == p.id) rest)
    then (p.community_id, p.id) ∷ rest
    else rest

-- `ExtendSeries` where the series has a rule: the plans made, and how many.
unfoldable pub extend_with :
    (ℕ → ℕ) → Calendar → ℕ → ℕ → Recurrence → Schedule → Result PlanError (Schedule × ℕ)
unfolding insert_all list_events parse_rule occurrences
extend_with draw cal now pid r s = do
  rule ← parse_rule r.rule
  template ← or_err (find_where (row_key pid) s.plans) PlanError.plan_not_found
  let (plans, created) =
      insert_all draw r.ended_before template (occurrences cal rule (now + series_horizon)) s.plans
  ok (
    record s { plans = plans; community_events = list_events pid plans s.community_events },
    created,
  )

-- `ExtendSeries`
unfoldable pub extend_series :
    (ℕ → ℕ) → Calendar → ℕ → ℕ → Schedule → Result PlanError (Schedule × ℕ)
unfolding extend_with
extend_series draw cal now pid s = elim (find_where (recurrence_key pid) s.recurrences) [
  | none ↦ ok (s, 0)
  | some r ↦ if r.active then extend_with draw cal now pid r s else ok (s, 0)
]

-- The loop of `ExtendAllSeries` over the templates, which stops at an error and keeps what was made.
unfoldable pub extend_each :
    (ℕ → ℕ → ℕ) → (ℕ → Calendar) → ℕ → List ℕ → Schedule → Schedule × Result PlanError ℕ
unfolding extend_series
extend_each draw cal now [] s = (s, ok 0)
extend_each draw cal now (pid ∷ pids) s = elim (extend_series (draw pid) (cal pid) now pid s) [
  | err e ↦ (s, err e)
  | ok (t, n) ↦ let (u, rest) = extend_each draw cal now pids t in (u, rest >>= λ m. ok (n + m))
]

abbrev pub is_running : Recurrence → Bool
is_running r = r.active && elim r.ended_before [ none ↦ true | some t ↦ false ]

-- `ExtendAllSeries`
unfoldable pub extend_all_series :
    (ℕ → ℕ → ℕ) → (ℕ → Calendar) → ℕ → Schedule → Schedule × Result PlanError ℕ
unfolding extend_each
extend_all_series draw cal now s =
    extend_each draw cal now (map Recurrence.plan_id (select_where is_running s.recurrences)) s

abbrev pub earlier_end : ℕ → Option ℕ → Option ℕ
earlier_end t none = some t
earlier_end t (some u) = some (min u t)

-- `EndSeriesFrom`
unfoldable pub end_series_from : ℕ → ℕ → Schedule → Schedule
end_series_from sid t s = record s {
  recurrences =
      update_first (recurrence_key sid)
        (λ r. record r { ended_before = earlier_end t r.ended_before }) s.recurrences;
}

abbrev pub is_future : PlanRow → PlanRow → Bool
is_future p q =
    not (p.series_id == 0)
    && q.series_id == p.series_id
    && leb p.starts_at q.starts_at
    && is_published q.status

-- `FutureOccurrenceIDs`, without the order.
unfoldable pub future_occurrence_ids : PlanRow → List PlanRow → List ℕ
future_occurrence_ids p plans = map PlanRow.id (select_where (is_future p) plans)
