-- ===== src/Plans/Ending.antt =====
-- A series that was cancelled from a plan on stays so.
use hivemind_backend.Plans.Extension.{extend_with-ok}
use hivemind_backend.Plans.Recurrence.{occurrences, Calendar}
use hivemind_backend.Plans.Requests.{get_plan}
use hivemind_backend.Plans.Hosting.{
  cancel_series, cancelled_plan, cancel_plan_row, cancel_each_plan,
}
use hivemind_backend.Prelude.{
  min, Option, ◌+◌, none, Bool-cases, update_first, select_where, find_where, Result-cases,
  Option-cases, if◌then◌else◌, ◌∙◌, inr, inl, refl, sym, arith, All, any_where, update_where, List,
  ℕ, ◌⊎◌, ◌≡◌, ◌≤◌, ◌==◌, ◌∷◌, ok, false, true, [], some,
}
use hivemind_backend.Plans.Types.{Recurrence, row_key, Schedule, PlanRow}
use hivemind_backend.Plans.Series.{
  extend_with, series_horizon, recurrence_key, end_series_from, earlier_end, insert_occurrence,
  place_occurrence, insert_all, future_occurrence_ids, is_future, extend_series,
}

-- No published plan of the series starts at the plan's time or later.
abbrev pub IsOver : PlanRow → List PlanRow → Type 0
IsOver p plans = All (λ q. is_future p q ≡ false) plans

-- The future plans are among those that are still to be cancelled.
AreListed : PlanRow → List ℕ → List PlanRow → Type 0
AreListed p ids plans =
    All (λ q. (is_future p q ≡ false) ⊎ (any_where (λ i. i == q.id) ids ≡ true)) plans

row-listed :
    (p q : PlanRow) (id : ℕ) (ids : List ℕ)
    → (is_future p q ≡ false) ⊎ (any_where (λ i. i == q.id) (id ∷ ids) ≡ true)
    → (is_future p (if row_key id q then cancelled_plan q else q) ≡ false)
      ⊎ (any_where (λ i. i == (if row_key id q then cancelled_plan q else q).id) ids ≡ true)
unfolding any_where cancelled_plan
row-listed p q id ids h = elim (Bool-cases (q.id == id)) [
  | inl e ↦ rw e (inl (ground arith))
  | inr e ↦ rw e (ground arith)
]

cancelled-AreListed :
    (p : PlanRow) (id : ℕ) (ids : List ℕ) (plans : List PlanRow)
    → AreListed p (id ∷ ids) plans
    → AreListed p ids (update_where (row_key id) cancelled_plan plans)
unfolding AreListed any_where update_where cancelled_plan
cancelled-AreListed p id ids [] h = tt
cancelled-AreListed p id ids (q ∷ plans) h =
    (row-listed p q id ids h.0, cancelled-AreListed p id ids plans h.1)

more-AreListed :
    (p : PlanRow) (id : ℕ) (ids : List ℕ) (plans : List PlanRow)
    → AreListed p ids plans
    → AreListed p (id ∷ ids) plans
unfolding AreListed any_where
more-AreListed p id ids [] h = tt
more-AreListed p id ids (q ∷ plans) h = (ground arith, more-AreListed p id ids plans h.1)

future-cons :
    (p q : PlanRow) (plans : List PlanRow)
    → future_occurrence_ids p (q ∷ plans) ≡ (
        if is_future p q
        then q.id ∷ future_occurrence_ids p plans
        else future_occurrence_ids p plans)
unfolding future_occurrence_ids select_where
future-cons p q plans = elim (Bool-cases (is_future p q)) [ inl e ↦ rw e | inr e ↦ rw e ]

listed-cons :
    (p q : PlanRow) (ids : List ℕ) (plans : List PlanRow)
    → (is_future p q ≡ false) ⊎ (any_where (λ i. i == q.id) ids ≡ true)
    → AreListed p ids plans
    → AreListed p ids (q ∷ plans)
unfolding AreListed
listed-cons p q ids plans h rest = (h, rest)

listed-nil : (p : PlanRow) (ids : List ℕ) → AreListed p ids []
unfolding AreListed
listed-nil p ids = tt

listed-first : (q : PlanRow) (ids : List ℕ) → any_where (λ i. i == q.id) (q.id ∷ ids) ≡ true
unfolding any_where
listed-first q ids = ground arith

selected-AreListed :
    (p : PlanRow) (plans : List PlanRow) → AreListed p (future_occurrence_ids p plans) plans
selected-AreListed p [] = listed-nil p (future_occurrence_ids p [])
selected-AreListed p (q ∷ plans) =
    let rest = future_occurrence_ids p plans in
    let listed = selected-AreListed p plans in
    elim (Bool-cases (is_future p q)) [
      | inl e ↦
          rw (future-cons p q plans, e)
            (listed-cons p q (q.id ∷ rest) plans (inr (listed-first q rest))
              (more-AreListed p q.id rest plans listed))
      | inr e ↦ rw (future-cons p q plans, e) (listed-cons p q rest plans (inl e) listed)
    ]

none-listed : (p : PlanRow) (plans : List PlanRow) → AreListed p [] plans → IsOver p plans
unfolding AreListed any_where
none-listed p [] h = tt
none-listed p (q ∷ plans) h = (ground arith, none-listed p plans h.1)

cancel_plan_row-plans :
    (id reason : ℕ) (s t : Schedule) (q : PlanRow)
    → cancel_plan_row id reason s ≡ ok (t, q)
    → (t.plans ≡ update_where (row_key id) cancelled_plan s.plans) × (t.recurrences ≡ s.recurrences)
unfolding cancel_plan_row get_plan
cancel_plan_row-plans id reason s t q h = elim (Option-cases (find_where (row_key id) s.plans)) [
  | inl e ↦ absurd (ground arith)
  | inr (x, e) ↦ (ground arith, ground arith)
]

-- Once the loop over the future plans ran to its end, none is left.
cancel_each_plan-IsOver :
    (p : PlanRow) (ids : List ℕ) (reason : ℕ) (s t : Schedule)
    → AreListed p ids s.plans
    → cancel_each_plan ids reason s ≡ (t, ok tt)
    → (IsOver p t.plans) × (t.recurrences ≡ s.recurrences)
unfolding cancel_each_plan
cancel_each_plan-IsOver p [] reason s t h e =
    let same : s ≡ t = ground arith in rw (sym same) (none-listed p s.plans h, refl)
cancel_each_plan-IsOver p (id ∷ ids) reason s t h e =
    elim (Result-cases (cancel_plan_row id reason s)) [
      | inl ((u, q), f) ↦
          let (plans, kept) = cancel_plan_row-plans id reason s u q f in
          let (over, rest) =
            cancel_each_plan-IsOver p ids reason u t
              (rw plans (cancelled-AreListed p id ids s.plans h)) (ground arith) in
          (over, rest ∙ kept)
      | inr (x, f) ↦ absurd (ground arith)
    ]

-- An extension of the series adds plans before its end only.
place-IsOver :
    (p template : PlanRow) (id t end : ℕ) (plans : List PlanRow)
    → end ≤ p.starts_at
    → IsOver p plans
    → IsOver p (place_occurrence id (some end) t template plans).0
unfolding place_occurrence insert_occurrence
place-IsOver p template id t end plans early over = ground arith

insert_all-IsOver :
    (p template : PlanRow) (draw : ℕ → ℕ) (end : ℕ) (ts : List ℕ) (plans : List PlanRow)
    → end ≤ p.starts_at
    → IsOver p plans
    → IsOver p (insert_all draw (some end) template ts plans).0
unfolding insert_all
insert_all-IsOver p template draw end [] plans early over = over
insert_all-IsOver p template draw end (t ∷ ts) plans early over =
    insert_all-IsOver p template draw end ts _ early
      (place-IsOver p template (draw t) t end plans early over)

ended-IsOver :
    (p template : PlanRow) (draw : ℕ → ℕ) (ended : Option ℕ) (end : ℕ) (ts : List ℕ)
    (plans : List PlanRow)
    → ended ≡ some end
    → end ≤ p.starts_at
    → IsOver p plans
    → IsOver p (insert_all draw ended template ts plans).0
ended-IsOver p template draw ended end ts plans ends early over =
    rw ends (insert_all-IsOver p template draw end ts plans early over)

same-IsOver : (p : PlanRow) (ps qs : List PlanRow) → ps ≡ qs → IsOver p qs → IsOver p ps
same-IsOver p ps qs h over = rw h over

earlier-le : (t : ℕ) (o : Option ℕ) → (end : ℕ) × (earlier_end t o ≡ some end) × (end ≤ t)
earlier-le t none = (t, refl, omega arith)
earlier-le t (some u) = (min u t, refl, omega arith)

-- A cancelled series has an end that is no later than the plan's start.
ended-series :
    (sid t : ℕ) (rs : List Recurrence) (r : Recurrence)
    → find_where (recurrence_key sid) (
        update_first
          (recurrence_key sid)
          (λ x. record x { ended_before = earlier_end t x.ended_before })
          rs)
      ≡ some r
    → (end : ℕ) × (r.ended_before ≡ some end) × (end ≤ t)
unfolding find_where update_first
ended-series sid t [] r h = absurd (ground arith)
ended-series sid t (x ∷ rs) r h = elim (Bool-cases (x.plan_id == sid)) [
  | inl e ↦ let (end, ends, le) = earlier-le t x.ended_before in (end, ground arith, le)
  | inr e ↦ ended-series sid t rs r (ground arith)
]

cancel_series-ok :
    (p : PlanRow) (reason : ℕ) (s t : Schedule) (q : PlanRow)
    → cancel_series p reason s ≡ (t, ok q)
    → (IsOver p t.plans)
      × (t.recurrences
          ≡ update_first
              (recurrence_key p.series_id)
              (λ x. record x { ended_before = earlier_end p.starts_at x.ended_before })
              s.recurrences)
unfolding cancel_series end_series_from
cancel_series-ok p reason s t q h =
    let loop = cancel_each_plan (future_occurrence_ids p s.plans) reason s in
    elim (Result-cases loop.1) [
      | inl (_, e) ↦
          let whole : loop ≡ (loop.0, ok tt) = rw (sym e) refl in
          let (over, kept) =
            cancel_each_plan-IsOver p (future_occurrence_ids p s.plans) reason s loop.0
              (selected-AreListed p s.plans) whole in
          let ended : t ≡ end_series_from p.series_id p.starts_at loop.0 = ground arith in
          rw ended (over, rw kept)
      | inr (x, e) ↦ absurd (ground arith)
    ]

-- After the cancellation of a plan and what follows it, no published plan of the series starts at
-- that plan's time or later, and no later extension of the series makes one.
pub cancel_series-IsOver :
    (p : PlanRow) (reason : ℕ) (s t u : Schedule) (q : PlanRow) (draw : ℕ → ℕ) (cal : Calendar)
    (later n : ℕ)
    → cancel_series p reason s ≡ (t, ok q)
    → extend_series draw cal later p.series_id t ≡ ok (u, n)
    → (IsOver p t.plans) × (IsOver p u.plans)
unfolding extend_series
cancel_series-IsOver p reason s t u q draw cal later n h e =
    let (over, rows) = cancel_series-ok p reason s t q h in
    (
      over,
      elim (Option-cases (find_where (recurrence_key p.series_id) t.recurrences)) [
        | inl f ↦ let same : t ≡ u = ground arith in rw (sym same) over
        | inr (r, f) ↦ elim (Bool-cases r.active) [
          | inl active ↦
              let extended : extend_with draw cal later p.series_id r t ≡ ok (u, n) =
                ground arith in
              let (rule, template, _, _, plans, _) =
                extend_with-ok draw cal later p.series_id r t u n extended in
              let (end, ends, le) =
                ended-series p.series_id p.starts_at s.recurrences r (rw (sym rows) f) in
              same-IsOver p u.plans _ plans (
                ended-IsOver p template draw r.ended_before end
                  (occurrences cal rule (later + series_horizon)) t.plans ends le over)
          | inr stopped ↦ let same : t ≡ u = ground arith in rw (sym same) over
        ]
      ],
    )
