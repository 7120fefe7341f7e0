-- ===== src/Plans/Extension.antt =====
-- Extending a series: each time has at most one plan, and a second run makes none.
use hivemind_backend.Plans.Recurrence.{occurrences, Rule, Calendar, parse_rule}
use hivemind_backend.Prelude.{
  sym, Result-cases, Option-cases, ◌⊎◌, ◌+◌, ok, some, arith, List, ℕ, Bool-cases, All, find_where,
  Option, any_where, ◌∙◌, ◌≡◌, ◌==◌, ◌∷◌, inr, inl, false, true, [], refl,
}
use hivemind_backend.Plans.Types.{Recurrence, row_key, Schedule, PlanRow}
use hivemind_backend.Plans.Series.{
  recurrence_key, list_events, extend_with, series_horizon, place_occurrence, insert_all, is_ended,
  insert_occurrence, is_slot, extend_series,
}

-- A plan that is there stays there.
slot-place :
    (sid t u id : ℕ) (ended : Option ℕ) (template : PlanRow) (plans : List PlanRow)
    → any_where (is_slot sid t) plans ≡ true
    → any_where (is_slot sid t) (place_occurrence id ended u template plans).0 ≡ true
unfolding place_occurrence insert_occurrence any_where
slot-place sid t u id ended template plans h = ground arith

slot-insert_all :
    (draw : ℕ → ℕ) (ended : Option ℕ) (template : PlanRow) (sid t : ℕ) (ts : List ℕ)
    (plans : List PlanRow)
    → any_where (is_slot sid t) plans ≡ true
    → any_where (is_slot sid t) (insert_all draw ended template ts plans).0 ≡ true
unfolding insert_all
slot-insert_all draw ended template sid t [] plans h = h
slot-insert_all draw ended template sid t (u ∷ ts) plans h =
    slot-insert_all draw ended template sid t ts _
      (slot-place sid t u (draw u) ended template plans h)

-- Every time that is not past the end of the series has a plan.
abbrev pub IsThere : Option ℕ → PlanRow → List PlanRow → ℕ → Type 0
IsThere ended template plans t =
    (is_ended ended t ≡ true) ⊎ (any_where (is_slot template.series_id t) plans ≡ true)

place-IsThere :
    (t id : ℕ) (ended : Option ℕ) (template : PlanRow) (plans : List PlanRow)
    → (template.series_id == 0) ≡ false
    → IsThere ended template (place_occurrence id ended t template plans).0 t
unfolding place_occurrence insert_occurrence any_where
place-IsThere t id ended template plans series = ground arith

insert_all-keeps :
    (draw : ℕ → ℕ) (ended : Option ℕ) (template : PlanRow) (t : ℕ) (ts : List ℕ)
    (plans : List PlanRow)
    → IsThere ended template plans t
    → IsThere ended template (insert_all draw ended template ts plans).0 t
insert_all-keeps draw ended template t ts plans (inl e) = inl e
insert_all-keeps draw ended template t ts plans (inr h) =
    inr (slot-insert_all draw ended template template.series_id t ts plans h)

insert_all-IsThere :
    (draw : ℕ → ℕ) (ended : Option ℕ) (template : PlanRow) (ts : List ℕ) (plans : List PlanRow)
    → (template.series_id == 0) ≡ false
    → All (IsThere ended template (insert_all draw ended template ts plans).0) ts
unfolding insert_all
insert_all-IsThere draw ended template [] plans series = tt
insert_all-IsThere draw ended template (t ∷ ts) plans series = (
  insert_all-keeps draw ended template t ts _
      (place-IsThere t (draw t) ended template plans series),
  insert_all-IsThere draw ended template ts _ series,
)

place-none :
    (t id : ℕ) (ended : Option ℕ) (template : PlanRow) (plans : List PlanRow)
    → IsThere ended template plans t
    → place_occurrence id ended t template plans ≡ (plans, 0)
unfolding place_occurrence insert_occurrence
place-none t id ended template plans there = ground arith

-- Where every time has its plan, the loop inserts nothing.
insert_all-none :
    (draw : ℕ → ℕ) (ended : Option ℕ) (template : PlanRow) (ts : List ℕ) (plans : List PlanRow)
    → All (IsThere ended template plans) ts
    → insert_all draw ended template ts plans ≡ (plans, 0)
unfolding insert_all
insert_all-none draw ended template [] plans there = refl
insert_all-none draw ended template (t ∷ ts) plans there = rw (
  place-none t (draw t) ended template plans there.0,
  insert_all-none draw ended template ts plans there.1,
)

-- The template is found as before, if no new plan has its key.
template-place :
    (pid t id : ℕ) (ended : Option ℕ) (template : PlanRow) (plans : List PlanRow)
    → (id == pid) ≡ false
    → find_where (row_key pid) (place_occurrence id ended t template plans).0
      ≡ find_where (row_key pid) plans
unfolding place_occurrence insert_occurrence find_where
template-place pid t id ended template plans fresh = ground arith

template-insert_all :
    (draw : ℕ → ℕ) (ended : Option ℕ) (template : PlanRow) (pid : ℕ) (ts : List ℕ)
    (plans : List PlanRow)
    → ((t : ℕ) → (draw t == pid) ≡ false)
    → find_where (row_key pid) (insert_all draw ended template ts plans).0
      ≡ find_where (row_key pid) plans
unfolding insert_all
template-insert_all draw ended template pid [] plans fresh = refl
template-insert_all draw ended template pid (t ∷ ts) plans fresh =
    template-insert_all draw ended template pid ts _ fresh
    ∙ template-place pid t (draw t) ended template plans (fresh t)

-- What an extension of a series with a rule did.
pub extend_with-ok :
    (draw : ℕ → ℕ) (cal : Calendar) (now pid : ℕ) (r : Recurrence) (s t : Schedule) (n : ℕ)
    → extend_with draw cal now pid r s ≡ ok (t, n)
    → (rule : Rule) × (template : PlanRow) × (parse_rule r.rule ≡ ok rule)
      × (find_where (row_key pid) s.plans ≡ some template)
      × (t.plans
          ≡ (insert_all draw r.ended_before template
              (occurrences cal rule (now + series_horizon))
              s.plans).0)
      × (t.recurrences ≡ s.recurrences)
unfolding extend_with
extend_with-ok draw cal now pid r s t n h = elim (Result-cases (parse_rule r.rule)) [
  | inl (rule, e) ↦ elim (Option-cases (find_where (row_key pid) s.plans)) [
    | inl f ↦ absurd (ground arith)
    | inr (template, f) ↦ (rule, template, e, f, ground arith, ground arith)
  ]
  | inr (x, e) ↦ absurd (ground arith)
]

-- A second run, once the first has put its plans in place.
extend_with-again :
    (draw : ℕ → ℕ) (cal : Calendar) (now pid : ℕ) (r : Recurrence) (t : Schedule) (rule : Rule)
    (template : PlanRow)
    → parse_rule r.rule ≡ ok rule
    → find_where (row_key pid) t.plans ≡ some template
    → All (IsThere r.ended_before template t.plans) (occurrences cal rule (now + series_horizon))
    → (u : Schedule) × (extend_with draw cal now pid r t ≡ ok (u, 0)) × (u.plans ≡ t.plans)
unfolding extend_with
extend_with-again draw cal now pid r t rule template parsed found there = (
  record t { community_events = list_events pid t.plans t.community_events },
  rw (
    parsed,
    found,
    insert_all-none draw r.ended_before template (occurrences cal rule (now + series_horizon))
        t.plans there,
  ),
  refl,
)

extend_with-twice :
    (draw later_draw : ℕ → ℕ) (cal : Calendar) (now pid : ℕ) (r : Recurrence) (s t : Schedule)
    (n : ℕ) (template : PlanRow)
    → find_where (row_key pid) s.plans ≡ some template
    → (template.series_id == 0) ≡ false
    → ((at : ℕ) → (draw at == pid) ≡ false)
    → extend_with draw cal now pid r s ≡ ok (t, n)
    → (u : Schedule) × (extend_with later_draw cal now pid r t ≡ ok (u, 0)) × (u.plans ≡ t.plans)
extend_with-twice draw later_draw cal now pid r s t n template found series fresh h =
    let (rule, same_template, parsed, also_found, plans, _) =
      extend_with-ok draw cal now pid r s t n h in
    let times = occurrences cal rule (now + series_horizon) in
    let equal : same_template ≡ template = ground (arith) in
    let placed : t.plans ≡ (insert_all draw r.ended_before template times s.plans).0 =
      rw (sym equal) plans in
    extend_with-again later_draw cal now pid r t rule template parsed
      (rw placed (template-insert_all draw r.ended_before template pid times s.plans fresh ∙ found))
      (rw placed (insert_all-IsThere draw r.ended_before template times s.plans series))

-- Extending a series twice at one time makes no plan the second time, whatever keys are drawn, if
-- the template is a plan of a series and no new plan has the template's key.
pub extend_series_twice :
    (draw later_draw : ℕ → ℕ) (cal : Calendar) (now pid : ℕ) (s t : Schedule) (n : ℕ)
    (template : PlanRow)
    → find_where (row_key pid) s.plans ≡ some template
    → (template.series_id == 0) ≡ false
    → ((at : ℕ) → (draw at == pid) ≡ false)
    → extend_series draw cal now pid s ≡ ok (t, n)
    → (u : Schedule) × (extend_series later_draw cal now pid t ≡ ok (u, 0)) × (u.plans ≡ t.plans)
unfolding extend_series
extend_series_twice draw later_draw cal now pid s t n template found series fresh h =
    elim (Option-cases (find_where (recurrence_key pid) s.recurrences)) [
      | inl e ↦ (t, ground arith, refl)
      | inr (r, e) ↦ elim (Bool-cases r.active) [
        | inl active ↦
            let extended : extend_with draw cal now pid r s ≡ ok (t, n) = ground arith in
            let (_, _, _, _, _, kept) = extend_with-ok draw cal now pid r s t n extended in
            let (u, again, same) =
              extend_with-twice draw later_draw cal now pid r s t n template found series fresh
                extended in
            (u, ground arith, same)
        | inr stopped ↦ (t, ground arith, refl)
      ]
    ]
