-- ===== src/Plans/Creation.antt =====
-- `CreatePlan` of service.go and `Create` of repository.go. The cover photo and its upload are another
-- component's; what it found is an argument.
use hivemind_backend.Prelude.Int.{ℤ}
use hivemind_backend.Plans.Requests.{is_for_community, is_open_visibility}
use hivemind_backend.Bookings.Types.{PlanStatus, JoinMode}
use hivemind_backend.Plans.Recurrence.{Calendar, parse_rule}
use hivemind_backend.Plans.Series.{extend_series}
use hivemind_backend.Prelude.{
  ◌>>◌, length, leb, not, ltb, guard, Option, or_err, Result, ℕ, Bool, List, ◌>>=◌, if◌then◌else◌,
  ◌||◌, ◌&&◌, ◌==◌, ◌+◌, ◌∷◌, err, ok, false, true, some, none,
}
use hivemind_backend.Plans.Types.{PlanVisibility, Recurrence, Schedule, PlanRow, PlanError, Part}

-- `defaultPlanDuration` and `startGrace`: 2 hours and 5 minutes, in microseconds.
abbrev pub default_plan_duration : ℕ
default_plan_duration = 7_200_000_000

abbrev pub start_grace : ℕ
start_grace = 300_000_000

-- What a caller asks for: `none` is the empty text, and 0 a zero time or an empty id. A mode or a
-- visibility that the code does not know is refused before this.
pub record Draft : Type 0 where
  pub title : ℕ
  pub host_id : ℕ
  pub starts_at : ℕ
  pub ends_at : ℕ
  pub capacity : ℕ
  pub price_minor : ℤ
  pub currency : ℕ
  pub join_mode : Option JoinMode
  pub visibility : Option PlanVisibility
  pub community_id : ℕ
  pub requires_entitlement : ℕ
  pub rule : List Part

-- What other components answer: whether the cover, if one is given, is an image of the host's;
-- whether the host manages the community, if that is wired; and whether the entitlement exists.
pub record Answers : Type 0 where
  pub cover : Result PlanError (Unit {0})
  pub is_manager : Option Bool
  pub has_product : Bool

abbrev pub default_currency : ℕ
default_currency = 1

abbrev pub or_default : {A : Type 0} → Option A → A → A
or_default none x = x
or_default (some y) x = y

-- The draft with its defaults, as the row to insert.
unfoldable pub filled_in : ℕ → ℕ → Draft → PlanRow
filled_in now id d =
    let starts = if d.starts_at == 0 then now else d.starts_at in
    record {
      id = id;
      title = d.title;
      host_id = d.host_id;
      starts_at = starts;
      ends_at = if d.ends_at == 0 then starts + default_plan_duration else d.ends_at;
      capacity = d.capacity;
      price_minor = d.price_minor;
      currency = if d.currency == 0 then default_currency else d.currency;
      status = PlanStatus.published;
      join_mode = or_default d.join_mode JoinMode.open_join;
      visibility = or_default d.visibility PlanVisibility.public;
      community_id = d.community_id;
      requires_entitlement = d.requires_entitlement;
      series_id = 0;
    }

abbrev pub is_invite_only : JoinMode → Bool
is_invite_only JoinMode.invite_only = true
is_invite_only _ = false

-- The plan types that the table's CHECKs allow.
abbrev pub is_sound_type : PlanRow → Bool
is_sound_type p =
    not (is_invite_only p.join_mode && is_open_visibility p.visibility)
    && not (is_for_community p.visibility && p.community_id == 0)

-- A plan ends after it starts, and does not start in the past, but for the grace.
abbrev pub is_sound_time : ℕ → PlanRow → Bool
is_sound_time now p = ltb p.starts_at p.ends_at && leb now (p.starts_at + start_grace)

abbrev pub has_rule : Draft → Bool
has_rule d = not (length d.rule == 0)

-- A rule that is given must be one.
abbrev pub checked_rule : Draft → Result PlanError (Unit {0})
checked_rule d =
    if has_rule d
    then elim (parse_rule d.rule) [ ok r ↦ ok tt | err e ↦ err PlanError.invalid_input ]
    else ok tt

abbrev pub checked_community : PlanRow → Option Bool → Result PlanError (Unit {0})
checked_community p manager =
    if p.community_id == 0
    then ok tt
    else or_err manager PlanError.invalid_input >>= λ manages. guard manages PlanError.forbidden

-- The tests of `CreatePlan`, and the row that passed them.
unfoldable pub checked_plan : ℕ → ℕ → Draft → Answers → Result PlanError PlanRow
unfolding filled_in parse_rule
checked_plan now id d a = do
  guard (not (d.title == 0 || d.host_id == 0 || d.capacity == 0)) PlanError.invalid_input
  a.cover
  let p = filled_in now id d
  guard (is_sound_type p) PlanError.invalid_input
  guard (is_sound_time now p) PlanError.invalid_input
  checked_rule d
  checked_community p a.is_manager
  guard (p.requires_entitlement == 0 || a.has_product) PlanError.invalid_input
  ok p

abbrev pub new_recurrence : ℕ → List Part → Recurrence
new_recurrence pid rule = record { plan_id = pid; rule = rule; active = true; ended_before = none }

-- `Create` of the repository: a plan with a rule is the first of its series.
unfoldable pub create_plan_row : PlanRow → Draft → Schedule → Schedule × PlanRow
create_plan_row p d s =
    let stored = if has_rule d then record p { series_id = p.id } else p in
    (
      record s {
        plans = stored ∷ s.plans;
        recurrences =
            if has_rule d then new_recurrence p.id d.rule ∷ s.recurrences else s.recurrences;
        community_events =
            if p.community_id == 0
            then s.community_events
            else (p.community_id, p.id) ∷ s.community_events;
      },
      stored,
    )

-- `CreatePlan`: the first occurrences of a series are made at once. The plan stays where that fails.
unfoldable pub create_plan :
    (ℕ → ℕ) → Calendar → ℕ → ℕ → Draft → Answers → Schedule → Schedule × Result PlanError PlanRow
unfolding create_plan_row extend_series checked_plan
create_plan draw cal now id d a s = elim (checked_plan now id d a) [
  | err e ↦ (s, err e)
  | ok p ↦
      let (t, stored) = create_plan_row p d s in
      let extended : Schedule × Result PlanError PlanRow = elim (extend_series draw cal now id t) [
        | err e ↦ (t, err e)
        | ok (u, n) ↦ (u, ok stored)
      ] in
      if has_rule d then extended else (t, ok stored)
]
