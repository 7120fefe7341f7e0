-- ===== src/Plans/Hosting.antt =====
-- Invites, saves and the cancellation of plans (repository.go and service.go).
use hivemind_backend.Plans.Requests.{
  get_plan, enqueue_news, get_plan_as_user, require_host, Members,
}
use hivemind_backend.Bookings.Types.{Role, PlanStatus}
use hivemind_backend.Plans.Series.{future_occurrence_ids, end_series_from}
use hivemind_backend.Bookings.Access.{is_pair}
use hivemind_backend.Prelude.{
  update_where, ltb, length, not, ℕ, Bool, Result, select_where, any_where, List, ◌>>◌, ◌>>=◌,
  if◌then◌else◌, ◌||◌, ◌&&◌, ◌==◌, ◌+◌, guard, ◌∷◌, err, ok, [],
}
use hivemind_backend.Plans.Types.{row_key, PlanNews, Schedule, PlanRow, PlanError}

-- The loop of `InviteUsers` over the users that exist: a new invite for each that has none, and a
-- message for each new invite.
unfoldable pub invite_users : ℕ → List ℕ → Schedule → Schedule × ℕ
invite_users pid [] s = (s, 0)
invite_users pid (uid ∷ uids) s =
    let invited : Schedule × ℕ =
      if any_where (λ u. u == uid) s.users && not (any_where (is_pair pid uid) s.invites)
      then (
        enqueue_news (PlanNews.tell_user uid pid) (record s { invites = (pid, uid) ∷ s.invites }),
        1,
      )
      else (s, 0) in
    let (u, m) = invite_users pid uids invited.0 in (u, invited.1 + m)

-- `maxInvitesPerCall`
abbrev pub max_invites_per_call : ℕ
max_invites_per_call = 50

-- `InvitePlanUsers`, with `InviteUsers`
unfoldable pub invite_plan_users :
    ℕ → ℕ → Role → List ℕ → Schedule → Result PlanError (Schedule × ℕ)
unfolding invite_users get_plan require_host
invite_plan_users pid caller role uids s = do
  guard
      (not (pid == 0 || caller == 0 || length uids == 0 || ltb max_invites_per_call (length uids)))
      PlanError.invalid_input
  p ← get_plan pid s
  require_host p caller role
  ok (invite_users pid uids s)

-- `RevokePlanInvite`, with `RevokeInvite`
unfoldable pub revoke_plan_invite : ℕ → ℕ → ℕ → Role → Schedule → Result PlanError Schedule
unfolding get_plan require_host
revoke_plan_invite pid uid caller role s = do
  guard (not (pid == 0 || uid == 0 || caller == 0)) PlanError.invalid_input
  p ← get_plan pid s
  require_host p caller role
  ok (record s { invites = select_where (λ e. not (is_pair pid uid e)) s.invites })

-- `SavePlan`, with `Save`
unfoldable pub save_plan : ℕ → ℕ → Members → Schedule → Result PlanError Schedule
unfolding get_plan_as_user
save_plan pid uid m s = do
  guard (not (pid == 0 || uid == 0)) PlanError.invalid_input
  p ← get_plan_as_user pid uid Role.user m s
  ok (if any_where (is_pair pid uid) s.saves then s else record s { saves = (pid, uid) ∷ s.saves })

-- `UnsavePlan`, with `Unsave`
unfoldable pub unsave_plan : ℕ → ℕ → Schedule → Result PlanError Schedule
unsave_plan pid uid s = do
  guard (not (pid == 0 || uid == 0)) PlanError.invalid_input
  ok (record s { saves = select_where (λ e. not (is_pair pid uid e)) s.saves })

unfoldable pub cancelled_plan : PlanRow → PlanRow
cancelled_plan p = record p { status = PlanStatus.cancelled }

-- `Cancel`, whatever the plan's status
unfoldable pub cancel_plan_row : ℕ → ℕ → Schedule → Result PlanError (Schedule × PlanRow)
unfolding cancelled_plan get_plan
cancel_plan_row pid reason s = do
  p ← get_plan pid s
  ok (
    enqueue_news (PlanNews.plan_cancelled pid reason)
        (record s { plans = update_where (row_key pid) cancelled_plan s.plans }),
    cancelled_plan p,
  )

-- The loop over the future occurrences; each cancellation is committed on its own.
unfoldable pub cancel_each_plan : List ℕ → ℕ → Schedule → Schedule × Result PlanError (Unit {0})
unfolding cancel_plan_row
cancel_each_plan [] reason s = (s, ok tt)
cancel_each_plan (pid ∷ pids) reason s = elim (cancel_plan_row pid reason s) [
  | err e ↦ (s, err e)
  | ok (t, p) ↦ cancel_each_plan pids reason t
]

-- The cancellation of a plan and of what follows it in its series.
unfoldable pub cancel_series : PlanRow → ℕ → Schedule → Schedule × Result PlanError PlanRow
unfolding cancel_each_plan future_occurrence_ids end_series_from get_plan
cancel_series p reason s =
    let (t, cancelled) = cancel_each_plan (future_occurrence_ids p s.plans) reason s in
    let ended = end_series_from p.series_id p.starts_at t in
    elim cancelled [ err e ↦ (t, err e) | ok _ ↦ (ended, get_plan p.id ended) ]

-- `CancelPlan`
unfoldable pub cancel_plan :
    ℕ → ℕ → Role → ℕ → Bool → Schedule → Schedule × Result PlanError PlanRow
unfolding cancel_series cancel_plan_row get_plan require_host
cancel_plan pid caller role reason future s =
    let allowed =
      guard (not (pid == 0 || caller == 0)) PlanError.invalid_input
      >> (get_plan pid s >>= λ p. require_host p caller role >> ok p) in
    elim allowed [
      | err e ↦ (s, err e)
      | ok p ↦
          if future && not (p.series_id == 0)
          then cancel_series p reason s
          else elim (cancel_plan_row pid reason s) [ err e ↦ (s, err e) | ok (t, q) ↦ (t, ok q) ]
    ]
