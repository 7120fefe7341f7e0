-- ===== src/Plans/Requests.antt =====
-- Who may see a plan, and join requests (repository.go and service.go).
use hivemind_backend.Bookings.Types.{JoinMode, Role}
use hivemind_backend.Bookings.Access.{is_admin_role, is_pair}
use hivemind_backend.Prelude.{
  not, update_first, find_where, ℕ, Bool, Option, Result, any_where, List, ◌>>◌, ◌>>=◌,
  if◌then◌else◌, ◌||◌, ◌&&◌, ◌==◌, or_err, guard, ◌∷◌, ok, false, true, some, none,
}
use hivemind_backend.Plans.Types.{
  row_key, PlanNews, PlanVisibility, Schedule, PlanRow, PlanError, JoinRequest, RequestStatus,
}

abbrev pub is_asking : RequestStatus → Bool
is_asking RequestStatus.pending = true
is_asking _ = false

abbrev pub is_approved : RequestStatus → Bool
is_approved RequestStatus.approved = true
is_approved _ = false

-- `Get`
unfoldable pub get_plan : ℕ → Schedule → Result PlanError PlanRow
get_plan pid s = or_err (find_where (row_key pid) s.plans) PlanError.plan_not_found

abbrev pub is_request_of : ℕ → ℕ → JoinRequest → Bool
is_request_of pid uid j = j.plan_id == pid && j.user_id == uid

-- The tables of other components that `CanView` reads.
pub record Members : Type 0 where
  pub going : List (ℕ × ℕ)
  pub community_members : List (ℕ × ℕ)

abbrev pub is_open_visibility : PlanVisibility → Bool
is_open_visibility PlanVisibility.public = true
is_open_visibility _ = false

abbrev pub is_for_community : PlanVisibility → Bool
is_for_community PlanVisibility.community = true
is_for_community _ = false

-- `CanView`
unfoldable pub can_view : PlanRow → ℕ → Members → Schedule → Bool
can_view p uid m s =
    any_where (is_pair p.id uid) s.invites
    || any_where (λ j. is_request_of p.id uid j && (is_asking j.status || is_approved j.status))
        s.requests
    || any_where (is_pair p.id uid) m.going
    || is_for_community p.visibility
      && not (p.community_id == 0)
      && any_where (is_pair p.community_id uid) m.community_members

-- `GetPlanAsUser`
unfoldable pub get_plan_as_user : ℕ → ℕ → Role → Members → Schedule → Result PlanError PlanRow
unfolding get_plan can_view
get_plan_as_user pid caller role m s = do
  guard (not (pid == 0)) PlanError.invalid_input
  p ← get_plan pid s
  guard
      (is_open_visibility p.visibility
        || p.host_id == caller
        || is_admin_role role
        || can_view p caller m s)
      PlanError.plan_not_found
  ok p

-- `requireHost`
unfoldable pub require_host : PlanRow → ℕ → Role → Result PlanError (Unit {0})
require_host p caller role = guard (p.host_id == caller || is_admin_role role) PlanError.forbidden

abbrev pub new_request : ℕ → ℕ → ℕ → ℕ → JoinRequest
new_request id pid uid message = record {
  id = id;
  plan_id = pid;
  user_id = uid;
  status = RequestStatus.pending;
  message = message;
  decided_by = 0;
}

-- `CreateJoinRequest`: a row that is there is returned as it is.
unfoldable pub create_join_request : ℕ → ℕ → ℕ → ℕ → Schedule → Schedule × JoinRequest
create_join_request id pid uid message s = elim (find_where (is_request_of pid uid) s.requests) [
  | some j ↦ (s, j)
  | none ↦ (
    record s { requests = new_request id pid uid message ∷ s.requests },
    new_request id pid uid message,
  )
]

-- A message that is enqueued on its own, whose failure is ignored.
abbrev pub enqueue_news : PlanNews → Schedule → Schedule
enqueue_news e s = record s { news = e ∷ s.news }

abbrev pub is_by_approval : JoinMode → Bool
is_by_approval JoinMode.approval = true
is_by_approval _ = false

-- `RequestToJoinPlan`; `is_long` says that the message has more than 500 bytes.
unfoldable pub request_to_join_plan :
    ℕ → ℕ → ℕ → ℕ → Bool → Members → Schedule → Result PlanError (Schedule × JoinRequest)
unfolding get_plan_as_user create_join_request
request_to_join_plan id pid caller message is_long m s = do
  guard (not (pid == 0 || caller == 0 || is_long)) PlanError.invalid_input
  p ← get_plan_as_user pid caller Role.user m s
  guard (is_by_approval p.join_mode && not (p.host_id == caller)) PlanError.invalid_input
  let (t, j) = create_join_request id pid caller message s
  ok (if is_asking j.status then enqueue_news (PlanNews.tell_user p.host_id pid) t else t, j)

abbrev pub request_key : ℕ → JoinRequest → Bool
request_key id j = j.id == id

-- `GetJoinRequest`
unfoldable pub get_join_request : ℕ → Schedule → Result PlanError JoinRequest
get_join_request id s = or_err (find_where (request_key id) s.requests) PlanError.request_not_found

abbrev pub verdict : Bool → RequestStatus
verdict true = RequestStatus.approved
verdict false = RequestStatus.rejected

unfoldable pub decide : ℕ → Bool → JoinRequest → JoinRequest
decide by approve j = record j { status = verdict approve; decided_by = by }

-- `DecideJoinRequest`: `none` where no request with the id is pending.
unfoldable pub decide_join_request : ℕ → ℕ → Bool → Schedule → Schedule × Option JoinRequest
unfolding decide
decide_join_request id by approve s =
    elim (find_where (λ j. request_key id j && is_asking j.status) s.requests) [
      | none ↦ (s, none)
      | some j ↦ (
        record s { requests = update_first (request_key id) (decide by approve) s.requests },
        some (decide by approve j),
      )
    ]

abbrev pub same_verdict : RequestStatus → Bool → Bool
same_verdict RequestStatus.pending approve = false
same_verdict RequestStatus.approved approve = approve
same_verdict _ approve = not approve

-- The end of `RespondPlanJoinRequest`, once the caller may decide.
unfoldable pub settle_request :
    ℕ → ℕ → Bool → PlanRow → Schedule → Result PlanError (Schedule × JoinRequest)
unfolding decide_join_request get_join_request
settle_request id caller approve p s =
    let (t, decided) = decide_join_request id caller approve s in
    let repeated = get_join_request id s >>= λ cur.
    guard (same_verdict cur.status approve) PlanError.already_decided >> ok (s, cur) in
    elim decided [
      | some j ↦ ok (enqueue_news (PlanNews.tell_user j.user_id p.id) t, j)
      | none ↦ repeated
    ]

-- `RespondPlanJoinRequest`
unfoldable pub respond_plan_join_request :
    ℕ → ℕ → Role → Bool → Schedule → Result PlanError (Schedule × JoinRequest)
unfolding settle_request get_join_request get_plan require_host
respond_plan_join_request id caller role approve s = do
  guard (not (id == 0 || caller == 0)) PlanError.invalid_input
  existing ← get_join_request id s
  p ← get_plan existing.plan_id s
  require_host p caller role
  settle_request id caller approve p s
