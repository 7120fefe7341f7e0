-- ===== src/Communities/Members.antt =====
-- The statements of repository.go on the members and the requests of a community. `UNIQUE
-- (community_id, user_id)` of both tables is what `ON CONFLICT` reads.
use hivemind_backend.Auth.Types.{user_key}
use hivemind_backend.Notifications.Types.{Event, EventType}
use hivemind_backend.Notifications.Emit.{emit}
use hivemind_backend.Prelude.{
  ℕ, Bool, true, false, ◌==◌, ◌&&◌, ◌*◌, ◌+◌, List, Option, some, none, ◌∷◌, [], any_where,
  find_where, update_first, not, if◌then◌else◌, Result, or_err, first,
}
use hivemind_backend.Communities.Types.{
  Community, CommunityError, CommunityRole, CommunityRequest, Clubs, JoinStatus, MemberRow,
  Membership, is_open_join, is_approved_join, is_owner_role, is_row_of, is_join_row,
}

-- `Get`
abbrev pub get_community : ℕ → List Community → Result CommunityError Community
get_community cid cs = or_err (find_where (λ c. c.id == cid) cs) CommunityError.community_not_found

abbrev pub role_in : Option MemberRow → Option CommunityRole
role_in none = none
role_in (some m) = some m.role

-- `MemberRole`; `none` for the code's empty string.
abbrev pub member_role : ℕ → ℕ → List MemberRow → Option CommunityRole
member_role cid uid ms = role_in (find_where (is_row_of cid uid) ms)

abbrev pub is_given : Option ℕ → Bool
is_given none = false
is_given (some by) = true

-- `HasApprovedInvite`
abbrev pub has_approved_invite : ℕ → ℕ → List CommunityRequest → Bool
has_approved_invite cid uid =
    any_where (λ r. is_join_row cid uid r && is_approved_join r.status && is_given r.invited_by)

abbrev pub new_member : ℕ → ℕ → MemberRow
new_member cid uid = record { community_id = cid; user_id = uid; role = CommunityRole.member }

-- `INSERT … ON CONFLICT DO NOTHING`
unfoldable pub insert_member : ℕ → ℕ → List MemberRow → List MemberRow
insert_member cid uid ms = if any_where (is_row_of cid uid) ms then ms else new_member cid uid ∷ ms

-- `Join`
abbrev pub join : ℕ → ℕ → Clubs → Clubs × Membership
join cid uid c =
    let ms = insert_member cid uid c.members in
    (record c { members = ms }, Membership.active (member_role cid uid ms))

abbrev pub join_request : ℕ → ℕ → ℕ → CommunityRequest
join_request id cid uid = record {
  id = id;
  community_id = cid;
  user_id = uid;
  status = JoinStatus.pending;
  invited_by = none;
}

abbrev pub file_or_keep :
    ℕ
    → ℕ
    → ℕ
    → List CommunityRequest
    → Option CommunityRequest
    → List CommunityRequest × JoinStatus × Bool
file_or_keep id cid uid rs none = (join_request id cid uid ∷ rs, JoinStatus.pending, true)
file_or_keep id cid uid rs (some r) = (rs, r.status, false)

-- `RequestToJoin`: the rows, the status of the request and whether it is new.
unfoldable pub request_to_join :
    ℕ → ℕ → ℕ → List CommunityRequest → List CommunityRequest × JoinStatus × Bool
request_to_join id cid uid rs = file_or_keep id cid uid rs (find_where (is_join_row cid uid) rs)

abbrev pub set_join_status : JoinStatus → CommunityRequest → CommunityRequest
set_join_status status r = record r { status = status }

abbrev pub verdict_of : Bool → JoinStatus
verdict_of approve = if approve then JoinStatus.approved else JoinStatus.rejected

-- `GetRequest`
abbrev pub get_request : ℕ → List CommunityRequest → Result CommunityError CommunityRequest
get_request id rs = or_err (find_where (λ r. r.id == id) rs) CommunityError.request_not_found

-- One number for two, no two pairs having the same.
abbrev pub pair_key : ℕ → ℕ → ℕ
pair_key a b = (a + b) * (a + b) + a

-- The keys of a new member, of a request and of a decision differ by their remainders by 3.
abbrev pub club_event : EventType → ℕ → ℕ → ℕ → ℕ → Event
club_event kind to actor cid key = record {
  user_id = to;
  actor_id = actor;
  kind = kind;
  target_id = cid;
  title = 1;
  body = 0;
  deep_link = cid;
  dedupe_key = key;
}

abbrev pub emit_news : ℕ → ℕ → Event → Clubs → Clubs
emit_news nid now e c = record c { board = first (emit nid now e c.board) }

abbrev pub decision_kind : Bool → EventType
decision_kind approve =
    if approve then EventType.community_approved else EventType.community_declined

-- The transaction of `DecideRequest` on a request that is pending.
abbrev pub decide_open : ℕ → Bool → CommunityRequest → Clubs → Clubs
decide_open id approve r c = record c {
  requests =
      update_first (λ q. q.id == id && is_open_join q.status) (set_join_status (verdict_of approve))
        c.requests;
  members = if approve then insert_member r.community_id r.user_id c.members else c.members;
}

abbrev pub decide_found :
    ℕ → ℕ → ℕ → ℕ → Bool → Option CommunityRequest → Clubs → Clubs × Option CommunityRequest
decide_found nid now id by approve none c = (c, none)
decide_found nid now id by approve (some r) c = (
  emit_news nid now (club_event (decision_kind approve) r.user_id by r.community_id (3 * id + 3))
      (decide_open id approve r c),
  some (set_join_status (verdict_of approve) r),
)

-- `DecideRequest`; `none` where the request is no longer pending.
unfoldable pub decide_request : ℕ → ℕ → ℕ → ℕ → Bool → Clubs → Clubs × Option CommunityRequest
decide_request nid now id by approve c =
    decide_found nid now id by approve
      (find_where (λ q. q.id == id && is_open_join q.status) c.requests) c

abbrev pub stamped : ℕ → CommunityRequest → CommunityRequest
stamped by r = record r { status = JoinStatus.approved; invited_by = some by }

abbrev pub invite_row : ℕ → ℕ → ℕ → ℕ → CommunityRequest
invite_row id cid uid by = stamped by (join_request id cid uid)

abbrev pub insert_invite : ℕ → ℕ → ℕ → ℕ → List CommunityRequest → List CommunityRequest
insert_invite id cid uid by rs =
    if any_where (is_join_row cid uid) rs
    then update_first (is_join_row cid uid) (stamped by) rs
    else invite_row id cid uid by ∷ rs

-- `Invite`: the row is for a user that exists, the push is queued for whoever was named.
unfoldable pub invite : ℕ → ℕ → ℕ → ℕ → Clubs → Clubs
invite id cid uid by c = record c {
  requests =
      if any_where (user_key uid) c.board.users
      then insert_invite id cid uid by c.requests
      else c.requests;
  invites = (uid, cid) ∷ c.invites;
}

-- `DELETE … WHERE role <> 'owner'`
unfoldable pub delete_member : ℕ → ℕ → List MemberRow → List MemberRow
delete_member cid uid [] = []
delete_member cid uid (m ∷ ms) =
    let rest = delete_member cid uid ms in
    if is_row_of cid uid m && not (is_owner_role m.role) then rest else m ∷ rest
