-- ===== src/Communities/Service.antt =====
-- The methods of service.go that change a community. The check of entitlements is a parameter, and
-- `none` where the service was built without one.
use hivemind_backend.Notifications.Types.{EventType}
use hivemind_backend.Prelude.{
  leb, or_err, ◌∷◌, ℕ, Bool, true, false, ◌==◌, ◌&&◌, ◌||◌, ◌*◌, ◌+◌, Option, some, none, not,
  if◌then◌else◌, Result, ok, err, ◌>>=◌, ◌>>◌, guard,
}
use hivemind_backend.Communities.Types.{
  NewCommunity, TypeName, Community, CommunityError, CommunityRole, CommunityRequest, CommunityType,
  Clubs, JoinStatus, Membership, is_open_join, is_approved_join, is_owner_role,
}
use hivemind_backend.Communities.Members.{
  pair_key, get_community, member_role, has_approved_invite, join, request_to_join, club_event,
  emit_news, get_request, decide_request, invite, delete_member,
}

abbrev pub EntitlementChecker : Type 0
EntitlementChecker = Option (ℕ → ℕ → Result CommunityError Bool)

-- The answer of the check, or its error; a service without one denies.
abbrev pub is_entitled : EntitlementChecker → ℕ → ℕ → Result CommunityError Bool
is_entitled none uid e = ok false
is_entitled (some has) uid e = has uid e

-- `s.repo.Join` and the news to the owner.
abbrev pub join_and_tell : ℕ → ℕ → Community → ℕ → Clubs → Clubs × Membership
join_and_tell nid now k uid c =
    let joined = join k.id uid c in
    (
      emit_news nid now
          (club_event EventType.community_member_joined k.owner_id uid k.id
            (3 * pair_key k.id uid + 1))
          joined.0,
      joined.1,
    )

abbrev pub tell_request : ℕ → ℕ → Community → ℕ → Bool → Clubs → Clubs
tell_request nid now k uid fresh c =
    if fresh
    then emit_news nid now
        (club_event EventType.community_join_request k.owner_id uid k.id
          (3 * pair_key k.id uid + 2))
        c
    else c

abbrev pub after_request :
    Community → ℕ → JoinStatus → Clubs → Result CommunityError (Clubs × Membership)
after_request k uid JoinStatus.approved c = ok (join k.id uid c)
after_request k uid JoinStatus.rejected c = err CommunityError.join_declined
after_request k uid JoinStatus.pending c = ok (c, Membership.waiting JoinStatus.pending)

abbrev pub join_by_request :
    ℕ → ℕ → ℕ → Community → ℕ → Clubs → Result CommunityError (Clubs × Membership)
join_by_request id nid now k uid c =
    let filed = request_to_join id k.id uid c.requests in
    after_request k uid filed.1 (
      tell_request nid now k uid (filed.2 && is_open_join filed.1)
        (record c { requests = filed.0 }))

-- The `switch` on the type of the community.
unfoldable pub join_by_type :
    EntitlementChecker
    → CommunityType
    → ℕ
    → ℕ
    → ℕ
    → Community
    → ℕ
    → Clubs
    → Result CommunityError (Clubs × Membership)
join_by_type ent CommunityType.public id nid now k uid c = ok (join_and_tell nid now k uid c)
join_by_type ent CommunityType.approval id nid now k uid c = join_by_request id nid now k uid c
join_by_type ent CommunityType.private id nid now k uid c = do
  guard (has_approved_invite k.id uid c.requests) CommunityError.community_not_found
  ok (join_and_tell nid now k uid c)
join_by_type ent CommunityType.paid id nid now k uid c = do
  entitled ← is_entitled ent uid k.required_entitlement
  guard entitled CommunityError.entitlement_required
  ok (join_and_tell nid now k uid c)

abbrev pub join_as :
    EntitlementChecker
    → Option CommunityRole
    → ℕ
    → ℕ
    → ℕ
    → Community
    → ℕ
    → Clubs
    → Result CommunityError (Clubs × Membership)
join_as ent (some role) id nid now k uid c = ok (c, Membership.active (some role))
join_as ent none id nid now k uid c = join_by_type ent k.membership_type id nid now k uid c

-- `JoinCommunity`; the community's id is the one that it is found by.
unfoldable pub join_community :
    EntitlementChecker → ℕ → ℕ → ℕ → ℕ → ℕ → Clubs → Result CommunityError (Clubs × Membership)
join_community ent id nid now cid uid c = do
  guard (not (cid == 0 || uid == 0)) CommunityError.invalid_input
  k ← get_community cid c.communities
  join_as ent (member_role k.id uid c.members) id nid now k uid c

abbrev pub is_owning : Option CommunityRole → Bool
is_owning none = false
is_owning (some role) = is_owner_role role

-- `LeaveCommunity`
unfoldable pub leave_community : ℕ → ℕ → Clubs → Result CommunityError Clubs
leave_community cid uid c = do
  guard (not (cid == 0 || uid == 0)) CommunityError.invalid_input
  guard (not (is_owning (member_role cid uid c.members))) CommunityError.owner_cannot_leave
  ok (record c { members = delete_member cid uid c.members })

abbrev pub manages : Option CommunityRole → Bool
manages (some CommunityRole.owner) = true
manages (some CommunityRole.moderator) = true
manages _ = false

-- `IsCommunityManager`
abbrev pub is_community_manager : ℕ → ℕ → Clubs → Bool
is_community_manager cid uid c = manages (member_role cid uid c.members)

-- A request that was decided before.
abbrev pub repeated_decision :
    Bool → CommunityRequest → Clubs → Result CommunityError (Clubs × CommunityRequest)
repeated_decision approve cur c =
    if not (is_open_join cur.status)
      && (is_approved_join cur.status && approve
          || not (is_approved_join cur.status) && not approve)
    then ok (c, cur)
    else err CommunityError.already_decided

abbrev pub answer :
    Bool → ℕ → Clubs × Option CommunityRequest → Result CommunityError (Clubs × CommunityRequest)
answer approve id (c, some r) = ok (c, r)
answer approve id (c, none) = do cur ← get_request id c.requests; repeated_decision approve cur c

-- `RespondJoinRequest`
unfoldable pub respond_join_request :
    ℕ → ℕ → ℕ → ℕ → Bool → Clubs → Result CommunityError (Clubs × CommunityRequest)
respond_join_request nid now id caller approve c = do
  guard (not (id == 0 || caller == 0)) CommunityError.invalid_input
  was ← get_request id c.requests
  guard (is_community_manager was.community_id caller c) CommunityError.forbidden
  answer approve id (decide_request nid now id caller approve c)

-- `InviteToCommunity`
unfoldable pub invite_to_community : ℕ → ℕ → ℕ → ℕ → Clubs → Result CommunityError Clubs
invite_to_community id cid caller uid c = do
  guard (not (cid == 0 || caller == 0 || uid == 0)) CommunityError.invalid_input
  guard (is_community_manager cid caller c) CommunityError.forbidden
  ok (invite id cid uid caller c)

abbrev pub filled_type : TypeName → Option CommunityType
filled_type TypeName.unset = some CommunityType.public
filled_type TypeName.unknown = none
filled_type (TypeName.known t) = some t

abbrev pub is_paid_type : CommunityType → Bool
is_paid_type CommunityType.paid = true
is_paid_type _ = false

abbrev pub community_row : ℕ → CommunityType → NewCommunity → Community
community_row id t new = record {
  id = id;
  owner_id = new.owner_id;
  membership_type = t;
  required_entitlement = new.required_entitlement;
}

-- `Create` of the repository: the community, and its owner as the first member.
abbrev pub insert_community : ℕ → CommunityType → NewCommunity → Clubs → Clubs × Community
insert_community id t new c = (
  record c {
    communities = community_row id t new ∷ c.communities;
    members =
        record { community_id = id; user_id = new.owner_id; role = CommunityRole.owner }
        ∷ c.members;
  },
  community_row id t new,
)

abbrev pub valid_media_url : NewCommunity → Bool
valid_media_url new = new.cover_length == 0 || new.is_https && leb new.cover_length 2048

abbrev pub max_rules_length : ℕ
max_rules_length = 5000

-- `CreateCommunity`
unfoldable pub create_community :
    ℕ → NewCommunity → Clubs → Result CommunityError (Clubs × Community)
create_community id new c = do
  guard (not (new.name == 0 || new.owner_id == 0)) CommunityError.invalid_input
  t ← or_err (filled_type new.type_name) CommunityError.invalid_input
  guard (valid_media_url new && leb new.rules_length max_rules_length) CommunityError.invalid_input
  guard (not (is_paid_type t && new.required_entitlement == 0)) CommunityError.invalid_input
  ok (insert_community id t new c)
