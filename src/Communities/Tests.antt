-- ===== src/Communities/Tests.antt =====
-- A public and a private community, and the theorems applied to them.
use hivemind_backend.Prelude.{
  false, true, List, some, none, ◌∷◌, [], any_where, find_where, refl, ◌≡◌, after, map_ok, first,
  ◌||◌,
}
use hivemind_backend.Notifications.Emit.{emit, is_wanted}
use hivemind_backend.Communities.Types.{
  TypeName, NewCommunity, Clubs, Community, CommunityRole, CommunityType, JoinStatus, Membership,
}
use hivemind_backend.Communities.Members.{insert_member, delete_member}
use hivemind_backend.Communities.Service.{
  create_community, insert_community, join_community, join_by_type, leave_community,
}
use hivemind_backend.Communities.Owners.{
  create_community-owned, ClubCall, club_run, club_step, owns, club_run-owns,
}
use hivemind_backend.Communities.Admission.{belongs, may_enter, join_community-belongs}

abbrev private_club : Community
private_club = record {
  id = 5;
  owner_id = 1;
  membership_type = CommunityType.private;
  required_entitlement = 0;
}

abbrev clubs : Clubs
clubs = record {
  communities = private_club ∷ [];
  members = record { community_id = 5; user_id = 1; role = CommunityRole.owner } ∷ [];
  requests =
      record {
        id = 9;
        community_id = 5;
        user_id = 2;
        status = JoinStatus.approved;
        invited_by = some 1;
      }
      ∷ [];
  board = record {
    notifications = [];
    preferences = [];
    users = [];
    blocks = [];
    push_tokens = [];
  };
  invites = [];
}

-- User 2 joins by the invite, the owner tries to leave, and user 2 leaves.
abbrev club_calls : List ClubCall
club_calls = ClubCall.joins 20 30 100 5 2 ∷ ClubCall.leaves 5 1 ∷ ClubCall.leaves 5 2 ∷ []

club_calls-members : (club_run none clubs club_calls).members ≡ clubs.members
unfolding club_run club_step join_community join_by_type leave_community insert_member delete_member
    any_where find_where emit is_wanted
club_calls-members = refl

club_run-owns_example : owns 5 1 (club_run none clubs club_calls).members ≡ owns 5 1 clubs.members
club_run-owns_example = club_run-owns none 5 1 club_calls clubs

abbrev joined : Clubs
joined = after clubs (map_ok first (join_community none 20 30 100 5 2 clubs))

join_community-belongs_example : belongs 5 2 joined.members ≡ (
    belongs 5 2 clubs.members || may_enter none CommunityType.private private_club 2 clubs.requests)
unfolding join_community join_by_type insert_member any_where find_where emit is_wanted
join_community-belongs_example =
    join_community-belongs none 20 30 100 5 2 private_club clubs joined
      (Membership.active (some CommunityRole.member)) refl refl

abbrev new_club : NewCommunity
new_club = record {
  name = 1;
  owner_id = 4;
  type_name = TypeName.known CommunityType.paid;
  required_entitlement = 2;
  rules_length = 5000;
  cover_length = 0;
  is_https = false;
}

abbrev created : Clubs × Community
created = insert_community 6 CommunityType.paid new_club clubs

-- The owner of the new community tries to leave it, and user 2 asks to join.
create_community-owned_example :
    owns 6 4
      (club_run none created.0 (ClubCall.leaves 6 4 ∷ ClubCall.joins 21 31 9 6 2 ∷ [])).members
    ≡ true
unfolding create_community
create_community-owned_example =
    create_community-owned none 6 new_club clubs created.0 created.1
      (ClubCall.leaves 6 4 ∷ ClubCall.joins 21 31 9 6 2 ∷ []) refl
