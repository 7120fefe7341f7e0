-- ===== src/Communities/Types.antt =====
-- The rows of internal/communities, beside the users and the notifications.
use hivemind_backend.Prelude.{ℕ, Bool, true, false, ◌==◌, ◌&&◌, List, Option}
use hivemind_backend.Notifications.Types.{Board}

-- The enum `community_type`.
pub data CommunityType : Type 0 where
  public private approval paid : CommunityType

-- The enum `community_role`.
pub data CommunityRole : Type 0 where
  member moderator owner : CommunityRole

-- The enum `join_request_status`.
pub data JoinStatus : Type 0 where
  pending approved rejected : JoinStatus

-- The string of a new community's type.
pub data TypeName : Type 0 where
  unset unknown : TypeName
  known : CommunityType → TypeName

pub data CommunityError : Type 0 where
  invalid_input community_not_found request_not_found forbidden : CommunityError
  join_declined entitlement_required entitlement_failed already_decided owner_cannot_leave :
      CommunityError

-- The columns that decide who gets in and who is told; the rest is for display.
pub record Community : Type 0 where
  pub id : ℕ
  pub owner_id : ℕ
  pub membership_type : CommunityType
  pub required_entitlement : ℕ

pub record MemberRow : Type 0 where
  pub community_id : ℕ
  pub user_id : ℕ
  pub role : CommunityRole

-- What `CreateCommunity` is called with; the lengths are in bytes, and `is_https` tells whether
-- the cover's address starts with `https://`.
pub record NewCommunity : Type 0 where
  pub name : ℕ
  pub owner_id : ℕ
  pub type_name : TypeName
  pub required_entitlement : ℕ
  pub rules_length : ℕ
  pub cover_length : ℕ
  pub is_https : Bool

-- `invited_by` is `none` on a request that the user made.
pub record CommunityRequest : Type 0 where
  pub id : ℕ
  pub community_id : ℕ
  pub user_id : ℕ
  pub status : JoinStatus
  pub invited_by : Option ℕ

-- What `JoinCommunity` returns: the role of an active member, or the status of the request.
pub data Membership : Type 0 where
  active : Option CommunityRole → Membership
  waiting : JoinStatus → Membership

-- `invites` holds the pushes that are queued for invited users, each a user and a community.
pub record Clubs : Type 0 where
  pub communities : List Community
  pub members : List MemberRow
  pub requests : List CommunityRequest
  pub board : Board
  pub invites : List (ℕ × ℕ)

abbrev pub is_owner_role : CommunityRole → Bool
is_owner_role CommunityRole.owner = true
is_owner_role _ = false

abbrev pub is_open_join : JoinStatus → Bool
is_open_join JoinStatus.pending = true
is_open_join _ = false

abbrev pub is_approved_join : JoinStatus → Bool
is_approved_join JoinStatus.approved = true
is_approved_join _ = false

abbrev pub is_row_of : ℕ → ℕ → MemberRow → Bool
is_row_of cid uid m = m.community_id == cid && m.user_id == uid

abbrev pub is_join_row : ℕ → ℕ → CommunityRequest → Bool
is_join_row cid uid r = r.community_id == cid && r.user_id == uid
