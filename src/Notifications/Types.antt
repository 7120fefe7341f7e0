-- ===== src/Notifications/Types.antt =====
-- The rows of internal/notifications. Texts are numbers and 0 is the empty text or NULL.
use hivemind_backend.Prelude.{ℕ, Bool, true, false, ◌==◌, ◌&&◌, ◌||◌, List, any_where}
use hivemind_backend.Auth.Types.{User}

-- The enum `notification_channel`.
pub data Channel : Type 0 where
  push in_app email : Channel

-- The types of events that emit.go names, and no type.
pub data EventType : Type 0 where
  no_type post_like post_comment story_view story_like profile_view : EventType
  connection_request connection_accepted chat_message : EventType
  community_join_request community_declined community_approved : EventType
  community_member_joined plan_attendee_joined review_received : EventType

-- The categories that a user can mute, and `uncategorized` for every other name.
pub data Category : Type 0 where
  social stories profile_views messages connections uncategorized : Category

-- What happened to `user_id`, caused by `actor_id`; 0 for an event of the system.
pub record Event : Type 0 where
  pub user_id : ℕ
  pub actor_id : ℕ
  pub kind : EventType
  pub target_id : ℕ
  pub title : ℕ
  pub body : ℕ
  pub deep_link : ℕ
  pub dedupe_key : ℕ

-- The enum `delivery_status`.
pub data DeliveryStatus : Type 0 where
  pending sent failed : DeliveryStatus

pub record Notification : Type 0 where
  pub id : ℕ
  pub user_id : ℕ
  pub channel : Channel
  pub kind : EventType
  pub actor_id : ℕ
  pub target_id : ℕ
  pub title : ℕ
  pub body : ℕ
  pub deep_link : ℕ
  pub dedupe_key : ℕ
  pub read : Bool
  pub created_at : ℕ
  pub delivery_status : DeliveryStatus
  pub delivery_error : ℕ

pub record Preferences : Type 0 where
  pub user_id : ℕ
  pub push_enabled : Bool
  pub email_enabled : Bool
  pub quiet_start : ℕ
  pub quiet_end : ℕ
  pub muted_categories : List Category

-- A row of `blocks`: `user_id` blocks `blocked_user_id`.
pub record Block : Type 0 where
  pub user_id : ℕ
  pub blocked_user_id : ℕ

-- The tables; `push_tokens` pairs a user with the push token of a device.
pub record Board : Type 0 where
  pub notifications : List Notification
  pub preferences : List Preferences
  pub users : List User
  pub blocks : List Block
  pub push_tokens : List (ℕ × ℕ)

pub data NotifyError : Type 0 where
  invalid_input : NotifyError

abbrev pub is_block : ℕ → ℕ → Block → Bool
is_block a b r =
    r.user_id == a && r.blocked_user_id == b || r.user_id == b && r.blocked_user_id == a

-- A block between two users, in either direction.
abbrev pub is_blocked : ℕ → ℕ → List Block → Bool
is_blocked a b blocks = any_where (is_block a b) blocks

abbrev pub is_type : EventType → Bool
is_type EventType.no_type = false
is_type _ = true

-- `categoryOf`
abbrev pub category_of : EventType → Category
category_of EventType.no_type = Category.uncategorized
category_of EventType.story_view = Category.stories
category_of EventType.story_like = Category.stories
category_of EventType.profile_view = Category.profile_views
category_of EventType.chat_message = Category.messages
category_of EventType.connection_request = Category.connections
category_of EventType.connection_accepted = Category.connections
category_of _ = Category.social

abbrev pub same_category : Category → Category → Bool
same_category Category.social Category.social = true
same_category Category.stories Category.stories = true
same_category Category.profile_views Category.profile_views = true
same_category Category.messages Category.messages = true
same_category Category.connections Category.connections = true
same_category Category.uncategorized Category.uncategorized = true
same_category _ _ = false
