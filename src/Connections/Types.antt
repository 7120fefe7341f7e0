-- ===== src/Connections/Types.antt =====
-- The rows of internal/connections, beside the tables of other components that it reads.
use hivemind_backend.Prelude.{ℕ, Bool, true, false, ◌==◌, ◌&&◌, ◌||◌, List}
use hivemind_backend.Bookings.Types.{Booking, Plan, Participant}
use hivemind_backend.Notifications.Types.{Board}

-- The enum `connection_status`.
pub data ConnectionStatus : Type 0 where
  pending accepted rejected : ConnectionStatus

pub data ConnectionError : Type 0 where
  connection_not_found already_decided user_not_found bad_origin_plan : ConnectionError
  invalid_input forbidden not_attendee invitee_rules : ConnectionError
  duplicate_request room_failed : ConnectionError

pub record Connection : Type 0 where
  pub id : ℕ
  pub requester_id : ℕ
  pub recipient_id : ℕ
  pub origin_plan_id : ℕ
  pub status : ConnectionStatus
  pub created_at : ℕ

-- `board` holds the users, their blocks and their notifications; `nudges` the messages to invitees,
-- each a user and a chat room.
pub record Network : Type 0 where
  pub connections : List Connection
  pub board : Board
  pub participants : List Participant
  pub bookings : List Booking
  pub plans : List Plan
  pub nudges : List (ℕ × ℕ)

abbrev pub is_undecided : ConnectionStatus → Bool
is_undecided ConnectionStatus.pending = true
is_undecided _ = false

abbrev pub is_accepted : ConnectionStatus → Bool
is_accepted ConnectionStatus.accepted = true
is_accepted _ = false

abbrev pub same_status : ConnectionStatus → ConnectionStatus → Bool
same_status ConnectionStatus.pending ConnectionStatus.pending = true
same_status ConnectionStatus.accepted ConnectionStatus.accepted = true
same_status ConnectionStatus.rejected ConnectionStatus.rejected = true
same_status _ _ = false

-- A row between two users, whoever asked.
abbrev pub is_between : ℕ → ℕ → Connection → Bool
is_between a b c =
    c.requester_id == a && c.recipient_id == b || c.requester_id == b && c.recipient_id == a

abbrev pub connection_key : ℕ → Connection → Bool
connection_key id c = c.id == id
