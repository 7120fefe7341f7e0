-- ===== src/Bookings/Types.antt =====
-- The rows and errors of internal/bookings (repository.go, service.go, waitlist.go, access.go,
-- pass.go). Ids are numbers and 0 is the empty string; a time is a number on one clock; an amount
-- is a number of minor units.
use hivemind_backend.Prelude.Int.{ℤ}
use hivemind_backend.Prelude.{ℕ, Bool, true, false, Option, List, ◌==◌, ◌&&◌, find_where, Result}

-- The enum `booking_status`.
pub data BookingStatus : Type 0 where
  initiated payment_pending confirmed cancelled refunded no_show attended : BookingStatus

-- The enum `plan_status`.
pub data PlanStatus : Type 0 where
  draft published full cancelled completed : PlanStatus

-- The enum `waitlist_status`.
pub data WaitlistState : Type 0 where
  waiting offered accepted expired left : WaitlistState

pub data JoinMode : Type 0 where
  open_join approval invite_only : JoinMode

pub data Visibility : Type 0 where
  everyone community : Visibility

pub data Role : Type 0 where
  user host moderator admin super_admin : Role

pub data Error : Type 0 where
  plan_full already_booked plan_not_found booking_not_found not_full : Error
  invalid_input forbidden duplicate_request unique_violation : Error
  not_community_member needs_invite approval_required entitlement_required : Error
  pass_unavailable pass_disabled outside_window invalid_pass redis_failed : Error

pub record Booking : Type 0 where
  pub id : ℕ
  pub plan_id : ℕ
  pub user_id : ℕ
  pub status : BookingStatus
  pub price_minor : ℤ
  pub currency : ℕ
  pub idempotency_key : ℕ
  pub created_at : ℕ
  pub updated_at : ℕ
  pub expires_at : Option ℕ
  pub checked_in_at : Option ℕ

-- The columns of `plans` that bookings read or write; `community_id` and `requires_entitlement`
-- are 0 where the column is NULL or empty.
pub record Plan : Type 0 where
  pub id : ℕ
  pub host_id : ℕ
  pub capacity : ℕ
  pub confirmed_count : ℕ
  pub price_minor : ℤ
  pub currency : ℕ
  pub status : PlanStatus
  pub starts_at : ℕ
  pub ends_at : ℕ
  pub join_mode : JoinMode
  pub visibility : Visibility
  pub community_id : ℕ
  pub requires_entitlement : ℕ

-- A row of `plan_participants`; `is_confirmed` is its status column, confirmed or cancelled.
pub record Participant : Type 0 where
  pub plan_id : ℕ
  pub user_id : ℕ
  pub booking_id : ℕ
  pub is_confirmed : Bool
  pub joined_at : ℕ
  pub checked_in_at : Option ℕ

pub record WaitlistEntry : Type 0 where
  pub id : ℕ
  pub plan_id : ℕ
  pub user_id : ℕ
  pub state : WaitlistState
  pub created_at : ℕ
  pub offered_at : Option ℕ
  pub offer_expires_at : Option ℕ
  pub updated_at : ℕ

pub record Checkin : Type 0 where
  pub booking_id : ℕ
  pub checked_in_by : ℕ

-- Rows of `outbox_events`, by event type and payload.
pub data Event : Type 0 where
  booking_confirmed : (booking_id plan_id user_id : ℕ) → Event
  booking_cancelled : (booking_id plan_id user_id reason refund_percent : ℕ) → Event
  plan_completed : (plan_id : ℕ) → Event
  booking_no_show : (booking_id plan_id user_id : ℕ) → Event
  notify_user : (user_id plan_id : ℕ) → Event

-- A call of `notifications.Emit` that tells a host of a new attendee.
pub record Notice : Type 0 where
  pub user_id : ℕ
  pub actor_id : ℕ
  pub target_id : ℕ

-- The tables that the component reads and writes.
pub record Store : Type 0 where
  pub plans : List Plan
  pub bookings : List Booking
  pub participants : List Participant
  pub waitlist : List WaitlistEntry
  pub checkins : List Checkin
  pub invites : List (ℕ × ℕ)
  pub approved_requests : List (ℕ × ℕ)
  pub community_members : List (ℕ × ℕ)
  pub outbox : List Event
  pub notices : List Notice

abbrev pub Outcome : Type 0 → Type 0
Outcome A = Result Error (Store × A)

abbrev pub is_confirmed : BookingStatus → Bool
is_confirmed BookingStatus.confirmed = true
is_confirmed _ = false

abbrev pub is_pending : BookingStatus → Bool
is_pending BookingStatus.payment_pending = true
is_pending _ = false

abbrev pub is_cancelled : BookingStatus → Bool
is_cancelled BookingStatus.cancelled = true
is_cancelled _ = false

abbrev pub is_attended : BookingStatus → Bool
is_attended BookingStatus.attended = true
is_attended _ = false

abbrev pub is_published : PlanStatus → Bool
is_published PlanStatus.published = true
is_published _ = false

abbrev pub is_waiting : WaitlistState → Bool
is_waiting WaitlistState.waiting = true
is_waiting _ = false

abbrev pub is_offered : WaitlistState → Bool
is_offered WaitlistState.offered = true
is_offered _ = false

-- The primary-key lookups `WHERE id = $1`.
abbrev pub plan_key : ℕ → Plan → Bool
plan_key pid p = p.id == pid

abbrev pub booking_key : ℕ → Booking → Bool
booking_key bid b = b.id == bid

unfoldable pub find_plan : ℕ → Store → Option Plan
find_plan pid s = find_where (plan_key pid) s.plans

unfoldable pub find_booking : ℕ → Store → Option Booking
find_booking bid s = find_where (booking_key bid) s.bookings

-- A booking that its owner may use: `plan_id = … AND user_id = … AND status = 'confirmed'`.
abbrev pub is_booked_by : ℕ → ℕ → Booking → Bool
is_booked_by pid uid b = b.plan_id == pid && b.user_id == uid && is_confirmed b.status

-- Payment holds of a user on a plan: `status = 'payment_pending'`.
abbrev pub is_pending_of : ℕ → ℕ → Booking → Bool
is_pending_of pid uid b = b.plan_id == pid && b.user_id == uid && is_pending b.status
