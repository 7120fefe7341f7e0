-- ===== src/Plans/Types.antt =====
-- The rows and errors of internal/plans. Texts are numbers and 0 is the empty text or NULL; a title
-- is a number, too.
use hivemind_backend.Prelude.Int.{ℤ}
use hivemind_backend.Prelude.{ℕ, Bool, ◌==◌, Option, List}
use hivemind_backend.Bookings.Types.{PlanStatus, JoinMode}

-- `Rule.Freq`
pub data Freq : Type 0 where
  daily weekly monthly : Freq

-- A part KEY=VALUE of a recurrence rule, with the value that the library read in it, or a part that
-- is not one.
pub data Part : Type 0 where
  freq_part : Option Freq → Part
  interval_part count_part until_part : (read : Option ℕ) → Part
  other_part : Part

-- The enum `plan_visibility`.
pub data PlanVisibility : Type 0 where
  public private community : PlanVisibility

-- The enum `join_request_status`.
pub data RequestStatus : Type 0 where
  pending approved rejected cancelled : RequestStatus

pub data PlanError : Type 0 where
  invalid_input forbidden plan_not_found request_not_found already_decided : PlanError
  bad_recurrence media_unavailable : PlanError

-- The columns of `plans` that this component writes.
pub record PlanRow : Type 0 where
  pub id : ℕ
  pub title : ℕ
  pub host_id : ℕ
  pub starts_at : ℕ
  pub ends_at : ℕ
  pub capacity : ℕ
  pub price_minor : ℤ
  pub currency : ℕ
  pub status : PlanStatus
  pub join_mode : JoinMode
  pub visibility : PlanVisibility
  pub community_id : ℕ
  pub requires_entitlement : ℕ
  pub series_id : ℕ

-- A row of `plan_recurrences`; `rule` is the text of the rule, split into its parts.
pub record Recurrence : Type 0 where
  pub plan_id : ℕ
  pub rule : List Part
  pub active : Bool
  pub ended_before : Option ℕ

pub record JoinRequest : Type 0 where
  pub id : ℕ
  pub plan_id : ℕ
  pub user_id : ℕ
  pub status : RequestStatus
  pub message : ℕ
  pub decided_by : ℕ

-- What goes into the outbox.
pub data PlanNews : Type 0 where
  plan_cancelled : (plan_id reason : ℕ) → PlanNews
  tell_user : (user_id plan_id : ℕ) → PlanNews

-- The tables; an event is a community and a plan, an invite or a save a plan and a user.
pub record Schedule : Type 0 where
  pub plans : List PlanRow
  pub recurrences : List Recurrence
  pub community_events : List (ℕ × ℕ)
  pub requests : List JoinRequest
  pub invites : List (ℕ × ℕ)
  pub saves : List (ℕ × ℕ)
  pub users : List ℕ
  pub news : List PlanNews

abbrev pub row_key : ℕ → PlanRow → Bool
row_key id p = p.id == id
