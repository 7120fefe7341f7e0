-- ===== src/Bookings/Service.antt =====
-- The methods of `bookings.Service` (service.go): input tests, authorization, and the calls of the
-- repository. Redis is not part of the repository: its `SETNX`, with the lock's 24 hours, is a
-- parameter that gives its new state and whether it set the key, or nothing if it failed.
pub mod Rules
pub mod PlanCancelled
use hivemind_backend.Bookings.Create.{create}
use hivemind_backend.Bookings.Lifecycle.{cancel, check_in}
use hivemind_backend.Bookings.Access.{
  is_admin_role, Entitlements, authorize_for_booking, check_access, get_plan_host_id,
}
use hivemind_backend.Bookings.Types.{
  Outcome, redis_failed, Store, Role, is_confirmed, Booking, duplicate_request, Error,
  invalid_input, find_booking, booking_not_found, is_booked_by,
}
use hivemind_backend.Prelude.{
  not, guard, select_where, Bool, Option, find_where, ℕ, Result, or_err, List, ◌>>◌, ◌>>=◌,
  if◌then◌else◌, ◌||◌, ◌&&◌, ◌==◌, ◌∷◌, err, ok, false, true, [], some, none,
}

abbrev pub SetNx : Type 0 → Type 0
SetNx R = ℕ → R → R × Option Bool

-- What Redis answered to a claim of a key.
abbrev pub claimed : Option Bool → Result Error (Unit {0})
claimed none = err Error.redis_failed
claimed (some true) = ok tt
claimed (some false) = err Error.duplicate_request

module _ {R : Type 0} (set_nx : SetNx R) where
  -- `Guard.Reserve`; an empty key opts out.
  unfoldable pub reserve : ℕ → R → R × Result Error (Unit {0})
  reserve key r =
      let answer = set_nx key r in if key == 0 then (r, ok tt) else (answer.0, claimed answer.1)

  -- The end of `CreateBooking`, once access was given.
  unfoldable pub create_reserved : ℕ → ℕ → Booking → Store → R → R × Outcome Booking
  unfolding reserve
  create_reserved now id b s r =
      let held = reserve b.idempotency_key r in (held.0, (held.1 >>= λ _. create now id b s))

  -- `CreateBooking`: a denied request does not use up its key.
  unfoldable pub create_booking : Entitlements → ℕ → ℕ → Booking → Store → R → R × Outcome Booking
  unfolding create_reserved
  create_booking ents now id b s r =
      if b.plan_id == 0 || b.user_id == 0
      then (r, err Error.invalid_input)
      else elim (check_access ents b.plan_id b.user_id s) [
        | err e ↦ (r, err e)
        | ok _ ↦ create_reserved now id b s r
      ]

-- `GetBooking`
unfoldable pub get_booking : ℕ → Store → Result Error Booking
get_booking bid s = do
  guard (not (bid == 0)) Error.invalid_input
  or_err (find_booking bid s) Error.booking_not_found

-- `GetBookingAsUser`
unfoldable pub get_booking_as_user : ℕ → ℕ → Role → Store → Result Error Booking
get_booking_as_user bid caller role s = do
  b ← get_booking bid s
  authorize_for_booking b caller role s
  ok b

-- `CancelBookingAsUser`
unfoldable pub cancel_booking_as_user : ℕ → ℕ → ℕ → Role → ℕ → Store → Outcome Booking
cancel_booking_as_user now bid caller role reason s = do
  guard (not (bid == 0 || caller == 0)) Error.invalid_input
  b ← get_booking bid s
  authorize_for_booking b caller role s
  cancel now bid reason false s

-- `CheckIn` of the service
unfoldable pub check_in_as : ℕ → ℕ → ℕ → Role → Store → Outcome Booking
check_in_as now bid caller role s = do
  guard (not (bid == 0 || caller == 0)) Error.invalid_input
  b ← get_booking bid s
  if is_admin_role role
      then ok tt
      else (get_plan_host_id b.plan_id s >>= λ host. guard (host == caller) Error.forbidden)
  check_in now bid caller s

-- `CancelBookingForPlan`
unfoldable pub cancel_booking_for_plan : ℕ → ℕ → ℕ → ℕ → Store → Outcome Booking
cancel_booking_for_plan now pid uid reason s = do
  b ← or_err (find_where (is_booked_by pid uid) s.bookings) Error.booking_not_found
  guard (not (b.id == 0)) Error.invalid_input
  cancel now b.id reason false s

-- The loop of `CancelAllForPlan`: each cancellation is a transaction, and an error stops the loop.
unfoldable pub cancel_each : ℕ → ℕ → List Booking → Store → Store × Option Error
cancel_each now reason [] s = (s, none)
cancel_each now reason (b ∷ bs) s = elim (cancel now b.id reason true s) [
  | ok (t, _) ↦ cancel_each now reason bs t
  | err e ↦ (s, some e)
]

abbrev pub is_confirmed_of : ℕ → Booking → Bool
is_confirmed_of pid b = b.plan_id == pid && is_confirmed b.status

-- `CancelAllForPlan`
unfoldable pub cancel_all_for_plan : ℕ → ℕ → ℕ → Store → Store × Option Error
cancel_all_for_plan now pid reason s =
    cancel_each now reason (select_where (is_confirmed_of pid) s.bookings) s
