-- ===== src/Bookings/Tests/Serving.antt =====
-- The theorems on access, quotes, passes and the service, applied to the tables of Tests.antt.
use hivemind_backend.Prelude.Int.{pos}
use hivemind_backend.Bookings.Tests.{seated, done, tables, booking}
use hivemind_backend.Bookings.Waitlist.{offer_for, offer_freed_seats, first_waiting, offer_seats}
use hivemind_backend.Bookings.Lifecycle.{
  cancel, with_bookings, cancel_seated, attend_row, release_seat, check_in, cancel_participants,
}
use hivemind_backend.Bookings.Types.{
  is_attended, find_plan, find_booking, Role, Store, BookingStatus, Booking, JoinMode, Visibility,
}
use hivemind_backend.Bookings.Quote.{Quote, quote_booking, is_eligible, service_fee}
use hivemind_backend.Bookings.Create.{
  admit, create, cancel_row, cancel_pending_of, active_holds, create_paid, create_free, new_booking,
  insert_booking,
}
use hivemind_backend.Bookings.Access.{
  check_access, get_plan_access, guest_allowed, authorize_for_booking, PlanAccess, is_admin_role,
  get_plan_host_id,
}
use hivemind_backend.Bookings.Service.PlanCancelled.{IsCancelled, cancel_all_for_plan-IsCancelled}
use hivemind_backend.Bookings.Pass.{
  IsInTime, IsSignature, scan_pass_once, in_window, get_pass_info, scan_pass, plan_end, PassInfo,
  get_pass,
}
use hivemind_backend.Bookings.Service.{
  reserve, SetNx, is_confirmed_of, cancel_all_for_plan, create_booking, cancel_each,
  create_reserved, get_booking, cancel_booking_as_user,
}
use hivemind_backend.Prelude.{
  arith, update_where, select_where, find_where, count_where, All, any_where, List, update_first,
  if◌then◌else◌, ◌⊎◌, ◌≡◌, ◌==◌, ◌∷◌, ok, false, true, some, none, refl, ℕ,
}

abbrev paid_request : Booking
paid_request = booking 0 2 4 BookingStatus.initiated 0 none

abbrev quoted : Quote
quoted = record {
  price_minor = pos 50_000;
  service_fee_minor = pos 2_500;
  total_minor = pos 52_500;
  currency = 1;
  eligible = false;
  refund_full_until = some 113_600_000_000;
  refund_full_hours = 24;
}

abbrev shown : PassInfo
shown = record {
  booking_id = 1;
  plan_id = 1;
  user_id = 5;
  status = BookingStatus.confirmed;
  starts_at = 200_000_000_000;
  ends_at = 210_000_000_000;
  host_id = 9;
}

abbrev scanned : Store × Booking
scanned =
    done (tables, seated)
      (scan_pass (λ payload now. some payload) true 200_000_000_000 1 9 Role.user tables)

by_payload : IsSignature (λ payload now. some payload)
by_payload payload t u b c h k = ground arith

scan_pass_once_example :
    ((bid : ℕ) × (i : PassInfo) × (some 1 ≡ some bid)
      × (scanned.1.id ≡ bid)
      × (is_attended scanned.1.status ≡ true)
      × (get_pass_info bid tables ≡ ok i)
      × ((i.host_id ≡ 9) ⊎ (is_admin_role Role.user ≡ true))
      × IsInTime 200_000_000_000 i)
    × ¬ (
        scan_pass (λ payload now. some payload) true 200_000_000_001 1 9 Role.user scanned.0
        ≡ ok (tables, seated))
unfolding find_plan find_booking find_where count_where any_where active_holds update_first
    update_where create admit create_free create_paid insert_booking new_booking cancel_pending_of
    cancel_row cancel cancel_seated offer_freed_seats offer_for offer_seats first_waiting
    with_bookings release_seat cancel_participants quote_booking service_fee is_eligible get_pass
    get_pass_info plan_end scan_pass in_window check_in attend_row check_access get_plan_access
    guest_allowed create_booking create_reserved reserve cancel_booking_as_user get_booking
    authorize_for_booking get_plan_host_id cancel_all_for_plan cancel_each select_where
scan_pass_once_example =
    scan_pass_once (λ payload now. some payload) true true 200_000_000_000 200_000_000_001 1 9 9
      Role.user Role.user tables scanned.0 tables scanned.1 seated by_payload refl

abbrev rules : PlanAccess
rules = record {
  join_mode = JoinMode.approval;
  visibility = Visibility.community;
  requires_entitlement = 0;
  host_id = 9;
  invited = false;
  approved = true;
  community_member = true;
}

-- Redis as the keys that are set.
abbrev set_key : SetNx (List ℕ)
set_key key r = if any_where (λ k. k == key) r then (r, some false) else (key ∷ r, some true)

set_key_again : (key : ℕ) (r : List ℕ) → (set_key key (set_key key r).0).1 ≡ some false
unfolding any_where
set_key_again key r = ground arith

abbrev keyed : Booking
keyed = record (booking 0 1 6 BookingStatus.initiated 0 none) { idempotency_key = 77 }

abbrev called_off : Store × Booking
called_off = done (tables, seated) (cancel_booking_as_user 10 1 9 Role.host 0 tables)

abbrev emptied : Store
emptied = (cancel_all_for_plan 10 1 0 tables).0

cancel_all_for_plan-IsCancelled_example :
    All (λ b. IsCancelled emptied b.id) (select_where (is_confirmed_of 1) tables.bookings)
unfolding find_plan find_booking find_where count_where any_where active_holds update_first
    update_where create admit create_free create_paid insert_booking new_booking cancel_pending_of
    cancel_row cancel cancel_seated offer_freed_seats offer_for offer_seats first_waiting
    with_bookings release_seat cancel_participants quote_booking service_fee is_eligible get_pass
    get_pass_info plan_end scan_pass in_window check_in attend_row check_access get_plan_access
    guest_allowed create_booking create_reserved reserve cancel_booking_as_user get_booking
    authorize_for_booking get_plan_host_id cancel_all_for_plan cancel_each select_where
cancel_all_for_plan-IsCancelled_example = cancel_all_for_plan-IsCancelled 10 1 0 tables emptied refl
