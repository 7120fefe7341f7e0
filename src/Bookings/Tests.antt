-- ===== src/Bookings/Tests.antt =====
-- A small set of tables of internal/bookings, on which the theorems are applied: plan 1 is free
-- with a seat left, plan 2 has a price, and plan 3 is full and has a queue.
mod Settling
mod Queueing
mod Serving
use hivemind_backend.Prelude.Int.{pos}
use hivemind_backend.Bookings.Seats.Invariant.{run-WellFormed}
use hivemind_backend.Bookings.Outcomes.{create-exclusive, Answers, create-outcome}
use hivemind_backend.Bookings.Create.{
  admit, create, seat_confirmed_booking, active_holds, create_free, insert_booking, new_booking,
  notify_host,
}
use hivemind_backend.Bookings.Seats.{WellFormed}
use hivemind_backend.Bookings.History.{sweeps, creates, cancels, confirms, run, Call, checks_in}
use hivemind_backend.Prelude.{
  arith, after, Option, Result, is_after, ℕ, List, count_where, find_where, any_where, ◌⊎◌, ◌≡◌,
  ◌<◌, ◌∷◌, err, ok, false, true, [], some, none, refl,
}
use hivemind_backend.Bookings.Types.{
  payment_pending, open_join, Error, is_confirmed, is_pending, is_booked_by, find_plan, Booking,
  BookingStatus, Plan, PlanStatus, WaitlistEntry, WaitlistState, JoinMode, Visibility, Store,
}

abbrev pub plan : ℕ → ℕ → ℕ → ℕ → Plan
plan pid capacity count price = record {
  id = pid;
  host_id = 9;
  capacity = capacity;
  confirmed_count = count;
  price_minor = pos price;
  currency = 1;
  status = PlanStatus.published;
  starts_at = 200_000_000_000;
  ends_at = 210_000_000_000;
  join_mode = JoinMode.open_join;
  visibility = Visibility.everyone;
  community_id = 0;
  requires_entitlement = 0;
}

abbrev pub booking : ℕ → ℕ → ℕ → BookingStatus → ℕ → Option ℕ → Booking
booking bid pid uid status price expires = record {
  id = bid;
  plan_id = pid;
  user_id = uid;
  status = status;
  price_minor = pos price;
  currency = 1;
  idempotency_key = 0;
  created_at = 1;
  updated_at = 1;
  expires_at = expires;
  checked_in_at = none;
}

abbrev pub entry : ℕ → ℕ → ℕ → WaitlistState → Option ℕ → WaitlistEntry
entry id pid uid state expires = record {
  id = id;
  plan_id = pid;
  user_id = uid;
  state = state;
  created_at = id;
  offered_at = none;
  offer_expires_at = expires;
  updated_at = 1;
}

abbrev pub queue : List WaitlistEntry
queue =
    entry 2 3 4 WaitlistState.waiting none
    ∷ entry 1 3 8 WaitlistState.waiting none
    ∷ entry 3 2 3 WaitlistState.offered (some 50)
    ∷ []

-- The payment hold of user 6 on plan 2.
abbrev pub held : Booking
held = booking 2 2 6 BookingStatus.payment_pending 50_000 (some 1_000)

abbrev pub seated : Booking
seated = booking 1 1 5 BookingStatus.confirmed 0 none

abbrev pub tables : Store
tables = record {
  plans = plan 1 2 1 0 ∷ plan 2 2 0 50_000 ∷ plan 3 1 1 0 ∷ [];
  bookings = seated ∷ held ∷ booking 3 3 7 BookingStatus.confirmed 0 none ∷ [];
  participants = [];
  waitlist = queue;
  checkins = [];
  invites = [];
  approved_requests = [];
  community_members = [];
  outbox = [];
  notices = [];
}

pub tables-WellFormed : WellFormed tables
unfolding find_plan find_where count_where
tables-WellFormed = record { agrees = λ pid. ground arith }

-- The result of a call that is known to succeed.
abbrev pub done : {A : Type 0} → Store × A → Result Error (Store × A) → Store × A
done d (ok r) = r
done d (err e) = d

abbrev pub settled : Result Error Store → Store
settled r = after tables r
