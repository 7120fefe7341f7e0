-- ===== src/Bookings/Create.antt =====
-- Reserving a seat: `activeHolds` (waitlist.go) and `Create`, `seatConfirmedBooking`, `notifyHost`
-- (repository.go). A call is one transaction under the plan's row lock: it returns the new tables,
-- or an error and changes nothing.
use hivemind_backend.Prelude.Int.{is_positive}
use hivemind_backend.Prelude.{
  ℕ, ◌+◌, Bool, true, Option, none, some, List, ◌∷◌, ◌&&◌, ◌||◌, not, ◌==◌, ltb, is_after,
  if◌then◌else◌, count_where, find_where, any_where, update_where, update_first, ok, err, Result,
  ◌>>=◌, ◌>>◌, or_err, guard,
}
use hivemind_backend.Bookings.Types.{
  Booking, BookingStatus, Plan, Participant, WaitlistEntry, WaitlistState, Event, Store, Error,
  Outcome, is_pending, is_published, is_waiting, is_offered, plan_key, find_plan, is_booked_by,
  is_pending_of,
}

-- An unexpired seat offer to someone else.
abbrev pub is_offer_to_other : ℕ → ℕ → ℕ → WaitlistEntry → Bool
is_offer_to_other now pid except e =
    e.plan_id == pid
    && is_offered e.state
    && is_after e.offer_expires_at now
    && not (e.user_id == except)

-- An unexpired payment hold of someone else.
abbrev pub is_hold_of_other : ℕ → ℕ → ℕ → Booking → Bool
is_hold_of_other now pid except b =
    b.plan_id == pid
    && is_pending b.status
    && is_after b.expires_at now
    && not (b.user_id == except)

unfoldable pub active_holds : ℕ → ℕ → ℕ → Store → ℕ
active_holds now pid except s =
    count_where (is_offer_to_other now pid except) s.waitlist
    + count_where (is_hold_of_other now pid except) s.bookings

-- `INSERT … ON CONFLICT (plan_id, user_id) DO UPDATE`: a returning user's row is used again.
abbrev pub is_seat_of : ℕ → ℕ → Participant → Bool
is_seat_of pid uid r = r.plan_id == pid && r.user_id == uid

unfoldable pub upsert_participant : ℕ → Booking → List Participant → List Participant
upsert_participant now b rows =
    if any_where (is_seat_of b.plan_id b.user_id) rows
    then update_first (is_seat_of b.plan_id b.user_id)
        (λ r. record r {
          is_confirmed = true;
          booking_id = b.id;
          joined_at = now;
          checked_in_at = none;
        })
        rows
    else (record {
      plan_id = b.plan_id;
      user_id = b.user_id;
      booking_id = b.id;
      is_confirmed = true;
      joined_at = now;
      checked_in_at = none;
    })
      ∷ rows

-- The user's waitlist entry that a booking consumes.
abbrev pub is_live_entry_of : ℕ → ℕ → WaitlistEntry → Bool
is_live_entry_of pid uid e =
    e.plan_id == pid && e.user_id == uid && (is_waiting e.state || is_offered e.state)

unfoldable pub consume_entry : ℕ → ℕ → ℕ → List WaitlistEntry → List WaitlistEntry
consume_entry now pid uid =
    update_where (is_live_entry_of pid uid)
      (λ e. record e { state = WaitlistState.accepted; updated_at = now })

unfoldable pub take_seat : Plan → Plan
take_seat p = record p { confirmed_count = p.confirmed_count + 1 }

-- `seatConfirmedBooking`
unfoldable pub seat_confirmed_booking : ℕ → Booking → Store → Store
seat_confirmed_booking now b s = record s {
  participants = upsert_participant now b s.participants;
  plans = update_first (plan_key b.plan_id) take_seat s.plans;
  waitlist = consume_entry now b.plan_id b.user_id s.waitlist;
  outbox = Event.booking_confirmed b.id b.plan_id b.user_id ∷ s.outbox;
}

-- `notifyHost`, after the commit: nothing happens if the plan cannot be read.
unfoldable pub notify_host : ℕ → ℕ → Store → Store
notify_host pid attendee s = elim (find_plan pid s) [
  | none ↦ s
  | some p ↦ record s {
    notices = (record { user_id = p.host_id; actor_id = attendee; target_id = pid }) ∷ s.notices;
  }
]

-- 15 minutes, in microseconds.
abbrev pub payment_hold : ℕ
payment_hold = 900_000_000

-- An insert into `bookings`; the column `idempotency_key` is UNIQUE, and '' is stored as NULL.
unfoldable pub insert_booking : Booking → Store → Result Error Store
insert_booking b s =
    if not (b.idempotency_key == 0)
      && any_where (λ r. r.idempotency_key == b.idempotency_key) s.bookings
    then err Error.unique_violation
    else ok (record s { bookings = b ∷ s.bookings })

-- The row that an insert writes for a request.
unfoldable pub new_booking : ℕ → ℕ → Booking → Plan → BookingStatus → Option ℕ → Booking
new_booking now id b p status expires = record {
  id = id;
  plan_id = b.plan_id;
  user_id = b.user_id;
  status = status;
  price_minor = p.price_minor;
  currency = p.currency;
  idempotency_key = b.idempotency_key;
  created_at = now;
  updated_at = now;
  expires_at = expires;
  checked_in_at = none;
}

-- The caller's own payment hold that has not run out.
abbrev pub is_resumable : ℕ → ℕ → ℕ → Booking → Bool
is_resumable now pid uid b = is_pending_of pid uid b && is_after b.expires_at now

unfoldable pub cancel_row : ℕ → Booking → Booking
cancel_row now b = record b { status = BookingStatus.cancelled; updated_at = now }

-- Every payment hold of a user on a plan is cancelled: those left by then have run out.
unfoldable pub cancel_pending_of : ℕ → ℕ → ℕ → Store → Store
cancel_pending_of now pid uid s = record s {
  bookings = update_where (is_pending_of pid uid) (cancel_row now) s.bookings;
}

-- `Create` for a plan whose price is above 0. The booking that is resumed comes back without its idempotency
-- key, which is not read.
unfoldable pub create_paid : ℕ → ℕ → Booking → Plan → Store → Outcome Booking
create_paid now id b p s = elim (find_where (is_resumable now b.plan_id b.user_id) s.bookings) [
  | some resumed ↦ ok (s, record resumed { idempotency_key = 0 })
  | none ↦ do
    let out = new_booking now id b p BookingStatus.payment_pending (some (now + payment_hold))
    s' ← insert_booking out (cancel_pending_of now b.plan_id b.user_id s)
    ok (s', out)
]

-- `Create` for a plan whose price is not above 0.
unfoldable pub create_free : ℕ → ℕ → Booking → Plan → Store → Outcome Booking
create_free now id b p s = do
  let out = new_booking now id b p BookingStatus.confirmed none
  s' ← insert_booking out s
  ok (notify_host b.plan_id b.user_id (seat_confirmed_booking now out s'), out)

-- The tests of `Create` before it writes; they yield the plan.
unfoldable pub admit : ℕ → Booking → Store → Result Error Plan
admit now b s = do
  p ← or_err (find_plan b.plan_id s) Error.plan_not_found
  guard (is_published p.status) Error.plan_not_found
  guard (ltb (p.confirmed_count + active_holds now b.plan_id b.user_id s) p.capacity)
      Error.plan_full
  guard (count_where (is_booked_by b.plan_id b.user_id) s.bookings == 0) Error.already_booked
  ok p

-- `Create`; `id` is the key that the database draws for a new row.
unfoldable pub create : ℕ → ℕ → Booking → Store → Outcome Booking
create now id b s = do
  p ← admit now b s
  if is_positive p.price_minor then create_paid now id b p s else create_free now id b p s
