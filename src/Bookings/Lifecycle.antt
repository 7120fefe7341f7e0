-- ===== src/Bookings/Lifecycle.antt =====
-- What becomes of a booking: `ConfirmPaid`, `ExpirePending`, `Cancel` and `CheckIn` (repository.go),
-- `CompleteEndedPlans` and `MarkNoShows` (lifecycle.go).
use hivemind_backend.Prelude.{
  ℕ, ◌+◌, ◌-◌, Bool, false, Option, none, some, List, [], ◌∷◌, ◌&&◌, ◌||◌, ◌==◌, ltb, leb,
  if◌then◌else◌, length, any_where, select_where, update_where, update_first, ok, err, Result,
  ◌>>=◌, ◌>>◌, or_err, guard,
}
use hivemind_backend.Bookings.Types.{
  Booking, BookingStatus, Plan, PlanStatus, Participant, Event, Store, Error, Outcome, is_pending,
  is_confirmed, is_published, plan_key, booking_key, find_plan, find_booking,
}
use hivemind_backend.Bookings.Create.{active_holds, seat_confirmed_booking, notify_host, cancel_row}
use hivemind_backend.Bookings.Waitlist.{offer_freed_seats}

-- `ConfirmPaid` up to the plan's lock. The row is read without a lock of its own: `none` says that
-- there is nothing left to do.
unfoldable pub confirm_read : ℕ → Store → Result Error (Option Booking)
confirm_read bid s = do
  b ← or_err (find_booking bid s) Error.booking_not_found
  elim b.status [
    | BookingStatus.confirmed ↦ ok none
    | BookingStatus.attended ↦ ok none
    | BookingStatus.payment_pending ↦ ok (some b)
    | BookingStatus.cancelled ↦ ok (some b)
    | _ ↦ err Error.booking_not_found
  ]

unfoldable pub confirm_row : ℕ → Booking → Booking
confirm_row now b = record b {
  status = BookingStatus.confirmed;
  expires_at = none;
  updated_at = now;
}

-- `ConfirmPaid` from the plan's lock on, with the row that was read before.
unfoldable pub confirm_locked : ℕ → Booking → Store → Result Error Store
confirm_locked now b s = do
  p ← or_err (find_plan b.plan_id s) Error.plan_not_found
  guard
      (is_published p.status
        && ltb (p.confirmed_count + active_holds now b.plan_id b.user_id s) p.capacity)
      Error.plan_full
  let paid = record s { bookings = update_first (booking_key b.id) (confirm_row now) s.bookings }
  ok (notify_host b.plan_id b.user_id (seat_confirmed_booking now b paid))

-- `ConfirmPaid`
unfoldable pub confirm_paid : ℕ → ℕ → Store → Result Error Store
confirm_paid now bid s = do
  seen ← confirm_read bid s
  elim seen [ none ↦ ok s | some b ↦ confirm_locked now b s ]

-- A hold whose payment never came: `expires_at <= now`.
abbrev pub is_overdue : ℕ → Booking → Bool
is_overdue now b = elim b.expires_at [ none ↦ false | some t ↦ is_pending b.status && leb t now ]

-- `ExpirePending`: the tables and the number of bookings cancelled.
unfoldable pub expire_pending : ℕ → Store → Store × ℕ
expire_pending now s = (
  record s { bookings = update_where (is_overdue now) (cancel_row now) s.bookings },
  length (select_where (is_overdue now) s.bookings),
)

-- `RefundFullHours`, 24 hours in microseconds.
abbrev pub refund_full_window : ℕ
refund_full_window = 86_400_000_000

-- `RefundPercent`
unfoldable pub refund_percent : ℕ → ℕ → Bool → ℕ
refund_percent starts now by_host =
    if by_host || leb (now + refund_full_window) starts then 100 else 0

-- `confirmed_count - 1`; the count is not 0 where a booking is confirmed (Seats.antt).
unfoldable pub release_seat : Plan → Plan
release_seat p = record p { confirmed_count = p.confirmed_count - 1 }

unfoldable pub cancel_participants : ℕ → List Participant → List Participant
cancel_participants bid =
    update_where (λ r. r.booking_id == bid) (λ r. record r { is_confirmed = false })

unfoldable pub with_bookings : List Booking → Store → Store
with_bookings bs s = record s { bookings = bs }

-- The part of `Cancel` for a booking that held a seat; `b` is the row as updated.
unfoldable pub cancel_seated : ℕ → Booking → ℕ → Bool → Store → Result Error Store
cancel_seated now b reason by_host s = do
  p ← or_err (find_plan b.plan_id s) Error.plan_not_found
  s' ← offer_freed_seats now b.plan_id (record s {
    plans = update_first (plan_key b.plan_id) release_seat s.plans;
    participants = cancel_participants b.id s.participants;
  })
  ok (record s' {
    outbox =
        Event.booking_cancelled b.id b.plan_id b.user_id reason
          (refund_percent p.starts_at now by_host)
        ∷ s'.outbox;
  })

-- `Cancel`
unfoldable pub cancel : ℕ → ℕ → ℕ → Bool → Store → Outcome Booking
cancel now bid reason by_host s = do
  b ← or_err (find_booking bid s) Error.booking_not_found
  guard (is_confirmed b.status || is_pending b.status) Error.booking_not_found
  let out = cancel_row now b
  let s' = with_bookings (update_first (booking_key bid) (cancel_row now) s.bookings) s
  if is_pending b.status
      then ok (s', out)
      else (cancel_seated now out reason by_host s' >>= λ t. ok (t, out))

unfoldable pub attend_row : ℕ → Booking → Booking
attend_row now b = record b {
  status = BookingStatus.attended;
  checked_in_at = some now;
  updated_at = now;
}

-- `CheckIn`
unfoldable pub check_in : ℕ → ℕ → ℕ → Store → Outcome Booking
check_in now bid by s = do
  b ← or_err (find_booking bid s) Error.booking_not_found
  guard (is_confirmed b.status) Error.booking_not_found
  ok (
    record s {
      bookings = update_first (booking_key bid) (attend_row now) s.bookings;
      checkins = (record { booking_id = bid; checked_in_by = by }) ∷ s.checkins;
      participants =
          update_where (λ r. r.booking_id == bid) (λ r. record r { checked_in_at = some now })
            s.participants;
    },
    attend_row now b,
  )

-- A published plan with a valid end that has passed.
abbrev pub has_ended : ℕ → Plan → Bool
has_ended now p = is_published p.status && ltb p.starts_at p.ends_at && ltb p.ends_at now

unfoldable pub complete_plan : Plan → Plan
complete_plan p = record p { status = PlanStatus.completed }

unfoldable pub enqueue_completed : List Plan → List Event → List Event
enqueue_completed [] box = box
enqueue_completed (p ∷ ps) box = enqueue_completed ps (Event.plan_completed p.id ∷ box)

-- `CompleteEndedPlans`: the tables and the number of plans completed.
unfoldable pub complete_ended_plans : ℕ → Store → Store × ℕ
complete_ended_plans now s =
    let ended = select_where (has_ended now) s.plans in
    (
      record s {
        plans = update_where (has_ended now) complete_plan s.plans;
        outbox = enqueue_completed ended s.outbox;
      },
      length ended,
    )

-- `noShowGrace`, 2 hours in microseconds.
abbrev pub no_show_grace : ℕ
no_show_grace = 7_200_000_000

-- Whether the host scanned anyone: a check-in of a booking of the plan.
unfoldable pub used_check_in : ℕ → Store → Bool
used_check_in pid s =
    any_where (λ c. any_where (λ b. b.id == c.booking_id && b.plan_id == pid) s.bookings) s.checkins

abbrev pub lets_no_show : ℕ → Store → Plan → Bool
lets_no_show now s p =
    ltb p.starts_at p.ends_at && ltb (p.ends_at + no_show_grace) now && used_check_in p.id s

unfoldable pub is_no_show : ℕ → Store → Booking → Bool
is_no_show now s b = elim (find_plan b.plan_id s) [
  | none ↦ false
  | some p ↦ is_confirmed b.status && lets_no_show now s p
]

unfoldable pub no_show_row : ℕ → Booking → Booking
no_show_row now b = record b { status = BookingStatus.no_show; updated_at = now }

unfoldable pub enqueue_no_shows : List Booking → List Event → List Event
enqueue_no_shows [] box = box
enqueue_no_shows (b ∷ bs) box =
    enqueue_no_shows bs (Event.booking_no_show b.id b.plan_id b.user_id ∷ box)

-- `MarkNoShows`: the tables and the number of bookings marked.
unfoldable pub mark_no_shows : ℕ → Store → Store × ℕ
mark_no_shows now s =
    let marked = select_where (is_no_show now s) s.bookings in
    (
      record s {
        bookings = update_where (is_no_show now s) (no_show_row now) s.bookings;
        outbox = enqueue_no_shows marked s.outbox;
      },
      length marked,
    )
