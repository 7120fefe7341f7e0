-- ===== src/Payments/Settlement/Port.antt =====
-- `BookingPort` as internal/bookings fills it, through the adapter (`AdaptBookings`).
use hivemind_backend.Payments.Refunds.{Answer}
use hivemind_backend.Payments.Settlement.Replay.{capture-ok}
use hivemind_backend.Payments.Capture.{find_order}
use hivemind_backend.Bookings.Quote.{get_booking_charge}
use hivemind_backend.Payments.Settlement.{capture, BookingPort}
use hivemind_backend.Bookings.Types.{is_attended, Booking, find_booking, is_confirmed, Store, Error}
use hivemind_backend.Bookings.Confirmation.{confirm_paid-confirmed, confirm_paid_twice}
use hivemind_backend.Bookings.Lifecycle.{confirm_paid}
use hivemind_backend.Payments.Types.{Payment, Order, Money, PayError}
use hivemind_backend.Prelude.{
  Option, ◌⊎◌, true, some, ◌>>◌, not, guard, arith, ap, Result, Bool-cases, ◌≡◌, ◌==◌, err, ok, inr,
  inl, ℕ,
}

-- `ConfirmPaidBooking` of the bookings service.
unfoldable pub confirm_paid_booking : ℕ → ℕ → Store → Result Error Store
confirm_paid_booking now bid s =
    guard (not (bid == 0)) Error.invalid_input >> confirm_paid now bid s

-- The errors of bookings as payments sees them: a full plan is a seat that is gone.
abbrev pub adapt_error : Error → PayError
adapt_error Error.plan_full = PayError.seat_gone
adapt_error _ = PayError.booking_failed

abbrev pub adapt : {A : Type 0} → Result Error A → Result PayError A
adapt (ok a) = ok a
adapt (err e) = err (adapt_error e)

pub adapt-ok : {A : Type 0} (r : Result Error A) (a : A) → adapt r ≡ ok a → r ≡ ok a
adapt-ok (ok b) a h = ground arith
adapt-ok (err e) a h = absurd (ground arith)

pub confirm_paid_booking_twice :
    (now later bid : ℕ) (s t : Store)
    → confirm_paid_booking now bid s ≡ ok t
    → confirm_paid_booking later bid t ≡ ok t
unfolding confirm_paid_booking
confirm_paid_booking_twice now later bid s t h = elim (Bool-cases (bid == 0)) [
  | inl e ↦ absurd (ground arith)
  | inr e ↦ rw e (confirm_paid_twice now later bid s t (ground arith))
]

-- The bookings component as payments uses it.
unfoldable pub bookings_port : BookingPort Store
bookings_port = record {
  charge = λ bid s. adapt (get_booking_charge bid s);
  confirm = λ now bid s. adapt (confirm_paid_booking now bid s);
  confirm_again = λ now later bid s t h. ap adapt (
      confirm_paid_booking_twice now later bid s t (adapt-ok (confirm_paid_booking now bid s) t h));
}

-- A captured payment buys the seat: with the bookings component behind the port, a capture of an
-- order that returned leaves the order's booking confirmed, or attended where it was already.
pub capture-confirms :
    (gateway : Option Answer) (rid now pid oid gid amount : ℕ) (m n : Money) (s t : Store)
    (p : Payment)
    → capture bookings_port gateway rid now pid oid gid amount m s ≡ ((n, t), ok p)
    → (o : Order) × (find_order oid m ≡ ok o)
      × ((b : Booking) × (find_booking o.booking_id t ≡ some b)
          × ((is_confirmed b.status ≡ true) ⊎ (is_attended b.status ≡ true)))
unfolding bookings_port confirm_paid_booking
capture-confirms gateway rid now pid oid gid amount m n s t p h =
    let (o, found, _, confirmed) =
      capture-ok bookings_port gateway rid now pid oid gid amount m n s t p h in
    let done = adapt-ok (confirm_paid_booking now o.booking_id s) t confirmed in
    (o, found, confirm_paid-confirmed now o.booking_id s t (ground arith))
