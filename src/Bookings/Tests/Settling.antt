-- ===== src/Bookings/Tests/Settling.antt =====
-- The theorems on seats and bookings, applied to the tables of Tests.antt.
use hivemind_backend.Prelude.Int.{is_positive}
use hivemind_backend.Bookings.Seats.{WellFormed}
use hivemind_backend.Bookings.Confirmation.{confirm_paid_twice}
use hivemind_backend.Bookings.Tests.{
  plan, held, seated, tables, settled, done, booking, tables-WellFormed,
}
use hivemind_backend.Bookings.Waitlist.{offer_freed_seats}
use hivemind_backend.Bookings.Seats.Invariant.{run-WellFormed}
use hivemind_backend.Bookings.Confirmation.Gaps.{confirm_paid-after-cancel, confirm_locked_race}
use hivemind_backend.Bookings.History.{sweeps, creates, cancels, confirms, run, Call, checks_in}
use hivemind_backend.Bookings.Create.{
  admit, create, new_booking, upsert_participant, insert_booking, active_holds, create_paid,
  take_seat, create_free, consume_entry, notify_host, seat_confirmed_booking, cancel_row,
}
use hivemind_backend.Bookings.Outcomes.{Answers, create-exclusive, create-outcome}
use hivemind_backend.Bookings.Cancellation.{SeatGivenUp, cancel-confirmed}
use hivemind_backend.Bookings.Lifecycle.{
  cancel, attend_row, cancel_seated, release_seat, cancel_participants, confirm_read, with_bookings,
  confirm_row, confirm_paid, check_in, confirm_locked,
}
use hivemind_backend.Bookings.Types.{
  is_booked_by, find_plan, is_pending, is_confirmed, find_booking, Store, Booking, BookingStatus,
  Plan,
}
use hivemind_backend.Prelude.{
  arith, List, find_where, update_where, is_after, update_first, count_where, any_where, ◌⊎◌, ◌≡◌,
  ◌∷◌, ok, false, true, [], some, none, refl, ℕ,
}

abbrev pub history : List (ℕ × Call)
history =
    (10, confirms 2)
    ∷ (11, cancels 3 0 false)
    ∷ (12, creates 7 (booking 0 1 6 BookingStatus.initiated 0 none))
    ∷ (13, checks_in 7 9)
    ∷ (60, sweeps)
    ∷ []

run-WellFormed_example : WellFormed (run tables history)
run-WellFormed_example = run-WellFormed tables history tables-WellFormed

abbrev pub request : Booking
request = booking 0 1 6 BookingStatus.initiated 0 none

abbrev pub made : Store × Booking
made = done (tables, seated) (create 10 7 request tables)

create-exclusive_example : count_where (is_booked_by 1 6) made.0.bookings ≡ 1
unfolding create admit create_free insert_booking new_booking seat_confirmed_booking notify_host
    find_plan find_where count_where any_where active_holds
create-exclusive_example = create-exclusive 10 7 request tables made.0 made.1 refl refl

create-outcome_example :
    (p : Plan) × (find_plan 1 tables ≡ some p)
    × Answers request made.1
    × (((is_positive p.price_minor ≡ false)
          × (made.1.price_minor ≡ p.price_minor)
          × (is_confirmed made.1.status ≡ true))
        ⊎ ((is_positive p.price_minor ≡ true)
            × (is_pending made.1.status ≡ true)
            × (is_after made.1.expires_at 10 ≡ true)))
unfolding create admit create_free insert_booking new_booking seat_confirmed_booking notify_host
    find_plan find_where count_where any_where active_holds
create-outcome_example = create-outcome 10 7 request tables made.0 made.1 refl

abbrev paid : Store
paid = settled (confirm_paid 10 2 tables)

confirm_paid_twice_example : confirm_paid 20 2 paid ≡ ok paid
unfolding create admit create_free create_paid insert_booking new_booking seat_confirmed_booking
    notify_host find_plan find_booking find_where count_where any_where active_holds update_first
    update_where confirm_paid confirm_read confirm_locked confirm_row take_seat upsert_participant
    consume_entry cancel cancel_row cancel_seated offer_freed_seats with_bookings release_seat
    cancel_participants check_in attend_row
confirm_paid_twice_example = confirm_paid_twice 10 20 2 tables paid refl

confirm_locked_race_example : ¬ WellFormed (settled (confirm_locked 60 held paid))
unfolding create admit create_free create_paid insert_booking new_booking seat_confirmed_booking
    notify_host find_plan find_booking find_where count_where any_where active_holds update_first
    update_where confirm_paid confirm_read confirm_locked confirm_row take_seat upsert_participant
    consume_entry cancel cancel_row cancel_seated offer_freed_seats with_bookings release_seat
    cancel_participants check_in attend_row
confirm_locked_race_example =
    confirm_locked_race 10 60 held tables paid (settled (confirm_locked 60 held paid))
      tables-WellFormed refl refl refl refl

abbrev dropped : Store × Booking
dropped = done (tables, seated) (cancel 10 2 0 false tables)

confirm_paid-after-cancel_example :
    (u : Store) × (confirm_paid 60 2 dropped.0 ≡ ok u)
    × (find_booking 2 u ≡ some (confirm_row 60 dropped.1))
unfolding create admit create_free create_paid insert_booking new_booking seat_confirmed_booking
    notify_host find_plan find_booking find_where count_where any_where active_holds update_first
    update_where confirm_paid confirm_read confirm_locked confirm_row take_seat upsert_participant
    consume_entry cancel cancel_row cancel_seated offer_freed_seats with_bookings release_seat
    cancel_participants check_in attend_row
confirm_paid-after-cancel_example =
    confirm_paid-after-cancel 10 60 2 0 false tables dropped.0 dropped.1 (plan 2 2 0 50_000) refl
      refl refl (ground arith)

abbrev given_up : Store × Booking
given_up = done (tables, seated) (cancel 10 1 0 false tables)

cancel-confirmed_example : SeatGivenUp 10 0 false seated tables given_up.0
unfolding create admit create_free create_paid insert_booking new_booking seat_confirmed_booking
    notify_host find_plan find_booking find_where count_where any_where active_holds update_first
    update_where confirm_paid confirm_read confirm_locked confirm_row take_seat upsert_participant
    consume_entry cancel cancel_row cancel_seated offer_freed_seats with_bookings release_seat
    cancel_participants check_in attend_row
cancel-confirmed_example =
    cancel-confirmed 10 1 0 false seated tables given_up.0 given_up.1 tables-WellFormed refl refl
      refl

abbrev admitted : Store × Booking
admitted = done (tables, seated) (check_in 10 1 9 tables)
