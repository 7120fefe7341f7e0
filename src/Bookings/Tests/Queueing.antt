-- ===== src/Bookings/Tests/Queueing.antt =====
-- The theorems on the waitlist, applied to the tables of Tests.antt.
use hivemind_backend.Bookings.Tests.{plan, queue, tables, settled}
use hivemind_backend.Bookings.Waitlist.Queue.{IsBehind, offer_seats_fifo}
use hivemind_backend.Bookings.Waitlist.{
  requeue, offer_for, join_queue, join_waitlist, free_seats, offer_freed_seats, make_offer,
  first_waiting, enqueue_offers, queue_up, view_entry, offer_seats, leave_waitlist, waitlist_status,
}
use hivemind_backend.Bookings.Types.{find_plan, find_booking, Store}
use hivemind_backend.Bookings.Create.{active_holds}
use hivemind_backend.Bookings.Waitlist.Offers.{offer_freed_seats_fills, offer_freed_seats_fits}
use hivemind_backend.Prelude.{
  arith, first, update_where, find_where, count_where, All, any_where, map_ok, update_first, ◌⊎◌,
  ◌≡◌, ◌≤◌, ◌+◌, ◌∷◌, [], none, refl, ℕ,
}

-- The full plan after a seat fell free.
abbrev freed : Store
freed = record tables { plans = plan 3 2 1 0 ∷ [] }

abbrev refilled : Store
refilled = settled (offer_freed_seats 10 3 freed)

offer_seats_fifo_example :
    All (λ e. All (IsBehind 3 e) (offer_seats 1 10 3 queue).0) (offer_seats 1 10 3 queue).1
offer_seats_fifo_example = offer_seats_fifo 1 10 3 queue

offer_freed_seats_fits_example : 1 + active_holds 10 3 0 refilled ≤ 2
unfolding find_plan find_booking find_where count_where any_where active_holds update_first
    update_where offer_freed_seats offer_for offer_seats first_waiting make_offer free_seats
    enqueue_offers leave_waitlist join_waitlist join_queue queue_up requeue waitlist_status
    view_entry
offer_freed_seats_fits_example =
    offer_freed_seats_fits 10 3 freed refilled (plan 3 2 1 0) refl (ground arith) refl

offer_freed_seats_fills_example :
    (first_waiting 3 refilled.waitlist ≡ none) ⊎ (2 ≤ 1 + active_holds 10 3 0 refilled)
unfolding find_plan find_booking find_where count_where any_where active_holds update_first
    update_where offer_freed_seats offer_for offer_seats first_waiting make_offer free_seats
    enqueue_offers leave_waitlist join_waitlist join_queue queue_up requeue waitlist_status
    view_entry
offer_freed_seats_fills_example =
    offer_freed_seats_fills 10 3 freed refilled (plan 3 2 1 0) (refl, (refl, (refl, tt))) refl refl
      (ground arith) refl

abbrev deserted : Store
deserted = settled (leave_waitlist 10 3 8 tables)

abbrev joined : ℕ → Store
joined uid = settled (map_ok first (join_waitlist 10 9 3 uid tables))
