-- ===== src/Bookings/Confirmation/Gaps.antt =====
-- Where `ConfirmPaid` (repository.go) lets through what the seat rules forbid.
use hivemind_backend.Bookings.Seats.Settle.{seated_store}
use hivemind_backend.Bookings.Cancellation.{cancel-row}
use hivemind_backend.Bookings.Confirmation.{
  confirm_locked-seats, confirm_locked-plan, confirm_locked-row, confirm_locked-ok,
}
use hivemind_backend.Bookings.Seats.{WellFormed-found, WellFormed, is_seated}
use hivemind_backend.Bookings.Lifecycle.{
  with_bookings, confirm_read, cancel, confirm_locked, confirm_paid, confirm_row,
}
use hivemind_backend.Bookings.Types.{
  booking_key, Booking, Store, find_plan, is_booked_by, Plan, is_published, find_booking,
}
use hivemind_backend.Bookings.Create.{cancel_row, take_seat, active_holds}
use hivemind_backend.Prelude.{
  refl, sym, subst, arith, ℕ, count_where-update_first, count_where, Bool, ◌≡◌, ◌<◌, ◌+◌, ok, false,
  true, some,
}

-- A confirmation that seats a booking, as it stands in the tables and without a seat so far, adds
-- one to the confirmed bookings of its user on the plan, however many there were: it does not test
-- for another one, as `create` does.
pub confirm_locked-adds :
    (now : ℕ) (b : Booking) (s t : Store)
    → find_booking b.id s ≡ some b
    → is_seated b.status ≡ false
    → confirm_locked now b s ≡ ok t
    → count_where (is_booked_by b.plan_id b.user_id) t.bookings
      ≡ count_where (is_booked_by b.plan_id b.user_id) s.bookings + 1
unfolding find_booking confirm_row
confirm_locked-adds now b s t found unseated h =
    let (p, _, _, _, _, rows) = confirm_locked-ok now b s t h in
    rw rows (
      ground (
        arith,
        count_where-update_first (is_booked_by b.plan_id b.user_id) (booking_key b.id)
            (confirm_row now) s.bookings b found,
      ))

-- A booking that its owner or the host cancelled can be confirmed again by its old payment: while
-- the plan is published and has a seat left, `confirm_paid` seats it.
pub confirm_paid-after-cancel :
    (now later bid reason : ℕ) (by_host : Bool) (s t : Store) (out : Booking) (p : Plan)
    → cancel now bid reason by_host s ≡ ok (t, out)
    → find_plan out.plan_id t ≡ some p
    → is_published p.status ≡ true
    → p.confirmed_count + active_holds later out.plan_id out.user_id t < p.capacity
    → (u : Store) × (confirm_paid later bid t ≡ ok u)
      × (find_booking bid u ≡ some (confirm_row later out))
unfolding confirm_paid confirm_read confirm_locked with_bookings cancel_row
confirm_paid-after-cancel now later bid reason by_host s t out p h found public room =
    let (b, _, key, same, row) = cancel-row now bid reason by_host s t out h in
    let done : confirm_locked later out t ≡ ok (seated_store later out t) = ground arith in
    (
      seated_store later out t,
      ground arith,
      subst (λ k. find_booking k (seated_store later out t) ≡ some (confirm_row later out)) key
          (confirm_locked-row later out t _ (subst (λ k. find_booking k t ≡ some out) (sym key) row)
            done),
    )

-- Two confirmations that both read the same booking, which takes no seat yet, before either holds
-- the plan's lock, such as the webhook's and the app's, count its seat twice: from tables whose
-- seat counts agree, the one after the other leads to tables whose seat counts do not.
pub confirm_locked_race :
    (now later : ℕ) (b : Booking) (s t u : Store)
    → WellFormed s
    → find_booking b.id s ≡ some b
    → is_seated b.status ≡ false
    → confirm_locked now b s ≡ ok t
    → confirm_locked later b t ≡ ok u
    → ¬ WellFormed u
unfolding confirm_row take_seat
confirm_locked_race now later b s t u v found unseated one two valid =
    let (p, known, _, _, _, _) = confirm_locked-ok now b s t one in
    let mid = confirm_locked-plan now b s t p known one in
    let end = confirm_locked-plan later b t u (take_seat p) mid two in
    ground (
      arith,
      WellFormed-found s b.plan_id p v known,
      WellFormed-found u b.plan_id (take_seat (take_seat p)) valid end,
      confirm_locked-seats now b b s t found refl one,
      confirm_locked-seats later b (confirm_row now b) t u (confirm_locked-row now b s t found one)
          refl two,
    )
