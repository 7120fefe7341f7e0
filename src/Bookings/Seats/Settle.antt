-- ===== src/Bookings/Seats/Settle.antt =====
-- Confirming a paid booking keeps the seat counts right (`ConfirmPaid` of repository.go).
use hivemind_backend.Prelude.{
  ℕ, ◌+◌, ◌<◌, ◌≡◌, sym, subst, ◌⊎◌, true, false, none, some, ◌&&◌, ltb, arith, inl, inr,
  Option-cases, Bool-cases, Result-cases, one_if, update_first, ok, err, after, find_where_sound,
}
use hivemind_backend.Bookings.Types.{
  Booking, Plan, Store, Error, booking_key, find_plan, find_booking, is_published,
}
use hivemind_backend.Bookings.Create.{seat_confirmed_booking, notify_host, active_holds}
use hivemind_backend.Bookings.Lifecycle.{
  with_bookings, confirm_read, confirm_locked, confirm_paid, confirm_row,
}
use hivemind_backend.Bookings.Seats.{
  WellFormed, seats, takes_seat_of, is_seated, seats-update_first,
}
use hivemind_backend.Bookings.Seats.Reserve.{notify_host-WellFormed, seat-WellFormed}

-- The tables once `ConfirmPaid` has seated the booking.
abbrev pub seated_store : ℕ → Booking → Store → Store
seated_store now b s = notify_host b.plan_id b.user_id (
    seat_confirmed_booking now b
      (with_bookings (update_first (booking_key b.id) (confirm_row now) s.bookings) s))

-- `ConfirmPaid` fails, or a published plan had a seat and the booking takes it.
pub confirm_locked-cases :
    (now : ℕ) (b : Booking) (s : Store)
    → ((e : Error) × (confirm_locked now b s ≡ err e))
      ⊎ ((p : Plan) × (find_plan b.plan_id s ≡ some p)
          × (is_published p.status ≡ true)
          × (p.confirmed_count + active_holds now b.plan_id b.user_id s < p.capacity)
          × (confirm_locked now b s ≡ ok (seated_store now b s)))
unfolding confirm_locked with_bookings
confirm_locked-cases now b s = elim (Option-cases (find_plan b.plan_id s)) [
  | inl e ↦ inl (Error.plan_not_found, rw (e, confirm_locked))
  | inr (p, e) ↦
      elim (Bool-cases (
        is_published p.status
        && ltb (p.confirmed_count + active_holds now b.plan_id b.user_id s) p.capacity)) [
          | inl yes_room ↦
              inr (p, e, ground arith, ground arith, rw (e, confirm_locked) (rw yes_room))
          | inr no_room ↦ inl (Error.plan_full, rw (e, confirm_locked) (rw no_room))
        ]
]

-- Confirming a row that took no seat.
pub confirm_locked-WellFormed :
    (now : ℕ) (b : Booking) (s : Store)
    → find_booking b.id s ≡ some b
    → is_seated b.status ≡ false
    → WellFormed s
    → WellFormed (after s (confirm_locked now b s))
unfolding find_booking confirm_row
confirm_locked-WellFormed now b s found unseated v = elim (confirm_locked-cases now b s) [
  | inl (e, h) ↦ rw h v
  | inr (p, known, _, room, h) ↦ rw h (
      notify_host-WellFormed b.plan_id b.user_id _ (
        seat-WellFormed now b _ s p known (omega arith) (ground (arith, shift b.plan_id))
          (λ q ne. ground (arith, shift q)) v))
]
  where
    shift :
        (q : ℕ)
        → seats q (update_first (booking_key b.id) (confirm_row now) s.bookings)
            + one_if (takes_seat_of q b)
          ≡ seats q s.bookings + one_if (takes_seat_of q (confirm_row now b))
    shift q = seats-update_first q b.id (confirm_row now) s.bookings b found

-- A row that is found by its key has that key.
pub find_booking-id : (bid : ℕ) (s : Store) (b : Booking) → find_booking bid s ≡ some b → b.id ≡ bid
unfolding find_booking
find_booking-id bid s b h = ground (arith, find_where_sound (booking_key bid) s.bookings b h)

-- What `ConfirmPaid` reads: a booking to seat is still pending or was cancelled.
pub confirm_read-some :
    (bid : ℕ) (s : Store) (b : Booking)
    → confirm_read bid s ≡ ok (some b)
    → (find_booking bid s ≡ some b) × (is_seated b.status ≡ false)
unfolding confirm_read
confirm_read-some bid s b h = ground arith

pub confirm_paid-WellFormed :
    (now bid : ℕ) (s : Store) → WellFormed s → WellFormed (after s (confirm_paid now bid s))
unfolding confirm_paid
confirm_paid-WellFormed now bid s v = elim (Result-cases (confirm_read bid s)) [
  | inr (x, e) ↦ rw (e, confirm_paid) v
  | inl (none, e) ↦ rw (e, confirm_paid) v
  | inl (some b, e) ↦
      let (found, unseated) = confirm_read-some bid s b e in
      rw (e, confirm_paid)
        (confirm_locked-WellFormed now b s
          (subst (λ k. find_booking k s ≡ some b) (sym (find_booking-id bid s b found)) found)
          unseated v)
]
