-- ===== src/Bookings/Seats/Reserve.antt =====
-- Reserving a seat keeps the seat counts right (`Create` of repository.go).
use hivemind_backend.Prelude.Int.{is_positive}
use hivemind_backend.Prelude.{
  ℕ, ◌+◌, ◌<◌, ◌≡◌, refl, ◌≢◌, ◌⊎◌, true, none, some, List, ◌∷◌, arith, inl, inr, Option-cases,
  Bool-cases, Result-cases, one_if, count_where, count_where-update_where, ok, err, after, first,
  map_ok, find_where,
}
use hivemind_backend.Bookings.Types.{
  Booking, BookingStatus, Plan, Store, Error, find_plan, is_pending_of, is_booked_by, is_published,
}
use hivemind_backend.Bookings.Create.{
  take_seat, cancel_row, seat_confirmed_booking, notify_host, insert_booking, new_booking,
  create_free, create_paid, create, admit, cancel_pending_of, active_holds, is_resumable,
  payment_hold,
}
use hivemind_backend.Bookings.Lifecycle.{with_bookings}
use hivemind_backend.Bookings.Seats.{
  WellFormed, seats, takes_seat_of, WellFormed-keep, WellFormed-update, WellFormed-found,
}

pub notify_host-WellFormed :
    (pid uid : ℕ) (s : Store) → WellFormed s → WellFormed (notify_host pid uid s)
unfolding notify_host
notify_host-WellFormed pid uid s v = elim (Option-cases (find_plan pid s)) [
  | inl e ↦ rw (e, notify_host) v
  | inr (p, e) ↦ rw (e, notify_host) (WellFormed-keep s _ refl (λ q. refl) v)
]

-- Seating a booking whose row was written first, where the plan has a seat left.
pub seat-WellFormed :
    (now : ℕ) (b : Booking) (bs : List Booking) (s : Store) (p : Plan)
    → find_plan b.plan_id s ≡ some p
    → p.confirmed_count < p.capacity
    → seats b.plan_id bs ≡ seats b.plan_id s.bookings + 1
    → ((q : ℕ) → q ≢ b.plan_id → seats q bs ≡ seats q s.bookings)
    → WellFormed s
    → WellFormed (seat_confirmed_booking now b (with_bookings bs s))
unfolding seat_confirmed_booking with_bookings take_seat
seat-WellFormed now b bs s p found room here others v =
    WellFormed-update s _ b.plan_id take_seat p (λ r. refl) found refl
      (omega (arith, WellFormed-found s b.plan_id p v found, here)) others v

insert-seats :
    (q : ℕ) (b : Booking) (s : Store)
    → seats q (b ∷ s.bookings) ≡ one_if (takes_seat_of q b) + seats q s.bookings
unfolding count_where
insert-seats q b s = refl

-- An insert fails on its key, or adds the row.
insert_booking-cases :
    (b : Booking) (s : Store)
    → (insert_booking b s ≡ err Error.unique_violation)
      ⊎ (insert_booking b s ≡ ok (with_bookings (b ∷ s.bookings) s))
unfolding insert_booking with_bookings
insert_booking-cases b s = ground arith

create_free-WellFormed :
    (now id : ℕ) (b : Booking) (p : Plan) (s : Store)
    → find_plan b.plan_id s ≡ some p
    → p.confirmed_count < p.capacity
    → WellFormed s
    → WellFormed (after s (map_ok first (create_free now id b p s)))
unfolding create_free new_booking count_where
create_free-WellFormed now id b p s found room v = elim (insert_booking-cases out s) [
  | inl e ↦ rw (e, create_free) v
  | inr e ↦
      rw (e, create_free)
        (notify_host-WellFormed b.plan_id b.user_id _ (
          seat-WellFormed now out (out ∷ s.bookings) s p found room (ground arith)
            (λ q ne. ground arith) v))
]
  where
    out : Booking
    out = new_booking now id b p BookingStatus.confirmed none

cancel_pending_of-seats :
    (now pid uid q : ℕ) (s : Store)
    → seats q (cancel_pending_of now pid uid s).bookings ≡ seats q s.bookings
unfolding cancel_pending_of cancel_row
cancel_pending_of-seats now pid uid q s =
    count_where-update_where (takes_seat_of q) (is_pending_of pid uid) (cancel_row now) s.bookings
      (λ b h. ground arith)

create_paid-WellFormed :
    (now id : ℕ) (b : Booking) (p : Plan) (s : Store)
    → WellFormed s
    → WellFormed (after s (map_ok first (create_paid now id b p s)))
unfolding create_paid new_booking count_where with_bookings cancel_pending_of
create_paid-WellFormed now id b p s v =
    elim (Option-cases (find_where (is_resumable now b.plan_id b.user_id) s.bookings)) [
      | inr (resumed, e) ↦ rw (e, create_paid) v
      | inl e ↦ elim (insert_booking-cases out (cancel_pending_of now b.plan_id b.user_id s)) [
        | inl f ↦ rw (e, create_paid) (rw f v)
        | inr f ↦
            rw (e, create_paid)
              (rw f (
                WellFormed-keep s _ refl
                  (λ q. ground (arith, cancel_pending_of-seats now b.plan_id b.user_id q s)) v))
      ]
    ]
  where
    out : Booking
    out = new_booking now id b p BookingStatus.payment_pending (some (now + payment_hold))

-- What the tests of `create` establish.
pub admit-ok :
    (now : ℕ) (b : Booking) (s : Store) (p : Plan)
    → admit now b s ≡ ok p
    → (find_plan b.plan_id s ≡ some p)
      × (p.confirmed_count + active_holds now b.plan_id b.user_id s < p.capacity)
      × (is_published p.status ≡ true)
      × (count_where (is_booked_by b.plan_id b.user_id) s.bookings ≡ 0)
unfolding admit
admit-ok now b s p h = ground arith

pub create-WellFormed :
    (now id : ℕ) (b : Booking) (s : Store)
    → WellFormed s
    → WellFormed (after s (map_ok first (create now id b s)))
unfolding create
create-WellFormed now id b s v = elim (Result-cases (admit now b s)) [
  | inr (x, e) ↦ rw (e, create) v
  | inl (p, e) ↦
      let (found, room, _, _) = admit-ok now b s p e in
      elim (Bool-cases (is_positive p.price_minor)) [
        | inl paid ↦ rw (e, create) (rw paid (create_paid-WellFormed now id b p s v))
        | inr free ↦
            rw (e, create) (rw free (create_free-WellFormed now id b p s found (omega arith) v))
      ]
]
