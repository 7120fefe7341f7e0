-- ===== src/Bookings/Outcomes.antt =====
-- What reserving and confirming a seat come to (`Create` and `ConfirmPaid` of repository.go).
use hivemind_backend.Prelude.Int.{is_positive}
use hivemind_backend.Bookings.Seats.Reserve.{admit-ok}
use hivemind_backend.Bookings.Types.{
  find_plan, Plan, Booking, is_pending, is_confirmed, is_booked_by, Store, BookingStatus,
}
use hivemind_backend.Bookings.Create.{
  admit, create, seat_confirmed_booking, notify_host, create_free, new_booking, is_resumable,
  insert_booking, create_paid,
}
use hivemind_backend.Prelude.{
  false, arith, find_where_sound, is_after, find_where, Option-cases, Bool-cases, ℕ, Result-cases,
  count_where, ◌⊎◌, ◌≡◌, ◌∷◌, ok, inr, inl, true, some, none,
}

create_free-outcome :
    (now id : ℕ) (b : Booking) (p : Plan) (s t : Store) (out : Booking)
    → create_free now id b p s ≡ ok (t, out)
    → (out ≡ new_booking now id b p BookingStatus.confirmed none) × (t.bookings ≡ out ∷ s.bookings)
unfolding create_free insert_booking seat_confirmed_booking notify_host
create_free-outcome now id b p s t out h = ground arith

-- Fields by which a booking belongs to a request.
abbrev pub Answers : Booking → Booking → Type 0
Answers b out = (out.plan_id ≡ b.plan_id) × (out.user_id ≡ b.user_id)

create_paid-outcome :
    (now id : ℕ) (b : Booking) (p : Plan) (s t : Store) (out : Booking)
    → create_paid now id b p s ≡ ok (t, out)
    → Answers b out × (is_pending out.status ≡ true) × (is_after out.expires_at now ≡ true)
unfolding create_paid insert_booking new_booking
create_paid-outcome now id b p s t out h =
    elim (Option-cases (find_where (is_resumable now b.plan_id b.user_id) s.bookings)) [
      | inl e ↦ ground arith
      | inr (r, e) ↦
          let fits = find_where_sound (is_resumable now b.plan_id b.user_id) s.bookings r e in
          ground (arith, fits)
    ]

-- A booking that `create` returns is for the plan and the user of the request. On a plan whose
-- price is 0 or below it is confirmed at that price; on a plan with a price above 0 it waits for its
-- payment, under a hold that has not run out.
pub create-outcome :
    (now id : ℕ) (b : Booking) (s t : Store) (out : Booking)
    → create now id b s ≡ ok (t, out)
    → (p : Plan) × (find_plan b.plan_id s ≡ some p)
      × Answers b out
      × (((is_positive p.price_minor ≡ false)
            × (out.price_minor ≡ p.price_minor)
            × (is_confirmed out.status ≡ true))
          ⊎ ((is_positive p.price_minor ≡ true)
              × (is_pending out.status ≡ true)
              × (is_after out.expires_at now ≡ true)))
unfolding create new_booking
create-outcome now id b s t out h = elim (Result-cases (admit now b s)) [
  | inr (x, e) ↦ absurd (ground arith)
  | inl (p, e) ↦
      let (found, _, _, _) = admit-ok now b s p e in
      elim (Bool-cases (is_positive p.price_minor)) [
        | inl paid ↦
            let done = create_paid-outcome now id b p s t out (ground arith) in
            (p, found, done.0, inr (ground arith, done.1, done.2))
        | inr free ↦
            let done = create_free-outcome now id b p s t out (ground arith) in
            (p, found, ground arith, inl (ground arith, ground arith, ground arith))
      ]
]

-- Where `create` confirms a booking at once, it is the only confirmed booking of the user on the
-- plan.
pub create-exclusive :
    (now id : ℕ) (b : Booking) (s t : Store) (out : Booking)
    → create now id b s ≡ ok (t, out)
    → is_confirmed out.status ≡ true
    → count_where (is_booked_by b.plan_id b.user_id) t.bookings ≡ 1
unfolding create new_booking count_where
create-exclusive now id b s t out h confirmed = elim (Result-cases (admit now b s)) [
  | inr (x, e) ↦ absurd (ground arith)
  | inl (p, e) ↦
      let (_, _, _, alone) = admit-ok now b s p e in
      elim (Bool-cases (is_positive p.price_minor)) [
        | inl paid ↦ absurd (ground (arith, create_paid-outcome now id b p s t out (ground arith)))
        | inr free ↦
            let (row, rows) = create_free-outcome now id b p s t out (ground arith) in
            rw rows (rw row (ground arith))
      ]
]
