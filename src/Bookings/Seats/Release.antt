-- ===== src/Bookings/Seats/Release.antt =====
-- Giving up or using a seat keeps the seat counts right (`Cancel`, `CheckIn` of repository.go).
use hivemind_backend.Prelude.{
  ◌∷◌, err, ℕ, ◌+◌, ◌≡◌, ap, Result-cases, Bool, refl, true, some, arith, inl, inr, Option-cases,
  Bool-cases, one_if, update_first, ok, after, first, map_ok,
}
use hivemind_backend.Bookings.Types.{
  Event, is_pending, plan_key, Error, Booking, Plan, Store, booking_key, find_plan, find_booking,
  is_confirmed,
}
use hivemind_backend.Bookings.Create.{cancel_row}
use hivemind_backend.Bookings.Waitlist.{offer_freed_seats, offer_for}
use hivemind_backend.Bookings.Lifecycle.{
  refund_percent, cancel, cancel_seated, with_bookings, release_seat, check_in, attend_row,
  cancel_participants,
}
use hivemind_backend.Bookings.Seats.{
  WellFormed, seats, takes_seat_of, WellFormed-keep, WellFormed-update, WellFormed-found,
  seats-update_first,
}

-- Offers to the waitlist touch neither the plans nor the bookings.
pub offer_freed_seats-tables :
    (now pid : ℕ) (s t : Store)
    → offer_freed_seats now pid s ≡ ok t
    → (t.plans ≡ s.plans) × (t.bookings ≡ s.bookings)
unfolding offer_freed_seats offer_for
offer_freed_seats-tables now pid s t h = ground arith

-- A row whose status changes without a seat taken or given up.
row-WellFormed :
    (bid : ℕ) (g : Booking → Booking) (b : Booking) (s t : Store)
    → find_booking bid s ≡ some b
    → ((q : ℕ) → takes_seat_of q (g b) ≡ takes_seat_of q b)
    → t.plans ≡ s.plans
    → t.bookings ≡ update_first (booking_key bid) g s.bookings
    → WellFormed s
    → WellFormed t
unfolding find_booking
row-WellFormed bid g b s t found same plans rows v =
    WellFormed-keep s t plans
      (λ q. rw rows (
        let shift = seats-update_first q bid g s.bookings b found in ground (arith, same q, shift)))
      v

pub check_in-WellFormed :
    (now bid by : ℕ) (s : Store)
    → WellFormed s
    → WellFormed (after s (map_ok first (check_in now bid by s)))
unfolding check_in attend_row
check_in-WellFormed now bid by s v = elim (Option-cases (find_booking bid s)) [
  | inl e ↦ rw (e, check_in) v
  | inr (b, e) ↦ elim (Bool-cases (is_confirmed b.status)) [
    | inl y ↦
        rw (e, check_in)
          (rw y (row-WellFormed bid (attend_row now) b s _ e (λ q. ground arith) refl refl v))
    | inr n ↦ rw (e, check_in) (rw n v)
  ]
]

-- The tables after a confirmed booking gave up its seat, before the waitlist is served.
abbrev pub released_store : ℕ → ℕ → Booking → Store → Store
released_store now bid b s = record s {
  bookings = update_first (booking_key bid) (cancel_row now) s.bookings;
  plans = update_first (plan_key b.plan_id) release_seat s.plans;
  participants = cancel_participants b.id s.participants;
}

-- The event that records a cancellation.
abbrev pub cancelled_event : ℕ → Booking → Plan → ℕ → Bool → Event
cancelled_event now b p reason by_host =
    Event.booking_cancelled b.id b.plan_id b.user_id reason (refund_percent p.starts_at now by_host)

released_store-WellFormed :
    (now bid : ℕ) (b : Booking) (s : Store) (p : Plan)
    → find_booking bid s ≡ some b
    → is_confirmed b.status ≡ true
    → find_plan b.plan_id s ≡ some p
    → WellFormed s
    → WellFormed (released_store now bid b s)
unfolding find_booking cancel_row release_seat
released_store-WellFormed now bid b s p found seated known v =
    WellFormed-update s _ b.plan_id release_seat p (λ r. refl) known refl
      (ground (arith, WellFormed-found s b.plan_id p v known, shift b.plan_id))
      (λ q ne. ground (arith, shift q)) v
  where
    shift :
        (q : ℕ)
        → seats q (update_first (booking_key bid) (cancel_row now) s.bookings)
            + one_if (takes_seat_of q b)
          ≡ seats q s.bookings + one_if (takes_seat_of q (cancel_row now b))
    shift q = seats-update_first q bid (cancel_row now) s.bookings b found

-- How a cancellation ends.
pub data CancelEnd (now bid reason : ℕ) (by_host : Bool) (s : Store) : Type 0 where
  fails : (e : Error) → cancel now bid reason by_host s ≡ err e → CancelEnd now bid reason by_host s
  frees_hold :
      (b : Booking)
      → find_booking bid s ≡ some b
      → is_pending b.status ≡ true
      → cancel now bid reason by_host s
        ≡ ok (
          with_bookings (update_first (booking_key bid) (cancel_row now) s.bookings) s,
          cancel_row now b,
        )
      → CancelEnd now bid reason by_host s
  frees_seat :
      (b : Booking) (p : Plan) (t : Store)
      → find_booking bid s ≡ some b
      → is_confirmed b.status ≡ true
      → find_plan b.plan_id s ≡ some p
      → offer_freed_seats now b.plan_id (released_store now bid b s) ≡ ok t
      → cancel now bid reason by_host s
        ≡ ok (
          record t { outbox = cancelled_event now b p reason by_host ∷ t.outbox },
          cancel_row now b,
        )
      → CancelEnd now bid reason by_host s

cancel_seated-end :
    (now bid reason : ℕ) (by_host : Bool) (s : Store) (b : Booking)
    → find_booking bid s ≡ some b
    → is_confirmed b.status ≡ true
    → CancelEnd now bid reason by_host s
unfolding cancel cancel_seated with_bookings find_plan cancel_row
cancel_seated-end now bid reason by_host s b found seated =
    elim (Option-cases (find_plan b.plan_id s)) [
      | inl e ↦ fails Error.plan_not_found (ground arith)
      | inr (p, e) ↦
          elim (Result-cases (offer_freed_seats now b.plan_id (released_store now bid b s))) [
            | inl (t, h) ↦ frees_seat b p t found seated e h (ground arith)
            | inr (x, h) ↦ fails x (ground arith)
          ]
    ]

pub cancel-end :
    (now bid reason : ℕ) (by_host : Bool) (s : Store) → CancelEnd now bid reason by_host s
unfolding cancel
cancel-end now bid reason by_host s = elim (Option-cases (find_booking bid s)) [
  | inl e ↦ fails Error.booking_not_found (rw (e, cancel))
  | inr (b, e) ↦ elim (Bool-cases (is_confirmed b.status)) [
    | inl y ↦ cancel_seated-end now bid reason by_host s b e y
    | inr n ↦ elim (Bool-cases (is_pending b.status)) [
      | inl w ↦ frees_hold b e w (ground arith)
      | inr nw ↦ fails Error.booking_not_found (ground arith)
    ]
  ]
]

CancelEnd-WellFormed :
    (now bid reason : ℕ) (by_host : Bool) (s : Store)
    → CancelEnd now bid reason by_host s
    → WellFormed s
    → WellFormed (after s (map_ok first (cancel now bid reason by_host s)))
unfolding cancel_row with_bookings
CancelEnd-WellFormed now bid reason by_host s (fails e h) v = rw h v
CancelEnd-WellFormed now bid reason by_host s (frees_hold b found w h) v =
    rw h (row-WellFormed bid (cancel_row now) b s _ found (λ q. ground arith) refl refl v)
CancelEnd-WellFormed now bid reason by_host s (frees_seat b p t found y known o h) v =
    let (plans, rows) = offer_freed_seats-tables now b.plan_id _ t o in
    rw h (
      WellFormed-keep (released_store now bid b s) _ plans (λ q. ap (seats q) rows)
        (released_store-WellFormed now bid b s p found y known v))

pub cancel-WellFormed :
    (now bid reason : ℕ) (by_host : Bool) (s : Store)
    → WellFormed s
    → WellFormed (after s (map_ok first (cancel now bid reason by_host s)))
cancel-WellFormed now bid reason by_host s =
    CancelEnd-WellFormed now bid reason by_host s (cancel-end now bid reason by_host s)
