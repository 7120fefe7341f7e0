-- ===== src/Bookings/Cancellation.antt =====
-- What a cancellation comes to (`Cancel` and `RefundPercent` of repository.go).
use hivemind_backend.Bookings.Seats.{WellFormed, seats-update_first, WellFormed-found}
use hivemind_backend.Bookings.Waitlist.{offer_freed_seats, offer_for}
use hivemind_backend.Bookings.Lifecycle.{
  cancel_participants, release_seat, refund_percent, cancel, with_bookings,
}
use hivemind_backend.Bookings.Create.{cancel_row}
use hivemind_backend.Bookings.Seats.Settle.{find_booking-id}
use hivemind_backend.Bookings.Seats.Release.{
  cancelled_event, released_store, fails, cancel-end, offer_freed_seats-tables, frees_seat,
  CancelEnd, frees_hold,
}
use hivemind_backend.Bookings.Types.{
  BookingStatus, Event, is_confirmed, Plan, find_plan, Participant, Error, booking_key,
  find_booking, Store, Booking,
}
use hivemind_backend.Prelude.{
  ◌<◌, ◌&&◌, ◌==◌, subst, List, update_where, All, ◌⊎◌, ◌≤◌, ◌+◌, ◌∷◌, err, false, true, [], arith,
  find_where-update_first, Bool, update_first, ℕ, ◌≡◌, ok, some, refl,
}

updated-row :
    (now bid : ℕ) (b : Booking) (s t : Store)
    → find_booking bid s ≡ some b
    → t.bookings ≡ update_first (booking_key bid) (cancel_row now) s.bookings
    → find_booking bid t ≡ some (cancel_row now b)
unfolding find_booking cancel_row
updated-row now bid b s t found rows = rw rows (
    rw
      (find_where-update_first (λ (r : Booking). r.id) (cancel_row now) (λ r. refl) bid bid
        s.bookings b found)
      (ground arith))

pub CancelEnd-row :
    (now bid reason : ℕ) (by_host : Bool) (s t : Store) (out : Booking)
    → CancelEnd now bid reason by_host s
    → cancel now bid reason by_host s ≡ ok (t, out)
    → (b : Booking) × (find_booking bid s ≡ some b)
      × (out ≡ cancel_row now b)
      × (t.bookings ≡ update_first (booking_key bid) (cancel_row now) s.bookings)
unfolding with_bookings
CancelEnd-row now bid reason by_host s t out (fails e f) h = absurd (ground arith)
CancelEnd-row now bid reason by_host s t out (frees_hold b found w f) h =
    (b, found, ground arith, ground arith)
CancelEnd-row now bid reason by_host s t out (frees_seat b p t' found y known o f) h =
    let (plans, rows) = offer_freed_seats-tables now b.plan_id _ t' o in
    (b, found, ground arith, ground arith)

-- The row that a cancellation returns is the booking's row in the tables from then on.
pub cancel-row :
    (now bid reason : ℕ) (by_host : Bool) (s t : Store) (out : Booking)
    → cancel now bid reason by_host s ≡ ok (t, out)
    → (b : Booking) × (find_booking bid s ≡ some b)
      × (out.id ≡ bid)
      × (out ≡ cancel_row now b)
      × (find_booking bid t ≡ some out)
unfolding cancel_row
cancel-row now bid reason by_host s t out h =
    let (b, found, same, rows) =
      CancelEnd-row now bid reason by_host s t out (cancel-end now bid reason by_host s) h in
    (
      b,
      found,
      ground (arith, find_booking-id bid s b found),
      same,
      rw same (updated-row now bid b s t found rows),
    )

-- A booking is cancelled once: after a cancellation that returned, a later one is refused.
pub cancel_twice :
    (now later bid reason again : ℕ) (by_host by_host' : Bool) (s t : Store) (out : Booking)
    → cancel now bid reason by_host s ≡ ok (t, out)
    → cancel later bid again by_host' t ≡ err Error.booking_not_found
unfolding cancel cancel_row
cancel_twice now later bid reason again by_host by_host' s t out h =
    let (b, _, _, same, row) = cancel-row now bid reason by_host s t out h in
    unfold cancel in ground arith

cancel_participants-All :
    (bid : ℕ) (rows : List Participant)
    → All (λ r. (r.booking_id == bid && r.is_confirmed) ≡ false) (cancel_participants bid rows)
unfolding cancel_participants update_where
cancel_participants-All bid [] = tt
cancel_participants-All bid (r ∷ rows) = ground (arith, cancel_participants-All bid rows)

released_store-plan :
    (now bid : ℕ) (b : Booking) (s t : Store) (p : Plan)
    → find_plan b.plan_id s ≡ some p
    → t.plans ≡ (released_store now bid b s).plans
    → find_plan b.plan_id t ≡ some (release_seat p)
unfolding find_plan release_seat
released_store-plan now bid b s t p found plans = rw plans (
    rw
      (find_where-update_first (λ (r : Plan). r.id) release_seat (λ r. refl) b.plan_id b.plan_id
        s.plans p found)
      (ground arith))

offer_freed_seats-participants :
    (now pid : ℕ) (s t : Store)
    → offer_freed_seats now pid s ≡ ok t
    → t.participants ≡ s.participants
unfolding offer_freed_seats offer_for
offer_freed_seats-participants now pid s t h = ground arith

-- The writes of the cancellation of a booking that had its seat.
abbrev Written : ℕ → ℕ → Bool → Booking → Store → Store → Type 0
Written now reason by_host b s t =
    (p : Plan) × (find_plan b.plan_id s ≡ some p)
    × (find_plan b.plan_id t ≡ some (release_seat p))
    × All (λ r. (r.booking_id == b.id && r.is_confirmed) ≡ false) t.participants
    × ((rest : List Event) × (t.outbox ≡ cancelled_event now b p reason by_host ∷ rest))

seat_given_up :
    (now bid reason : ℕ) (by_host : Bool) (b : Booking) (s t : Store) (out : Booking)
    → CancelEnd now bid reason by_host s
    → find_booking bid s ≡ some b
    → is_confirmed b.status ≡ true
    → cancel now bid reason by_host s ≡ ok (t, out)
    → Written now reason by_host b s t
seat_given_up now bid reason by_host b s t out (fails e f) found y h = absurd (ground arith)
seat_given_up now bid reason by_host b s t out (frees_hold c known w f) found y h =
    absurd (ground arith)
seat_given_up now bid reason by_host b s t out (frees_seat c p t' known _ plan o f) found y h =
    let (plans, _) = offer_freed_seats-tables now c.plan_id _ t' o in
    let whole : Written now reason by_host c s t = (
      p,
      plan,
      released_store-plan now bid c s t p plan (ground arith),
      subst
          (λ (rows : List Participant).
            All (λ r. (r.booking_id == c.id && r.is_confirmed) ≡ false) rows)
          (ground
            (arith, offer_freed_seats-participants now c.plan_id (released_store now bid c s) t' o))
          (cancel_participants-All c.id s.participants),
      (t'.outbox, ground arith),
    ) in
    let same : c ≡ b = ground arith in subst (λ z. Written now reason by_host z s t) same whole

-- The refund policy: all where the host cancels or the plan starts in 24 hours or later, else none.
abbrev pub IsRefund : ℕ → ℕ → Bool → ℕ → Type 0
IsRefund starts now by_host percent =
    ((percent ≡ 100) × ((by_host ≡ true) ⊎ (now + 86_400_000_000 ≤ starts)))
    ⊎ ((percent ≡ 0) × (by_host ≡ false) × (starts < now + 86_400_000_000))

refund_percent-IsRefund :
    (starts now : ℕ) (by_host : Bool)
    → IsRefund starts now by_host (refund_percent starts now by_host)
unfolding refund_percent
refund_percent-IsRefund starts now true = ground arith
refund_percent-IsRefund starts now false = ground arith

-- What the tables hold after the cancellation of a booking that had its seat.
abbrev pub SeatGivenUp : ℕ → ℕ → Bool → Booking → Store → Store → Type 0
SeatGivenUp now reason by_host b s t =
    (p : Plan) × (q : Plan) × (find_plan b.plan_id s ≡ some p)
    × (find_plan b.plan_id t ≡ some q)
    × (q.confirmed_count + 1 ≡ p.confirmed_count)
    × ((c : Booking) × (find_booking b.id t ≡ some c) × (c.status ≡ BookingStatus.cancelled))
    × All (λ r. (r.booking_id == b.id && r.is_confirmed) ≡ false) t.participants
    × ((rest : List Event) × (percent : ℕ) × (t.outbox
          ≡ Event.booking_cancelled b.id b.plan_id b.user_id reason percent ∷ rest)
        × IsRefund p.starts_at now by_host percent)

-- Where a booking is confirmed, its plan's seat count is not 0.
seated-counts :
    (bid : ℕ) (b : Booking) (s : Store) (p : Plan)
    → WellFormed s
    → find_booking bid s ≡ some b
    → is_confirmed b.status ≡ true
    → find_plan b.plan_id s ≡ some p
    → 1 ≤ p.confirmed_count
unfolding find_booking cancel_row
seated-counts bid b s p v found seated known = ground (
  arith,
  WellFormed-found s b.plan_id p v known,
  seats-update_first b.plan_id bid (cancel_row 0) s.bookings b found,
)

-- If every plan counts its seated bookings, the cancellation of a confirmed booking takes exactly
-- one off its plan's count, leaves the booking cancelled and none of its participant rows confirmed,
-- and enqueues BOOKING_CANCELLED with a refund of 100% where the host cancels or the plan starts in
-- 24 hours or later, and of 0% else.
pub cancel-confirmed :
    (now bid reason : ℕ) (by_host : Bool) (b : Booking) (s t : Store) (out : Booking)
    → WellFormed s
    → find_booking bid s ≡ some b
    → is_confirmed b.status ≡ true
    → cancel now bid reason by_host s ≡ ok (t, out)
    → SeatGivenUp now reason by_host b s t
unfolding release_seat cancel_row
cancel-confirmed now bid reason by_host b s t out v found seated h =
    let (p, known, plan, rows, (rest, news)) =
      seat_given_up now bid reason by_host b s t out (cancel-end now bid reason by_host s) found
        seated h in
    let (d, _, id, same, row) = cancel-row now bid reason by_host s t out h in
    (
      p,
      release_seat p,
      known,
      plan,
      ground (arith, seated-counts bid b s p v found seated known),
      (out, rw (find_booking-id bid s b found) row, rw same refl),
      rows,
      (
        rest,
        refund_percent p.starts_at now by_host,
        news,
        refund_percent-IsRefund p.starts_at now by_host,
      ),
    )
