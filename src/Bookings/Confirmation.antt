-- ===== src/Bookings/Confirmation.antt =====
-- What `ConfirmPaid` guarantees, and what it does not test (repository.go).
pub mod Gaps
use hivemind_backend.Bookings.Seats.{seats, seats-update_first, is_seated}
use hivemind_backend.Bookings.Seats.Settle.{
  confirm_read-some, seated_store, find_booking-id, confirm_locked-cases,
}
use hivemind_backend.Bookings.Create.{take_seat, notify_host, seat_confirmed_booking, active_holds}
use hivemind_backend.Bookings.Lifecycle.{
  confirm_read, confirm_row, confirm_paid, with_bookings, confirm_locked,
}
use hivemind_backend.Bookings.Types.{
  is_attended, booking_key, Plan, is_confirmed, Booking, find_booking, Store, is_published,
  plan_key, find_plan,
}
use hivemind_backend.Prelude.{
  Option-cases, one_if, arith, find_where-update_first, ℕ, Result-cases, update_first, ◌⊎◌, ◌≡◌,
  ◌<◌, ◌+◌, ok, inr, inl, false, true, some, none, refl, sym, subst,
}

pub seated_store-tables :
    (now : ℕ) (b : Booking) (s : Store)
    → ((seated_store now b s).plans ≡ update_first (plan_key b.plan_id) take_seat s.plans)
      × ((seated_store now b s).bookings
          ≡ update_first (booking_key b.id) (confirm_row now) s.bookings)
unfolding notify_host seat_confirmed_booking with_bookings
seated_store-tables now b s = ground arith

-- A confirmation that goes through, on the row `b` as it stands in the tables.
pub confirm_locked-ok :
    (now : ℕ) (b : Booking) (s t : Store)
    → confirm_locked now b s ≡ ok t
    → (p : Plan) × (find_plan b.plan_id s ≡ some p)
      × (is_published p.status ≡ true)
      × (p.confirmed_count + active_holds now b.plan_id b.user_id s < p.capacity)
      × (t.plans ≡ update_first (plan_key b.plan_id) take_seat s.plans)
      × (t.bookings ≡ update_first (booking_key b.id) (confirm_row now) s.bookings)
confirm_locked-ok now b s t h = elim (confirm_locked-cases now b s) [
  | inl (e, f) ↦ absurd (ground arith)
  | inr (p, found, public, room, f) ↦
      let (plans, rows) = seated_store-tables now b s in
      (p, found, public, room, ground arith, ground arith)
]

pub confirm_locked-row :
    (now : ℕ) (b : Booking) (s t : Store)
    → find_booking b.id s ≡ some b
    → confirm_locked now b s ≡ ok t
    → find_booking b.id t ≡ some (confirm_row now b)
unfolding find_booking confirm_row
confirm_locked-row now b s t found h =
    let (p, _, _, _, _, rows) = confirm_locked-ok now b s t h in
    rw rows (
      rw
        (find_where-update_first (λ (r : Booking). r.id) (confirm_row now) (λ r. refl) b.id b.id
          s.bookings b found)
        (ground arith))

-- The plan's count after a confirmation, whatever the row in the tables was.
pub confirm_locked-plan :
    (now : ℕ) (b : Booking) (s t : Store) (p : Plan)
    → find_plan b.plan_id s ≡ some p
    → confirm_locked now b s ≡ ok t
    → find_plan b.plan_id t ≡ some (take_seat p)
unfolding find_plan take_seat
confirm_locked-plan now b s t p found h =
    let (q, _, _, _, plans, _) = confirm_locked-ok now b s t h in
    rw plans (
      rw
        (find_where-update_first (λ (r : Plan). r.id) take_seat (λ r. refl) b.plan_id b.plan_id
          s.plans p found)
        (ground arith))

-- The seats taken after a confirmation, by the row `r` that the tables hold at the time.
pub confirm_locked-seats :
    (now : ℕ) (b r : Booking) (s t : Store)
    → find_booking b.id s ≡ some r
    → r.plan_id ≡ b.plan_id
    → confirm_locked now b s ≡ ok t
    → seats b.plan_id t.bookings + one_if (is_seated r.status) ≡ seats b.plan_id s.bookings + 1
unfolding find_booking confirm_row
confirm_locked-seats now b r s t found same h =
    let (q, _, _, _, _, rows) = confirm_locked-ok now b s t h in
    rw rows (ground (arith, seats-update_first b.plan_id b.id (confirm_row now) s.bookings r found))

pub confirm_paid-ok :
    (now bid : ℕ) (s t : Store)
    → confirm_paid now bid s ≡ ok t
    → ((t ≡ s) × (confirm_read bid s ≡ ok none))
      ⊎ ((b : Booking) × (find_booking bid s ≡ some b)
          × (b.id ≡ bid)
          × (is_seated b.status ≡ false)
          × (confirm_locked now b s ≡ ok t))
unfolding confirm_paid
confirm_paid-ok now bid s t h = elim (Result-cases (confirm_read bid s)) [
  | inr (x, e) ↦ absurd (ground arith)
  | inl (none, e) ↦ inl (ground arith, e)
  | inl (some b, e) ↦
      let (found, unseated) = confirm_read-some bid s b e in
      inr (b, found, find_booking-id bid s b found, unseated, ground arith)
]

pub confirm_read-confirmed :
    (bid : ℕ) (s : Store) (b : Booking)
    → find_booking bid s ≡ some b
    → is_confirmed b.status ≡ true
    → confirm_read bid s ≡ ok none
unfolding confirm_read
confirm_read-confirmed bid s b found h = ground arith

-- After a confirmation that returned, a later one finds nothing to do: it returns and leaves the
-- tables as they are.
pub confirm_paid_twice :
    (now later bid : ℕ) (s t : Store)
    → confirm_paid now bid s ≡ ok t
    → confirm_paid later bid t ≡ ok t
unfolding confirm_paid confirm_row
confirm_paid_twice now later bid s t h = elim (confirm_paid-ok now bid s t h) [
  | inl (same, read) ↦ ground arith
  | inr (b, found, key, _, locked) ↦
      let row =
        subst (λ k. find_booking k t ≡ some (confirm_row now b)) key
          (confirm_locked-row now b s t (subst (λ k. find_booking k s ≡ some b) (sym key) found)
            locked) in
      ground (arith, confirm_read-confirmed bid t (confirm_row now b) row refl)
]

confirm_read-none :
    (bid : ℕ) (s : Store)
    → confirm_read bid s ≡ ok none
    → (b : Booking) × (find_booking bid s ≡ some b)
      × ((is_confirmed b.status ≡ true) ⊎ (is_attended b.status ≡ true))
unfolding confirm_read
confirm_read-none bid s h = elim (Option-cases (find_booking bid s)) [
  | inl e ↦ absurd (ground arith)
  | inr (b, e) ↦ (b, e, ground arith)
]

-- A confirmation that returns leaves the booking confirmed, or attended where it was already.
pub confirm_paid-confirmed :
    (now bid : ℕ) (s t : Store)
    → confirm_paid now bid s ≡ ok t
    → (b : Booking) × (find_booking bid t ≡ some b)
      × ((is_confirmed b.status ≡ true) ⊎ (is_attended b.status ≡ true))
unfolding confirm_row
confirm_paid-confirmed now bid s t h = elim (confirm_paid-ok now bid s t h) [
  | inl (same, read) ↦
      confirm_read-none bid t (subst (λ u. confirm_read bid u ≡ ok none) (sym same) read)
  | inr (b, found, key, _, locked) ↦ (
    confirm_row now b,
    subst (λ k. find_booking k t ≡ some (confirm_row now b)) key
        (confirm_locked-row now b s t (subst (λ k. find_booking k s ≡ some b) (sym key) found)
          locked),
    inl refl,
  )
]
