-- ===== src/Bookings/Seats.antt =====
-- The seat count of a plan against its bookings, under every call of internal/bookings.
pub mod Reserve
pub mod Settle
pub mod Release
pub mod Invariant
use hivemind_backend.Prelude.{
  ℕ, ◌+◌, ◌≤◌, ◌≡◌, subst, ◌≢◌, Bool, true, false, Option, none, some, List, ◌&&◌, ◌==◌, arith, inl,
  inr, Bool-cases, one_if, count_where, find_where, update_first, count_where-update_first,
  find_where-update_first,
}
use hivemind_backend.Bookings.Types.{
  Booking, BookingStatus, Plan, Store, plan_key, booking_key, find_plan,
}

-- A booking that takes a seat: confirmed, checked in, or absent at the door.
abbrev pub is_seated : BookingStatus → Bool
is_seated BookingStatus.confirmed = true
is_seated BookingStatus.attended = true
is_seated BookingStatus.no_show = true
is_seated _ = false

abbrev pub takes_seat_of : ℕ → Booking → Bool
takes_seat_of pid b = b.plan_id == pid && is_seated b.status

abbrev pub seats : ℕ → List Booking → ℕ
seats pid bs = count_where (takes_seat_of pid) bs

abbrev pub Agrees : ℕ → List Booking → Option Plan → Type 0
Agrees pid bs none = Unit
Agrees pid bs (some p) = (p.confirmed_count ≡ seats pid bs) × (p.confirmed_count ≤ p.capacity)

-- Every plan counts the bookings that take a seat of it, and they fit its capacity.
pub record WellFormed (s : Store) : Type 0 where
  pub agrees : (pid : ℕ) → Agrees pid s.bookings (find_plan pid s)

Agrees-seats :
    (q : ℕ) (bs cs : List Booking) (o : Option Plan)
    → seats q cs ≡ seats q bs
    → Agrees q bs o
    → Agrees q cs o
Agrees-seats q bs cs none e h = tt
Agrees-seats q bs cs (some p) e h = rw e h

Agrees-update :
    (q pid : ℕ) (bs cs : List Booking) (g : Plan → Plan) (ps : List Plan) (p : Plan)
    → ((r : Plan) → (g r).id ≡ r.id)
    → find_where (plan_key pid) ps ≡ some p
    → Agrees pid cs (some (g p))
    → (q ≢ pid → seats q cs ≡ seats q bs)
    → Agrees q bs (find_where (plan_key q) ps)
    → Agrees q cs (find_where (plan_key q) (update_first (plan_key pid) g ps))
Agrees-update q pid bs cs g ps p same found new others old =
    rw (find_where-update_first (λ (r : Plan). r.id) g same pid q ps p found)
      (elim (Bool-cases (pid == q)) [
        | inl e ↦ ground (arith, new)
        | inr ne ↦ rw ne (Agrees-seats q bs cs _ (others (ground arith)) old)
      ])

-- What leaves the plans and the seats taken keeps the invariant.
pub WellFormed-keep :
    (s t : Store)
    → t.plans ≡ s.plans
    → ((q : ℕ) → seats q t.bookings ≡ seats q s.bookings)
    → WellFormed s
    → WellFormed t
unfolding find_plan
WellFormed-keep s t e same v = record {
  agrees = λ q. rw e (Agrees-seats q s.bookings t.bookings _ (same q) (v.agrees q));
}

-- So does an update of one plan that agrees with its bookings again.
pub WellFormed-update :
    (s t : Store) (pid : ℕ) (g : Plan → Plan) (p : Plan)
    → ((r : Plan) → (g r).id ≡ r.id)
    → find_plan pid s ≡ some p
    → t.plans ≡ update_first (plan_key pid) g s.plans
    → Agrees pid t.bookings (some (g p))
    → ((q : ℕ) → q ≢ pid → seats q t.bookings ≡ seats q s.bookings)
    → WellFormed s
    → WellFormed t
unfolding find_plan
WellFormed-update s t pid g p same found e new others v = record {
  agrees = λ q. rw e (
      Agrees-update q pid s.bookings t.bookings g s.plans p same found new (others q) (v.agrees q));
}

-- The plan that a lookup finds agrees with the bookings.
pub WellFormed-found :
    (s : Store) (pid : ℕ) (p : Plan)
    → WellFormed s
    → find_plan pid s ≡ some p
    → (p.confirmed_count ≡ seats pid s.bookings) × (p.confirmed_count ≤ p.capacity)
WellFormed-found s pid p v found = subst (Agrees pid s.bookings) found (v.agrees pid)

-- A booking whose status changes moves the seats of its own plan alone.
pub seats-update_first :
    (q bid : ℕ) (g : Booking → Booking) (bs : List Booking) (b : Booking)
    → find_where (booking_key bid) bs ≡ some b
    → seats q (update_first (booking_key bid) g bs) + one_if (takes_seat_of q b)
      ≡ seats q bs + one_if (takes_seat_of q (g b))
seats-update_first q bid g bs b found =
    count_where-update_first (takes_seat_of q) (booking_key bid) g bs b found
