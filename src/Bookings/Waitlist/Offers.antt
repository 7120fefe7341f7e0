-- ===== src/Bookings/Waitlist/Offers.antt =====
-- Offers fill the free seats of a plan and no more.
use hivemind_backend.Bookings.Waitlist.{
  is_head, free_seats, offer_seats, offer_freed_seats, first_waiting, make_offer, offer_for,
}
use hivemind_backend.Bookings.Waitlist.Queue.{first_waiting-found}
use hivemind_backend.Bookings.Types.{is_published, WaitlistEntry, Store, find_plan, Plan}
use hivemind_backend.Bookings.Create.{is_offer_to_other, active_holds}
use hivemind_backend.Prelude.{
  All-update_first, ◌<◌, true, ◌==◌, ◌-◌, ◌+◌, ◌⊎◌, arith, ◌≤◌, ◌≡◌, find_where_sound, ℕ,
  Option-cases, count_where, Bool, count_where-update_first, find_where, All, List, update_first,
  Bool-cases, ◌∷◌, ok, inr, inl, false, [], some, none, subst, suc, zero,
}

abbrev pub offers : ℕ → ℕ → List WaitlistEntry → ℕ
offers now pid es = count_where (is_offer_to_other now pid 0) es

-- Every entry belongs to a user: the column is NOT NULL.
abbrev pub HasUsers : List WaitlistEntry → Type 0
HasUsers es = All (λ e. (e.user_id == 0) ≡ false) es

offer_one-le :
    (now pid : ℕ) (es : List WaitlistEntry) (e : WaitlistEntry)
    → first_waiting pid es ≡ some e
    → offers now pid (update_first (is_head pid e) (make_offer now) es) ≤ offers now pid es + 1
unfolding make_offer
offer_one-le now pid es e h =
    let (r, found) = first_waiting-found pid es e h in
    let moved =
      count_where-update_first (is_offer_to_other now pid 0) (is_head pid e) (make_offer now) es r
        found in
    ground (arith, moved)

All-find {κ} :
    (P : WaitlistEntry → Type κ) (f : WaitlistEntry → Bool) (es : List WaitlistEntry)
    (r : WaitlistEntry)
    → find_where f es ≡ some r
    → All P es
    → P r
unfolding find_where
All-find P f [] r h a = absurd (ground arith)
All-find P f (y ∷ ys) r h a = elim (Bool-cases (f y)) [
  | inl here ↦ subst P (ground arith) a.0
  | inr there ↦ All-find P f ys r (ground arith) a.1
]

offer_one-eq :
    (now pid : ℕ) (es : List WaitlistEntry) (e : WaitlistEntry)
    → HasUsers es
    → first_waiting pid es ≡ some e
    → offers now pid (update_first (is_head pid e) (make_offer now) es) ≡ offers now pid es + 1
unfolding make_offer
offer_one-eq now pid es e users h =
    let (r, found) = first_waiting-found pid es e h in
    let moved =
      count_where-update_first (is_offer_to_other now pid 0) (is_head pid e) (make_offer now) es r
        found in
    let head = find_where_sound (is_head pid e) es r found in
    let known = All-find (λ d. (d.user_id == 0) ≡ false) (is_head pid e) es r found users in
    ground (arith, moved, head, known)

offer_one-HasUsers :
    (now pid : ℕ) (es : List WaitlistEntry) (e : WaitlistEntry)
    → HasUsers es
    → HasUsers (update_first (is_head pid e) (make_offer now) es)
unfolding make_offer
offer_one-HasUsers now pid es e users =
    All-update_first (λ d. (d.user_id == 0) ≡ false) (is_head pid e) (make_offer now) es
      (λ x t u. u) users

pub offer_seats-le :
    (n now pid : ℕ) (es : List WaitlistEntry)
    → offers now pid (offer_seats n now pid es).0 ≤ offers now pid es + n
unfolding offer_seats
offer_seats-le zero now pid es = omega arith
offer_seats-le (suc n) now pid es = elim (Option-cases (first_waiting pid es)) [
  | inl h ↦ rw (h, offer_seats) (omega arith)
  | inr (e, h) ↦
      rw (h, offer_seats) (omega (arith, offer_seats-le n now pid _, offer_one-le now pid es e h))
]

-- Each offer takes one seat, until all seats are offered or nobody waits.
pub offer_seats-eq :
    (n now pid : ℕ) (es : List WaitlistEntry)
    → HasUsers es
    → (first_waiting pid (offer_seats n now pid es).0 ≡ none)
      ⊎ (offers now pid (offer_seats n now pid es).0 ≡ offers now pid es + n)
unfolding offer_seats
offer_seats-eq zero now pid es users = inr (omega arith)
offer_seats-eq (suc n) now pid es users = elim (Option-cases (first_waiting pid es)) [
  | inl h ↦ inl (rw (h, offer_seats) h)
  | inr (e, h) ↦
      elim (offer_seats-eq n now pid (update_first (is_head pid e) (make_offer now) es)
        (offer_one-HasUsers now pid es e users)) [
          | inl empty ↦ inl (rw (h, offer_seats) empty)
          | inr all ↦
              inr (rw (h, offer_seats) (omega (arith, all, offer_one-eq now pid es e users h)))
        ]
]

-- The offers of freed seats, where they return, keep the seats taken and held within the plan's
-- capacity, if they were before.
pub offer_freed_seats_fits :
    (now pid : ℕ) (s t : Store) (p : Plan)
    → find_plan pid s ≡ some p
    → p.confirmed_count + active_holds now pid 0 s ≤ p.capacity
    → offer_freed_seats now pid s ≡ ok t
    → p.confirmed_count + active_holds now pid 0 t ≤ p.capacity
unfolding offer_freed_seats offer_for free_seats active_holds
offer_freed_seats_fits now pid s t p found fits h = ground (
  arith,
  offer_seats-le (p.capacity - p.confirmed_count - active_holds now pid 0 s) now pid s.waitlist,
)

-- After the offers for a plan that is published and has not started, either nobody waits for it any
-- more, or every seat is taken or held: no seat stays free beside a queue. Every row of the
-- waitlist has a user.
pub offer_freed_seats_fills :
    (now pid : ℕ) (s t : Store) (p : Plan)
    → HasUsers s.waitlist
    → find_plan pid s ≡ some p
    → is_published p.status ≡ true
    → now < p.starts_at
    → offer_freed_seats now pid s ≡ ok t
    → (first_waiting pid t.waitlist ≡ none)
      ⊎ (p.capacity ≤ p.confirmed_count + active_holds now pid 0 t)
unfolding offer_freed_seats offer_for free_seats active_holds
offer_freed_seats_fills now pid s t p users found public early h = ground (
  arith,
  offer_seats-eq (p.capacity - p.confirmed_count - active_holds now pid 0 s) now pid s.waitlist
      users,
)
