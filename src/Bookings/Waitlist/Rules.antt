-- ===== src/Bookings/Waitlist/Rules.antt =====
-- What a sweep, a leave and a join do to the queue.
use hivemind_backend.Bookings.Waitlist.Queue.{offer_seats-All}
use hivemind_backend.Bookings.Types.{
  find_plan, Plan, WaitlistState, is_booked_by, WaitlistEntry, is_waiting, Store, is_published,
}
use hivemind_backend.Bookings.Create.{active_holds, is_live_entry_of}
use hivemind_backend.Bookings.Waitlist.{
  requeue, offer_for_plans, join_queue, make_offer, offer_freed_seats, offer_for, is_entry_of,
  queue_up, free_seats, WaitlistView, waiting_at, join_waitlist, leave_waitlist, is_stale,
  sweep_waitlist, expire_entry, offer_for_plan, waits_for,
}
use hivemind_backend.Prelude.{
  any_where-find, update_first_same, ltb, arith, update_where, Bool, ℕ, count_where, Option-cases,
  Result-cases, List, All, find_where, Bool-cases, ◌≡◌, ◌<◌, ◌≤◌, ◌&&◌, ◌+◌, ◌∷◌, ok, inr, inl,
  false, true, [], some, subst,
}

-- An entry whose offer has not run out.
abbrev pub IsFresh : ℕ → WaitlistEntry → Type 0
IsFresh now e = is_stale now e ≡ false

update_where-All {κ} :
    (P : WaitlistEntry → Type κ) (f : WaitlistEntry → Bool) (g : WaitlistEntry → WaitlistEntry)
    (es : List WaitlistEntry)
    → ((x : WaitlistEntry) → f x ≡ true → P (g x))
    → ((x : WaitlistEntry) → f x ≡ false → P x)
    → All P (update_where f g es)
unfolding update_where
update_where-All P f g [] yes_case no_case = tt
update_where-All P f g (y ∷ ys) yes_case no_case = elim (Bool-cases (f y)) [
  | inl e ↦ rw e (yes_case y e, update_where-All P f g ys yes_case no_case)
  | inr e ↦ rw e (no_case y e, update_where-All P f g ys yes_case no_case)
]

-- A property that offers keep is kept by every call that only makes offers.
offer_freed_seats-All {κ} :
    (P : WaitlistEntry → Type κ) (now pid : ℕ) (s t : Store)
    → ((r : WaitlistEntry) → waits_for pid r ≡ true → P r → P (make_offer now r))
    → offer_freed_seats now pid s ≡ ok t
    → All P s.waitlist
    → All P t.waitlist
unfolding offer_freed_seats offer_for
offer_freed_seats-All P now pid s t keep h a = elim (Option-cases (find_plan pid s)) [
  | inl e ↦ absurd (ground arith)
  | inr (p, e) ↦ elim (Bool-cases (is_published p.status && ltb now p.starts_at)) [
    | inl go ↦
        subst (λ (w : List WaitlistEntry). All P w) (ground arith)
          (offer_seats-All P (free_seats now pid p s) now pid s.waitlist keep a)
    | inr stop ↦ subst (λ (w : List WaitlistEntry). All P w) (ground arith) a
  ]
]

offer_for_plans-IsFresh :
    (now : ℕ) (pids : List ℕ) (s : Store)
    → All (IsFresh now) s.waitlist
    → All (IsFresh now) (offer_for_plans now pids s).0.waitlist
unfolding offer_for_plans offer_for_plan make_offer
offer_for_plans-IsFresh now [] s a = a
offer_for_plans-IsFresh now (pid ∷ pids) s a = elim (Result-cases (offer_for_plan now pid s)) [
  | inl (t, h) ↦
      rw (h, offer_for_plans)
        (offer_for_plans-IsFresh now pids t (
          offer_freed_seats-All (IsFresh now) now pid s t (λ r w f. ground arith) (ground arith) a))
  | inr (x, h) ↦ rw (h, offer_for_plans) a
]

-- After a sweep at `now` no offer of any plan is left that has run out by then, whether the loop
-- over the plans went through or stopped at an error.
pub sweep_waitlist-IsFresh :
    (now : ℕ) (s : Store) → All (IsFresh now) (sweep_waitlist now s).0.waitlist
unfolding sweep_waitlist expire_entry
sweep_waitlist-IsFresh now s = offer_for_plans-IsFresh now _ _ (
    update_where-All (IsFresh now) (is_stale now) (expire_entry now) s.waitlist
      (λ x e. ground arith) (λ x e. e))

-- A user who leaves has no waiting entry and no offer on the plan any more.
pub leave_waitlist-leaves :
    (now pid uid : ℕ) (s t : Store)
    → leave_waitlist now pid uid s ≡ ok t
    → All (λ e. is_live_entry_of pid uid e ≡ false) t.waitlist
unfolding leave_waitlist make_offer
leave_waitlist-leaves now pid uid s t h =
    offer_freed_seats-All (λ e. is_live_entry_of pid uid e ≡ false) now pid left_store t
      (λ r w f. ground arith) (ground arith)
      (update_where-All (λ e. is_live_entry_of pid uid e ≡ false) (is_live_entry_of pid uid) _
        s.waitlist (λ x e. ground arith) (λ x e. e))
  where
    left_store : Store
    left_store = record s {
      waitlist =
          update_where (is_live_entry_of pid uid)
            (λ e. record e { state = WaitlistState.left; updated_at = now }) s.waitlist;
    }

-- A join that puts the caller into the queue found the plan published, not started and with no
-- seat that is not taken or held for others, and no confirmed booking of the caller.
pub join_waitlist-waiting :
    (now id pid uid position total : ℕ) (s t : Store)
    → join_waitlist now id pid uid s ≡ ok (t, waiting_at position total)
    → (p : Plan) × (find_plan pid s ≡ some p)
      × (is_published p.status ≡ true)
      × (now < p.starts_at)
      × (p.capacity ≤ p.confirmed_count + active_holds now pid uid s)
      × (count_where (is_booked_by pid uid) s.bookings ≡ 0)
unfolding join_waitlist join_queue
join_waitlist-waiting now id pid uid position total s t h = elim (Option-cases (find_plan pid s)) [
  | inl e ↦ absurd (ground arith)
  | inr (p, e) ↦ (p, e, ground arith, ground arith, ground arith, ground arith)
]

-- Whoever waits already keeps their place when they join again: the table does not change.
pub join_waitlist_again :
    (now id pid uid : ℕ) (s t : Store) (e : WaitlistEntry) (seen : WaitlistView)
    → find_where (is_entry_of pid uid) s.waitlist ≡ some e
    → is_waiting e.state ≡ true
    → join_waitlist now id pid uid s ≡ ok (t, seen)
    → t.waitlist ≡ s.waitlist
unfolding join_waitlist join_queue queue_up requeue
join_waitlist_again now id pid uid s t e seen found waits h = ground (
  arith,
  any_where-find (is_entry_of pid uid) s.waitlist e found,
  update_first_same (is_entry_of pid uid) (requeue now) s.waitlist e found,
)
