-- ===== src/Bookings/Seats/Invariant.antt =====
-- No history of calls overbooks a plan.
use hivemind_backend.Bookings.Seats.Settle.{confirm_paid-WellFormed}
use hivemind_backend.Bookings.Seats.Reserve.{create-WellFormed}
use hivemind_backend.Bookings.Seats.Release.{
  check_in-WellFormed, cancel-WellFormed, offer_freed_seats-tables,
}
use hivemind_backend.Bookings.Create.{is_live_entry_of, cancel_row}
use hivemind_backend.Bookings.Lifecycle.{
  has_ended, is_overdue, is_no_show, no_show_row, complete_plan, complete_ended_plans,
  mark_no_shows, expire_pending,
}
use hivemind_backend.Bookings.History.{
  creates, confirms, cancels, checks_in, joins_waitlist, leaves_waitlist, expires_waitlist, sweeps,
  expires_pending, completes_plans, marks_no_shows, Call, step, run,
}
use hivemind_backend.Bookings.Waitlist.{
  expire_waitlist_for_plan, sweep_waitlist, leave_waitlist, offer_for_plan, offer_for_plans,
  join_queue, WaitlistView, join_waitlist, offer_freed_seats,
}
use hivemind_backend.Bookings.Seats.{Agrees, takes_seat_of, seats, WellFormed-keep, WellFormed}
use hivemind_backend.Prelude.{
  [], none, refl, some, if◌then◌else◌, map_some, Option, update_where, find_where-update_where, ◌∷◌,
  count_where-update_where, inr, List, arith, inl, ok, first, Result-cases, ap, map_ok, after, ◌≡◌,
  ℕ,
}
use hivemind_backend.Bookings.Types.{WaitlistState, Plan, Booking, find_plan, Store}

-- Calls that change neither plans nor bookings.
waitlist-WellFormed :
    (s t : Store) → t.plans ≡ s.plans → t.bookings ≡ s.bookings → WellFormed s → WellFormed t
waitlist-WellFormed s t plans rows v = WellFormed-keep s t plans (λ q. ap (seats q) rows) v

offer_freed_seats-WellFormed :
    (now pid : ℕ) (s : Store) → WellFormed s → WellFormed (after s (offer_freed_seats now pid s))
offer_freed_seats-WellFormed now pid s v = elim (Result-cases (offer_freed_seats now pid s)) [
  | inl (t, h) ↦
      let (plans, rows) = offer_freed_seats-tables now pid s t h in
      rw h (waitlist-WellFormed s t plans rows v)
  | inr (x, h) ↦ rw h v
]

join_waitlist-tables :
    (now id pid uid : ℕ) (s t : Store) (seen : WaitlistView)
    → join_waitlist now id pid uid s ≡ ok (t, seen)
    → (t.plans ≡ s.plans) × (t.bookings ≡ s.bookings)
unfolding join_waitlist join_queue
join_waitlist-tables now id pid uid s t seen h = ground arith

join_waitlist-WellFormed :
    (now id pid uid : ℕ) (s : Store)
    → WellFormed s
    → WellFormed (after s (map_ok first (join_waitlist now id pid uid s)))
join_waitlist-WellFormed now id pid uid s v = elim (Result-cases (join_waitlist now id pid uid s)) [
  | inl ((t, seen), h) ↦
      let (plans, rows) = join_waitlist-tables now id pid uid s t seen h in
      rw h (waitlist-WellFormed s t plans rows v)
  | inr (x, h) ↦ rw h v
]

leave_waitlist-WellFormed :
    (now pid uid : ℕ) (s : Store)
    → WellFormed s
    → WellFormed (after s (leave_waitlist now pid uid s))
unfolding leave_waitlist
leave_waitlist-WellFormed now pid uid s v = elim (Result-cases (leave_waitlist now pid uid s)) [
  | inl (t, h) ↦
      let (plans, rows) = leave_waitlist-tables now pid uid s t h in
      rw h (waitlist-WellFormed s t plans rows v)
  | inr (x, h) ↦ rw h v
]
  where
    leave_waitlist-tables :
        (now pid uid : ℕ) (s t : Store)
        → leave_waitlist now pid uid s ≡ ok t
        → (t.plans ≡ s.plans) × (t.bookings ≡ s.bookings)
    leave_waitlist-tables now pid uid s t h = ground (
      arith,
      offer_freed_seats-tables now pid
          (record s {
            waitlist =
                update_where (is_live_entry_of pid uid)
                  (λ e. record e { state = WaitlistState.left; updated_at = now }) s.waitlist;
          })
          t,
    )

offer_for_plan-WellFormed :
    (now pid : ℕ) (s t : Store) → offer_for_plan now pid s ≡ ok t → WellFormed s → WellFormed t
unfolding offer_for_plan
offer_for_plan-WellFormed now pid s t h v =
    let (plans, rows) = tables in waitlist-WellFormed s t plans rows v
  where
    tables : (t.plans ≡ s.plans) × (t.bookings ≡ s.bookings)
    tables = ground (arith, offer_freed_seats-tables now pid s t)

offer_for_plans-WellFormed :
    (now : ℕ) (pids : List ℕ) (s : Store) → WellFormed s → WellFormed (offer_for_plans now pids s).0
unfolding offer_for_plans
offer_for_plans-WellFormed now [] s v = v
offer_for_plans-WellFormed now (pid ∷ pids) s v = elim (Result-cases (offer_for_plan now pid s)) [
  | inl (t, h) ↦
      rw (h, offer_for_plans)
        (offer_for_plans-WellFormed now pids t (offer_for_plan-WellFormed now pid s t h v))
  | inr (x, h) ↦ rw (h, offer_for_plans) v
]

sweep_waitlist-WellFormed :
    (now : ℕ) (s : Store) → WellFormed s → WellFormed (sweep_waitlist now s).0
unfolding sweep_waitlist
sweep_waitlist-WellFormed now s v =
    offer_for_plans-WellFormed now _ _ (waitlist-WellFormed s _ refl refl v)

expire_pending-WellFormed :
    (now : ℕ) (s : Store) → WellFormed s → WellFormed (expire_pending now s).0
unfolding expire_pending cancel_row
expire_pending-WellFormed now s v =
    WellFormed-keep s _ refl
      (λ q.
        count_where-update_where (takes_seat_of q) (is_overdue now) (cancel_row now) s.bookings
          (λ b h. ground arith))
      v

mark_no_shows-WellFormed : (now : ℕ) (s : Store) → WellFormed s → WellFormed (mark_no_shows now s).0
unfolding mark_no_shows no_show_row is_no_show
mark_no_shows-WellFormed now s v =
    WellFormed-keep s _ refl
      (λ q.
        count_where-update_where (takes_seat_of q) (is_no_show now s) (no_show_row now) s.bookings
          (λ b h. ground arith))
      v

complete-Agrees :
    (q now : ℕ) (bs : List Booking) (o : Option Plan)
    → Agrees q bs o
    → Agrees q bs (map_some (λ p. if has_ended now p then complete_plan p else p) o)
unfolding complete_plan
complete-Agrees q now bs none h = tt
complete-Agrees q now bs (some p) h = ground arith

complete_ended_plans-WellFormed :
    (now : ℕ) (s : Store) → WellFormed s → WellFormed (complete_ended_plans now s).0
unfolding complete_ended_plans find_plan complete_plan
complete_ended_plans-WellFormed now s v = record {
  agrees = λ q.
      rw
        (find_where-update_where (λ (p : Plan). p.id) complete_plan (λ p. refl) (has_ended now) q
          s.plans)
        (complete-Agrees q now s.bookings _ (v.agrees q));
}

pub step-WellFormed : (s : Store) (c : ℕ × Call) → WellFormed s → WellFormed (step s c)
unfolding step expire_waitlist_for_plan
step-WellFormed s (now, creates id b) v = create-WellFormed now id b s v
step-WellFormed s (now, confirms bid) v = confirm_paid-WellFormed now bid s v
step-WellFormed s (now, cancels bid reason by_host) v = cancel-WellFormed now bid reason by_host s v
step-WellFormed s (now, checks_in bid by) v = check_in-WellFormed now bid by s v
step-WellFormed s (now, joins_waitlist id pid uid) v = join_waitlist-WellFormed now id pid uid s v
step-WellFormed s (now, leaves_waitlist pid uid) v = leave_waitlist-WellFormed now pid uid s v
step-WellFormed s (now, expires_waitlist pid) v = waitlist-WellFormed s _ refl refl v
step-WellFormed s (now, sweeps) v = sweep_waitlist-WellFormed now s v
step-WellFormed s (now, expires_pending) v = expire_pending-WellFormed now s v
step-WellFormed s (now, completes_plans) v = complete_ended_plans-WellFormed now s v
step-WellFormed s (now, marks_no_shows) v = mark_no_shows-WellFormed now s v

-- After any history of calls, each run to its end before the next, every plan's `confirmed_count`
-- is the number of its bookings that are confirmed, attended or no-show, and is at most its
-- capacity, if that was so before.
pub run-WellFormed : (s : Store) (cs : List (ℕ × Call)) → WellFormed s → WellFormed (run s cs)
unfolding run
run-WellFormed s [] v = v
run-WellFormed s (c ∷ cs) v = run-WellFormed (step s c) cs (step-WellFormed s c v)
