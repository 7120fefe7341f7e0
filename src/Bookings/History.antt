-- ===== src/Bookings/History.antt =====
-- A history of internal/bookings: the calls of the API server and the worker, one after another,
-- each at its own time. A call that returns an error leaves the tables as they were.
use hivemind_backend.Prelude.{ℕ, Bool, List, [], ◌∷◌, after, first, map_ok}
use hivemind_backend.Bookings.Types.{Booking, Store}
use hivemind_backend.Bookings.Create.{create}
use hivemind_backend.Bookings.Waitlist.{
  join_waitlist, leave_waitlist, sweep_waitlist, expire_waitlist_for_plan,
}
use hivemind_backend.Bookings.Lifecycle.{
  confirm_paid, expire_pending, cancel, check_in, complete_ended_plans, mark_no_shows,
}

pub data Call : Type 0 where
  creates : (id : ℕ) → Booking → Call
  confirms : (bid : ℕ) → Call
  cancels : (bid reason : ℕ) → Bool → Call
  checks_in : (bid by : ℕ) → Call
  joins_waitlist : (id pid uid : ℕ) → Call
  leaves_waitlist : (pid uid : ℕ) → Call
  expires_waitlist : (pid : ℕ) → Call
  sweeps expires_pending completes_plans marks_no_shows : Call

unfoldable pub step : Store → ℕ × Call → Store
step s (now, creates id b) = after s (map_ok first (create now id b s))
step s (now, confirms bid) = after s (confirm_paid now bid s)
step s (now, cancels bid reason by_host) = after s (map_ok first (cancel now bid reason by_host s))
step s (now, checks_in bid by) = after s (map_ok first (check_in now bid by s))
step s (now, joins_waitlist id pid uid) = after s (map_ok first (join_waitlist now id pid uid s))
step s (now, leaves_waitlist pid uid) = after s (leave_waitlist now pid uid s)
step s (now, expires_waitlist pid) = expire_waitlist_for_plan now pid s
step s (now, sweeps) = (sweep_waitlist now s).0
step s (now, expires_pending) = (expire_pending now s).0
step s (now, completes_plans) = (complete_ended_plans now s).0
step s (now, marks_no_shows) = (mark_no_shows now s).0

unfoldable pub run : Store → List (ℕ × Call) → Store
run s [] = s
run s (c ∷ cs) = run (step s c) cs
