-- ===== src/Bookings/Waitlist.antt =====
-- The waitlist (waitlist.go): offers of freed seats, joining, leaving, the sweep of stale offers.
pub mod Rules
pub mod Offers
pub mod Queue
-- `SKIP LOCKED` skips nothing here, since the calls hold the plan's row lock one at a time.
use hivemind_backend.Prelude.{
  ℕ, zero, suc, ◌+◌, ◌-◌, Bool, true, false, Option, none, some, List, [], ◌∷◌, ◌&&◌, ◌||◌, ◌==◌,
  ltb, leb, if◌then◌else◌, length, count_where, find_where, any_where, select_where, update_where,
  update_first, ok, err, Result, ◌>>=◌, ◌>>◌, or_err, guard,
}
use hivemind_backend.Bookings.Types.{
  already_booked, plan_not_found, notify_user, not_full, Plan, WaitlistEntry, WaitlistState, Event,
  Store, Error, Outcome, is_published, is_waiting, is_offered, find_plan, is_booked_by,
}
use hivemind_backend.Bookings.Create.{active_holds, is_live_entry_of}

-- 30 minutes, in microseconds.
abbrev pub waitlist_offer_ttl : ℕ
waitlist_offer_ttl = 1_800_000_000

abbrev pub waits_for : ℕ → WaitlistEntry → Bool
waits_for pid e = e.plan_id == pid && is_waiting e.state

-- The order `created_at, id`.
abbrev pub precedes : WaitlistEntry → WaitlistEntry → Bool
precedes d e = ltb d.created_at e.created_at || (d.created_at == e.created_at && ltb d.id e.id)

abbrev pub earlier : WaitlistEntry → Option WaitlistEntry → WaitlistEntry
earlier e none = e
earlier e (some d) = if precedes d e then d else e

-- The head of the queue.
unfoldable pub first_waiting : ℕ → List WaitlistEntry → Option WaitlistEntry
first_waiting pid [] = none
first_waiting pid (e ∷ es) =
    let rest = first_waiting pid es in if waits_for pid e then some (earlier e rest) else rest

unfoldable pub make_offer : ℕ → WaitlistEntry → WaitlistEntry
make_offer now e = record e {
  state = WaitlistState.offered;
  offered_at = some now;
  offer_expires_at = some (now + waitlist_offer_ttl);
  updated_at = now;
}

abbrev pub is_head : ℕ → WaitlistEntry → WaitlistEntry → Bool
is_head pid e r = waits_for pid r && r.id == e.id

-- The UPDATE of `offerFreedSeats` with its ORDER BY and LIMIT: the new table and the rows picked.
unfoldable pub offer_seats :
    ℕ → ℕ → ℕ → List WaitlistEntry → List WaitlistEntry × List WaitlistEntry
offer_seats zero now pid es = (es, [])
offer_seats (suc n) now pid es = elim (first_waiting pid es) [
  | none ↦ (es, [])
  | some e ↦
      let rest = offer_seats n now pid (update_first (is_head pid e) (make_offer now) es) in
      (rest.0, e ∷ rest.1)
]

-- One NOTIFY_USER event for each user who was offered a seat.
unfoldable pub enqueue_offers : ℕ → List WaitlistEntry → List Event → List Event
enqueue_offers pid [] box = box
enqueue_offers pid (e ∷ es) box = enqueue_offers pid es (Event.notify_user e.user_id pid ∷ box)

-- `capacity - confirmed - holds`; on the numbers it is 0 where the code's int32 is not positive,
-- and the code offers nothing in both cases.
unfoldable pub free_seats : ℕ → ℕ → Plan → Store → ℕ
free_seats now pid p s = p.capacity - p.confirmed_count - active_holds now pid 0 s

unfoldable pub offer_for : ℕ → ℕ → Plan → Store → Store
offer_for now pid p s =
    let picked = offer_seats (free_seats now pid p s) now pid s.waitlist in
    record s { waitlist = picked.0; outbox = enqueue_offers pid picked.1 s.outbox }

-- `offerFreedSeats`
unfoldable pub offer_freed_seats : ℕ → ℕ → Store → Result Error Store
offer_freed_seats now pid s = do
  p ← or_err (find_plan pid s) Error.plan_not_found
  if is_published p.status && ltb now p.starts_at then ok (offer_for now pid p s) else ok s

-- What a caller sees of their entry.
pub data WaitlistView : Type 0 where
  not_listed : WaitlistView
  waiting_at : (position total : ℕ) → WaitlistView
  offered_until : ℕ → WaitlistView

abbrev pub is_entry_of : ℕ → ℕ → WaitlistEntry → Bool
is_entry_of pid uid e = e.plan_id == pid && e.user_id == uid

-- `(created_at, id) <= ($2, $3)` among the waiting.
abbrev pub is_not_behind : ℕ → WaitlistEntry → WaitlistEntry → Bool
is_not_behind pid e d =
    waits_for pid d && (precedes d e || (d.created_at == e.created_at && d.id == e.id))

unfoldable pub view_entry : ℕ → ℕ → WaitlistEntry → List WaitlistEntry → WaitlistView
view_entry now pid e es = elim e.state [
  | WaitlistState.offered ↦ elim e.offer_expires_at [
    | none ↦ not_listed
    | some t ↦ if ltb now t then offered_until t else not_listed
  ]
  | WaitlistState.waiting ↦
      waiting_at (count_where (is_not_behind pid e) es) (count_where (waits_for pid) es)
  | _ ↦ not_listed
]

-- `waitlistStatus`
unfoldable pub waitlist_status : ℕ → ℕ → ℕ → List WaitlistEntry → WaitlistView
waitlist_status now pid uid es = elim (find_where (is_entry_of pid uid) es) [
  | none ↦ not_listed
  | some e ↦ view_entry now pid e es
]

abbrev pub can_requeue : WaitlistState → Bool
can_requeue WaitlistState.left = true
can_requeue WaitlistState.expired = true
can_requeue WaitlistState.accepted = true
can_requeue _ = false

unfoldable pub requeue : ℕ → WaitlistEntry → WaitlistEntry
requeue now e =
    if can_requeue e.state
    then record e {
      state = WaitlistState.waiting;
      created_at = now;
      offered_at = none;
      offer_expires_at = none;
      updated_at = now;
    }
    else e

-- `INSERT … ON CONFLICT (plan_id, user_id) DO UPDATE … WHERE status IN ('left', 'expired',
-- 'accepted')`: an entry that is still waiting or offered keeps its place.
unfoldable pub queue_up : ℕ → ℕ → ℕ → ℕ → List WaitlistEntry → List WaitlistEntry
queue_up now id pid uid es =
    if any_where (is_entry_of pid uid) es
    then update_first (is_entry_of pid uid) (requeue now) es
    else (record {
      id = id;
      plan_id = pid;
      user_id = uid;
      state = WaitlistState.waiting;
      created_at = now;
      offered_at = none;
      offer_expires_at = none;
      updated_at = now;
    })
      ∷ es

abbrev pub holds_offer : WaitlistView → Bool
holds_offer (offered_until t) = true
holds_offer _ = false

-- The end of `JoinWaitlist`: the test for free seats and the insert.
unfoldable pub join_queue : ℕ → ℕ → ℕ → ℕ → Plan → Store → Outcome WaitlistView
join_queue now id pid uid p s = do
  guard (leb p.capacity (p.confirmed_count + active_holds now pid uid s)) Error.not_full
  let es = queue_up now id pid uid s.waitlist
  ok (record s { waitlist = es }, waitlist_status now pid uid es)

-- `JoinWaitlist`; `id` is the key that the database draws for a new row.
unfoldable pub join_waitlist : ℕ → ℕ → ℕ → ℕ → Store → Outcome WaitlistView
join_waitlist now id pid uid s = do
  p ← or_err (find_plan pid s) Error.plan_not_found
  guard (is_published p.status && ltb now p.starts_at) Error.plan_not_found
  guard (count_where (is_booked_by pid uid) s.bookings == 0) Error.already_booked
  let seen = waitlist_status now pid uid s.waitlist
  if holds_offer seen then ok (s, seen) else join_queue now id pid uid p s

-- `LeaveWaitlist`
unfoldable pub leave_waitlist : ℕ → ℕ → ℕ → Store → Result Error Store
leave_waitlist now pid uid s = do
  p ← or_err (find_plan pid s) Error.plan_not_found
  offer_freed_seats now pid (record s {
    waitlist =
        update_where (is_live_entry_of pid uid)
          (λ e. record e { state = WaitlistState.left; updated_at = now }) s.waitlist;
  })

-- An offer that has run out: `offer_expires_at <= now`.
abbrev pub is_stale : ℕ → WaitlistEntry → Bool
is_stale now e = elim e.offer_expires_at [ none ↦ false | some t ↦ is_offered e.state && leb t now ]

unfoldable pub expire_entry : ℕ → WaitlistEntry → WaitlistEntry
expire_entry now e = record e { state = WaitlistState.expired; updated_at = now }

-- The plans of some entries, each once, in order.
unfoldable pub plans_of : List ℕ → List WaitlistEntry → List ℕ
plans_of seen [] = []
plans_of seen (e ∷ es) =
    let again = plans_of seen es in
    let more = plans_of (e.plan_id ∷ seen) es in
    if any_where (λ k. k == e.plan_id) seen then again else e.plan_id ∷ more

-- `offerForPlan`
unfoldable pub offer_for_plan : ℕ → ℕ → Store → Result Error Store
offer_for_plan now pid s = do
  p ← or_err (find_plan pid s) Error.plan_not_found
  offer_freed_seats now pid s

-- The loop of `SweepWaitlist`: each plan is a transaction, and an error stops the loop.
unfoldable pub offer_for_plans : ℕ → List ℕ → Store → Store × Option Error
offer_for_plans now [] s = (s, none)
offer_for_plans now (pid ∷ pids) s = elim (offer_for_plan now pid s) [
  | ok s' ↦ offer_for_plans now pids s'
  | err e ↦ (s, some e)
]

-- `SweepWaitlist`: the tables, the number of offers that expired, and the error if there was one.
unfoldable pub sweep_waitlist : ℕ → Store → Store × ℕ × Option Error
sweep_waitlist now s =
    let stale = select_where (is_stale now) s.waitlist in
    let swept = update_where (is_stale now) (expire_entry now) s.waitlist in
    let done = offer_for_plans now (plans_of [] stale) (record s { waitlist = swept }) in
    (done.0, length stale, done.1)

-- `ExpireWaitlistForPlan`
unfoldable pub expire_waitlist_for_plan : ℕ → ℕ → Store → Store
expire_waitlist_for_plan now pid s = record s {
  waitlist =
      update_where (λ e. e.plan_id == pid && (is_waiting e.state || is_offered e.state))
        (expire_entry now) s.waitlist;
}
