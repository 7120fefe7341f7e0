-- ===== src/Bookings/Attendance.antt =====
-- Check-in, no-shows and ended plans (repository.go, lifecycle.go).
use hivemind_backend.Bookings.Lifecycle.{
  complete_plan, no_show_row, is_no_show, check_in, used_check_in, has_ended, attend_row,
  mark_no_shows, complete_ended_plans,
}
use hivemind_backend.Bookings.Types.{
  plan_key, find_plan, Store, find_booking, booking_key, is_confirmed, Plan, Booking, Error,
}
use hivemind_backend.Prelude.{
  ap, find_where_sound, length, arith, Bool, find_where-update_where, Option-cases,
  find_where-update_first, List, update_where, ℕ, select_where, update_first, ◌≡◌, ◌∷◌, err, ok,
  inr, inl, false, true, [], some, refl,
}

-- What a check-in that returned found and wrote.
pub check_in-ok :
    (now bid by : ℕ) (s t : Store) (out : Booking)
    → check_in now bid by s ≡ ok (t, out)
    → (b : Booking) × (find_booking bid s ≡ some b)
      × (is_confirmed b.status ≡ true)
      × (out ≡ attend_row now b)
      × (t.bookings ≡ update_first (booking_key bid) (attend_row now) s.bookings)
unfolding check_in
check_in-ok now bid by s t out h = elim (Option-cases (find_booking bid s)) [
  | inl e ↦ absurd (ground arith)
  | inr (b, e) ↦ (b, e, ground arith, ground arith, ground arith)
]

-- A pass admits once: after a check-in of a booking that returned, a second one is refused,
-- whoever scans it.
pub check_in_twice :
    (now later bid by again : ℕ) (s t : Store) (out : Booking)
    → check_in now bid by s ≡ ok (t, out)
    → check_in later bid again t ≡ err Error.booking_not_found
unfolding check_in attend_row find_booking
check_in_twice now later bid by again s t out h =
    let (b, found, _, _, rows) = check_in-ok now bid by s t out h in
    let moved =
      find_where-update_first (λ (r : Booking). r.id) (attend_row now) (λ r. refl) bid bid
        s.bookings b found in
    ground (arith, rows, moved)

is_no_show_unscanned :
    (now : ℕ) (s : Store) (b : Booking)
    → used_check_in b.plan_id s ≡ false
    → is_no_show now s b ≡ false
unfolding is_no_show find_plan
is_no_show_unscanned now s b unused = elim (Option-cases (find_plan b.plan_id s)) [
  | inl e ↦ ground arith
  | inr (p, e) ↦
      let key : p.id ≡ b.plan_id =
        ground (arith, find_where_sound (plan_key b.plan_id) s.plans p e) in
      ground (arith, ap (λ k. used_check_in k s) key)
]

-- A booking of a plan whose host scanned nobody is never marked as a no-show: its row stays.
pub mark_no_shows_unscanned :
    (now bid : ℕ) (s : Store) (b : Booking)
    → find_booking bid s ≡ some b
    → used_check_in b.plan_id s ≡ false
    → find_booking bid (mark_no_shows now s).0 ≡ some b
unfolding mark_no_shows find_booking no_show_row
mark_no_shows_unscanned now bid s b found unused =
    rw
      (find_where-update_where (λ (r : Booking). r.id) (no_show_row now) (λ r. refl)
        (is_no_show now s) bid s.bookings)
      (rw found (rw (is_no_show_unscanned now s b unused)))

select_where-update_where :
    (f : Plan → Bool) (g : Plan → Plan) (ps : List Plan)
    → ((p : Plan) → f (g p) ≡ false)
    → length (select_where f (update_where f g ps)) ≡ 0
unfolding select_where update_where
select_where-update_where f g [] h = refl
select_where-update_where f g (p ∷ ps) h = ground (arith, h p, select_where-update_where f g ps h)

-- A plan is completed once: right after a run of the job, a second run at the same time finds
-- nothing to complete.
pub complete_ended_plans_twice :
    (now : ℕ) (s : Store) → (complete_ended_plans now (complete_ended_plans now s).0).1 ≡ 0
unfolding complete_ended_plans complete_plan
complete_ended_plans_twice now s =
    select_where-update_where (has_ended now) complete_plan s.plans (λ p. ground arith)
