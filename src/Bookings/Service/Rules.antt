-- ===== src/Bookings/Service/Rules.antt =====
-- What the service's tests guarantee.
use hivemind_backend.Bookings.Lifecycle.{cancel}
use hivemind_backend.Bookings.Access.{
  Entitlements, get_plan_host_id, is_admin_role, check_access, authorize_for_booking,
}
use hivemind_backend.Bookings.Types.{Store, find_plan, Role, Plan, find_booking, Booking}
use hivemind_backend.Bookings.Service.{
  reserve, create_reserved, create_booking, cancel_booking_as_user, get_booking, SetNx,
}
use hivemind_backend.Prelude.{
  Bool-cases, Option-cases, ◌||◌, ◌==◌, inr, inl, arith, ℕ, ◌⊎◌, ◌≢◌, ◌≡◌, ok, false, true, some,
}

module _ {R : Type 0} (set_nx : SetNx R) where
  -- The same key is taken once: if Redis refuses a key that it was asked for before, a repeated
  -- request with that key books nothing, whatever the tables hold by then.
  pub create_booking_again :
      ((key : ℕ) (r : R) → (set_nx key (set_nx key r).0).1 ≡ some false)
      → (ents : Entitlements) (now id later id' : ℕ) (b : Booking) (s s' : Store) (r : R)
      → b.idempotency_key ≢ 0
      → check_access ents b.plan_id b.user_id s ≡ ok tt
      → ¬ (
          (t : Store) × (out : Booking) × ((create_booking set_nx ents later id' b s'
              (create_booking set_nx ents now id b s r).0).1
            ≡ ok (t, out)))
  unfolding create_booking create_reserved reserve
  create_booking_again taken ents now id later id' b s s' r key allowed (t, out, again) =
      ground (arith, taken b.idempotency_key r)

-- Only a booking's own user, the plan's host or an admin cancels it through the API, and a
-- cancellation that returns was made with the guest's policy: no refund close to the start.
pub cancel_booking_as_user-ok :
    (now bid caller reason : ℕ) (role : Role) (s t : Store) (out : Booking)
    → cancel_booking_as_user now bid caller role reason s ≡ ok (t, out)
    → (b : Booking) × (find_booking bid s ≡ some b)
      × ((b.user_id ≡ caller)
          ⊎ (is_admin_role role ≡ true)
          ⊎ ((p : Plan) × (find_plan b.plan_id s ≡ some p) × (p.host_id ≡ caller)))
      × (cancel now bid reason false s ≡ ok (t, out))
unfolding cancel_booking_as_user get_booking authorize_for_booking get_plan_host_id
cancel_booking_as_user-ok now bid caller reason role s t out h =
    elim (Option-cases (find_booking bid s)) [
      | inl e ↦ absurd (ground arith)
      | inr (b, e) ↦ (b, e, allowed b e, ground arith)
    ]
  where
    allowed :
        (b : Booking)
        → find_booking bid s ≡ some b
        → (b.user_id ≡ caller)
          ⊎ (is_admin_role role ≡ true)
          ⊎ ((p : Plan) × (find_plan b.plan_id s ≡ some p) × (p.host_id ≡ caller))
    allowed b e = elim (Option-cases (find_plan b.plan_id s)) [
      | inl f ↦ elim (Bool-cases (b.user_id == caller || is_admin_role role)) [
        | inl y ↦ ground arith
        | inr n ↦ absurd (ground arith)
      ]
      | inr (p, f) ↦ elim (Bool-cases (b.user_id == caller || is_admin_role role)) [
        | inl y ↦ ground arith
        | inr n ↦ inr (inr (p, f, ground arith))
      ]
    ]
