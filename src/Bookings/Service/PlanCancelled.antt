-- ===== src/Bookings/Service/PlanCancelled.antt =====
-- The fan-out of a cancelled plan (`CancelAllForPlan` of service.go).
use hivemind_backend.Bookings.Seats.Release.{cancel-end}
use hivemind_backend.Bookings.Create.{cancel_row}
use hivemind_backend.Bookings.Cancellation.{CancelEnd-row}
use hivemind_backend.Bookings.Lifecycle.{cancel}
use hivemind_backend.Bookings.Types.{is_cancelled, Store, Error, find_booking, Booking}
use hivemind_backend.Bookings.Service.{cancel_each, cancel_all_for_plan, is_confirmed_of}
use hivemind_backend.Prelude.{
  ap, List, Result-cases, Option, find_where-update_first, ◌∷◌, [], refl, subst, Bool, select_where,
  Bool-cases, All, ◌==◌, inr, inl, none, arith, ℕ, ◌⊎◌, ◌≡◌, ok, true, some,
}

abbrev pub IsCancelled : Store → ℕ → Type 0
IsCancelled s bid = (b : Booking) × (find_booking bid s ≡ some b) × (is_cancelled b.status ≡ true)

-- A cancellation of one booking leaves every cancelled booking cancelled, and cancels its own.
cancel-IsCancelled :
    (now bid reason : ℕ) (by_host : Bool) (s t : Store) (out : Booking) (k : ℕ)
    → cancel now bid reason by_host s ≡ ok (t, out)
    → (k ≡ bid) ⊎ IsCancelled s k
    → IsCancelled t k
unfolding find_booking cancel_row
cancel-IsCancelled now bid reason by_host s t out k h before =
    let (b, found, _, rows) =
      CancelEnd-row now bid reason by_host s t out (cancel-end now bid reason by_host s) h in
    let moved =
      find_where-update_first (λ (r : Booking). r.id) (cancel_row now) (λ r. refl) bid k s.bookings
        b found in
    elim (Bool-cases (bid == k)) [
      | inl same ↦ (cancel_row now b, rw rows (rw (moved, same)), refl)
      | inr other ↦ elim before [
        | inl e ↦ absurd (ground arith)
        | inr (c, known, cancelled) ↦ (c, rw rows (rw (moved, other) known), cancelled)
      ]
    ]

cancel_each-IsCancelled :
    (now reason : ℕ) (bs : List Booking) (s t : Store)
    → cancel_each now reason bs s ≡ (t, none)
    → ((k : ℕ) → IsCancelled s k → IsCancelled t k) × All (λ b. IsCancelled t b.id) bs
unfolding cancel_each
cancel_each-IsCancelled now reason [] s t h =
    ((λ k c. subst (λ z. IsCancelled z k) (ap (λ (r : Store × Option Error). r.0) h) c), tt)
cancel_each-IsCancelled now reason (b ∷ bs) s t h =
    elim (Result-cases (cancel now b.id reason true s)) [
      | inr (x, e) ↦ absurd (ground arith)
      | inl ((u, out), e) ↦
          let (keeps, all) = cancel_each-IsCancelled now reason bs u t (ground arith) in
          (
            (λ k c. keeps k (cancel-IsCancelled now b.id reason true s u out k e (inr c))),
            (keeps b.id (cancel-IsCancelled now b.id reason true s u out b.id e (inl refl)), all),
          )
    ]

-- A cancellation of a whole plan that ran to its end left no booking that was confirmed for the
-- plan at its start uncancelled.
pub cancel_all_for_plan-IsCancelled :
    (now pid reason : ℕ) (s t : Store)
    → cancel_all_for_plan now pid reason s ≡ (t, none)
    → All (λ b. IsCancelled t b.id) (select_where (is_confirmed_of pid) s.bookings)
unfolding cancel_all_for_plan
cancel_all_for_plan-IsCancelled now pid reason s t h =
    (cancel_each-IsCancelled now reason _ s t h).1
