-- ===== src/Payments/Settlement/Replay.antt =====
-- What a capture leaves, and what a second one finds.
use hivemind_backend.Payments.Refunds.{refund, Answer}
use hivemind_backend.Payments.Capture.{
  mark_captured_replay, paid_row, find_order, gateway_key, mark_captured,
}
use hivemind_backend.Payments.Settlement.{
  seat_gone_reason, capture, refund_lost_seat, confirm_captured, BookingPort,
}
use hivemind_backend.Payments.Types.{order_key, Order, Money, Payment}
use hivemind_backend.Prelude.{
  ==→eq, List, find_where-update_first, update_first, find_where_sound, some, sym, subst, arith,
  Result-cases, Option-cases, Option, find_where, ◌≡◌, ◌<◌, ok, inr, inl, refl, ℕ,
}

paid_order :
    (oid : ℕ) (o : Order) (os : List Order)
    → find_where (order_key oid) os ≡ some o
    → find_where (order_key oid) (update_first (order_key o.id) paid_row os) ≡ some (paid_row o)
unfolding paid_row
paid_order oid o os found =
    let key : o.id ≡ oid = ==→eq o.id oid (find_where_sound (order_key oid) os o found) in
    let done =
      find_where-update_first (λ (r : Order). r.id) paid_row (λ r. refl) oid oid os o found in
    subst
      (λ j. find_where (order_key oid) (update_first (order_key j) paid_row os) ≡ some (paid_row o))
      (sym key) (ground (arith, done))

-- An order is found after a capture, for the same booking.
mark_captured-order :
    (now pid oid gid amount currency : ℕ) (m n : Money) (p : Payment) (o : Order)
    → find_order oid m ≡ ok o
    → mark_captured now pid o.id gid amount currency m ≡ ok (n, p)
    → (x : Order) × (find_order oid n ≡ ok x) × (x.booking_id ≡ o.booking_id)
unfolding mark_captured find_order paid_row
mark_captured-order now pid oid gid amount currency m n p o found h =
    elim (Option-cases (find_where (gateway_key gid) m.payments)) [
      | inr (q, e) ↦ (o, ground arith, refl)
      | inl e ↦
          let known : find_where (order_key oid) m.orders ≡ some o = ground arith in
          (paid_row o, ground (arith, paid_order oid o m.orders known), refl)
    ]

module _ {B : Type 0} (port : BookingPort B) where
  -- A capture that returned found its order, recorded the payment and confirmed the booking.
  pub capture-ok :
      (gateway : Option Answer) (rid now pid oid gid amount : ℕ) (m n : Money) (s t : B)
      (p : Payment)
      → capture port gateway rid now pid oid gid amount m s ≡ ((n, t), ok p)
      → (o : Order) × (find_order oid m ≡ ok o)
        × (mark_captured now pid o.id gid amount o.currency m ≡ ok (n, p))
        × (port.confirm now o.booking_id s ≡ ok t)
  unfolding capture confirm_captured refund_lost_seat
  capture-ok gateway rid now pid oid gid amount m n s t p h =
      elim (Result-cases (find_order oid m)) [
        | inr (x, e) ↦ absurd (ground arith)
        | inl (o, e) ↦ elim (Result-cases (mark_captured now pid o.id gid amount o.currency m)) [
          | inr (x, f) ↦ absurd (ground arith)
          | inl ((k, q), f) ↦ elim (Result-cases (port.confirm now o.booking_id s)) [
            | inl (u, g) ↦ (o, e, ground arith, ground arith)
            | inr (x, g) ↦
                elim (Result-cases (refund gateway rid q.id q.amount_minor seat_gone_reason k).1) [
                  | inl (r, y) ↦ absurd (ground arith)
                  | inr (r, y) ↦ absurd (ground arith)
                ]
          ]
        ]
      ]

  -- A replayed webhook, or a `VerifyOrder` after it, is harmless: after a capture that returned,
  -- another of the same order and gateway payment, of an amount above 0, changes neither the money
  -- nor the bookings, and returns the payment of the first, whatever the gateway answers meanwhile.
  pub capture_replay :
      (gateway gateway' : Option Answer) (rid rid' now later pid pid' oid gid amount amount' : ℕ)
      (m n : Money) (s t : B) (p : Payment)
      → capture port gateway rid now pid oid gid amount m s ≡ ((n, t), ok p)
      → 0 < amount'
      → capture port gateway' rid' later pid' oid gid amount' n t ≡ ((n, t), ok p)
  unfolding capture confirm_captured
  capture_replay gateway gateway' rid rid' now later pid pid' oid gid amount amount' m n s t p h
        positive =
      let (o, found, marked, confirmed) =
        capture-ok gateway rid now pid oid gid amount m n s t p h in
      let (x, again, same) =
        mark_captured-order now pid oid gid amount o.currency m n p o found marked in
      let marked_again =
        mark_captured_replay now later pid pid' o.id x.id gid amount amount' o.currency x.currency m
          n p marked positive in
      ground (
        arith,
        again,
        marked_again,
        (subst (λ k. port.confirm later k t ≡ ok t) (sym same)
            (port.confirm_again now later o.booking_id s t confirmed)),
      )
