-- ===== src/Payments/Settlement.antt =====
-- Orders and their settlement (`CreateOrder`, `MarkCaptured`, `VerifyOrder`, `settleFromGateway` of
-- service.go). Bookings are reached through `BookingPort`; the gateway's answers are arguments. A
-- call runs several transactions, so the tables come back with an error too.
pub mod Port
pub mod Replay
pub mod Charges
use hivemind_backend.Prelude.Int.{pos_part, is_positive}
use hivemind_backend.Payments.Capture.{
  reserve_coupon, set_gateway_order_id, mark_order_paid, mark_captured, find_order, paid_row,
}
use hivemind_backend.Payments.Refunds.{refund, Answer}
use hivemind_backend.Payments.Credits.{create_order_with_credits, cancel_unpaid_orders_for_booking}
use hivemind_backend.Bookings.Quote.{Quote, Charge}
use hivemind_backend.Bookings.Types.{is_pending}
use hivemind_backend.Payments.Types.{
  PayError, not_payable, gateway_failed, Payment, gateway_unavailable, Money, is_paid,
  plan_full_after_pay, payment_not_found, invalid_input, Order, seat_gone,
}
use hivemind_backend.Prelude.{
  ltb, not, find_where, Result, List, Bool, Option, ◌>>◌, ◌>>=◌, if◌then◌else◌, ◌≡◌, ◌||◌, ◌&&◌,
  ◌==◌, ◌-◌, or_err, guard, err, ok, false, true, some, none, ℕ,
}

-- The interface `BookingPort`, as the adapter of adapters.go presents it: a full plan is
-- `seat_gone`. Its law is what `ConfirmPaid` documents: a confirmed booking is left as it is.
pub record BookingPort (B : Type 0) : Type 0 where
  pub charge : (bid : ℕ) → B → Result PayError Charge
  pub confirm : (now bid : ℕ) → B → Result PayError B
  pub confirm_again :
      (now later bid : ℕ) (s t : B) → confirm now bid s ≡ ok t → confirm later bid t ≡ ok t

-- A payment attempt as the gateway reports it; `is_success` is `Status == "SUCCESS"`.
pub record GatewayPayment : Type 0 where
  pub id : ℕ
  pub is_success : Bool
  pub amount_minor : ℕ

-- The answers of the gateway during a call: to `CreateOrder` (its order id and the session), to a
-- refund, and to `OrderPayments`; `none` is an error.
pub record Gateway : Type 0 where
  pub session : Option (ℕ × ℕ)
  pub refunded : Answer
  pub payments : Option (List GatewayPayment)

abbrev pub is_seat_gone : PayError → Bool
is_seat_gone PayError.seat_gone = true
is_seat_gone _ = false

-- "INR"
abbrev pub default_currency : ℕ
default_currency = 1

-- "seat no longer available"
abbrev pub seat_gone_reason : ℕ
seat_gone_reason = 1

-- `if err != nil && !errors.Is(err, ErrPlanFullAfterPay)`
abbrev pub unless_refunded : {A : Type 0} → Result PayError A → Result PayError (Unit {0})
unless_refunded (ok a) = ok tt
unless_refunded (err PayError.plan_full_after_pay) = ok tt
unless_refunded (err e) = err e

-- The order as `CreateOrder` bills it: its amount and currency are the booking's.
unfoldable pub billed : Order → Charge → Order
billed o c = record o {
  amount_minor = pos_part c.total_minor;
  currency = if c.currency == 0 then default_currency else c.currency;
}

-- The coupon's part of `CreateOrder`; an empty code opts out.
unfoldable pub apply_coupon : ℕ → ℕ → Order → Money → Result PayError (Money × Order)
apply_coupon now promo o m =
    if promo == 0
    then ok (m, o)
    else (reserve_coupon now promo o.amount_minor m >>= λ r.
        ok (r.0, record o { amount_minor = o.amount_minor - r.1 }))

module _ {B : Type 0} (port : BookingPort B) where
  -- The end of `MarkCaptured` where the seat is gone: the payment is refunded in full.
  unfoldable pub refund_lost_seat :
      Option Answer → ℕ → Payment → Money → B → (Money × B) × Result PayError Payment
  refund_lost_seat gateway rid p m s =
      let done = refund gateway rid p.id p.amount_minor seat_gone_reason m in
      ((done.0, s), (done.1 >>= λ _. err PayError.plan_full_after_pay))

  -- `MarkCaptured` from the recorded payment on.
  unfoldable pub confirm_captured :
      Option Answer → ℕ → ℕ → Payment → ℕ → Money → B → (Money × B) × Result PayError Payment
  unfolding refund_lost_seat
  confirm_captured gateway rid now p bid m s = elim (port.confirm now bid s) [
    | ok t ↦ ((m, t), ok p)
    | err e ↦ if is_seat_gone e then refund_lost_seat gateway rid p m s else ((m, s), err e)
  ]

  -- `MarkCaptured` of the service; `rid` and `pid` are keys that the database draws.
  unfoldable pub capture :
      Option Answer → ℕ → ℕ → ℕ → ℕ → ℕ → ℕ → Money → B → (Money × B) × Result PayError Payment
  unfolding confirm_captured
  capture gateway rid now pid oid gid amount m s = elim (find_order oid m) [
    | err e ↦ ((m, s), err e)
    | ok o ↦ elim (mark_captured now pid o.id gid amount o.currency m) [
      | err e ↦ ((m, s), err e)
      | ok (n, p) ↦ confirm_captured gateway rid now p o.booking_id n s
    ]
  ]

  -- `settleFromGateway`: the first payment that succeeded is captured.
  unfoldable pub settle_from_gateway :
      Gateway → ℕ → ℕ → ℕ → ℕ → Money → B → (Money × B) × Result PayError (Unit {0})
  unfolding capture
  settle_from_gateway g rid now pid oid m s = elim g.payments [
    | none ↦ ((m, s), err PayError.gateway_failed)
    | some gps ↦ elim (find_where (λ gp. gp.is_success) gps) [
      | none ↦ ((m, s), ok tt)
      | some gp ↦
          let done = capture (some g.refunded) rid now pid oid gp.id gp.amount_minor m s in
          (done.0, unless_refunded done.1)
    ]
  ]

  -- `VerifyOrder` for the order's owner.
  unfoldable pub verify_own :
      Option Gateway → ℕ → ℕ → ℕ → Order → Money → B → (Money × B) × Result PayError Order
  unfolding settle_from_gateway
  verify_own gateway rid now pid o m s =
      if is_paid o.status
      then elim (port.confirm now o.booking_id s) [
        | ok t ↦ ((m, t), find_order o.id m)
        | err e ↦ ((m, s), if is_seat_gone e then find_order o.id m else err e)
      ]
      else elim gateway [
        | none ↦ ((m, s), find_order o.id m)
        | some g ↦
            let done = settle_from_gateway g rid now pid o.id m s in
            (done.0, (done.1 >>= λ _. find_order o.id done.0.0))
      ]

  -- The tests of `VerifyOrder`; they yield the order.
  unfoldable pub own_order : ℕ → ℕ → Money → B → Result PayError Order
  own_order oid caller m s = do
    guard (not (oid == 0 || caller == 0)) PayError.invalid_input
    o ← find_order oid m
    c ← port.charge o.booking_id s
    guard (c.owner_id == caller) PayError.payment_not_found
    ok o

  -- `VerifyOrder`
  unfoldable pub verify_order :
      Option Gateway → ℕ → ℕ → ℕ → ℕ → ℕ → Money → B → (Money × B) × Result PayError Order
  unfolding verify_own own_order
  verify_order gateway rid now pid oid caller m s = elim (own_order oid caller m s) [
    | err e ↦ ((m, s), err e)
    | ok o ↦ verify_own gateway rid now pid o m s
  ]

  -- The tests of `CreateOrder`; they yield what the booking owes.
  unfoldable pub payable : Order → ℕ → B → Result PayError Charge
  payable o caller s = do
    guard (not (o.booking_id == 0 || caller == 0)) PayError.invalid_input
    c ← port.charge o.booking_id s
    guard (c.owner_id == caller) PayError.forbidden
    guard (is_pending c.status && is_positive c.total_minor) PayError.not_payable
    ok c

  -- The end of `CreateOrder` for an order with nothing left to pay.
  unfoldable pub settle_covered : ℕ → Order → Money → B → (Money × B) × Result PayError (Order × ℕ)
  settle_covered now o m s = elim (port.confirm now o.booking_id s) [
    | ok t ↦ ((mark_order_paid o.id m, t), ok (paid_row o, 0))
    | err e ↦ ((mark_order_paid o.id m, s), err e)
  ]

  -- The end of `CreateOrder` at the gateway: a failure gives the credits back.
  unfoldable pub open_session :
      Option Gateway → Order → Money → B → (Money × B) × Result PayError (Order × ℕ)
  open_session none o m s = ((m, s), err PayError.gateway_unavailable)
  open_session (some g) o m s = elim g.session [
    | none ↦
        ((cancel_unpaid_orders_for_booking o.booking_id m, s), err PayError.gateway_unavailable)
    | some (gid, session) ↦
        ((set_gateway_order_id o.id gid m, s), ok (record o { gateway_order_id = gid }, session))
  ]

  -- `CreateOrder` from the stored order on.
  unfoldable pub place_order :
      Option Gateway → ℕ → Order → Money → B → (Money × B) × Result PayError (Order × ℕ)
  unfolding settle_covered open_session
  place_order gateway now o m s =
      if o.amount_minor == 0 then settle_covered now o m s else open_session gateway o m s

  -- `CreateOrder`; it gives the order and the payment session.
  unfoldable pub create_order :
      Option Gateway
      → ℕ
      → ℕ
      → Order
      → ℕ
      → ℕ
      → Bool
      → Money
      → B
      → (Money × B) × Result PayError (Order × ℕ)
  unfolding place_order payable
  create_order gateway now oid o caller promo use_credits m s = elim (payable o caller s) [
    | err e ↦ ((m, s), err e)
    | ok c ↦
        let closed = cancel_unpaid_orders_for_booking o.booking_id m in
        elim (apply_coupon now promo (billed o c) closed) [
          | err e ↦ ((closed, s), err e)
          | ok (n, due) ↦
              let placed = create_order_with_credits oid due caller use_credits n in
              place_order gateway now placed.1 placed.0 s
        ]
  ]
