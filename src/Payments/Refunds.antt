-- ===== src/Payments/Refunds.antt =====
-- Refunds (`BeginRefund`, `FailRefund`, `CompleteRefund`, `SetRefundStatus`, `RefundedTotal` of
-- repository.go; `refund`, `RefundPayment`, `RefundBookingIfCaptured`, `RecordRefundResult` of
-- service.go). The gateway is not part of the repository: its answer to a refund is an argument.
pub mod Bounds
pub mod Owed
pub mod Overflow
use hivemind_backend.Prelude.Int.{sum_exceeds}
use hivemind_backend.Payments.Types.{
  refund_entry, invalid_input, not_refundable, gateway_unavailable, payment_not_found,
  gateway_failed, Refund, refund_key, Entry, is_not_failed, Payment, payment_key, Order, Money,
  is_captured, PayError, RefundStatus,
}
use hivemind_backend.Prelude.{
  not, leb, min, ltb, sum_where, find_where, any_where, List, Bool, ℕ, Option, update_first, Result,
  ◌>>◌, ◌>>=◌, if◌then◌else◌, ◌||◌, ◌&&◌, ◌==◌, ◌/◌, ◌*◌, ◌-◌, ◌+◌, or_err, guard, ◌∷◌, err, ok, [],
  some, none, suc, zero,
}

-- Attempts on a payment that did not fail.
abbrev pub counts_for : ℕ → Refund → Bool
counts_for pid r = r.payment_id == pid && is_not_failed r.status

-- `RefundedTotal`
unfoldable pub refunded_total : ℕ → Money → ℕ
refunded_total pid m = sum_where (counts_for pid) (λ r. r.amount_minor) m.refunds

unfoldable pub find_payment : ℕ → Money → Option Payment
find_payment pid m = find_where (payment_key pid) m.payments

-- `BeginRefund`; the sum is one of `int64`, and wraps where the amount is large. `rid` is the key that the database draws. It gives the attempt and the order.
unfoldable pub begin_refund : ℕ → ℕ → ℕ → ℕ → Money → Result PayError (Money × Refund × ℕ)
begin_refund rid pid amount reason m = do
  p ← or_err (find_payment pid m) PayError.payment_not_found
  guard (is_captured p.status) PayError.not_refundable
  guard (ltb 0 amount && not (sum_exceeds (refunded_total pid m) amount p.amount_minor))
      PayError.not_refundable
  let r : Refund = record {
    id = rid;
    payment_id = pid;
    amount_minor = amount;
    reason = reason;
    status = RefundStatus.pending;
    gateway_refund_id = 0;
  }
  ok (record m { refunds = r ∷ m.refunds }, r, p.order_id)

unfoldable pub with_status : RefundStatus → Refund → Refund
with_status st r = record r { status = st }

-- `SetRefundStatus`; an id that is not ours changes nothing.
unfoldable pub set_refund_status : ℕ → RefundStatus → Money → Money
set_refund_status rid st m = record m {
  refunds = update_first (refund_key rid) (with_status st) m.refunds;
}

-- `FailRefund`
unfoldable pub fail_refund : ℕ → Money → Money
unfolding set_refund_status
fail_refund rid m = set_refund_status rid RefundStatus.failed m

unfoldable pub processed_row : ℕ → Refund → Refund
processed_row gid r = record r { status = RefundStatus.processed; gateway_refund_id = gid }

-- `CompleteRefund`
unfoldable pub complete_refund : ℕ → ℕ → ℕ → Money → Money
complete_refund rid gid amount m = record m {
  refunds = update_first (refund_key rid) (processed_row gid) m.refunds;
  entries = Entry.refund_entry rid amount ∷ m.entries;
}

-- The gateway's answer to a refund: its id, or nothing if it failed.
abbrev pub Answer : Type 0
Answer = Option ℕ

-- The end of `refund`, by the gateway's answer. The tables come back with the error too, since the
-- failed attempt stays recorded.
unfoldable pub settle_refund : Answer → ℕ → Money → Refund → Money × Result PayError Refund
unfolding complete_refund fail_refund
settle_refund none amount m r = (fail_refund r.id m, err PayError.gateway_failed)
settle_refund (some gid) amount m r =
    (complete_refund r.id gid amount m, ok (record r { status = RefundStatus.processed }))

-- `refund`; the gateway is `none` where it is not configured.
unfoldable pub refund : Option Answer → ℕ → ℕ → ℕ → ℕ → Money → Money × Result PayError Refund
unfolding settle_refund
refund none rid pid amount reason m = (m, err PayError.gateway_unavailable)
refund (some answer) rid pid amount reason m = elim (begin_refund rid pid amount reason m) [
  | err e ↦ (m, err e)
  | ok (m', r, _) ↦ settle_refund answer amount m' r
]

-- `RefundPayment`
unfoldable pub refund_payment :
    Option Answer → ℕ → ℕ → ℕ → ℕ → Money → Money × Result PayError Refund
unfolding refund
refund_payment gateway rid pid amount reason m =
    if pid == 0 || amount == 0
    then (m, err PayError.invalid_input)
    else refund gateway rid pid amount reason m

-- The captured payment of a booking that was recorded last.
abbrev pub later_payment : Payment → Option Payment → Payment
later_payment p none = p
later_payment p (some q) = if leb q.created_at p.created_at then p else q

-- Whether an order of the booking is the payment's.
unfoldable pub pays_booking : ℕ → List Order → Payment → Bool
pays_booking bid os p =
    is_captured p.status && any_where (λ o. o.id == p.order_id && o.booking_id == bid) os

unfoldable pub last_where : (Payment → Bool) → List Payment → Option Payment
last_where f [] = none
last_where f (p ∷ ps) =
    let rest = last_where f ps in if f p then some (later_payment p rest) else rest

-- `FindCapturedPaymentForBooking`
unfoldable pub find_captured_payment : ℕ → Money → Option Payment
find_captured_payment bid m = last_where (pays_booking bid m.orders) m.payments

-- What is owed of a payment at a percentage, before what was returned already.
unfoldable pub refund_target : Payment → ℕ → ℕ
refund_target p percent = p.amount_minor * min percent 100 / 100

-- `RefundBookingIfCaptured`, from the payment on.
unfoldable pub refund_owed :
    Option Answer → ℕ → Payment → ℕ → ℕ → Money → Money × Result PayError (Unit {0})
unfolding refund
refund_owed gateway rid p reason percent m =
    let owed = refund_target p percent - refunded_total p.id m in
    let done = refund gateway rid p.id owed reason m in
    if ltb 0 owed then (done.0, (done.1 >>= λ _. ok tt)) else (m, ok tt)

-- `RefundBookingIfCaptured`
unfoldable pub refund_booking :
    Option Answer → ℕ → ℕ → ℕ → ℕ → Money → Money × Result PayError (Unit {0})
unfolding refund_owed
refund_booking gateway rid bid reason percent m =
    if percent == 0 then (m, ok tt) else elim (find_captured_payment bid m) [
      | none ↦ (m, ok tt)
      | some p ↦ refund_owed gateway rid p reason percent m
    ]

-- The gateway's final word on a refund, by the status it sends.
pub data RefundNews : Type 0 where
  success failed cancelled other : RefundNews

-- `RecordRefundResult`
unfoldable pub record_refund_result : ℕ → RefundNews → Money → Money
unfolding set_refund_status
record_refund_result zero news m = m
record_refund_result (suc rid) RefundNews.success m =
    set_refund_status (suc rid) RefundStatus.processed m
record_refund_result (suc rid) RefundNews.failed m =
    set_refund_status (suc rid) RefundStatus.failed m
record_refund_result (suc rid) RefundNews.cancelled m =
    set_refund_status (suc rid) RefundStatus.failed m
record_refund_result (suc rid) RefundNews.other m = m
