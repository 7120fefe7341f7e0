-- ===== src/Payments/Refunds/Overflow.antt =====
-- A refund whose amount makes the code's sum wrap.
use hivemind_backend.Prelude.Int.{sum_exceeds-wraps}
use hivemind_backend.Payments.Refunds.{
  refund, begin_refund, refund_payment, settle_refund, processed_row, refunded_total, find_payment,
}
use hivemind_backend.Payments.Types.{Money, Payment, is_captured}
use hivemind_backend.Prelude.{
  ◌^◌, false, arith, ℕ, sum_where, update_first, some, true, ◌≡◌, ◌≤◌, ◌<◌, ◌+◌, ◌==◌,
}

refund_payment-total :
    (gid rid pid amount reason : ℕ) (m : Money) (p : Payment)
    → find_payment pid m ≡ some p
    → is_captured p.status ≡ true
    → (pid == 0) ≡ false
    → 0 < amount
    → 2 ^ 63 ≤ refunded_total pid m + amount
    → refunded_total pid m + amount < 2 ^ 64
    → refunded_total pid (refund_payment (some (some gid)) rid pid amount reason m).0
      ≡ refunded_total pid m + amount
unfolding refund_payment refund begin_refund settle_refund refunded_total sum_where update_first
    processed_row
refund_payment-total gid rid pid amount reason m p found captured known positive over fits =
    ground (arith, sum_exceeds-wraps (refunded_total pid m) amount p.amount_minor over fits)

-- A refund by the staff of a captured payment is made, whatever was paid, where its amount and what
-- was returned before add up to 2^63 or more: the payment has then returned more than was paid. All
-- amounts are of `int64`, and the gateway takes the refund.
refund_payment-wraps :
    (gid rid pid amount reason : ℕ) (m : Money) (p : Payment)
    → find_payment pid m ≡ some p
    → is_captured p.status ≡ true
    → (pid == 0) ≡ false
    → amount < 2 ^ 63
    → refunded_total pid m < 2 ^ 63
    → p.amount_minor < 2 ^ 63
    → 2 ^ 63 ≤ refunded_total pid m + amount
    → p.amount_minor
      < refunded_total pid (refund_payment (some (some gid)) rid pid amount reason m).0
refund_payment-wraps gid rid pid amount reason m p found captured known a b c over = omega (
  arith,
  refund_payment-total gid rid pid amount reason m p found captured known (omega arith) over
      (omega arith),
)
