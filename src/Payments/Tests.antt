-- ===== src/Payments/Tests.antt =====
-- The theorems on payments, applied to small tables: a payment of 1,000 for booking 2, of which 300
-- were returned, and an attempt of 800 that failed.
use hivemind_backend.Bookings.Tests.{tables}
use hivemind_backend.Payments.Settlement.Replay.{capture_replay}
use hivemind_backend.Bookings.Quote.{get_booking_charge, service_fee}
use hivemind_backend.Bookings.Create.{
  admit, create, consume_entry, seat_confirmed_booking, take_seat, upsert_participant, active_holds,
  notify_host,
}
use hivemind_backend.Bookings.Types.{
  Booking, is_attended, is_confirmed, find_booking, find_plan, Store,
}
use hivemind_backend.Payments.Settlement.{
  billed, payable, capture, confirm_captured, open_session, place_order, create_order, Gateway,
  apply_coupon,
}
use hivemind_backend.Bookings.Lifecycle.{confirm_paid, confirm_locked, confirm_read, confirm_row}
use hivemind_backend.Payments.Settlement.Port.{
  bookings_port, confirm_paid_booking, capture-confirms,
}
use hivemind_backend.Payments.Refunds.Bounds.{Within, refund_payment-Within}
use hivemind_backend.Payments.Refunds.Owed.{IsTopUp, refund_booking-total}
use hivemind_backend.Payments.Credits.{
  cancel_unpaid, cancel_unpaid_orders_for_booking, give_back_all, create_order_with_credits-balance,
  credit_balance, get_credit_balance, credits_spent, create_order_with_credits,
}
use hivemind_backend.Payments.Types.{
  OrderStatus, Credit, Order, RefundStatus, DiscountType, Money, PaymentStatus, CreditReason,
  PromoCode, Refund, Payment,
}
use hivemind_backend.Payments.Capture.{
  set_gateway_order_id, find_order, mark_captured, reserve_coupon,
}
use hivemind_backend.Payments.Refunds.{
  last_where, refunded_total, find_captured_payment, pays_booking, refund_payment, refund_booking,
  find_payment,
}
use hivemind_backend.Prelude.Int.{pos, neg_part, ◌+ℤ◌}
use hivemind_backend.Prelude.{
  update_first, select_where, count_where, update_where, none, arith, find_where, any_where,
  sum_where, ◌⊎◌, ◌≡◌, ◌+◌, ◌∷◌, err, ok, true, [], some, refl, ℕ,
}

abbrev order : Order
order = record {
  id = 1;
  booking_id = 2;
  amount_minor = 1_000;
  currency = 1;
  gateway_order_id = 11;
  status = OrderStatus.paid;
}

abbrev payment : Payment
payment = record {
  id = 1;
  order_id = 1;
  amount_minor = 1_000;
  currency = 1;
  status = PaymentStatus.captured;
  gateway_payment_id = 21;
  created_at = 5;
}

abbrev attempt : ℕ → ℕ → RefundStatus → Refund
attempt rid amount status = record {
  id = rid;
  payment_id = 1;
  amount_minor = amount;
  reason = 0;
  status = status;
  gateway_refund_id = 0;
}

abbrev code : PromoCode
code = record {
  id = 1;
  code = 5;
  discount_type = DiscountType.percent;
  discount_value = 10;
  max_uses = 3;
  uses_count = 2;
  active = true;
  expires_at = some 100;
}

abbrev grant : Credit
grant = record { user_id = 6; amount_minor = pos 250; reason = CreditReason.granted; order_id = 0 }

abbrev money : Money
money = record {
  orders = order ∷ [];
  payments = payment ∷ [];
  refunds = attempt 1 300 RefundStatus.processed ∷ attempt 2 800 RefundStatus.failed ∷ [];
  entries = [];
  promo_codes = code ∷ [];
  credits = grant ∷ [];
}

money-Within : Within money
unfolding find_payment find_where refunded_total sum_where
money-Within = record { within = λ pid p h. ground arith }

refund_payment-Within_example : Within (refund_payment (some (some 31)) 3 1 700 0 money).0
unfolding refunded_total sum_where
refund_payment-Within_example =
    refund_payment-Within (some (some 31)) 3 1 700 0 money (ground arith) money-Within

refund_booking-total_example :
    IsTopUp 1_000 50 300 (refunded_total 1 (refund_booking (some (some 31)) 3 2 0 50 money).0)
unfolding find_captured_payment last_where pays_booking any_where find_payment find_where
    refunded_total sum_where
refund_booking-total_example =
    refund_booking-total 31 3 2 0 50 money payment money-Within refl refl (ground arith)
      (ground arith) (omega arith)

abbrev captured : Money × Payment
captured = elim (mark_captured 6 2 1 22 500 1 money) [ ok r ↦ r | err e ↦ (money, payment) ]

abbrev reserved : Money × ℕ
reserved = elim (reserve_coupon 6 5 1_000 money) [ ok r ↦ r | err e ↦ (money, 0) ]

abbrev ordered : Money × Order × ℕ
ordered = create_order_with_credits 3 order 6 true money

create_order_with_credits-balance_example :
    (ordered.1.amount_minor + ordered.2 ≡ 1_000)
    × (get_credit_balance 6 ordered.0 +ℤ pos ordered.2 ≡ get_credit_balance 6 money)
    × ((ordered.2 ≡ 0) ⊎ (neg_part (get_credit_balance 6 ordered.0) ≡ 0))
unfolding create_order_with_credits credits_spent get_credit_balance credit_balance ◌+ℤ◌
create_order_with_credits-balance_example =
    create_order_with_credits-balance 3 order 6 true money ordered.0 ordered.1 ordered.2 refl

-- The hold of user 6 on plan 2 is paid by a second payment of order 1.
abbrev bought : (Money × Store) × Payment
bought =
    let (after_it, r) = capture bookings_port none 3 10 2 1 22 500 money tables in
    elim r [ ok p ↦ (after_it, p) | err e ↦ (after_it, payment) ]

capture_replay_example :
    capture bookings_port (some none) 5 20 4 1 22 900 bought.0.0 bought.0.1
    ≡ ((bought.0.0, bought.0.1), ok bought.1)
unfolding create admit seat_confirmed_booking notify_host find_plan find_booking find_where
    count_where any_where active_holds update_first update_where confirm_paid confirm_read
    confirm_locked confirm_row take_seat upsert_participant consume_entry bookings_port
    confirm_paid_booking capture confirm_captured find_order mark_captured create_order payable
    place_order open_session billed apply_coupon cancel_unpaid_orders_for_booking cancel_unpaid
    create_order_with_credits credits_spent get_booking_charge service_fee set_gateway_order_id
    get_credit_balance credit_balance give_back_all select_where ◌+ℤ◌
capture_replay_example =
    capture_replay bookings_port none (some none) 3 5 10 20 2 4 1 22 500 900 money bought.0.0 tables
      bought.0.1 bought.1 refl (ground arith)

capture-confirms_example :
    (o : Order) × (find_order 1 money ≡ ok o)
    × ((b : Booking) × (find_booking o.booking_id bought.0.1 ≡ some b)
        × ((is_confirmed b.status ≡ true) ⊎ (is_attended b.status ≡ true)))
unfolding create admit seat_confirmed_booking notify_host find_plan find_booking find_where
    count_where any_where active_holds update_first update_where confirm_paid confirm_read
    confirm_locked confirm_row take_seat upsert_participant consume_entry bookings_port
    confirm_paid_booking capture confirm_captured find_order mark_captured create_order payable
    place_order open_session billed apply_coupon cancel_unpaid_orders_for_booking cancel_unpaid
    create_order_with_credits credits_spent get_booking_charge service_fee set_gateway_order_id
    get_credit_balance credit_balance give_back_all select_where ◌+ℤ◌
capture-confirms_example =
    capture-confirms none 3 10 2 1 22 500 money bought.0.0 tables bought.0.1 bought.1 refl

abbrev gateway : Gateway
gateway = record { session = some (71, 72); refunded = none; payments = none }

abbrev placed : (Money × Store) × Order
placed =
    let (after_it, r) =
      create_order bookings_port (some gateway) 10 3 order 6 0 true money tables in
    elim r [ ok (o, session) ↦ (after_it, o) | err e ↦ (after_it, order) ]
