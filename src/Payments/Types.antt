-- ===== src/Payments/Types.antt =====
-- The rows and errors of internal/payments (repository.go, service.go). Ids are numbers and 0 is
-- the empty string; amounts are minor units.
use hivemind_backend.Prelude.{List, Bool, ℕ, Option, ◌==◌, false, true}
use hivemind_backend.Prelude.Int.{ℤ}

-- `orders.status`
pub data OrderStatus : Type 0 where
  created paid cancelled : OrderStatus

-- `payments.status`
pub data PaymentStatus : Type 0 where
  pending captured failed : PaymentStatus

-- The enum `refund_status`.
pub data RefundStatus : Type 0 where
  pending processed failed : RefundStatus

pub data PayError : Type 0 where
  invalid_input forbidden not_payable gateway_unavailable plan_full_after_pay seat_gone : PayError
  payment_not_found not_refundable coupon_invalid gateway_failed check_violation : PayError
  booking_failed : PayError

pub record Order : Type 0 where
  pub id : ℕ
  pub booking_id : ℕ
  pub amount_minor : ℕ
  pub currency : ℕ
  pub gateway_order_id : ℕ
  pub status : OrderStatus

pub record Payment : Type 0 where
  pub id : ℕ
  pub order_id : ℕ
  pub amount_minor : ℕ
  pub currency : ℕ
  pub status : PaymentStatus
  pub gateway_payment_id : ℕ
  pub created_at : ℕ

pub record Refund : Type 0 where
  pub id : ℕ
  pub payment_id : ℕ
  pub amount_minor : ℕ
  pub reason : ℕ
  pub status : RefundStatus
  pub gateway_refund_id : ℕ

-- A row of `reconciliation_entries`.
pub data Entry : Type 0 where
  payment_entry refund_entry : (reference_id amount_minor : ℕ) → Entry

pub data DiscountType : Type 0 where
  fixed percent : DiscountType

pub record PromoCode : Type 0 where
  pub id : ℕ
  pub code : ℕ
  pub discount_type : DiscountType
  pub discount_value : ℕ
  pub max_uses : ℕ
  pub uses_count : ℕ
  pub active : Bool
  pub expires_at : Option ℕ

-- Why a row of `credit_ledger` was written.
pub data CreditReason : Type 0 where
  granted booking_spend booking_spend_reversed : CreditReason

-- A row of `credit_ledger`; the column holds a signed amount.
pub record Credit : Type 0 where
  pub user_id : ℕ
  pub amount_minor : ℤ
  pub reason : CreditReason
  pub order_id : ℕ

-- The tables that the component owns.
pub record Money : Type 0 where
  pub orders : List Order
  pub payments : List Payment
  pub refunds : List Refund
  pub entries : List Entry
  pub promo_codes : List PromoCode
  pub credits : List Credit

abbrev pub is_captured : PaymentStatus → Bool
is_captured PaymentStatus.captured = true
is_captured _ = false

-- `status <> 'failed'`
abbrev pub is_not_failed : RefundStatus → Bool
is_not_failed RefundStatus.failed = false
is_not_failed _ = true

abbrev pub is_created : OrderStatus → Bool
is_created OrderStatus.created = true
is_created _ = false

abbrev pub is_paid : OrderStatus → Bool
is_paid OrderStatus.paid = true
is_paid _ = false

abbrev pub order_key : ℕ → Order → Bool
order_key oid o = o.id == oid

abbrev pub payment_key : ℕ → Payment → Bool
payment_key pid p = p.id == pid

abbrev pub refund_key : ℕ → Refund → Bool
refund_key rid r = r.id == rid
