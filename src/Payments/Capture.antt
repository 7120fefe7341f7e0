-- ===== src/Payments/Capture.antt =====
-- Captures and coupons (`MarkCaptured`, `GetPaymentByGatewayID`, `FindOrderByCashfreeOrderID`,
-- `MarkOrderPaid`, `SetGatewayOrderID`, `ReserveCoupon` of repository.go).
use hivemind_backend.Payments.Types.{
  Payment, PaymentStatus, DiscountType, OrderStatus, Order, Money, order_key, Entry, PayError,
  PromoCode,
}
use hivemind_backend.Prelude.{
  min, arith, ltb, Bool-cases, Bool, All, update_first, ℕ, List, Option, find_where, Option-cases,
  Result, ◌>>◌, ◌>>=◌, ◌⊎◌, ◌≡◌, ◌<◌, ◌≤◌, ◌||◌, ◌&&◌, ◌==◌, ◌/◌, ◌*◌, ◌+◌, or_err, guard, ◌∷◌, ok,
  inr, inl, true, [], some, none, subst,
}

abbrev pub gateway_key : ℕ → Payment → Bool
gateway_key gid p = p.gateway_payment_id == gid

-- `FindOrderByCashfreeOrderID`
unfoldable pub find_order : ℕ → Money → Result PayError Order
find_order oid m = or_err (find_where (order_key oid) m.orders) PayError.payment_not_found

unfoldable pub paid_row : Order → Order
paid_row o = record o { status = OrderStatus.paid }

-- `MarkOrderPaid`
unfoldable pub mark_order_paid : ℕ → Money → Money
mark_order_paid oid m = record m { orders = update_first (order_key oid) paid_row m.orders }

-- `SetGatewayOrderID`
unfoldable pub set_gateway_order_id : ℕ → ℕ → Money → Money
set_gateway_order_id oid gid m = record m {
  orders = update_first (order_key oid) (λ o. record o { gateway_order_id = gid }) m.orders;
}

unfoldable pub new_payment : ℕ → ℕ → ℕ → ℕ → ℕ → ℕ → Payment
new_payment now pid oid gid amount currency = record {
  id = pid;
  order_id = oid;
  amount_minor = amount;
  currency = currency;
  status = PaymentStatus.captured;
  gateway_payment_id = gid;
  created_at = now;
}

-- `MarkCaptured`: the payment that the gateway's id already names is returned as it is, since the
-- column is UNIQUE; the database refuses an amount of 0.
unfoldable pub mark_captured : ℕ → ℕ → ℕ → ℕ → ℕ → ℕ → Money → Result PayError (Money × Payment)
mark_captured now pid oid gid amount currency m = do
  guard (ltb 0 amount) PayError.check_violation
  elim (find_where (gateway_key gid) m.payments) [
    | some p ↦ ok (m, p)
    | none ↦ ok (
      record m {
        payments = new_payment now pid oid gid amount currency ∷ m.payments;
        orders = update_first (order_key oid) paid_row m.orders;
        entries = Entry.payment_entry pid amount ∷ m.entries;
      },
      new_payment now pid oid gid amount currency,
    )
  ]

abbrev pub is_unexpired : Option ℕ → ℕ → Bool
is_unexpired none now = true
is_unexpired (some t) now = ltb now t

abbrev pub is_usable : ℕ → ℕ → PromoCode → Bool
is_usable now code c = c.code == code && c.active && is_unexpired c.expires_at now

-- The discount of a code on an amount, capped at the amount.
unfoldable pub discount_of : PromoCode → ℕ → ℕ
discount_of c amount = elim c.discount_type [
  | DiscountType.fixed ↦ min c.discount_value amount
  | DiscountType.percent ↦ min (amount * c.discount_value / 100) amount
]

-- `max_uses = 0` means that a code has no limit.
abbrev pub has_uses_left : PromoCode → Bool
has_uses_left c = c.max_uses == 0 || ltb c.uses_count c.max_uses

unfoldable pub use_once : PromoCode → PromoCode
use_once c = record c { uses_count = c.uses_count + 1 }

-- `ReserveCoupon`
unfoldable pub reserve_coupon : ℕ → ℕ → ℕ → Money → Result PayError (Money × ℕ)
reserve_coupon now code amount m = do
  c ← or_err (find_where (is_usable now code) m.promo_codes) PayError.coupon_invalid
  guard (has_uses_left c) PayError.coupon_invalid
  ok (
    record m { promo_codes = update_first (is_usable now code) use_once m.promo_codes },
    discount_of c amount,
  )

-- A replayed webhook is harmless: after a capture that returned, another with the same gateway id
-- and an amount above 0, whatever else it says, leaves the tables as they are, and returns the
-- payment of the first.
pub mark_captured_replay :
    (now later pid pid' oid oid' gid amount amount' currency currency' : ℕ) (m n : Money)
    (p : Payment)
    → mark_captured now pid oid gid amount currency m ≡ ok (n, p)
    → 0 < amount'
    → mark_captured later pid' oid' gid amount' currency' n ≡ ok (n, p)
unfolding mark_captured new_payment find_where
mark_captured_replay now later pid pid' oid oid' gid amount amount' currency currency' m n p h
      pos_amount =
    elim (Option-cases (find_where (gateway_key gid) m.payments)) [
      | inl e ↦ ground arith
      | inr (q, e) ↦ ground arith
    ]

-- No code is used more often than it allows.
pub record UsesWithin (m : Money) : Type 0 where
  pub uses : All (λ c. (c.max_uses ≡ 0) ⊎ (c.uses_count ≤ c.max_uses)) m.promo_codes

use-All :
    (f : PromoCode → Bool) (cs : List PromoCode) (c : PromoCode)
    → find_where f cs ≡ some c
    → has_uses_left c ≡ true
    → All (λ c. (c.max_uses ≡ 0) ⊎ (c.uses_count ≤ c.max_uses)) cs
    → All (λ c. (c.max_uses ≡ 0) ⊎ (c.uses_count ≤ c.max_uses)) (update_first f use_once cs)
unfolding find_where update_first use_once
use-All f [] c h l a = tt
use-All f (d ∷ cs) c h l a = elim (Bool-cases (f d)) [
  | inl e ↦ rw e (ground arith, a.1)
  | inr e ↦ rw e (a.0, use-All f cs c (ground arith) l a.1)
]

-- A coupon that is reserved gives no more than the amount, and leaves no code used more often than
-- it allows, if none was before.
pub reserve_coupon-bounds :
    (now code amount : ℕ) (m n : Money) (discount : ℕ)
    → UsesWithin m
    → reserve_coupon now code amount m ≡ ok (n, discount)
    → (discount ≤ amount) × UsesWithin n
unfolding reserve_coupon discount_of
reserve_coupon-bounds now code amount m n discount v h =
    elim (Option-cases (find_where (is_usable now code) m.promo_codes)) [
      | inl e ↦ absurd (ground arith)
      | inr (c, e) ↦ (
        ground arith,
        record {
          uses =
              subst
                (λ (cs : List PromoCode).
                  All (λ c. (c.max_uses ≡ 0) ⊎ (c.uses_count ≤ c.max_uses)) cs)
                (ground arith)
                (use-All (is_usable now code) m.promo_codes c e (ground arith) v.uses);
        },
      )
    ]
