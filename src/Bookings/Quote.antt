-- ===== src/Bookings/Quote.antt =====
-- Prices and quotes (`QuoteBooking`, `GetBookingCharge` of service.go).
use hivemind_backend.Prelude.Int.{pos_part, is_positive, ◌+ℤ◌, ℤ, pos, negsuc, neg}
use hivemind_backend.Bookings.Lifecycle.{refund_full_window}
use hivemind_backend.Bookings.Create.{admit, active_holds}
use hivemind_backend.Bookings.Types.{
  is_published, find_plan, Error, is_booked_by, BookingStatus, find_booking, Booking, Plan, Store,
}
use hivemind_backend.Prelude.{
  not, arith, ltb, guard, Option, any_where, Option-cases, List, count_where, or_err, Result, ℕ,
  Bool, ◌>>◌, ◌>>=◌, if◌then◌else◌, ◌↔◌, ◌⊎◌, ◌≡◌, ◌<◌, ◌≤◌, ◌||◌, ◌&&◌, ◌==◌, ◌/◌, ◌*◌, ◌-◌, ◌+◌,
  ◌∷◌, ok, inr, inl, false, true, [], some, none, refl,
}

-- `maxServiceFeeMinor`
abbrev pub max_service_fee_minor : ℕ
max_service_fee_minor = 4900

-- `int64(float64(price) * 0.05)`, capped. The float nearest to 0.05 is above it by less than one
-- part in 10^16, so up to 2^53 the product rounds to no less than a whole `price / 20` and stays
-- below the next whole number where `price / 20` has a fraction: the fee is the whole part.
-- A price below 0 gives the same with its sign, since the conversion drops the fraction.
unfoldable pub service_fee : ℤ → ℤ
service_fee (pos price) =
    pos (if ltb max_service_fee_minor (price / 20) then max_service_fee_minor else price / 20)
service_fee (negsuc n) = neg (pos ((n + 1) / 20))

pub record Quote : Type 0 where
  pub price_minor : ℤ
  pub service_fee_minor : ℤ
  pub total_minor : ℤ
  pub currency : ℕ
  pub eligible : Bool
  pub refund_full_until : Option ℕ
  pub refund_full_hours : ℕ

-- Whether a booking of the user would be let in now.
unfoldable pub is_eligible : ℕ → ℕ → ℕ → Plan → Store → Bool
is_eligible now pid uid p s =
    is_published p.status
    && ltb (p.confirmed_count + active_holds now pid uid s) p.capacity
    && not (any_where (is_booked_by pid uid) s.bookings)

-- `QuoteBooking`; plans start at least a day after the zero of the clock.
unfoldable pub quote_booking : ℕ → ℕ → ℕ → Store → Result Error Quote
quote_booking now pid uid s = do
  guard (not (pid == 0 || uid == 0)) Error.invalid_input
  p ← or_err (find_plan pid s) Error.plan_not_found
  ok (record {
    price_minor = p.price_minor;
    service_fee_minor = service_fee p.price_minor;
    total_minor = p.price_minor +ℤ service_fee p.price_minor;
    currency = p.currency;
    eligible = is_eligible now pid uid p s;
    refund_full_until =
        if is_positive p.price_minor then some (p.starts_at - refund_full_window) else none;
    refund_full_hours = if is_positive p.price_minor then 24 else 0;
  })

-- What a booking owes, who owes it, in what currency, and its status.
pub record Charge : Type 0 where
  pub owner_id : ℕ
  pub total_minor : ℤ
  pub currency : ℕ
  pub status : BookingStatus

-- `GetBookingCharge`
unfoldable pub get_booking_charge : ℕ → Store → Result Error Charge
get_booking_charge bid s = do
  guard (not (bid == 0)) Error.invalid_input
  b ← or_err (find_booking bid s) Error.booking_not_found
  ok (record {
    owner_id = b.user_id;
    total_minor = b.price_minor +ℤ service_fee b.price_minor;
    currency = b.currency;
    status = b.status;
  })

-- The fee of a price that is not below 0 is at most 5% of the price and at most ₹49, and exactly the smaller of the two in whole
-- minor units.
pub service_fee_bounds :
    (price : ℕ)
    → (20 * pos_part (service_fee (pos price)) ≤ price)
      × (pos_part (service_fee (pos price)) ≤ max_service_fee_minor)
      × ((price < 20 * pos_part (service_fee (pos price)) + 20)
          ⊎ (service_fee (pos price) ≡ pos max_service_fee_minor))
unfolding service_fee
service_fee_bounds price = ground arith

any-count :
    (f : Booking → Bool) (bs : List Booking) → (any_where f bs ≡ false) ↔ (count_where f bs ≡ 0)
unfolding any_where count_where
any-count f [] = ((λ h. refl), (λ h. refl))
any-count f (b ∷ bs) =
    let rest = any-count f bs in ((λ h. ground (arith, rest.0)), (λ h. ground (arith, rest.1)))

-- A quote is eligible exactly when `create` at that moment passes all its tests: it advertises
-- neither a seat that is held for someone else nor one to a user who has theirs.
pub quote_booking-eligible :
    (now : ℕ) (b : Booking) (s : Store) (q : Quote)
    → quote_booking now b.plan_id b.user_id s ≡ ok q
    → (q.eligible ≡ true) ↔ ((p : Plan) × (admit now b s ≡ ok p))
unfolding quote_booking is_eligible admit
quote_booking-eligible now b s q h = elim (Option-cases (find_plan b.plan_id s)) [
  | inl e ↦ absurd (ground arith)
  | inr (p, e) ↦
      let alone = any-count (is_booked_by b.plan_id b.user_id) s.bookings in
      ((λ t. (p, ground (arith, alone.0))), (λ t. ground (arith, t.1, alone.1)))
]
