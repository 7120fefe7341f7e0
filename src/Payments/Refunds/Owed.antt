-- ===== src/Payments/Refunds/Owed.antt =====
-- What a cancelled booking gets back, and what the gateway's webhook may do to it.
use hivemind_backend.Prelude.Int.{sum_exceeds-below}
use hivemind_backend.Payments.Refunds.Bounds.{Within-less, Within}
use hivemind_backend.Payments.Refunds.{
  counts_for, set_refund_status, refund, processed_row, refund_booking, find_payment,
  refunded_total, refund_owed, settle_refund, pays_booking, record_refund_result, last_where,
  begin_refund, find_captured_payment, RefundNews, refund_target, with_status,
}
use hivemind_backend.Payments.Types.{
  RefundStatus, is_not_failed, Refund, Payment, is_captured, Money, refund_key,
}
use hivemind_backend.Prelude.{
  ◌^◌, ◌/◌, ap, min, update_first-none, sum_where-update_first, if◌then◌else◌, ◌⊎◌, ◌*◌, none, refl,
  arith, ℕ, List, Bool, Option-cases, find_where, sum_where, update_first, ◌≡◌, ◌<◌, ◌≤◌, ◌-◌, ◌+◌,
  ◌∷◌, inr, inl, false, true, [], some, suc, zero,
}

scaled : (a k : ℕ) → k ≤ 100 → a * k ≤ a * 100
scaled a k h = grind arith

-- 100% at most of what was paid is owed.
refund_target_le : (p : Payment) (percent : ℕ) → refund_target p percent ≤ p.amount_minor
unfolding refund_target
refund_target_le p percent = omega (arith, scaled p.amount_minor (min percent 100) (omega arith))

-- A refund that the gateway takes, of an amount that fits, adds its amount.
refund_total :
    (gid rid amount reason : ℕ) (m : Money) (p : Payment)
    → find_payment p.id m ≡ some p
    → is_captured p.status ≡ true
    → 0 < amount
    → refunded_total p.id m + amount ≤ p.amount_minor
    → p.amount_minor < 2 ^ 63
    → refunded_total p.id (refund (some (some gid)) rid p.id amount reason m).0
      ≡ refunded_total p.id m + amount
unfolding refund begin_refund settle_refund refunded_total sum_where update_first processed_row
refund_total gid rid amount reason m p found captured some_left fits int64 =
    ground (arith, sum_exceeds-below (refunded_total p.id m) amount p.amount_minor fits int64)

last_where-holds :
    (f : Payment → Bool) (ps : List Payment) (p : Payment) → last_where f ps ≡ some p → f p ≡ true
unfolding last_where
last_where-holds f [] p h = cc
last_where-holds f (q ∷ ps) p h = elim (Option-cases (last_where f ps)) [
  | inl n ↦ ground arith
  | inr (d, e) ↦ ground (arith, last_where-holds f ps d e)
]

-- The least whole amount from `before` on that is not below a percentage of an amount rounded down.
abbrev pub IsTopUp : ℕ → ℕ → ℕ → ℕ → Type 0
IsTopUp amount percent before total =
    (before ≤ total)
    × (amount * percent < 100 * (total + 1))
    × ((total ≡ before) ⊎ (100 * total ≤ amount * percent))

top_up :
    (amount percent before : ℕ)
    → IsTopUp amount percent before (before + (amount * percent / 100 - before))
top_up amount percent before = (omega arith, omega arith, omega arith)

refund_owed-total :
    (gid rid reason percent : ℕ) (m : Money) (p : Payment)
    → Within m
    → find_payment p.id m ≡ some p
    → is_captured p.status ≡ true
    → p.amount_minor < 2 ^ 63
    → refunded_total p.id (refund_owed (some (some gid)) rid p reason percent m).0
      ≡ refunded_total p.id m + (p.amount_minor * min percent 100 / 100 - refunded_total p.id m)
unfolding refund_owed
refund_owed-total gid rid reason percent m p v found captured int64 =
    let target = refund_target_le p percent in
    let fits = v.within p.id p found in
    unfold refund_target in
    ground (
      arith,
      refund_total gid rid (refund_target p percent - refunded_total p.id m) reason m p found,
    )

-- Where the gateway takes the refund, a booking whose last captured payment is `p` has got back of
-- it the percentage, rounded down, or what it had got back before if that was more: never both. The
-- percentage is from 1 to 100, `p` is found under its key, no payment had more returned than was
-- paid, and 100 times what was paid is below 2^63, as the code multiplies in `int64`.
pub refund_booking-total :
    (gid rid bid reason percent : ℕ) (m : Money) (p : Payment)
    → Within m
    → find_captured_payment bid m ≡ some p
    → find_payment p.id m ≡ some p
    → 0 < percent
    → percent ≤ 100
    → 100 * p.amount_minor < 2 ^ 63
    → IsTopUp p.amount_minor percent
        (refunded_total p.id m)
        (refunded_total p.id (refund_booking (some (some gid)) rid bid reason percent m).0)
unfolding refund_booking find_captured_payment pays_booking
refund_booking-total gid rid bid reason percent m p v paid found some_percent whole int64 =
    let captured = last_where-holds (pays_booking bid m.orders) m.payments p paid in
    let owed = refund_owed-total gid rid reason percent m p v found (ground arith) (omega arith) in
    let bounded : min percent 100 ≡ percent = omega arith in
    let total : refunded_total p.id (refund_booking (some (some gid)) rid bid reason percent m).0
        ≡ refunded_total p.id m + (p.amount_minor * percent / 100 - refunded_total p.id m) =
      ground arith in
    rw total (top_up p.amount_minor percent (refunded_total p.id m))

-- The news that the gateway may send of a refund without breaking the bound: all but the success of
-- an attempt that was recorded as failed.
abbrev pub IsExpected : ℕ → RefundNews → Money → Type 0
IsExpected rid RefundNews.success m =
    (r : Refund) → find_where (refund_key rid) m.refunds ≡ some r → is_not_failed r.status ≡ true
IsExpected rid _ m = Unit

set_refund_status-total :
    (rid : ℕ) (st : RefundStatus) (m : Money) (r : Refund) (q : ℕ)
    → find_where (refund_key rid) m.refunds ≡ some r
    → refunded_total q (set_refund_status rid st m) + (if counts_for q r then r.amount_minor else 0)
      ≡ refunded_total q m + (if counts_for q (with_status st r) then r.amount_minor else 0)
unfolding refunded_total set_refund_status with_status
set_refund_status-total rid st m r q found =
    sum_where-update_first (counts_for q) (refund_key rid) (λ x. x.amount_minor) (with_status st)
      m.refunds r found

set_refund_status-none :
    (rid : ℕ) (st : RefundStatus) (m : Money)
    → find_where (refund_key rid) m.refunds ≡ none
    → (set_refund_status rid st m).refunds ≡ m.refunds
unfolding set_refund_status
set_refund_status-none rid st m h = update_first-none (refund_key rid) (with_status st) m.refunds h

-- A status that does not count, or one on a row that counted before, raises no total.
set_refund_status-Within :
    (rid : ℕ) (st : RefundStatus) (m : Money)
    → ((r : Refund)
        → find_where (refund_key rid) m.refunds ≡ some r
        → (is_not_failed st ≡ false) ⊎ (is_not_failed r.status ≡ true))
    → Within m
    → Within (set_refund_status rid st m)
unfolding set_refund_status with_status refunded_total
set_refund_status-Within rid st m fine v =
    Within-less m (set_refund_status rid st m) refl
      (λ q. elim (Option-cases (find_where (refund_key rid) m.refunds)) [
        | inl e ↦ omega (
          arith,
          ap (λ rs. sum_where (counts_for q) (λ x. x.amount_minor) rs)
              (set_refund_status-none rid st m e),
        )
        | inr (r, e) ↦ ground (arith, set_refund_status-total rid st m r q e, fine r e)
      ])
      v

-- A refund webhook keeps the refunds of every payment within what was paid, if they were before,
-- unless it reports the success of an attempt that was recorded as failed.
pub record_refund_result-Within :
    (rid : ℕ) (news : RefundNews) (m : Money)
    → IsExpected rid news m
    → Within m
    → Within (record_refund_result rid news m)
unfolding record_refund_result
record_refund_result-Within zero news m x v = v
record_refund_result-Within (suc rid) RefundNews.success m x v =
    set_refund_status-Within (suc rid) RefundStatus.processed m (λ r e. inr (x r e)) v
record_refund_result-Within (suc rid) RefundNews.failed m x v =
    set_refund_status-Within (suc rid) RefundStatus.failed m (λ r e. inl refl) v
record_refund_result-Within (suc rid) RefundNews.cancelled m x v =
    set_refund_status-Within (suc rid) RefundStatus.failed m (λ r e. inl refl) v
record_refund_result-Within (suc rid) RefundNews.other m x v = v

-- A success that the gateway reports of an attempt which was recorded as failed counts again: where
-- its amount no longer fits beside the other refunds of the payment, the total exceeds what was
-- paid.
pub record_refund_result-exceeds :
    (rid : ℕ) (m : Money) (r : Refund) (p : Payment)
    → find_where (refund_key (suc rid)) m.refunds ≡ some r
    → is_not_failed r.status ≡ false
    → find_payment r.payment_id m ≡ some p
    → p.amount_minor < refunded_total r.payment_id m + r.amount_minor
    → ¬ Within (record_refund_result (suc rid) RefundNews.success m)
unfolding record_refund_result find_payment set_refund_status with_status
record_refund_result-exceeds rid m r p found was_failed paid over v =
    let total = set_refund_status-total (suc rid) RefundStatus.processed m r r.payment_id found in
    let bound = v.within r.payment_id p paid in ground (arith, total, bound)
