-- ===== src/Payments/Refunds/Bounds.antt =====
-- The refunds of a payment against what was paid.
use hivemind_backend.Prelude.Int.{sum_exceeds-fits}
use hivemind_backend.Payments.Types.{PayError, payment_key, Money, is_not_failed, Refund, Payment}
use hivemind_backend.Payments.Refunds.{
  refund, begin_refund, refund_payment, settle_refund, processed_row, Answer, with_status,
  refunded_total, find_payment,
}
use hivemind_backend.Prelude.{
  ◌^◌, ◌<◌, ==→eq, ap, Result, err, arith, Result-cases, Bool-cases, Option-cases, sum_where, ℕ,
  find_where, Option, update_first, if◌then◌else◌, ◌≡◌, ◌≤◌, ◌||◌, ◌==◌, ◌+◌, ◌∷◌, ok, inr, inl,
  true, some, none, refl, subst,
}

-- No payment has returned, or is returning, more than was paid.
pub record Within (m : Money) : Type 0 where
  pub within :
      (pid : ℕ) (p : Payment) → find_payment pid m ≡ some p → refunded_total pid m ≤ p.amount_minor

-- What leaves the payments and raises no total keeps the bound.
pub Within-less :
    (m n : Money)
    → n.payments ≡ m.payments
    → ((pid : ℕ) → refunded_total pid n ≤ refunded_total pid m)
    → Within m
    → Within n
unfolding find_payment
Within-less m n same less v = record {
  within = λ pid p h.
      let known : find_where (payment_key pid) m.payments ≡ some p =
        subst (λ ps. find_where (payment_key pid) ps ≡ some p) same h in
      omega (arith, v.within pid p known, less pid);
}

-- The sum that `BeginRefund` compares is an `int64`.
abbrev pub Fits : ℕ → ℕ → Money → Type 0
Fits pid amount m = refunded_total pid m + amount < 2 ^ 63

-- A new attempt as its refund begins.
pub begin_refund-ok :
    (rid pid amount reason : ℕ) (m n : Money) (r : Refund) (oid : ℕ)
    → Fits pid amount m
    → begin_refund rid pid amount reason m ≡ ok (n, r, oid)
    → (p : Payment) × (find_payment pid m ≡ some p)
      × (refunded_total pid m + amount ≤ p.amount_minor)
      × (n ≡ record m { refunds = r ∷ m.refunds })
      × (r.id ≡ rid)
      × (r.payment_id ≡ pid)
      × (r.amount_minor ≡ amount)
      × (is_not_failed r.status ≡ true)
unfolding begin_refund
begin_refund-ok rid pid amount reason m n r oid fits h = elim (Option-cases (find_payment pid m)) [
  | inl e ↦ absurd (ground arith)
  | inr (p, e) ↦ (
    p,
    e,
    ground (arith, sum_exceeds-fits (refunded_total pid m) amount p.amount_minor fits),
    ground arith,
    ground arith,
    ground arith,
    ground arith,
    ground arith,
  )
]

-- What a refund of the payment `pid` adds to the total of the payment `q`.
abbrev pub returned : Answer → ℕ → ℕ → ℕ → ℕ
returned none pid q amount = 0
returned (some gid) pid q amount = if pid == q then amount else 0

-- The total of every payment after a refund is what it was, with the amount added to the payment
-- that is refunded if the gateway took it.
settled-total :
    (answer : Answer) (pid amount q : ℕ) (m : Money) (r : Refund)
    → r.payment_id ≡ pid
    → r.amount_minor ≡ amount
    → is_not_failed r.status ≡ true
    → refunded_total q (settle_refund answer amount (record m { refunds = r ∷ m.refunds }) r).0
      ≡ refunded_total q m + returned answer pid q amount
unfolding settle_refund refunded_total sum_where update_first with_status processed_row
settled-total none pid amount q m r k h l = ground arith
settled-total (some gid) pid amount q m r k h l = ground arith

settled-payments :
    (answer : Answer) (amount : ℕ) (m : Money) (r : Refund)
    → ((settle_refund answer amount m r).0.payments ≡ m.payments)
      × ((settle_refund answer amount m r).0.orders ≡ m.orders)
unfolding settle_refund
settled-payments none amount m r = (refl, refl)
settled-payments (some gid) amount m r = (refl, refl)

-- A refund that gets past `begin_refund`, and what it does to every total.
pub data RefundEnd (gateway : Option Answer) (rid pid amount reason : ℕ) (m : Money) : Type 0 where
  refused :
      (e : PayError)
      → refund gateway rid pid amount reason m ≡ (m, err e)
      → RefundEnd gateway rid pid amount reason m
  attempted :
      (answer : Answer) (p : Payment) (n : Money) (out : Result PayError Refund)
      → gateway ≡ some answer
      → find_payment pid m ≡ some p
      → refunded_total pid m + amount ≤ p.amount_minor
      → refund gateway rid pid amount reason m ≡ (n, out)
      → (n.payments ≡ m.payments) × (n.orders ≡ m.orders)
      → ((q : ℕ) → refunded_total q n ≡ refunded_total q m + returned answer pid q amount)
      → RefundEnd gateway rid pid amount reason m

pub refund-end :
    (gateway : Option Answer) (rid pid amount reason : ℕ) (m : Money)
    → Fits pid amount m
    → RefundEnd gateway rid pid amount reason m
unfolding refund
refund-end none rid pid amount reason m fits = refused PayError.gateway_unavailable refl
refund-end (some answer) rid pid amount reason m fits =
    elim (Result-cases (begin_refund rid pid amount reason m)) [
      | inr (x, e) ↦ refused x (rw (e, refund))
      | inl ((n, r, oid), e) ↦
          let (p, found, room, row, _, of_payment, of_amount, live) =
            begin_refund-ok rid pid amount reason m n r oid fits e in
          attempted answer p (settle_refund answer amount n r).0 (settle_refund answer amount n r).1
            refl found room (rw (e, refund))
            (rw row (settled-payments answer amount (record m { refunds = r ∷ m.refunds }) r))
            (λ q. rw row (settled-total answer pid amount q m r of_payment of_amount live))
    ]

attempt_fits :
    (answer : Answer) (m n : Money) (pid amount : ℕ) (p : Payment)
    → find_payment pid m ≡ some p
    → refunded_total pid m + amount ≤ p.amount_minor
    → n.payments ≡ m.payments
    → ((q : ℕ) → refunded_total q n ≡ refunded_total q m + returned answer pid q amount)
    → Within m
    → Within n
unfolding find_payment
attempt_fits answer m n pid amount p found room same total v = record {
  within = λ q x h.
      let known : find_where (payment_key q) m.payments ≡ some x =
        subst (λ ps. find_where (payment_key q) ps ≡ some x) same h in
      elim (Bool-cases (pid == q)) [
        | inl e ↦ ground (
          arith,
          total q,
          v.within q x known,
          ap (λ k. find_where (payment_key k) m.payments) (==→eq pid q e),
        )
        | inr e ↦ ground (arith, total q, v.within q x known)
      ];
}

RefundEnd-Within :
    (gateway : Option Answer) (rid pid amount reason : ℕ) (m : Money)
    → RefundEnd gateway rid pid amount reason m
    → Within m
    → Within (refund gateway rid pid amount reason m).0
RefundEnd-Within gateway rid pid amount reason m (refused e h) v = rw h v
RefundEnd-Within gateway rid pid amount reason m
      (attempted answer p n out g found room h (same, _) total) v =
    rw h (attempt_fits answer m n pid amount p found room same total v)

pub refund-Within :
    (gateway : Option Answer) (rid pid amount reason : ℕ) (m : Money)
    → Fits pid amount m
    → Within m
    → Within (refund gateway rid pid amount reason m).0
refund-Within gateway rid pid amount reason m fits =
    RefundEnd-Within gateway rid pid amount reason m
      (refund-end gateway rid pid amount reason m fits)

-- No refund, whatever the gateway answers, makes the refunds of a payment that did not fail come to
-- more than was paid, if they did not before and the amount and what was returned before add up to
-- less than 2^63, so that the code's sum does not wrap.
pub refund_payment-Within :
    (gateway : Option Answer) (rid pid amount reason : ℕ) (m : Money)
    → Fits pid amount m
    → Within m
    → Within (refund_payment gateway rid pid amount reason m).0
unfolding refund_payment
refund_payment-Within gateway rid pid amount reason m fits v =
    elim (Bool-cases (pid == 0 || amount == 0)) [
      | inl e ↦ rw e v
      | inr e ↦ rw e (refund-Within gateway rid pid amount reason m fits v)
    ]
