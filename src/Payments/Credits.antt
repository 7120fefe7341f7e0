-- ===== src/Payments/Credits.antt =====
-- Credits and unpaid orders (`CreateOrderWithCredits`, `GetCreditBalance`, `cancelUnpaid` of
-- repository.go). An order's spend is one row of the ledger, of the user who placed it.
use hivemind_backend.Payments.Types.{Credit, OrderStatus, Order, CreditReason, Money, is_created}
use hivemind_backend.Prelude.{
  ◌⊎◌, arith, ==_refl, Bool-cases, ◌≤◌, inr, inl, subst, min, ltb, not, update_where, Bool, ℕ, List,
  select_where, any_where, if◌then◌else◌, ◌++◌, ◌≡◌, ◌&&◌, ◌==◌, ◌-◌, ◌+◌, ◌∷◌, false, [],
}
use hivemind_backend.Prelude.Int.{
  neg_within, neg_cancel, +ℤ_zero, neg, pos, pos_part, neg_part, ◌+ℤ◌, ℤ,
}

-- The sum of the ledger rows of one user.
unfoldable pub credit_balance : ℕ → List Credit → ℤ
credit_balance uid [] = pos 0
credit_balance uid (c ∷ cs) =
    (if c.user_id == uid then c.amount_minor else pos 0) +ℤ credit_balance uid cs

-- `GetCreditBalance`
unfoldable pub get_credit_balance : ℕ → Money → ℤ
get_credit_balance uid m = credit_balance uid m.credits

-- What of an amount the user's balance covers.
unfoldable pub credits_spent : ℕ → Bool → ℕ → Money → ℕ
credits_spent uid use_credits amount m =
    if use_credits then min (pos_part (get_credit_balance uid m)) amount else 0

unfoldable pub spend_row : ℕ → ℕ → ℕ → Credit
spend_row uid spent oid = record {
  user_id = uid;
  amount_minor = neg (pos spent);
  reason = CreditReason.booking_spend;
  order_id = oid;
}

abbrev pub spend_rows : ℕ → ℕ → ℕ → List Credit → List Credit
spend_rows uid spent oid cs = if ltb 0 spent then spend_row uid spent oid ∷ cs else cs

-- `CreateOrderWithCredits`; `oid` is the key that the database draws.
unfoldable pub create_order_with_credits : ℕ → Order → ℕ → Bool → Money → Money × Order × ℕ
create_order_with_credits oid o uid use_credits m =
    let spent = credits_spent uid use_credits o.amount_minor m in
    let out : Order = record o {
      id = oid;
      amount_minor = o.amount_minor - spent;
      gateway_order_id = 0;
      status = OrderStatus.created;
    } in
    (record m { orders = out ∷ m.orders; credits = spend_rows uid spent oid m.credits }, out, spent)

-- The spends of an order by one user.
abbrev pub is_spend_of : ℕ → Credit → Bool
is_spend_of oid c = elim c.reason [ CreditReason.booking_spend ↦ c.order_id == oid | _ ↦ false ]

-- `sum(amount_minor)` over an order's spends, for the user of its first row.
unfoldable pub spend_sum : ℕ → ℕ → List Credit → ℤ
spend_sum oid uid [] = pos 0
spend_sum oid uid (c ∷ cs) =
    (if is_spend_of oid c && c.user_id == uid then c.amount_minor else pos 0)
    +ℤ spend_sum oid uid cs

-- The users with a spend on an order, each once, in order: `GROUP BY user_id`.
unfoldable pub spenders : List ℕ → ℕ → List Credit → List ℕ
spenders seen oid [] = []
spenders seen oid (c ∷ cs) =
    let skip = spenders seen oid cs in
    let take = c.user_id ∷ spenders (c.user_id ∷ seen) oid cs in
    if is_spend_of oid c && not (any_where (λ k. k == c.user_id) seen) then take else skip

unfoldable pub reversal_row : ℕ → ℕ → ℤ → Credit
reversal_row uid oid amount = record {
  user_id = uid;
  amount_minor = amount;
  reason = CreditReason.booking_spend_reversed;
  order_id = oid;
}

-- The rows that give an order's credits back, one for each user whose sum is negative.
unfoldable pub reversals : ℕ → List ℕ → List Credit → List Credit
reversals oid [] cs = []
reversals oid (uid ∷ uids) cs =
    let rest = reversals oid uids cs in
    if ltb 0 (neg_part (spend_sum oid uid cs))
    then reversal_row uid oid (neg (spend_sum oid uid cs)) ∷ rest
    else rest

unfoldable pub give_back : ℕ → List Credit → List Credit
unfolding reversals spenders
give_back oid cs = reversals oid (spenders [] oid cs) cs ++ cs

unfoldable pub give_back_all : List Order → List Credit → List Credit
give_back_all [] cs = cs
give_back_all (o ∷ os) cs = give_back_all os (give_back o.id cs)

-- `cancelUnpaid`, with the orders that its condition picks.
unfoldable pub cancel_unpaid : (Order → Bool) → Money → Money
cancel_unpaid f m =
    let unpaid = λ (o : Order). is_created o.status && f o in
    record m {
      orders = update_where unpaid (λ o. record o { status = OrderStatus.cancelled }) m.orders;
      credits = give_back_all (select_where unpaid m.orders) m.credits;
    }

-- `CancelUnpaidOrdersForBooking`
unfoldable pub cancel_unpaid_orders_for_booking : ℕ → Money → Money
cancel_unpaid_orders_for_booking bid m = cancel_unpaid (λ o. o.booking_id == bid) m

spend_balance :
    (uid spent oid : ℕ) (cs : List Credit)
    → credit_balance uid (spend_rows uid spent oid cs) +ℤ pos spent ≡ credit_balance uid cs
unfolding credit_balance spend_row
spend_balance uid spent oid cs = elim (Bool-cases (ltb 0 spent)) [
  | inl e ↦ rw (e, ==_refl uid) (neg_cancel spent (credit_balance uid cs))
  | inr e ↦ rw e (
      subst (λ k. credit_balance uid cs +ℤ pos k ≡ credit_balance uid cs) (ground arith)
        (+ℤ_zero (credit_balance uid cs)))
]

spend_not_below :
    (uid spent oid : ℕ) (cs : List Credit)
    → spent ≤ pos_part (credit_balance uid cs)
    → (spent ≡ 0) ⊎ (neg_part (credit_balance uid (spend_rows uid spent oid cs)) ≡ 0)
unfolding credit_balance spend_row
spend_not_below uid spent oid cs within = elim (Bool-cases (ltb 0 spent)) [
  | inl e ↦
      inr (rw (e, ==_refl uid) (neg_within spent (credit_balance uid cs) within (ground arith)))
  | inr e ↦ inl (ground arith)
]

credits_spent_le :
    (uid : ℕ) (use_credits : Bool) (amount : ℕ) (m : Money)
    → (credits_spent uid use_credits amount m ≤ amount)
      × (credits_spent uid use_credits amount m ≤ pos_part (get_credit_balance uid m))
unfolding credits_spent
credits_spent_le uid use_credits amount m = ground arith

-- An order and the credits that it takes make up the amount asked for, the balance falls by just
-- those credits, and it does not fall below 0 by them.
pub create_order_with_credits-balance :
    (oid : ℕ) (o : Order) (uid : ℕ) (use_credits : Bool) (m n : Money) (out : Order) (spent : ℕ)
    → create_order_with_credits oid o uid use_credits m ≡ (n, out, spent)
    → (out.amount_minor + spent ≡ o.amount_minor)
      × (get_credit_balance uid n +ℤ pos spent ≡ get_credit_balance uid m)
      × ((spent ≡ 0) ⊎ (neg_part (get_credit_balance uid n) ≡ 0))
unfolding create_order_with_credits get_credit_balance
create_order_with_credits-balance oid o uid use_credits m n out spent h =
    let le = credits_spent_le uid use_credits o.amount_minor m in
    let amount = credits_spent uid use_credits o.amount_minor m in
    subst
      (λ (r : Money × Order × ℕ).
        (r.1.amount_minor + r.2 ≡ o.amount_minor)
        × (get_credit_balance uid r.0 +ℤ pos r.2 ≡ get_credit_balance uid m)
        × ((r.2 ≡ 0) ⊎ (neg_part (get_credit_balance uid r.0) ≡ 0)))
      h
      (
        omega (arith, le.0),
        spend_balance uid amount oid m.credits,
        spend_not_below uid amount oid m.credits le.1,
      )
