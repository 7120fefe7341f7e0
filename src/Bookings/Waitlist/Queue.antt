-- ===== src/Bookings/Waitlist/Queue.antt =====
-- Offers go to the head of the queue, one seat each.
use hivemind_backend.Bookings.Types.{WaitlistEntry}
use hivemind_backend.Bookings.Waitlist.{
  make_offer, offer_seats, precedes, first_waiting, is_head, waits_for,
}
use hivemind_backend.Prelude.{
  sym, subst, zero, suc, ◌⊎◌, All-mono, Bool-cases, All-update_first, arith, ◌≡◌, find_where, List,
  ℕ, Option-cases, All, ◌∷◌, inr, inl, false, true, [], some, none,
}

-- A row that is still waiting does not come before `e`.
abbrev pub IsBehind : ℕ → WaitlistEntry → WaitlistEntry → Type 0
IsBehind pid e d = (waits_for pid d ≡ false) ⊎ (precedes d e ≡ false)

pub first_waiting-waits :
    (pid : ℕ) (es : List WaitlistEntry) (e : WaitlistEntry)
    → first_waiting pid es ≡ some e
    → waits_for pid e ≡ true
unfolding first_waiting
first_waiting-waits pid [] e h = cc
first_waiting-waits pid (y ∷ ys) e h = elim (Option-cases (first_waiting pid ys)) [
  | inl n ↦ ground arith
  | inr (d, f) ↦ ground (arith, first_waiting-waits pid ys d f)
]

pub first_waiting-none :
    (pid : ℕ) (es : List WaitlistEntry)
    → first_waiting pid es ≡ none
    → All (λ d. waits_for pid d ≡ false) es
unfolding first_waiting
first_waiting-none pid [] h = tt
first_waiting-none pid (y ∷ ys) h = ground (arith, first_waiting-none pid ys)

precedes_asym : (d y : WaitlistEntry) → precedes d y ≡ true → precedes y d ≡ false
precedes_asym d y h = ground arith

-- Who is not before `d` is not before a `y` that `d` is not before.
precedes_chain :
    (x d y : WaitlistEntry) → precedes x d ≡ false → precedes d y ≡ false → precedes x y ≡ false
precedes_chain x d y h k = ground arith

first_waiting-cons :
    (pid : ℕ) (y : WaitlistEntry) (ys : List WaitlistEntry) (d e : WaitlistEntry)
    → first_waiting pid ys ≡ some d
    → first_waiting pid (y ∷ ys) ≡ some e
    → ((e ≡ d) × (waits_for pid y ≡ true → precedes d y ≡ true))
      ⊎ ((e ≡ y) × (precedes d y ≡ false))
unfolding first_waiting
first_waiting-cons pid y ys d e f h = ground arith

-- Nobody who waits comes before the head of the queue.
pub first_waiting-least :
    (pid : ℕ) (es : List WaitlistEntry) (e : WaitlistEntry)
    → first_waiting pid es ≡ some e
    → All (IsBehind pid e) es
unfolding first_waiting
first_waiting-least pid [] e h = tt
first_waiting-least pid (y ∷ ys) e h = elim (Option-cases (first_waiting pid ys)) [
  | inl n ↦ (inr (ground arith), All-mono ys (λ x out. inl out) (first_waiting-none pid ys n))
  | inr (d, f) ↦ elim (first_waiting-cons pid y ys d e f h) [
    | inl (same, before) ↦
        subst (λ z. All (IsBehind pid z) (y ∷ ys)) (sym same)
          (head_before d before, first_waiting-least pid ys d f)
    | inr (same, behind) ↦
        subst (λ z. All (IsBehind pid z) (y ∷ ys)) (sym same)
          (
            inr (ground arith),
            All-mono ys (λ x b. chained d x b behind) (first_waiting-least pid ys d f),
          )
  ]
]
  where
    head_before :
        (d : WaitlistEntry) → (waits_for pid y ≡ true → precedes d y ≡ true) → IsBehind pid d y
    head_before d before = elim (Bool-cases (waits_for pid y)) [
      | inl w ↦ inr (precedes_asym d y (before w))
      | inr w ↦ inl w
    ]

    chained : (d x : WaitlistEntry) → IsBehind pid d x → precedes d y ≡ false → IsBehind pid y x
    chained d x (inl out) behind = inl out
    chained d x (inr b) behind = inr (precedes_chain x d y b behind)

-- The head is a row of the table.
pub first_waiting-found :
    (pid : ℕ) (es : List WaitlistEntry) (e : WaitlistEntry)
    → first_waiting pid es ≡ some e
    → (r : WaitlistEntry) × (find_where (is_head pid e) es ≡ some r)
unfolding first_waiting find_where
first_waiting-found pid [] e h = cc
first_waiting-found pid (y ∷ ys) e h = elim (Bool-cases (is_head pid e y)) [
  | inl y_head ↦ (y, rw y_head)
  | inr other ↦ elim (Option-cases (first_waiting pid ys)) [
    | inl n ↦ absurd (ground arith)
    | inr (d, f) ↦ elim (first_waiting-cons pid y ys d e f h) [
      | inl (same, _) ↦
          let (r, found) = first_waiting-found pid ys d f in
          (r, rw other (subst (λ z. find_where (is_head pid z) ys ≡ some r) (sym same) found))
      | inr (same, _) ↦ absurd (ground (arith, first_waiting-waits pid (y ∷ ys) e h))
    ]
  ]
]

-- One offer: rows satisfying `P` do so still, if `P` survives the offer of a waiting row.
pub offer_seats-All {κ} :
    (P : WaitlistEntry → Type κ) (n now pid : ℕ) (es : List WaitlistEntry)
    → ((r : WaitlistEntry) → waits_for pid r ≡ true → P r → P (make_offer now r))
    → All P es
    → All P (offer_seats n now pid es).0
unfolding offer_seats
offer_seats-All P zero now pid es keep a = a
offer_seats-All P (suc n) now pid es keep a = elim (Option-cases (first_waiting pid es)) [
  | inl h ↦ rw (h, offer_seats) a
  | inr (e, h) ↦
      rw (h, offer_seats)
        (offer_seats-All P n now pid _ keep (
          All-update_first P (is_head pid e) (make_offer now) es (λ x t p. keep x (ground arith) p)
            a))
]

-- The seats of a plan that fall free are offered in the order of the queue: of the rows that get
-- an offer, none comes after a row of the plan that still waits.
pub offer_seats_fifo :
    (n now pid : ℕ) (es : List WaitlistEntry)
    → All (λ e. All (IsBehind pid e) (offer_seats n now pid es).0) (offer_seats n now pid es).1
unfolding offer_seats make_offer
offer_seats_fifo zero now pid es = tt
offer_seats_fifo (suc n) now pid es = elim (Option-cases (first_waiting pid es)) [
  | inl h ↦ rw (h, offer_seats) tt
  | inr (e, h) ↦
      rw (h, offer_seats)
        (
          offer_seats-All (IsBehind pid e) n now pid _ (λ r w b. inl (ground arith))
              (All-update_first (IsBehind pid e) (is_head pid e) (make_offer now) es
                (λ x t b. inl (ground arith)) (first_waiting-least pid es e h)),
          offer_seats_fifo n now pid _,
        )
]
