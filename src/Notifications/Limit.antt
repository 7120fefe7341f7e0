-- ===== src/Notifications/Limit.antt =====
-- `LIMIT` on rows in order: what a page takes, what is left of them, and where the page ends.
use hivemind_backend.Notifications.Types.{Notification}
use hivemind_backend.Notifications.Inbox.{limit, last_time, is_before, PageToken}
use hivemind_backend.Prelude.{
  Option, none, ltb, ltb→lt, ◌∙◌, arith, length, List, ℕ, Bool, Bool-cases, select_where, All, ◌++◌,
  ◌≡◌, ◌≤◌, ◌-◌, ◌∷◌, inr, inl, true, [], some, refl, suc, zero,
}
use hivemind_backend.Notifications.Order.{IsStrict}

unfoldable pub skip : ℕ → List Notification → List Notification
skip zero ns = ns
skip (suc k) [] = []
skip (suc k) (n ∷ ns) = skip k ns

pub limit-skip : (k : ℕ) (ns : List Notification) → limit k ns ++ skip k ns ≡ ns
unfolding limit skip
limit-skip zero ns = refl
limit-skip (suc k) [] = refl
limit-skip (suc k) (n ∷ ns) = ground (arith, limit-skip k ns)

pub length-skip : (k : ℕ) (ns : List Notification) → length (skip k ns) ≡ length ns - k
unfolding skip
length-skip zero ns = ground arith
length-skip (suc k) [] = ground arith
length-skip (suc k) (n ∷ ns) = ground (arith, length-skip k ns)

pub limit_whole : (k : ℕ) (ns : List Notification) → length ns ≤ k → limit k ns ≡ ns
unfolding limit
limit_whole zero [] h = refl
limit_whole zero (n ∷ ns) h = absurd (omega arith)
limit_whole (suc k) [] h = refl
limit_whole (suc k) (n ∷ ns) h = ground (arith, limit_whole k ns)

pub length-limit : (k : ℕ) (ns : List Notification) → k ≤ length ns → length (limit k ns) ≡ k
unfolding limit
length-limit zero ns h = refl
length-limit (suc k) [] h = absurd (omega arith)
length-limit (suc k) (n ∷ ns) h = ground (arith, length-limit k ns)

pub limit-limit : (k : ℕ) (ns : List Notification) → limit k (limit (suc k) ns) ≡ limit k ns
unfolding limit
limit-limit zero ns = refl
limit-limit (suc k) [] = refl
limit-limit (suc k) (n ∷ ns) = ground (arith, limit-limit k ns)

pub select_whole :
    (f : Notification → Bool) (ns : List Notification)
    → All (λ n. f n ≡ true) ns
    → select_where f ns ≡ ns
unfolding select_where
select_whole f [] a = refl
select_whole f (n ∷ ns) a = ground (arith, a.0, select_whole f ns a.1)

pub All-select :
    (f : Notification → Bool) (ns : List Notification) → All (λ n. f n ≡ true) (select_where f ns)
unfolding select_where
All-select f [] = tt
All-select f (n ∷ ns) = elim (Bool-cases (f n)) [
  | inl e ↦ rw e (e, All-select f ns)
  | inr e ↦ rw e (All-select f ns)
]

pub select-none : (ns : List Notification) → select_where (is_before none) ns ≡ ns
unfolding select_where
select-none [] = refl
select-none (n ∷ ns) = ground (arith, select-none ns)

-- A row that is not before the cursor is not picked.
pub select-head :
    (t : ℕ) (n : Notification) (ns : List Notification)
    → t ≤ n.created_at
    → select_where (is_before (some t)) (n ∷ ns) ≡ select_where (is_before (some t)) ns
unfolding select_where
select-head t n ns h = ground arith

-- Where a page ends: the row whose time is the cursor, the rows left after it, and that this time
-- has whatever all the rows' times have.
unfoldable pub PageEnd : ℕ → List Notification → Notification → Type 0
PageEnd k ns n =
    (last_time (limit (suc k) ns) ≡ PageToken.cursor n.created_at)
    × (select_where (is_before (some n.created_at)) ns ≡ skip (suc k) ns)
    × ((f : Notification → Bool) → All (λ m. f m ≡ true) ns → f n ≡ true)

pub page_end :
    (k : ℕ) (ns : List Notification)
    → IsStrict ns
    → suc k ≤ length ns
    → (n : Notification) × PageEnd k ns n
unfolding PageEnd limit skip last_time
page_end k [] strict h = absurd (omega arith)
page_end zero (n ∷ ns) strict h = (
  n,
  (refl, select-head n.created_at n ns (omega arith) ∙ select_whole _ ns strict.0, λ f a. a.0),
)
page_end (suc k) (n ∷ []) strict h = absurd (omega arith)
page_end (suc k) (n ∷ m ∷ ns) strict h =
    let (x, (last, left, every)) = page_end k (m ∷ ns) strict.1 (omega arith) in
    let newer =
      ltb→lt x.created_at n.created_at (every (λ m. ltb m.created_at n.created_at) strict.0) in
    (x, (last, select-head x.created_at n (m ∷ ns) (omega arith) ∙ left, λ f a. every f a.1))

pub All-select_where :
    (P : Notification → Type 0) (f : Notification → Bool) (ns : List Notification)
    → All P ns
    → All P (select_where f ns)
unfolding select_where
All-select_where P f [] a = tt
All-select_where P f (n ∷ ns) a = elim (Bool-cases (f n)) [
  | inl e ↦ rw e (a.0, All-select_where P f ns a.1)
  | inr e ↦ rw e (All-select_where P f ns a.1)
]

pub select-IsStrict :
    (f : Notification → Bool) (ns : List Notification) → IsStrict ns → IsStrict (select_where f ns)
unfolding select_where
select-IsStrict f [] strict = tt
select-IsStrict f (n ∷ ns) strict = elim (Bool-cases (f n)) [
  | inl e ↦ rw e (All-select_where _ f ns strict.0, select-IsStrict f ns strict.1)
  | inr e ↦ rw e (select-IsStrict f ns strict.1)
]

-- What lies before an earlier time is found among what lies before a later one.
pub select-narrow :
    (before : Option ℕ) (t : ℕ) (n : Notification) (ns : List Notification)
    → t ≡ n.created_at
    → is_before before n ≡ true
    → select_where (is_before (some t)) (select_where (is_before before) ns)
      ≡ select_where (is_before (some t)) ns
unfolding select_where
select-narrow before t n [] same h = refl
select-narrow none t n (m ∷ ns) same h = ground (arith, select-narrow none t n ns same h)
select-narrow (some s) t n (m ∷ ns) same h = ground (arith, select-narrow (some s) t n ns same h)
