-- ===== src/Notifications/Order.antt =====
-- `ORDER BY created_at DESC`: picking rows commutes with it, and rows whose times differ come out
-- strictly newest first.
use hivemind_backend.Notifications.Types.{Board, Notification}
use hivemind_backend.Prelude.{
  arith, ltb, All-mono, All, ℕ, Bool, List, Option, Bool-cases, select_where, if◌then◌else◌, ◌≡◌,
  ◌&&◌, ◌==◌, ◌∷◌, inr, inl, false, true, [], some, none, refl,
}
use hivemind_backend.Notifications.Inbox.{
  limit, newest_first, is_of_user, list_for_user, is_before, insert_by_time,
}

abbrev pub has_time : ℕ → Notification → Bool
has_time t n = n.created_at == t

-- No two rows have the same time.
abbrev pub IsDistinct : List Notification → Type 0
IsDistinct [] = Unit
IsDistinct (n ∷ ns) = All (λ m. has_time n.created_at m ≡ false) ns × IsDistinct ns

-- Every row is newer than those after it.
abbrev pub IsStrict : List Notification → Type 0
IsStrict [] = Unit
IsStrict (n ∷ ns) = All (λ m. ltb m.created_at n.created_at ≡ true) ns × IsStrict ns

All-insert :
    (P : Notification → Type 0) (n : Notification) (ms : List Notification)
    → P n
    → All P ms
    → All P (insert_by_time n ms)
unfolding insert_by_time
All-insert P n [] h a = (h, tt)
All-insert P n (m ∷ ms) h a = elim (Bool-cases (ltb n.created_at m.created_at)) [
  | inl e ↦ rw e (a.0, All-insert P n ms h a.1)
  | inr e ↦ rw e (h, a)
]

All-newest_first :
    (P : Notification → Type 0) (ns : List Notification) → All P ns → All P (newest_first ns)
unfolding newest_first
All-newest_first P [] a = tt
All-newest_first P (n ∷ ns) a = All-insert P n (newest_first ns) a.0 (All-newest_first P ns a.1)

-- A row comes before those that are not newer, once its own time is none of theirs.
older :
    (n m : Notification) (ms : List Notification)
    → ltb n.created_at m.created_at ≡ false
    → All (λ k. has_time n.created_at k ≡ false) (m ∷ ms)
    → IsStrict (m ∷ ms)
    → All (λ k. ltb k.created_at n.created_at ≡ true) (m ∷ ms)
older n m ms h other strict = (ground arith, All-mono ms (λ k before. ground arith) strict.0)

insert-IsStrict :
    (n : Notification) (ms : List Notification)
    → All (λ m. has_time n.created_at m ≡ false) ms
    → IsStrict ms
    → IsStrict (insert_by_time n ms)
unfolding insert_by_time
insert-IsStrict n [] other strict = (tt, tt)
insert-IsStrict n (m ∷ ms) other strict = elim (Bool-cases (ltb n.created_at m.created_at)) [
  | inl e ↦ rw e (
    All-insert (λ k. ltb k.created_at m.created_at ≡ true) n ms e strict.0,
    insert-IsStrict n ms other.1 strict.1,
  )
  | inr e ↦ rw e (older n m ms e other strict, strict)
]

pub newest_first-IsStrict : (ns : List Notification) → IsDistinct ns → IsStrict (newest_first ns)
unfolding newest_first
newest_first-IsStrict [] d = tt
newest_first-IsStrict (n ∷ ns) d =
    insert-IsStrict n (newest_first ns) (All-newest_first _ ns d.0) (newest_first-IsStrict ns d.1)

select-insert :
    (before : Option ℕ) (n : Notification) (ms : List Notification)
    → select_where (is_before before) (insert_by_time n ms) ≡ (
        if is_before before n
        then insert_by_time n (select_where (is_before before) ms)
        else select_where (is_before before) ms)
unfolding select_where insert_by_time
select-insert none n [] = ground arith
select-insert none n (m ∷ ms) = ground (arith, select-insert none n ms)
select-insert (some t) n [] = ground arith
select-insert (some t) n (m ∷ ms) = ground (arith, select-insert (some t) n ms)

newest_first-select :
    (before : Option ℕ) (ns : List Notification)
    → newest_first (select_where (is_before before) ns)
      ≡ select_where (is_before before) (newest_first ns)
unfolding newest_first select_where
newest_first-select before [] = refl
newest_first-select before (n ∷ ns) =
    ground (arith, select-insert before n (newest_first ns), newest_first-select before ns)

select-select :
    (f g : Notification → Bool) (ns : List Notification)
    → select_where (λ n. f n && g n) ns ≡ select_where g (select_where f ns)
unfolding select_where
select-select f g [] = refl
select-select f g (n ∷ ns) = ground (arith, select-select f g ns)

-- A page is the start of what lies before the cursor in the user's rows, newest first.
pub list_for_user-inbox :
    (uid k : ℕ) (before : Option ℕ) (b : Board)
    → list_for_user uid k before b
      ≡ limit k (
          select_where
            (is_before before)
            (newest_first (select_where (is_of_user uid) b.notifications)))
unfolding list_for_user
list_for_user-inbox uid k before b = rw (
  select-select (is_of_user uid) (is_before before) b.notifications,
  newest_first-select before (select_where (is_of_user uid) b.notifications),
)
