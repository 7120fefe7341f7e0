-- ===== src/Connections/Pairs.antt =====
-- At most one connection for two users, whoever asked whom, and one row for an id.
use hivemind_backend.Connections.Requests.{new_connection, set_status, request_row}
use hivemind_backend.Prelude.{
  Option-cases, Bool-cases, ◌∙◌, ◌⊎◌, inr, inl, some, arith, Bool, update_first, ℕ, List,
  find_where, count_where, ◌≡◌, ◌≤◌, ◌||◌, ◌&&◌, ◌==◌, ◌∷◌, false, true, [], none, refl,
}
use hivemind_backend.Connections.Types.{
  Connection, ConnectionStatus, is_between, is_undecided, connection_key,
}

-- No two rows are between the same two users.
unfoldable pub IsPaired : List Connection → Type 0
IsPaired rows = (a b : ℕ) → count_where (is_between a b) rows ≤ 1

-- No two rows have one id.
unfoldable pub IsKeyed : List Connection → Type 0
IsKeyed rows = (id : ℕ) → count_where (connection_key id) rows ≤ 1

-- A decision changes neither the two users nor the id.
pub count-decide :
    (f : Connection → Bool) (id : ℕ) (status : ConnectionStatus) (rows : List Connection)
    → ((c : Connection) → f (set_status status c) ≡ f c)
    → count_where f (update_first (connection_key id) (set_status status) rows) ≡ count_where f rows
unfolding count_where update_first
count-decide f id status [] same = refl
count-decide f id status (c ∷ rows) same =
    ground (arith, same c, count-decide f id status rows same)

pub decide-IsPaired :
    (id : ℕ) (status : ConnectionStatus) (rows : List Connection)
    → IsPaired rows
    → IsPaired (update_first (connection_key id) (set_status status) rows)
unfolding IsPaired set_status
decide-IsPaired id status rows paired a b =
    rw (count-decide (is_between a b) id status rows (λ c. refl)) (paired a b)

pub decide-IsKeyed :
    (id : ℕ) (status : ConnectionStatus) (rows : List Connection)
    → IsKeyed rows
    → IsKeyed (update_first (connection_key id) (set_status status) rows)
unfolding IsKeyed set_status
decide-IsKeyed id status rows keyed k =
    rw (count-decide (connection_key k) id status rows (λ c. refl)) (keyed k)

uncounted :
    (f : Connection → Bool) (rows : List Connection)
    → find_where f rows ≡ none
    → count_where f rows ≡ 0
unfolding count_where find_where
uncounted f [] h = refl
uncounted f (c ∷ rows) h = ground (arith, uncounted f rows)

-- A pair in either order.
abbrev pub same_pair : ℕ → ℕ → ℕ → ℕ → Bool
same_pair x y a b = x == a && y == b || x == b && y == a

pub is_between-same :
    (x y a b : ℕ) (c : Connection) → same_pair x y a b ≡ true → is_between x y c ≡ is_between a b c
is_between-same x y a b c h = ground arith

pub is_between-other :
    (x y a b : ℕ) (c : Connection)
    → same_pair x y a b ≡ false
    → is_between a b c ≡ true
    → is_between x y c ≡ false
is_between-other x y a b c h e = ground arith

count-same :
    (x y a b : ℕ) (rows : List Connection)
    → same_pair x y a b ≡ true
    → count_where (is_between x y) rows ≡ count_where (is_between a b) rows
unfolding count_where
count-same x y a b [] h = refl
count-same x y a b (c ∷ rows) h = rw (is_between-same x y a b c h, count-same x y a b rows h)

-- What a request does to the rows.
pub request_row-cases :
    (now id from to plan : ℕ) (rows : List Connection)
    → ((find_where (is_between from to) rows ≡ none)
        × ((request_row now id from to plan rows).0 ≡ new_connection now id from to plan ∷ rows))
      ⊎ ((c : Connection) × (find_where (is_between from to) rows ≡ some c)
          × (((is_undecided c.status && c.recipient_id == from ≡ true)
                × ((request_row now id from to plan rows).0
                    ≡ update_first
                        (connection_key c.id)
                        (set_status ConnectionStatus.accepted)
                        rows))
              ⊎ ((is_undecided c.status && c.recipient_id == from ≡ false)
                  × ((request_row now id from to plan rows).0 ≡ rows))))
unfolding request_row
request_row-cases now id from to plan rows =
    elim (Option-cases (find_where (is_between from to) rows)) [
      | inl e ↦ inl (e, ground arith)
      | inr (c, e) ↦ inr (
        c,
        e,
        elim (Bool-cases (is_undecided c.status && c.recipient_id == from)) [
          | inl asked ↦ inl (asked, ground arith)
          | inr other ↦ inr (other, ground arith)
        ],
      )
    ]

fresh-IsPaired :
    (now id from to plan : ℕ) (rows : List Connection)
    → find_where (is_between from to) rows ≡ none
    → IsPaired rows
    → IsPaired (new_connection now id from to plan ∷ rows)
unfolding IsPaired count_where
fresh-IsPaired now id from to plan rows free paired a b =
    elim (Bool-cases (same_pair a b from to)) [
      | inl same ↦
          let absent =
            count-same a b from to rows same ∙ uncounted (is_between from to) rows free in
          ground arith
      | inr other ↦
          let apart =
            is_between-other a b from to (new_connection now id from to plan) other
              (ground arith) in
          ground (arith, paired a b)
    ]

-- A request keeps one row for each pair.
pub request_row-IsPaired :
    (now id from to plan : ℕ) (rows : List Connection)
    → IsPaired rows
    → IsPaired (request_row now id from to plan rows).0
request_row-IsPaired now id from to plan rows paired =
    elim (request_row-cases now id from to plan rows) [
      | inl (free, e) ↦ rw e (fresh-IsPaired now id from to plan rows free paired)
      | inr (c, found, inl (asked, e)) ↦
          rw e (decide-IsPaired c.id ConnectionStatus.accepted rows paired)
      | inr (c, found, inr (other, e)) ↦ rw e paired
    ]
