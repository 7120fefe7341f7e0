-- ===== src/Connections/Rows.antt =====
-- Rows found by their id or by their two users, when neither repeats.
use hivemind_backend.Connections.Pairs.{IsPaired, IsKeyed}
use hivemind_backend.Connections.Requests.{set_status}
use hivemind_backend.Prelude.{
  arith, find_where, count_where, List, Bool, ℕ, Bool-cases, update_first, map_some, if◌then◌else◌,
  ◌≡◌, ◌≤◌, ◌==◌, ◌∷◌, inr, inl, true, [], some, refl,
}
use hivemind_backend.Connections.Types.{Connection, ConnectionStatus, is_between, connection_key}

IsKeyed-tail : (r : Connection) (rows : List Connection) → IsKeyed (r ∷ rows) → IsKeyed rows
unfolding IsKeyed count_where
IsKeyed-tail r rows keyed id = ground (arith, keyed id)

IsPaired-tail : (r : Connection) (rows : List Connection) → IsPaired (r ∷ rows) → IsPaired rows
unfolding IsPaired count_where
IsPaired-tail r rows paired a b = ground (arith, paired a b)

-- A row that is found counts for every test that it fits.
found-counts :
    (f g : Connection → Bool) (rows : List Connection) (c : Connection)
    → find_where f rows ≡ some c
    → g c ≡ true
    → 1 ≤ count_where g rows
unfolding find_where count_where
found-counts f g [] c h e = absurd (ground arith)
found-counts f g (r ∷ rows) c h e = elim (Bool-cases (f r)) [
  | inl fits ↦ ground arith
  | inr other ↦ ground (arith, found-counts f g rows c (ground arith) e)
]

-- Two rows with one id are the same.
pub found-same :
    (f g : Connection → Bool) (rows : List Connection) (c d : Connection)
    → IsKeyed rows
    → find_where f rows ≡ some c
    → find_where g rows ≡ some d
    → c.id ≡ d.id
    → c ≡ d
unfolding find_where IsKeyed count_where
found-same f g [] c d keyed h k same = absurd (ground arith)
found-same f g (r ∷ rows) c d keyed h k same = elim (Bool-cases (f r)) [
  | inl fits ↦ elim (Bool-cases (g r)) [
    | inl also ↦ ground arith
    | inr not_g ↦
        let again = found-counts g (connection_key r.id) rows d (ground arith) (ground arith) in
        absurd (ground (arith, keyed r.id))
  ]
  | inr not_f ↦ elim (Bool-cases (g r)) [
    | inl also ↦
        let again = found-counts f (connection_key r.id) rows c (ground arith) (ground arith) in
        absurd (ground (arith, keyed r.id))
    | inr not_g ↦
        found-same f g rows c d (IsKeyed-tail r rows keyed) (ground arith) (ground arith) same
  ]
]

-- A row that is found by its id is the one that is found by its two users.
pub found-pair :
    (f : Connection → Bool) (x y : ℕ) (rows : List Connection) (c : Connection)
    → IsPaired rows
    → find_where f rows ≡ some c
    → is_between x y c ≡ true
    → find_where (is_between x y) rows ≡ some c
unfolding find_where IsPaired count_where
found-pair f x y [] c paired h e = absurd (ground arith)
found-pair f x y (r ∷ rows) c paired h e = elim (Bool-cases (f r)) [
  | inl fits ↦ ground arith
  | inr other ↦
      let again = found-counts f (is_between x y) rows c (ground arith) e in
      ground (arith, paired x y, found-pair f x y rows c (IsPaired-tail r rows paired))
]

absent :
    (f : Connection → Bool) (id : ℕ) (status : ConnectionStatus) (rows : List Connection)
    → count_where (connection_key id) rows ≡ 0
    → map_some (λ r. if r.id == id then set_status status r else r) (find_where f rows)
      ≡ find_where f rows
unfolding find_where count_where
absent f id status [] h = refl
absent f id status (r ∷ rows) h = ground (arith, absent f id status rows)

-- What a test on the two users finds after a decision.
pub find-decided :
    (x y id : ℕ) (status : ConnectionStatus) (rows : List Connection)
    → IsKeyed rows
    → find_where (is_between x y) (update_first (connection_key id) (set_status status) rows)
      ≡ map_some
          (λ r. if r.id == id then set_status status r else r)
          (find_where (is_between x y) rows)
unfolding find_where update_first set_status IsKeyed count_where
find-decided x y id status [] keyed = refl
find-decided x y id status (r ∷ rows) keyed = ground (
  arith,
  keyed id,
  absent (is_between x y) id status rows,
  find-decided x y id status rows (IsKeyed-tail r rows keyed),
)
