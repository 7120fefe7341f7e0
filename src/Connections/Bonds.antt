-- ===== src/Connections/Bonds.antt =====
-- What two users are to one another, as an abstract state of the unordered pair, and that requests
-- and answers on the rows are the operations on it.
use hivemind_backend.Connections.Methods.{request_connection}
use hivemind_backend.Connections.Rows.{found-pair, find-decided, found-same}
use hivemind_backend.Connections.History.{request_connection-rows, respond-cases}
use hivemind_backend.Connections.Requests.{
  new_connection, request_row, decision, respond, set_status,
}
use hivemind_backend.Connections.Pairs.{
  is_between-other, request_row-cases, IsPaired, IsKeyed, same_pair, is_between-same,
}
use hivemind_backend.Prelude.{
  ◌||◌, sym, ◌&&◌, ==→eq, Option, ==_refl, find_where_sound, Option-cases, ◌∙◌, ok, Bool-cases, inr,
  inl, arith, find_where, Bool, List, map_some, ℕ, update_first, if◌then◌else◌, ◌≡◌, ◌==◌, ◌∷◌,
  false, true, [], some, none, refl,
}
use hivemind_backend.Connections.Types.{
  Network, ConnectionStatus, Connection, is_between, is_undecided, connection_key,
}

-- Nothing, a request by one of the two, a connection, or a request that was turned down.
pub data Bond : Type 0 where
  strangers friends refused : Bond
  asked : (by : ℕ) → Bond

-- Asking a stranger, or again, or back.
unfoldable pub ask : ℕ → Bond → Bond
ask from Bond.strangers = Bond.asked from
ask from (Bond.asked by) = if by == from then Bond.asked by else Bond.friends
ask from Bond.friends = Bond.friends
ask from Bond.refused = Bond.refused

abbrev pub answered : Bool → Bond
answered true = Bond.friends
answered false = Bond.refused

abbrev pub status_bond : ℕ → ConnectionStatus → Bond
status_bond by ConnectionStatus.pending = Bond.asked by
status_bond by ConnectionStatus.accepted = Bond.friends
status_bond by ConnectionStatus.rejected = Bond.refused

abbrev pub row_bond : Connection → Bond
row_bond c = status_bond c.requester_id c.status

abbrev pub found_bond : Option Connection → Bond
found_bond none = Bond.strangers
found_bond (some c) = row_bond c

-- The abstract state of the pair in the rows.
unfoldable pub bond_of : ℕ → ℕ → List Connection → Bond
bond_of x y rows = found_bond (find_where (is_between x y) rows)

-- The order of the two users is forgotten.
find-swap :
    (x y a b : ℕ) (rows : List Connection)
    → same_pair x y a b ≡ true
    → find_where (is_between x y) rows ≡ find_where (is_between a b) rows
unfolding find_where
find-swap x y a b [] h = refl
find-swap x y a b (c ∷ rows) h = rw (is_between-same x y a b c h, find-swap x y a b rows h)

-- A decision on a row leaves what is found for other users.
other-decided :
    (x y : ℕ) (f : Connection → Bool) (c : Connection) (status : ConnectionStatus)
    (rows : List Connection)
    → IsKeyed rows
    → find_where f rows ≡ some c
    → is_between x y c ≡ false
    → map_some
        (λ r. if r.id == c.id then set_status status r else r)
        (find_where (is_between x y) rows)
      ≡ find_where (is_between x y) rows
other-decided x y f c status rows keyed found other =
    elim (Option-cases (find_where (is_between x y) rows)) [
      | inl e ↦ rw e
      | inr (r, e) ↦ elim (Bool-cases (r.id == c.id)) [
        | inl same ↦
            let equal =
              found-same (is_between x y) f rows r c keyed e found (==→eq r.id c.id same) in
            let fits = find_where_sound (is_between x y) rows r e in absurd (ground arith)
        | inr differs ↦ rw (e, differs)
      ]
    ]

-- The bond of a row's own pair after a decision, and of every other pair.
bond-decided :
    (x y : ℕ) (f : Connection → Bool) (c : Connection) (status : ConnectionStatus)
    (rows : List Connection)
    → IsKeyed rows
    → IsPaired rows
    → find_where f rows ≡ some c
    → bond_of x y (update_first (connection_key c.id) (set_status status) rows)
      ≡ (if is_between x y c then row_bond (set_status status c) else bond_of x y rows)
unfolding bond_of
bond-decided x y f c status rows keyed paired found = elim (Bool-cases (is_between x y c)) [
  | inl e ↦ rw (
    find-decided x y c.id status rows keyed,
    found-pair f x y rows c paired found e,
    ==_refl c.id,
    e,
  )
  | inr e ↦
      rw (
        find-decided x y c.id status rows keyed,
        other-decided x y f c status rows keyed found e,
        e,
      )
]

status_bond-decision : (by : ℕ) (accept : Bool) → status_bond by (decision accept) ≡ answered accept
status_bond-decision by true = refl
status_bond-decision by false = refl

-- A request that is answered settles its own pair and no other: the rows implement the answer on
-- the abstract bond. An answer that repeats an earlier one changes nothing.
pub bond_of-respond :
    (x y id : ℕ) (accept : Bool) (rows after_rows : List Connection) (out : Connection)
    → IsKeyed rows
    → IsPaired rows
    → respond id accept rows ≡ ok (after_rows, out)
    → (c : Connection) × (find_where (connection_key id) rows ≡ some c)
      × (bond_of x y after_rows ≡ (if is_between x y c then answered accept else bond_of x y rows))
unfolding bond_of set_status
bond_of-respond x y id accept rows after_rows out keyed paired h =
    let (c, found, outcome) = respond-cases id accept rows after_rows out h in
    let verdict = status_bond-decision c.requester_id accept in
    (
      c,
      found,
      elim outcome [
        | inl (open_still, e) ↦ rw e (
            bond-decided x y (connection_key id) c (decision accept) rows keyed paired found
            ∙ rw verdict)
        | inr (decided, e) ↦ elim (Bool-cases (is_between x y c)) [
          | inl own ↦
              rw (e, found-pair (connection_key id) x y rows c paired found own, own, decided)
                verdict
          | inr other ↦ rw (e, other)
        ]
      ],
    )

ask-status :
    (from to by recipient : ℕ) (s : ConnectionStatus)
    → (from == to) ≡ false
    → (by == from && recipient == to || by == to && recipient == from) ≡ true
    → ask from (status_bond by s)
      ≡ (if is_undecided s && recipient == from then Bond.friends else status_bond by s)
unfolding ask
ask-status from to by recipient ConnectionStatus.pending differ between = ground arith
ask-status from to by recipient ConnectionStatus.accepted differ between = refl
ask-status from to by recipient ConnectionStatus.rejected differ between = refl

-- The row of a request that was there before, seen by the one who asks now.
ask-row :
    (x y from to : ℕ) (rows : List Connection) (c : Connection)
    → same_pair x y from to ≡ true
    → (from == to) ≡ false
    → find_where (is_between from to) rows ≡ some c
    → ask from (bond_of x y rows)
      ≡ (if is_undecided c.status && c.recipient_id == from then Bond.friends else bond_of x y rows)
unfolding bond_of
ask-row x y from to rows c same differ found =
    rw (find-swap x y from to rows same, found)
      (ask-status from to c.requester_id c.recipient_id c.status differ
        (find_where_sound (is_between from to) rows c found))

bond-fresh :
    (x y now id from to plan : ℕ) (rows : List Connection)
    → find_where (is_between from to) rows ≡ none
    → bond_of x y (new_connection now id from to plan ∷ rows)
      ≡ (if same_pair x y from to then ask from (bond_of x y rows) else bond_of x y rows)
unfolding bond_of find_where ask
bond-fresh x y now id from to plan rows free = elim (Bool-cases (same_pair x y from to)) [
  | inl same ↦
      let swapped = find-swap x y from to rows same in
      let own = is_between-same x y from to (new_connection now id from to plan) same in
      ground arith
  | inr other ↦
      let apart =
        is_between-other x y from to (new_connection now id from to plan) other (ground arith) in
      ground arith
]

bond-back :
    (x y from to : ℕ) (rows : List Connection) (c : Connection)
    → IsKeyed rows
    → IsPaired rows
    → (from == to) ≡ false
    → find_where (is_between from to) rows ≡ some c
    → is_undecided c.status && c.recipient_id == from ≡ true
    → bond_of x y (update_first (connection_key c.id) (set_status ConnectionStatus.accepted) rows)
      ≡ (if same_pair x y from to then ask from (bond_of x y rows) else bond_of x y rows)
unfolding set_status
bond-back x y from to rows c keyed paired differ found back =
    let fits = find_where_sound (is_between from to) rows c found in
    let settled =
      bond-decided x y (is_between from to) c ConnectionStatus.accepted rows keyed paired found in
    settled ∙ elim (Bool-cases (same_pair x y from to)) [
      | inl same ↦ rw (
        same,
        is_between-same x y from to c same,
        fits,
        ask-row x y from to rows c same differ found,
        back,
      )
      | inr other ↦ rw (other, is_between-other x y from to c other fits)
    ]

bond-kept :
    (x y from to : ℕ) (rows : List Connection) (c : Connection)
    → (from == to) ≡ false
    → find_where (is_between from to) rows ≡ some c
    → is_undecided c.status && c.recipient_id == from ≡ false
    → bond_of x y rows
      ≡ (if same_pair x y from to then ask from (bond_of x y rows) else bond_of x y rows)
bond-kept x y from to rows c differ found kept = elim (Bool-cases (same_pair x y from to)) [
  | inl same ↦ rw same (sym (ask-row x y from to rows c same differ found ∙ rw kept))
  | inr other ↦ rw other
]

bond_of-request_row :
    (x y now id from to plan : ℕ) (rows : List Connection)
    → IsKeyed rows
    → IsPaired rows
    → (from == to) ≡ false
    → bond_of x y (request_row now id from to plan rows).0
      ≡ (if same_pair x y from to then ask from (bond_of x y rows) else bond_of x y rows)
bond_of-request_row x y now id from to plan rows keyed paired differ =
    elim (request_row-cases now id from to plan rows) [
      | inl (free, e) ↦ rw e (bond-fresh x y now id from to plan rows free)
      | inr (c, found, inl (back, e)) ↦
          rw e (bond-back x y from to rows c keyed paired differ found back)
      | inr (c, found, inr (kept, e)) ↦ rw e (bond-kept x y from to rows c differ found kept)
    ]

request-differ :
    (now id nid from to plan : ℕ) (n m : Network) (c : Connection)
    → request_connection now id nid from to plan n ≡ ok (m, c)
    → (from == to) ≡ false
unfolding request_connection
request-differ now id nid from to plan n m c h = ground arith

-- A request that returns is `ask` on the abstract bond of its two users, in either order of them,
-- and leaves every other pair as it was: the rows implement the abstract relation.
pub bond_of-request_connection :
    (x y now id nid from to plan : ℕ) (n m : Network) (c : Connection)
    → IsKeyed n.connections
    → IsPaired n.connections
    → request_connection now id nid from to plan n ≡ ok (m, c)
    → bond_of x y m.connections ≡ (
        if same_pair x y from to
        then ask from (bond_of x y n.connections)
        else bond_of x y n.connections)
bond_of-request_connection x y now id nid from to plan n m c keyed paired h =
    rw (request_connection-rows now id nid from to plan n m c h) (
      bond_of-request_row x y now id from to plan n.connections keyed paired
        (request-differ now id nid from to plan n m c h))
