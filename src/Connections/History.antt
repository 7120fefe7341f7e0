-- ===== src/Connections/History.antt =====
-- A history of connections: requests and answers, one after another, each at its own time, with the
-- keys that the database draws. A call that returns an error leaves the tables as they were.
use hivemind_backend.Connections.Pairs.{IsPaired, request_row-IsPaired, decide-IsPaired}
use hivemind_backend.Connections.Methods.{request_connection, tell_accepted, respond_connection}
use hivemind_backend.Connections.Requests.{
  decision, respond, tell_if, respond_to, request_row, request_news, set_status, create_connection,
  get_connection,
}
use hivemind_backend.Notifications.Types.{Event}
use hivemind_backend.Prelude.{
  Bool-cases, first, arith, after, find_where, Option-cases, Result-cases, update_first, List,
  map_ok, ℕ, Option, Bool, ◌⊎◌, ◌≡◌, ◌∷◌, ok, inr, inl, true, [], some, none, refl,
}
use hivemind_backend.Connections.Types.{
  same_status, ConnectionStatus, Network, Connection, is_undecided, connection_key,
}

pub data NetworkCall : Type 0 where
  requests : (id nid from to plan : ℕ) → NetworkCall
  answers : (nid id caller : ℕ) → Bool → NetworkCall

unfoldable pub network_step : Network → ℕ × NetworkCall → Network
network_step n (now, NetworkCall.requests id nid from to plan) =
    after n (map_ok first (request_connection now id nid from to plan n))
network_step n (now, NetworkCall.answers nid id caller accept) =
    after n (map_ok first (respond_connection now nid id caller accept n))

unfoldable pub network_run : Network → List (ℕ × NetworkCall) → Network
network_run n [] = n
network_run n (c ∷ cs) = network_run (network_step n c) cs

tell_if-rows :
    (nid now : ℕ) (e : Option Event) (n : Network)
    → (tell_if nid now e n).connections ≡ n.connections
tell_if-rows nid now none n = refl
tell_if-rows nid now (some e) n = refl

tell_accepted-rows :
    (now nid caller : ℕ) (accept : Bool) (was out : Connection) (n : Network)
    → (tell_accepted now nid caller accept was out n).connections ≡ n.connections
tell_accepted-rows now nid caller accept was out n = ground arith

-- The rows after a request that returned.
pub request_connection-rows :
    (now id nid from to plan : ℕ) (n m : Network) (c : Connection)
    → request_connection now id nid from to plan n ≡ ok (m, c)
    → m.connections ≡ (request_row now id from to plan n.connections).0
unfolding request_connection create_connection
request_connection-rows now id nid from to plan n m c h = ground (
  arith,
  tell_if-rows nid now (request_news id from to n.connections)
      (record n { connections = (request_row now id from to plan n.connections).0 }),
)

-- The rows after an answer that returned.
pub respond_connection-rows :
    (now nid id caller : ℕ) (accept : Bool) (n m : Network) (out : Connection)
    → respond_connection now nid id caller accept n ≡ ok (m, out)
    → (rows : List Connection) × (respond id accept n.connections ≡ ok (rows, out))
      × (m.connections ≡ rows)
unfolding respond_connection
respond_connection-rows now nid id caller accept n m out h =
    elim (Result-cases (get_connection id n.connections)) [
      | inl (was, f) ↦ elim (Result-cases (respond id accept n.connections)) [
        | inl ((rows, c), e) ↦ (
          rows,
          ground arith,
          ground (
            arith,
            tell_accepted-rows now nid caller accept was c (record n { connections = rows }),
          ),
        )
        | inr (x, e) ↦ absurd (ground arith)
      ]
      | inr (x, f) ↦ absurd (ground arith)
    ]

same_status-eq : (s t : ConnectionStatus) → same_status s t ≡ true → s ≡ t
same_status-eq ConnectionStatus.pending ConnectionStatus.pending h = refl
same_status-eq ConnectionStatus.accepted ConnectionStatus.accepted h = refl
same_status-eq ConnectionStatus.rejected ConnectionStatus.rejected h = refl
same_status-eq ConnectionStatus.pending ConnectionStatus.accepted h = absurd (ground arith)
same_status-eq ConnectionStatus.pending ConnectionStatus.rejected h = absurd (ground arith)
same_status-eq ConnectionStatus.accepted ConnectionStatus.pending h = absurd (ground arith)
same_status-eq ConnectionStatus.accepted ConnectionStatus.rejected h = absurd (ground arith)
same_status-eq ConnectionStatus.rejected ConnectionStatus.pending h = absurd (ground arith)
same_status-eq ConnectionStatus.rejected ConnectionStatus.accepted h = absurd (ground arith)

-- What an answer does to the rows.
pub respond-cases :
    (id : ℕ) (accept : Bool) (rows after_rows : List Connection) (out : Connection)
    → respond id accept rows ≡ ok (after_rows, out)
    → (c : Connection) × (find_where (connection_key id) rows ≡ some c)
      × (((is_undecided c.status ≡ true)
            × (after_rows ≡ update_first (connection_key c.id) (set_status (decision accept)) rows))
          ⊎ ((c.status ≡ decision accept) × (after_rows ≡ rows)))
unfolding respond respond_to get_connection
respond-cases id accept rows after_rows out h =
    elim (Option-cases (find_where (connection_key id) rows)) [
      | inl e ↦ absurd (ground arith)
      | inr (c, e) ↦ (
        c,
        e,
        elim (Bool-cases (is_undecided c.status)) [
          | inl open_still ↦ inl (open_still, ground arith)
          | inr decided ↦
              inr (same_status-eq c.status (decision accept) (ground arith), ground arith)
        ],
      )
    ]

respond-IsPaired :
    (id : ℕ) (accept : Bool) (rows after_rows : List Connection) (out : Connection)
    → respond id accept rows ≡ ok (after_rows, out)
    → IsPaired rows
    → IsPaired after_rows
respond-IsPaired id accept rows after_rows out h paired =
    let (c, found, outcome) = respond-cases id accept rows after_rows out h in
    elim outcome [
      | inl (asked, e) ↦ rw e (decide-IsPaired c.id (decision accept) rows paired)
      | inr (decided, e) ↦ rw e paired
    ]

network_step-IsPaired :
    (n : Network) (c : ℕ × NetworkCall)
    → IsPaired n.connections
    → IsPaired (network_step n c).connections
unfolding network_step
network_step-IsPaired n (now, NetworkCall.requests id nid from to plan) paired =
    elim (Result-cases (request_connection now id nid from to plan n)) [
      | inl ((m, c), e) ↦
          rw (e, request_connection-rows now id nid from to plan n m c e)
            (request_row-IsPaired now id from to plan n.connections paired)
      | inr (x, e) ↦ rw e paired
    ]
network_step-IsPaired n (now, NetworkCall.answers nid id caller accept) paired =
    elim (Result-cases (respond_connection now nid id caller accept n)) [
      | inl ((m, c), e) ↦
          let (rows, answered, same) = respond_connection-rows now nid id caller accept n m c e in
          rw (e, same) (respond-IsPaired id accept n.connections rows c answered paired)
      | inr (x, e) ↦ rw e paired
    ]

-- Whatever is requested and answered, in either direction, two users have at most one connection.
pub network_run-IsPaired :
    (n : Network) (cs : List (ℕ × NetworkCall))
    → IsPaired n.connections
    → IsPaired (network_run n cs).connections
unfolding network_run
network_run-IsPaired n [] paired = paired
network_run-IsPaired n (c ∷ cs) paired =
    network_run-IsPaired (network_step n c) cs (network_step-IsPaired n c paired)
