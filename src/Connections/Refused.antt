-- ===== src/Connections/Refused.antt =====
-- A request that was turned down.
use hivemind_backend.Connections.Methods.{request_connection}
use hivemind_backend.Connections.Types.{ConnectionStatus, Network, is_between, Connection}
use hivemind_backend.Connections.Requests.{
  request_row, both_going, is_visible, create_connection, State, status_of,
}
use hivemind_backend.Prelude.{◌||◌, ◌==◌, false, true, arith, ℕ, find_where, ◌≡◌, ok, some}

-- Once a request was turned down, the status shows no relation, as if either could ask again. A
-- further request of either, to a user who can be seen and with an origin that both go to if one is
-- given, returns the row that was turned down, tells nobody and changes nothing at all.
pub request_connection-refused :
    (now id nid from to plan : ℕ) (n : Network) (c : Connection)
    → find_where (is_between from to) n.connections ≡ some c
    → c.status ≡ ConnectionStatus.rejected
    → (from == 0 || to == 0 || from == to) ≡ false
    → is_visible from to n.board ≡ true
    → (plan == 0 || both_going plan from to n.participants) ≡ true
    → (status_of from to n.connections ≡ State.no_state)
      × (request_connection now id nid from to plan n ≡ ok (n, c))
unfolding request_connection create_connection request_row status_of
request_connection-refused now id nid from to plan n c found refused given visible origin =
    (ground arith, ground arith)
