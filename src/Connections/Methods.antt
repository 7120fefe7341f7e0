-- ===== src/Connections/Methods.antt =====
-- The methods of service.go.
use hivemind_backend.Connections.Requests.{
  respond, tell, create_connection, get_connection, accepted_event, State, status_of,
}
use hivemind_backend.Prelude.{
  not, Bool, Result, ℕ, ◌>>◌, ◌>>=◌, if◌then◌else◌, ◌||◌, ◌&&◌, ◌==◌, guard, ok,
}
use hivemind_backend.Connections.Types.{
  is_undecided, is_accepted, ConnectionError, Connection, Network,
}

-- `RequestConnection`
unfoldable pub request_connection :
    ℕ → ℕ → ℕ → ℕ → ℕ → ℕ → Network → Result ConnectionError (Network × Connection)
request_connection now id nid from to plan n = do
  guard (not (from == 0 || to == 0 || from == to)) ConnectionError.invalid_input
  create_connection now id nid from to plan n

-- The notification of `RespondConnection`, of the first acceptance only.
abbrev pub tell_accepted : ℕ → ℕ → ℕ → Bool → Connection → Connection → Network → Network
tell_accepted now nid caller accept was out n =
    if accept && is_accepted out.status && is_undecided was.status
    then tell nid now (accepted_event caller out.requester_id out.id) n
    else n

-- `RespondConnection`
unfoldable pub respond_connection :
    ℕ → ℕ → ℕ → ℕ → Bool → Network → Result ConnectionError (Network × Connection)
respond_connection now nid id caller accept n = do
  guard (not (id == 0 || caller == 0)) ConnectionError.invalid_input
  c ← get_connection id n.connections
  guard (c.recipient_id == caller) ConnectionError.forbidden
  (rows, out) ← respond id accept n.connections
  ok (tell_accepted now nid caller accept c out (record n { connections = rows }), out)

-- `GetStatus`
unfoldable pub get_status : ℕ → ℕ → Network → Result ConnectionError State
unfolding status_of
get_status me other n = do
  guard (not (me == 0 || other == 0)) ConnectionError.invalid_input
  ok (status_of me other n.connections)
