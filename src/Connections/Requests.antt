-- ===== src/Connections/Requests.antt =====
-- `Create`, `Status`, `Get`, `Respond` and `ListForUser` of repository.go. The advisory lock on the
-- pair is not written out: calls follow one another.
use hivemind_backend.Notifications.Emit.{emit}
use hivemind_backend.Bookings.Types.{Participant}
use hivemind_backend.Notifications.Types.{EventType, is_blocked, Event, Board}
use hivemind_backend.Auth.Types.{user_key}
use hivemind_backend.Prelude.{
  ◌*◌, ◌+◌, guard, not, find_where, update_first, any_where, select_where, Bool, or_err, List,
  Result, Option, ℕ, ◌>>=◌, ◌>>◌, if◌then◌else◌, ◌||◌, ◌&&◌, ◌==◌, ◌∷◌, err, ok, false, true, some,
  none,
}
use hivemind_backend.Connections.Types.{
  is_undecided, is_between, ConnectionStatus, is_accepted, Connection, same_status, connection_key,
  ConnectionError, Network,
}

unfoldable pub set_status : ConnectionStatus → Connection → Connection
set_status status c = record c { status = status }

abbrev pub is_going : ℕ → ℕ → Participant → Bool
is_going plan uid p = p.plan_id == plan && p.is_confirmed && p.user_id == uid

-- Two users of the plan are counted where both of them are going.
abbrev pub both_going : ℕ → ℕ → ℕ → List Participant → Bool
both_going plan a b ps =
    not (a == b) && any_where (is_going plan a) ps && any_where (is_going plan b) ps

-- Whether one user can see another to ask.
abbrev pub is_visible : ℕ → ℕ → Board → Bool
is_visible from to b = any_where (user_key to) b.users && not (is_blocked from to b.blocks)

-- The title of a notification; its text is not modelled.
abbrev pub some_title : ℕ
some_title = 1

-- The keys are even for an acceptance and odd for a request.
abbrev pub request_event : ℕ → ℕ → ℕ → Event
request_event from to id = record {
  user_id = to;
  actor_id = from;
  kind = EventType.connection_request;
  target_id = id;
  title = some_title;
  body = 0;
  deep_link = from;
  dedupe_key = 2 * id + 1;
}

abbrev pub accepted_event : ℕ → ℕ → ℕ → Event
accepted_event from to id = record {
  user_id = to;
  actor_id = from;
  kind = EventType.connection_accepted;
  target_id = id;
  title = some_title;
  body = 0;
  deep_link = from;
  dedupe_key = 2 * id + 2;
}

-- A notification after the commit, whose failure is ignored.
abbrev pub tell : ℕ → ℕ → Event → Network → Network
tell nid now e n = record n { board = (emit nid now e n.board).0 }

abbrev pub new_connection : ℕ → ℕ → ℕ → ℕ → ℕ → Connection
new_connection now id from to plan = record {
  id = id;
  requester_id = from;
  recipient_id = to;
  origin_plan_id = plan;
  status = ConnectionStatus.pending;
  created_at = now;
}

-- The row's part of `Create`: the row that is there is kept, or accepted if the other side asked,
-- and a new one is inserted where there is none.
unfoldable pub request_row : ℕ → ℕ → ℕ → ℕ → ℕ → List Connection → List Connection × Connection
unfolding set_status
request_row now id from to plan rows = elim (find_where (is_between from to) rows) [
  | none ↦ let fresh = new_connection now id from to plan in (fresh ∷ rows, fresh)
  | some c ↦
      if is_undecided c.status && c.recipient_id == from
      then (
        update_first (connection_key c.id) (set_status ConnectionStatus.accepted) rows,
        set_status ConnectionStatus.accepted c,
      )
      else (rows, c)
]

-- Who is told of it: the recipient of a new request, or the requester of one that is now accepted.
abbrev pub request_news : ℕ → ℕ → ℕ → List Connection → Option Event
request_news id from to rows = elim (find_where (is_between from to) rows) [
  | none ↦ some (request_event from to id)
  | some c ↦
      if is_undecided c.status && c.recipient_id == from
      then some (accepted_event from c.requester_id c.id)
      else none
]

abbrev pub tell_if : ℕ → ℕ → Option Event → Network → Network
tell_if nid now none n = n
tell_if nid now (some e) n = tell nid now e n

-- `Create`; `id` and `nid` are the keys that the database draws for a connection and a notification.
unfoldable pub create_connection :
    ℕ → ℕ → ℕ → ℕ → ℕ → ℕ → Network → Result ConnectionError (Network × Connection)
create_connection now id nid from to plan n = do
  guard (is_visible from to n.board) ConnectionError.user_not_found
  guard (plan == 0 || both_going plan from to n.participants) ConnectionError.bad_origin_plan
  let (rows, c) = request_row now id from to plan n.connections
  ok (tell_if nid now (request_news id from to n.connections) (record n { connections = rows }), c)

-- What `Status` answers, with the connection's id.
pub data State : Type 0 where
  no_state : State
  connected pending_outgoing pending_incoming : (id : ℕ) → State

-- `Status`
unfoldable pub status_of : ℕ → ℕ → List Connection → State
status_of me other rows = elim (find_where (is_between me other) rows) [
  | none ↦ State.no_state
  | some c ↦
      if is_accepted c.status
      then State.connected c.id
      else if is_undecided c.status && c.requester_id == me
      then State.pending_outgoing c.id
      else if is_undecided c.status
      then State.pending_incoming c.id
      else State.no_state
]

-- `Get`
unfoldable pub get_connection : ℕ → List Connection → Result ConnectionError Connection
get_connection id rows =
    or_err (find_where (connection_key id) rows) ConnectionError.connection_not_found

abbrev pub decision : Bool → ConnectionStatus
decision true = ConnectionStatus.accepted
decision false = ConnectionStatus.rejected

-- `Respond` where a row with the id is `c`.
unfoldable pub respond_to :
    Bool → Connection → List Connection → Result ConnectionError (List Connection × Connection)
unfolding set_status
respond_to accept c rows =
    if is_undecided c.status
    then ok (
      update_first (connection_key c.id) (set_status (decision accept)) rows,
      set_status (decision accept) c,
    )
    else if same_status c.status (decision accept)
    then ok (rows, c)
    else err ConnectionError.already_decided

-- `Respond`
unfoldable pub respond :
    ℕ → Bool → List Connection → Result ConnectionError (List Connection × Connection)
unfolding respond_to get_connection
respond id accept rows = get_connection id rows >>= λ c. respond_to accept c rows

-- A filter on the direction of a request: to the user, from the user, or both.
pub data Direction : Type 0 where
  incoming outgoing either_way : Direction

abbrev pub is_directed : Direction → ℕ → Connection → Bool
is_directed Direction.incoming uid c = c.recipient_id == uid
is_directed Direction.outgoing uid c = c.requester_id == uid
is_directed Direction.either_way uid c = c.requester_id == uid || c.recipient_id == uid

-- A filter on the status; `none` is any.
abbrev pub has_status : Option ConnectionStatus → Connection → Bool
has_status none c = true
has_status (some s) c = same_status c.status s

-- `ListForUser` before the order and the limit.
unfoldable pub listed_for_user :
    ℕ → Option ConnectionStatus → Direction → List Connection → List Connection
listed_for_user uid s d rows = select_where (λ c. is_directed d uid c && has_status s c) rows
