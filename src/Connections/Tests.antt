-- ===== src/Connections/Tests.antt =====
-- A small network, and the theorems applied to it.
use hivemind_backend.Prelude.Int.{pos}
use hivemind_backend.Connections.Methods.{respond_connection, request_connection}
use hivemind_backend.Notifications.Emit.{emit, is_wanted}
use hivemind_backend.Connections.Requests.{
  respond, get_connection, request_row, status_of, State, respond_to, set_status, create_connection,
}
use hivemind_backend.Connections.MeetAgain.{
  has_attended, all_new, create_meet_again_group, nudge_all, eligible_invitees,
}
use hivemind_backend.Connections.Pairs.{IsKeyed, same_pair, IsPaired}
use hivemind_backend.Connections.Types.{
  connection_key, ConnectionStatus, is_between, Connection, Network,
}
use hivemind_backend.Prelude.{
  ok, map, first, arith, after, ℕ, map_ok, count_where, any_where, All, find_where, List,
  update_first, Option, if◌then◌else◌, ◌≡◌, ◌∷◌, false, true, [], some, none, refl,
}
use hivemind_backend.Connections.Bonds.{
  ask, answered, bond_of, bond_of-respond, bond_of-request_connection,
}
use hivemind_backend.Connections.Refused.{request_connection-refused}
use hivemind_backend.Connections.Groups.{Met, IsSingle, create_meet_again_group-Met}
use hivemind_backend.Connections.History.{
  network_step, network_run, NetworkCall, network_run-IsPaired,
}
use hivemind_backend.Bookings.Types.{Role, Booking, BookingStatus}
use hivemind_backend.Auth.Types.{User, UserStatus}

abbrev person : ℕ → User
person uid = record {
  id = uid;
  email = uid;
  role = Role.user;
  status = UserStatus.active;
  recovery_email = 0;
  recovery_email_verified_at = none;
}

abbrev link : ℕ → ℕ → ℕ → ConnectionStatus → Connection
link id from to status = record {
  id = id;
  requester_id = from;
  recipient_id = to;
  origin_plan_id = 0;
  status = status;
  created_at = 1;
}

abbrev seat : ℕ → ℕ → Booking
seat id uid = record {
  id = id;
  plan_id = 5;
  user_id = uid;
  status = BookingStatus.attended;
  price_minor = pos 0;
  currency = 0;
  idempotency_key = 0;
  created_at = 1;
  updated_at = 1;
  expires_at = none;
  checked_in_at = none;
}

-- User 1 asked user 2 and turned user 3 down.
abbrev network : Network
network = record {
  connections = link 10 1 2 ConnectionStatus.pending ∷ link 11 3 1 ConnectionStatus.rejected ∷ [];
  board = record {
    notifications = [];
    preferences = [];
    users = person 1 ∷ person 2 ∷ person 3 ∷ [];
    blocks = [];
    push_tokens = [];
  };
  participants = [];
  bookings = seat 20 1 ∷ seat 21 2 ∷ [];
  plans = [];
  nudges = [];
}

network-IsPaired : IsPaired network.connections
unfolding IsPaired count_where
network-IsPaired a b = ground arith

network-IsKeyed : IsKeyed network.connections
unfolding IsKeyed count_where
network-IsKeyed id = ground arith

-- User 2 asks back, which makes a connection; user 1 then asks user 2 again.
abbrev network_calls : List (ℕ × NetworkCall)
network_calls =
    (2, NetworkCall.requests 12 30 2 1 0)
    ∷ (3, NetworkCall.requests 13 31 1 2 0)
    ∷ (4, NetworkCall.answers 32 10 2 false)
    ∷ []

network_calls-ids : map Connection.id (network_run network network_calls).connections ≡ 10 ∷ 11 ∷ []
unfolding network_run network_step request_connection create_connection request_row
    respond_connection get_connection respond respond_to find_where any_where update_first
    set_status emit is_wanted
network_calls-ids = refl

network_run-IsPaired_example : IsPaired (network_run network network_calls).connections
network_run-IsPaired_example = network_run-IsPaired network network_calls network-IsPaired

abbrev asked_back : Network
asked_back = after network (map_ok first (request_connection 2 12 30 2 1 0 network))

bond_of-request_connection_example : bond_of 1 2 asked_back.connections ≡ (
    if same_pair 1 2 2 1
    then ask 2 (bond_of 1 2 network.connections)
    else bond_of 1 2 network.connections)
unfolding request_connection create_connection request_row find_where any_where update_first
    set_status emit is_wanted
bond_of-request_connection_example =
    bond_of-request_connection 1 2 2 12 30 2 1 0 network asked_back
      (link 10 1 2 ConnectionStatus.accepted) network-IsKeyed network-IsPaired refl

bond_of-respond_example :
    (c : Connection) × (find_where (connection_key 10) network.connections ≡ some c)
    × (bond_of 2 1
          (link 10 1 2 ConnectionStatus.rejected ∷ link 11 3 1 ConnectionStatus.rejected ∷ [])
        ≡ (if is_between 2 1 c then answered false else bond_of 2 1 network.connections))
unfolding respond respond_to get_connection find_where update_first set_status
bond_of-respond_example =
    bond_of-respond 2 1 10 false network.connections
      (link 10 1 2 ConnectionStatus.rejected ∷ link 11 3 1 ConnectionStatus.rejected ∷ [])
      (link 10 1 2 ConnectionStatus.rejected) network-IsKeyed network-IsPaired refl

request_connection-refused_example :
    (status_of 1 3 network.connections ≡ State.no_state)
    × (request_connection 6 14 33 1 3 0 network
        ≡ ok (network, link 11 3 1 ConnectionStatus.rejected))
unfolding find_where any_where
request_connection-refused_example =
    request_connection-refused 6 14 33 1 3 0 network (link 11 3 1 ConnectionStatus.rejected) refl
      refl refl refl refl

abbrev friends_network : Network
friends_network = record network { connections = link 10 1 2 ConnectionStatus.accepted ∷ [] }

abbrev make_room : List ℕ → Option ℕ
make_room members = some 77

friends-IsSingle : IsSingle 9 5 friends_network
unfolding IsSingle count_where any_where
friends-IsSingle uid = ground arith

create_meet_again_group-Met_example : All (Met 9 5 1 friends_network) (2 ∷ [])
unfolding create_meet_again_group all_new has_attended eligible_invitees nudge_all any_where
    count_where
create_meet_again_group-Met_example =
    create_meet_again_group-Met true (some make_room) 9 5 1 (2 ∷ []) friends_network
      (record friends_network { nudges = (2, 77) ∷ [] }) 77 friends-IsSingle refl
