-- ===== src/Connections/MeetAgain.antt =====
-- meetagain.go: who met at a plan, and a chat room for some of them. The chat and the guard against
-- repeated requests are not part of the component: `is_new` and `rooms` stand for them.
use hivemind_backend.Notifications.Types.{is_blocked}
use hivemind_backend.Bookings.Types.{is_confirmed, PlanStatus, is_attended, Booking, Plan}
use hivemind_backend.Prelude.{
  ltb, length, not, any_where, count_where, Bool, List, Result, Option, ℕ, ◌>>◌, ◌>>=◌,
  if◌then◌else◌, ◌||◌, ◌&&◌, ◌==◌, or_err, guard, ◌∷◌, ok, false, true, [],
}
use hivemind_backend.Connections.Types.{
  is_between, is_accepted, Connection, ConnectionError, Network,
}

abbrev pub is_held : PlanStatus → Bool
is_held PlanStatus.published = true
is_held PlanStatus.completed = true
is_held _ = false

-- A row of the view `attended_bookings`: the user was there, or had a seat of a plan that is over.
abbrev pub was_there : ℕ → List Plan → Booking → Bool
was_there now plans b =
    is_attended b.status
    || is_confirmed b.status
      && any_where (λ p. p.id == b.plan_id && ltb p.ends_at now && is_held p.status) plans

-- `attended`
unfoldable pub has_attended : ℕ → ℕ → ℕ → Network → Bool
has_attended now plan uid n =
    any_where (λ b. b.plan_id == plan && b.user_id == uid && was_there now n.plans b) n.bookings

-- An accepted connection between two users.
abbrev pub is_bond : ℕ → ℕ → Connection → Bool
is_bond a b c = is_accepted c.status && is_between a b c

abbrev pub is_invitable : ℕ → ℕ → ℕ → List ℕ → Network → Booking → Bool
is_invitable now plan caller ids n b =
    b.plan_id == plan
    && was_there now n.plans b
    && any_where (λ i. i == b.user_id) ids
    && any_where (is_bond caller b.user_id) n.connections
    && not (is_blocked caller b.user_id n.board.blocks)

-- `eligibleInvitees`
unfoldable pub eligible_invitees : ℕ → ℕ → ℕ → List ℕ → Network → ℕ
eligible_invitees now plan caller ids n =
    count_where (is_invitable now plan caller ids n) n.bookings

-- The loop over the invitees with `seen`: none is empty or comes twice.
unfoldable pub all_new : List ℕ → List ℕ → Bool
all_new seen [] = true
all_new seen (i ∷ is) =
    let rest = all_new (i ∷ seen) is in
    if i == 0 || any_where (λ j. j == i) seen then false else rest

-- `notifyInvitees`
unfoldable pub nudge_all : ℕ → List ℕ → List (ℕ × ℕ) → List (ℕ × ℕ)
nudge_all room [] nudges = nudges
nudge_all room (i ∷ is) nudges = nudge_all room is ((i, room) ∷ nudges)

-- `maxMeetAgainInvitees`
abbrev pub max_invitees : ℕ
max_invitees = 5

-- `CreateMeetAgainGroup`: the room's id. `is_new` says that the request is not a repeat, and the
-- chat makes a room of its members; no chat is nil.
unfoldable pub create_meet_again_group :
    Bool
    → Option (List ℕ → Option ℕ)
    → ℕ
    → ℕ
    → ℕ
    → List ℕ
    → Network
    → Result ConnectionError (Network × ℕ)
unfolding has_attended eligible_invitees all_new nudge_all
create_meet_again_group is_new rooms now plan caller invitees n = do
  guard
      (not (plan == 0 || caller == 0 || length invitees == 0 || ltb max_invitees (length invitees)))
      ConnectionError.invalid_input
  create_room ← or_err rooms ConnectionError.invalid_input
  guard (all_new (caller ∷ []) invitees) ConnectionError.invalid_input
  guard (has_attended now plan caller n) ConnectionError.not_attendee
  guard (eligible_invitees now plan caller invitees n == length invitees)
      ConnectionError.invitee_rules
  guard is_new ConnectionError.duplicate_request
  room ← or_err (create_room (caller ∷ invitees)) ConnectionError.room_failed
  ok (record n { nudges = nudge_all room invitees n.nudges }, room)
