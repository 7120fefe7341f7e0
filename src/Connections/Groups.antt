-- ===== src/Connections/Groups.antt =====
-- Who is in a group that was made to meet again.
use hivemind_backend.Connections.Types.{Network}
use hivemind_backend.Bookings.Types.{Booking}
use hivemind_backend.Notifications.Types.{is_blocked}
use hivemind_backend.Prelude.{
  ==→eq, refl, length, Bool-cases, All, Option, ◌≡◌, ok, inr, inl, false, true, arith, not, Bool,
  any_where, count_where, ℕ, List, ◌≤◌, ◌&&◌, ◌==◌, ◌+◌, ◌∷◌, [],
}
use hivemind_backend.Connections.MeetAgain.{
  has_attended, create_meet_again_group, eligible_invitees, is_bond, was_there, is_invitable,
}

-- What makes a user eligible, but for the list of invitees.
abbrev pub is_friend_from : ℕ → ℕ → ℕ → Network → ℕ → Booking → Bool
is_friend_from now plan caller n uid b =
    b.plan_id == plan
    && b.user_id == uid
    && was_there now n.plans b
    && any_where (is_bond caller uid) n.connections
    && not (is_blocked caller uid n.board.blocks)

-- No user attended the plan by two bookings.
unfoldable pub IsSingle : ℕ → ℕ → Network → Type 0
IsSingle now plan n =
    (uid : ℕ)
    → count_where (λ b. b.plan_id == plan && b.user_id == uid && was_there now n.plans b) n.bookings
      ≤ 1

-- The eligible bookings of a list are those of its first user and those of the others.
count-eligible :
    (now plan caller i : ℕ) (is : List ℕ) (n : Network) (bs : List Booking)
    → count_where (is_invitable now plan caller (i ∷ is) n) bs
      ≤ count_where (is_friend_from now plan caller n i) bs
        + count_where (is_invitable now plan caller is n) bs
unfolding count_where any_where
count-eligible now plan caller i is n [] = ground arith
count-eligible now plan caller i is n (b ∷ bs) =
    ground (arith, count-eligible now plan caller i is n bs)

count_mono :
    (f g : Booking → Bool) (bs : List Booking)
    → ((b : Booking) → f b ≡ true → g b ≡ true)
    → count_where f bs ≤ count_where g bs
unfolding count_where
count_mono f g [] h = ground arith
count_mono f g (b ∷ bs) h = ground (arith, h b, count_mono f g bs h)

count-friend :
    (now plan caller i : ℕ) (n : Network)
    → IsSingle now plan n
    → count_where (is_friend_from now plan caller n i) n.bookings ≤ 1
unfolding IsSingle
count-friend now plan caller i n single = ground (
  arith,
  single i,
  count_mono (is_friend_from now plan caller n i)
      (λ b. b.plan_id == plan && b.user_id == i && was_there now n.plans b) n.bookings
      (λ b h. ground arith),
)

none-eligible :
    (now plan caller : ℕ) (n : Network) (bs : List Booking)
    → count_where (is_invitable now plan caller [] n) bs ≡ 0
unfolding count_where any_where
none-eligible now plan caller n [] = refl
none-eligible now plan caller n (b ∷ bs) = ground (arith, none-eligible now plan caller n bs)

count-length :
    (now plan caller : ℕ) (is : List ℕ) (n : Network)
    → IsSingle now plan n
    → count_where (is_invitable now plan caller is n) n.bookings ≤ length is
count-length now plan caller [] n single =
    rw (none-eligible now plan caller n n.bookings) (omega arith)
count-length now plan caller (i ∷ is) n single = ground (
  arith,
  count-eligible now plan caller i is n n.bookings,
  count-friend now plan caller i n single,
  count-length now plan caller is n single,
)

-- What holds of an invitee.
abbrev pub Met : ℕ → ℕ → ℕ → Network → ℕ → Type 0
Met now plan caller n i =
    (has_attended now plan i n ≡ true)
    × (any_where (is_bond caller i) n.connections ≡ true)
    × (is_blocked caller i n.board.blocks ≡ false)

friend-Met :
    (now plan caller i : ℕ) (n : Network) (bs : List Booking)
    → 1 ≤ count_where (is_friend_from now plan caller n i) bs
    → (any_where (λ b. b.plan_id == plan && b.user_id == i && was_there now n.plans b) bs ≡ true)
      × (any_where (is_bond caller i) n.connections ≡ true)
      × (is_blocked caller i n.board.blocks ≡ false)
unfolding count_where any_where
friend-Met now plan caller i n [] h = absurd (ground arith)
friend-Met now plan caller i n (b ∷ bs) h =
    elim (Bool-cases (is_friend_from now plan caller n i b)) [
      | inl e ↦ (ground arith, ground arith, ground arith)
      | inr e ↦
          let (there, bond, free) = friend-Met now plan caller i n bs (ground arith) in
          (ground arith, bond, free)
    ]

All-Met :
    (now plan caller : ℕ) (is : List ℕ) (n : Network)
    → IsSingle now plan n
    → count_where (is_invitable now plan caller is n) n.bookings ≡ length is
    → All (Met now plan caller n) is
unfolding has_attended
All-Met now plan caller [] n single h = tt
All-Met now plan caller (i ∷ is) n single h =
    let split = count-eligible now plan caller i is n n.bookings in
    let one = count-friend now plan caller i n single in
    let rest = count-length now plan caller is n single in
    (
      friend-Met now plan caller i n n.bookings (ground arith),
      All-Met now plan caller is n single (ground arith),
    )

group-count :
    (is_new : Bool) (rooms : Option (List ℕ → Option ℕ)) (now plan caller : ℕ) (is : List ℕ)
    (n m : Network) (room : ℕ)
    → create_meet_again_group is_new rooms now plan caller is n ≡ ok (m, room)
    → count_where (is_invitable now plan caller is n) n.bookings ≡ length is
unfolding create_meet_again_group eligible_invitees
group-count is_new rooms now plan caller is n m room h =
    elim (Bool-cases (eligible_invitees now plan caller is n == length is)) [
      | inl e ↦ ==→eq (eligible_invitees now plan caller is n) (length is) e
      | inr e ↦ absurd (ground arith)
    ]

-- Everyone who is invited to a group attended the plan, is connected with the caller and has no
-- block with them, if nobody attended the plan by two bookings.
pub create_meet_again_group-Met :
    (is_new : Bool) (rooms : Option (List ℕ → Option ℕ)) (now plan caller : ℕ) (invitees : List ℕ)
    (n m : Network) (room : ℕ)
    → IsSingle now plan n
    → create_meet_again_group is_new rooms now plan caller invitees n ≡ ok (m, room)
    → All (Met now plan caller n) invitees
create_meet_again_group-Met is_new rooms now plan caller invitees n m room single h =
    All-Met now plan caller invitees n single
      (group-count is_new rooms now plan caller invitees n m room h)
