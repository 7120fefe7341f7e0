-- ===== src/Communities/Owners.antt =====
-- Calls on communities, one after another, and who owns a community after them.
use hivemind_backend.Prelude.{
  ok, true, Option-cases, find_where, inr, inl, ℕ, Bool, ◌==◌, ◌&&◌, List, ◌∷◌, [], any_where,
  after, map_ok, first, ◌≡◌, refl, arith, ◌∙◌,
}
use hivemind_backend.Communities.Types.{
  NewCommunity, is_open_join, Clubs, MemberRow, CommunityRequest, Community, is_owner_role,
  is_row_of,
}
use hivemind_backend.Communities.Members.{insert_member, delete_member, decide_request, invite}
use hivemind_backend.Communities.Service.{
  create_community, EntitlementChecker, join_community, join_by_type, leave_community,
  respond_join_request, invite_to_community,
}

pub data ClubCall : Type 0 where
  joins : (id nid now cid uid : ℕ) → ClubCall
  leaves : (cid uid : ℕ) → ClubCall
  responds : (nid now id caller : ℕ) → Bool → ClubCall
  invites_user : (id cid caller uid : ℕ) → ClubCall

unfoldable pub club_step : EntitlementChecker → Clubs → ClubCall → Clubs
club_step ent c (ClubCall.joins id nid now cid uid) =
    after c (map_ok first (join_community ent id nid now cid uid c))
club_step ent c (ClubCall.leaves cid uid) = after c (leave_community cid uid c)
club_step ent c (ClubCall.responds nid now id caller approve) =
    after c (map_ok first (respond_join_request nid now id caller approve c))
club_step ent c (ClubCall.invites_user id cid caller uid) =
    after c (invite_to_community id cid caller uid c)

unfoldable pub club_run : EntitlementChecker → Clubs → List ClubCall → Clubs
club_run ent c [] = c
club_run ent c (x ∷ xs) = club_run ent (club_step ent c x) xs

abbrev pub is_owner_row : ℕ → ℕ → MemberRow → Bool
is_owner_row cid uid m = is_row_of cid uid m && is_owner_role m.role

-- Whether the user owns the community.
unfoldable pub owns : ℕ → ℕ → List MemberRow → Bool
owns cid uid ms = any_where (is_owner_row cid uid) ms

insert_member-owns :
    (x y cid uid : ℕ) (ms : List MemberRow) → owns x y (insert_member cid uid ms) ≡ owns x y ms
unfolding owns insert_member any_where
insert_member-owns x y cid uid ms = ground arith

delete_member-owns :
    (x y cid uid : ℕ) (ms : List MemberRow) → owns x y (delete_member cid uid ms) ≡ owns x y ms
unfolding owns delete_member any_where
delete_member-owns x y cid uid [] = refl
delete_member-owns x y cid uid (m ∷ ms) = ground (arith, delete_member-owns x y cid uid ms)

join-owns :
    (ent : EntitlementChecker) (x y id nid now cid uid : ℕ) (c : Clubs)
    → owns x y (after c (map_ok first (join_community ent id nid now cid uid c))).members
      ≡ owns x y c.members
unfolding join_community join_by_type
join-owns ent x y id nid now cid uid c =
    elim (Option-cases (find_where (λ (k : Community). k.id == cid) c.communities)) [
      | inl missing ↦ ground arith
      | inr (k, found) ↦ ground (arith, insert_member-owns x y k.id uid c.members)
    ]

leave-owns :
    (x y cid uid : ℕ) (c : Clubs)
    → owns x y (after c (leave_community cid uid c)).members ≡ owns x y c.members
unfolding leave_community
leave-owns x y cid uid c = ground (arith, delete_member-owns x y cid uid c.members)

respond-owns :
    (x y nid now id caller : ℕ) (approve : Bool) (c : Clubs)
    → owns x y (after c (map_ok first (respond_join_request nid now id caller approve c))).members
      ≡ owns x y c.members
unfolding respond_join_request decide_request
respond-owns x y nid now id caller approve c =
    elim (Option-cases
      (find_where (λ (q : CommunityRequest). q.id == id && is_open_join q.status) c.requests)) [
        | inl missing ↦ ground arith
        | inr (r, found) ↦ ground (arith, insert_member-owns x y r.community_id r.user_id c.members)
      ]

invite-owns :
    (x y id cid caller uid : ℕ) (c : Clubs)
    → owns x y (after c (invite_to_community id cid caller uid c)).members ≡ owns x y c.members
unfolding invite_to_community invite
invite-owns x y id cid caller uid c = ground arith

pub club_step-owns :
    (ent : EntitlementChecker) (x y : ℕ) (c : Clubs) (call : ClubCall)
    → owns x y (club_step ent c call).members ≡ owns x y c.members
unfolding club_step
club_step-owns ent x y c (ClubCall.joins id nid now cid uid) =
    join-owns ent x y id nid now cid uid c
club_step-owns ent x y c (ClubCall.leaves cid uid) = leave-owns x y cid uid c
club_step-owns ent x y c (ClubCall.responds nid now id caller approve) =
    respond-owns x y nid now id caller approve c
club_step-owns ent x y c (ClubCall.invites_user id cid caller uid) =
    invite-owns x y id cid caller uid c

-- Whatever calls are made to join, leave, decide requests and invite, by whomever, nobody becomes
-- the owner of a community and no owner stops to be one.
pub club_run-owns :
    (ent : EntitlementChecker) (x y : ℕ) (calls : List ClubCall) (c : Clubs)
    → owns x y (club_run ent c calls).members ≡ owns x y c.members
unfolding club_run
club_run-owns ent x y [] c = refl
club_run-owns ent x y (call ∷ calls) c =
    club_run-owns ent x y calls (club_step ent c call) ∙ club_step-owns ent x y c call

create_community-owns :
    (id : ℕ) (new : NewCommunity) (c d : Clubs) (k : Community)
    → create_community id new c ≡ ok (d, k)
    → owns k.id k.owner_id d.members ≡ true
unfolding create_community owns any_where
create_community-owns id new c d k h = ground arith

-- Whoever creates a community owns it after any calls that follow.
pub create_community-owned :
    (ent : EntitlementChecker) (id : ℕ) (new : NewCommunity) (c d : Clubs) (k : Community)
    (calls : List ClubCall)
    → create_community id new c ≡ ok (d, k)
    → owns k.id k.owner_id (club_run ent d calls).members ≡ true
create_community-owned ent id new c d k calls h =
    club_run-owns ent k.id k.owner_id calls d ∙ create_community-owns id new c d k h
