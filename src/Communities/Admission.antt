-- ===== src/Communities/Admission.antt =====
-- Who becomes a member by joining.
use hivemind_backend.Prelude.{
  Result, err, Option-cases, inr, inl, ℕ, Bool, true, false, ◌||◌, List, Option, some, none, ◌∷◌,
  [], any_where, find_where, ok, ◌≡◌, refl, arith,
}
use hivemind_backend.Communities.Types.{
  CommunityError, Clubs, Community, CommunityRequest, CommunityType, CommunityRole, MemberRow,
  Membership, is_approved_join, is_join_row, is_row_of,
}
use hivemind_backend.Communities.Members.{
  get_community, insert_member, member_role, request_to_join, has_approved_invite,
}
use hivemind_backend.Communities.Service.{
  EntitlementChecker, is_entitled, join_community, join_by_type,
}

-- Whether the user is a member.
unfoldable pub belongs : ℕ → ℕ → List MemberRow → Bool
belongs cid uid ms = any_where (is_row_of cid uid) ms

-- A request or an invite of the user that was approved.
abbrev pub approved_in : Option CommunityRequest → Bool
approved_in none = false
approved_in (some r) = is_approved_join r.status

abbrev pub is_granted : Result CommunityError Bool → Bool
is_granted (ok answer) = answer
is_granted (err e) = false

-- What each type of community asks of a new member.
abbrev pub may_enter :
    EntitlementChecker → CommunityType → Community → ℕ → List CommunityRequest → Bool
may_enter ent CommunityType.public k uid rs = true
may_enter ent CommunityType.private k uid rs = has_approved_invite k.id uid rs
may_enter ent CommunityType.approval k uid rs = approved_in (find_where (is_join_row k.id uid) rs)
may_enter ent CommunityType.paid k uid rs = is_granted (is_entitled ent uid k.required_entitlement)

insert_member-belongs :
    (cid uid : ℕ) (ms : List MemberRow) → belongs cid uid (insert_member cid uid ms) ≡ true
unfolding belongs insert_member any_where
insert_member-belongs cid uid ms = ground arith

belongs-role :
    (cid uid : ℕ) (ms : List MemberRow) (role : CommunityRole)
    → member_role cid uid ms ≡ some role
    → belongs cid uid ms ≡ true
unfolding belongs any_where find_where
belongs-role cid uid [] role h = absurd (ground arith)
belongs-role cid uid (m ∷ ms) role h = ground (arith, belongs-role cid uid ms role)

outside-role :
    (cid uid : ℕ) (ms : List MemberRow) → member_role cid uid ms ≡ none → belongs cid uid ms ≡ false
unfolding belongs any_where find_where
outside-role cid uid [] h = refl
outside-role cid uid (m ∷ ms) h = ground (arith, outside-role cid uid ms)

by_type-belongs :
    (ent : EntitlementChecker) (t : CommunityType) (id nid now uid : ℕ) (k : Community)
    (c d : Clubs) (m : Membership)
    → belongs k.id uid c.members ≡ false
    → join_by_type ent t id nid now k uid c ≡ ok (d, m)
    → belongs k.id uid d.members ≡ may_enter ent t k uid c.requests
unfolding join_by_type request_to_join
by_type-belongs ent CommunityType.public id nid now uid k c d m out h =
    ground (arith, insert_member-belongs k.id uid c.members)
by_type-belongs ent CommunityType.private id nid now uid k c d m out h =
    ground (arith, insert_member-belongs k.id uid c.members)
by_type-belongs ent CommunityType.paid id nid now uid k c d m out h =
    ground (arith, insert_member-belongs k.id uid c.members)
by_type-belongs ent CommunityType.approval id nid now uid k c d m out h =
    ground (arith, insert_member-belongs k.id uid c.members)

-- After a call to join that returned, the user is a member exactly if they were one before or the
-- community lets them in: a public one lets in everybody, a private one who has an approved
-- invite, one by approval whose request is approved, a paid one who has its entitlement.
pub join_community-belongs :
    (ent : EntitlementChecker) (id nid now cid uid : ℕ) (k : Community) (c d : Clubs)
    (m : Membership)
    → get_community cid c.communities ≡ ok k
    → join_community ent id nid now cid uid c ≡ ok (d, m)
    → belongs k.id uid d.members
      ≡ (belongs k.id uid c.members || may_enter ent k.membership_type k uid c.requests)
unfolding join_community
join_community-belongs ent id nid now cid uid k c d m got h =
    elim (Option-cases (member_role k.id uid c.members)) [
      | inl none_yet ↦
          let outside = outside-role k.id uid c.members none_yet in
          let entered =
            by_type-belongs ent k.membership_type id nid now uid k c d m outside (ground arith) in
          ground arith
      | inr (role, has) ↦ let inside = belongs-role k.id uid c.members role has in ground arith
    ]
