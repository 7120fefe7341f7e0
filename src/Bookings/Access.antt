-- ===== src/Bookings/Access.antt =====
-- Who may book, read and scan (access.go, pass.go, service.go). The entitlement checker is another
-- component, so it is a parameter: whether it is wired, and what it answers.
use hivemind_backend.Prelude.{
  arith, not, guard, Option, Bool, Result, or_err, ℕ, any_where, ◌>>◌, ◌>>=◌, if◌then◌else◌, ◌↔◌,
  ◌⊎◌, ◌≡◌, ◌||◌, ◌&&◌, ◌==◌, err, ok, false, true, some, none,
}
use hivemind_backend.Bookings.Types.{find_plan, Error, Booking, Store, Visibility, JoinMode, Role}

-- The plan types and memberships that decide over a user's access.
pub record PlanAccess : Type 0 where
  pub join_mode : JoinMode
  pub visibility : Visibility
  pub requires_entitlement : ℕ
  pub host_id : ℕ
  pub invited : Bool
  pub approved : Bool
  pub community_member : Bool

abbrev pub is_pair : ℕ → ℕ → ℕ × ℕ → Bool
is_pair a b (x, y) = x == a && y == b

-- `getPlanAccess`
unfoldable pub get_plan_access : ℕ → ℕ → Store → Result Error PlanAccess
get_plan_access pid uid s = do
  p ← or_err (find_plan pid s) Error.plan_not_found
  ok (record {
    join_mode = p.join_mode;
    visibility = p.visibility;
    requires_entitlement = p.requires_entitlement;
    host_id = p.host_id;
    invited = any_where (is_pair pid uid) s.invites;
    approved = any_where (is_pair pid uid) s.approved_requests;
    community_member =
        not (p.community_id == 0) && any_where (is_pair p.community_id uid) s.community_members;
  })

-- `EntitlementChecker`, nil where it is not wired.
abbrev pub Entitlements : Type 0
Entitlements = Option (ℕ → ℕ → Result Error Bool)

abbrev pub is_community : Visibility → Bool
is_community Visibility.community = true
is_community Visibility.everyone = false

-- The `switch` on the join mode.
abbrev pub join_allowed : PlanAccess → Result Error (Unit {0})
join_allowed a = elim a.join_mode [
  | JoinMode.invite_only ↦ guard a.invited Error.needs_invite
  | JoinMode.approval ↦ guard (a.approved || a.invited) Error.approval_required
  | JoinMode.open_join ↦ ok tt
]

abbrev pub entitled : Entitlements → ℕ → ℕ → Result Error (Unit {0})
entitled none uid key = err Error.entitlement_required
entitled (some has) uid key = has uid key >>= λ yes_it. guard yes_it Error.entitlement_required

-- The tests of `checkAccess` on a caller who does not host the plan.
unfoldable pub guest_allowed : Entitlements → ℕ → PlanAccess → Result Error (Unit {0})
guest_allowed ents uid a = do
  guard (not (is_community a.visibility && not a.community_member && not a.invited))
      Error.not_community_member
  join_allowed a
  if a.requires_entitlement == 0 then ok tt else entitled ents uid a.requires_entitlement

-- `checkAccess`
unfoldable pub check_access : Entitlements → ℕ → ℕ → Store → Result Error (Unit {0})
check_access ents pid uid s = do
  a ← get_plan_access pid uid s
  if a.host_id == uid then ok tt else guest_allowed ents uid a

-- The rule that `checkAccess` is to enforce on a guest.
abbrev pub MayJoin : Entitlements → ℕ → PlanAccess → Type 0
MayJoin ents uid a =
    ((a.visibility ≡ Visibility.everyone) ⊎ (a.community_member ≡ true) ⊎ (a.invited ≡ true))
    × ((a.join_mode ≡ JoinMode.open_join)
        ⊎ (a.invited ≡ true)
        ⊎ ((a.join_mode ≡ JoinMode.approval) × (a.approved ≡ true)))
    × ((a.requires_entitlement ≡ 0) ⊎ (entitled ents uid a.requires_entitlement ≡ ok tt))

-- A guest is let in exactly when the plan's visibility, its join mode and its entitlement all let
-- them in.
pub guest_allowed_iff :
    (ents : Entitlements) (uid : ℕ) (a : PlanAccess)
    → (guest_allowed ents uid a ≡ ok tt) ↔ MayJoin ents uid a
unfolding guest_allowed
guest_allowed_iff ents uid a =
    ((λ h. (ground arith, ground arith, ground arith)), (λ m. ground arith))

abbrev pub is_admin_role : Role → Bool
is_admin_role Role.admin = true
is_admin_role Role.super_admin = true
is_admin_role _ = false

-- `GetPlanHostID`
unfoldable pub get_plan_host_id : ℕ → Store → Result Error ℕ
get_plan_host_id pid s = do p ← or_err (find_plan pid s) Error.plan_not_found; ok p.host_id

-- `authorizeForBooking`
unfoldable pub authorize_for_booking : Booking → ℕ → Role → Store → Result Error (Unit {0})
authorize_for_booking b caller role s =
    if b.user_id == caller || is_admin_role role
    then ok tt
    else (get_plan_host_id b.plan_id s >>= λ host. guard (host == caller) Error.forbidden)
