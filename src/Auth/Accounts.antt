-- ===== src/Auth/Accounts.antt =====
-- Users, identities and devices (`FindByProviderIdentity`, `CreateUserFromOAuth`,
-- `LinkOAuthIdentity`, `GetUserByID`, `UpsertDevice`, `SetPendingRecoveryEmail`,
-- `MarkRecoveryEmailVerified`, `FindByVerifiedRecoveryEmail` of repository.go).
use hivemind_backend.Bookings.Types.{Role}
use hivemind_backend.Auth.Types.{
  Identity, user_key, User, AuthError, Provider, same_provider, UserStatus, Device, Accounts,
}
use hivemind_backend.Prelude.{
  not, Result, update_first, find_where, Bool, any_where, ◌>>◌, ◌>>=◌, if◌then◌else◌, ◌&&◌, ◌==◌,
  or_err, guard, ◌∷◌, ok, false, true, some, none, ℕ,
}

-- `GetUserByID`
unfoldable pub get_user : ℕ → Accounts → Result AuthError User
get_user uid a = or_err (find_where (user_key uid) a.users) AuthError.user_not_found

abbrev pub is_identity : Provider → ℕ → Identity → Bool
is_identity provider puid i = same_provider i.provider provider && i.provider_user_id == puid

-- `FindByProviderIdentity`, a join of the identity and its user.
unfoldable pub find_by_provider_identity : Provider → ℕ → Accounts → Result AuthError User
unfolding get_user
find_by_provider_identity provider puid a = do
  i ← or_err (find_where (is_identity provider puid) a.identities) AuthError.user_not_found
  get_user i.user_id a

unfoldable pub new_user : ℕ → ℕ → User
new_user uid email = record {
  id = uid;
  email = email;
  role = Role.user;
  status = UserStatus.active;
  recovery_email = 0;
  recovery_email_verified_at = none;
}

-- `CreateUserFromOAuth`; `uid` is the key that the database draws. The email of a user and the
-- identity are UNIQUE.
unfoldable pub create_user_from_oauth : ℕ → ℕ → Provider → ℕ → Accounts → Result AuthError Accounts
unfolding new_user
create_user_from_oauth uid email provider puid a = do
  guard (not (any_where (λ u. u.email == email) a.users)) AuthError.unique_violation
  guard (not (any_where (is_identity provider puid) a.identities)) AuthError.unique_violation
  ok (record a {
    users = new_user uid email ∷ a.users;
    profiles = uid ∷ a.profiles;
    identities =
        (record { user_id = uid; provider = provider; provider_user_id = puid; email = email })
        ∷ a.identities;
  })

-- `LinkOAuthIdentity`: an identity that another account had moves to this one.
unfoldable pub link_oauth_identity : ℕ → Provider → ℕ → ℕ → Accounts → Accounts
link_oauth_identity uid provider puid email a = record a {
  identities =
      if any_where (is_identity provider puid) a.identities
      then update_first (is_identity provider puid) (λ i. record i { user_id = uid }) a.identities
      else (record { user_id = uid; provider = provider; provider_user_id = puid; email = email })
        ∷ a.identities;
}

abbrev pub is_device : ℕ → ℕ → Device → Bool
is_device uid device d = d.user_id == uid && d.device_id == device

abbrev pub new_device : ℕ → ℕ → ℕ → ℕ → Device
new_device did uid device platform = record {
  id = did;
  user_id = uid;
  device_id = device;
  platform = platform;
}

-- `UpsertDevice`; `did` is the key that the database draws for a new row.
unfoldable pub upsert_device : ℕ → ℕ → ℕ → ℕ → Accounts → Accounts × ℕ
upsert_device did uid device platform a =
    let known : Accounts × ℕ = elim (find_where (is_device uid device) a.devices) [
      | some d ↦ (
        record a {
          devices =
              update_first (is_device uid device) (λ x. record x { platform = platform }) a.devices;
        },
        d.id,
      )
      | none ↦ (record a { devices = new_device did uid device platform ∷ a.devices }, did)
    ] in
    if device == 0 then (a, 0) else known

unfoldable pub claim_email : ℕ → User → User
claim_email email u = record u { recovery_email = email; recovery_email_verified_at = none }

-- `SetPendingRecoveryEmail`; the column is UNIQUE.
unfoldable pub set_pending_recovery_email : ℕ → ℕ → Accounts → Result AuthError Accounts
set_pending_recovery_email uid email a = do
  guard (not (any_where (λ u. u.recovery_email == email && not (u.id == uid)) a.users))
      AuthError.email_already_used
  ok (record a { users = update_first (user_key uid) (claim_email email) a.users })

unfoldable pub mark_verified : ℕ → User → User
mark_verified now u = record u { recovery_email_verified_at = some now }

-- `MarkRecoveryEmailVerified`
unfoldable pub mark_recovery_email_verified : ℕ → ℕ → Accounts → Accounts
mark_recovery_email_verified now uid a = record a {
  users = update_first (user_key uid) (mark_verified now) a.users;
}

abbrev pub is_verified : User → Bool
is_verified u = elim u.recovery_email_verified_at [ none ↦ false | some t ↦ true ]

-- `FindByVerifiedRecoveryEmail`
unfoldable pub find_by_verified_recovery_email : ℕ → Accounts → Result AuthError User
find_by_verified_recovery_email email a =
    or_err (find_where (λ u. u.recovery_email == email && is_verified u) a.users)
      AuthError.user_not_found
