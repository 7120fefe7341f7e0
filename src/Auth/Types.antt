-- ===== src/Auth/Types.antt =====
-- The rows and errors of internal/auth. Ids, tokens and texts are numbers, and 0 is the empty text
-- or NULL.
use hivemind_backend.Prelude.{◌==◌, ℕ, Bool, true, false, Option, List, Result}
use hivemind_backend.Bookings.Types.{Role}

-- `users.status`
pub data UserStatus : Type 0 where
  active suspended deleted : UserStatus

-- The provider's name; a name that is neither is `unknown`.
pub data Provider : Type 0 where
  google apple unknown : Provider

-- `recovery_codes.purpose`
pub data Purpose : Type 0 where
  verify_email account_recover : Purpose

pub data AuthError : Type 0 where
  invalid_input user_inactive oauth_token_invalid provider_unavailable : AuthError
  user_not_found refresh_token_invalid recovery_code_invalid email_already_used : AuthError
  unique_violation : AuthError

pub record User : Type 0 where
  pub id : ℕ
  pub email : ℕ
  pub role : Role
  pub status : UserStatus
  pub recovery_email : ℕ
  pub recovery_email_verified_at : Option ℕ

pub record Identity : Type 0 where
  pub user_id : ℕ
  pub provider : Provider
  pub provider_user_id : ℕ
  pub email : ℕ

-- `device_id` is the client's own name of its device.
pub record Device : Type 0 where
  pub id : ℕ
  pub user_id : ℕ
  pub device_id : ℕ
  pub platform : ℕ

pub record RefreshToken : Type 0 where
  pub user_id : ℕ
  pub device_id : ℕ
  pub token_hash : ℕ
  pub expires_at : ℕ
  pub revoked_at : Option ℕ

pub record RecoveryCode : Type 0 where
  pub user_id : ℕ
  pub code_hash : ℕ
  pub purpose : Purpose
  pub expires_at : ℕ
  pub used_at : Option ℕ

-- The tables that the component owns; `profiles` holds the users with a profile row.
pub record Accounts : Type 0 where
  pub users : List User
  pub profiles : List ℕ
  pub identities : List Identity
  pub devices : List Device
  pub refresh_tokens : List RefreshToken
  pub recovery_codes : List RecoveryCode

-- A session: the user and the role that the access token claims, and the refresh token.
pub record Tokens : Type 0 where
  pub user_id : ℕ
  pub role : Role
  pub refresh_token : ℕ

-- What a method leaves and answers: the tables come back with an error too.
abbrev pub Reply : Type 0 → Type 0
Reply A = Accounts × Result AuthError A

abbrev pub is_active : UserStatus → Bool
is_active UserStatus.active = true
is_active _ = false

abbrev pub same_provider : Provider → Provider → Bool
same_provider Provider.google Provider.google = true
same_provider Provider.apple Provider.apple = true
same_provider Provider.unknown Provider.unknown = true
same_provider _ _ = false

abbrev pub same_purpose : Purpose → Purpose → Bool
same_purpose Purpose.verify_email Purpose.verify_email = true
same_purpose Purpose.account_recover Purpose.account_recover = true
same_purpose _ _ = false

abbrev pub user_key : ℕ → User → Bool
user_key uid u = u.id == uid
