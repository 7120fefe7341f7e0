-- ===== src/Auth/Tests.antt =====
-- Small tables of accounts, and the theorems applied to them.
use hivemind_backend.Auth.Suspended.{recover_account_any_status}
use hivemind_backend.Bookings.Types.{Role}
use hivemind_backend.Auth.Accounts.{
  mark_verified, claim_email, get_user, set_pending_recovery_email, link_oauth_identity,
  find_by_provider_identity,
}
use hivemind_backend.Auth.Service.{
  recover_account, Verifier, sign_in, Verifiers, rotate, refresh, issue_tokens,
  verify_recovery_email, Draws, Client,
}
use hivemind_backend.Auth.Credentials.{
  is_session_of, store_refresh_token, consume_refresh_token, revoke_where, revoke_token,
}
use hivemind_backend.Auth.Types.{
  User, Provider, RefreshToken, Purpose, RecoveryCode, AuthError, Accounts, UserStatus, Identity,
}
use hivemind_backend.Prelude.{
  arith, find_where, update_where, update_first, ℕ, All, any_where, Option, ◌≡◌, ◌+◌, ◌∷◌, err, ok,
  false, [], some, none, refl,
}
use hivemind_backend.Auth.Sessions.{refresh_once, refresh_replayed}
use hivemind_backend.Auth.Recovery.{find_by_provider_identity-link, verify_recovery_email_claimed}

abbrev shift : ℕ → ℕ
shift k = k + 1_000

abbrev ann : User
ann = record {
  id = 1;
  email = 11;
  role = Role.user;
  status = UserStatus.active;
  recovery_email = 71;
  recovery_email_verified_at = none;
}

abbrev bob : User
bob = record {
  id = 2;
  email = 12;
  role = Role.host;
  status = UserStatus.suspended;
  recovery_email = 0;
  recovery_email_verified_at = none;
}

abbrev token_row : ℕ → Option ℕ → RefreshToken
token_row h revoked = record {
  user_id = 1;
  device_id = 5;
  token_hash = h;
  expires_at = 100_000_000;
  revoked_at = revoked;
}

abbrev verify_code : RecoveryCode
verify_code = record {
  user_id = 1;
  code_hash = 1_003;
  purpose = Purpose.verify_email;
  expires_at = 900;
  used_at = none;
}

abbrev of_bob : Identity
of_bob = record { user_id = 2; provider = Provider.google; provider_user_id = 31; email = 12 }

abbrev start : Accounts
start = record {
  users = ann ∷ bob ∷ [];
  profiles = 1 ∷ 2 ∷ [];
  identities = of_bob ∷ [];
  devices = [];
  refresh_tokens = token_row 1_009 (some 2) ∷ token_row 1_007 none ∷ [];
  recovery_codes = verify_code ∷ [];
}

abbrev draws : Draws
draws = record { user_id = 8; device_id = 9; token = 10 }

abbrev client : Client
client = record { id_token = 3; device_id = 4; platform = 1 }

abbrev renewed : Accounts
renewed = (refresh shift 40 8 7 start).0

refresh_once_example : (refresh shift 60 21 7 renewed).1 ≡ err AuthError.refresh_token_invalid
unfolding refresh rotate consume_refresh_token get_user revoke_where find_where update_where
    issue_tokens store_refresh_token any_where revoke_token
refresh_once_example =
    refresh_once shift 40 60 8 21 7 start renewed
      (record { user_id = 1; role = Role.user; refresh_token = 8 }) refl (omega arith) (omega arith)

refresh_replayed_example :
    ((refresh shift 70_000_000 8 9 start).1 ≡ err AuthError.refresh_token_invalid)
    × All (λ r. is_session_of 1 r ≡ false) (refresh shift 70_000_000 8 9 start).0.refresh_tokens
unfolding find_where
refresh_replayed_example =
    refresh_replayed shift 70_000_000 8 9 start (token_row 1_009 (some 2)) refl refl refl

find_by_provider_identity-link_example :
    (find_by_provider_identity Provider.google 31
        (link_oauth_identity 1 Provider.google 31 12 start)
      ≡ get_user 1 start)
    × (find_by_provider_identity Provider.apple 31
          (link_oauth_identity 1 Provider.google 31 12 start)
        ≡ find_by_provider_identity Provider.apple 31 start)
find_by_provider_identity-link_example =
    find_by_provider_identity-link 1 Provider.google Provider.apple 31 31 12 start refl

abbrev claimed : Accounts
claimed = record start { users = record ann { recovery_email = 72 } ∷ bob ∷ [] }

verify_recovery_email_claimed_example :
    ((verify_recovery_email shift 40 3 1 claimed).1 ≡ ok tt)
    × (get_user 1 (verify_recovery_email shift 40 3 1 claimed).0
        ≡ ok (mark_verified 40 (claim_email 72 ann)))
unfolding find_where get_user set_pending_recovery_email any_where update_first claim_email
verify_recovery_email_claimed_example =
    verify_recovery_email_claimed shift 40 3 1 72 start claimed verify_code ann refl refl refl refl
      refl

-- Bob, who is suspended, has a code to recover his account.
abbrev bobs_code : RecoveryCode
bobs_code = record {
  user_id = 2;
  code_hash = 1_006;
  purpose = Purpose.account_recover;
  expires_at = 900;
  used_at = none;
}

abbrev locked_out : Accounts
locked_out = record start { recovery_codes = bobs_code ∷ [] }

abbrev vouches : Verifier
vouches token = some (33, 12)

abbrev providers : Verifiers
providers = record { of_google = none; of_apple = some vouches }

recover_account_any_status_example :
    ((recover_account shift 40 draws client Provider.apple providers 6 locked_out).1
      ≡ ok (record { user_id = 2; role = Role.host; refresh_token = 10 }))
    × ((sign_in shift 50 draws client Provider.apple
          (some vouches)
          (recover_account shift 40 draws client Provider.apple providers 6 locked_out).0).1
        ≡ err AuthError.user_inactive)
unfolding get_user find_where any_where
recover_account_any_status_example =
    recover_account_any_status shift 40 50 draws draws client Provider.apple providers vouches 6 33
      12 locked_out bobs_code bob refl refl refl refl refl refl refl
