-- ===== src/Auth/Suspended.antt =====
-- Recovery of an account that is not active.
use hivemind_backend.Auth.Accounts.{
  upsert_device, link_oauth_identity, get_user, find_by_provider_identity,
}
use hivemind_backend.Auth.Types.{
  Provider, Accounts, User, AuthError, RecoveryCode, Purpose, is_active,
}
use hivemind_backend.Auth.Credentials.{
  has_hash, consume_recovery_code, is_usable_code, store_refresh_token, use_code,
}
use hivemind_backend.Auth.Recovery.{found_linked}
use hivemind_backend.Auth.Service.{
  Draws, Client, issue_tokens, issue_session, recover_with, recover_account, recover_by, sign_in,
  sign_in_identity, sign_in_user, verifier_of, Verifiers, Verifier,
}
use hivemind_backend.Prelude.{
  find_where, ℕ, any_where, update_where, ◌∙◌, ◌≡◌, ◌||◌, ◌==◌, some, ok, err, false, arith,
}

recover_with-ok :
    (hash : ℕ → ℕ) (now : ℕ) (d : Draws) (c : Client) (provider : Provider) (uid puid email : ℕ)
    (a : Accounts) (u : User)
    → get_user uid a ≡ ok u
    → any_where (has_hash (hash d.token)) a.refresh_tokens ≡ false
    → ((recover_with hash now d c provider uid puid email a).1
        ≡ ok (record { user_id = u.id; role = u.role; refresh_token = d.token }))
      × ((recover_with hash now d c provider uid puid email a).0.users ≡ a.users)
      × ((recover_with hash now d c provider uid puid email a).0.identities
          ≡ (link_oauth_identity uid provider puid email a).identities)
unfolding recover_with get_user link_oauth_identity issue_session upsert_device issue_tokens
    store_refresh_token
recover_with-ok hash now d c provider uid puid email a u known fresh =
    (ground arith, ground arith, ground arith)

-- The lookup of the identity that a recovery linked finds the owner of the code.
found_recovered :
    (uid : ℕ) (provider : Provider) (puid email : ℕ) (a b : Accounts)
    → b.users ≡ a.users
    → b.identities ≡ (link_oauth_identity uid provider puid email a).identities
    → find_by_provider_identity provider puid b ≡ get_user uid a
unfolding find_by_provider_identity get_user link_oauth_identity
found_recovered uid provider puid email a b users identities =
    let found = found_linked uid provider puid email a in ground arith

refused :
    (hash : ℕ → ℕ) (now : ℕ) (d : Draws) (c : Client) (provider : Provider) (verify : Verifier)
    (puid email : ℕ) (a : Accounts) (u : User)
    → (c.id_token == 0) ≡ false
    → verify c.id_token ≡ some (puid, email)
    → find_by_provider_identity provider puid a ≡ ok u
    → is_active u.status ≡ false
    → (sign_in hash now d c provider (some verify) a).1 ≡ err AuthError.user_inactive
unfolding sign_in sign_in_identity sign_in_user
refused hash now d c provider verify puid email a u given vouched found inactive = ground arith

-- Recovery does not look at the account's status as sign-in does: a usable code of an account that
-- is suspended or deleted gives a session of that account, while signing in with the identity that
-- this recovery has just linked is refused as the account is not active. The identity is one that
-- its provider vouches for, and the new token's hash is fresh.
pub recover_account_any_status :
    (hash : ℕ → ℕ) (now later : ℕ) (d e : Draws) (c : Client) (provider : Provider) (v : Verifiers)
    (verify : Verifier) (code puid email : ℕ) (a : Accounts) (r : RecoveryCode) (u : User)
    → (code == 0 || c.id_token == 0) ≡ false
    → verifier_of provider v ≡ ok verify
    → find_where (is_usable_code now (hash code) Purpose.account_recover) a.recovery_codes ≡ some r
    → verify c.id_token ≡ some (puid, email)
    → get_user r.user_id a ≡ ok u
    → is_active u.status ≡ false
    → any_where (has_hash (hash d.token)) a.refresh_tokens ≡ false
    → ((recover_account hash now d c provider v code a).1
        ≡ ok (record { user_id = u.id; role = u.role; refresh_token = d.token }))
      × ((sign_in hash later e c provider
            (some verify)
            (recover_account hash now d c provider v code a).0).1
          ≡ err AuthError.user_inactive)
unfolding recover_account recover_by consume_recovery_code get_user
recover_account_any_status hash now later d e c provider v verify code puid email a r u given known
      usable vouched owner inactive fresh =
    let spent : Accounts = record a {
      recovery_codes =
          update_where (is_usable_code now (hash code) Purpose.account_recover) (use_code now)
            a.recovery_codes;
    } in
    let whole : recover_account hash now d c provider v code a
        ≡ recover_with hash now d c provider r.user_id puid email spent =
      ground arith in
    let mine : get_user r.user_id spent ≡ ok u = owner in
    let (session, users, identities) =
      recover_with-ok hash now d c provider r.user_id puid email spent u mine fresh in
    let found =
      found_recovered r.user_id provider puid email spent
        (recover_with hash now d c provider r.user_id puid email spent).0 users identities in
    rw whole (
      session,
      refused hash later e c provider verify puid email _ u (ground arith) vouched (found ∙ mine)
          inactive,
    )
