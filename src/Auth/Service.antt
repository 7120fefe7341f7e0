-- ===== src/Auth/Service.antt =====
-- The methods of `auth.Service` (service.go). The hash of a secret, the verifiers of the providers'
-- ID tokens and the random draws are not part of the component: `hash` and `verify` are parameters,
-- and a draw is an argument.
use hivemind_backend.Auth.Accounts.{
  create_user_from_oauth, new_user, set_pending_recovery_email, mark_recovery_email_verified,
  find_by_provider_identity, upsert_device, find_by_verified_recovery_email, get_user,
  link_oauth_identity,
}
use hivemind_backend.Auth.Credentials.{
  store_refresh_token, consume_recovery_code, consume_refresh_token, revoke_device_tokens,
  create_recovery_code,
}
use hivemind_backend.Auth.Types.{
  AuthError, is_active, Reply, Purpose, Accounts, User, RefreshToken, Tokens, Provider,
}
use hivemind_backend.Prelude.{
  Result, Option, ◌>>=◌, if◌then◌else◌, ◌||◌, ◌==◌, ◌+◌, or_err, err, ok, some, none, ℕ,
}

-- `refreshTokenTTL` and `recoveryCodeTTL`: 30 days and 15 minutes, in microseconds.
abbrev pub refresh_token_ttl : ℕ
refresh_token_ttl = 2_592_000_000_000

abbrev pub recovery_code_ttl : ℕ
recovery_code_ttl = 900_000_000

-- A verifier gives the provider's user id and email of a valid ID token.
abbrev pub Verifier : Type 0
Verifier = ℕ → Option (ℕ × ℕ)

-- The configured verifiers; `none` is nil.
pub record Verifiers : Type 0 where
  pub of_google : Option Verifier
  pub of_apple : Option Verifier

-- What a call draws: keys for a new user and a new device, and an opaque token.
pub record Draws : Type 0 where
  pub user_id : ℕ
  pub device_id : ℕ
  pub token : ℕ

-- What the caller sends with a sign-in.
pub record Client : Type 0 where
  pub id_token : ℕ
  pub device_id : ℕ
  pub platform : ℕ

-- The tables after a step that changes nothing if it fails.
abbrev pub keep : {A : Type 0} → Accounts → Result AuthError (Accounts × A) → Reply A
keep a (ok (b, x)) = (b, ok x)
keep a (err e) = (a, err e)

-- The `switch` on the provider's name.
abbrev pub verifier_of : Provider → Verifiers → Result AuthError Verifier
verifier_of Provider.google v = or_err v.of_google AuthError.provider_unavailable
verifier_of Provider.apple v = or_err v.of_apple AuthError.provider_unavailable
verifier_of Provider.unknown v = err AuthError.invalid_input

module _ (hash : ℕ → ℕ) where
  -- `issueTokens`
  unfoldable pub issue_tokens : ℕ → ℕ → User → ℕ → Accounts → Result AuthError (Accounts × Tokens)
  unfolding store_refresh_token
  issue_tokens now token u did a = do
    b ← store_refresh_token u.id did (hash token) (now + refresh_token_ttl) a
    ok (b, record { user_id = u.id; role = u.role; refresh_token = token })

  -- `issueSession`
  unfoldable pub issue_session : ℕ → Draws → Client → User → Accounts → Reply Tokens
  unfolding issue_tokens upsert_device
  issue_session now d c u a =
      let (b, did) = upsert_device d.device_id u.id c.device_id c.platform a in
      keep b (issue_tokens now d.token u did b)

  -- `signInWithProvider` for the account of an identity.
  unfoldable pub sign_in_user : ℕ → Draws → Client → User → Accounts → Reply Tokens
  unfolding issue_session
  sign_in_user now d c u a =
      if is_active u.status then issue_session now d c u a else (a, err AuthError.user_inactive)

  -- `signInWithProvider` for an identity that the provider vouches for.
  unfoldable pub sign_in_identity : ℕ → Draws → Client → Provider → ℕ → ℕ → Accounts → Reply Tokens
  unfolding sign_in_user find_by_provider_identity create_user_from_oauth
  sign_in_identity now d c provider puid email a =
      elim (find_by_provider_identity provider puid a) [
        | ok u ↦ sign_in_user now d c u a
        | err _ ↦ elim (create_user_from_oauth d.user_id email provider puid a) [
          | ok b ↦ issue_session now d c (new_user d.user_id email) b
          | err e ↦ (a, err e)
        ]
      ]

  -- `signInWithProvider`, with `SignInWithGoogle` and `SignInWithApple`.
  unfoldable pub sign_in : ℕ → Draws → Client → Provider → Option Verifier → Accounts → Reply Tokens
  unfolding sign_in_identity
  sign_in now d c provider none a = (a, err AuthError.provider_unavailable)
  sign_in now d c provider (some verify) a =
      let vouched = verify c.id_token in
      if c.id_token == 0 then (a, err AuthError.invalid_input) else elim vouched [
        | none ↦ (a, err AuthError.oauth_token_invalid)
        | some (puid, email) ↦ sign_in_identity now d c provider puid email a
      ]

  -- `RefreshToken` once the old token is consumed.
  unfoldable pub rotate : ℕ → ℕ → RefreshToken → Accounts → Reply Tokens
  unfolding issue_tokens get_user
  rotate now token t a = elim (get_user t.user_id a) [
    | err e ↦ (a, err e)
    | ok u ↦
        if is_active u.status
        then keep a (issue_tokens now token u t.device_id a)
        else (a, err AuthError.user_inactive)
  ]

  -- `RefreshToken`: the old token is used up even where the call fails after that.
  unfoldable pub refresh : ℕ → ℕ → ℕ → Accounts → Reply Tokens
  unfolding rotate consume_refresh_token
  refresh now token old a =
      let (b, row) = consume_refresh_token now (hash old) a in
      let next : Reply Tokens = elim row [ ok t ↦ rotate now token t b | err e ↦ (b, err e) ] in
      if old == 0 then (a, err AuthError.invalid_input) else next

  -- `sendRecoveryCode`, without the delivery of the email, which never fails the call.
  unfoldable pub send_recovery_code : ℕ → ℕ → ℕ → Purpose → Accounts → Result AuthError Accounts
  unfolding create_recovery_code
  send_recovery_code now code uid purpose a =
      create_recovery_code uid (hash code) purpose (now + recovery_code_ttl) a

  -- `AddRecoveryEmail`: the claim of the email stays where the code cannot be stored.
  unfoldable pub add_recovery_email : ℕ → ℕ → ℕ → ℕ → Accounts → Reply (Unit {0})
  unfolding send_recovery_code set_pending_recovery_email
  add_recovery_email now code uid email a =
      let claimed : Reply (Unit {0}) = elim (set_pending_recovery_email uid email a) [
        | err e ↦ (a, err e)
        | ok b ↦ keep b (send_recovery_code now code uid Purpose.verify_email b >>= λ c. ok (c, tt))
      ] in
      if uid == 0 || email == 0 then (a, err AuthError.invalid_input) else claimed

  -- `VerifyRecoveryEmail`: a code of another user is used up and refused.
  unfoldable pub verify_recovery_email : ℕ → ℕ → ℕ → Accounts → Reply (Unit {0})
  unfolding consume_recovery_code mark_recovery_email_verified
  verify_recovery_email now code uid a =
      let checked : Reply (Unit {0}) =
        elim (consume_recovery_code now (hash code) Purpose.verify_email a) [
          | err e ↦ (a, err e)
          | ok (b, owner) ↦
              if owner == uid
              then (mark_recovery_email_verified now uid b, ok tt)
              else (b, err AuthError.recovery_code_invalid)
        ] in
      if uid == 0 || code == 0 then (a, err AuthError.invalid_input) else checked

  -- `RequestAccountRecovery`: an unknown email looks like a known one.
  unfoldable pub request_account_recovery : ℕ → ℕ → ℕ → Accounts → Reply (Unit {0})
  unfolding send_recovery_code find_by_verified_recovery_email
  request_account_recovery now code email a =
      let sent : Reply (Unit {0}) = elim (find_by_verified_recovery_email email a) [
        | err _ ↦ (a, ok tt)
        | ok u ↦
            keep a (send_recovery_code now code u.id Purpose.account_recover a >>= λ b. ok (b, tt))
      ] in
      if email == 0 then (a, err AuthError.invalid_input) else sent

  -- `RecoverAccount` for an identity that the provider vouches for.
  unfoldable pub recover_with : ℕ → Draws → Client → Provider → ℕ → ℕ → ℕ → Accounts → Reply Tokens
  unfolding issue_session link_oauth_identity get_user
  recover_with now d c provider uid puid email a =
      let linked = link_oauth_identity uid provider puid email a in
      elim (get_user uid linked) [ err e ↦ (linked, err e) | ok u ↦ issue_session now d c u linked ]

  -- `RecoverAccount` once the provider's verifier is known: the code is used up first.
  unfoldable pub recover_by : ℕ → Draws → Client → Provider → Verifier → ℕ → Accounts → Reply Tokens
  unfolding recover_with consume_recovery_code
  recover_by now d c provider verify code a =
      elim (consume_recovery_code now (hash code) Purpose.account_recover a) [
        | err e ↦ (a, err e)
        | ok (b, uid) ↦ elim (verify c.id_token) [
          | none ↦ (b, err AuthError.oauth_token_invalid)
          | some (puid, email) ↦ recover_with now d c provider uid puid email b
        ]
      ]

  -- `RecoverAccount`
  unfoldable pub recover_account :
      ℕ → Draws → Client → Provider → Verifiers → ℕ → Accounts → Reply Tokens
  unfolding recover_by
  recover_account now d c provider v code a =
      let recovered : Reply Tokens = elim (verifier_of provider v) [
        | err e ↦ (a, err e)
        | ok verify ↦ recover_by now d c provider verify code a
      ] in
      if code == 0 || c.id_token == 0 then (a, err AuthError.invalid_input) else recovered

-- `SignOut`
unfoldable pub sign_out : ℕ → ℕ → ℕ → Accounts → Reply (Unit {0})
unfolding revoke_device_tokens
sign_out now uid device a =
    if uid == 0
    then (a, err AuthError.invalid_input)
    else (revoke_device_tokens now uid device a, ok tt)
