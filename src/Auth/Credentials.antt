-- ===== src/Auth/Credentials.antt =====
-- Refresh tokens and recovery codes, which are stored by their hashes (`StoreRefreshToken`,
-- `ConsumeRefreshToken`, `RevokeDeviceTokens`, `CreateRecoveryCode`, `ConsumeRecoveryCode` of
-- repository.go).
use hivemind_backend.Auth.Accounts.{is_device}
use hivemind_backend.Auth.Types.{
  Reply, RecoveryCode, same_purpose, AuthError, Purpose, RefreshToken, Accounts,
}
use hivemind_backend.Prelude.{
  not, ltb, Result, update_where, find_where, Bool, any_where, ◌>>◌, ◌>>=◌, ◌&&◌, ◌==◌, ◌+◌, or_err,
  guard, ◌∷◌, err, ok, false, true, some, none, ℕ,
}

abbrev pub is_unrevoked : RefreshToken → Bool
is_unrevoked t = elim t.revoked_at [ none ↦ true | some r ↦ false ]

abbrev pub has_hash : ℕ → RefreshToken → Bool
has_hash h t = t.token_hash == h

abbrev pub is_live_token : ℕ → ℕ → RefreshToken → Bool
is_live_token now h t = has_hash h t && is_unrevoked t && ltb now t.expires_at

unfoldable pub revoke_token : ℕ → RefreshToken → RefreshToken
revoke_token now t = record t { revoked_at = some now }

-- `UPDATE refresh_tokens SET revoked_at = now() WHERE f`
unfoldable pub revoke_where : (RefreshToken → Bool) → ℕ → Accounts → Accounts
revoke_where f now a = record a {
  refresh_tokens = update_where f (revoke_token now) a.refresh_tokens;
}

-- `StoreRefreshToken`; the hash is UNIQUE.
unfoldable pub store_refresh_token : ℕ → ℕ → ℕ → ℕ → Accounts → Result AuthError Accounts
store_refresh_token uid did h expires a = do
  guard (not (any_where (has_hash h) a.refresh_tokens)) AuthError.unique_violation
  ok (record a {
    refresh_tokens =
        (record {
          user_id = uid;
          device_id = did;
          token_hash = h;
          expires_at = expires;
          revoked_at = none;
        })
        ∷ a.refresh_tokens;
  })

-- `replayGrace`, 60 seconds in microseconds.
abbrev pub replay_grace : ℕ
replay_grace = 60_000_000

-- A token that was used longer ago than the grace, and has not run out.
abbrev pub is_replayed : ℕ → ℕ → RefreshToken → Bool
is_replayed now h t =
    has_hash h t
    && elim t.revoked_at [ none ↦ false | some r ↦ ltb (r + replay_grace) now ]
    && ltb now t.expires_at

abbrev pub is_session_of : ℕ → RefreshToken → Bool
is_session_of uid t = t.user_id == uid && is_unrevoked t

-- `revokeFamilyIfReplayed`
unfoldable pub revoke_family_if_replayed : ℕ → ℕ → Accounts → Accounts
unfolding revoke_where
revoke_family_if_replayed now h a = elim (find_where (is_replayed now h) a.refresh_tokens) [
  | none ↦ a
  | some t ↦ revoke_where (is_session_of t.user_id) now a
]

-- `ConsumeRefreshToken`
unfoldable pub consume_refresh_token : ℕ → ℕ → Accounts → Reply RefreshToken
unfolding revoke_where revoke_family_if_replayed
consume_refresh_token now h a = elim (find_where (is_live_token now h) a.refresh_tokens) [
  | some t ↦ (revoke_where (is_live_token now h) now a, ok t)
  | none ↦ (revoke_family_if_replayed now h a, err AuthError.refresh_token_invalid)
]

-- `RevokeDeviceTokens`: without such a device nothing happens.
unfoldable pub revoke_device_tokens : ℕ → ℕ → ℕ → Accounts → Accounts
unfolding revoke_where
revoke_device_tokens now uid device a = elim (find_where (is_device uid device) a.devices) [
  | none ↦ a
  | some d ↦ revoke_where (λ t. is_session_of uid t && t.device_id == d.id) now a
]

abbrev pub is_usable_code : ℕ → ℕ → Purpose → RecoveryCode → Bool
is_usable_code now h purpose c =
    c.code_hash == h
    && same_purpose c.purpose purpose
    && elim c.used_at [ none ↦ true | some t ↦ false ]
    && ltb now c.expires_at

-- `CreateRecoveryCode`; the hash is UNIQUE.
unfoldable pub create_recovery_code : ℕ → ℕ → Purpose → ℕ → Accounts → Result AuthError Accounts
create_recovery_code uid h purpose expires a = do
  guard (not (any_where (λ c. c.code_hash == h) a.recovery_codes)) AuthError.unique_violation
  ok (record a {
    recovery_codes =
        (record {
          user_id = uid;
          code_hash = h;
          purpose = purpose;
          expires_at = expires;
          used_at = none;
        })
        ∷ a.recovery_codes;
  })

unfoldable pub use_code : ℕ → RecoveryCode → RecoveryCode
use_code now c = record c { used_at = some now }

-- `ConsumeRecoveryCode`: the owner of the code.
unfoldable pub consume_recovery_code : ℕ → ℕ → Purpose → Accounts → Result AuthError (Accounts × ℕ)
consume_recovery_code now h purpose a = do
  c ←
      or_err (find_where (is_usable_code now h purpose) a.recovery_codes)
        AuthError.recovery_code_invalid
  ok (
    record a {
      recovery_codes = update_where (is_usable_code now h purpose) (use_code now) a.recovery_codes;
    },
    c.user_id,
  )
