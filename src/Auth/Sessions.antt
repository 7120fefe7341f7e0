-- ===== src/Auth/Sessions.antt =====
-- Refresh tokens over their life: used once, revoked by a replay or a sign-out, given to active
-- users only.
use hivemind_backend.Auth.Accounts.{get_user}
use hivemind_backend.Auth.Service.{rotate, refresh, issue_tokens, refresh_token_ttl}
use hivemind_backend.Auth.Credentials.{
  revoke_where, is_live_token, store_refresh_token, revoke_family_if_replayed, is_session_of,
  is_replayed, consume_refresh_token, revoke_token,
}
use hivemind_backend.Auth.Types.{
  Accounts, Tokens, is_active, user_key, AuthError, RefreshToken, User,
}
use hivemind_backend.Prelude.{
  arith, Bool-cases, ◌==◌, List, Option-cases, find_where, Result-cases, update_where, All, ◌≢◌,
  ◌≡◌, ◌≤◌, ◌+◌, ◌∷◌, err, ok, inr, inl, false, true, [], some, none, refl, ℕ,
}

-- A token that was revoked or has run out stays so.
dead_later :
    (now later h : ℕ) (ts : List RefreshToken)
    → now ≤ later
    → find_where (is_live_token later h) (update_where (is_live_token now h) (revoke_token now) ts)
      ≡ none
unfolding find_where update_where revoke_token
dead_later now later h [] le = refl
dead_later now later h (t ∷ ts) le = ground (arith, dead_later now later h ts le)

-- No session of the user is left once they are revoked.
none_left :
    (now uid : ℕ) (ts : List RefreshToken)
    → All
        (λ r. is_session_of uid r ≡ false)
        (update_where (is_session_of uid) (revoke_token now) ts)
unfolding update_where revoke_token
none_left now uid [] = tt
none_left now uid (t ∷ ts) = ground (arith, none_left now uid ts)

issue_tokens-ok :
    (hash : ℕ → ℕ) (now token : ℕ) (u : User) (did : ℕ) (a b : Accounts) (out : Tokens)
    → issue_tokens hash now token u did a ≡ ok (b, out)
    → (r : RefreshToken) × (b.refresh_tokens ≡ r ∷ a.refresh_tokens)
      × (r.token_hash ≡ hash token)
      × (out ≡ record { user_id = u.id; role = u.role; refresh_token = token })
unfolding issue_tokens store_refresh_token
issue_tokens-ok hash now token u did a b out h = (
  record {
    user_id = u.id;
    device_id = did;
    token_hash = hash token;
    expires_at = now + refresh_token_ttl;
    revoked_at = none;
  },
  ground arith,
  ground arith,
  ground arith,
)

replay_consumed :
    (now h : ℕ) (a : Accounts) (t : RefreshToken)
    → find_where (is_replayed now h) a.refresh_tokens ≡ some t
    → find_where (is_live_token now h) a.refresh_tokens ≡ none
    → consume_refresh_token now h a
      ≡ (revoke_where (is_session_of t.user_id) now a, err AuthError.refresh_token_invalid)
unfolding consume_refresh_token revoke_family_if_replayed
replay_consumed now h a t found dead = ground arith

module _ (hash : ℕ → ℕ) where
  -- What a refresh that returned did.
  refresh-ok :
      (now token old : ℕ) (a b : Accounts) (out : Tokens)
      → refresh hash now token old a ≡ (b, ok out)
      → (t : RefreshToken) × (find_where (is_live_token now (hash old)) a.refresh_tokens ≡ some t)
        × ((u : User) × (get_user t.user_id a ≡ ok u)
            × (is_active u.status ≡ true)
            × (issue_tokens hash now token u t.device_id
                  (revoke_where (is_live_token now (hash old)) now a)
                ≡ ok (b, out)))
  unfolding refresh rotate consume_refresh_token get_user revoke_where
  refresh-ok now token old a b out h =
      elim (Option-cases (find_where (is_live_token now (hash old)) a.refresh_tokens)) [
        | inl e ↦ absurd (ground arith)
        | inr (t, e) ↦ elim (Option-cases (find_where (user_key t.user_id) a.users)) [
          | inl f ↦ absurd (ground arith)
          | inr (u, f) ↦
              let left = revoke_where (is_live_token now (hash old)) now a in
              elim (Result-cases (issue_tokens hash now token u t.device_id left)) [
                | inl ((c, x), g) ↦ (t, e, (u, ground arith, ground arith, ground arith))
                | inr (x, g) ↦ absurd (ground arith)
              ]
        ]
      ]

  -- The old token of a refresh that returned is not the empty text.
  refresh-some :
      (now token old : ℕ) (a b : Accounts) (out : Tokens)
      → refresh hash now token old a ≡ (b, ok out)
      → (old == 0) ≡ false
  unfolding refresh
  refresh-some now token old a b out h = elim (Bool-cases (old == 0)) [
    | inl e ↦ absurd (ground arith)
    | inr e ↦ e
  ]

  -- A refresh token is used once: after a refresh that returned, the same token gives nothing, now
  -- or later, if the new token's hash is another.
  pub refresh_once :
      (now later token token' old : ℕ) (a b : Accounts) (out : Tokens)
      → refresh hash now token old a ≡ (b, ok out)
      → now ≤ later
      → hash token ≢ hash old
      → (refresh hash later token' old b).1 ≡ err AuthError.refresh_token_invalid
  unfolding refresh consume_refresh_token revoke_where find_where
  refresh_once now later token token' old a b out h le fresh =
      let some_token = refresh-some now token old a b out h in
      let (t, _, (u, _, _, issued)) = refresh-ok now token old a b out h in
      let (r, rows, same, _) =
        issue_tokens-ok hash now token u t.device_id
          (revoke_where (is_live_token now (hash old)) now a) b out issued in
      ground (arith, dead_later now later (hash old) a.refresh_tokens le)

  -- A session is renewed for the token's own user, who is active, with the role that they have now.
  pub refresh-active :
      (now token old : ℕ) (a b : Accounts) (out : Tokens)
      → refresh hash now token old a ≡ (b, ok out)
      → (t : RefreshToken) × (find_where (is_live_token now (hash old)) a.refresh_tokens ≡ some t)
        × ((u : User) × (get_user t.user_id a ≡ ok u)
            × (is_active u.status ≡ true)
            × (out.user_id ≡ u.id)
            × (out.role ≡ u.role))
  refresh-active now token old a b out h =
      let (t, found, (u, user, active, issued)) = refresh-ok now token old a b out h in
      let (_, _, _, tokens) =
        issue_tokens-ok hash now token u t.device_id
          (revoke_where (is_live_token now (hash old)) now a) b out issued in
      (t, found, (u, user, active, ground arith, ground arith))

  refresh-replay :
      (now token old : ℕ) (a : Accounts) (t : RefreshToken)
      → (old == 0) ≡ false
      → find_where (is_replayed now (hash old)) a.refresh_tokens ≡ some t
      → find_where (is_live_token now (hash old)) a.refresh_tokens ≡ none
      → refresh hash now token old a
        ≡ (revoke_where (is_session_of t.user_id) now a, err AuthError.refresh_token_invalid)
  unfolding refresh
  refresh-replay now token old a t some_token found dead =
      ground (arith, replay_consumed now (hash old) a t found dead)

  -- A token that was used longer ago than the grace ends every session of its user when it is
  -- presented again before it runs out, and gives none itself.
  pub refresh_replayed :
      (now token old : ℕ) (a : Accounts) (t : RefreshToken)
      → (old == 0) ≡ false
      → find_where (is_replayed now (hash old)) a.refresh_tokens ≡ some t
      → find_where (is_live_token now (hash old)) a.refresh_tokens ≡ none
      → ((refresh hash now token old a).1 ≡ err AuthError.refresh_token_invalid)
        × All
            (λ r. is_session_of t.user_id r ≡ false)
            (refresh hash now token old a).0.refresh_tokens
  unfolding revoke_where
  refresh_replayed now token old a t some_token found dead =
      rw (refresh-replay now token old a t some_token found dead)
        (refl, none_left now t.user_id a.refresh_tokens)
