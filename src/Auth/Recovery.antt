-- ===== src/Auth/Recovery.antt =====
-- Identities of an account, and what a recovery code is good for.
use hivemind_backend.Auth.Service.{verify_recovery_email}
use hivemind_backend.Auth.Types.{
  user_key, User, Provider, Identity, Accounts, AuthError, Purpose, RecoveryCode, same_provider,
}
use hivemind_backend.Auth.Credentials.{use_code, consume_recovery_code, is_usable_code}
use hivemind_backend.Auth.Accounts.{
  mark_recovery_email_verified, claim_email, mark_verified, set_pending_recovery_email, get_user,
  is_identity, find_by_provider_identity, link_oauth_identity,
}
use hivemind_backend.Prelude.{
  ◌&&◌, find_where-update_first, ◌||◌, ◌==◌, false, arith, Bool-cases, List, ℕ, update_where,
  any_where, update_first, find_where, ◌≡◌, ◌≤◌, ◌∷◌, err, ok, inr, inl, true, [], some, none, refl,
}

same_provider_refl : (p : Provider) → same_provider p p ≡ true
same_provider_refl Provider.google = refl
same_provider_refl Provider.apple = refl
same_provider_refl Provider.unknown = refl

-- The identity that an update of its owner finds is the user's.
moved_found :
    (uid : ℕ) (provider : Provider) (puid : ℕ) (is : List Identity)
    → any_where (is_identity provider puid) is ≡ true
    → (i : Identity) × (find_where
          (is_identity provider puid)
          (update_first (is_identity provider puid) (λ i. record i { user_id = uid }) is)
        ≡ some i)
      × (i.user_id ≡ uid)
unfolding any_where find_where update_first
moved_found uid provider puid [] h = absurd (ground arith)
moved_found uid provider puid (i ∷ is) h = elim (Bool-cases (is_identity provider puid i)) [
  | inl e ↦ (record i { user_id = uid }, ground arith, refl)
  | inr e ↦
      let (j, found, owner) = moved_found uid provider puid is (ground arith) in
      (j, ground arith, owner)
]

same_provider_eq : (p q : Provider) → same_provider p q ≡ true → p ≡ q
same_provider_eq Provider.google Provider.google h = refl
same_provider_eq Provider.google Provider.apple h = absurd (ground arith)
same_provider_eq Provider.google Provider.unknown h = absurd (ground arith)
same_provider_eq Provider.apple Provider.google h = absurd (ground arith)
same_provider_eq Provider.apple Provider.apple h = refl
same_provider_eq Provider.apple Provider.unknown h = absurd (ground arith)
same_provider_eq Provider.unknown Provider.google h = absurd (ground arith)
same_provider_eq Provider.unknown Provider.apple h = absurd (ground arith)
same_provider_eq Provider.unknown Provider.unknown h = refl

apart_identity :
    (provider other : Provider) (puid opuid : ℕ) (i : Identity)
    → (same_provider other provider && opuid == puid) ≡ false
    → is_identity provider puid i ≡ true
    → is_identity other opuid i ≡ false
apart_identity provider other puid opuid i apart fits = ground (
  arith,
  same_provider_eq i.provider provider,
  same_provider_eq i.provider other,
  same_provider_refl other,
)

-- An update of an identity's owner leaves what is found of another one.
other_found :
    (uid : ℕ) (provider other : Provider) (puid opuid : ℕ) (is : List Identity)
    → (same_provider other provider && opuid == puid) ≡ false
    → find_where
        (is_identity other opuid)
        (update_first (is_identity provider puid) (λ i. record i { user_id = uid }) is)
      ≡ find_where (is_identity other opuid) is
unfolding find_where update_first
other_found uid provider other puid opuid [] apart = refl
other_found uid provider other puid opuid (i ∷ is) apart = ground (
  arith,
  apart_identity provider other puid opuid i apart,
  other_found uid provider other puid opuid is apart,
)

frame_link :
    (uid : ℕ) (provider other : Provider) (puid opuid email : ℕ) (a : Accounts)
    → (same_provider other provider && opuid == puid) ≡ false
    → find_by_provider_identity other opuid (link_oauth_identity uid provider puid email a)
      ≡ find_by_provider_identity other opuid a
unfolding find_by_provider_identity link_oauth_identity get_user find_where
frame_link uid provider other puid opuid email a apart = ground (
  arith,
  other_found uid provider other puid opuid a.identities apart,
  same_provider_eq provider other,
  same_provider_refl other,
)

-- The lookup of an identity that was just linked.
pub found_linked :
    (uid : ℕ) (provider : Provider) (puid email : ℕ) (a : Accounts)
    → find_by_provider_identity provider puid (link_oauth_identity uid provider puid email a)
      ≡ get_user uid a
unfolding find_by_provider_identity link_oauth_identity get_user find_where
found_linked uid provider puid email a =
    elim (Bool-cases (any_where (is_identity provider puid) a.identities)) [
      | inl e ↦ let (i, found, owner) = moved_found uid provider puid a.identities e in ground arith
      | inr e ↦ ground (arith, same_provider_refl provider)
    ]

-- Right after an identity is linked to a user, whoever had it before, looking it up finds that
-- user; what is found of every other identity stays as it was.
pub find_by_provider_identity-link :
    (uid : ℕ) (provider other : Provider) (puid opuid email : ℕ) (a : Accounts)
    → (same_provider other provider && opuid == puid) ≡ false
    → (find_by_provider_identity provider puid (link_oauth_identity uid provider puid email a)
        ≡ get_user uid a)
      × (find_by_provider_identity other opuid (link_oauth_identity uid provider puid email a)
          ≡ find_by_provider_identity other opuid a)
find_by_provider_identity-link uid provider other puid opuid email a apart =
    (found_linked uid provider puid email a, frame_link uid provider other puid opuid email a apart)

-- A code that was used up gives nothing later.
used_later :
    (now later h : ℕ) (purpose : Purpose) (cs : List RecoveryCode)
    → now ≤ later
    → find_where
        (is_usable_code later h purpose)
        (update_where (is_usable_code now h purpose) (use_code now) cs)
      ≡ none
unfolding find_where update_where use_code
used_later now later h purpose [] le = refl
used_later now later h purpose (c ∷ cs) le = ground (arith, used_later now later h purpose cs le)

-- A recovery code is used once: after it was consumed, the same code is refused, now or later.
pub consume_recovery_code_once :
    (now later h : ℕ) (purpose : Purpose) (a b : Accounts) (owner : ℕ)
    → consume_recovery_code now h purpose a ≡ ok (b, owner)
    → now ≤ later
    → consume_recovery_code later h purpose b ≡ err AuthError.recovery_code_invalid
unfolding consume_recovery_code
consume_recovery_code_once now later h purpose a b owner taken le =
    ground (arith, used_later now later h purpose a.recovery_codes le)

get_user-ok :
    (uid : ℕ) (a : Accounts) (u : User)
    → get_user uid a ≡ ok u
    → find_where (user_key uid) a.users ≡ some u
unfolding get_user
get_user-ok uid a u h = ground arith

-- An update of a user's row is what is read next.
get_user-update :
    (g : User → User) (uid : ℕ) (us : List User) (u : User)
    → ((x : User) → (g x).id ≡ x.id)
    → find_where (user_key uid) us ≡ some u
    → find_where (user_key uid) (update_first (user_key uid) g us) ≡ some (g u)
get_user-update g uid us u same found =
    ground (arith, find_where-update_first User.id g same uid uid us u found)

set_pending_recovery_email-ok :
    (uid email : ℕ) (a b : Accounts)
    → set_pending_recovery_email uid email a ≡ ok b
    → (b.recovery_codes ≡ a.recovery_codes)
      × (b.users ≡ update_first (user_key uid) (claim_email email) a.users)
unfolding set_pending_recovery_email
set_pending_recovery_email-ok uid email a b h = ground arith

verify_recovery_email-ok :
    (hash : ℕ → ℕ) (now code uid : ℕ) (b : Accounts) (c : RecoveryCode)
    → find_where (is_usable_code now (hash code) Purpose.verify_email) b.recovery_codes ≡ some c
    → c.user_id ≡ uid
    → (uid == 0 || code == 0) ≡ false
    → ((verify_recovery_email hash now code uid b).1 ≡ ok tt)
      × ((verify_recovery_email hash now code uid b).0.users
          ≡ update_first (user_key uid) (mark_verified now) b.users)
unfolding verify_recovery_email consume_recovery_code mark_recovery_email_verified
verify_recovery_email-ok hash now code uid b c usable mine given = ground arith

-- A code that was sent to an earlier address verifies the address that its owner has claimed since.
pub verify_recovery_email_claimed :
    (hash : ℕ → ℕ) (now code uid email : ℕ) (a b : Accounts) (c : RecoveryCode) (u : User)
    → find_where (is_usable_code now (hash code) Purpose.verify_email) a.recovery_codes ≡ some c
    → c.user_id ≡ uid
    → (uid == 0 || code == 0) ≡ false
    → get_user uid a ≡ ok u
    → set_pending_recovery_email uid email a ≡ ok b
    → ((verify_recovery_email hash now code uid b).1 ≡ ok tt)
      × (get_user uid (verify_recovery_email hash now code uid b).0
          ≡ ok (mark_verified now (claim_email email u)))
unfolding get_user mark_verified claim_email
verify_recovery_email_claimed hash now code uid email a b c u usable mine given known claimed =
    let (codes, users) = set_pending_recovery_email-ok uid email a b claimed in
    let (answer, verified) =
      verify_recovery_email-ok hash now code uid b c (rw codes usable) mine given in
    (
      answer,
      rw (verified, users)
          (rw (
            get_user-update (mark_verified now) uid
              (update_first (user_key uid) (claim_email email) a.users) (claim_email email u)
              (λ x. refl)
              (get_user-update (claim_email email) uid a.users u (λ x. refl)
                (get_user-ok uid a u known)))),
    )
