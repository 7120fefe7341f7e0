-- ===== src/Notifications/Delivery.antt =====
-- What a push comes to over all the devices, and what a muted category keeps out.
use hivemind_backend.Notifications.Emit.{emit, is_wanted, has_muted}
use hivemind_backend.Notifications.Settings.{
  default_preferences, set_muted, upsert_preferences, set_muted_categories,
}
use hivemind_backend.Prelude.{
  length, not, Bool-cases, inr, inl, arith, any_where, ℕ, Bool, update_first, List, if◌then◌else◌,
  ◌≡◌, ◌||◌, ◌==◌, ◌∷◌, ok, false, true, [], some, refl,
}
use hivemind_backend.Notifications.Types.{
  Event, Notification, Preferences, DeliveryStatus, same_category, category_of, Category, Board,
}
use hivemind_backend.Notifications.Dispatch.{
  no_device, mark_delivery, preferences_key, PushSender, send_all, get_enabled, push_tokens_of,
  dispatch_push,
}

abbrev pub delivers : (ℕ → ℕ) → ℕ → Bool
delivers send t = send t == 0

send_all-any :
    (send : ℕ → ℕ) (sent_any : Bool) (last_error : ℕ) (ts : List ℕ)
    → (send_all send sent_any last_error ts).0 ≡ (sent_any || any_where (delivers send) ts)
unfolding send_all any_where
send_all-any send true last_error [] = refl
send_all-any send false last_error [] = refl
send_all-any send sent_any last_error (t ∷ ts) =
    ground (arith, send_all-any send true last_error ts, send_all-any send sent_any (send t) ts)

-- The end of `dispatchPush`, once the loop came to `sent_any` and `last_error`.
push_recorded :
    (f : ℕ → Bool) (id : ℕ) (b : Board) (enabled : Bool) (ts : List ℕ) (sent_any : Bool)
    (last_error : ℕ)
    → enabled ≡ true
    → sent_any ≡ any_where f ts
    → (error : ℕ) × ((if not enabled
          then b
          else if length ts == 0
          then mark_delivery id DeliveryStatus.failed no_device b
          else if sent_any
          then mark_delivery id DeliveryStatus.sent 0 b
          else mark_delivery id DeliveryStatus.failed last_error b)
        ≡ mark_delivery id
            (if any_where f ts then DeliveryStatus.sent else DeliveryStatus.failed)
            error
            b)
unfolding any_where
push_recorded f id b enabled [] sent_any last_error on any = (no_device, ground arith)
push_recorded f id b enabled (t ∷ ts) sent_any last_error on any = elim (Bool-cases sent_any) [
  | inl e ↦ (0, ground arith)
  | inr e ↦ (last_error, ground arith)
]

-- A push that the user has not turned off is recorded as sent if it reached one of the user's
-- devices, and as failed otherwise: a dead token does not spoil the others.
pub dispatch_push-recorded :
    (send : PushSender) (n : Notification) (b : Board)
    → (get_enabled n.user_id b).0 ≡ true
    → (error : ℕ) × (dispatch_push (some send) n b
        ≡ mark_delivery n.id
            (if any_where
                (delivers (λ t. send t n.title n.body n.deep_link))
                (push_tokens_of n.user_id b.push_tokens)
              then DeliveryStatus.sent
              else DeliveryStatus.failed)
            error
            b)
unfolding dispatch_push
dispatch_push-recorded send n b enabled =
    let tokens = push_tokens_of n.user_id b.push_tokens in
    let deliver : ℕ → ℕ = λ t. send t n.title n.body n.deep_link in
    push_recorded (delivers deliver) n.id b (get_enabled n.user_id b).0 tokens
      (send_all deliver false 0 tokens).0 (send_all deliver false 0 tokens).1 enabled
      (send_all-any deliver false 0 tokens)

muted_row :
    (uid : ℕ) (c : Category) (muted : List Category) (ps : List Preferences)
    → any_where (same_category c) muted ≡ true
    → any_where (preferences_key uid) ps ≡ true
    → any_where
        (has_muted uid c)
        (update_first (preferences_key uid) (set_muted_categories muted) ps)
      ≡ true
unfolding any_where update_first set_muted_categories
muted_row uid c muted [] chosen known = absurd (ground arith)
muted_row uid c muted (p ∷ ps) chosen known = ground (arith, muted_row uid c muted ps chosen)

muted_first :
    (uid : ℕ) (c : Category) (muted : List Category) (ps : List Preferences)
    → any_where (same_category c) muted ≡ true
    → any_where (has_muted uid c) (set_muted_categories muted (default_preferences uid) ∷ ps) ≡ true
unfolding any_where set_muted_categories
muted_first uid c muted ps chosen = ground arith

upsert-muted :
    (uid : ℕ) (c : Category) (muted : List Category) (b : Board)
    → any_where (same_category c) muted ≡ true
    → any_where
        (has_muted uid c)
        (upsert_preferences uid (set_muted_categories muted) b).preferences
      ≡ true
unfolding upsert_preferences
upsert-muted uid c muted b chosen =
    elim (Bool-cases (any_where (preferences_key uid) b.preferences)) [
      | inl e ↦ rw e (muted_row uid c muted b.preferences chosen e)
      | inr e ↦ rw e (muted_first uid c muted b.preferences chosen)
    ]

set_muted-ok :
    (uid : ℕ) (muted : List Category) (b c : Board)
    → set_muted uid muted b ≡ ok c
    → c ≡ upsert_preferences uid (set_muted_categories muted) b
unfolding set_muted
set_muted-ok uid muted b c h = ground arith

unwanted :
    (id now : ℕ) (e : Event) (c : Board)
    → any_where (has_muted e.user_id (category_of e.kind)) c.preferences ≡ true
    → (emit id now e c).0 ≡ c
unfolding emit is_wanted
unwanted id now e c h = ground arith

-- Once a user has muted a category, no event of it makes a notification for that user.
pub emit-muted :
    (id now : ℕ) (e : Event) (muted : List Category) (b c : Board)
    → set_muted e.user_id muted b ≡ ok c
    → any_where (same_category (category_of e.kind)) muted ≡ true
    → (emit id now e c).0 ≡ c
emit-muted id now e muted b c h chosen = unwanted id now e c (
    rw (set_muted-ok e.user_id muted b c h)
      (upsert-muted e.user_id (category_of e.kind) muted b chosen))
