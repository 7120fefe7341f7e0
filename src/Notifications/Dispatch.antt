-- ===== src/Notifications/Dispatch.antt =====
-- `SendNotification` and the dispatch of service.go. The senders are not part of the component: a
-- sender answers with an error's text, or 0 if it delivered.
use hivemind_backend.Auth.Types.{user_key}
use hivemind_backend.Notifications.Inbox.{plain_row, create_notification}
use hivemind_backend.Prelude.{
  guard, ◌>>◌, length, not, find_where, List, ℕ, Result, Bool, Option, update_first, if◌then◌else◌,
  ◌||◌, ◌==◌, ◌∷◌, ok, false, true, [], some, none,
}
use hivemind_backend.Notifications.Types.{
  Channel, Preferences, DeliveryStatus, NotifyError, Notification, Board,
}

-- Recipient, title and body.
abbrev pub EmailSender : Type 0
EmailSender = ℕ → ℕ → ℕ → ℕ

-- Token, title, body and deep link.
abbrev pub PushSender : Type 0
PushSender = ℕ → ℕ → ℕ → ℕ → ℕ

-- The configured senders; `none` is nil.
pub record Senders : Type 0 where
  pub by_email : Option EmailSender
  pub by_push : Option PushSender

-- The texts "no email address on file" and "no registered device".
abbrev pub no_address : ℕ
no_address = 1

abbrev pub no_device : ℕ
no_device = 2

abbrev pub preferences_key : ℕ → Preferences → Bool
preferences_key uid p = p.user_id == uid

-- `GetPreferences` of the repository: push and email, both on by default.
unfoldable pub get_enabled : ℕ → Board → Bool × Bool
get_enabled uid b = elim (find_where (preferences_key uid) b.preferences) [
  | none ↦ (true, true)
  | some p ↦ (p.push_enabled, p.email_enabled)
]

unfoldable pub set_delivery : DeliveryStatus → ℕ → Notification → Notification
set_delivery status error n = record n { delivery_status = status; delivery_error = error }

abbrev pub notification_key : ℕ → Notification → Bool
notification_key id n = n.id == id

-- `MarkDelivery`
unfoldable pub mark_delivery : ℕ → DeliveryStatus → ℕ → Board → Board
unfolding set_delivery
mark_delivery id status error b = record b {
  notifications = update_first (notification_key id) (set_delivery status error) b.notifications;
}

-- `GetUserEmail`; 0 where there is no such user.
unfoldable pub get_user_email : ℕ → Board → ℕ
get_user_email uid b = elim (find_where (user_key uid) b.users) [ none ↦ 0 | some u ↦ u.email ]

-- `dispatchEmail`
unfoldable pub dispatch_email : Option EmailSender → Notification → Board → Board
unfolding get_enabled get_user_email mark_delivery
dispatch_email none n b = b
dispatch_email (some send) n b =
    let to = get_user_email n.user_id b in
    let error = send to n.title n.body in
    if not (get_enabled n.user_id b).1
    then b
    else if to == 0
    then mark_delivery n.id DeliveryStatus.failed no_address b
    else if error == 0
    then mark_delivery n.id DeliveryStatus.sent 0 b
    else mark_delivery n.id DeliveryStatus.failed error b

-- `ListDevicePushTokens`
unfoldable pub push_tokens_of : ℕ → List (ℕ × ℕ) → List ℕ
push_tokens_of uid [] = []
push_tokens_of uid ((owner, token) ∷ rest) =
    let others = push_tokens_of uid rest in if owner == uid then token ∷ others else others

-- The loop over the tokens: whether any was sent to, and the last error.
unfoldable pub send_all : (ℕ → ℕ) → Bool → ℕ → List ℕ → Bool × ℕ
send_all send sent_any last_error [] = (sent_any, last_error)
send_all send sent_any last_error (t ∷ ts) =
    let error = send t in
    if error == 0 then send_all send true last_error ts else send_all send sent_any error ts

-- `dispatchPush`
unfoldable pub dispatch_push : Option PushSender → Notification → Board → Board
unfolding get_enabled push_tokens_of send_all mark_delivery
dispatch_push none n b = b
dispatch_push (some send) n b =
    let tokens = push_tokens_of n.user_id b.push_tokens in
    let (sent_any, error) = send_all (λ t. send t n.title n.body n.deep_link) false 0 tokens in
    if not (get_enabled n.user_id b).0
    then b
    else if length tokens == 0
    then mark_delivery n.id DeliveryStatus.failed no_device b
    else if sent_any
    then mark_delivery n.id DeliveryStatus.sent 0 b
    else mark_delivery n.id DeliveryStatus.failed error b

-- The `switch` on the channel.
unfoldable pub dispatch : Channel → Senders → Notification → Board → Board
unfolding dispatch_email dispatch_push
dispatch Channel.push s n b = dispatch_push s.by_push n b
dispatch Channel.email s n b = dispatch_email s.by_email n b
dispatch Channel.in_app s n b = b

-- `SendNotification`
unfoldable pub send_notification : Senders → Notification → Board → Result NotifyError Board
unfolding dispatch create_notification
send_notification s n b = do
  guard (not (n.user_id == 0 || n.title == 0)) NotifyError.invalid_input
  ok (dispatch n.channel s (plain_row n) (create_notification n b))
