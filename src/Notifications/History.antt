-- ===== src/Notifications/History.antt =====
-- A history of internal/notifications, and that no key ever has two unread rows of one user.
use hivemind_backend.Notifications.Inbox.{plain_row, mark_rows_read, create_notification, mark_read}
use hivemind_backend.Notifications.Dispatch.{
  no_address, push_tokens_of, get_user_email, no_device, send_all, get_enabled, EmailSender,
  PushSender, dispatch, mark_delivery, dispatch_email, dispatch_push, Senders, send_notification,
}
use hivemind_backend.Notifications.Emit.{is_repeat, new_row, is_wanted, emit, is_unread_with}
use hivemind_backend.Prelude.{
  length, Option, some, none, not, if◌then◌else◌, ◌||◌, true, first, after, arith, Bool-cases,
  map_ok, Bool, ◌&&◌, ◌==◌, inr, inl, [], refl, List, ℕ, any_where, ◌⊎◌, ◌≡◌, ◌∷◌, false,
}
use hivemind_backend.Notifications.Types.{
  Channel, is_type, DeliveryStatus, Event, Notification, Board,
}
use hivemind_backend.Notifications.Unread.{
  IsDeduped, push-IsDeduped, read-IsDeduped, mark_delivery-IsDeduped,
}

-- One call at a time; settings do not touch the rows.
pub data BoardCall : Type 0 where
  emits : (id : ℕ) → Event → BoardCall
  sends : Senders → Notification → BoardCall
  marks_read : (uid : ℕ) (ids : List ℕ) → Bool → BoardCall

unfoldable pub board_step : Board → ℕ × BoardCall → Board
board_step b (now, BoardCall.emits id e) = (emit id now e b).0
board_step b (now, BoardCall.sends s n) = after b (send_notification s n b)
board_step b (now, BoardCall.marks_read uid ids all) =
    after b (map_ok first (mark_read uid ids all b))

unfoldable pub board_run : Board → List (ℕ × BoardCall) → Board
board_run b [] = b
board_run b (c ∷ cs) = board_run (board_step b c) cs

emit-cases :
    (id now : ℕ) (e : Event) (b : Board)
    → ((emit id now e b).0 ≡ b)
      ⊎ (((emit id now e b).0 ≡ record b { notifications = new_row id now e ∷ b.notifications })
          × (is_repeat e b ≡ false))
unfolding emit
emit-cases id now e b = elim (Bool-cases (e.user_id == 0 || not (is_type e.kind) || e.title == 0)) [
  | inl invalid ↦ inl (rw invalid)
  | inr valid ↦ elim (Bool-cases (is_wanted e b && not (is_repeat e b))) [
    | inl wanted ↦ inr (rw (valid, wanted), ground arith)
    | inr unwanted ↦ inl (rw (valid, unwanted))
  ]
]

not_repeat :
    (e : Event) (b : Board)
    → is_repeat e b ≡ false
    → (e.dedupe_key ≡ 0)
      ⊎ (any_where (is_unread_with e.user_id e.dedupe_key) b.notifications ≡ false)
not_repeat e b h = ground arith

-- A choice of two updates of the delivery.
deliver-IsDeduped :
    (c d e : Bool) (id : ℕ) (x y z : DeliveryStatus) (i j k : ℕ) (b : Board)
    → IsDeduped b.notifications
    → IsDeduped
        (if c
          then b
          else if d
          then mark_delivery id x i b
          else if e
          then mark_delivery id y j b
          else mark_delivery id z k b).notifications
deliver-IsDeduped true d e id x y z i j k b deduped = deduped
deliver-IsDeduped false true e id x y z i j k b deduped = mark_delivery-IsDeduped id x i b deduped
deliver-IsDeduped false false true id x y z i j k b deduped =
    mark_delivery-IsDeduped id y j b deduped
deliver-IsDeduped false false false id x y z i j k b deduped =
    mark_delivery-IsDeduped id z k b deduped

dispatch_email-IsDeduped :
    (sender : Option EmailSender) (n : Notification) (b : Board)
    → IsDeduped b.notifications
    → IsDeduped (dispatch_email sender n b).notifications
unfolding dispatch_email
dispatch_email-IsDeduped none n b deduped = deduped
dispatch_email-IsDeduped (some send) n b deduped =
    deliver-IsDeduped (not (get_enabled n.user_id b).1) (get_user_email n.user_id b == 0)
      (send (get_user_email n.user_id b) n.title n.body == 0) n.id DeliveryStatus.failed
      DeliveryStatus.sent DeliveryStatus.failed no_address 0
      (send (get_user_email n.user_id b) n.title n.body) b deduped

dispatch_push-IsDeduped :
    (sender : Option PushSender) (n : Notification) (b : Board)
    → IsDeduped b.notifications
    → IsDeduped (dispatch_push sender n b).notifications
unfolding dispatch_push
dispatch_push-IsDeduped none n b deduped = deduped
dispatch_push-IsDeduped (some send) n b deduped =
    deliver-IsDeduped (not (get_enabled n.user_id b).0)
      (length (push_tokens_of n.user_id b.push_tokens) == 0)
      (send_all (λ t. send t n.title n.body n.deep_link) false 0
        (push_tokens_of n.user_id b.push_tokens)).0
      n.id DeliveryStatus.failed DeliveryStatus.sent DeliveryStatus.failed no_device 0
      (send_all (λ t. send t n.title n.body n.deep_link) false 0
        (push_tokens_of n.user_id b.push_tokens)).1
      b deduped

dispatch-IsDeduped :
    (c : Channel) (s : Senders) (n : Notification) (b : Board)
    → IsDeduped b.notifications
    → IsDeduped (dispatch c s n b).notifications
unfolding dispatch
dispatch-IsDeduped Channel.push s n b deduped = dispatch_push-IsDeduped s.by_push n b deduped
dispatch-IsDeduped Channel.email s n b deduped = dispatch_email-IsDeduped s.by_email n b deduped
dispatch-IsDeduped Channel.in_app s n b deduped = deduped

send_notification-cases :
    (s : Senders) (n : Notification) (b : Board)
    → (after b (send_notification s n b) ≡ b)
      ⊎ (after b (send_notification s n b)
          ≡ dispatch n.channel s (plain_row n) (create_notification n b))
unfolding send_notification
send_notification-cases s n b = ground arith

mark_read-cases :
    (uid : ℕ) (ids : List ℕ) (all : Bool) (b : Board)
    → (after b (map_ok first (mark_read uid ids all b)) ≡ b)
      ⊎ (after b (map_ok first (mark_read uid ids all b)) ≡ mark_rows_read uid ids all b)
unfolding mark_read
mark_read-cases uid ids all b = ground arith

mark_rows_read-IsDeduped :
    (uid : ℕ) (ids : List ℕ) (all : Bool) (b : Board)
    → IsDeduped b.notifications
    → IsDeduped (mark_rows_read uid ids all b).notifications
unfolding mark_rows_read
mark_rows_read-IsDeduped uid ids true b deduped = read-IsDeduped _ b.notifications deduped
mark_rows_read-IsDeduped uid ids false b deduped = read-IsDeduped _ b.notifications deduped

create_notification-IsDeduped :
    (n : Notification) (b : Board)
    → IsDeduped b.notifications
    → IsDeduped (create_notification n b).notifications
unfolding create_notification
create_notification-IsDeduped n b deduped =
    push-IsDeduped (plain_row n) b.notifications (inl refl) deduped

board_step-IsDeduped :
    (b : Board) (c : ℕ × BoardCall)
    → IsDeduped b.notifications
    → IsDeduped (board_step b c).notifications
unfolding board_step
board_step-IsDeduped b (now, BoardCall.emits id e) deduped = elim (emit-cases id now e b) [
  | inl same ↦ rw same deduped
  | inr (added, fresh) ↦
      rw added (push-IsDeduped (new_row id now e) b.notifications (not_repeat e b fresh) deduped)
]
board_step-IsDeduped b (now, BoardCall.sends s n) deduped = elim (send_notification-cases s n b) [
  | inl same ↦ rw same deduped
  | inr sent ↦ rw sent (
      dispatch-IsDeduped n.channel s (plain_row n) (create_notification n b)
        (create_notification-IsDeduped n b deduped))
]
board_step-IsDeduped b (now, BoardCall.marks_read uid ids all) deduped =
    elim (mark_read-cases uid ids all b) [
      | inl same ↦ rw same deduped
      | inr marked ↦ rw marked (mark_rows_read-IsDeduped uid ids all b deduped)
    ]

-- Whatever is emitted, sent and marked read, no user has two unread notifications with one key.
pub board_run-IsDeduped :
    (b : Board) (cs : List (ℕ × BoardCall))
    → IsDeduped b.notifications
    → IsDeduped (board_run b cs).notifications
unfolding board_run
board_run-IsDeduped b [] deduped = deduped
board_run-IsDeduped b (c ∷ cs) deduped =
    board_run-IsDeduped (board_step b c) cs (board_step-IsDeduped b c deduped)
