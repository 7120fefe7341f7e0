-- ===== src/Notifications/Tests.antt =====
-- Small tables of notifications, and the theorems applied to them.
use hivemind_backend.Bookings.Types.{Role}
use hivemind_backend.Notifications.Emit.{emit, is_wanted}
use hivemind_backend.Notifications.Settings.{default_preferences}
use hivemind_backend.Notifications.Dispatch.{
  dispatch, PushSender, send_notification, dispatch_push, Senders,
}
use hivemind_backend.Auth.Types.{UserStatus, User}
use hivemind_backend.Notifications.Inbox.{
  unread_count, insert_by_time, mark_rows_read, mark_read, newest_first, PageToken,
}
use hivemind_backend.Notifications.Types.{
  DeliveryStatus, Board, Channel, Notification, EventType, Event, Category,
}
use hivemind_backend.Prelude.{
  update_first, update_where, map, arith, any_where, find_where, count_where, select_where, ℕ, List,
  if◌then◌else◌, ◌⊎◌, ◌≡◌, ◌==◌, ◌∷◌, false, true, [], some, none, refl,
}
use hivemind_backend.Notifications.History.{board_step, board_run, BoardCall, board_run-IsDeduped}
use hivemind_backend.Notifications.Unread.{IsDeduped, unread_count-mark_all}
use hivemind_backend.Notifications.Pages.{inbox, walk, walk-inbox}

abbrev cara : User
cara = record {
  id = 1;
  email = 11;
  role = Role.user;
  status = UserStatus.active;
  recovery_email = 0;
  recovery_email_verified_at = none;
}

abbrev like : Event
like = record {
  user_id = 1;
  actor_id = 2;
  kind = EventType.post_like;
  target_id = 5;
  title = 6;
  body = 0;
  deep_link = 7;
  dedupe_key = 8;
}

abbrev row : ℕ → ℕ → Notification
row id time = record {
  id = id;
  user_id = 1;
  channel = Channel.push;
  kind = EventType.no_type;
  actor_id = 0;
  target_id = 0;
  title = 6;
  body = 0;
  deep_link = 7;
  dedupe_key = 0;
  read = false;
  created_at = time;
  delivery_status = DeliveryStatus.pending;
  delivery_error = 0;
}

abbrev board : Board
board = record {
  notifications = row 21 50 ∷ row 20 70 ∷ [];
  preferences = [];
  users = cara ∷ [];
  blocks = [];
  push_tokens = (1, 90) ∷ (1, 91) ∷ [];
}

-- Token 90 is dead.
abbrev sender : PushSender
sender t title body link = if t == 90 then 4 else 0

abbrev senders : Senders
senders = record { by_email = none; by_push = some sender }

abbrev calls : List (ℕ × BoardCall)
calls =
    (80, BoardCall.emits 30 like)
    ∷ (81, BoardCall.emits 31 like)
    ∷ (82, BoardCall.sends senders (row 32 82))
    ∷ (83, BoardCall.marks_read 1 [] true)
    ∷ (84, BoardCall.emits 33 like)
    ∷ []

start-IsDeduped : IsDeduped board.notifications
unfolding IsDeduped count_where
start-IsDeduped uid key = ground arith

-- The repeat is refused, and comes again once the first is read.
calls-ids : map Notification.id (board_run board calls).notifications ≡ 33 ∷ 32 ∷ 30 ∷ 21 ∷ 20 ∷ []
unfolding board_run emit is_wanted send_notification dispatch dispatch_push mark_read mark_rows_read
    any_where board_step find_where update_where update_first
calls-ids = refl

board_run-IsDeduped_example : IsDeduped (board_run board calls).notifications
board_run-IsDeduped_example = board_run-IsDeduped board calls start-IsDeduped

unread_count-mark_all_example :
    (unread_count 1 (mark_rows_read 1 [] true board) ≡ 0)
    × ((◌≡◌ {A = ℕ} 2 1) ⊎ (unread_count 2 (mark_rows_read 1 [] true board) ≡ unread_count 2 board))
unread_count-mark_all_example = unread_count-mark_all 1 2 board

walk-inbox_example : walk 3 1 PageToken.no_token board ≡ inbox 1 board
unfolding select_where newest_first insert_by_time
walk-inbox_example = walk-inbox 3 1 board refl ((refl, tt), (tt, tt)) (omega arith)

abbrev muted_board : Board
muted_board = record board {
  preferences = record (default_preferences 1) { muted_categories = Category.social ∷ [] } ∷ [];
}
